-- ===== src/Store/Memory.antt =====
-- store_memory.go: the store that keeps its tapes in a map, here a list of entries.
use httptape.Prelude.{
  Text, ◌≡◌, refl, Bool, false, not, Option, none, some, Option-cases, inl, inr, List, [], ◌∷◌,
  keep, map, arith, if◌then◌else◌, ◌==◌, text_eq, eq_iff,
}
use mathlib.Core.List.{Permᴰ}
use httptape.Tape.{Tape}
use httptape.Store.{
  StoreError, context_error, not_found, Loaded, failed, Listed, not_listed, listed, Filter, passes,
  Store, IsStore, Takes, loaded_from, deleted_from,
}

abbrev pub Entries : Type 0
Entries = List (Text × Tape)

-- An order in which `range` walks the map: Go chooses one for each call of `List`.
pub record Walk : Type 0 where
  pub order : Entries → Entries
  pub permutes : (s : Entries) → Permᴰ (order s) s

unfoldable pub lookup : Text → Entries → Option Tape
lookup id [] = none
lookup id (entry ∷ rest) = if entry.0 == id then some entry.1 else lookup id rest

unfoldable pub put : Text → Tape → Entries → Entries
put id t [] = (id, t) ∷ []
put id t (entry ∷ rest) =
    let more = put id t rest in if entry.0 == id then (id, t) ∷ rest else entry ∷ more

unfoldable pub remove : Text → Entries → Entries
remove id entries = keep (λ (entry : Text × Tape). not (entry.0 == id)) entries

unfoldable pub save : Bool → Tape → Entries → Option StoreError × Entries
unfolding put
save cancelled t s = if cancelled then (some context_error, s) else (none, put t.id t s)

unfoldable pub load : Bool → Text → Entries → Loaded
unfolding lookup
load cancelled id s = if cancelled then failed context_error else loaded_from (lookup id s)

-- `for _, tape := range ms.tapes`
unfoldable pub list : Walk → Bool → Filter → Entries → Listed
unfolding passes
list walk cancelled filter s =
    if cancelled
    then not_listed context_error
    else listed (keep (passes filter) (map (λ (entry : Text × Tape). entry.1) (walk.order s)))

abbrev delete_found : Text → Entries → Option Tape → Option StoreError × Entries
delete_found id s none = (some not_found, s)
delete_found id s (some t) = (none, remove id s)

unfoldable pub delete : Bool → Text → Entries → Option StoreError × Entries
unfolding lookup remove
delete cancelled id s =
    if cancelled then (some context_error, s) else delete_found id s (lookup id s)

abbrev pub memory_store : Walk → Store Entries
memory_store walk = record { save = save; load = load; list = list walk; delete = delete }

lookup-put :
    (id other : Text) (t : Tape) (s : Entries)
    → lookup other (put id t s) ≡ (if id == other then some t else lookup other s)
unfolding put lookup
lookup-put id other t [] = refl
lookup-put id other t (entry ∷ rest) =
    ground
      (arith, lookup-put id other t rest, eq_iff entry.0 id, eq_iff entry.0 other, eq_iff id other)

lookup-remove :
    (id other : Text) (s : Entries)
    → lookup other (remove id s) ≡ (if id == other then none else lookup other s)
unfolding remove lookup
lookup-remove id other [] = ground arith
lookup-remove id other (entry ∷ rest) =
    ground
      (arith, lookup-remove id other rest, eq_iff entry.0 id, eq_iff entry.0 other, eq_iff id other)

delete-contents :
    (id other : Text) (s : Entries)
    → lookup other (delete false id s).1 ≡ (if id == other then none else lookup other s)
unfolding delete
delete-contents id other s = elim (Option-cases (lookup id s)) [
  | inl e ↦ rw e (ground (arith, eq_iff id other))
  | inr (t, e) ↦ rw e (lookup-remove id other s)
]

pub memory_store-IsStore :
    (walk : Walk)
    → IsStore (memory_store walk) (λ s id. lookup id s) × ((t : Tape) → Takes (memory_store walk) t)
unfolding save load list
memory_store-IsStore walk = (
  record {
    save_contents = λ t s id. inl (lookup-put t.id id t s);
    load_contents = λ id s. refl;
    delete_found = λ id s. delete_error id s;
    delete_contents = λ id s other. delete-contents id other s;
    save_cancelled = λ t s. refl;
    load_cancelled = λ id s. refl;
    list_cancelled = λ f s. refl;
    delete_cancelled = λ id s. unfold delete in refl;
  },
  λ t s. refl,
)
  where
    delete_error : (id : Text) (s : Entries) → (delete false id s).0 ≡ deleted_from (lookup id s)
    delete_error id s =
        unfold delete in
        elim (Option-cases (lookup id s)) [ inl e ↦ rw e refl | inr (t, e) ↦ rw e refl ]
