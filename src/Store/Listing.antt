-- ===== src/Store/Listing.antt =====
-- The states that a memory store reaches, and what it lists.
use httptape.Prelude.{
  Text, ◌≡◌, refl, sym, ◌≢◌, ◌↔◌, ap, ◌∙◌, Bool, true, false, none, some, List, [], ◌∷◌, keep, map,
  Member, arith, ◌==◌, text_eq, eq_iff, Option-cases, Bool-cases, inl, inr,
}
use httptape.Tape.{Tape}
use httptape.Store.{Filter, passes, listed}
use mathlib.Core.List.{Permᴰ}
use mathlib.Core.List.Permᴰ.{nil, cons, swap, trans}
use mathlib.Core.List.Permᴰ
use httptape.Store.Memory.{Entries, Walk, lookup, put, remove, save, list, delete}

-- The states after any calls of `Save` and `Delete`, whatever their contexts.
pub data Reachable : Entries → Type 0 where
  empty : Reachable []
  saved :
      {s : Entries} (cancelled : Bool) (t : Tape) → Reachable s → Reachable (save cancelled t s).1
  deleted :
      {s : Entries} (cancelled : Bool) (id : Text)
      → Reachable s
      → Reachable (delete cancelled id s).1

-- each tape is stored under its own ID, and no ID twice
abbrev IsValid : Entries → Type 0
IsValid [] = Unit
IsValid (entry ∷ rest) = (entry.0 ≡ entry.1.id) × (lookup entry.0 rest ≡ none) × IsValid rest

lookup-put_other :
    (id other : Text) (t : Tape) (s : Entries)
    → id ≢ other
    → lookup other (put id t s) ≡ lookup other s
unfolding lookup put
lookup-put_other id other t [] ne = ground (arith, eq_iff id other)
lookup-put_other id other t (entry ∷ rest) ne = ground (
  arith,
  lookup-put_other id other t rest ne,
  eq_iff entry.0 id,
  eq_iff entry.0 other,
  eq_iff id other,
)

put-IsValid : (t : Tape) (s : Entries) → IsValid s → IsValid (put t.id t s)
unfolding put
put-IsValid t [] h = (refl, unfold lookup in refl, tt)
put-IsValid t (entry ∷ rest) h = elim (Bool-cases (entry.0 == t.id)) [
  | inl e ↦
      let same : entry.0 ≡ t.id = (eq_iff entry.0 t.id).0 e in
      rw e (refl, ap (λ i. lookup i rest) (sym same) ∙ h.1, h.2)
  | inr e ↦
      let differ : t.id ≢ entry.0 = λ q. absurd (ground (arith, eq_iff entry.0 t.id)) in
      rw e (h.0, lookup-put_other t.id entry.0 t rest differ ∙ h.1, put-IsValid t rest h.2)
]

lookup-remove-none :
    (id other : Text) (s : Entries) → lookup other s ≡ none → lookup other (remove id s) ≡ none
unfolding lookup remove
lookup-remove-none id other [] h = refl
lookup-remove-none id other (entry ∷ rest) h =
    ground (arith, lookup-remove-none id other rest, eq_iff entry.0 id, eq_iff entry.0 other)

remove-IsValid : (id : Text) (s : Entries) → IsValid s → IsValid (remove id s)
unfolding remove
remove-IsValid id [] h = tt
remove-IsValid id (entry ∷ rest) h = elim (Bool-cases (entry.0 == id)) [
  | inl e ↦ rw e (remove-IsValid id rest h.2)
  | inr e ↦ rw e (h.0, lookup-remove-none id entry.0 rest h.1, remove-IsValid id rest h.2)
]

save-IsValid :
    (cancelled : Bool) (t : Tape) (s : Entries) → IsValid s → IsValid (save cancelled t s).1
unfolding save
save-IsValid true t s h = h
save-IsValid false t s h = put-IsValid t s h

delete-IsValid :
    (cancelled : Bool) (id : Text) (s : Entries) → IsValid s → IsValid (delete cancelled id s).1
unfolding delete
delete-IsValid true id s h = h
delete-IsValid false id s h = elim (Option-cases (lookup id s)) [
  | inl e ↦ rw e h
  | inr (t, e) ↦ rw e (remove-IsValid id s h)
]

Reachable-IsValid : (s : Entries) → Reachable s → IsValid s
Reachable-IsValid s empty = tt
Reachable-IsValid s (saved {s = old} cancelled t r) =
    save-IsValid cancelled t old (Reachable-IsValid old r)
Reachable-IsValid s (deleted {s = old} cancelled id r) =
    delete-IsValid cancelled id old (Reachable-IsValid old r)

abbrev stored : Entries → List Tape
stored s = map (λ (entry : Text × Tape). entry.1) s

to_found :
    (t : Tape) (entry : Text × Tape) (rest : Entries)
    → IsValid (entry ∷ rest)
    → (Member t (stored rest) → lookup t.id rest ≡ some t)
    → Member t (stored (entry ∷ rest))
    → lookup t.id (entry ∷ rest) ≡ some t
unfolding lookup
to_found t entry rest h found (inl e) =
    let same : (entry.0 == t.id) ≡ true =
      (eq_iff entry.0 t.id).1 (h.0 ∙ ap (λ (u : Tape). u.id) (sym e)) in
    rw same (ap some (sym e))
to_found t entry rest h found (inr m) = elim (Bool-cases (entry.0 == t.id)) [
  | inl e ↦
      let missing = ap (λ i. lookup i rest) (sym ((eq_iff entry.0 t.id).0 e)) ∙ h.1 in
      let present = found m in absurd (cc)
  | inr e ↦ rw e (found m)
]

-- a tape is among the stored ones exactly if its ID leads to it
Member-stored_iff :
    (t : Tape) (s : Entries) → IsValid s → Member t (stored s) ↔ (lookup t.id s ≡ some t)
unfolding lookup
Member-stored_iff t [] h = (λ m. absurd m, λ e. cc)
Member-stored_iff t (entry ∷ rest) h =
    let tail = Member-stored_iff t rest h.2 in
    (
      to_found t entry rest h tail.0,
      λ q. elim (Bool-cases (entry.0 == t.id)) [
        | inl e ↦ inl (cc (rw e at q))
        | inr e ↦ inr (tail.1 (rw e at q))
      ],
    )

Member-keep_iff :
    (p : Tape → Bool) (t : Tape) (ts : List Tape)
    → Member t (keep p ts) ↔ (Member t ts × (p t ≡ true))
Member-keep_iff p t [] = (λ m. absurd m, λ m. m.0)
Member-keep_iff p t (u ∷ us) =
    let rest = Member-keep_iff p t us in
    elim (Bool-cases (p u)) [
      | inl e ↦ rw e (
        λ m. elim m [ inl q ↦ (inl q, ap p q ∙ e) | inr k ↦ (inr (rest.0 k).0, (rest.0 k).1) ],
        λ m. elim m.0 [ inl q ↦ inl q | inr k ↦ inr (rest.1 (k, m.1)) ],
      )
      | inr e ↦ rw e (
        λ m. (inr (rest.0 m).0, (rest.0 m).1),
        λ m. elim m.0 [ inl q ↦ absurd (ground (arith, ap p q)) | inr k ↦ rest.1 (k, m.1) ],
      )
    ]

Member-map :
    (t : Tape) {xs ys : Entries} → Permᴰ xs ys → Member t (stored xs) → Member t (stored ys)
Member-map t nil m = m
Member-map t (cons e d) (inl q) = inl (q ∙ ap (λ (u : Text × Tape). u.1) e)
Member-map t (cons e d) (inr m) = inr (Member-map t d m)
Member-map t (swap e f) (inl q) = inr (inl (q ∙ ap (λ (u : Text × Tape). u.1) e))
Member-map t (swap e f) (inr (inl q)) = inl (q ∙ ap (λ (u : Text × Tape). u.1) f)
Member-map t (swap e f) (inr (inr m)) = inr (inr m)
Member-map t (trans d e) m = Member-map t e (Member-map t d m)

-- In a store that any saves and deletes have made, `List` gives, in whatever order it walks the map, the
-- tapes that are stored under their IDs and pass the filter, and no other.
pub list_iff :
    (walk : Walk) (s : Entries) (f : Filter)
    → Reachable s
    → (out : List Tape) × (list walk false f s ≡ listed out)
      × ((t : Tape) → Member t out ↔ ((lookup t.id s ≡ some t) × (passes f t ≡ true)))
unfolding list
list_iff walk s f r = (
  keep (passes f) (stored (walk.order s)),
  refl,
  λ t.
      let kept = Member-keep_iff (passes f) t (stored (walk.order s)) in
      let found = Member-stored_iff t s (Reachable-IsValid s r) in
      let p = walk.permutes s in
      (
        λ m. (found.0 (Member-map t p (kept.0 m).0), (kept.0 m).1),
        λ q. kept.1 (Member-map t (Permᴰ.symm p) (found.1 q.0), q.1),
      ),
)
