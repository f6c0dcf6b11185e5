-- ===== src/Store/Saved.antt =====
-- store_memory.go: a tape that is saved is listed, in whatever order the map is walked.
use httptape.Prelude.{
  Text, ◌≡◌, sym, Bool, true, false, List, [], ◌∷◌, keep, map, All, Bool-cases, inl, inr,
  if◌then◌else◌, ◌==◌, text_eq,
}
use httptape.Tape.{Tape}
use httptape.Store.{Filter, passes}
use mathlib.Core.List.{Permᴰ}
use mathlib.Core.List.Permᴰ.{nil, cons, swap, trans}
use mathlib.Core.List.Permᴰ
use mathlib.Core.Path.{subst}
use httptape.Store.Memory.{Entries, Walk, put}

All-rest :
    (P : Tape → Type 0) (b : Bool) (t : Tape) (ts : List Tape)
    → All P (if b then t ∷ ts else ts)
    → All P ts
All-rest P true t ts h = h.1
All-rest P false t ts h = h

-- what a memory store lists after a save holds the saved tape, if the filter lets it pass
All-saved :
    (P : Tape → Type 0) (filter : Filter) (t : Tape) (s : Entries)
    → passes filter t ≡ true
    → All P (keep (passes filter) (map (λ (entry : Text × Tape). entry.1) (put t.id t s)))
    → P t
unfolding put
All-saved P filter t [] pass h = (rw pass at h).0
All-saved P filter t (entry ∷ s) pass h = elim (Bool-cases (entry.0 == t.id)) [
  | inl e ↦ (rw (e, put, pass) at h).0
  | inr e ↦
      All-saved P filter t s pass (All-rest P (passes filter entry.1) entry.1 _ (rw (e, put) at h))
]

-- what a memory store lists on a walk
abbrev pub walked : Walk → Filter → Entries → List Tape
walked walk filter s = keep (passes filter) (map (λ (entry : Text × Tape). entry.1) (walk.order s))

pub All-Permᴰ : {A : Type 0} (P : A → Type 0) {xs ys : List A} → Permᴰ xs ys → All P ys → All P xs
All-Permᴰ P nil h = tt
All-Permᴰ P (cons e d) h = (subst P (sym e) h.0, All-Permᴰ P d h.1)
All-Permᴰ P (swap e f) h = (subst P (sym e) h.1.0, (subst P (sym f) h.0, h.1.1))
All-Permᴰ P (trans d e) h = All-Permᴰ P d (All-Permᴰ P e h)

-- `P` of the tapes that pass, said of the entries
abbrev IfPasses : (Tape → Type 0) → Filter → Text × Tape → Type 0
IfPasses P filter entry = passes filter entry.1 ≡ true → P entry.1

All-passing :
    (P : Tape → Type 0) (filter : Filter) (s : Entries)
    → All P (keep (passes filter) (map (λ (entry : Text × Tape). entry.1) s))
    → All (IfPasses P filter) s
All-passing P filter [] h = tt
All-passing P filter (entry ∷ s) h = elim (Bool-cases (passes filter entry.1)) [
  | inl e ↦ let k = rw e at h in (λ q. k.0, All-passing P filter s k.1)
  | inr e ↦ (λ q. absurd (cc (e, q)), All-passing P filter s (rw e at h))
]

All-kept :
    (P : Tape → Type 0) (filter : Filter) (s : Entries)
    → All (IfPasses P filter) s
    → All P (keep (passes filter) (map (λ (entry : Text × Tape). entry.1) s))
All-kept P filter [] h = tt
All-kept P filter (entry ∷ s) h = elim (Bool-cases (passes filter entry.1)) [
  | inl e ↦ rw e (h.0 e, All-kept P filter s h.1)
  | inr e ↦ rw e (All-kept P filter s h.1)
]

-- what holds of all tapes on one walk holds of them on every other
pub All-walked :
    (P : Tape → Type 0) (filter : Filter) (w v : Walk) (s : Entries)
    → All P (walked w filter s)
    → All P (walked v filter s)
All-walked P filter w v s h = All-kept P filter (v.order s) (
    All-Permᴰ (IfPasses P filter) (v.permutes s) (
      All-Permᴰ (IfPasses P filter) (Permᴰ.symm (w.permutes s))
        (All-passing P filter (w.order s) h)))

pub All-walked_saved :
    (P : Tape → Type 0) (filter : Filter) (w : Walk) (t : Tape) (s : Entries)
    → passes filter t ≡ true
    → All P (walked w filter (put t.id t s))
    → P t
All-walked_saved P filter w t s pass h = All-saved P filter t s pass (
    All-kept P filter (put t.id t s) (
      All-Permᴰ (IfPasses P filter) (Permᴰ.symm (w.permutes (put t.id t s)))
        (All-passing P filter (w.order (put t.id t s)) h)))
