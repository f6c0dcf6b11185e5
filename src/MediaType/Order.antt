-- ===== src/MediaType/Order.antt =====
-- The order of the media ranges of an Accept header.
use httptape.Prelude.{
  ℕ, ◌+◌, ◌*◌, ◌≤◌, ◌<◌, ◌≡◌, refl, sym, ap, ◌∙◌, Bool, false, List, [], ◌∷◌, ◌++◌, keep,
  keep-append, All, All-append, ltb, nat_beq, arith, Bool-cases, inl, inr, text_eq,
}
use mathlib.Core.List.{reverse, reverse-cons, reverse-reverse, append_assoc, append-nil}
use httptape.Float.{is_nan, float_key, float_less, float_equal}
use httptape.MediaType.{MediaType, specificity, precedes, insert_back, sort_back, sort_stable}

abbrev pub IsNumber : MediaType → Type 0
IsNumber mt = is_nan mt.q_value ≡ false

-- A range's rank: its q-value, then its specificity.
abbrev pub rank : MediaType → ℕ
rank mt = float_key mt.q_value * 4 + specificity mt

specificity_bound : (mt : MediaType) → specificity mt ≤ 3
unfolding specificity
specificity_bound mt = ground arith

-- the test of the sort compares ranks
precedes-ltb : (a b : MediaType) → IsNumber a → IsNumber b → precedes a b ≡ ltb (rank b) (rank a)
unfolding precedes float_less float_equal
precedes-ltb a b na nb = rw (na, nb) (ground (arith, specificity_bound a, specificity_bound b))

abbrev Ascending : List MediaType → Type 0
Ascending [] = Unit
Ascending (x ∷ xs) = All (λ y. rank x ≤ rank y) xs × Ascending xs

abbrev pub Descending : List MediaType → Type 0
Descending [] = Unit
Descending (x ∷ xs) = All (λ y. rank y ≤ rank x) xs × Descending xs

insert_back-All :
    (P : MediaType → Type 0) (x : MediaType) (s : List MediaType)
    → P x
    → All P s
    → All P (insert_back x s)
unfolding insert_back
insert_back-All P x [] h k = (h, tt)
insert_back-All P x (y ∷ ys) h k = elim (Bool-cases (precedes x y)) [
  | inl e ↦ rw e (k.0, insert_back-All P x ys h k.1)
  | inr e ↦ rw e (h, k)
]

All-weaken :
    (a b : ℕ) (s : List MediaType) → a ≤ b → All (λ y. b ≤ rank y) s → All (λ y. a ≤ rank y) s
All-weaken a b [] le h = tt
All-weaken a b (y ∷ ys) le h = (omega arith, All-weaken a b ys le h.1)

insert_back-Ascending :
    (x : MediaType) (s : List MediaType)
    → IsNumber x
    → All IsNumber s
    → Ascending s
    → Ascending (insert_back x s)
unfolding insert_back
insert_back-Ascending x [] nx ns h = (tt, tt)
insert_back-Ascending x (y ∷ ys) nx ns h = elim (Bool-cases (precedes x y)) [
  | inl e ↦
      let less : rank y ≤ rank x = ground (arith, precedes-ltb x y nx ns.0) in
      rw e (
        insert_back-All (λ z. rank y ≤ rank z) x ys less h.0,
        insert_back-Ascending x ys nx ns.1 h.1,
      )
  | inr e ↦
      let least : rank x ≤ rank y = ground (arith, precedes-ltb x y nx ns.0) in
      rw e ((least, All-weaken (rank x) (rank y) ys least h.0), h)
]

abbrev pub ranked : ℕ → MediaType → Bool
ranked r mt = nat_beq (rank mt) r

-- an insertion passes no range of its own rank
keep-insert_back :
    (r : ℕ) (x : MediaType) (s : List MediaType)
    → IsNumber x
    → All IsNumber s
    → keep (ranked r) (insert_back x s) ≡ keep (ranked r) (x ∷ s)
unfolding insert_back
keep-insert_back r x [] nx ns = refl
keep-insert_back r x (y ∷ ys) nx ns = elim (Bool-cases (precedes x y)) [
  | inl e ↦
      let less : rank y < rank x = ground (arith, precedes-ltb x y nx ns.0) in
      rw (e, keep-insert_back r x ys nx ns.1) (ground arith)
  | inr e ↦ rw e refl
]

keep-reverse :
    (p : MediaType → Bool) (xs : List MediaType) → keep p (reverse xs) ≡ reverse (keep p xs)
keep-reverse p [] = refl
keep-reverse p (x ∷ xs) = elim (Bool-cases (p x)) [
  | inl e ↦
      rw
        (
          reverse-cons x xs,
          keep-append p (reverse xs) (x ∷ []),
          keep-reverse p xs,
          e,
          reverse-cons x (keep p xs),
        )
        refl
  | inr e ↦
      rw (reverse-cons x xs, keep-append p (reverse xs) (x ∷ []), keep-reverse p xs, e)
        (append-nil (reverse (keep p xs)))
]

-- `ParseAccept`'s sort, by the sorted part
sort_back_lem :
    (s xs : List MediaType)
    → All IsNumber s
    → All IsNumber xs
    → Ascending s
    → Ascending (sort_back s xs)
      × ((r : ℕ)
          → keep (ranked r) (sort_back s xs) ≡ reverse (keep (ranked r) xs) ++ keep (ranked r) s)
unfolding sort_back
sort_back_lem s [] ns nxs h = (h, λ r. refl)
sort_back_lem s (x ∷ xs) ns nxs h =
    let rest =
      sort_back_lem (insert_back x s) xs (insert_back-All IsNumber x s nxs.0 ns) nxs.1
        (insert_back-Ascending x s nxs.0 ns h) in
    (
      rest.0,
      λ r.
          rest.1 r
          ∙ ap (λ l. reverse (keep (ranked r) xs) ++ l) (keep-insert_back r x s nxs.0 ns)
          ∙ moved r,
    )
  where
    moved :
        (r : ℕ)
        → reverse (keep (ranked r) xs) ++ keep (ranked r) (x ∷ s)
          ≡ reverse (keep (ranked r) (x ∷ xs)) ++ keep (ranked r) s
    moved r = elim (Bool-cases (ranked r x)) [
      | inl e ↦
          rw (e, reverse-cons x (keep (ranked r) xs))
            (sym (append_assoc (reverse (keep (ranked r) xs)) (x ∷ []) (keep (ranked r) s)))
      | inr e ↦ rw e refl
    ]

Descending-append :
    (xs : List MediaType) (x : MediaType)
    → Descending xs
    → All (λ y. rank x ≤ rank y) xs
    → Descending (xs ++ x ∷ [])
Descending-append [] x h k = (tt, tt)
Descending-append (y ∷ ys) x h k =
    (All-append _ ys (x ∷ []) h.0 (k.0, tt), Descending-append ys x h.1 k.1)

All-reverse : (P : MediaType → Type 0) (xs : List MediaType) → All P xs → All P (reverse xs)
All-reverse P [] h = tt
All-reverse P (x ∷ xs) h =
    rw (reverse-cons x xs) (All-append P (reverse xs) (x ∷ []) (All-reverse P xs h.1) (h.0, tt))

reverse-Descending : (xs : List MediaType) → Ascending xs → Descending (reverse xs)
reverse-Descending [] h = tt
reverse-Descending (x ∷ xs) h =
    rw (reverse-cons x xs)
      (Descending-append (reverse xs) x (reverse-Descending xs h.1) (All-reverse _ xs h.0))

-- Ranges none of whose q-values is a NaN are sorted by descending q-value and then by descending
-- specificity; those of one rank, of any rank, are the ones that there were, in the order they had.
pub sort_stable-Descending :
    (xs : List MediaType)
    → All IsNumber xs
    → Descending (sort_stable xs)
      × ((r : ℕ) → keep (ranked r) (sort_stable xs) ≡ keep (ranked r) xs)
unfolding sort_stable
sort_stable-Descending xs ns =
    let sorted = sort_back_lem [] xs tt ns tt in
    (
      reverse-Descending (sort_back [] xs) sorted.0,
      λ r.
          keep-reverse (ranked r) (sort_back [] xs)
          ∙ ap reverse (sorted.1 r ∙ append-nil (reverse (keep (ranked r) xs)))
          ∙ reverse-reverse (keep (ranked r) xs),
    )
