-- ===== src/Templating/Balance.antt =====
-- `bytes.Index` of an opening, and `findMatchingClose`, as splits of a text.
use httptape.Prelude.{
  ℕ, zero, suc, ◌+◌, ◌-◌, Text, ◌≡◌, ◌≢◌, refl, sym, ap, ◌∙◌, ◌⊎◌, inl, inr, true, false, Option,
  none, some, [], ◌∷◌, ◌++◌, length, nat_beq, arith, Bool-cases, Option-cases,
}
use httptape.Templating.{is_open, is_close, index_open, find_close}
use mathlib.Core.Path.{subst}

-- The openings less the closings after a text that is read from the left, from a given number on;
-- none where a closing has no opening.
unfoldable pub nesting : ℕ → Text → Option ℕ
nesting depth [] = some depth
nesting depth (c ∷ []) = some depth
nesting depth (c ∷ d ∷ s) = elim (is_open c d) [
  | true ↦ nesting (suc depth) s
  | false ↦ elim (is_close c d) [
    | true ↦ elim depth [ zero ↦ none | suc less ↦ nesting less s ]
    | false ↦ nesting depth (d ∷ s)
  ]
]

-- the first opening of a text is still the first behind a byte that opens nothing
still_first :
    (c d : ℕ) (s before rest : Text)
    → is_open c d ≡ false
    → d ∷ s ≡ before ++ b'{' ∷ b'{' ∷ rest
    → index_open (before ++ b'{' ∷ []) ≡ none
    → index_open (c ∷ before ++ b'{' ∷ []) ≡ none
unfolding index_open
still_first c d s [] rest plain split first = ground arith
still_first c d s (e ∷ before) rest plain split first =
    let same : d ≡ e = cc split in rw (subst (λ x. is_open c x ≡ false) same plain, first) refl

pub index_open-split :
    (s : Text) (i : ℕ)
    → index_open s ≡ some i
    → (before rest : Text) × (s ≡ before ++ b'{' ∷ b'{' ∷ rest)
      × (length before ≡ i)
      × (index_open (before ++ b'{' ∷ []) ≡ none)
unfolding index_open
index_open-split [] i h = absurd cc
index_open-split (c ∷ []) i h = absurd cc
index_open-split (c ∷ d ∷ s) i h = elim (Bool-cases (is_open c d)) [
  | inl here ↦ ([], s, ground arith, cc (rw here at h), refl)
  | inr plain ↦ elim (Option-cases (index_open (d ∷ s))) [
    | inl lacks ↦ absurd cc (rw (plain, lacks) at h)
    | inr (j, found) ↦
        let (before, rest, split, len, first) = index_open-split (d ∷ s) j found in
        (
          c ∷ before,
          rest,
          ap (λ u. c ∷ u) split,
          ap suc len ∙ cc (rw (plain, found) at h),
          still_first c d s before rest plain split first,
        )
  ]
]

-- a byte that begins no pair changes no nesting
nesting-plain :
    (depth c d : ℕ) (s inner after : Text)
    → is_open c d ≡ false
    → is_close c d ≡ false
    → d ∷ s ≡ inner ++ b'}' ∷ b'}' ∷ after
    → nesting depth inner ≡ some 0
    → nesting depth (c ∷ inner) ≡ some 0
unfolding nesting
nesting-plain depth c d s [] after opened closed split h = h
nesting-plain depth c d s (e ∷ inner) after opened closed split h =
    let same : d ≡ e = cc split in
    rw
      (
        subst (λ x. is_open c x ≡ false) same opened,
        subst (λ x. is_close c x ≡ false) same closed,
        nesting,
      )
      h

nesting-opened :
    (depth c d : ℕ) (s : Text)
    → is_open c d ≡ true
    → nesting depth (c ∷ d ∷ s) ≡ nesting (suc depth) s
unfolding nesting
nesting-opened depth c d s opened = rw (opened, nesting) refl

nesting-closed :
    (depth less c d : ℕ) (s : Text)
    → depth ≡ suc less
    → is_open c d ≡ false
    → is_close c d ≡ true
    → nesting depth (c ∷ d ∷ s) ≡ nesting less s
unfolding nesting
nesting-closed depth less c d s e opened closed =
    subst (λ n. nesting n (c ∷ d ∷ s) ≡ nesting less s) (sym e) (rw (opened, closed, nesting) refl)

zero_or_suc : (n : ℕ) → (n ≡ 0) ⊎ ((m : ℕ) × (n ≡ suc m))
zero_or_suc zero = inl refl
zero_or_suc (suc m) = inr (m, refl)

pub find_close-split :
    (depth k pos p : ℕ) (s : Text)
    → k ≡ suc depth
    → find_close k pos s ≡ some p
    → (inner after : Text) × (s ≡ inner ++ b'}' ∷ b'}' ∷ after)
      × (p ≡ pos + length inner)
      × (nesting depth inner ≡ some 0)
unfolding find_close
find_close-split depth k pos p [] one h = absurd cc
find_close-split depth k pos p (c ∷ []) one h = absurd cc
find_close-split depth k pos p (c ∷ d ∷ s) one h = elim (Bool-cases (is_open c d)) [
  | inl opened ↦
      let (inner, after, split, at, nested) =
        find_close-split (suc depth) (suc k) (pos + 2) p s (ap suc one)
          (rw (opened, find_close) at h) in
      (
        c ∷ d ∷ inner,
        after,
        ap (λ u. c ∷ d ∷ u) split,
        omega (arith, at),
        nesting-opened depth c d inner opened ∙ nested,
      )
  | inr other ↦ elim (Bool-cases (is_close c d)) [
    | inl closed ↦ elim (zero_or_suc depth) [
      | inl none_left ↦
          let last : nat_beq (k - 1) 0 ≡ true = ground arith in
          let at : some pos ≡ some p = rw (other, closed, last, find_close) at h in
          let here : pos ≡ p = cc at in
          ([], s, ground arith, omega (arith, here), unfold nesting in ap some none_left)
      | inr (less, e) ↦
          let more : nat_beq (k - 1) 0 ≡ false = ground arith in
          let (inner, after, split, at, nested) =
            find_close-split less (k - 1) (pos + 2) p s (omega (arith, one))
              (rw (other, closed, more, find_close) at h) in
          (
            c ∷ d ∷ inner,
            after,
            ap (λ u. c ∷ d ∷ u) split,
            omega (arith, at),
            nesting-closed depth less c d inner e other closed ∙ nested,
          )
    ]
    | inr plain ↦
        let (inner, after, split, at, nested) =
          find_close-split depth k (pos + 1) p (d ∷ s) one (rw (other, plain, find_close) at h) in
        (
          c ∷ inner,
          after,
          ap (λ u. c ∷ u) split,
          omega (arith, at),
          nesting-plain depth c d s inner after other plain split nested,
        )
  ]
]

-- There is no opening in the text.
abbrev pub NoOpening : Text → Type 0
NoOpening s = (before rest : Text) → s ≡ before ++ b'{' ∷ b'{' ∷ rest → ⊥

-- No closing behind the text of an opening balances it.
abbrev pub NotClosed : Text → Type 0
NotClosed tail =
    (inner after : Text) → tail ≡ inner ++ b'}' ∷ b'}' ∷ after → nesting 0 inner ≢ some 0

index_open-cons : (c d : ℕ) (s : Text) → index_open (d ∷ s) ≢ none → index_open (c ∷ d ∷ s) ≢ none
unfolding index_open
index_open-cons c d s some_there h = elim (Bool-cases (is_open c d)) [
  | inl e ↦ absurd cc (rw e at h)
  | inr e ↦ elim (Option-cases (index_open (d ∷ s))) [
    | inl lacks ↦ some_there lacks
    | inr (i, found) ↦ absurd cc (rw (e, found) at h)
  ]
]

index_open-here : (before rest : Text) → index_open (before ++ b'{' ∷ b'{' ∷ rest) ≢ none
unfolding index_open
index_open-here [] rest h = absurd cc
index_open-here (c ∷ []) rest h = index_open-cons c b'{' (b'{' ∷ rest) (index_open-here [] rest) h
index_open-here (c ∷ d ∷ before) rest h =
    index_open-cons c d (before ++ b'{' ∷ b'{' ∷ rest) (index_open-here (d ∷ before) rest) h

-- where `bytes.Index` finds no opening there is none
pub index_open-NoOpening : (s : Text) → index_open s ≡ none → NoOpening s
index_open-NoOpening s lacks before rest split =
    index_open-here before rest (ap index_open (sym split) ∙ lacks)

pub find_close-closed :
    (depth k pos : ℕ) (inner after : Text)
    → k ≡ suc depth
    → nesting depth inner ≡ some 0
    → (p : ℕ) × (find_close k pos (inner ++ b'}' ∷ b'}' ∷ after) ≡ some p)
unfolding find_close nesting
find_close-closed depth k pos [] after one h =
    let flat : depth ≡ 0 = cc h in
    let last : nat_beq (k - 1) 0 ≡ true = ground arith in (pos, rw (last, find_close) refl)
find_close-closed depth k pos (c ∷ []) after one h =
    let flat : depth ≡ 0 = cc h in
    let last : nat_beq (k - 1) 0 ≡ true = ground arith in
    let other : is_open c b'}' ≡ false = ground arith in
    elim (Bool-cases (is_close c b'}')) [
      | inl closed ↦ (pos, rw (other, closed, last, find_close) refl)
      | inr plain ↦
          let (p, found) = find_close-closed depth k (pos + 1) [] after one h in
          (p, rw (other, plain, find_close) found)
    ]
find_close-closed depth k pos (c ∷ d ∷ inner) after one h = elim (Bool-cases (is_open c d)) [
  | inl opened ↦
      let (p, found) =
        find_close-closed (suc depth) (suc k) (pos + 2) inner after (ap suc one)
          (sym (nesting-opened depth c d inner opened) ∙ h) in
      (p, rw (opened, find_close) found)
  | inr other ↦ elim (Bool-cases (is_close c d)) [
    | inl closed ↦ elim (zero_or_suc depth) [
      | inl none_left ↦
          let lost : nesting 0 (c ∷ d ∷ inner) ≡ none = rw (other, closed, nesting) refl in
          absurd (cc (lost, h, none_left))
      | inr (less, e) ↦
          let more : nat_beq (k - 1) 0 ≡ false = ground arith in
          let (p, found) =
            find_close-closed less (k - 1) (pos + 2) inner after (omega (arith, one, e))
              (sym (nesting-closed depth less c d inner e other closed) ∙ h) in
          (p, rw (other, closed, more, find_close) found)
    ]
    | inr plain ↦
        let (p, found) =
          find_close-closed depth k (pos + 1) (d ∷ inner) after one
            (rw (other, plain, nesting) at h) in
        (p, rw (other, plain, find_close) found)
  ]
]
