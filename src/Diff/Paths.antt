-- ===== src/Diff/Paths.antt =====
-- Which paths a pattern of `WithIgnorePaths` covers.
use httptape.Prelude.{
  ℕ, ◌≡◌, ◌↔◌, ◌⊎◌, refl, sym, ap, ◌∙◌, true, false, List, [], ◌∷◌, Member, arith, text_eq, eq_iff,
  eq_refl, Bool-cases, inl, inr,
}
use httptape.JsonPath.{Segment}
use httptape.Diff.{PathSegment, key_segment, index_segment, matches_ignore_path, is_ignored}

-- Each segment of the pattern stands for a key, and one with a wildcard for a key and any index behind it.
abbrev pub Covers : List Segment → List PathSegment → Type 0
Covers [] [] = Unit
Covers [] (c ∷ path) = ⊥
Covers (ps ∷ pattern_in) path =
    ((rest : List PathSegment) × (path ≡ key_segment ps.key ∷ rest)
      × (ps.wildcard ≡ false)
      × Covers pattern_in rest)
    ⊎ ((i : ℕ) × (rest : List PathSegment) × (path ≡ key_segment ps.key ∷ index_segment i ∷ rest)
        × (ps.wildcard ≡ true)
        × Covers pattern_in rest)

-- from the test to the pattern
to_Covers :
    (path : List PathSegment) (pattern_in : List Segment)
    → matches_ignore_path path pattern_in ≡ true
    → Covers pattern_in path
unfolding matches_ignore_path
to_Covers [] [] h = tt
to_Covers [] (ps ∷ pattern_in) h = absurd cc
to_Covers (c ∷ path) [] h = absurd cc
to_Covers (index_segment i ∷ path) (ps ∷ pattern_in) h = absurd cc
to_Covers (key_segment key ∷ []) (ps ∷ []) h =
    let same : key ≡ ps.key = (eq_iff key ps.key).0 (ground (arith, h)) in
    let plain : ps.wildcard ≡ false = ground (arith, h) in
    inl ([], ap (λ k. key_segment k ∷ []) same, plain, tt)
to_Covers (key_segment key ∷ []) (ps ∷ qs ∷ pattern_in) h = absurd (ground (arith, h))
to_Covers (key_segment key ∷ key_segment next ∷ path) (ps ∷ pattern_in) h =
    let same : key ≡ ps.key = (eq_iff key ps.key).0 (ground (arith, h)) in
    let plain : ps.wildcard ≡ false = ground (arith, h) in
    let rest : matches_ignore_path (key_segment next ∷ path) pattern_in ≡ true =
      ground (arith, h) in
    inl (
      key_segment next ∷ path,
      ap (λ k. key_segment k ∷ key_segment next ∷ path) same,
      plain,
      to_Covers (key_segment next ∷ path) pattern_in rest,
    )
to_Covers (key_segment key ∷ index_segment i ∷ path) (ps ∷ pattern_in) h =
    let same : key ≡ ps.key = (eq_iff key ps.key).0 (ground (arith, h)) in
    elim (Bool-cases ps.wildcard) [
      | inl wild ↦
          let rest : matches_ignore_path path pattern_in ≡ true = ground (arith, h, wild) in
          inr (
            i,
            path,
            ap (λ k. key_segment k ∷ index_segment i ∷ path) same,
            wild,
            to_Covers path pattern_in rest,
          )
      | inr plain ↦
          let rest : matches_ignore_path (index_segment i ∷ path) pattern_in ≡ true =
            ground (arith, h, plain) in
          inl (
            index_segment i ∷ path,
            ap (λ k. key_segment k ∷ index_segment i ∷ path) same,
            plain,
            to_Covers (index_segment i ∷ path) pattern_in rest,
          )
    ]

-- the test of a key that is the pattern's
key_matches :
    (ps : Segment) (rest : List PathSegment) (pattern_in : List Segment)
    → ps.wildcard ≡ false
    → matches_ignore_path rest pattern_in ≡ true
    → matches_ignore_path (key_segment ps.key ∷ rest) (ps ∷ pattern_in) ≡ true
unfolding matches_ignore_path
key_matches ps [] [] plain h = ground (arith, plain, eq_refl ps.key)
key_matches ps [] (qs ∷ pattern_in) plain h = absurd cc
key_matches ps (key_segment next ∷ rest) pattern_in plain h = rw (plain, h, eq_refl ps.key) refl
key_matches ps (index_segment i ∷ rest) pattern_in plain h = rw (plain, h, eq_refl ps.key) refl

item_matches :
    (ps : Segment) (i : ℕ) (rest : List PathSegment) (pattern_in : List Segment)
    → ps.wildcard ≡ true
    → matches_ignore_path rest pattern_in ≡ true
    → matches_ignore_path (key_segment ps.key ∷ index_segment i ∷ rest) (ps ∷ pattern_in) ≡ true
unfolding matches_ignore_path
item_matches ps i rest pattern_in wild h = rw (wild, h, eq_refl ps.key) refl

of_Covers :
    (pattern_in : List Segment) (path : List PathSegment)
    → Covers pattern_in path
    → matches_ignore_path path pattern_in ≡ true
of_Covers [] [] h = unfold matches_ignore_path in refl
of_Covers [] (c ∷ path) h = absurd h
of_Covers (ps ∷ pattern_in) path (inl (rest, split, plain, h)) =
    ap (λ p. matches_ignore_path p (ps ∷ pattern_in)) split
    ∙ key_matches ps rest pattern_in plain (of_Covers pattern_in rest h)
of_Covers (ps ∷ pattern_in) path (inr (i, rest, split, wild, h)) =
    ap (λ p. matches_ignore_path p (ps ∷ pattern_in)) split
    ∙ item_matches ps i rest pattern_in wild (of_Covers pattern_in rest h)

-- one of the patterns covers the path
abbrev pub IsIgnored : List (List Segment) → List PathSegment → Type 0
IsIgnored ignore_paths path =
    (pattern_in : List Segment) × Member pattern_in ignore_paths × Covers pattern_in path

pub is_ignored_iff :
    (ignore_paths : List (List Segment)) (path : List PathSegment)
    → (is_ignored ignore_paths path ≡ true) ↔ IsIgnored ignore_paths path
unfolding is_ignored
is_ignored_iff [] path = (λ h. absurd cc, λ (p, m, c). absurd m)
is_ignored_iff (pattern_in ∷ ignore_paths) path =
    let rest = is_ignored_iff ignore_paths path in
    (
      λ h. elim (Bool-cases (matches_ignore_path path pattern_in)) [
        | inl e ↦ (pattern_in, inl refl, to_Covers path pattern_in e)
        | inr e ↦ let (p, m, c) = rest.0 (rw e at h) in (p, inr m, c)
      ],
      λ (p, m, c). elim m [
        | inl same ↦
            let e = of_Covers p path c in
            let e' : matches_ignore_path path pattern_in ≡ true =
              ap (matches_ignore_path path) (sym same) ∙ e in
            rw e' refl
        | inr deeper ↦ ground (arith, rest.1 (p, deeper, c))
      ],
    )
