-- ===== src/Matcher/Fuzzy.antt =====
-- When `BodyFuzzyCriterion` lets a candidate pass, and that an exact body match does not imply it.
use httptape.Prelude.{
  ℕ, ◌+◌, ◌<◌, Text, ◌≡◌, ◌≢◌, refl, ◌↔◌, Bool, true, false, Option, none, some, List, [], ◌∷◌, All,
  is_empty, arith, text_eq, eq_refl, if◌then◌else◌, ◌>>=◌, Option-cases, inl, inr,
}
use httptape.Json.{Json, json_equal}
use httptape.JsonPath.{Segment, extract_at_path}
use httptape.Platform.{Platform}
use httptape.Tape.{Tape, body_hash_from_bytes}
use httptape.Matcher.{
  Request, readable, body_hash_criterion, body_fuzzy_criterion, score, compare_found,
  compare_fields, fuzzy_bodies,
}

module _ (a b : Json) where
  abbrev AgreeAt : Option Json → Option Json → Type 0
  AgreeAt (some v) (some w) = json_equal v w ≡ true
  AgreeAt _ _ = Unit

  -- a path that both bodies have leads to equal values
  abbrev pub Agrees : List Segment → Type 0
  Agrees p = AgreeAt (extract_at_path p a) (extract_at_path p b)

  abbrev both_found : Option Json → Option Json → ℕ
  both_found (some v) (some w) = 1
  both_found _ _ = 0

  -- how many of the paths both bodies have
  abbrev pub shared : List (List Segment) → ℕ
  shared [] = 0
  shared (p ∷ ps) = both_found (extract_at_path p a) (extract_at_path p b) + shared ps

  found_agrees :
      (x y : Option Json) (n : ℕ) → compare_found x y ≡ some n → AgreeAt x y × (n ≡ both_found x y)
  found_agrees none y n h = (tt, ground arith)
  found_agrees (some v) none n h = (tt, ground arith)
  found_agrees (some v) (some w) n h = (ground arith, ground arith)

  agrees_found : (x y : Option Json) → AgreeAt x y → compare_found x y ≡ some (both_found x y)
  agrees_found none y h = refl
  agrees_found (some v) none h = refl
  agrees_found (some v) (some w) h = rw h

  compare_fields_sound :
      (m : ℕ) (ps : List (List Segment)) (n : ℕ)
      → compare_fields m ps a b ≡ some n
      → All Agrees ps × (n ≡ m + shared ps)
  unfolding compare_fields
  compare_fields_sound m [] n h = (tt, ground arith)
  compare_fields_sound m (p ∷ ps) n h =
      step (compare_found (extract_at_path p a) (extract_at_path p b)) refl h
        (λ k. compare_fields_sound (m + k) ps n)
    where
      step :
          (o : Option ℕ)
          → compare_found (extract_at_path p a) (extract_at_path p b) ≡ o
          → (o >>= λ k. compare_fields (m + k) ps a b) ≡ some n
          → ((k : ℕ)
              → compare_fields (m + k) ps a b ≡ some n
              → All Agrees ps × (n ≡ m + k + shared ps))
          → All Agrees (p ∷ ps) × (n ≡ m + shared (p ∷ ps))
      step none e h ih = cc
      step (some k) e h ih =
          let (agrees, count) = found_agrees (extract_at_path p a) (extract_at_path p b) k e in
          let (rest, total) = ih k h in ((agrees, rest), omega arith)

  compare_fields_complete :
      (m : ℕ) (ps : List (List Segment))
      → All Agrees ps
      → compare_fields m ps a b ≡ some (m + shared ps)
  unfolding compare_fields
  compare_fields_complete m [] h = ground arith
  compare_fields_complete m (p ∷ ps) h =
      rw (agrees_found (extract_at_path p a) (extract_at_path p b) h.0) (
        ground (
          arith,
          compare_fields_complete (m + both_found (extract_at_path p a) (extract_at_path p b)) ps
              h.1,
        ))

-- Two JSON bodies pass exactly when the values agree at every path that both have, and there is
-- such a path.
pub fuzzy_bodies-eq-6_iff :
    (ps : List (List Segment)) (a b : Json)
    → (fuzzy_bodies ps (some a) (some b) ≡ 6) ↔ (All (Agrees a b) ps × (0 < shared a b ps))
fuzzy_bodies-eq-6_iff ps a b = (to, from)
  where
    to : fuzzy_bodies ps (some a) (some b) ≡ 6 → All (Agrees a b) ps × (0 < shared a b ps)
    to h = elim (Option-cases (compare_fields 0 ps a b)) [
      | inl e ↦ absurd (ground arith)
      | inr (n, e) ↦ let (agree, count) = compare_fields_sound a b 0 ps n e in (agree, ground arith)
    ]

    from : All (Agrees a b) ps × (0 < shared a b ps) → fuzzy_bodies ps (some a) (some b) ≡ 6
    from (agree, some_shared) = rw (compare_fields_complete a b 0 ps agree) (ground arith)

nothing_shared :
    (j : Json) (ps : List (List Segment))
    → All (λ p. extract_at_path p j ≡ none) ps
    → (All (Agrees j j) ps × (shared j j ps ≡ 0))
nothing_shared j [] h = (tt, refl)
nothing_shared j (p ∷ ps) h =
    let (agree, zero_shared) = nothing_shared j ps h.1 in rw h.0 ((tt, agree), omega arith)

fuzzy_bodies_of_missing :
    (j : Json) (ps : List (List Segment))
    → All (λ p. extract_at_path p j ≡ none) ps
    → fuzzy_bodies ps (some j) (some j) ≡ 0
fuzzy_bodies_of_missing j ps missing =
    let (agree, none_shared) = nothing_shared j ps missing in
    rw (compare_fields_complete j j 0 ps agree) (ground arith)

-- A candidate with the request's own JSON body, in which none of the paths exists, passes
-- `BodyHashCriterion` and is eliminated by `BodyFuzzyCriterion`.
pub hash_without_fuzzy :
    (pf : Platform) (req : Request) (t : Tape) (ps : List (List Segment)) (body : Text) (j : Json)
    → req.body ≡ readable body
    → t.request.body ≡ body
    → t.request.body_hash ≡ body_hash_from_bytes pf body
    → body ≢ []
    → pf.unmarshal body ≡ some j
    → All (λ p. extract_at_path p j ≡ none) ps
    → (score pf body_hash_criterion req t ≡ 8) × (score pf (body_fuzzy_criterion ps) req t ≡ 0)
unfolding score
hash_without_fuzzy pf req t ps body j sent stored hashed filled decoded missing =
    let full : is_empty body ≡ false = ground arith in
    (
      rw (sent, hashed, eq_refl (body_hash_from_bytes pf body)),
      rw (sent, stored, full, decoded, fuzzy_bodies_of_missing j ps missing)
          (if_same (is_empty ps)),
    )
  where
    if_same : (b : Bool) → ◌≡◌ {A = ℕ} (if b then 0 else 0) 0
    if_same true = refl
    if_same false = refl
