-- ===== src/Matcher/Scores.antt =====
-- The scores of the criteria, their sum, and the two simple matchers.
use httptape.Prelude.{
  ℕ, ◌≤◌, ◌<◌, Text, ◌≡◌, refl, sym, ap, ◌∙◌, ◌⊎◌, Bool, true, false, ◌&&◌, Option, none, some,
  List, [], ◌∷◌, ◌++◌, All, All-imp, arith, ◌==◌, text_eq, eq_iff, if◌then◌else◌, inl, inr,
}
use httptape.Json.{Json}
use httptape.JsonPath.{Segment}
use httptape.Platform.{Platform, Url}
use httptape.Tape.{Tape}
use httptape.Matcher.{
  Criterion, method_criterion, path_criterion, query_params_criterion, body_hash_criterion,
  content_negotiation_criterion, path_regex_criterion, path_pattern_criterion, route_criterion,
  headers_criterion, body_fuzzy_criterion, custom_criterion, Request, score, composite_match,
  default_match, exact_match, stored_path, negotiate, first_match, fuzzy_score, fuzzy_bodies,
  json_of,
}
use httptape.MediaType.{MediaType, specificity}
use httptape.Matcher.Best.{sum_scores, total_score, IsAnswer, composite_match-IsAnswer}

-- The table of weights in the documentation of `CompositeMatcher`.
abbrev pub IsWeight : Criterion → ℕ → Type 0
IsWeight method_criterion n = n ≡ 1
IsWeight path_criterion n = n ≡ 2
IsWeight (route_criterion r) n = n ≡ 1
IsWeight (path_regex_criterion re) n = n ≡ 1
IsWeight (path_pattern_criterion re) n = n ≡ 3
IsWeight (headers_criterion k v) n = n ≡ 3
IsWeight query_params_criterion n = n ≡ 4
IsWeight content_negotiation_criterion n = (3 ≤ n) × (n ≤ 5)
IsWeight (body_fuzzy_criterion ps) n = (n ≡ 6) ⊎ (n ≡ 1)
IsWeight body_hash_criterion n = n ≡ 8
IsWeight (custom_criterion f) n = Unit

first_match-IsWeight :
    (ranges : List MediaType) (ct : MediaType)
    → (first_match ranges ct ≡ 0) ⊎ ((3 ≤ first_match ranges ct) × (first_match ranges ct ≤ 5))
unfolding first_match specificity
first_match-IsWeight [] ct = inl refl
first_match-IsWeight (ar ∷ ars) ct = ground (arith, first_match-IsWeight ars ct)

negotiate-IsWeight :
    (ranges : List MediaType) (ct : Option MediaType)
    → (negotiate ranges ct ≡ 0) ⊎ ((3 ≤ negotiate ranges ct) × (negotiate ranges ct ≤ 5))
negotiate-IsWeight ranges none = inl refl
negotiate-IsWeight ranges (some ct) = ground (arith, first_match-IsWeight ranges ct)

fuzzy_bodies-IsWeight :
    (ps : List (List Segment)) (a b : Option Json)
    → (fuzzy_bodies ps a b ≡ 0) ⊎ ((fuzzy_bodies ps a b ≡ 6) ⊎ (fuzzy_bodies ps a b ≡ 1))
fuzzy_bodies-IsWeight ps none none = ground arith
fuzzy_bodies-IsWeight ps none (some b) = ground arith
fuzzy_bodies-IsWeight ps (some a) none = ground arith
fuzzy_bodies-IsWeight ps (some a) (some b) = ground arith

module _ (pf : Platform) where
  fuzzy_score-IsWeight :
      (ps : List (List Segment)) (t : Tape) (o : Option Text)
      → (fuzzy_score pf ps t o ≡ 0) ⊎ ((fuzzy_score pf ps t o ≡ 6) ⊎ (fuzzy_score pf ps t o ≡ 1))
  fuzzy_score-IsWeight ps t none = inl refl
  fuzzy_score-IsWeight ps t (some b) =
      fuzzy_bodies-IsWeight ps (json_of pf b) (json_of pf t.request.body)

  -- A criterion scores 0 or its documented weight.
  pub score-IsWeight :
      (c : Criterion) (req : Request) (t : Tape)
      → (score pf c req t ≡ 0) ⊎ IsWeight c (score pf c req t)
  unfolding score
  score-IsWeight method_criterion req t = ground arith
  score-IsWeight path_criterion req t = ground arith
  score-IsWeight query_params_criterion req t = ground arith
  score-IsWeight body_hash_criterion req t = ground arith
  score-IsWeight content_negotiation_criterion req t = negotiate-IsWeight _ _
  score-IsWeight (path_regex_criterion re) req t = ground arith
  score-IsWeight (path_pattern_criterion re) req t = ground arith
  score-IsWeight (route_criterion r) req t = ground arith
  score-IsWeight (headers_criterion k v) req t = ground arith
  score-IsWeight (body_fuzzy_criterion ps) req t = ground (arith, fuzzy_score-IsWeight ps t)
  score-IsWeight (custom_criterion f) req t = inr tt

  -- the test of `ExactMatcher`
  abbrev exact : Request → Tape → Bool
  exact req t = stored_path pf (λ p. t.request.method == req.method && p == req.url.path) t

  abbrev criteria : List Criterion
  criteria = method_criterion ∷ path_criterion ∷ []

  default_score :
      (req : Request) (t : Tape) → total_score pf criteria req t ≡ (if exact req t then 3 else 0)
  unfolding score sum_scores
  default_score req t = scored (pf.parse_url t.request.url) refl
    where
      scored :
          (o : Option Url)
          → pf.parse_url t.request.url ≡ o
          → total_score pf criteria req t ≡ (if exact req t then 3 else 0)
      scored none e = rw e (ground arith)
      scored (some u) e = rw e (
          ground (
            arith,
            eq_iff req.method t.request.method,
            eq_iff t.request.method req.method,
            eq_iff req.url.path u.path,
            eq_iff u.path req.url.path,
          ))

  exact_match-append :
      (req : Request) (before after : List Tape)
      → All (λ u. exact req u ≡ false) before
      → exact_match pf req (before ++ after) ≡ exact_match pf req after
  unfolding exact_match
  exact_match-append req [] after h = refl
  exact_match-append req (u ∷ before) after h = rw h.0 (exact_match-append req before after h.1)

  not_exact :
      (req : Request) (n : ℕ) (ts : List Tape)
      → n ≤ 3
      → All (λ u. total_score pf criteria req u < n) ts
      → All (λ u. exact req u ≡ false) ts
  not_exact req n [] le h = tt
  not_exact req n (u ∷ ts) le h = (ground (arith, default_score req u), not_exact req n ts le h.1)

  exact_match-none :
      (req : Request) (ts : List Tape)
      → All (λ u. exact req u ≡ false) ts
      → exact_match pf req ts ≡ none
  unfolding exact_match
  exact_match-none req [] h = refl
  exact_match-none req (u ∷ ts) h = rw h.0 (exact_match-none req ts h.1)

  exact_match_head :
      (req : Request) (t : Tape) (after : List Tape)
      → exact req t ≡ true
      → exact_match pf req (t ∷ after) ≡ some t
  unfolding exact_match
  exact_match_head req t after h = rw h

  -- `DefaultMatcher` and `ExactMatcher` choose the same tape.
  pub default_match-eq-exact_match :
      (req : Request) (candidates : List Tape)
      → default_match pf req candidates ≡ exact_match pf req candidates
  unfolding default_match
  default_match-eq-exact_match req candidates =
      same (composite_match pf criteria req candidates)
        (composite_match-IsAnswer pf criteria req candidates)
    where
      same :
          (o : Option Tape)
          → IsAnswer pf criteria req candidates o
          → o ≡ exact_match pf req candidates
      same none h = sym (
          exact_match-none req candidates (
            not_exact req 1 candidates (omega arith) (
              All-imp _ (λ u. total_score pf criteria req u < 1) candidates (λ u e. omega arith)
                h)))
      same (some t) b =
          let three = default_score req t in
          let hit : exact req t ≡ true = ground (arith, b.positive) in
          let at_most : total_score pf criteria req t ≤ 3 = ground arith in
          sym (
            ap (exact_match pf req) b.split
            ∙ exact_match-append req b.before (t ∷ b.after)
                (not_exact req (total_score pf criteria req t) b.before at_most b.earlier)
            ∙ exact_match_head req t b.after hit)
