-- ===== src/Tests/Matching.antt =====
-- The theorems on matching at sample requests and tapes.
use httptape.Prelude.{
  true, ℕ, ◌+◌, keep, any, some, codes, text_beq, false, ◌≡◌, refl, ◌⊎◌, ◌↔◌, none, some, List, [],
  ◌∷◌, All, ◌<◌,
}
use httptape.JsonPath.{Segment, extract_at_path, from_value}
use httptape.Float.{float_one, is_nan}
use httptape.MediaType.{MediaType, any_type, specificity, sort_stable}
use httptape.MediaType.Order.{Descending, ranked, sort_stable-Descending}
use httptape.Matcher.Negotiation.{accepts, refuses, IsPreferred, negotiate-IsPreferred}
use httptape.Matcher.{
  negotiate, Criterion, method_criterion, path_criterion, headers_criterion, body_hash_criterion,
  body_fuzzy_criterion, score, composite_match, fuzzy_bodies,
}
use httptape.Json.{get}
use httptape.Matcher.Best.{IsAnswer, composite_match-IsAnswer}
use httptape.Matcher.Fuzzy.{Agrees, shared, fuzzy_bodies-eq-6_iff, hash_without_fuzzy}
use httptape.Tests.{platform, request, tape, tapes, user}

abbrev criteria : List Criterion
criteria =
    method_criterion
    ∷ path_criterion
    ∷ headers_criterion (codes "Content-Type") (codes "application/json")
    ∷ []

abbrev name_path : List Segment
name_path = record { key = codes "name"; wildcard = false } ∷ []

abbrev missing_path : List Segment
missing_path = record { key = codes "email"; wildcard = false } ∷ []

composite_match-IsAnswer_example :
    IsAnswer platform criteria request tapes (composite_match platform criteria request tapes)
composite_match-IsAnswer_example = composite_match-IsAnswer platform criteria request tapes

fuzzy_bodies-eq-6_iff_example :
    (fuzzy_bodies (name_path ∷ []) (some user) (some user) ≡ 6)
    ↔ (All (Agrees user user) (name_path ∷ []) × (0 < shared user user (name_path ∷ [])))
fuzzy_bodies-eq-6_iff_example = fuzzy_bodies-eq-6_iff (name_path ∷ []) user user

hash_without_fuzzy_example :
    (score platform body_hash_criterion request (tape (codes "1") (codes "GET")) ≡ 8)
    × (score platform
          (body_fuzzy_criterion (missing_path ∷ []))
          request
          (tape (codes "1") (codes "GET"))
        ≡ 0)
hash_without_fuzzy_example =
    hash_without_fuzzy platform request (tape (codes "1") (codes "GET")) (missing_path ∷ [])
      (codes "{u}") user refl refl refl (λ e. cc) refl (missing, tt)
  where
    missing : extract_at_path missing_path user ≡ none
    missing = unfold extract_at_path from_value get text_beq in refl

abbrev json_type : MediaType
json_type = record {
  kind = codes "application";
  subtype = codes "json";
  suffix = [];
  params = [];
  q_value = float_one;
}

sort_stable-Descending_example :
    Descending (sort_stable (any_type ∷ json_type ∷ []))
    × ((r : ℕ)
        → keep (ranked r) (sort_stable (any_type ∷ json_type ∷ []))
          ≡ keep (ranked r) (any_type ∷ json_type ∷ []))
sort_stable-Descending_example =
    sort_stable-Descending (any_type ∷ json_type ∷ []) (unfold is_nan in (refl, (refl, tt)))

negotiate-IsPreferred_example :
    ((any (refuses json_type) (any_type ∷ []) ≡ true)
      × (negotiate (any_type ∷ []) (some json_type) ≡ 0))
    ⊎ (All (λ b. accepts json_type b ≡ false) (any_type ∷ [])
        × (negotiate (any_type ∷ []) (some json_type) ≡ 0))
    ⊎ ((any (refuses json_type) (any_type ∷ []) ≡ false)
        × (ar : MediaType) × (p : IsPreferred (any_type ∷ []) json_type ar) × (negotiate
              (any_type ∷ [])
              (some json_type)
            ≡ specificity ar + 2))
negotiate-IsPreferred_example = negotiate-IsPreferred (any_type ∷ []) json_type (tt, tt)
