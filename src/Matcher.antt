-- ===== src/Matcher.antt =====
-- matcher.go: criteria, their scores, and the choice of the best candidate.
pub mod Best
pub mod Positive
pub mod Scores
pub mod Fuzzy
pub mod Negotiation
use httptape.Prelude.{
  ℕ, zero, suc, ◌+◌, Text, codes, Bool, true, false, not, ◌&&◌, ◌||◌, Option, none, some, List, [],
  ◌∷◌, length, get_elem?, is_empty, any, ltb, leb, nat_beq, ◌==◌, text_eq, if◌then◌else◌, ◌>>=◌,
  map_option,
}
use httptape.Json.{Json, json_equal}
use httptape.JsonPath.{Segment, extract_at_path}
use httptape.Platform.{Platform, Url}
use httptape.Header.{HeaderMap, canonical_key, values, get_first}
use httptape.Tape.{Tape, body_hash_from_bytes}
use httptape.MediaType.{MediaType, parse_media_type, parse_accept, matches_media_range, specificity}
use httptape.Float.{float_equal}
use httptape.PathPattern.{PathPattern, matches_path}

-- What `req.Body` gives when it is read; it is put back as it was.
pub data ReqBody : Type 0 where
  no_body : ReqBody
  readable : Text → ReqBody
  broken : ReqBody

pub record Request : Type 0 where
  pub method : Text
  pub url : Url
  pub headers : HeaderMap
  pub body : ReqBody

-- The criteria of the package, and `CriterionFunc`. A compiled regular expression is the test of
-- `MatchString`; a custom score is not negative, as the interface asks.
pub data Criterion : Type 0 where
  method_criterion path_criterion query_params_criterion body_hash_criterion : Criterion
  content_negotiation_criterion : Criterion
  path_regex_criterion : (Text → Bool) → Criterion
  path_pattern_criterion : PathPattern → Criterion
  route_criterion : Text → Criterion
  headers_criterion : (key value : Text) → Criterion
  body_fuzzy_criterion : List (List Segment) → Criterion
  custom_criterion : (Request → Tape → ℕ) → Criterion

unfoldable pub string_slices_equal : List Text → List Text → Bool
string_slices_equal [] [] = true
string_slices_equal (a ∷ s) (b ∷ t) = a == b && string_slices_equal s t
string_slices_equal _ _ = false

-- m[key] with its presence
unfoldable pub lookup_values : Text → List (Text × List Text) → Option (List Text)
lookup_values key [] = none
lookup_values key ((k, vs) ∷ m) = if k == key then some vs else lookup_values key m

abbrev same_values : List Text → Option (List Text) → Bool
same_values vs none = false
same_values vs (some ws) = string_slices_equal vs ws

unfoldable pub params_included : List (Text × List Text) → List (Text × List Text) → Bool
unfolding string_slices_equal lookup_values
params_included [] tape_params = true
params_included ((key, vs) ∷ params) tape_params =
    same_values vs (lookup_values key tape_params) && params_included params tape_params

unfoldable pub header_contains : HeaderMap → Text → Text → Bool
header_contains h canonical value = any (λ v. v == value) (values canonical h)

-- the field comparison of one path; `none` is a mismatch that eliminates
abbrev compare_found : Option Json → Option Json → Option ℕ
compare_found (some a) (some b) = if json_equal a b then some 1 else none
compare_found _ _ = some 0

-- the loop of `BodyFuzzyCriterion.Score`, with the number of fields compared so far
unfoldable pub compare_fields : ℕ → List (List Segment) → Json → Json → Option ℕ
compare_fields matched [] req_data tape_data = some matched
compare_fields matched (p ∷ ps) req_data tape_data = do
  n ← compare_found (extract_at_path p req_data) (extract_at_path p tape_data)
  compare_fields (matched + n) ps req_data tape_data

abbrev fuzzy_result : Option ℕ → ℕ
fuzzy_result none = 0
fuzzy_result (some n) = if nat_beq n 0 then 0 else 6

abbrev pub fuzzy_bodies : List (List Segment) → Option Json → Option Json → ℕ
fuzzy_bodies parsed none none = 1
fuzzy_bodies parsed (some req_data) (some tape_data) =
    fuzzy_result (compare_fields 0 parsed req_data tape_data)
fuzzy_bodies parsed _ _ = 0

-- the two passes of `ContentNegotiationCriterion.Score`
unfoldable pub excluded : List MediaType → MediaType → Bool
excluded [] ct = false
excluded (ar ∷ ars) ct = (float_equal ar.q_value 0 && matches_media_range ar ct) || excluded ars ct

unfoldable pub first_match : List MediaType → MediaType → ℕ
first_match [] ct = 0
first_match (ar ∷ ars) ct =
    if not (float_equal ar.q_value 0) && matches_media_range ar ct
    then specificity ar + 2
    else first_match ars ct

abbrev pub negotiate : List MediaType → Option MediaType → ℕ
negotiate ranges none = 0
negotiate ranges (some ct) = if excluded ranges ct then 0 else first_match ranges ct

abbrev octet_stream : MediaType
octet_stream = record {
  kind = codes "application";
  subtype = codes "octet-stream";
  suffix = [];
  params = [];
  q_value = 0;
}

-- a test on the parts of a stored URL; one that does not parse fails it
abbrev pub on_path : (Text → Bool) → Option Url → Bool
on_path p none = false
on_path p (some u) = p u.path

abbrev pub on_query : List (Text × List Text) → Option Url → Bool
on_query params none = false
on_query params (some u) = params_included params u.query

module _ (pf : Platform) where
  abbrev stored_path : (Text → Bool) → Tape → Bool
  stored_path p candidate = on_path p (pf.parse_url candidate.request.url)

  abbrev stored_query : List (Text × List Text) → Tape → Bool
  stored_query params candidate = on_query params (pf.parse_url candidate.request.url)

  -- a body that is empty or no JSON is absent
  abbrev json_of : Text → Option Json
  json_of body = if is_empty body then none else pf.unmarshal body

  abbrev hash_of : ReqBody → Option Text
  hash_of no_body = some []
  hash_of (readable b) = some (body_hash_from_bytes pf b)
  hash_of broken = none

  abbrev bytes_of : ReqBody → Option Text
  bytes_of no_body = some []
  bytes_of (readable b) = some b
  bytes_of broken = none

  unfoldable pub content_type_of : Tape → Option MediaType
  content_type_of candidate =
      let ct = get_first (codes "Content-Type") candidate.response.headers in
      if is_empty ct then some octet_stream else parse_media_type pf ct

  abbrev hash_score : Tape → Option Text → ℕ
  hash_score candidate none = 0
  hash_score candidate (some h) = if candidate.request.body_hash == h then 8 else 0

  abbrev fuzzy_score : List (List Segment) → Tape → Option Text → ℕ
  fuzzy_score parsed candidate none = 0
  fuzzy_score parsed candidate (some body) =
      fuzzy_bodies parsed (json_of body) (json_of candidate.request.body)

  -- the `Score` methods
  unfoldable pub score : Criterion → Request → Tape → ℕ
  score method_criterion req candidate = if req.method == candidate.request.method then 1 else 0
  score path_criterion req candidate =
      if stored_path (λ p. req.url.path == p) candidate then 2 else 0
  score (path_regex_criterion re) req candidate =
      if re req.url.path && stored_path re candidate then 1 else 0
  score (route_criterion route) req candidate =
      if is_empty route then 1 else if candidate.route == route then 1 else 0
  score query_params_criterion req candidate =
      if is_empty req.url.query then 4 else if stored_query req.url.query candidate then 4 else 0
  score (headers_criterion key value) req candidate =
      if header_contains req.headers (canonical_key key) value
        && header_contains candidate.request.headers (canonical_key key) value
      then 3
      else 0
  score body_hash_criterion req candidate = hash_score candidate (hash_of req.body)
  score (body_fuzzy_criterion parsed) req candidate =
      if is_empty parsed then 0 else fuzzy_score parsed candidate (bytes_of req.body)
  score content_negotiation_criterion req candidate =
      negotiate (parse_accept pf (get_first (codes "Accept") req.headers))
        (content_type_of candidate)
  score (path_pattern_criterion p) req candidate =
      if matches_path p req.url.path && stored_path (matches_path p) candidate then 3 else 0
  score (custom_criterion f) req candidate = f req candidate

  -- `ExactMatcher`
  unfoldable pub exact_match : Request → List Tape → Option Tape
  exact_match req [] = none
  exact_match req (t ∷ candidates) =
      if stored_path (λ p. t.request.method == req.method && p == req.url.path) t
      then some t
      else exact_match req candidates

  -- the inner loop of `CompositeMatcher.Match`; `none` is an eliminated candidate
  unfoldable pub total_from : ℕ → List Criterion → Request → Tape → Option ℕ
  total_from total [] req tape = some total
  total_from total (c ∷ criteria) req tape =
      let s = score c req tape in
      let rest = total_from (total + s) criteria req tape in if nat_beq s 0 then none else rest

  -- the outer loop, at index `i`, with the best score and index so far
  abbrev better : ℕ → (best_score : ℕ) → Option ℕ → Option ℕ → ℕ × Option ℕ
  better i best_score best_idx none = (best_score, best_idx)
  better i best_score best_idx (some total) =
      if ltb best_score total then (total, some i) else (best_score, best_idx)

  unfoldable pub best_from :
      List Criterion → Request → ℕ → (best_score : ℕ) → Option ℕ → List Tape → Option ℕ
  unfolding total_from
  best_from criteria req i best_score best_idx [] = best_idx
  best_from criteria req i best_score best_idx (tape ∷ tapes) =
      let (best_score', best_idx') =
        better i best_score best_idx (total_from 0 criteria req tape) in
      best_from criteria req (suc i) best_score' best_idx' tapes

  unfoldable pub composite_match : List Criterion → Request → List Tape → Option Tape
  unfolding best_from
  composite_match criteria req candidates = do
    idx ← best_from criteria req 0 0 none candidates
    get_elem? candidates idx

  unfoldable pub default_match : Request → List Tape → Option Tape
  unfolding composite_match
  default_match = composite_match (method_criterion ∷ path_criterion ∷ [])
