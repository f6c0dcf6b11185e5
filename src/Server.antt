-- ===== src/Server.antt =====
-- server.go: the choice of a tape for a request, and the response made of it.
pub mod Serve
pub mod Options
pub mod Grades
pub mod Exemplars
pub mod Replies
pub mod Templates
use httptape.Prelude.{
  ℕ, zero, suc, ◌+◌, ◌*◌, Text, codes, Bool, true, false, not, ◌&&◌, ◌||◌, Option, none, some, List,
  [], ◌∷◌, ◌++◌, keep, is_empty, ltb, leb, nat_beq, ◌==◌, text_eq, if◌then◌else◌, lookup,
}
use httptape.Json.{Json, num, str, obj, Fields, get}
use httptape.Float.{float_less}
use httptape.Platform.{Platform, Runtime}
use httptape.Int64.{ℤ, pos, negsuc}
use httptape.Header.{HeaderMap, canonical_key, delete, set}
use httptape.PathPattern.{PathPattern, matches_path, new_path_pattern, extract_params}
use httptape.Tape.{SseEvent, Tape, is_sse}
use httptape.Matcher.{
  Request, Criterion, path_criterion, path_regex_criterion, path_pattern_criterion, score,
  composite_match,
}
use httptape.Store.{Store, Filter, Listed, not_listed, listed}
use httptape.Templating.Substitution.{TemplateCtx, TemplateState, Result, err, ok}
use httptape.Templating.Render.{
  read_request_body, resolve_template_body, resolve_exemplar_body, resolve_template_headers,
}
use httptape.Templating.Walk.{Outcome}

-- A `*CompositeMatcher`, whose criteria the server looks at, or another `Matcher`.
pub data Matcher : Type 0 where
  composite_matcher : List Criterion → Matcher
  other_matcher : (Request → List Tape → Option Tape) → Matcher

pub data ResponseTiming : Type 0 where
  instant recorded_timing : ResponseTiming
  accelerated : (factor : ℕ) → ResponseTiming

-- The fields of `Server` that a request reads; durations are in nanoseconds. The callback for a miss
-- and the pace of a stream are left out.
pub record Server : Type 0 where
  pub matcher : Matcher
  pub fallback_status : ℕ
  pub fallback_body : Text
  pub cors : Bool
  pub delay : ℤ
  pub error_rate : ℕ
  pub replay_headers : List (Text × Text)
  pub templating : Bool
  pub strict_templating : Bool
  pub replay_timing : ResponseTiming
  pub synthesis : Bool

-- What happens around a request: the random number, whether its context is cancelled when the store
-- is asked, during the delay, and during the replay delay, and whether the writer can flush.
pub record Surroundings : Type 0 where
  pub rand_float : ℕ
  pub cancelled_at_list : Bool
  pub cancelled_in_delay : Bool
  pub cancelled_in_replay_delay : Bool
  pub can_flush : Bool

pub data Body : Type 0 where
  bytes : Text → Body
  stream : List SseEvent → Body

pub record Response : Type 0 where
  pub status : ℕ
  pub headers : HeaderMap
  pub body : Body

-- What becomes of a request: nothing is written to a client that is gone, `WriteHeader` panics at a
-- status code that has not three digits, or there is a response, which tells what it was made of.
pub data Served : Type 0 where
  abandoned panicked : Served
  preflight simulated_error store_error no_match : Response → Served
  fixture_error template_error unflushable : Tape → Response → Served
  replayed : Tape → Response → Served

abbrev pub written : (Response → Served) → Response → Served
written f r = if leb 100 r.status && leb r.status 999 then f r else panicked

-- http.Error
unfoldable pub http_error : HeaderMap → Text → ℕ → Response
http_error headers message status = record {
  status = status;
  headers = set (codes "X-Content-Type-Options") (codes "nosniff") (
      set (codes "Content-Type") (codes "text/plain; charset=utf-8")
        (delete (codes "Content-Length") headers));
  body = bytes (message ++ 10 ∷ []);
}

unfoldable pub cors_headers : HeaderMap
cors_headers =
    (codes "Access-Control-Allow-Origin", codes "*" ∷ [])
    ∷ (
      codes "Access-Control-Allow-Methods",
      codes "GET, POST, PUT, DELETE, PATCH, OPTIONS, HEAD" ∷ [],
    )
    ∷ (
      codes "Access-Control-Allow-Headers",
      codes "Content-Type, Authorization, X-Requested-With, Accept" ∷ [],
    )
    ∷ (codes "Access-Control-Max-Age", codes "86400" ∷ [])
    ∷ (codes "Access-Control-Expose-Headers", codes "X-Httptape-Source, X-Httptape-Error" ∷ [])
    ∷ []

abbrev pub first_headers : Server → HeaderMap
first_headers s = if s.cors then cors_headers else []

-- w.Header()[key] = values, for each entry
unfoldable pub copy_headers : HeaderMap → HeaderMap → HeaderMap
copy_headers [] h = h
copy_headers ((key, values_in) ∷ from) h = copy_headers from ((key, values_in) ∷ delete key h)

-- w.Header().Set(key, value), for each entry
unfoldable pub set_headers : List (Text × Text) → HeaderMap → HeaderMap
set_headers [] h = h
set_headers ((key, value) ∷ overrides) h = set_headers overrides (set (canonical_key key) value h)

-- the criteria that `matchExemplar` keeps
abbrev pub is_path_criterion : Criterion → Bool
is_path_criterion path_criterion = true
is_path_criterion (path_pattern_criterion p) = true
is_path_criterion (path_regex_criterion re) = true
is_path_criterion c = false

unfoldable pub other_criteria : Matcher → List Criterion
other_criteria (composite_matcher criteria) = keep (λ c. not (is_path_criterion c)) criteria
other_criteria (other_matcher f) = []

-- the first path pattern among the criteria
unfoldable pub pattern_params : List Criterion → Text → Option (List (Text × Text))
pattern_params [] path = none
pattern_params (path_pattern_criterion p ∷ criteria) path = extract_params p path
pattern_params (c ∷ criteria) path = pattern_params criteria path

abbrev pub matcher_params : Matcher → Text → Option (List (Text × Text))
matcher_params (composite_matcher criteria) path = pattern_params criteria path
matcher_params (other_matcher f) path = none

pub record ExemplarMatch : Type 0 where
  pub tape : Tape
  pub params : Option (List (Text × Text))
  pub score : ℕ
  pub decl_order : ℕ

-- the test of the path against a pattern, with the parameters; `none` is a mismatch
abbrev params_of :
    PathPattern → Text → Option (List (Text × Text)) → Option (Option (List (Text × Text)))
params_of p path (some params) = some (some params)
params_of p path none =
    if not (matches_path p path)
    then none
    else if is_empty p.param_names
    then some (some [])
    else some none

abbrev better_match : Option ExemplarMatch → ExemplarMatch → ExemplarMatch
better_match none m = m
better_match (some best) m =
    if ltb best.score m.score || (nat_beq m.score best.score && ltb m.decl_order best.decl_order)
    then m
    else best

abbrev pub errors_of : List (Text × Json) → Option Fields
errors_of metadata = elim (lookup (codes "error") metadata) [ some (obj fs) ↦ some fs | _ ↦ none ]

module _ (pf : Platform) (rt : Runtime) where
  -- the inner loop of `matchExemplar`
  unfoldable pub add_scores : ℕ → List Criterion → Request → Tape → Option ℕ
  add_scores total [] r exemplar = some total
  add_scores total (c ∷ criteria) r exemplar =
      let n = score pf c r exemplar in
      let rest = add_scores (total + n) criteria r exemplar in if nat_beq n 0 then none else rest

  abbrev scored : ℕ → Tape → Option (Option (List (Text × Text))) → Option ℕ → Option ExemplarMatch
  scored i exemplar (some params) (some total) =
      some (record { tape = exemplar; params = params; score = total; decl_order = i })
  scored i exemplar _ _ = none

  abbrev path_params_of : Request → Option PathPattern → Option (Option (List (Text × Text)))
  path_params_of r none = none
  path_params_of r (some p) = params_of p r.url.path (extract_params p r.url.path)

  -- one round, for the exemplar at index `i`; `none` is a `continue`
  unfoldable pub exemplar_match : List Criterion → Request → ℕ → Tape → Option ExemplarMatch
  unfolding add_scores
  exemplar_match criteria r i exemplar =
      scored i exemplar (path_params_of r (new_path_pattern rt exemplar.request.url_pattern))
        (add_scores 3 criteria r exemplar)

  abbrev keep_better : Option ExemplarMatch → Option ExemplarMatch → Option ExemplarMatch
  keep_better best none = best
  keep_better best (some m) = some (better_match best m)

  unfoldable pub match_exemplar_from :
      List Criterion → Request → ℕ → Option ExemplarMatch → List Tape → Option ExemplarMatch
  unfolding exemplar_match
  match_exemplar_from criteria r i best [] = best
  match_exemplar_from criteria r i best (exemplar ∷ exemplars) =
      match_exemplar_from criteria r (suc i)
        (keep_better best (exemplar_match criteria r i exemplar)) exemplars

  unfoldable pub match_exemplar : Server → Request → List Tape → Option ExemplarMatch
  unfolding match_exemplar_from other_criteria
  match_exemplar s r exemplars = match_exemplar_from (other_criteria s.matcher) r 0 none exemplars

  unfoldable pub match_tapes : Matcher → Request → List Tape → Option Tape
  match_tapes (composite_matcher criteria) r tapes = composite_match pf criteria r tapes
  match_tapes (other_matcher f) r tapes = f r tapes

  abbrev without_params : Tape → Tape × Option (List (Text × Text))
  without_params t = (t, none)

  abbrev of_match : ExemplarMatch → Tape × Option (List (Text × Text))
  of_match m = (m.tape, m.params)

  -- the two phases of `ServeHTTP`: the tape with the parameters of an exemplar's path
  unfoldable pub find_tape :
      Server → Request → List Tape → Option (Tape × Option (List (Text × Text)))
  unfolding match_exemplar match_tapes
  find_tape s r tapes =
      let exact_tapes = keep (λ (t : Tape). not t.exemplar) tapes in
      let exemplar_tapes = keep (λ (t : Tape). t.exemplar) tapes in
      elim (match_tapes s.matcher r exact_tapes) [
        | some t ↦ some (without_params t)
        | none ↦
            if s.synthesis && not (is_empty exemplar_tapes)
            then elim (match_exemplar s r exemplar_tapes) [
              | none ↦ none
              | some m ↦ some (of_match m)
            ]
            else none
      ]
