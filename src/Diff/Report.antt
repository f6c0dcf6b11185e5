-- ===== src/Diff/Report.antt =====
-- diff.go: the report that compares the fixtures of a store with a live API.
use mathlib.Core.Option.{map as map_option}
use httptape.Prelude.{
  ℕ, suc, Text, Bool, true, false, not, ◌&&◌, ◌||◌, Option, none, some, List, [], ◌∷◌, ◌++◌, any,
  keep, map, is_empty, nat_beq, if◌then◌else◌, ◌==◌, text_eq,
}
use httptape.Platform.{Platform, Runtime}
use httptape.JsonPath.{Segment, parse_path}
use httptape.Header.{canonical_key}
use httptape.Tape.{Tape, RecordedResp, body_hash_from_bytes}
use httptape.Sanitizer.{SanitizeFunc}
use httptape.Matcher.{Request, ReqBody, no_body, readable, broken, method_criterion, path_criterion}
use httptape.Store.{Store, Listed, not_listed, listed}
use httptape.Server.{Matcher, composite_matcher, match_tapes}
use httptape.Caching.{UpstreamAnswer}
use httptape.Diff.{BodyFieldDiff, diff_json_bodies}
use httptape.Diff.Headers.{HeaderDiff, diff_headers}

pub data DiffStatus : Type 0 where
  diff_matched diff_drifted diff_no_fixture : DiffStatus

-- the kinds of `Error`
pub data DiffFailure : Type 0 where
  read_request_body transport_failed read_response_body : DiffFailure

pub record StatusCodeDiff : Type 0 where
  pub old : ℕ
  pub new : ℕ

pub record DiffResult : Type 0 where
  pub request_method : Text
  pub request_url : Text
  pub fixture_id : Text
  pub status : DiffStatus
  pub status_code : Option StatusCodeDiff
  pub headers : List HeaderDiff
  pub body_fields : List BodyFieldDiff
  pub body_changed : Bool
  pub failure : Option DiffFailure

pub record StaleFixture : Type 0 where
  pub id : Text
  pub route : Text
  pub method : Text
  pub url : Text

pub record DiffReport : Type 0 where
  pub results : List DiffResult
  pub stale : List StaleFixture

pub record DiffConfig : Type 0 where
  pub matcher : Matcher
  pub sanitizer : Option SanitizeFunc
  pub ignore_paths : List (List Segment)
  pub ignore_headers : List Text

pub data DiffOption : Type 0 where
  with_diff_matcher : Matcher → DiffOption
  with_diff_sanitizer : SanitizeFunc → DiffOption
  with_ignore_paths with_ignore_headers : List Text → DiffOption

unfoldable pub add_paths : List Text → List (List Segment)
unfolding parse_path
add_paths [] = []
add_paths (p ∷ ps) = elim (parse_path p) [ none ↦ add_paths ps | some pp ↦ pp ∷ add_paths ps ]

unfoldable pub apply_diff_option : DiffOption → DiffConfig → DiffConfig
unfolding add_paths canonical_key
apply_diff_option (with_diff_matcher m) c = record c { matcher = m }
apply_diff_option (with_diff_sanitizer s) c = record c { sanitizer = some s }
apply_diff_option (with_ignore_paths paths) c = record c {
  ignore_paths = c.ignore_paths ++ add_paths paths;
}
apply_diff_option (with_ignore_headers names) c = record c {
  ignore_headers = map canonical_key names ++ c.ignore_headers;
}

unfoldable pub diff_config : List DiffOption → DiffConfig → DiffConfig
unfolding apply_diff_option
diff_config [] c = c
diff_config (opt ∷ opts) c = diff_config opts (apply_diff_option opt c)

abbrev pub default_config : DiffConfig
default_config = record {
  matcher = composite_matcher (method_criterion ∷ path_criterion ∷ []);
  sanitizer = none;
  ignore_paths = [];
  ignore_headers = [];
}

-- `if fixture.Response.StatusCode != liveResp.StatusCode`
abbrev pub status_diff : ℕ → ℕ → Option StatusCodeDiff
status_diff old new = if nat_beq old new then none else some (record { old = old; new = new })

abbrev pub any_difference : DiffResult → Bool
any_difference r =
    (elim r.status_code [ none ↦ false | some d ↦ true ])
    || not (is_empty r.headers)
    || not (is_empty r.body_fields)
    || r.body_changed

abbrev pub with_status : DiffResult → DiffResult
with_status r = record r { status = if any_difference r then diff_drifted else diff_matched }

module _ (pf : Platform) (rt : Runtime) (cfg : DiffConfig) where
  -- `isJSONBody`
  unfoldable pub is_json_body : Text → Bool
  is_json_body body = elim (if is_empty body then none else pf.unmarshal body) [
    | none ↦ false
    | some v ↦ true
  ]

  abbrev pub empty_result : Request → DiffResult
  empty_result req = record {
    request_method = req.method;
    request_url = rt.url_string req.url;
    fixture_id = [];
    status = diff_matched;
    status_code = none;
    headers = [];
    body_fields = [];
    body_changed = false;
    failure = none;
  }

  abbrev pub broken_off : Request → Text → DiffFailure → DiffResult
  broken_off req id f = record (empty_result req) {
    fixture_id = id;
    status = diff_drifted;
    failure = some f;
  }

  -- the temporary tape
  abbrev pub live_tape : Request → Text → UpstreamAnswer → Tape
  live_tape req req_body resp = record {
    id = [];
    route = [];
    recorded_at = 0;
    request = record {
      method = req.method;
      url = rt.url_string req.url;
      url_pattern = [];
      headers = req.headers;
      body = req_body;
      body_hash = body_hash_from_bytes pf req_body;
      truncated = false;
      original_body_size = 0;
    };
    response = record {
      status_code = resp.status_code;
      headers = resp.headers;
      body = resp.body;
      truncated = false;
      original_body_size = 0;
      sse_events = [];
      elapsed_ms = 0;
    };
    metadata = [];
    exemplar = false;
  }

  unfoldable pub live_response : Option SanitizeFunc → Tape → RecordedResp
  live_response none t = t.response
  live_response (some sanitize) t = (sanitize t).response

  unfoldable pub compare_responses : Request → (fixture : Tape) → RecordedResp → DiffResult
  unfolding is_json_body diff_headers diff_json_bodies body_hash_from_bytes
  compare_responses req fixture live =
      let json = is_json_body fixture.response.body && is_json_body live.body in
      with_status (record (empty_result req) {
        fixture_id = fixture.id;
        status_code = status_diff fixture.response.status_code live.status_code;
        headers = diff_headers fixture.response.headers live.headers cfg.ignore_headers;
        body_fields =
            if json
            then diff_json_bodies cfg.ignore_paths pf fixture.response.body live.body
            else [];
        body_changed =
            if json
            then false
            else not (
                body_hash_from_bytes pf fixture.response.body == body_hash_from_bytes pf live.body);
      })

  unfoldable pub with_answer : Request → Text → Tape → Option UpstreamAnswer → DiffResult
  unfolding live_response compare_responses
  with_answer req req_body fixture none = broken_off req fixture.id transport_failed
  with_answer req req_body fixture (some resp) =
      if resp.breaks_off
      then broken_off req fixture.id read_response_body
      else compare_responses req fixture (live_response cfg.sanitizer (live_tape req req_body resp))

  unfoldable pub with_fixture : Request → Text → Option UpstreamAnswer → Option Tape → DiffResult
  unfolding with_answer
  with_fixture req req_body answer none = record (empty_result req) { status = diff_no_fixture }
  with_fixture req req_body answer (some fixture) = with_answer req req_body fixture answer

  unfoldable pub with_body : Request → Option UpstreamAnswer → List Tape → Option Text → DiffResult
  unfolding with_fixture match_tapes
  with_body req answer tapes none = broken_off req [] read_request_body
  with_body req answer tapes (some req_body) =
      with_fixture req req_body answer (match_tapes pf rt cfg.matcher req tapes)

  abbrev pub read_all : ReqBody → Option Text
  read_all no_body = some []
  read_all (readable body) = some body
  read_all broken = none

  -- `diffOneRequest`; `answer` is what the live API answers
  unfoldable pub diff_one_request : Request → Option UpstreamAnswer → List Tape → DiffResult
  unfolding with_body
  diff_one_request req answer tapes = with_body req answer tapes (read_all req.body)

  module _ (transport : ℕ → Request → Option UpstreamAnswer) (cancelled : ℕ → Bool) where
    -- the loop over the requests, the k-th on; `none` is the error of a cancelled context
    unfoldable pub diff_requests : ℕ → List Request → List Tape → Option (List DiffResult)
    unfolding diff_one_request
    diff_requests k [] tapes = some []
    diff_requests k (req ∷ reqs) tapes =
        let rest = diff_requests (suc k) reqs tapes in
        if cancelled k
        then none
        else map_option (λ rs. diff_one_request req (transport k req) tapes ∷ rs) rest

    -- an ID is kept only if it is not empty
    abbrev pub is_matched : List DiffResult → Tape → Bool
    is_matched results t =
        any (λ (r : DiffResult). not (is_empty r.fixture_id) && r.fixture_id == t.id) results

    abbrev pub stale_fixture : Tape → StaleFixture
    stale_fixture t = record {
      id = t.id;
      route = t.route;
      method = t.request.method;
      url = t.request.url;
    }

    abbrev pub report_of : List Tape → List DiffResult → DiffReport
    report_of tapes results = record {
      results = results;
      stale = map stale_fixture (keep (λ t. not (is_matched results t)) tapes);
    }

    unfoldable pub diff_listed : List Request → Listed → Option DiffReport
    unfolding diff_requests
    diff_listed reqs (not_listed e) = none
    diff_listed reqs (listed tapes) = map_option (report_of tapes) (diff_requests 0 reqs tapes)

    -- `Diff`; `list_cancelled` tells of the context when the store is asked
    unfoldable pub diff :
        {S : Type 0} → Store S → (list_cancelled : Bool) → List Request → S → Option DiffReport
    unfolding diff_listed
    diff store list_cancelled reqs s =
        diff_listed reqs (store.list list_cancelled (record { route = []; method = [] }) s)
