-- ===== src/Server/Options.antt =====
-- server.go: the options of a server, and NewServer. What the options set of the callback, the pace of a
-- stream, and the sources that tests inject has no field here.
use httptape.Prelude.{
  ℕ, Text, codes, Bool, true, false, ◌||◌, Option, none, some, List, [], ◌∷◌, ◌==◌, text_eq,
  if◌then◌else◌,
}
use httptape.Float.{float_less, float_equal, float_one}
use httptape.Int64.{ℤ, pos}
use httptape.Matcher.{method_criterion, path_criterion}
use httptape.Server.{Server, Matcher, composite_matcher, ResponseTiming, instant, accelerated}

pub data ServerOption : Type 0 where
  with_matcher : Matcher → ServerOption
  with_fallback_status : ℕ → ServerOption
  with_fallback_body : Text → ServerOption
  with_cors with_synthesis : ServerOption
  with_delay : ℤ → ServerOption
  with_error_rate : ℕ → ServerOption
  with_replay_headers : (key value : Text) → ServerOption
  with_templating with_strict_templating : Bool → ServerOption
  with_replay_timing : ResponseTiming → ServerOption

-- s.replayHeaders[key] = value
unfoldable pub put_header : Text → Text → List (Text × Text) → List (Text × Text)
put_header key value [] = (key, value) ∷ []
put_header key value ((k, v) ∷ headers) =
    let rest = put_header key value headers in
    if k == key then (k, value) ∷ headers else (k, v) ∷ rest

unfoldable pub apply_option : ServerOption → Server → Server
unfolding put_header
apply_option (with_matcher m) s = record s { matcher = m }
apply_option (with_fallback_status code) s = record s { fallback_status = code }
apply_option (with_fallback_body body) s = record s { fallback_body = body }
apply_option with_cors s = record s { cors = true }
apply_option with_synthesis s = record s { synthesis = true }
apply_option (with_delay d) s = record s { delay = d }
apply_option (with_error_rate rate) s = record s { error_rate = rate }
apply_option (with_replay_headers key value) s = record s {
  replay_headers = put_header key value s.replay_headers;
}
apply_option (with_templating enabled) s = record s { templating = enabled }
apply_option (with_strict_templating strict) s = record s { strict_templating = strict }
apply_option (with_replay_timing mode) s = record s { replay_timing = mode }

unfoldable pub apply_options : List ServerOption → Server → Server
unfolding apply_option
apply_options [] s = s
apply_options (opt ∷ opts) s = apply_options opts (apply_option opt s)

abbrev pub default_server : Server
default_server = record {
  matcher = composite_matcher (method_criterion ∷ path_criterion ∷ []);
  fallback_status = 404;
  fallback_body = codes "httptape: no matching tape found";
  cors = false;
  delay = pos 0;
  error_rate = 0;
  replay_headers = [];
  templating = true;
  strict_templating = false;
  replay_timing = instant;
  synthesis = false;
}

-- `none` is an error
unfoldable pub new_server : List ServerOption → Option Server
unfolding apply_options
new_server opts =
    let s = apply_options opts default_server in
    if float_less s.error_rate 0 || float_less float_one s.error_rate then none else some s

-- the product with a factor that is no NaN is left to the runtime
unfoldable pub response_timing_accelerated : (factor : ℕ) → Option ResponseTiming
response_timing_accelerated factor =
    if float_less factor 0 || float_equal factor 0 then none else some (accelerated factor)
