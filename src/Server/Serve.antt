-- ===== src/Server/Serve.antt =====
-- server.go: ServeHTTP as a decision, with the response it writes.
use httptape.Prelude.{
  ℕ, ◌*◌, Text, codes, Bool, false, ◌&&◌, Option, none, some, List, [], nat_beq, ltb, ◌==◌, text_eq,
  if◌then◌else◌, lookup,
}
use httptape.Json.{Json, num, str, Fields, get}
use httptape.Float.{float_less}
use httptape.Platform.{Platform, Runtime}
use httptape.Int64.{ℤ, pos, negsuc}
use httptape.Header.{HeaderMap, delete, set}
use httptape.Tape.{Tape, is_sse}
use httptape.Matcher.{Request}
use httptape.Store.{Store, Filter, Listed, not_listed, listed}
use httptape.Templating.Counters.{reset}
use httptape.Templating.Substitution.{TemplateCtx, TemplateState, err, ok}
use httptape.Templating.Render.{
  read_request_body, resolve_template_body, resolve_exemplar_body, resolve_template_headers,
  error_text,
}
use httptape.Templating.Walk.{Outcome, map_result}
use httptape.Server.{
  Server, Surroundings, Response, bytes, stream, Served, abandoned, preflight, simulated_error,
  store_error, no_match, fixture_error, template_error, unflushable, replayed, written, http_error,
  cors_headers, first_headers, copy_headers, set_headers, matcher_params, errors_of, ResponseTiming,
  instant, recorded_timing, accelerated, find_tape,
}

abbrev pub every_tape : Filter
every_tape = record { route = []; method = [] }

abbrev pub is_positive : ℤ → Bool
is_positive (pos n) = ltb 0 n
is_positive (negsuc n) = false

abbrev status_of_int : ℤ → ℕ
status_of_int (pos n) = n
status_of_int (negsuc n) = 0

abbrev pub simulated : HeaderMap → HeaderMap
simulated h = set (codes "X-Httptape-Error") (codes "simulated") h

abbrev pub in_template : HeaderMap → HeaderMap
in_template h = set (codes "X-Httptape-Error") (codes "template") h

-- steps 12a to 12c
unfoldable pub replay_headers_on : Server → HeaderMap → HeaderMap → HeaderMap
unfolding copy_headers set_headers
replay_headers_on s resp_headers h =
    delete (codes "Content-Length") (set_headers s.replay_headers (copy_headers resp_headers h))

unfoldable pub sse_headers_on : Server → HeaderMap → HeaderMap → HeaderMap
unfolding copy_headers set_headers
sse_headers_on s resp_headers h =
    let sse = set (codes "Connection") (codes "keep-alive") (
      set (codes "Cache-Control") (codes "no-cache")
        (set (codes "Content-Type") (codes "text/event-stream") (copy_headers resp_headers h))) in
    delete (codes "Content-Length") (set_headers s.replay_headers sse)

unfoldable pub replay_response : Server → Tape → Text → HeaderMap → Response
unfolding replay_headers_on
replay_response s tape body headers = record {
  status = tape.response.status_code;
  headers = replay_headers_on s headers (first_headers s);
  body = bytes body;
}

unfoldable pub sse_response : Server → Tape → Response
unfolding sse_headers_on
sse_response s tape = record {
  status = tape.response.status_code;
  headers = sse_headers_on s tape.response.headers (first_headers s);
  body = stream tape.response.sse_events;
}

unfoldable pub serve_sse : Server → Surroundings → Tape → Served
unfolding sse_response
serve_sse s around tape =
    if around.can_flush
    then written (replayed tape) (sse_response s tape)
    else written (unflushable tape)
        (http_error (first_headers s) (codes "httptape: streaming not supported") 500)

module _ (pf : Platform) (rt : Runtime) where
  -- the status and the body of a fixture's error
  abbrev pub error_status : Option Json → ℕ
  error_status (some (num f)) = status_of_int (rt.int64_of_float f)
  error_status _ = 500

  abbrev pub error_body : Option Json → Text
  error_body (some (str s)) = s
  error_body _ = codes "httptape: fixture error"

  abbrev pub fixture_response : Server → Fields → Response
  fixture_response s fs =
      http_error (simulated (first_headers s)) (error_body (get fs (codes "body")))
        (error_status (get fs (codes "status")))

  unfoldable pub effective_delay : Server → Tape → ℤ
  effective_delay s tape = elim (lookup (codes "delay") tape.metadata) [
    | some (str ds) ↦ elim (rt.parse_duration ds) [ none ↦ s.delay | some parsed ↦ parsed ]
    | _ ↦ s.delay
  ]

  -- `responseDelay`, in nanoseconds
  unfoldable pub response_delay : ResponseTiming → (elapsed_ms : ℕ) → ℕ
  response_delay instant elapsed_ms = 0
  response_delay recorded_timing elapsed_ms = elapsed_ms * 1000000
  response_delay (accelerated factor) elapsed_ms =
      if nat_beq elapsed_ms 0 then 0 else rt.scale elapsed_ms factor * 1000000

  abbrev params_or : Server → Request → Option (List (Text × Text)) → Option (List (Text × Text))
  params_or s r (some params) = some params
  params_or s r none = matcher_params s.matcher r.url.path

  abbrev pub template_ctx : Server → Request → Tape → Option (List (Text × Text)) → TemplateCtx
  template_ctx s r tape params = record {
    req = r;
    req_body = read_request_body r.body;
    path_params = params_or s r params;
    tape_id = tape.id;
  }

  -- the body and the headers of step 11; a body that fails leaves the headers alone
  abbrev pub headers_after :
      TemplateCtx → Bool → HeaderMap → Outcome Text → Outcome (Text × HeaderMap)
  headers_after ctx strict headers x = elim x.0 [
    | err e ↦ (err e, x.1)
    | ok body ↦
        let (r, st') = resolve_template_headers pf rt ctx strict headers x.1 in
        (map_result (λ headers'. (body, headers')) r, st')
  ]

  unfoldable pub resolve_response :
      TemplateCtx → Bool → Tape → TemplateState → Outcome (Text × HeaderMap)
  resolve_response ctx strict tape st = headers_after ctx strict tape.response.headers (
      if tape.exemplar
      then resolve_exemplar_body pf rt ctx strict tape.response.body tape.response.headers st
      else resolve_template_body pf rt ctx strict tape.response.body st)

  abbrev pub finish : Server → Tape → Outcome (Text × HeaderMap) → Served × TemplateState
  finish s tape (err e, st) = (
    written (template_error tape)
        (http_error (in_template (first_headers s)) (error_text pf rt e) 500),
    st,
  )
  finish s tape (ok (body, headers), st) =
      (written (replayed tape) (replay_response s tape body headers), st)

  -- steps 10 to 12
  unfoldable pub replay :
      Server
      → Surroundings
      → Request
      → Tape
      → Option (List (Text × Text))
      → TemplateState
      → Served × TemplateState
  unfolding serve_sse resolve_response replay_response
  replay s around r tape params st =
      if is_sse tape.response
      then (serve_sse s around tape, st)
      else finish s tape (
          if s.templating
          then resolve_response (template_ctx s r tape params) s.strict_templating tape st
          else (ok (tape.response.body, tape.response.headers), st))

  -- steps 8 to 12, for the tape that was found
  unfoldable pub serve_tape :
      Server
      → Surroundings
      → Request
      → Tape
      → Option (List (Text × Text))
      → TemplateState
      → Served × TemplateState
  unfolding replay effective_delay response_delay
  serve_tape s around r tape params st = elim (errors_of tape.metadata) [
    | some fs ↦ (written (fixture_error tape) (fixture_response s fs), st)
    | none ↦
        if is_positive (effective_delay s tape) && around.cancelled_in_delay
        then (abandoned, st)
        else if ltb 0 (response_delay s.replay_timing tape.response.elapsed_ms)
            && around.cancelled_in_replay_delay
        then (abandoned, st)
        else replay s around r tape params st
  ]

  abbrev pub fallback : Server → Response
  fallback s = record {
    status = s.fallback_status;
    headers = first_headers s;
    body = bytes s.fallback_body;
  }

  -- steps 4 to 12, for what the store listed
  unfoldable pub serve_listed :
      Server → Surroundings → Request → Listed → TemplateState → Served × TemplateState
  unfolding serve_tape find_tape
  serve_listed s around r (not_listed e) st =
      (written store_error (http_error (first_headers s) (codes "httptape: store error") 500), st)
  serve_listed s around r (listed tapes) st = elim (find_tape pf rt s r tapes) [
    | none ↦ (written no_match (fallback s), st)
    | some (tape, params) ↦ serve_tape s around r tape params st
  ]

  abbrev pub preflight_response : Response
  preflight_response = record { status = 204; headers = cors_headers; body = bytes [] }

  abbrev pub simulated_response : Server → Response
  simulated_response s =
      http_error (simulated (first_headers s)) (codes "httptape: simulated error") 500

  unfoldable pub serve_http :
      {S : Type 0}
      → Server
      → Store S
      → S
      → Surroundings
      → Request
      → TemplateState
      → Served × TemplateState
  unfolding serve_listed
  serve_http s store contents around r st =
      if s.cors && r.method == codes "OPTIONS"
      then (written preflight preflight_response, st)
      else if float_less 0 s.error_rate && float_less around.rand_float s.error_rate
      then (written simulated_error (simulated_response s), st)
      else serve_listed s around r (store.list around.cancelled_at_list every_tape contents) st

-- `Server.ResetCounter`
unfoldable pub reset_counter : Text → TemplateState → TemplateState
unfolding reset
reset_counter name st = record st {
  counters = elim st.counters [ none ↦ none | some cs ↦ some (reset name cs) ];
}
