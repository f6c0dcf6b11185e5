-- ===== src/Sanitizer.antt =====
-- sanitizer.go: the pipeline, the redaction of headers, JSON bodies and SSE data.
pub mod Redact
pub mod Bodies
pub mod Headers
pub mod Hashes
pub mod Pipelines
pub mod Frame
use httptape.Prelude.{
  ℕ, Text, codes, Bool, true, false, Option, none, some, List, [], ◌∷◌, map, any, is_empty, ◌==◌,
  text_eq, if◌then◌else◌,
}
use httptape.Json.{Json, null, bool, num, str, arr, obj}
use httptape.JsonPath.{Segment, parse_path, rewrite_at_path}
use httptape.Platform.{Platform}
use httptape.Header.{HeaderMap, canonical_key}
use httptape.Tape.{SseEvent, Tape, is_sse, body_hash_from_bytes}

abbrev pub redacted : Text
redacted = codes "[REDACTED]"

abbrev pub default_sensitive_headers : List Text
default_sensitive_headers =
    codes "Authorization"
    ∷ codes "Cookie"
    ∷ codes "Set-Cookie"
    ∷ codes "X-Api-Key"
    ∷ codes "Proxy-Authorization"
    ∷ codes "X-Forwarded-For"
    ∷ []

abbrev pub SanitizeFunc : Type 0
SanitizeFunc = Tape → Tape

-- `Pipeline.Sanitize`
unfoldable pub sanitize : List SanitizeFunc → Tape → Tape
sanitize [] t = t
sanitize (fn ∷ funcs) t = sanitize funcs (fn t)

redact_values : List Text → List Text
redact_values vs = map (λ _. redacted) vs

unfoldable pub redact_header_map : HeaderMap → List Text → HeaderMap
unfolding redact_values
redact_header_map [] sensitive = []
redact_header_map ((name, vs) ∷ headers) sensitive =
    (name, if any (λ s. s == canonical_key name) sensitive then redact_values vs else vs)
    ∷ redact_header_map headers sensitive

unfoldable pub redact_headers : List Text → SanitizeFunc
unfolding redact_header_map
redact_headers names t =
    let names' = if is_empty names then default_sensitive_headers else names in
    let sensitive = map canonical_key names' in
    record t {
      request = record t.request { headers = redact_header_map t.request.headers sensitive };
      response = record t.response { headers = redact_header_map t.response.headers sensitive };
    }

unfoldable pub redact_value : Json → Json
redact_value (str s) = str redacted
redact_value (num n) = num 0
redact_value (bool b) = bool false
redact_value v = v

unfoldable pub redact_at_path : List Segment → Json → Json
unfolding redact_value
redact_at_path path data_in = rewrite_at_path redact_value path data_in

-- The paths that parse, in order; the others are skipped.
unfoldable pub parse_paths : List Text → List (List Segment)
parse_paths [] = []
parse_paths (p ∷ ps) = elim (parse_path p) [ none ↦ parse_paths ps | some pp ↦ pp ∷ parse_paths ps ]

-- the loop over the paths, for `redactBodyFields` and `fakeBodyFields`
unfoldable pub apply_paths : (List Segment → Json → Json) → List (List Segment) → Json → Json
apply_paths act [] j = j
apply_paths act (p ∷ ps) j = apply_paths act ps (act p j)

-- the body of the functions that `RedactSSEEventData` and `FakeSSEEventData` return
unfoldable pub sanitize_events : (Text → Text) → SanitizeFunc
sanitize_events f t =
    if is_sse t.response
    then record t {
      response = record t.response {
        sse_events =
            map (λ (ev : SseEvent). record ev { payload = f ev.payload }) t.response.sse_events;
      };
    }
    else t

module _ (pf : Platform) where
  abbrev remarshal : Text → Option Text → Text
  remarshal body none = body
  remarshal body (some result) = result

  abbrev rewrite_decoded : (Json → Json) → Text → Option Json → Text
  rewrite_decoded f body none = body
  rewrite_decoded f body (some j) = remarshal body (pf.marshal (f j))

  -- json.Unmarshal, the in-place changes, json.Marshal; the body stands as it is on an error
  unfoldable pub rewrite_body : (Json → Json) → Text → Text
  rewrite_body f body = if is_empty body then body else rewrite_decoded f body (pf.unmarshal body)

  unfoldable pub redact_body_fields : Text → List (List Segment) → Text
  unfolding rewrite_body
  redact_body_fields body paths = rewrite_body (apply_paths redact_at_path paths) body

  -- the body of the functions that `RedactBodyPaths`, `FakeFields` and `FakeFieldsWith` return
  unfoldable pub sanitize_bodies : (Text → Text) → SanitizeFunc
  sanitize_bodies f t =
      let new_req_body = f t.request.body in
      let hash =
        if new_req_body == t.request.body
        then t.request.body_hash
        else body_hash_from_bytes pf new_req_body in
      record t {
        request = record t.request { body = new_req_body; body_hash = hash };
        response = record t.response { body = f t.response.body };
      }

  unfoldable pub redact_body_paths : List Text → SanitizeFunc
  unfolding redact_body_fields sanitize_bodies
  redact_body_paths paths = sanitize_bodies (λ b. redact_body_fields b (parse_paths paths))

  unfoldable pub redact_sse_event_data : List Text → SanitizeFunc
  unfolding redact_body_fields sanitize_events
  redact_sse_event_data paths = sanitize_events (λ b. redact_body_fields b (parse_paths paths))
