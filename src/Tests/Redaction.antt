-- ===== src/Tests/Redaction.antt =====
-- The theorems on redaction at a sample tape.
use httptape.Prelude.{codes, Text, ◌≡◌, refl, List, [], ◌∷◌, inl, map, if◌then◌else◌, false}
use httptape.JsonPath.{Segment}
use httptape.JsonPath.Rewrite.{select}
use httptape.Header.{values}
use httptape.Sanitizer.{
  sanitize, redacted, redact_at_path, apply_paths, parse_paths, redact_body_paths,
  redact_sse_event_data, redact_headers,
}
use httptape.Sanitizer.Bodies.{
  decode, IsStored, EventsStored, redact_body_paths-IsStored, redact_sse_event_data-IsStored,
}
use httptape.Sanitizer.Frame.{apply_paths-Apart}
use httptape.Sanitizer.Hashes.{IsHashed, rule_func, header_rule, body_rule, sanitize-IsHashed}
use httptape.Sanitizer.Headers.{is_sensitive, values-redact_headers}
use httptape.Tests.{platform, runtime, tape, user}

abbrev name_path : List Segment
name_path = record { key = codes "name"; wildcard = false } ∷ []

abbrev age_path : List Segment
age_path = record { key = codes "age"; wildcard = false } ∷ []

abbrev configured : List Text
configured = codes "$.name" ∷ codes "$.items[*].id" ∷ codes "name" ∷ []

abbrev names : List Text
names = codes "authorization" ∷ []

redact_body_paths-IsStored_example :
    let t = tape (codes "1") (codes "GET") in
    IsStored platform
      (parse_paths configured)
      t.request.body
      (redact_body_paths platform configured t).request.body
      (decode platform t.request.body)
    × IsStored platform
        (parse_paths configured)
        t.response.body
        (redact_body_paths platform configured t).response.body
        (decode platform t.response.body)
redact_body_paths-IsStored_example =
    redact_body_paths-IsStored platform configured (tape (codes "1") (codes "GET"))

redact_sse_event_data-IsStored_example :
    EventsStored platform
      (parse_paths configured)
      (tape (codes "1") (codes "GET")).response.sse_events
      (redact_sse_event_data platform configured
        (tape (codes "1") (codes "GET"))).response.sse_events
redact_sse_event_data-IsStored_example =
    redact_sse_event_data-IsStored platform configured (tape (codes "1") (codes "GET"))

values-redact_headers_example :
    let t = tape (codes "1") (codes "GET") in
    let out = redact_headers names t in
    (values (codes "Authorization") out.request.headers ≡ (
      if is_sensitive names (codes "Authorization")
      then map (λ _. redacted) (values (codes "Authorization") t.request.headers)
      else values (codes "Authorization") t.request.headers))
    × (values (codes "Authorization") out.response.headers ≡ (
        if is_sensitive names (codes "Authorization")
        then map (λ _. redacted) (values (codes "Authorization") t.response.headers)
        else values (codes "Authorization") t.response.headers))
values-redact_headers_example =
    values-redact_headers names (codes "Authorization") (tape (codes "1") (codes "GET"))

apply_paths-Apart_example :
    select age_path (apply_paths redact_at_path (name_path ∷ []) user) ≡ select age_path user
apply_paths-Apart_example = apply_paths-Apart (name_path ∷ []) age_path user (inl (λ e. cc), tt)

sanitize-IsHashed_example : IsHashed platform runtime (
    sanitize
      (map (rule_func platform runtime) (header_rule names ∷ body_rule configured ∷ []))
      (tape (codes "1") (codes "GET")))
sanitize-IsHashed_example =
    sanitize-IsHashed platform runtime (header_rule names ∷ body_rule configured ∷ [])
      (tape (codes "1") (codes "GET")) refl
