-- ===== src/Sanitizer/Bodies.antt =====
-- What `RedactBodyPaths` and `RedactSSEEventData` leave in a recorded body.
use httptape.Prelude.{
  Text, ◌≡◌, refl, Option, none, some, List, [], ◌∷◌, map, All, is_empty, arith, if◌then◌else◌,
}
use httptape.Json.{Json}
use httptape.JsonPath.{Segment}
use httptape.JsonPath.Rewrite.{select}
use httptape.Platform.{Platform}
use httptape.Tape.{SseEvent, Tape, is_sse}
use httptape.Sanitizer.{
  redact_at_path, parse_paths, apply_paths, remarshal, redact_body_fields, redact_body_paths,
  redact_sse_event_data, sanitize_events,
}
use httptape.Sanitizer.Redact.{IsRedacted, apply_paths-IsRedacted}

-- a tape with no events has no event to change
sanitize_events_lem :
    (f : Text → Text) (t : Tape)
    → (sanitize_events f t).response.sse_events
      ≡ map (λ (ev : SseEvent). record ev { payload = f ev.payload }) t.response.sse_events
unfolding sanitize_events is_sse
sanitize_events_lem f t = ground arith

module _ (pf : Platform) where
  -- The JSON value of a body: an empty body has none.
  abbrev pub decode : Text → Option Json
  decode body = if is_empty body then none else pf.unmarshal body

  -- `out` is stored for `body`: unchanged if that is no JSON, else the encoding of what the paths
  -- make of its value, in which each addresses redacted values only (the body, should the encoder
  -- fail).
  abbrev pub IsStored : List (List Segment) → (body out : Text) → Option Json → Type 0
  IsStored paths body out none = out ≡ body
  IsStored paths body out (some j) =
      let j' = apply_paths redact_at_path paths j in
      (out ≡ remarshal pf body (pf.marshal j'))
      × All (λ path. All IsRedacted (select path j')) paths

  redact_body_fields-IsStored :
      (paths : List (List Segment)) (body : Text)
      → IsStored paths body (redact_body_fields pf body paths) (decode body)
  unfolding redact_body_fields
  redact_body_fields-IsStored paths [] = refl
  redact_body_fields-IsStored paths (c ∷ body) = stored (pf.unmarshal (c ∷ body)) refl
    where
      stored :
          (o : Option Json)
          → pf.unmarshal (c ∷ body) ≡ o
          → IsStored paths (c ∷ body) (redact_body_fields pf (c ∷ body) paths) o
      stored none e = ground arith
      stored (some j) e = (ground arith, apply_paths-IsRedacted paths j)

  -- Both bodies of a tape are stored redacted at every path that parses: a body that is not JSON, or
  -- whose encoding fails, as it was; any other as the encoding of a value in which each addressed value
  -- is redacted.
  pub redact_body_paths-IsStored :
      (paths : List Text) (t : Tape)
      → IsStored
          (parse_paths paths)
          t.request.body
          (redact_body_paths pf paths t).request.body
          (decode t.request.body)
        × IsStored
            (parse_paths paths)
            t.response.body
            (redact_body_paths pf paths t).response.body
            (decode t.response.body)
  unfolding redact_body_paths
  redact_body_paths-IsStored paths t = (
    redact_body_fields-IsStored (parse_paths paths) t.request.body,
    redact_body_fields-IsStored (parse_paths paths) t.response.body,
  )

  -- event by event, in order: the data is stored redacted and all else is kept
  abbrev pub EventsStored : List (List Segment) → (before after : List SseEvent) → Type 0
  EventsStored paths [] after = after ≡ []
  EventsStored paths (ev ∷ evs) [] = ⊥
  EventsStored paths (ev ∷ evs) (ev' ∷ evs') =
      IsStored paths ev.payload ev'.payload (decode ev.payload)
      × (ev' ≡ record ev { payload = ev'.payload })
      × EventsStored paths evs evs'

  events_stored :
      (paths : List (List Segment)) (evs : List SseEvent)
      → EventsStored paths evs (
          map
            (λ (ev : SseEvent). record ev { payload = redact_body_fields pf ev.payload paths })
            evs)
  events_stored paths [] = refl
  events_stored paths (ev ∷ evs) =
      (redact_body_fields-IsStored paths ev.payload, refl, events_stored paths evs)

  -- The data of each event of a stream is stored redacted at every path that parses; the events
  -- keep their number, order, timing, type, id and retry.
  pub redact_sse_event_data-IsStored :
      (paths : List Text) (t : Tape)
      → EventsStored
          (parse_paths paths)
          t.response.sse_events
          (redact_sse_event_data pf paths t).response.sse_events
  unfolding redact_sse_event_data
  redact_sse_event_data-IsStored paths t =
      rw (sanitize_events_lem (λ b. redact_body_fields pf b (parse_paths paths)) t)
        (events_stored (parse_paths paths) t.response.sse_events)
