-- ===== src/Caching/Trip.antt =====
-- caching_transport.go: a round trip of the caching transport.
use httptape.Prelude.{
  Text, codes, Bool, false, not, ◌&&◌, Option, none, some, List, [], ◌∷◌, ◌++◌, ltb, if◌then◌else◌,
}
use httptape.Platform.{Platform, Runtime}
use httptape.Header.{get_first}
use httptape.Tape.{SseEvent, RecordedReq, RecordedResp, Tape, body_hash_from_bytes}
use httptape.Matcher.{Request}
use httptape.Store.{Store, Listed, not_listed, listed}
use httptape.Recorder.{Stamp, is_sse_content_type}
use httptape.Server.{match_tapes}
use httptape.Caching.{
  UpstreamAnswer, CachingTransport, CachedBody, CachedResponse, Fetch, Buffered,
  buffer_request_body, response_of, stale_response, route_filter, whole, live, unread,
  transport_error, forwarded, hit, stale, fetched, not_read, oversize, buffered,
}

module _ (pf : Platform) (rt : Runtime) {S : Type 0} (store : Store S) (ct : CachingTransport) where
  abbrev pub lookup_in : Request → Listed → Option Tape
  lookup_in req (not_listed e) = none
  lookup_in req (listed tapes) = match_tapes pf rt ct.matcher req tapes

  -- the lookup of `RoundTrip`; `cancelled` tells of the request's context
  unfoldable pub cached_tape : (cancelled : Bool) → Request → S → Option Tape
  cached_tape cancelled req s =
      if ct.lookup_disabled then none else lookup_in req (store.list cancelled (route_filter ct) s)

  unfoldable pub serve_stale_fallback : Request → S → Option Tape
  serve_stale_fallback req s = lookup_in req (store.list false (route_filter ct) s)

  abbrev pub recorded_req : Request → Text → RecordedReq
  recorded_req req req_body = record {
    method = req.method;
    url = rt.url_string req.url;
    url_pattern = [];
    headers = req.headers;
    body = req_body;
    body_hash = body_hash_from_bytes pf req_body;
    truncated = false;
    original_body_size = 0;
  }

  abbrev pub recorded_resp : UpstreamAnswer → Text → List SseEvent → Stamp → RecordedResp
  recorded_resp resp body_in evs stamp = record {
    status_code = resp.status_code;
    headers = resp.headers;
    body = body_in;
    truncated = false;
    original_body_size = 0;
    sse_events = evs;
    elapsed_ms = stamp.elapsed_ms;
  }

  abbrev pub exchange_tape : Request → Text → UpstreamAnswer → Text → List SseEvent → Stamp → Tape
  exchange_tape req req_body resp resp_body evs stamp = record {
    id = stamp.id;
    route = ct.route;
    recorded_at = stamp.recorded_at;
    request = recorded_req req req_body;
    response = recorded_resp resp resp_body evs stamp;
    metadata = [];
    exemplar = false;
  }

  -- the sanitized tape of an exchange
  unfoldable pub cache_tape : Request → Text → UpstreamAnswer → Text → List SseEvent → Stamp → Tape
  cache_tape req req_body resp resp_body evs stamp =
      ct.sanitizer (exchange_tape req req_body resp resp_body evs stamp)

  abbrev with_body : UpstreamAnswer → CachedBody → CachedResponse
  with_body resp b = record { status_code = resp.status_code; headers = resp.headers; body = b }

  -- an answer that is read whole: it is stored if that succeeds and the filter lets it pass; an error of
  -- the store is only reported
  abbrev pub store_answer :
      (cancelled : Bool) → Request → Text → Stamp → UpstreamAnswer → S → Fetch × S
  store_answer cancelled req req_body stamp resp s = (
    fetched (with_body resp (whole resp.body)),
    if resp.breaks_off
        then s
        else if not (ct.cache_filter resp)
        then s
        else (store.save cancelled (cache_tape req req_body resp resp.body [] stamp) s).1,
  )

  abbrev pub stale_or_error : Option Tape → Fetch
  stale_or_error none = transport_error
  stale_or_error (some tape) = stale tape (stale_response tape)

  -- `roundTripUpstream`, with the answer of upstream; `none` is its error
  unfoldable pub round_trip_upstream :
      (cancelled : Bool) → Request → Text → Stamp → Option UpstreamAnswer → S → Fetch × S
  unfolding serve_stale_fallback cache_tape
  round_trip_upstream cancelled req req_body stamp none s = (
    if ct.stale_fallback then stale_or_error (serve_stale_fallback req s) else transport_error,
    s,
  )
  round_trip_upstream cancelled req req_body stamp (some resp) s =
      if ct.sse_recording && is_sse_content_type pf (get_first (codes "Content-Type") resp.headers)
      then (fetched (with_body resp (live (ltb 0 ct.upstream_timeout))), s)
      else store_answer cancelled req req_body stamp resp s

  -- `onDone` of `roundTripSSE`: a stream that failed to parse or did not end is discarded
  unfoldable pub finish_stream :
      Request
      → Text
      → Stamp
      → UpstreamAnswer
      → (parse_failed completed : Bool) → List SseEvent
      → S
      → S
  unfolding cache_tape
  finish_stream req req_body stamp resp parse_failed completed evs s =
      if parse_failed
      then s
      else if not completed
      then s
      else (store.save false (cache_tape req req_body resp [] evs stamp) s).1

  abbrev pub miss_or_hit :
      (cancelled : Bool)
      → Request
      → Text
      → Stamp
      → Option UpstreamAnswer
      → S
      → Option Tape
      → Fetch × S
  miss_or_hit cancelled req req_body stamp answer s (some tape) = (hit tape (response_of tape), s)
  miss_or_hit cancelled req req_body stamp answer s none =
      round_trip_upstream cancelled req req_body stamp answer s

  abbrev pub after_buffer :
      (cancelled : Bool) → Request → Stamp → Option UpstreamAnswer → S → Buffered → Fetch × S
  after_buffer cancelled req stamp answer s not_read = (unread, s)
  after_buffer cancelled req stamp answer s oversize = (forwarded answer, s)
  after_buffer cancelled req stamp answer s (buffered req_body) =
      miss_or_hit cancelled req req_body stamp answer s (cached_tape cancelled req s)

  -- `RoundTrip` of a request that shares its flight with no other; `answer` is what upstream would answer
  unfoldable pub cached_round_trip :
      (cancelled : Bool) → Request → Stamp → Option UpstreamAnswer → S → Fetch × S
  unfolding buffer_request_body cached_tape round_trip_upstream
  cached_round_trip cancelled req stamp answer s =
      after_buffer cancelled req stamp answer s (buffer_request_body ct req.body)

  -- the key of a flight
  unfoldable pub flight_key : Request → Text → Text
  flight_key req req_body =
      req.method ++ (b'|' ∷ (req.url.path ++ (b'|' ∷ body_hash_from_bytes pf req_body)))
