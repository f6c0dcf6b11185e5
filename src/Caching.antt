-- ===== src/Caching.antt =====
-- caching_transport.go: the transport that answers from a store and fills it from upstream.
pub mod Trip
pub mod Hits
pub mod Flights
use httptape.Prelude.{
  ℕ, ◌*◌, Text, codes, Bool, true, false, not, ◌&&◌, Option, none, some, List, [], ◌∷◌, ◌++◌,
  length, is_empty, ltb, leb, nat_beq, if◌then◌else◌, map,
}
use httptape.Platform.{Platform, Runtime}
use httptape.Header.{HeaderMap, get_first, delete, set}
use httptape.Tape.{SseEvent, RecordedReq, RecordedResp, Tape, is_sse, body_hash_from_bytes}
use httptape.Sanitizer.{SanitizeFunc}
use httptape.Matcher.{
  Request, ReqBody, no_body, readable, broken, Criterion, method_criterion, path_criterion,
  body_hash_criterion,
}
use httptape.Store.{StoreError, Store, Filter, Listed, not_listed, listed}
use httptape.Recorder.{Stamp, is_sse_content_type}
use httptape.Server.{Matcher, composite_matcher, match_tapes}

-- What upstream answers: of the body, what can be read, and whether the reader fails after that.
pub record UpstreamAnswer : Type 0 where
  pub status_code : ℕ
  pub headers : HeaderMap
  pub body : Text
  pub breaks_off : Bool

-- the fields of `CachingTransport` that a round trip reads; the callback for errors, and delays, are left out
pub record CachingTransport : Type 0 where
  pub matcher : Matcher
  pub sanitizer : SanitizeFunc
  pub route : Text
  pub cache_filter : UpstreamAnswer → Bool
  pub single_flight : Bool
  pub lookup_disabled : Bool
  pub max_body_size : ℕ
  pub sse_recording : Bool
  pub stale_fallback : Bool
  pub upstream_timeout : ℕ

pub data CachingOption : Type 0 where
  with_cache_matcher : Matcher → CachingOption
  with_cache_sanitizer : SanitizeFunc → CachingOption
  with_cache_filter : (UpstreamAnswer → Bool) → CachingOption
  with_cache_single_flight with_cache_sse_recording : Bool → CachingOption
  with_cache_upstream_down_fallback : Bool → CachingOption
  with_cache_max_body_size : ℕ → CachingOption
  with_cache_route : Text → CachingOption
  with_cache_lookup_disabled : CachingOption
  with_cache_upstream_timeout : ℕ → CachingOption

unfoldable pub apply_caching_option : CachingOption → CachingTransport → CachingTransport
apply_caching_option (with_cache_matcher m) ct = record ct { matcher = m }
apply_caching_option (with_cache_sanitizer s) ct = record ct { sanitizer = s }
apply_caching_option (with_cache_filter fn) ct = record ct { cache_filter = fn }
apply_caching_option (with_cache_single_flight enabled) ct = record ct { single_flight = enabled }
apply_caching_option (with_cache_sse_recording enabled) ct = record ct { sse_recording = enabled }
apply_caching_option (with_cache_upstream_down_fallback enabled) ct = record ct {
  stale_fallback = enabled;
}
apply_caching_option (with_cache_max_body_size n) ct = record ct { max_body_size = n }
apply_caching_option (with_cache_route route) ct = record ct { route = route }
apply_caching_option with_cache_lookup_disabled ct = record ct { lookup_disabled = true }
apply_caching_option (with_cache_upstream_timeout d) ct = record ct { upstream_timeout = d }

unfoldable pub apply_caching_options : List CachingOption → CachingTransport → CachingTransport
unfolding apply_caching_option
apply_caching_options [] ct = ct
apply_caching_options (opt ∷ opts) ct = apply_caching_options opts (apply_caching_option opt ct)

abbrev pub is_success : UpstreamAnswer → Bool
is_success resp = leb 200 resp.status_code && ltb resp.status_code 300

unfoldable pub new_caching_transport : List CachingOption → CachingTransport
unfolding apply_caching_options
new_caching_transport opts = apply_caching_options opts (record {
  matcher = composite_matcher (method_criterion ∷ path_criterion ∷ body_hash_criterion ∷ []);
  sanitizer = λ t. t;
  route = [];
  cache_filter = is_success;
  single_flight = true;
  lookup_disabled = false;
  max_body_size = 10 * 1024 * 1024;
  sse_recording = true;
  stale_fallback = false;
  upstream_timeout = 0;
})

-- The body of a response that the transport returns. A live stream reads from upstream, whose
-- context may be cancelled already; what is done at its end is `finish_stream`.
pub data CachedBody : Type 0 where
  whole : Text → CachedBody
  events : List SseEvent → CachedBody
  live : (cancelled : Bool) → CachedBody

pub record CachedResponse : Type 0 where
  pub status_code : ℕ
  pub headers : HeaderMap
  pub body : CachedBody

-- What a round trip comes to: the error of a body or of upstream, what upstream answers to a body that is
-- too large, a tape, a stale tape, or what upstream answers.
pub data Fetch : Type 0 where
  unread transport_error : Fetch
  forwarded : Option UpstreamAnswer → Fetch
  hit stale : Tape → CachedResponse → Fetch
  fetched : CachedResponse → Fetch

pub data Buffered : Type 0 where
  not_read oversize : Buffered
  buffered : Text → Buffered

-- `bufferRequestBody`
unfoldable pub buffer_request_body : CachingTransport → ReqBody → Buffered
buffer_request_body ct no_body = buffered []
buffer_request_body ct broken = not_read
buffer_request_body ct (readable body) =
    if ltb 0 ct.max_body_size && ltb ct.max_body_size (length body) then oversize else buffered body

unfoldable pub tape_to_response : Tape → CachedResponse
tape_to_response tape = record {
  status_code = tape.response.status_code;
  headers = delete (codes "Content-Length") tape.response.headers;
  body = whole tape.response.body;
}

unfoldable pub sse_response_from_tape : Tape → CachedResponse
sse_response_from_tape tape = record {
  status_code = tape.response.status_code;
  headers =
      delete (codes "Content-Length")
        (set (codes "Content-Type") (codes "text/event-stream") tape.response.headers);
  body = events tape.response.sse_events;
}

unfoldable pub response_of : Tape → CachedResponse
unfolding tape_to_response sse_response_from_tape
response_of tape =
    if is_sse tape.response then sse_response_from_tape tape else tape_to_response tape

abbrev pub stale_response : Tape → CachedResponse
stale_response tape =
    let resp = response_of tape in
    record resp { headers = set (codes "X-Httptape-Stale") (codes "true") resp.headers }

abbrev pub route_filter : CachingTransport → Filter
route_filter ct = record { route = ct.route; method = [] }
