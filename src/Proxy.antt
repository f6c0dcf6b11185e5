-- ===== src/Proxy.antt =====
-- proxy.go: the proxy, which records what upstream answers in two stores and falls back to them.
pub mod Trip
pub mod Forward
pub mod Secrets
pub mod Outage
pub mod Fallback
use mathlib.Core.Option.{map as map_option}
use httptape.Prelude.{
  ℕ, Text, codes, Bool, true, false, not, Option, none, some, List, [], ◌∷◌, ◌++◌, if◌then◌else◌,
}
use httptape.Platform.{Platform, Runtime}
use httptape.Header.{HeaderMap, get_first, delete, set}
use httptape.Tape.{SseEvent, Tape, is_sse}
use httptape.Sanitizer.{SanitizeFunc}
use httptape.Matcher.{Request, ReqBody, no_body, readable, broken, method_criterion, path_criterion}
use httptape.Store.{Store, Filter, Listed, not_listed, listed}
use httptape.Recorder.{Stamp, is_sse_content_type}
use httptape.Server.{Matcher, composite_matcher, match_tapes}
use httptape.Caching.{
  CachingTransport, UpstreamAnswer, CachedBody, whole, events, live, CachedResponse, Fetch, unread,
  transport_error, forwarded, hit, stale, fetched, new_caching_transport,
  with_cache_lookup_disabled, with_cache_sanitizer, with_cache_route, with_cache_sse_recording,
  with_cache_filter,
}
use httptape.Caching.Trip.{exchange_tape, cached_round_trip, finish_stream}
use httptape.Health.{state_live, state_l1_cache, state_l2_cache}

-- of a response what `isFallback` looks at
pub record Head : Type 0 where
  pub status_code : ℕ
  pub headers : HeaderMap

-- the fields of `Proxy` that a round trip reads; `is_fallback` is told whether there is an error
pub record Proxy : Type 0 where
  pub matcher : Matcher
  pub is_fallback : (failed : Bool) → Option Head → Bool
  pub route : Text
  pub sanitizer : SanitizeFunc

pub data ProxyOption : Type 0 where
  with_proxy_sanitizer : SanitizeFunc → ProxyOption
  with_proxy_matcher : Matcher → ProxyOption
  with_proxy_route : Text → ProxyOption
  with_proxy_fallback_on : (Bool → Option Head → Bool) → ProxyOption

unfoldable pub apply_proxy_option : ProxyOption → Proxy → Proxy
apply_proxy_option (with_proxy_sanitizer s) p = record p { sanitizer = s }
apply_proxy_option (with_proxy_matcher m) p = record p { matcher = m }
apply_proxy_option (with_proxy_route route) p = record p { route = route }
apply_proxy_option (with_proxy_fallback_on fn) p = record p { is_fallback = fn }

unfoldable pub apply_proxy_options : List ProxyOption → Proxy → Proxy
unfolding apply_proxy_option
apply_proxy_options [] p = p
apply_proxy_options (opt ∷ opts) p = apply_proxy_options opts (apply_proxy_option opt p)

unfoldable pub new_proxy : List ProxyOption → Proxy
unfolding apply_proxy_options
new_proxy opts = apply_proxy_options opts (record {
  matcher = composite_matcher (method_criterion ∷ path_criterion ∷ []);
  is_fallback = λ failed resp. failed;
  route = [];
  sanitizer = λ t. t;
})

abbrev pub head_of : UpstreamAnswer → Head
head_of resp = record { status_code = resp.status_code; headers = resp.headers }

abbrev pub cached_head : CachedResponse → Head
cached_head resp = record { status_code = resp.status_code; headers = resp.headers }

-- the caching transport of `NewProxy`
unfoldable pub caching_of : Proxy → CachingTransport
unfolding new_caching_transport
caching_of p = new_caching_transport (
    with_cache_lookup_disabled
    ∷ with_cache_sanitizer p.sanitizer
    ∷ with_cache_route p.route
    ∷ with_cache_sse_recording true
    ∷ with_cache_filter (λ resp. not (p.is_fallback false (some (head_of resp))))
    ∷ [])

-- what parsing the events of a stream comes to
pub record ParsedStream : Type 0 where
  pub parse_failed : Bool
  pub parsed : List SseEvent

-- What a round trip returns: the error of a request's body, that of upstream, what upstream answers, or a
-- tape with its source.
pub data ProxyReply : Type 0 where
  body_unread failed : ProxyReply
  passed : CachedResponse → ProxyReply
  cached : (source : Text) → Tape → CachedResponse → ProxyReply

pub record L1Trip (S : Type 0) : Type 0 where
  pub answer : Option UpstreamAnswer
  pub l1 : S
  pub observed : List Text

pub record ProxyTrip (S1 S2 : Type 0) : Type 0 where
  pub reply : ProxyReply
  pub l1 : S1
  pub l2 : S2
  pub observed : List Text

abbrev pub no_filter : Filter
no_filter = record { route = []; method = [] }

-- a response of the transport; a body that it has not read is read from upstream
abbrev pub reply_of : Fetch → Option CachedResponse
reply_of unread = none
reply_of transport_error = none
reply_of (forwarded none) = none
reply_of (forwarded (some resp)) =
    some (record { status_code = resp.status_code; headers = resp.headers; body = live false })
reply_of (hit tape resp) = some resp
reply_of (stale tape resp) = some resp
reply_of (fetched resp) = some resp

-- `io.ReadAll(resp.Body)` of `RoundTrip`: a body that breaks off is dropped
unfoldable pub drained_body : Option UpstreamAnswer → CachedBody → CachedBody
drained_body (some resp) (live cancelled) = whole (if resp.breaks_off then [] else resp.body)
drained_body answer b = b

abbrev pub is_live : CachedBody → Bool
is_live (live cancelled) = true
is_live b = false

abbrev pub is_none : {A : Type 0} → Option A → Bool
is_none none = true
is_none (some a) = false

abbrev pub read_all : ReqBody → Option Text
read_all no_body = some []
read_all (readable body) = some body
read_all broken = none

abbrev pub with_source : Text → HeaderMap → HeaderMap
with_source source h = delete (codes "Content-Length") (set (codes "X-Httptape-Source") source h)

-- `tapeToResponse` and `sseResponseFromTape`
unfoldable pub tape_to_response : Tape → (source : Text) → CachedResponse
tape_to_response tape source =
    if is_sse tape.response
    then record {
      status_code = tape.response.status_code;
      headers =
          set (codes "Content-Type") (codes "text/event-stream")
            (with_source source tape.response.headers);
      body = events tape.response.sse_events;
    }
    else record {
      status_code = tape.response.status_code;
      headers = with_source source tape.response.headers;
      body = whole tape.response.body;
    }

abbrev pub original : Option CachedResponse → ProxyReply
original none = failed
original (some resp) = passed resp

abbrev pub from_l2 : Option CachedResponse → Option Tape → ProxyReply
from_l2 resp none = original resp
from_l2 resp (some tape) = cached state_l2_cache tape (tape_to_response tape state_l2_cache)

abbrev pub from_l1 : Option CachedResponse → Option Tape → Option Tape → ProxyReply
from_l1 resp none in_l2 = from_l2 resp in_l2
from_l1 resp (some tape) in_l2 = cached state_l1_cache tape (tape_to_response tape state_l1_cache)

-- the state that `tapeToResponse` reports
abbrev pub observed_in : ProxyReply → List Text
observed_in (cached source tape resp) = source ∷ []
observed_in reply = []

abbrev pub drained : Option UpstreamAnswer → CachedResponse → CachedResponse
drained answer resp = record resp { body = drained_body answer resp.body }
