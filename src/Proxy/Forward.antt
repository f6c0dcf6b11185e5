-- ===== src/Proxy/Forward.antt =====
-- What the proxy's transport does with an answer of upstream.
use mathlib.Core.Option.{map as map_option}
use httptape.Prelude.{
  arith, Text, ◌≡◌, ◌≢◌, refl, ap, ◌∙◌, Bool, true, false, not, Option, none, some, Bool-cases, inl,
  inr, codes, ◌&&◌,
}
use httptape.Platform.{Platform, Runtime}
use httptape.Header.{get_first}
use httptape.Matcher.{Request, ReqBody, no_body, readable, broken}
use httptape.Store.{Store}
use httptape.Recorder.{Stamp, is_sse_content_type}
use httptape.Caching.{
  CachingTransport, UpstreamAnswer, Buffered, not_read, oversize, buffered, buffer_request_body,
  new_caching_transport, apply_caching_options, apply_caching_option,
}
use httptape.Caching.Trip.{
  cached_tape, round_trip_upstream, cached_round_trip, after_buffer, miss_or_hit,
}
use httptape.Proxy.{Proxy, head_of, cached_head, caching_of, reply_of}

-- the options of the transport that a proxy makes
pub record IsForwarder (p : Proxy) (ct : CachingTransport) : Type 0 where
  pub lookup : ct.lookup_disabled ≡ true
  pub no_stale : ct.stale_fallback ≡ false
  pub same_sanitizer : ct.sanitizer ≡ p.sanitizer
  pub sse : ct.sse_recording ≡ true
  pub same_route : ct.route ≡ p.route
  pub filter :
      (resp : UpstreamAnswer)
      → ct.cache_filter resp ≡ not (p.is_fallback false (some (head_of resp)))

pub caching_of-IsForwarder : (p : Proxy) → IsForwarder p (caching_of p)
unfolding caching_of new_caching_transport apply_caching_options apply_caching_option
caching_of-IsForwarder p = record {
  lookup = refl;
  no_stale = refl;
  same_sanitizer = refl;
  sse = refl;
  same_route = refl;
  filter = λ resp. refl;
}

module _ (pf : Platform) (rt : Runtime) {S : Type 0} (store : Store S) (p : Proxy)
    (ct : CachingTransport) (c : IsForwarder p ct) where
  -- no lookup finds a tape
  pub cached_tape-none :
      (cancelled : Bool) (req : Request) (s : S) → cached_tape pf rt store ct cancelled req s ≡ none
  unfolding cached_tape
  cached_tape-none cancelled req s = rw c.lookup refl

  head_upstream :
      (cancelled : Bool) (req : Request) (body : Text) (stamp : Stamp)
      (answer : Option UpstreamAnswer) (s : S)
      → map_option cached_head
          (reply_of (round_trip_upstream pf rt store ct cancelled req body stamp answer s).0)
        ≡ map_option head_of answer
  unfolding round_trip_upstream
  head_upstream cancelled req body stamp none s = rw c.no_stale refl
  head_upstream cancelled req body stamp (some resp) s =
      elim (Bool-cases (
        ct.sse_recording
        && is_sse_content_type pf (get_first (codes "Content-Type") resp.headers))) [
          | inl e ↦ rw e refl
          | inr e ↦ rw e refl
        ]

  head_after :
      (cancelled : Bool) (req : Request) (stamp : Stamp) (answer : Option UpstreamAnswer) (s : S)
      (b : Buffered)
      → b ≢ not_read
      → map_option cached_head
          (reply_of (after_buffer pf rt store ct cancelled req stamp answer s b).0)
        ≡ map_option head_of answer
  head_after cancelled req stamp answer s not_read e = absurd (e refl)
  head_after cancelled req stamp none s oversize e = refl
  head_after cancelled req stamp (some resp) s oversize e = refl
  head_after cancelled req stamp answer s (buffered body) e =
      ap
        (λ o.
          map_option cached_head
            (reply_of (miss_or_hit pf rt store ct cancelled req body stamp answer s o).0))
        (cached_tape-none cancelled req s)
      ∙ head_upstream cancelled req body stamp answer s

  buffer-read : (body : ReqBody) → body ≢ broken → buffer_request_body ct body ≢ not_read
  unfolding buffer_request_body
  buffer-read no_body h = λ e. absurd cc
  buffer-read (readable text) h = λ e. ground (arith, e)
  buffer-read broken h = absurd (h refl)

  -- the transport returns an error where upstream does, and else the status and the headers of its answer
  pub head_forwarded :
      (cancelled : Bool) (req : Request) (stamp : Stamp) (answer : Option UpstreamAnswer) (s : S)
      → req.body ≢ broken
      → map_option cached_head
          (reply_of (cached_round_trip pf rt store ct cancelled req stamp answer s).0)
        ≡ map_option head_of answer
  unfolding cached_round_trip
  head_forwarded cancelled req stamp answer s h =
      head_after cancelled req stamp answer s _ (buffer-read req.body h)
