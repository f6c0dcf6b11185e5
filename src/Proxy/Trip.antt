-- ===== src/Proxy/Trip.antt =====
-- proxy.go: a round trip of the proxy.
use mathlib.Core.Option.{map as map_option}
use httptape.Prelude.{
  Text, codes, Bool, false, not, Option, none, some, [], ◌∷◌, ◌++◌, if◌then◌else◌,
}
use httptape.Platform.{Platform, Runtime}
use httptape.Header.{get_first}
use httptape.Tape.{Tape}
use httptape.Matcher.{Request}
use httptape.Store.{Store, Listed, not_listed, listed}
use httptape.Recorder.{Stamp, is_sse_content_type}
use httptape.Server.{match_tapes}
use httptape.Caching.{UpstreamAnswer, CachedResponse, Fetch, fetched}
use httptape.Caching.Trip.{exchange_tape, cached_round_trip, finish_stream}
use httptape.Health.{state_live}
use httptape.Proxy.{
  Proxy, head_of, cached_head, caching_of, ParsedStream, ProxyReply, L1Trip, ProxyTrip, no_filter,
  reply_of, drained_body, is_live, is_none, read_all, original, from_l1, observed_in, drained,
  body_unread,
}

module _ (pf : Platform) (rt : Runtime) (p : Proxy) where
  abbrev pub matched_in : Request → Listed → Option Tape
  matched_in req (not_listed e) = none
  matched_in req (listed tapes) = match_tapes pf rt p.matcher req tapes

  unfoldable pub match_from_store :
      {S : Type 0} → Store S → (cancelled : Bool) → Request → S → Option Tape
  match_from_store store cancelled req s = matched_in req (store.list cancelled no_filter s)

  abbrev pub is_stream : UpstreamAnswer → Bool
  is_stream resp = is_sse_content_type pf (get_first (codes "Content-Type") resp.headers)

  module _ {S1 S2 : Type 0} (l1 : Store S1) (l2 : Store S2) where
    -- `l1RecordingTransport.RoundTrip`, with the answer of upstream; `none` is its error. What can be
    -- read of a body that breaks off is passed on as if it were whole.
    unfoldable pub l1_round_trip :
        (cancelled : Bool) → Request → Text → Stamp → Option UpstreamAnswer → S1 → L1Trip S1
    l1_round_trip cancelled req req_body stamp none s = record {
      answer = none;
      l1 = s;
      observed = [];
    }
    l1_round_trip cancelled req req_body stamp (some resp) s =
        if p.is_fallback false (some (head_of resp))
        then record { answer = some resp; l1 = s; observed = [] }
        else if is_stream resp
        then record { answer = some resp; l1 = s; observed = [] }
        else if resp.breaks_off
        then record {
          answer = some (record resp { breaks_off = false });
          l1 = s;
          observed = state_live ∷ [];
        }
        else record {
          answer = some resp;
          l1 =
              (l1.save cancelled
                (exchange_tape pf rt l1 (caching_of p) req req_body resp resp.body [] stamp) s).1;
          observed = state_live ∷ [];
        }

    -- `onDone` of its `roundTripSSE`: what was parsed of a stream is kept
    unfoldable pub finish_l1_stream :
        Request → Text → Stamp → UpstreamAnswer → ParsedStream → S1 → L1Trip S1
    finish_l1_stream req req_body stamp resp stream s =
        let tape = exchange_tape pf rt l1 (caching_of p) req req_body resp [] stream.parsed stamp in
        record {
          answer = some resp;
          l1 =
              (l1.save false
                (record tape {
                  response = record tape.response { truncated = stream.parse_failed };
                })
                s).1;
          observed = state_live ∷ [];
        }

    -- what the transport does with its store when a stream ends
    unfoldable pub finish_l2_stream :
        Request → Text → Stamp → UpstreamAnswer → ParsedStream → S2 → S2
    unfolding finish_stream
    finish_l2_stream req req_body stamp resp stream s =
        finish_stream pf rt l2 (caching_of p) req req_body stamp resp stream.parse_failed
          (not resp.breaks_off) stream.parsed s

    unfoldable pub fallback :
        (cancelled : Bool) → Request → Option CachedResponse → S1 → S2 → ProxyReply
    unfolding match_from_store
    fallback cancelled req resp s1 s2 =
        from_l1 resp (match_from_store l1 cancelled req s1) (match_from_store l2 cancelled req s2)

    -- draining a stream lets the transport store it
    abbrev pub after_drain :
        Request → Text → Stamp → ParsedStream → Option UpstreamAnswer → Fetch → S2 → S2
    after_drain req req_body stamp stream (some answer) (fetched resp) s =
        if is_live resp.body then finish_l2_stream req req_body stamp answer stream s else s
    after_drain req req_body stamp stream answer fetch s = s

    -- step 3 of `RoundTrip`
    abbrev pub decide :
        (cancelled : Bool)
        → Request
        → Text
        → Stamp
        → ParsedStream
        → L1Trip S1
        → Fetch × S2
        → ProxyTrip S1 S2
    decide cancelled req req_body stamp stream trip (fetch, s2) =
        let resp = reply_of fetch in
        if p.is_fallback (is_none resp) (map_option cached_head resp)
        then (let s2' = after_drain req req_body stamp stream trip.answer fetch s2 in
            let reply =
              fallback cancelled req (map_option (drained trip.answer) resp) trip.l1 s2' in
            record {
              reply = reply;
              l1 = trip.l1;
              l2 = s2';
              observed = trip.observed ++ observed_in reply;
            })
        else record { reply = original resp; l1 = trip.l1; l2 = s2; observed = trip.observed }

    abbrev pub forward :
        (cancelled : Bool)
        → Request
        → Text
        → Stamp
        → ParsedStream
        → S2
        → L1Trip S1
        → ProxyTrip S1 S2
    forward cancelled req req_body stamp stream s2 trip =
        decide cancelled req req_body stamp stream trip
          (cached_round_trip pf rt l2 (caching_of p) cancelled req stamp trip.answer s2)

    unfoldable pub after_read :
        (cancelled : Bool)
        → Request
        → Stamp
        → Option UpstreamAnswer
        → ParsedStream
        → S1
        → S2
        → Option Text
        → ProxyTrip S1 S2
    unfolding l1_round_trip fallback finish_l2_stream drained_body
    after_read cancelled req stamp answer stream s1 s2 none = record {
      reply = body_unread;
      l1 = s1;
      l2 = s2;
      observed = [];
    }
    after_read cancelled req stamp answer stream s1 s2 (some req_body) =
        forward cancelled req req_body stamp stream s2
          (l1_round_trip cancelled req req_body stamp answer s1)

    -- `RoundTrip` of a request that shares its flight with no other; `answer` is what upstream answers, and
    -- `stream` what is parsed of it if a stream is drained. The transport has the body in memory and does no
    -- lookup, so it calls upstream once.
    unfoldable pub round_trip :
        (cancelled : Bool)
        → Request
        → Stamp
        → Option UpstreamAnswer
        → ParsedStream
        → S1
        → S2
        → ProxyTrip S1 S2
    unfolding after_read
    round_trip cancelled req stamp answer stream s1 s2 =
        after_read cancelled req stamp answer stream s1 s2 (read_all req.body)
