-- ===== src/Proxy/Secrets.antt =====
-- What reaches the second store of a proxy.
use mathlib.Core.Option.{map as map_option}
use httptape.Prelude.{
  Text, ◌≡◌, sym, ap, ◌∙◌, Bool, true, false, not, Option, none, some, ◌⊎◌, Bool-cases, inl, inr,
  if◌then◌else◌, codes, ◌&&◌, List, [], ◌==◌, text_eq,
}
use mathlib.Core.Path.{subst}
use httptape.Platform.{Platform, Runtime}
use httptape.Header.{get_first}
use httptape.Tape.{Tape, SseEvent}
use httptape.Matcher.{Request}
use httptape.Store.{Store, IsStore}
use httptape.Recorder.{Stamp, is_sse_content_type}
use httptape.Caching.{
  CachingTransport, UpstreamAnswer, Fetch, fetched, unread, transport_error, forwarded, hit, stale,
  Buffered, not_read, oversize, buffered,
}
use httptape.Caching.Trip.{
  round_trip_upstream, cached_round_trip, after_buffer, miss_or_hit, cache_tape, exchange_tape,
  store_answer, finish_stream,
}
use httptape.Proxy.{
  is_none, Proxy, caching_of, ParsedStream, L1Trip, read_all, reply_of, cached_head, is_live,
}
use httptape.Proxy.Trip.{
  after_read, round_trip, finish_l1_stream, finish_l2_stream, after_drain, decide, l1_round_trip,
}
use httptape.Proxy.Forward.{IsForwarder, caching_of-IsForwarder, cached_tape-none}

module _ (pf : Platform) (rt : Runtime) (p : Proxy) {S1 S2 : Type 0} (l1 : Store S1) (l2 : Store S2)
    (contents : S2 → Text → Option Tape) (lawful : IsStore l2 contents) (start : S2) where
  -- each tape is what the sanitizer has made of one, or was there at the start
  pub IsClean : S2 → Type 0
  IsClean s =
      (id : Text) (t : Tape)
      → contents s id ≡ some t
      → ((raw : Tape) × (p.sanitizer raw ≡ t)) ⊎ (contents start id ≡ some t)

  if_put :
      (s : S2) (raw : Tape) (id : Text) (t : Tape) (b : Bool)
      → IsClean s
      → (if b then some (p.sanitizer raw) else contents s id) ≡ some t
      → ((raw : Tape) × (p.sanitizer raw ≡ t)) ⊎ (contents start id ≡ some t)
  unfolding IsClean
  if_put s raw id t true h e = inl (raw, cc e)
  if_put s raw id t false h e = h id t e

  save-IsClean :
      (cancelled : Bool) (raw : Tape) (s : S2)
      → IsClean s
      → IsClean (l2.save cancelled (p.sanitizer raw) s).1
  unfolding IsClean
  save-IsClean true raw s h =
      subst IsClean (sym (ap (λ r. r.1) (lawful.save_cancelled (p.sanitizer raw) s))) h
  save-IsClean false raw s h = λ id t e. elim (lawful.save_contents (p.sanitizer raw) s id) [
    | inl new ↦ if_put s raw id t ((p.sanitizer raw).id == id) h (sym new ∙ e)
    | inr old ↦ h id t (sym old.1 ∙ e)
  ]

  module _ (ct : CachingTransport) (c : IsForwarder p ct) where
    save-tape :
        (cancelled : Bool) (raw : Tape) (s : S2)
        → IsClean s
        → IsClean (l2.save cancelled (ct.sanitizer raw) s).1
    save-tape cancelled raw s h =
        subst (λ f. IsClean (l2.save cancelled (f raw) s).1) (sym c.same_sanitizer)
          (save-IsClean cancelled raw s h)

    finish_stream-IsClean :
        (req : Request) (body : Text) (stamp : Stamp) (resp : UpstreamAnswer)
        (parse_failed completed : Bool) (evs : List SseEvent) (s : S2)
        → IsClean s
        → IsClean (finish_stream pf rt l2 ct req body stamp resp parse_failed completed evs s)
    unfolding finish_stream cache_tape
    finish_stream-IsClean req body stamp resp true completed evs s h = h
    finish_stream-IsClean req body stamp resp false false evs s h = h
    finish_stream-IsClean req body stamp resp false true evs s h =
        save-tape false (exchange_tape pf rt l2 ct req body resp [] evs stamp) s h

    store_answer-IsClean :
        (cancelled : Bool) (req : Request) (body : Text) (stamp : Stamp) (resp : UpstreamAnswer)
        (s : S2)
        → IsClean s
        → IsClean (store_answer pf rt l2 ct cancelled req body stamp resp s).1
    unfolding cache_tape
    store_answer-IsClean cancelled req body stamp resp s h =
        let saved =
          save-tape cancelled (exchange_tape pf rt l2 ct req body resp resp.body [] stamp) s h in
        either resp.breaks_off s _ h (either (not (ct.cache_filter resp)) s _ h saved)
      where
        either : (b : Bool) (u v : S2) → IsClean u → IsClean v → IsClean (if b then u else v)
        either true u v h k = h
        either false u v h k = k

    upstream-IsClean :
        (cancelled : Bool) (req : Request) (body : Text) (stamp : Stamp)
        (answer : Option UpstreamAnswer) (s : S2)
        → IsClean s
        → IsClean (round_trip_upstream pf rt l2 ct cancelled req body stamp answer s).1
    unfolding round_trip_upstream
    upstream-IsClean cancelled req body stamp none s h = h
    upstream-IsClean cancelled req body stamp (some resp) s h =
        elim (Bool-cases (
          ct.sse_recording
          && is_sse_content_type pf (get_first (codes "Content-Type") resp.headers))) [
            | inl e ↦ rw e h
            | inr e ↦ rw e (store_answer-IsClean cancelled req body stamp resp s h)
          ]

    after-IsClean :
        (cancelled : Bool) (req : Request) (stamp : Stamp) (answer : Option UpstreamAnswer) (s : S2)
        (b : Buffered)
        → IsClean s
        → IsClean (after_buffer pf rt l2 ct cancelled req stamp answer s b).1
    after-IsClean cancelled req stamp answer s not_read h = h
    after-IsClean cancelled req stamp answer s oversize h = h
    after-IsClean cancelled req stamp answer s (buffered body) h =
        subst (λ o. IsClean (miss_or_hit pf rt l2 ct cancelled req body stamp answer s o).1)
          (sym (cached_tape-none pf rt l2 p ct c cancelled req s))
          (upstream-IsClean cancelled req body stamp answer s h)

  forwarded-IsClean :
      (cancelled : Bool) (req : Request) (stamp : Stamp) (answer : Option UpstreamAnswer) (s : S2)
      → IsClean s
      → IsClean (cached_round_trip pf rt l2 (caching_of p) cancelled req stamp answer s).1
  unfolding cached_round_trip
  forwarded-IsClean cancelled req stamp answer s h =
      after-IsClean (caching_of p) (caching_of-IsForwarder p) cancelled req stamp answer s _ h

  finish-IsClean :
      (req : Request) (body : Text) (stamp : Stamp) (resp : UpstreamAnswer) (stream : ParsedStream)
      (s : S2)
      → IsClean s
      → IsClean (finish_l2_stream pf rt p l1 l2 req body stamp resp stream s)
  unfolding finish_l2_stream
  finish-IsClean req body stamp resp stream s h =
      finish_stream-IsClean (caching_of p) (caching_of-IsForwarder p) req body stamp resp _ _ _ s h

  drain-IsClean :
      (req : Request) (body : Text) (stamp : Stamp) (stream : ParsedStream)
      (answer : Option UpstreamAnswer) (fetch : Fetch) (s : S2)
      → IsClean s
      → IsClean (after_drain pf rt p l1 l2 req body stamp stream answer fetch s)
  drain-IsClean req body stamp stream none fetch s h = h
  drain-IsClean req body stamp stream (some answer) (fetched resp) s h =
      elim (Bool-cases (is_live resp.body)) [
        | inl e ↦ rw e (finish-IsClean req body stamp answer stream s h)
        | inr e ↦ rw e h
      ]
  drain-IsClean req body stamp stream (some answer) unread s h = h
  drain-IsClean req body stamp stream (some answer) transport_error s h = h
  drain-IsClean req body stamp stream (some answer) (forwarded a) s h = h
  drain-IsClean req body stamp stream (some answer) (hit t r) s h = h
  drain-IsClean req body stamp stream (some answer) (stale t r) s h = h

  decide-IsClean :
      (cancelled : Bool) (req : Request) (body : Text) (stamp : Stamp) (stream : ParsedStream)
      (trip : L1Trip S1) (f : Fetch × S2)
      → IsClean f.1
      → IsClean (decide pf rt p l1 l2 cancelled req body stamp stream trip f).l2
  decide-IsClean cancelled req body stamp stream trip (fetch, s2) h =
      elim (Bool-cases
        (p.is_fallback (is_none (reply_of fetch)) (map_option cached_head (reply_of fetch)))) [
          | inl e ↦ rw e (drain-IsClean req body stamp stream trip.answer fetch s2 h)
          | inr e ↦ rw e h
        ]

  round_trip-IsClean :
      (cancelled : Bool) (req : Request) (stamp : Stamp) (answer : Option UpstreamAnswer)
      (stream : ParsedStream) (s1 : S1) (s2 : S2)
      → IsClean s2
      → IsClean (round_trip pf rt p l1 l2 cancelled req stamp answer stream s1 s2).l2
  unfolding round_trip after_read
  round_trip-IsClean cancelled req stamp answer stream s1 s2 h = read (read_all req.body)
    where
      read :
          (o : Option Text)
          → IsClean (after_read pf rt p l1 l2 cancelled req stamp answer stream s1 s2 o).l2
      read none = h
      read (some body) =
          let trip = l1_round_trip pf rt p l1 l2 cancelled req body stamp answer s1 in
          decide-IsClean cancelled req body stamp stream trip _
            (forwarded-IsClean cancelled req stamp trip.answer s2 h)

  -- a round trip, and the end of a stream in each of the two transports
  pub data ProxyStep : S1 × S2 → S1 × S2 → Type 0 where
    tripped :
        {s : S1 × S2} (cancelled : Bool) (req : Request) (stamp : Stamp)
        (answer : Option UpstreamAnswer) (stream : ParsedStream)
        → ProxyStep s (
          (round_trip pf rt p l1 l2 cancelled req stamp answer stream s.0 s.1).l1,
          (round_trip pf rt p l1 l2 cancelled req stamp answer stream s.0 s.1).l2,
        )
    l1_finished :
        {s : S1 × S2} (req : Request) (body : Text) (stamp : Stamp) (resp : UpstreamAnswer)
        (stream : ParsedStream)
        → ProxyStep s ((finish_l1_stream pf rt p l1 l2 req body stamp resp stream s.0).l1, s.1)
    l2_finished :
        {s : S1 × S2} (req : Request) (body : Text) (stamp : Stamp) (resp : UpstreamAnswer)
        (stream : ParsedStream)
        → ProxyStep s (s.0, finish_l2_stream pf rt p l1 l2 req body stamp resp stream s.1)

  pub data ProxySteps : S1 × S2 → S1 × S2 → Type 0 where
    still : {s : S1 × S2} → ProxySteps s s
    onward : {s u v : S1 × S2} → ProxySteps s u → ProxyStep u v → ProxySteps s v

  step-IsClean : {s u : S1 × S2} → ProxyStep s u → IsClean s.1 → IsClean u.1
  step-IsClean (tripped {s} cancelled req stamp answer stream) h =
      round_trip-IsClean cancelled req stamp answer stream s.0 s.1 h
  step-IsClean (l1_finished req body stamp resp stream) h = h
  step-IsClean (l2_finished {s} req body stamp resp stream) h =
      finish-IsClean req body stamp resp stream s.1 h

  -- Whatever round trips are made and streams end, in whatever order: each tape that a lawful second store holds is what the
  -- sanitizer has made of a tape, or was there at the start.
  pub ProxySteps-IsClean : {s1 : S1} {s : S1 × S2} → ProxySteps (s1, start) s → IsClean s.1
  unfolding IsClean
  ProxySteps-IsClean still = λ id t e. inr e
  ProxySteps-IsClean (onward steps step) = step-IsClean step (ProxySteps-IsClean steps)
