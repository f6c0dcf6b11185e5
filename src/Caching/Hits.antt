-- ===== src/Caching/Hits.antt =====
-- What the transport has stored it answers with.
use httptape.Prelude.{
  ◌<◌, codes, ◌≡◌, ◌≢◌, refl, sym, ap, ◌∙◌, Bool, true, false, Option, none, some, List, [], All,
  ◌∷◌, ◌&&◌, Option-cases, inl, inr, arith, if◌then◌else◌, text_eq, eq_iff,
}
use mathlib.Core.Path.{subst}
use httptape.Platform.{Platform, Runtime, Url}
use httptape.Header.{get_first}
use httptape.Tape.{Tape, body_hash_from_bytes}
use httptape.Sanitizer.{SanitizeFunc}
use httptape.Matcher.{
  Request, ReqBody, no_body, readable, broken, Criterion, method_criterion, path_criterion,
  body_hash_criterion, composite_match,
}
use httptape.Matcher.Best.{IsBest, sum_scores, total_score}
use httptape.Store.{passes}
use httptape.Store.Saved.{walked, All-walked, All-walked_saved}
use httptape.Matcher.Positive.{
  body_text, score-method, score-path, score-hash, composite_match-found, composite_match-scores,
}
use httptape.Store.Memory.{Entries, Walk, put, memory_store, save, list}
use httptape.Recorder.{Stamp, is_sse_content_type}
use httptape.Server.{composite_matcher, match_tapes}
use httptape.Caching.{
  CachingTransport, UpstreamAnswer, hit, response_of, buffer_request_body, buffered, route_filter,
}
use httptape.Caching.Trip.{
  cached_tape, cache_tape, exchange_tape, round_trip_upstream, cached_round_trip, lookup_in,
  miss_or_hit, after_buffer,
}

abbrev pub key_criteria : List Criterion
key_criteria = method_criterion ∷ path_criterion ∷ body_hash_criterion ∷ []

-- The sanitizer leaves what these criteria and the filter look at.
pub record KeepsKey (f : SanitizeFunc) : Type 0 where
  pub route : (t : Tape) → (f t).route ≡ t.route
  pub method : (t : Tape) → (f t).request.method ≡ t.request.method
  pub url : (t : Tape) → (f t).request.url ≡ t.request.url
  pub body_hash : (t : Tape) → (f t).request.body_hash ≡ t.request.body_hash

module _ (pf : Platform) (rt : Runtime) (ct : CachingTransport) where
  -- the tape of a request scores with every criterion for that request
  total_score-positive :
      (req : Request) (t : Tape) (u : Url)
      → req.body ≢ broken
      → t.request.method ≡ req.method
      → pf.parse_url t.request.url ≡ some u
      → u.path ≡ req.url.path
      → t.request.body_hash ≡ body_hash_from_bytes pf (body_text req.body)
      → 0 < total_score pf key_criteria req t
  unfolding sum_scores
  total_score-positive req t u whole_body same_method parsed same_path same_hash =
      rw
        (
          score-method pf req t same_method,
          score-path pf req t (some u) u parsed refl same_path,
          score-hash pf req t req.body refl whole_body same_hash,
        )
        (omega arith)

  -- An exchange that the transport stores, in a way that it can find again: its matcher is the default one, lookups are on, its
  -- sanitizer leaves the key, the body is within the limit, the URL is parsed as it is printed, and the answer is no stream
  -- that is recorded, can be read, and passes the filter.
  pub record IsCacheable (req : Request) (resp : UpstreamAnswer) : Type 0 where
    pub matcher : ct.matcher ≡ composite_matcher key_criteria
    pub lookup : ct.lookup_disabled ≡ false
    pub sanitizer : KeepsKey ct.sanitizer
    pub fits : buffer_request_body ct req.body ≡ buffered (body_text req.body)
    pub url : Url
    pub printed : pf.parse_url (rt.url_string req.url) ≡ some url
    pub path : url.path ≡ req.url.path
    pub no_stream :
        ct.sse_recording && is_sse_content_type pf (get_first (codes "Content-Type") resp.headers)
        ≡ false
    pub whole_answer : resp.breaks_off ≡ false
    pub passes_filter : ct.cache_filter resp ≡ true

  not_broken :
      (body : ReqBody) → buffer_request_body ct body ≡ buffered (body_text body) → body ≢ broken
  unfolding buffer_request_body
  not_broken no_body h e = absurd cc
  not_broken (readable body) h e = absurd cc
  not_broken broken h e = absurd cc

  module _ (req : Request) (resp : UpstreamAnswer) (c : IsCacheable req resp) (w : Walk) where
    abbrev the_tape : Stamp → Tape
    unfolding cache_tape
    the_tape stamp =
        cache_tape pf rt (memory_store w) ct req (body_text req.body) resp resp.body [] stamp

    the_tape-positive : (stamp : Stamp) → 0 < total_score pf key_criteria req (the_tape stamp)
    unfolding cache_tape
    the_tape-positive stamp =
        total_score-positive req (the_tape stamp) c.url (not_broken req.body c.fits)
          (c.sanitizer.method _) (ap pf.parse_url (c.sanitizer.url _) ∙ c.printed) c.path
          (c.sanitizer.body_hash _)

    the_tape-passes : (stamp : Stamp) → passes (route_filter ct) (the_tape stamp) ≡ true
    unfolding cache_tape passes
    the_tape-passes stamp =
        let same = c.sanitizer.route (
          exchange_tape pf rt (memory_store w) ct req (body_text req.body) resp resp.body []
            stamp) in
        ground (arith, eq_iff (the_tape stamp).route ct.route)

    -- the tapes of the route, in the order of a walk
    abbrev candidates : Walk → Entries → List Tape
    candidates v s = walked v (route_filter ct) s

    cached_tape-on :
        (v : Walk) (s : Entries)
        → cached_tape pf rt (memory_store v) ct false req s
          ≡ composite_match pf key_criteria req (candidates v s)
    unfolding cached_tape list match_tapes
    cached_tape-on v s =
        ap
          (λ (b : Bool).
            if b
            then none
            else lookup_in pf rt (memory_store v) ct req (list v false (route_filter ct) s))
          c.lookup
        ∙ ap (λ m. match_tapes pf rt m req (candidates v s)) c.matcher

    -- a tape that scores best is found unless none scores
    cached_tape-IsBest :
        (v : Walk) (s : Entries)
        → (All (λ u. total_score pf key_criteria req u ≡ 0) (candidates v s) → ⊥)
        → (u : Tape) × (cached_tape pf rt (memory_store v) ct false req s ≡ some u)
          × IsBest pf key_criteria req (candidates v s) u
    cached_tape-IsBest v s scores =
        let (u, found, best) = composite_match-found pf key_criteria req (candidates v s) scores in
        (u, cached_tape-on v s ∙ found, best)

    -- the state after a miss holds the tape of the exchange
    miss-saves :
        (stamp : Stamp) (s : Entries)
        → (round_trip_upstream pf rt
            (memory_store w)
            ct
            false
            req
            (body_text req.body)
            stamp
            (some resp)
            s).1
          ≡ put (the_tape stamp).id (the_tape stamp) s
    unfolding round_trip_upstream save
    miss-saves stamp s = simp (c.no_stream, c.whole_answer, c.passes_filter)

    hit_again :
        (v : Walk) (s : Entries) (t : Tape) (stamp : Stamp) (answer : Option UpstreamAnswer)
        → cached_tape pf rt (memory_store v) ct false req s ≡ some t
        → cached_round_trip pf rt (memory_store v) ct false req stamp answer s
          ≡ (hit t (response_of t), s)
    unfolding cached_round_trip
    hit_again v s t stamp answer found =
        ap (after_buffer pf rt (memory_store v) ct false req stamp answer s) c.fits
        ∙ ap (miss_or_hit pf rt (memory_store v) ct false req (body_text req.body) stamp answer s)
            found

    miss-state :
        (stamp : Stamp) (s : Entries)
        → cached_tape pf rt (memory_store w) ct false req s ≡ none
        → (cached_round_trip pf rt (memory_store w) ct false req stamp (some resp) s).1
          ≡ put (the_tape stamp).id (the_tape stamp) s
    unfolding cached_round_trip
    miss-state stamp s lost =
        ap (λ b. (after_buffer pf rt (memory_store w) ct false req stamp (some resp) s b).1) c.fits
        ∙ ap
            (λ o.
              (miss_or_hit pf rt (memory_store w) ct false req (body_text req.body) stamp
                (some resp) s o).1)
            lost
        ∙ miss-saves stamp s

    -- a trip at a state, that walks the map in some order, is a hit with a tape that scores best among
    -- those of the route
    abbrev pub IsHit : Entries → Walk → Stamp → Option UpstreamAnswer → Type 0
    IsHit s v stamp answer =
        (t : Tape) × (cached_round_trip pf rt (memory_store v) ct false req stamp answer s
          ≡ (hit t (response_of t), s))
        × IsBest pf key_criteria req (candidates v s) t

    -- every later trip is one
    abbrev pub IsCached : Entries → Type 0
    IsCached s =
        (v : Walk) (stamp : Stamp) (answer : Option UpstreamAnswer) → IsHit s v stamp answer

    -- where not all tapes score 0 on some walk, every trip hits
    scores-IsCached :
        (v : Walk) (s : Entries)
        → (All (λ u. total_score pf key_criteria req u ≡ 0) (candidates v s) → ⊥)
        → IsCached s
    scores-IsCached v s scores v' stamp answer =
        let (u, found, best) = cached_tape-IsBest v' s (λ zeros. scores (
          All-walked (λ u. total_score pf key_criteria req u ≡ 0) (route_filter ct) v' v s
            zeros)) in
        (u, hit_again v' s u stamp answer found, best)

    -- After a cacheable exchange over a memory store, whatever the store held before: each time the same request comes again,
    -- in whatever order `List` walks the map then and whatever upstream would answer and the clock says, it is answered with a
    -- stored tape of the route that scores best on that walk, and the store stays as it is.
    pub cached_round_trip-IsCached :
        (stamp : Stamp) (s : Entries)
        → IsCached (cached_round_trip pf rt (memory_store w) ct false req stamp (some resp) s).1
    cached_round_trip-IsCached stamp s =
        elim (Option-cases (cached_tape pf rt (memory_store w) ct false req s)) [
          | inr (t, found) ↦
              let same = ap (λ r. r.1) (hit_again w s t stamp (some resp) found) in
              subst IsCached (sym same) (
                scores-IsCached w s (
                  composite_match-scores pf key_criteria req (candidates w s) t
                    (sym (cached_tape-on w s) ∙ found)))
          | inl lost ↦
              let t = the_tape stamp in
              subst IsCached (sym (miss-state stamp s lost)) (
                scores-IsCached w (put t.id t s) (λ zeros.
                  let none_scores =
                    All-walked_saved (λ u. total_score pf key_criteria req u ≡ 0) (route_filter ct)
                      w t s (the_tape-passes stamp) zeros in
                  absurd (omega (arith, the_tape-positive stamp))))
        ]
