-- ===== src/Proxy/Outage.antt =====
-- A proxy answers from its first store while upstream is down.
use mathlib.Core.Option.{map as map_option}
use httptape.Prelude.{
  Text, ◌≡◌, ◌≢◌, refl, sym, ap, ◌∙◌, Bool, true, false, Option, none, some, List, [], ◌∷◌, ◌<◌,
  Bool-cases, inl, inr, arith,
}
use mathlib.Core.Path.{subst}
use httptape.Platform.{Platform, Runtime, Url}
use httptape.Tape.{Tape}
use httptape.Matcher.{Request, ReqBody, broken, Criterion, method_criterion, path_criterion}
use httptape.Matcher.Best.{IsBest, sum_scores, total_score}
use httptape.Matcher.Positive.{score-method, score-path, composite_match-found}
use httptape.Store.{Store, passes}
use httptape.Store.Saved.{walked, All-walked_saved}
use httptape.Store.Memory.{Entries, Walk, put, memory_store, save, list}
use httptape.Recorder.{Stamp}
use httptape.Health.{state_l1_cache}
use httptape.Server.{composite_matcher, match_tapes}
use httptape.Caching.{UpstreamAnswer, Fetch, CachedResponse}
use httptape.Caching.Trip.{exchange_tape}
use httptape.Proxy.{
  Proxy, head_of, ProxyReply, body_unread, failed, passed, cached, L1Trip, ParsedStream, caching_of,
  cached_head, reply_of, no_filter, is_none, read_all,
}
use httptape.Proxy.Trip.{match_from_store, round_trip, l1_round_trip, is_stream, after_read, decide}
use httptape.Proxy.Fallback.{IsDressed, IsGiven, round_trip-IsReply}

-- DefaultMatcher
abbrev pub default_criteria : List Criterion
default_criteria = method_criterion ∷ path_criterion ∷ []

module _ (pf : Platform) (rt : Runtime) (p : Proxy) {S2 : Type 0} (l2 : Store S2)
    (req : Request) where
  l1-decide :
      (w : Walk) (cancelled : Bool) (body : Text) (stamp : Stamp) (stream : ParsedStream)
      (trip : L1Trip Entries) (f : Fetch × S2)
      → (decide pf rt p (memory_store w) l2 cancelled req body stamp stream trip f).l1 ≡ trip.l1
  l1-decide w cancelled body stamp stream trip (fetch, s2) =
      elim (Bool-cases
        (p.is_fallback (is_none (reply_of fetch)) (map_option cached_head (reply_of fetch)))) [
          | inl e ↦ rw e refl
          | inr e ↦ rw e refl
        ]

  -- A trip while upstream is down, that walks the map of the first store in some order, is answered with a tape of
  -- that store that scores best; it keeps that store as it is.
  abbrev pub IsFromL1 : Entries → Walk → Stamp → ParsedStream → S2 → Type 0
  IsFromL1 s1 v stamp stream s2 =
      ((t : Tape) × (resp : CachedResponse) × ((round_trip pf rt p (memory_store v) l2 false req
            stamp none stream s1 s2).reply
          ≡ cached state_l1_cache t resp)
        × IsDressed state_l1_cache t resp
        × IsBest pf default_criteria req (walked v no_filter s1) t)
      × ((round_trip pf rt p (memory_store v) l2 false req stamp none stream s1 s2).l1 ≡ s1)

  -- every later trip is such a one
  abbrev pub IsCovered : Entries → Type 0
  IsCovered s1 =
      (v : Walk) (stamp : Stamp) (stream : ParsedStream) (s2 : S2) → IsFromL1 s1 v stamp stream s2

  -- A good exchange: the matcher is the default one, an error of upstream falls back and the answer does
  -- not, the URL is parsed as it is printed, and the answer is no stream and can be read.
  pub record IsKept (resp : UpstreamAnswer) : Type 0 where
    pub matcher : p.matcher ≡ composite_matcher default_criteria
    pub falls_back : p.is_fallback true none ≡ true
    pub good : p.is_fallback false (some (head_of resp)) ≡ false
    pub body : Text
    pub whole_body : read_all req.body ≡ some body
    pub url : Url
    pub printed : pf.parse_url (rt.url_string req.url) ≡ some url
    pub path : url.path ≡ req.url.path
    pub no_stream : is_stream pf rt p resp ≡ false
    pub whole_answer : resp.breaks_off ≡ false

  module _ (resp : UpstreamAnswer) (k : IsKept resp) (w : Walk) where
    abbrev raw : Stamp → Tape
    raw stamp =
        exchange_tape pf rt (memory_store w) (caching_of p) req k.body resp resp.body [] stamp

    raw-positive : (stamp : Stamp) → 0 < total_score pf default_criteria req (raw stamp)
    unfolding sum_scores
    raw-positive stamp =
        rw
          (
            score-method pf req (raw stamp) refl,
            score-path pf req (raw stamp) (some k.url) k.url k.printed refl k.path,
          )
          (omega arith)

    saved_found :
        (v : Walk) (stamp : Stamp) (s : Entries)
        → (t : Tape) × (match_from_store pf rt p
              (memory_store v)
              false
              req
              (put (raw stamp).id (raw stamp) s)
            ≡ some t)
          × IsBest pf default_criteria req (walked v no_filter (put (raw stamp).id (raw stamp) s)) t
    unfolding match_from_store list match_tapes
    saved_found v stamp s =
        let tapes = walked v no_filter (put (raw stamp).id (raw stamp) s) in
        let (t, found, best) = composite_match-found pf default_criteria req tapes (λ zeros.
          let none_scores =
            All-walked_saved (λ u. total_score pf default_criteria req u ≡ 0) no_filter v
              (raw stamp) s (unfold passes in refl) zeros in
          absurd (omega (arith, raw-positive stamp))) in
        (t, ap (λ m. match_tapes pf rt m req tapes) k.matcher ∙ found, best)

    l1-saves :
        (stamp : Stamp) (s : Entries)
        → (l1_round_trip pf rt p (memory_store w) l2 false req k.body stamp (some resp) s).l1
          ≡ put (raw stamp).id (raw stamp) s
    unfolding l1_round_trip save
    l1-saves stamp s = simp (k.good, k.no_stream, k.whole_answer)

    l1-trip :
        (v : Walk) (stamp : Stamp) (answer : Option UpstreamAnswer) (stream : ParsedStream)
        (s1 : Entries) (s2 : S2)
        → (round_trip pf rt p (memory_store v) l2 false req stamp answer stream s1 s2).l1
          ≡ (l1_round_trip pf rt p (memory_store v) l2 false req k.body stamp answer s1).l1
    unfolding round_trip after_read
    l1-trip v stamp answer stream s1 s2 =
        ap (λ o. (after_read pf rt p (memory_store v) l2 false req stamp answer stream s1 s2 o).l1)
          k.whole_body
        ∙ l1-decide v false k.body stamp stream _ _

    -- with a match in the first store, an outage is answered from it
    from_first :
        (in_l1 in_l2 : Option Tape) (t : Tape) (reply : ProxyReply)
        → in_l1 ≡ some t
        → IsGiven pf rt p req none in_l1 in_l2 reply
        → (r : CachedResponse) × (reply ≡ cached state_l1_cache t r) × IsDressed state_l1_cache t r
    from_first in_l1 in_l2 t body_unread found h = absurd (unread req.body h k.whole_body)
      where
        unread : (b : ReqBody) → b ≡ broken → read_all b ≢ some k.body
        unread b h e = let lost : read_all b ≡ none = ap read_all h in cc (lost, e)
    from_first in_l1 in_l2 t failed found (e, inl stays) = absurd cc (stays, k.falls_back)
    from_first in_l1 in_l2 t failed found (e, inr (lost, lost')) = absurd cc (lost, found)
    from_first in_l1 in_l2 t (passed r) found (e, stands) = absurd cc
    from_first in_l1 in_l2 t (cached source u r) found (a, dressed, inl (first, same)) =
        let same_tape : u ≡ t = cc (same, found) in
        (
          r,
          cc (first, same_tape),
          subst (λ x. IsDressed x t r) first (subst (λ y. IsDressed source y r) same_tape dressed),
        )
    from_first in_l1 in_l2 t (cached source u r) found (a, dressed, inr (second, lost, same)) =
        absurd cc (lost, found)

    l1-lost :
        (v : Walk) (body : Text) (stamp : Stamp) (s : Entries)
        → (l1_round_trip pf rt p (memory_store v) l2 false req body stamp none s).l1 ≡ s
    unfolding l1_round_trip
    l1-lost v body stamp s = refl

    -- After a good exchange over a first store in memory, whatever that store held before and whatever the second one holds then
    -- and later: while upstream is down the same request is answered from the first store each time, in whatever order its map
    -- is walked, with a tape that scores best on that walk, marked as from there, and the first store stays as it is.
    pub round_trip-IsCovered :
        (stamp : Stamp) (stream : ParsedStream) (s1 : Entries) (s2 : S2)
        → IsCovered
            (round_trip pf rt p (memory_store w) l2 false req stamp (some resp) stream s1 s2).l1
    round_trip-IsCovered stamp stream s1 s2 =
        subst IsCovered (sym (l1-trip w stamp (some resp) stream s1 s2 ∙ l1-saves stamp s1))
          (λ v stamp' stream' s2'.
            let s = put (raw stamp).id (raw stamp) s1 in
            let (t, found, best) = saved_found v stamp s1 in
            let trip = round_trip pf rt p (memory_store v) l2 false req stamp' none stream' s s2' in
            let kept : trip.l1 ≡ s =
              l1-trip v stamp' none stream' s s2' ∙ l1-lost v k.body stamp' s in
            let (resp', same, dressed) =
              from_first _ _ t trip.reply
                (ap (match_from_store pf rt p (memory_store v) false req) kept ∙ found)
                (round_trip-IsReply pf rt p req none (memory_store v) l2 false stamp' stream' s
                  s2') in
            ((t, resp', same, dressed, best), kept))
