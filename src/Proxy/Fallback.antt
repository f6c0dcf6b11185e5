-- ===== src/Proxy/Fallback.antt =====
-- What a round trip of the proxy returns, on every branch.
use mathlib.Core.Option.{map as map_option}
use httptape.Prelude.{
  Text, codes, text_beq, ◌≡◌, ◌≢◌, refl, sym, ◌∙◌, Bool, true, false, Option, none, some, [], ◌∷◌,
  ◌⊎◌, Bool-cases, inl, inr, if◌then◌else◌,
}
use httptape.Platform.{Platform, Runtime}
use httptape.Header.{HeaderMap, values}
use httptape.Header.Laws.{values-delete, values-set}
use httptape.Tape.{Tape, is_sse}
use httptape.Matcher.{Request, ReqBody, no_body, readable, broken}
use httptape.Store.{Store}
use httptape.Recorder.{Stamp}
use httptape.Health.{state_l1_cache, state_l2_cache}
use httptape.Caching.{UpstreamAnswer, Fetch, CachedResponse, CachedBody, events, whole}
use httptape.Proxy.{
  Proxy, head_of, cached_head, ProxyReply, body_unread, failed, passed, cached, ProxyTrip, L1Trip,
  ParsedStream, tape_to_response, with_source, read_all, from_l1, original, drained, reply_of,
  is_none, caching_of,
}
use httptape.Proxy.Trip.{
  match_from_store, round_trip, l1_round_trip, is_stream, after_read, decide, fallback,
}
use httptape.Proxy.Forward.{head_forwarded, caching_of-IsForwarder}

abbrev source_header : Text
source_header = codes "X-Httptape-Source"

-- the body that a tape is replayed with
abbrev pub replayed : Tape → CachedBody
replayed t = if is_sse t.response then events t.response.sse_events else whole t.response.body

-- A tape's response: its status, its body, one value that names the source, and no Content-Length.
pub record IsDressed (source : Text) (t : Tape) (resp : CachedResponse) : Type 0 where
  pub status : resp.status_code ≡ t.response.status_code
  pub marked : values source_header resp.headers ≡ source ∷ []
  pub no_length : values (codes "Content-Length") resp.headers ≡ []
  pub same_body : resp.body ≡ replayed t

module _ (source : Text) (h : HeaderMap) where
  marked-with_source : values source_header (with_source source h) ≡ source ∷ []
  unfolding text_beq
  marked-with_source =
      values-delete (codes "Content-Length") source_header _
      ∙ values-set source_header source source_header h

  no_length-with_source : values (codes "Content-Length") (with_source source h) ≡ []
  unfolding text_beq
  no_length-with_source = values-delete (codes "Content-Length") (codes "Content-Length") _

tape_to_response-IsDressed :
    (t : Tape) (source : Text) (b : Bool)
    → is_sse t.response ≡ b
    → IsDressed source t (tape_to_response t source)
unfolding tape_to_response text_beq
tape_to_response-IsDressed t source true e = record {
  status = rw e refl;
  marked = rw e (
      values-set (codes "Content-Type") (codes "text/event-stream") source_header _
      ∙ marked-with_source source t.response.headers);
  no_length = rw e (
      values-set (codes "Content-Type") (codes "text/event-stream") (codes "Content-Length") _
      ∙ no_length-with_source source t.response.headers);
  same_body = rw e refl;
}
tape_to_response-IsDressed t source false e = record {
  status = rw e refl;
  marked = rw e (marked-with_source source t.response.headers);
  no_length = rw e (no_length-with_source source t.response.headers);
  same_body = rw e refl;
}

is_none-map : {A B : Type 0} (f : A → B) (o : Option A) → is_none (map_option f o) ≡ is_none o
is_none-map f none = refl
is_none-map f (some a) = refl

module _ (pf : Platform) (rt : Runtime) (p : Proxy) (req : Request)
    (answer : Option UpstreamAnswer) where
  -- the fallback is asked for what upstream answers
  abbrev pub asked : Bool
  asked = p.is_fallback (is_none answer) (map_option head_of answer)

  -- the original outcome stands
  abbrev pub Stands : Option Tape → Option Tape → Type 0
  Stands in_l1 in_l2 = (asked ≡ false) ⊎ ((in_l1 ≡ none) × (in_l2 ≡ none))

  -- `in_l1` and `in_l2` are what the matcher chooses in the stores
  abbrev pub IsGiven : Option Tape → Option Tape → ProxyReply → Type 0
  IsGiven in_l1 in_l2 body_unread = req.body ≡ broken
  IsGiven in_l1 in_l2 failed = (answer ≡ none) × Stands in_l1 in_l2
  IsGiven in_l1 in_l2 (passed resp) =
      (map_option head_of answer ≡ some (cached_head resp)) × Stands in_l1 in_l2
  IsGiven in_l1 in_l2 (cached source t resp) =
      (asked ≡ true)
      × IsDressed source t resp
      × (((source ≡ state_l1_cache) × (in_l1 ≡ some t))
          ⊎ ((source ≡ state_l2_cache) × (in_l1 ≡ none) × (in_l2 ≡ some t)))

  original-IsGiven :
      (in_l1 in_l2 : Option Tape) (resp : Option CachedResponse)
      → map_option cached_head resp ≡ map_option head_of answer
      → Stands in_l1 in_l2
      → IsGiven in_l1 in_l2 (original resp)
  original-IsGiven in_l1 in_l2 none same stands = (no_answer answer same, stands)
    where
      no_answer : (o : Option UpstreamAnswer) → none ≡ map_option head_of o → o ≡ none
      no_answer none e = refl
      no_answer (some a) e = absurd cc
  original-IsGiven in_l1 in_l2 (some resp) same stands = (sym same, stands)

  fallback-IsGiven :
      (in_l1 in_l2 : Option Tape) (resp : Option CachedResponse)
      → asked ≡ true
      → map_option cached_head resp ≡ map_option head_of answer
      → IsGiven in_l1 in_l2 (from_l1 resp in_l1 in_l2)
  fallback-IsGiven (some t) in_l2 resp falls_back same =
      (falls_back, tape_to_response-IsDressed t state_l1_cache _ refl, inl (refl, refl))
  fallback-IsGiven none (some t) resp falls_back same =
      (falls_back, tape_to_response-IsDressed t state_l2_cache _ refl, inr (refl, refl, refl))
  fallback-IsGiven none none resp falls_back same =
      original-IsGiven none none resp same (inr (refl, refl))

  head-drained :
      (a : Option UpstreamAnswer) (o : Option CachedResponse)
      → map_option cached_head (map_option (drained a) o) ≡ map_option cached_head o
  head-drained a none = refl
  head-drained a (some resp) = refl

  module _ {S1 S2 : Type 0} (l1 : Store S1) (l2 : Store S2) (cancelled : Bool) where
    -- What a round trip returns, with what the matcher chooses in the stores as the trip leaves them.
    abbrev pub IsReply : ProxyTrip S1 S2 → Type 0
    IsReply trip =
        IsGiven (match_from_store pf rt p l1 cancelled req trip.l1)
          (match_from_store pf rt p l2 cancelled req trip.l2) trip.reply

    head-l1_round_trip :
        (body : Text) (stamp : Stamp) (a : Option UpstreamAnswer) (s : S1)
        → map_option head_of (l1_round_trip pf rt p l1 l2 cancelled req body stamp a s).answer
          ≡ map_option head_of a
    unfolding l1_round_trip
    head-l1_round_trip body stamp none s = refl
    head-l1_round_trip body stamp (some resp) s =
        choose (p.is_fallback false (some (head_of resp))) _ _ refl
          (choose (is_stream pf rt p resp) _ _ refl (choose resp.breaks_off _ _ refl refl))
      where
        choose :
            (b : Bool) (u v : L1Trip S1)
            → map_option head_of u.answer ≡ some (head_of resp)
            → map_option head_of v.answer ≡ some (head_of resp)
            → map_option head_of (if b then u else v).answer ≡ some (head_of resp)
        choose true u v e f = e
        choose false u v e f = f

    decide-IsReply :
        (body : Text) (stamp : Stamp) (stream : ParsedStream) (trip : L1Trip S1) (f : Fetch × S2)
        → map_option cached_head (reply_of f.0) ≡ map_option head_of answer
        → IsReply (decide pf rt p l1 l2 cancelled req body stamp stream trip f)
    unfolding fallback
    decide-IsReply body stamp stream trip (fetch, s2) same = elim (Bool-cases asked) [
      | inl falls_back ↦ rw (same_asked ∙ falls_back) (
          fallback-IsGiven _ _ (map_option (drained trip.answer) (reply_of fetch)) falls_back
            (head-drained trip.answer (reply_of fetch) ∙ same))
      | inr stays ↦ rw (same_asked ∙ stays) (original-IsGiven _ _ (reply_of fetch) same (inl stays))
    ]
      where
        same_asked :
            p.is_fallback (is_none (reply_of fetch)) (map_option cached_head (reply_of fetch))
            ≡ asked
        same_asked = cc (is_none-map cached_head (reply_of fetch), is_none-map head_of answer, same)

    unread-broken : (body : ReqBody) → read_all body ≡ none → body ≡ broken
    unread-broken no_body e = absurd cc
    unread-broken (readable text) e = absurd cc
    unread-broken broken e = refl

    read-whole : (body : ReqBody) (text : Text) → read_all body ≡ some text → body ≢ broken
    read-whole no_body text e = λ h. absurd cc
    read-whole (readable bytes) text e = λ h. absurd cc
    read-whole broken text e = λ h. absurd cc

    -- A round trip, of whatever request and over whatever stores: an error of the request's body is returned. Else, where the
    -- fallback is asked for, the first store that has a match answers with its tape, marked with that store's
    -- name and without a Content-Length; and where it is not, or no store has a match, the outcome of upstream stands, with its
    -- status and headers.
    pub round_trip-IsReply :
        (stamp : Stamp) (stream : ParsedStream) (s1 : S1) (s2 : S2)
        → IsReply (round_trip pf rt p l1 l2 cancelled req stamp answer stream s1 s2)
    unfolding round_trip after_read
    round_trip-IsReply stamp stream s1 s2 = read (read_all req.body) refl
      where
        read :
            (o : Option Text)
            → read_all req.body ≡ o
            → IsReply (after_read pf rt p l1 l2 cancelled req stamp answer stream s1 s2 o)
        read none e = unread-broken req.body e
        read (some body) e =
            let trip = l1_round_trip pf rt p l1 l2 cancelled req body stamp answer s1 in
            decide-IsReply body stamp stream trip _ (
              head_forwarded pf rt l2 p (caching_of p) (caching_of-IsForwarder p) cancelled req
                stamp trip.answer s2 (read-whole req.body body e)
              ∙ head-l1_round_trip body stamp answer s1)
