-- ===== src/Recorder/Taping.antt =====
-- What a recorded tape says of the exchange.
use httptape.Prelude.{
  ◌∷◌, ℕ, ◌≤◌, ◌<◌, ◌≡◌, ◌⊎◌, refl, sym, ap, ◌∙◌, Text, codes, Bool, true, false, ◌&&◌, some, List,
  ◌++◌, length, length-take, drop, take-append-drop, ltb, arith, Bool-cases, inl, inr, map,
}
use httptape.Platform.{Platform, Runtime}
use httptape.Header.{get_first}
use httptape.Tape.{Tape, body_hash_from_bytes}
use httptape.Sanitizer.{sanitize}
use httptape.Sanitizer.Headers.{is_sensitive}
use httptape.Sanitizer.Pipelines.{IsHidden, sanitize-IsHidden}
use httptape.Sanitizer.Hashes.{Rule, header_rule, rule_func, IsHashed, sanitize-IsHashed}
use httptape.Recorder.{
  RecorderConfig, OutgoingRequest, IncomingResponse, Stamp, truncate, is_skipped_sample, body_of,
  is_redirect, is_sse_content_type, recorded_request, recorded_response, new_tape, round_trip,
  recorded,
}

-- What is kept of a body under a limit, 0 for none: all of it, or as much as the limit allows, with
-- its size noted.
abbrev pub IsKept : (limit : ℕ) (original kept : Text) (truncated : Bool) (size : ℕ) → Type 0
IsKept limit original kept true size =
    (0 < limit)
    × (limit < length original)
    × (length kept ≡ limit)
    × (size ≡ length original)
    × (rest : Text) × (original ≡ kept ++ rest)
IsKept limit original kept false size =
    (kept ≡ original) × (size ≡ 0) × ((limit ≡ 0) ⊎ (length original ≤ limit))

IsKept-truncate :
    (limit : ℕ) (original : Text)
    → IsKept limit original
        (truncate limit original).0
        (truncate limit original).1
        (truncate limit original).2
unfolding truncate
IsKept-truncate limit original = elim (Bool-cases (ltb 0 limit && ltb limit (length original))) [
  | inl e ↦
      let positive : 0 < limit = ground arith in
      let longer : limit < length original = ground arith in
      rw e (
        positive,
        longer,
        omega (arith, length-take limit original),
        refl,
        drop limit original,
        sym (take-append-drop limit original),
      )
  | inr e ↦ rw e (refl, refl, bounded limit e)
]
  where
    bounded :
        (n : ℕ) → (ltb 0 n && ltb n (length original)) ≡ false → (n ≡ 0) ⊎ (length original ≤ n)
    bounded n h = ground arith

module _ (pf : Platform) (r : RecorderConfig) where
  -- The tape of an exchange before it is sanitized: the method, URL, status and headers as they were,
  -- each body kept within the limit, and the hash of the request body that is kept.
  pub record IsTapeOf (req : OutgoingRequest) (resp : IncomingResponse) (t : Tape) : Type 0 where
    pub method : t.request.method ≡ req.method
    pub url : t.request.url ≡ req.url
    pub request_headers : t.request.headers ≡ req.headers
    pub status_code : t.response.status_code ≡ resp.status_code
    pub response_headers : t.response.headers ≡ resp.headers
    pub route : t.route ≡ r.route
    pub request_body :
        (body : Text) × (body_of req.body ≡ some body)
        × IsKept r.max_body_size body t.request.body t.request.truncated
            t.request.original_body_size
    pub response_body :
        (body : Text) × (body_of resp.body ≡ some body)
        × IsKept r.max_body_size body t.response.body t.response.truncated
            t.response.original_body_size
    pub hashed : t.request.body_hash ≡ body_hash_from_bytes pf t.request.body

  -- the answers that are recorded whole
  abbrev pub IsRecorded : (closed : Bool) (rand : ℕ) → OutgoingRequest → IncomingResponse → Type 0
  IsRecorded closed rand req resp =
      (closed ≡ false)
      × (is_skipped_sample r.sample_rate rand ≡ false)
      × ((r.skip_redirects && is_redirect resp.status_code) ≡ false)
      × ((r.sse_recording && is_sse_content_type pf (get_first (codes "Content-Type") resp.headers))
          ≡ false)
      × ((a : Text) × (body_of req.body ≡ some a))
      × ((b : Text) × (body_of resp.body ≡ some b))

  -- An open recorder that samples an exchange, whose bodies can be read and whose answer is no skipped
  -- redirect and no recorded stream, records the sanitized tape of that exchange.
  pub round_trip-recorded :
      (closed : Bool) (rand : ℕ) (stamp : Stamp) (req : OutgoingRequest) (resp : IncomingResponse)
      → IsRecorded closed rand req resp
      → (t : Tape) × (round_trip pf r closed rand stamp req (some resp) ≡ recorded (r.sanitizer t))
        × IsTapeOf req resp t
  unfolding round_trip recorded_request recorded_response
  round_trip-recorded closed rand stamp req resp (c, sampled, direct, whole, (a, ea), (b, eb)) = (
    new_tape pf r stamp (recorded_request pf r req a) (recorded_response pf r stamp resp b),
    rw (c, sampled, ea, direct, whole, eb) refl,
    record {
      method = refl;
      url = refl;
      request_headers = refl;
      status_code = refl;
      response_headers = refl;
      route = refl;
      request_body = (a, ea, IsKept-truncate r.max_body_size a);
      response_body = (b, eb, IsKept-truncate r.max_body_size b);
      hashed = refl;
    },
  )

  -- With a pipeline of the package's rules, the tape of an exchange that `round_trip` records, whose answer is no recorded
  -- event stream, still has the hash of its request body.
  pub round_trip-IsHashed :
      (rt : Runtime) (rules : List Rule) (closed : Bool) (rand : ℕ) (stamp : Stamp)
      (req : OutgoingRequest) (resp : IncomingResponse)
      → IsRecorded closed rand req resp
      → r.sanitizer ≡ sanitize (map (rule_func pf rt) rules)
      → (t : Tape) × (round_trip pf r closed rand stamp req (some resp) ≡ recorded t)
        × IsHashed pf rt t
  round_trip-IsHashed rt rules closed rand stamp req resp h same =
      let (t, e, of) = round_trip-recorded closed rand stamp req resp h in
      (
        sanitize (map (rule_func pf rt) rules) t,
        e ∙ ap (λ f. recorded (f t)) same,
        sanitize-IsHashed pf rt rules t of.hashed,
      )

  -- With a rule for a sensitive header anywhere in a pipeline of the package's rules, no value of that header is left in
  -- the tape of an open recorder that samples an exchange whose bodies can be read and whose answer is no skipped
  -- redirect and no recorded event stream.
  pub round_trip-IsHidden :
      (rt : Runtime) (before after : List Rule) (names : List Text) (name : Text) (closed : Bool)
      (rand : ℕ) (stamp : Stamp) (req : OutgoingRequest) (resp : IncomingResponse)
      → IsRecorded closed rand req resp
      → r.sanitizer ≡ sanitize (map (rule_func pf rt) (before ++ header_rule names ∷ after))
      → is_sensitive names name ≡ true
      → (t : Tape) × (round_trip pf r closed rand stamp req (some resp) ≡ recorded t)
        × IsHidden name t
  round_trip-IsHidden rt before after names name closed rand stamp req resp h same sensitive =
      let (t, e, of) = round_trip-recorded closed rand stamp req resp h in
      (
        sanitize (map (rule_func pf rt) (before ++ header_rule names ∷ after)) t,
        e ∙ ap (λ f. recorded (f t)) same,
        sanitize-IsHidden pf rt before after names name t sensitive,
      )
