-- ===== src/Server/Replies.antt =====
-- What each kind of answer of the server is, whatever the store and the request.
use httptape.Prelude.{
  ℕ, ◌≤◌, Text, codes, ◌≡◌, ◌≢◌, refl, sym, ap, ◌∙◌, Bool, true, false, Option, none, some, List,
  [], ◌∷◌, ◌==◌, text_eq, eq_iff, if_both, leb, ◌&&◌, eq_refl, ltb, Bool-cases, Option-cases, inl,
  inr, arith, if◌then◌else◌,
}
use httptape.Float.{float_less}
use httptape.Platform.{Platform, Runtime}
use httptape.Header.{HeaderMap, canonical_key, values, delete, set}
use httptape.Header.Laws.{values-delete, values-set}
use httptape.Tape.{Tape, is_sse}
use httptape.Matcher.{Request}
use httptape.Store.{Store, Listed, listed, not_listed}
use httptape.Templating.Substitution.{TemplateState, err, ok}
use httptape.Templating.Walk.{Outcome}
use httptape.Server.{
  Server, Surroundings, Response, Served, abandoned, panicked, preflight, simulated_error,
  store_error, no_match, fixture_error, template_error, unflushable, replayed, written, errors_of,
  find_tape, http_error, set_headers, first_headers,
}
use httptape.Server.Serve.{
  replay_headers_on, sse_headers_on, replay_response, sse_response, serve_sse, finish, replay,
  simulated, every_tape, resolve_response, template_ctx, is_positive, effective_delay,
  response_delay, serve_tape, serve_listed, serve_http,
}

abbrev content_length : Text
content_length = codes "Content-Length"

-- the value that the replay headers give to a header in canonical form, the last if there are more
unfoldable pub override : Text → List (Text × Text) → Option Text
override name [] = none
override name ((k, v) ∷ overrides) = elim (override name overrides) [
  | some w ↦ some w
  | none ↦ if canonical_key k == name then some v else none
]

abbrev or_values : Option Text → List Text → List Text
or_values none vs = vs
or_values (some v) vs = v ∷ []

values-set_headers :
    (overrides : List (Text × Text)) (name : Text) (h : HeaderMap)
    → values name (set_headers overrides h) ≡ or_values (override name overrides) (values name h)
unfolding set_headers override
values-set_headers [] name h = refl
values-set_headers ((k, v) ∷ overrides) name h =
    values-set_headers overrides name (set (canonical_key k) v h)
    ∙ elim (Option-cases (override name overrides)) [
      | inl lost ↦
          rw (lost, values-set (canonical_key k) v name h) (or_values-if (canonical_key k == name))
      | inr (w, found) ↦ rw found refl
    ]
  where
    or_values-if :
        (b : Bool)
        → (if b then v ∷ [] else values name h)
          ≡ or_values (if b then some v else none) (values name h)
    or_values-if true = refl
    or_values-if false = refl

-- The response of a tape: its status; no length, which the body may have outgrown; each replay header with its last
-- value.
pub record IsReplay (s : Server) (t : Tape) (resp : Response) : Type 0 where
  pub status : resp.status ≡ t.response.status_code
  pub no_length : values content_length resp.headers ≡ []
  pub overrides :
      (name v : Text)
      → name ≢ content_length
      → override name s.replay_headers ≡ some v
      → values name resp.headers ≡ v ∷ []

-- What each kind of answer is.
abbrev pub IsServed : Server → Served → Type 0
IsServed s abandoned = Unit
IsServed s panicked = Unit
IsServed s (preflight resp) = (s.cors ≡ true) × (resp.status ≡ 204)
IsServed s (simulated_error resp) = resp.status ≡ 500
IsServed s (store_error resp) = resp.status ≡ 500
IsServed s (no_match resp) = resp.status ≡ s.fallback_status
IsServed s (fixture_error t resp) =
    values (codes "X-Httptape-Error") resp.headers ≡ codes "simulated" ∷ []
IsServed s (template_error t resp) =
    (resp.status ≡ 500)
    × (s.templating ≡ true)
    × (values (codes "X-Httptape-Error") resp.headers ≡ codes "template" ∷ [])
IsServed s (unflushable t resp) = resp.status ≡ 500
IsServed s (replayed t resp) = IsReplay s t resp

if_Served :
    (s : Server) (b : Bool) (x y : Served)
    → IsServed s x
    → IsServed s y
    → IsServed s (if b then x else y)
if_Served s true x y h k = h
if_Served s false x y h k = k

written-IsServed :
    (s : Server) (f : Response → Served) (resp : Response)
    → IsServed s (f resp)
    → IsServed s (written f resp)
written-IsServed s f resp h =
    if_Served s (leb 100 resp.status && leb resp.status 999) (f resp) panicked h tt

-- the replay headers, and the length taken out
dressed-IsReplay :
    (s : Server) (t : Tape) (h : HeaderMap) (resp : Response)
    → resp.status ≡ t.response.status_code
    → resp.headers ≡ delete content_length (set_headers s.replay_headers h)
    → IsReplay s t resp
unfolding httptape.Prelude.text_beq
dressed-IsReplay s t h resp same dressed = record {
  status = same;
  no_length = ap (values content_length) dressed ∙ values-delete content_length content_length _;
  overrides = λ name v apart e.
      ap (values name) dressed
      ∙ values-delete content_length name _
      ∙ ground (arith, eq_iff content_length name)
      ∙ values-set_headers s.replay_headers name h
      ∙ ap (λ o. or_values o (values name h)) e;
}

http_error-status :
    (h : HeaderMap) (message : Text) (status : ℕ) → (http_error h message status).status ≡ status
unfolding http_error
http_error-status h message status = refl

-- the mark of an error is in its headers
http_error-marked :
    (h : HeaderMap) (mark message : Text) (status : ℕ)
    → values
        (codes "X-Httptape-Error")
        (http_error (set (codes "X-Httptape-Error") mark h) message status).headers
      ≡ mark ∷ []
unfolding http_error httptape.Prelude.text_beq
http_error-marked h mark message status =
    values-set (codes "X-Content-Type-Options") _ (codes "X-Httptape-Error") _
    ∙ values-set (codes "Content-Type") _ (codes "X-Httptape-Error") _
    ∙ values-delete content_length (codes "X-Httptape-Error") _
    ∙ values-set (codes "X-Httptape-Error") mark (codes "X-Httptape-Error") h

module _ (pf : Platform) (rt : Runtime) (s : Server) (around : Surroundings) (r : Request) where
  if-IsServed :
      (b : Bool) (x y : Served × TemplateState)
      → IsServed s x.0
      → IsServed s y.0
      → IsServed s (if b then x else y).0
  if-IsServed true x y h k = h
  if-IsServed false x y h k = k

  serve_sse-IsServed : (t : Tape) → IsServed s (serve_sse s around t)
  unfolding serve_sse sse_response sse_headers_on
  serve_sse-IsServed t =
      if_Served s around.can_flush _ _
        (written-IsServed s (replayed t) _ (dressed-IsReplay s t _ _ refl refl))
        (written-IsServed s (unflushable t) _ (http_error-status _ _ 500))

  -- an outcome that is an error only with templates on
  finish-IsServed :
      (t : Tape) (o : Outcome (Text × HeaderMap)) (st : TemplateState) (on : Bool)
      → s.templating ≡ on
      → IsServed s
          (finish pf rt s t (if on then o else (ok (t.response.body, t.response.headers), st))).0
  unfolding replay_response replay_headers_on
  finish-IsServed t (err e, st') st true same =
      written-IsServed s (template_error t) _
        (http_error-status _ _ 500, same, http_error-marked _ _ _ _)
  finish-IsServed t (ok (body, headers), st') st true same =
      written-IsServed s (replayed t) _ (dressed-IsReplay s t _ _ refl refl)
  finish-IsServed t o st false same =
      written-IsServed s (replayed t) _ (dressed-IsReplay s t _ _ refl refl)

  replay-IsServed :
      (t : Tape) (params : Option (List (Text × Text))) (st : TemplateState)
      → IsServed s (replay pf rt s around r t params st).0
  unfolding replay
  replay-IsServed t params st = if-IsServed (is_sse t.response) _ _ (serve_sse-IsServed t) (
      finish-IsServed t
        (resolve_response pf rt (template_ctx pf rt s r t params) s.strict_templating t st) st
        s.templating refl)

  fixture-IsServed :
      (t : Tape) (message : Text) (status : ℕ)
      → IsServed s
          (written (fixture_error t) (http_error (simulated (first_headers s)) message status))
  fixture-IsServed t message status =
      written-IsServed s (fixture_error t) (http_error (simulated (first_headers s)) message status)
        (http_error-marked (first_headers s) (codes "simulated") message status)

  serve_tape-IsServed :
      (t : Tape) (params : Option (List (Text × Text))) (st : TemplateState)
      → IsServed s (serve_tape pf rt s around r t params st).0
  unfolding serve_tape
  serve_tape-IsServed t params st = elim (Option-cases (errors_of t.metadata)) [
    | inr (fs, found) ↦ rw (found, serve_tape) (fixture-IsServed t _ _)
    | inl lost ↦
        rw (lost, serve_tape)
          (if-IsServed (is_positive (effective_delay pf rt s t) && around.cancelled_in_delay)
            (abandoned, st) _ tt
            (if-IsServed
              (ltb 0 (response_delay pf rt s.replay_timing t.response.elapsed_ms)
                && around.cancelled_in_replay_delay)
              (abandoned, st) (replay pf rt s around r t params st) tt
              (replay-IsServed t params st)))
  ]

  serve_listed-IsServed :
      (tapes : Listed) (st : TemplateState) → IsServed s (serve_listed pf rt s around r tapes st).0
  unfolding serve_listed
  serve_listed-IsServed (not_listed e) st =
      written-IsServed s store_error _ (http_error-status _ _ 500)
  serve_listed-IsServed (listed tapes) st = elim (Option-cases (find_tape pf rt s r tapes)) [
    | inl lost ↦ rw (lost, serve_listed) (written-IsServed s no_match _ refl)
    | inr ((t, params), found) ↦ rw (found, serve_listed) (serve_tape-IsServed t params st)
  ]

  -- Whatever the store and the request: a replayed response has the status of its tape, no Content-Length, and each
  -- replay header with its last value; a miss has the fallback status; an error of the store, of a template
  -- or a simulated one is a 500, and a template error occurs with templates on only and carries its mark, as does the error of a fixture;
  -- a preflight answer is a 204 and occurs with CORS on only.
  pub serve_http-IsServed :
      {S : Type 0} (store : Store S) (contents : S) (st : TemplateState)
      → IsServed s (serve_http pf rt s store contents around r st).0
  unfolding serve_http
  serve_http-IsServed store contents st =
      if_preflight (s.cors && r.method == codes "OPTIONS") _ _
        (if-IsServed (float_less 0 s.error_rate && float_less around.rand_float s.error_rate) _ _
          (written-IsServed s simulated_error _ (http_error-status _ _ 500))
          (serve_listed-IsServed (store.list around.cancelled_at_list every_tape contents) st))
        refl (both_left s.cors _)
    where
      both_left : (a b : Bool) → a && b ≡ true → a ≡ true
      both_left a b h = ground arith

      if_preflight :
          (b : Bool) (x : Served × TemplateState) (resp : Response)
          → IsServed s x.0
          → resp.status ≡ 204
          → (b ≡ true → s.cors ≡ true)
          → IsServed s (if b then (written preflight resp, st) else x).0
      if_preflight true x resp h status on = written-IsServed s preflight resp (on refl, status)
      if_preflight false x resp h status on = h
