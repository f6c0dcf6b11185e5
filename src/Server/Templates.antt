-- ===== src/Server/Templates.antt =====
-- Strict templating changes which requests fail, and nothing else.
use httptape.Prelude.{
  Text, codes, ◌≡◌, refl, ap, ◌∙◌, ◌⊎◌, ◌&&◌, Bool, true, false, Option, List, leb, ◌==◌, text_eq,
  ltb, Option-cases, inl, inr, if◌then◌else◌,
}
use httptape.Float.{float_less}
use httptape.Platform.{Platform, Runtime}
use httptape.Header.{HeaderMap}
use httptape.Tape.{Tape, is_sse}
use httptape.Matcher.{Request}
use httptape.Store.{Store, Listed, listed, not_listed}
use httptape.Templating.Substitution.{TemplateCtx, TemplateState, err, ok}
use httptape.Templating.Render.{resolve_template_headers}
use httptape.Templating.Walk.{Outcome}
use httptape.Templating.Strictness.{body-Agrees, headers-Agrees, exemplar-Agrees}
use httptape.Templating.Agreement.{Agrees, if-Agrees, joined-Agrees}
use httptape.Server.{
  Server, Surroundings, Response, Served, abandoned, panicked, preflight, simulated_error,
  store_error, no_match, fixture_error, template_error, unflushable, replayed, written, errors_of,
  find_tape, match_exemplar, http_error, first_headers,
}
use httptape.Server.Serve.{
  headers_after, resolve_response, template_ctx, finish, replay, serve_sse, serve_tape,
  serve_listed, serve_http, is_positive, effective_delay, response_delay, replay_headers_on,
  sse_headers_on, replay_response, sse_response, fixture_response, fallback, preflight_response,
  simulated_response, every_tape,
}

abbrev pub IsTemplateError : Served → Type 0
IsTemplateError (template_error t resp) = Unit
IsTemplateError _ = ⊥

-- The second answer is no template error, and the first is, or they are the same.
abbrev pub Differ : (strict lenient : Served × TemplateState) → Type 0
Differ x y = ¬ IsTemplateError y.0 × (IsTemplateError x.0 ⊎ (x ≡ y))

module _ (pf : Platform) (rt : Runtime) where
  headers_after-Agrees :
      (ctx : TemplateCtx) (headers : HeaderMap) (x y : Outcome Text)
      → Agrees x y
      → Agrees (headers_after pf rt ctx true headers x) (headers_after pf rt ctx false headers y)
  headers_after-Agrees ctx headers x y h =
      joined-Agrees {A = Text} {B = HeaderMap} {C = Text × HeaderMap}
        (λ body headers'. (body, headers')) x.0 y.0 x.1 y.1
        (resolve_template_headers pf rt ctx true headers)
        (resolve_template_headers pf rt ctx false headers) h (headers-Agrees pf rt ctx headers)

  resolve_response-Agrees :
      (ctx : TemplateCtx) (t : Tape) (st : TemplateState)
      → Agrees (resolve_response pf rt ctx true t st) (resolve_response pf rt ctx false t st)
  unfolding resolve_response
  resolve_response-Agrees ctx t st = headers_after-Agrees ctx t.response.headers _ _ (
      if-Agrees t.exemplar _ _ _ _ (exemplar-Agrees pf rt ctx t.response.body t.response.headers st)
        (body-Agrees pf rt ctx t.response.body st))

module _ (pf : Platform) (rt : Runtime) (s : Server) (around : Surroundings) (r : Request) where
  abbrev pub with_strict : Bool → Server
  with_strict b = record s { strict_templating = b }

  same-Differ : (x : Served × TemplateState) → ¬ IsTemplateError x.0 → Differ x x
  same-Differ x h = (h, inr refl)

  not-IsTemplateError :
      (f : Response → Served) (resp : Response)
      → ¬ IsTemplateError (f resp)
      → ¬ IsTemplateError (written f resp)
  not-IsTemplateError f resp h = plain (leb 100 resp.status && leb resp.status 999)
    where
      plain : (b : Bool) → ¬ IsTemplateError (if b then f resp else panicked)
      plain true = h
      plain false = λ k. k

  if-Differ :
      (b : Bool) (x x' y y' : Served × TemplateState)
      → Differ x x'
      → Differ y y'
      → Differ (if b then x else y) (if b then x' else y')
  if-Differ true x x' y y' h k = h
  if-Differ false x x' y y' h k = k

  replay_response-strict :
      (t : Tape) (body : Text) (headers : HeaderMap)
      → replay_response (with_strict true) t body headers
        ≡ replay_response (with_strict false) t body headers
  unfolding replay_response replay_headers_on
  replay_response-strict t body headers = refl

  finish-Differ :
      (t : Tape) (o o' : Outcome (Text × HeaderMap))
      → Agrees o o'
      → Differ (finish pf rt (with_strict true) t o) (finish pf rt (with_strict false) t o')
  unfolding http_error
  finish-Differ t o (err e, st') h = absurd h
  finish-Differ t (err e, st) (ok (body, headers), st') h = (
    not-IsTemplateError (replayed t) (replay_response (with_strict false) t body headers) (λ k. k),
    inl tt,
  )
  finish-Differ t (ok a, st) (ok (body, headers), st') h = (
    not-IsTemplateError (replayed t) (replay_response (with_strict false) t body headers) (λ k. k),
    inr (
        ap (λ c. finish pf rt (with_strict true) t (ok c, st)) h.0
        ∙ ap (λ u. finish pf rt (with_strict true) t (ok (body, headers), u)) h.1
        ∙ ap (λ resp. (written (replayed t) resp, st')) (replay_response-strict t body headers)),
  )

  serve_sse-same :
      (t : Tape) (st : TemplateState)
      → Differ
          (serve_sse (with_strict true) around t, st)
          (serve_sse (with_strict false) around t, st)
  unfolding serve_sse sse_response sse_headers_on
  serve_sse-same t st = same-Differ _ (plain around.can_flush)
    where
      plain :
          (b : Bool)
          → ¬ IsTemplateError (
              if b
              then written (replayed t) (sse_response s t)
              else written
                  (unflushable t)
                  (http_error (first_headers s) (codes "httptape: streaming not supported") 500))
      plain true = not-IsTemplateError (replayed t) (sse_response s t) (λ k. k)
      plain false =
          not-IsTemplateError (unflushable t)
            (http_error (first_headers s) (codes "httptape: streaming not supported") 500) (λ k. k)

  replay-Differ :
      (t : Tape) (params : Option (List (Text × Text))) (st : TemplateState)
      → Differ
          (replay pf rt (with_strict true) around r t params st)
          (replay pf rt (with_strict false) around r t params st)
  unfolding replay
  replay-Differ t params st = if-Differ (is_sse t.response) _ _ _ _ (serve_sse-same t st) (
      finish-Differ t _ _ (
        if-Agrees s.templating _ _ (ok (t.response.body, t.response.headers), st)
          (ok (t.response.body, t.response.headers), st)
          (resolve_response-Agrees pf rt (template_ctx pf rt s r t params) t st) (refl, refl)))

  -- the answers that come before a template is looked at
  early-Differ :
      (f : Response → Served) (resp : Response) (st : TemplateState)
      → ¬ IsTemplateError (f resp)
      → Differ (written f resp, st) (written f resp, st)
  early-Differ f resp st h = same-Differ (written f resp, st) (not-IsTemplateError f resp h)

  serve_tape-Differ :
      (t : Tape) (params : Option (List (Text × Text))) (st : TemplateState)
      → Differ
          (serve_tape pf rt (with_strict true) around r t params st)
          (serve_tape pf rt (with_strict false) around r t params st)
  unfolding serve_tape effective_delay
  serve_tape-Differ t params st = elim (Option-cases (errors_of t.metadata)) [
    | inr (fs, found) ↦
        rw (found, serve_tape)
          (early-Differ (fixture_error t) (fixture_response pf rt s fs) st (λ k. k))
    | inl lost ↦
        rw (lost, serve_tape)
          (if-Differ (is_positive (effective_delay pf rt s t) && around.cancelled_in_delay)
            (abandoned, st) (abandoned, st) _ _ (same-Differ (abandoned, st) (λ k. k))
            (if-Differ
              (ltb 0 (response_delay pf rt s.replay_timing t.response.elapsed_ms)
                && around.cancelled_in_replay_delay)
              (abandoned, st) (abandoned, st) (replay pf rt (with_strict true) around r t params st)
              (replay pf rt (with_strict false) around r t params st)
              (same-Differ (abandoned, st) (λ k. k)) (replay-Differ t params st)))
  ]

  find_tape-strict :
      (tapes : List Tape)
      → find_tape pf rt (with_strict true) r tapes ≡ find_tape pf rt (with_strict false) r tapes
  unfolding find_tape match_exemplar
  find_tape-strict tapes = refl

  serve_listed-Differ :
      (tapes : Listed) (st : TemplateState)
      → Differ
          (serve_listed pf rt (with_strict true) around r tapes st)
          (serve_listed pf rt (with_strict false) around r tapes st)
  unfolding serve_listed
  serve_listed-Differ (not_listed e) st =
      early-Differ store_error (http_error (first_headers s) (codes "httptape: store error") 500) st
        (λ k. k)
  serve_listed-Differ (listed tapes) st =
      elim (Option-cases (find_tape pf rt (with_strict false) r tapes)) [
        | inl lost ↦
            rw (find_tape-strict tapes, lost, serve_listed)
              (early-Differ no_match (fallback pf rt s) st (λ k. k))
        | inr ((t, params), found) ↦
            rw (find_tape-strict tapes, found, serve_listed) (serve_tape-Differ t params st)
      ]

  -- Whatever the store and the request: a server with lenient templates never answers with a template error, and
  -- one that differs from it in strictness only answers with a template error or gives the same answer and leaves the
  -- same counters and random source.
  pub serve_http-Differ :
      {S : Type 0} (store : Store S) (contents : S) (st : TemplateState)
      → Differ
          (serve_http pf rt (with_strict true) store contents around r st)
          (serve_http pf rt (with_strict false) store contents around r st)
  unfolding serve_http
  serve_http-Differ store contents st =
      if-Differ (s.cors && r.method == codes "OPTIONS") _ _ _ _
        (early-Differ preflight (preflight_response pf rt) st (λ k. k))
        (if-Differ (float_less 0 s.error_rate && float_less around.rand_float s.error_rate) _ _ _ _
          (early-Differ simulated_error (simulated_response pf rt s) st (λ k. k))
          (serve_listed-Differ (store.list around.cancelled_at_list every_tape contents) st))
