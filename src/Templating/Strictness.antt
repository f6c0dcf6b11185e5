-- ===== src/Templating/Strictness.antt =====
-- Strict and lenient resolution differ in errors only.
use httptape.Prelude.{
  codes, not, ℕ, Text, refl, true, false, Option, none, some, List, [], ◌∷◌, ◌++◌, Option-cases,
  inl, inr, is_empty,
}
use mathlib.Core.Path.{subst}
use httptape.Json.{Json, null, bool, num, str, arr, obj, Items, nil, cons, Fields, end, field}
use httptape.Platform.{Platform, Runtime}
use httptape.Header.{HeaderMap, get_first}
use httptape.MediaType.{MediaType, trim_space, parse_media_type, is_json, is_binary}
use httptape.Templating.{TemplateExpr, contains_open, scan_template_exprs, slice}
use httptape.Templating.Resolve.{resolve_expr}
use httptape.Templating.Substitution.{
  TemplateCtx, TemplateState, unresolvable, Result, err, ok, Resolved, substitute_from,
}
use httptape.Templating.Render.{
  substitute, resolve_template_bytes, resolve_template_string_ctx, resolve_leaf,
  resolve_string_with_coercion, resolve_coercing_leaf, resolve_template_json,
  resolve_template_json_with_coercion, resolve_template_body, resolve_values,
  resolve_template_headers, resolve_exemplar_body, typed, lenient_value, coerce_value, is_single,
  first_raw, reencode, encoded, resolve_decoded, resolve_by_type, looks_like_json,
}
use httptape.Templating.Walk.{Outcome, walk_json, walk_items, walk_fields, Coercion, parse_coercion}
use httptape.Templating.Agreement.{Agree, Agrees, any_error, map-Agree, joined-Agrees, if-Agrees}

-- the walk, where the leaves agree
module _ (strict lenient : Text → TemplateState → Outcome Json)
    (leaves : (s : Text) (st : TemplateState) → Agrees (strict s st) (lenient s st)) where
  mutual
    unfolding walk_json

    walk_json-Agrees :
        (j : Json) (st : TemplateState) → Agrees (walk_json strict j st) (walk_json lenient j st)
    walk_json-Agrees null st = (refl, refl)
    walk_json-Agrees (bool b) st = (refl, refl)
    walk_json-Agrees (num n) st = (refl, refl)
    walk_json-Agrees (str s) st = leaves s st
    walk_json-Agrees (arr vs) st = map-Agree arr _ _ _ _ (walk_items-Agrees vs st)
    walk_json-Agrees (obj fs) st = map-Agree obj _ _ _ _ (walk_fields-Agrees fs st)

    walk_items-Agrees :
        (vs : Items) (st : TemplateState)
        → Agrees (walk_items strict vs st) (walk_items lenient vs st)
    walk_items-Agrees nil st = (refl, refl)
    walk_items-Agrees (cons v vs) st =
        joined-Agrees cons _ _ _ _ (walk_items strict vs) (walk_items lenient vs)
          (walk_json-Agrees v st) (walk_items-Agrees vs)

    walk_fields-Agrees :
        (fs : Fields) (st : TemplateState)
        → Agrees (walk_fields strict fs st) (walk_fields lenient fs st)
    walk_fields-Agrees end st = (refl, refl)
    walk_fields-Agrees (field k v fs) st =
        joined-Agrees (field k) _ _ _ _ (walk_fields strict fs) (walk_fields lenient fs)
          (walk_json-Agrees v st) (walk_fields-Agrees fs)

substitute_from-Agrees :
    (act : Text → TemplateState → Resolved) (src : Text) (prev : ℕ) (buf : Text)
    (exprs : List TemplateExpr) (st : TemplateState)
    → Agrees
        (substitute_from act true src prev buf exprs st)
        (substitute_from act false src prev buf exprs st)
unfolding substitute_from
substitute_from-Agrees act src prev buf [] st = (refl, refl)
substitute_from-Agrees act src prev buf (expr ∷ exprs) st =
    let st' = (act expr.raw st).1 in
    let buf' = buf ++ slice prev expr.start src in
    let rest = substitute_from-Agrees act src expr.end buf' exprs st' in
    elim (Option-cases (act expr.raw st).0) [
      | inl lost ↦ rw (lost, substitute_from) (any_error (unresolvable expr.raw) _ _ _ _ _ rest)
      | inr (val, found) ↦
          rw (found, substitute_from)
            (substitute_from-Agrees act src expr.end (buf' ++ val) exprs st')
    ]

module _ (pf : Platform) (rt : Runtime) (ctx : TemplateCtx) where
  substitute-Agrees :
      (act : Text → TemplateState → Resolved) (src : Text) (st : TemplateState)
      → Agrees (substitute pf rt ctx true act src st) (substitute pf rt ctx false act src st)
  substitute-Agrees act src st =
      let exprs = scan_template_exprs src in
      if-Agrees (is_empty exprs) (ok src, st) (ok src, st) _ _ (refl, refl)
        (substitute_from-Agrees act src 0 [] exprs st)

  bytes-Agrees :
      (body : Text) (st : TemplateState)
      → Agrees
          (resolve_template_bytes pf rt ctx true body st)
          (resolve_template_bytes pf rt ctx false body st)
  unfolding resolve_template_bytes
  bytes-Agrees body st = substitute-Agrees (resolve_expr pf rt ctx) body st

  string-Agrees :
      (s : Text) (st : TemplateState)
      → Agrees
          (resolve_template_string_ctx pf rt ctx true s st)
          (resolve_template_string_ctx pf rt ctx false s st)
  unfolding resolve_template_string_ctx
  string-Agrees s st =
      if-Agrees (contains_open s) _ _ (ok s, st) (ok s, st)
        (substitute-Agrees (resolve_expr pf rt ctx) s st) (refl, refl)

  leaf-Agrees :
      (s : Text) (st : TemplateState)
      → Agrees (resolve_leaf pf rt ctx true s st) (resolve_leaf pf rt ctx false s st)
  unfolding resolve_leaf
  leaf-Agrees s st =
      if-Agrees (contains_open s) _ _ (ok (str s), st) (ok (str s), st)
        (map-Agree str _ _ _ _ (string-Agrees s st)) (refl, refl)

  coerced-Agree :
      (resolved : Text) (r : Result Json) (st : TemplateState)
      → Agree
          (lenient_value pf rt ctx true resolved r)
          (lenient_value pf rt ctx false resolved r)
          st
          st
  coerced-Agree resolved (err e) st = tt
  coerced-Agree resolved (ok v) st = (refl, refl)

  typed-Agrees :
      (raw_expr : Text) (coercion : Option Coercion) (resolved : Option Text) (st : TemplateState)
      → Agrees
          (typed pf rt ctx true raw_expr coercion (resolved, st))
          (typed pf rt ctx false raw_expr coercion (resolved, st))
  typed-Agrees raw_expr coercion none st = tt
  typed-Agrees raw_expr none (some resolved) st = (refl, refl)
  typed-Agrees raw_expr (some coercion) (some resolved) st =
      coerced-Agree resolved (coerce_value pf rt resolved coercion) st

  coercing-Agrees :
      (s : Text) (st : TemplateState)
      → Agrees
          (resolve_string_with_coercion pf rt ctx true s st)
          (resolve_string_with_coercion pf rt ctx false s st)
  unfolding resolve_string_with_coercion
  coercing-Agrees s st =
      let exprs = scan_template_exprs s in
      let act = λ (raw : Text). resolve_expr pf rt ctx (parse_coercion raw).0 in
      if-Agrees (is_empty exprs) (ok (str s), st) (ok (str s), st) _ _ (refl, refl)
        (if-Agrees (is_single pf rt ctx true s exprs) _ _ _ _
          (typed-Agrees (first_raw pf rt ctx true exprs) _ _ _)
          (map-Agree str _ _ _ _ (substitute-Agrees act s st)))

  coercing_leaf-Agrees :
      (s : Text) (st : TemplateState)
      → Agrees
          (resolve_coercing_leaf pf rt ctx true s st)
          (resolve_coercing_leaf pf rt ctx false s st)
  unfolding resolve_coercing_leaf
  coercing_leaf-Agrees s st =
      if-Agrees (contains_open s) _ _ (ok (str s), st) (ok (str s), st) (coercing-Agrees s st)
        (refl, refl)

  encoded-Agree :
      (body : Text) (o : Option Text) (st : TemplateState)
      → Agree {A = Text} (encoded body o) (encoded body o) st st
  encoded-Agree body none st = (refl, refl)
  encoded-Agree body (some text) st = (refl, refl)

  reencode-Agree :
      (body : Text) (r r' : Result Json) (st st' : TemplateState)
      → Agree r r' st st'
      → Agree (reencode pf rt ctx true body r) (reencode pf rt ctx false body r') st st'
  reencode-Agree body r (err e) st st' h = absurd h
  reencode-Agree body (err e) (ok b) st st' h =
      any_error e _ _ st st' st' (encoded-Agree body (pf.marshal b) st')
  reencode-Agree body (ok a) (ok b) st st' h =
      subst (λ c. Agree (encoded body (pf.marshal a)) (encoded body (pf.marshal c)) st st') h.0
        (subst (λ s. Agree (encoded body (pf.marshal a)) (encoded body (pf.marshal a)) st s) h.1
          (encoded-Agree body (pf.marshal a) st))

  decoded-Agrees :
      (strict lenient : Text → TemplateState → Outcome Json) (body : Text) (o : Option Json)
      (st : TemplateState)
      → ((s : Text) (u : TemplateState) → Agrees (strict s u) (lenient s u))
      → Agrees
          (resolve_decoded pf rt ctx true strict body o st)
          (resolve_decoded pf rt ctx false lenient body o st)
  decoded-Agrees strict lenient body none st leaves = bytes-Agrees body st
  decoded-Agrees strict lenient body (some j) st leaves =
      reencode-Agree body _ _ _ _ (walk_json-Agrees strict lenient leaves j st)

  pub body-Agrees :
      (body : Text) (st : TemplateState)
      → Agrees
          (resolve_template_body pf rt ctx true body st)
          (resolve_template_body pf rt ctx false body st)
  unfolding resolve_template_body resolve_template_json
  body-Agrees body st =
      if-Agrees (not (contains_open body)) (ok body, st) (ok body, st) _ _ (refl, refl)
        (if-Agrees (looks_like_json pf rt ctx true (trim_space body)) _ _ _ _
          (decoded-Agrees _ _ body (pf.unmarshal body) st leaf-Agrees) (bytes-Agrees body st))

  values-Agrees :
      (vs : List Text) (st : TemplateState)
      → Agrees (resolve_values pf rt ctx true vs st) (resolve_values pf rt ctx false vs st)
  unfolding resolve_values
  values-Agrees [] st = (refl, refl)
  values-Agrees (v ∷ vs) st =
      joined-Agrees (λ w ws. w ∷ ws) _ _ _ _ (resolve_values pf rt ctx true vs)
        (resolve_values pf rt ctx false vs) (string-Agrees v st) (values-Agrees vs)

  pub headers-Agrees :
      (h : HeaderMap) (st : TemplateState)
      → Agrees
          (resolve_template_headers pf rt ctx true h st)
          (resolve_template_headers pf rt ctx false h st)
  unfolding resolve_template_headers
  headers-Agrees [] st = (refl, refl)
  headers-Agrees ((key, vs) ∷ h) st =
      joined-Agrees (λ ws rest. (key, ws) ∷ rest) _ _ _ _
        (resolve_template_headers pf rt ctx true h) (resolve_template_headers pf rt ctx false h)
        (values-Agrees vs st) (headers-Agrees h)

  by_type-Agrees :
      (body : Text) (st : TemplateState) (mt : Option MediaType)
      → Agrees
          (resolve_by_type pf rt ctx true body st mt)
          (resolve_by_type pf rt ctx false body st mt)
  unfolding resolve_template_json_with_coercion
  by_type-Agrees body st none = bytes-Agrees body st
  by_type-Agrees body st (some mt) =
      if-Agrees (is_json mt) _ _ _ _
        (decoded-Agrees _ _ body (pf.unmarshal body) st coercing_leaf-Agrees)
        (if-Agrees (is_binary mt) (ok body, st) (ok body, st) _ _ (refl, refl)
          (bytes-Agrees body st))

  pub exemplar-Agrees :
      (body : Text) (h : HeaderMap) (st : TemplateState)
      → Agrees
          (resolve_exemplar_body pf rt ctx true body h st)
          (resolve_exemplar_body pf rt ctx false body h st)
  unfolding resolve_exemplar_body
  exemplar-Agrees body h st =
      if-Agrees (contains_open body) _ _ (ok body, st) (ok body, st)
        (by_type-Agrees body st (parse_media_type pf (get_first (codes "Content-Type") h)))
        (refl, refl)
