-- ===== src/Templating/Render.antt =====
-- templating.go: bodies and headers with their expressions resolved.
use httptape.Prelude.{
  Text, codes, Bool, false, not, ◌&&◌, ◌||◌, Option, none, some, List, [], ◌∷◌, ◌++◌, length,
  is_empty, nat_beq, text_eq, if◌then◌else◌,
}
use httptape.Json.{Json, bool, num, str}
use httptape.Platform.{Platform, Runtime}
use httptape.Header.{HeaderMap, get_first}
use httptape.MediaType.{MediaType, trim_space, parse_media_type, is_json, is_binary}
use httptape.Matcher.{Request, ReqBody, no_body, readable, broken}
use httptape.Templating.{TemplateExpr, contains_open, scan_template_exprs}
use httptape.Templating.Resolve.{resolve_expr}
use httptape.Templating.Substitution.{
  TemplateCtx, TemplateState, TemplateError, not_coerced, unresolvable, Result, err, ok, Resolved,
  substitute_from,
}
use httptape.Templating.Walk.{
  map_result, Outcome, walk_json, Coercion, to_int, to_float, to_bool, parse_coercion, parse_bool,
}

abbrev or_error : {A : Type 0} → (A → Json) → TemplateError → Option A → Result Json
or_error f e none = err e
or_error f e (some a) = ok (f a)

-- the outcome of json.Marshal, or the body as it was
abbrev pub encoded : Text → Option Text → Result Text
encoded body none = ok body
encoded body (some result) = ok result

unfoldable pub read_request_body : ReqBody → Text
read_request_body no_body = []
read_request_body (readable body) = body
read_request_body broken = []

module _ (pf : Platform) (rt : Runtime) where
  unfoldable pub coerce_value : Text → Coercion → Result Json
  unfolding parse_bool
  coerce_value s to_int =
      or_error (λ f. num (rt.trunc f)) (not_coerced (codes "int") s) (pf.parse_float (trim_space s))
  coerce_value s to_float =
      or_error num (not_coerced (codes "float") s) (pf.parse_float (trim_space s))
  coerce_value s to_bool = or_error bool (not_coerced (codes "bool") s) (parse_bool (trim_space s))

  -- the texts of the errors
  unfoldable pub error_text : TemplateError → Text
  error_text (unresolvable raw) =
      codes "httptape: unresolvable template expression: {{" ++ (raw ++ codes "}}")
  error_text (not_coerced coercion value) =
      codes "httptape: coercion | "
      ++ (coercion ++ (codes ": cannot parse " ++ rt.refusal coercion value))

  module _ (ctx : TemplateCtx) (strict : Bool) where
    -- the loop over the expressions of a source that has some
    abbrev pub substitute : (Text → TemplateState → Resolved) → Text → TemplateState → Outcome Text
    substitute act src st =
        let exprs = scan_template_exprs src in
        if is_empty exprs then (ok src, st) else substitute_from act strict src 0 [] exprs st

    unfoldable pub resolve_template_bytes : Text → TemplateState → Outcome Text
    unfolding substitute_from
    resolve_template_bytes body st = substitute (resolve_expr pf rt ctx) body st

    unfoldable pub resolve_template_string_ctx : Text → TemplateState → Outcome Text
    unfolding substitute_from
    resolve_template_string_ctx s st =
        if contains_open s then substitute (resolve_expr pf rt ctx) s st else (ok s, st)

    -- the string case of `walkJSON`
    unfoldable pub resolve_leaf : Text → TemplateState → Outcome Json
    unfolding resolve_template_string_ctx
    resolve_leaf s st =
        let (r, st') = resolve_template_string_ctx s st in
        if contains_open s then (map_result str r, st') else (ok (str s), st)

    abbrev pub is_single : Text → List TemplateExpr → Bool
    is_single src (expr ∷ []) = nat_beq expr.start 0 && nat_beq expr.end (length src)
    is_single src exprs = false

    abbrev pub first_raw : List TemplateExpr → Text
    first_raw [] = []
    first_raw (expr ∷ exprs) = expr.raw

    -- a lenient resolution keeps the value that cannot be coerced
    abbrev pub lenient_value : Text → Result Json → Result Json
    lenient_value resolved (err e) = if strict then err e else ok (str resolved)
    lenient_value resolved (ok v) = ok v

    abbrev pub coerced : Text → Option Coercion → Result Json
    coerced resolved none = ok (str resolved)
    coerced resolved (some coercion) = lenient_value resolved (coerce_value resolved coercion)

    -- a string that is one expression
    abbrev pub typed : (raw_expr : Text) → Option Coercion → Resolved → Outcome Json
    typed raw_expr coercion (none, st) =
        if strict then (err (unresolvable raw_expr), st) else (ok (str []), st)
    typed raw_expr coercion (some resolved, st) = (coerced resolved coercion, st)

    unfoldable pub resolve_string_with_coercion : Text → TemplateState → Outcome Json
    unfolding parse_coercion coerce_value substitute_from
    resolve_string_with_coercion s st =
        let exprs = scan_template_exprs s in
        let raw_expr = first_raw exprs in
        let (expr_body, coercion) = parse_coercion raw_expr in
        let mixed = substitute (λ raw. resolve_expr pf rt ctx (parse_coercion raw).0) s st in
        if is_empty exprs
        then (ok (str s), st)
        else if is_single s exprs
        then typed raw_expr coercion (resolve_expr pf rt ctx expr_body st)
        else (map_result str mixed.0, mixed.1)

    -- the string case of `walkJSONWithCoercion`
    unfoldable pub resolve_coercing_leaf : Text → TemplateState → Outcome Json
    unfolding resolve_string_with_coercion
    resolve_coercing_leaf s st =
        if contains_open s then resolve_string_with_coercion s st else (ok (str s), st)

    abbrev pub reencode : Text → Result Json → Result Text
    reencode body (err e) = err e
    reencode body (ok j) = encoded body (pf.marshal j)

    abbrev pub resolve_decoded :
        (Text → TemplateState → Outcome Json) → Text → Option Json → TemplateState → Outcome Text
    resolve_decoded leaf body none st = resolve_template_bytes body st
    resolve_decoded leaf body (some j) st =
        let (r, st') = walk_json leaf j st in (reencode body r, st')

    unfoldable pub resolve_template_json : Text → TemplateState → Outcome Text
    unfolding resolve_template_bytes resolve_leaf walk_json
    resolve_template_json body st = resolve_decoded resolve_leaf body (pf.unmarshal body) st

    unfoldable pub resolve_template_json_with_coercion : Text → TemplateState → Outcome Text
    unfolding resolve_template_bytes resolve_coercing_leaf walk_json
    resolve_template_json_with_coercion body st =
        resolve_decoded resolve_coercing_leaf body (pf.unmarshal body) st

    -- a leading `{` or `[`
    abbrev pub looks_like_json : Text → Bool
    looks_like_json [] = false
    looks_like_json (c ∷ s) = nat_beq c b'{' || nat_beq c b'['

    unfoldable pub resolve_template_body : Text → TemplateState → Outcome Text
    unfolding resolve_template_bytes resolve_template_json
    resolve_template_body body st =
        if not (contains_open body)
        then (ok body, st)
        else if looks_like_json (trim_space body)
        then resolve_template_json body st
        else resolve_template_bytes body st

    unfoldable pub resolve_values : List Text → TemplateState → Outcome (List Text)
    unfolding resolve_template_string_ctx
    resolve_values [] st = (ok [], st)
    resolve_values (v ∷ vs) st =
        let (r, st') = resolve_template_string_ctx v st in
        elim r [
          | err e ↦ (err e, st')
          | ok w ↦ let (rs, st'') = resolve_values vs st' in (map_result (λ ws. w ∷ ws) rs, st'')
        ]

    unfoldable pub resolve_template_headers : HeaderMap → TemplateState → Outcome HeaderMap
    unfolding resolve_values
    resolve_template_headers [] st = (ok [], st)
    resolve_template_headers ((key, vs) ∷ h) st =
        let (r, st') = resolve_values vs st in
        elim r [
          | err e ↦ (err e, st')
          | ok ws ↦
              let (rs, st'') = resolve_template_headers h st' in
              (map_result (λ rest. (key, ws) ∷ rest) rs, st'')
        ]

    -- the three ways of `resolveExemplarBody`, by the media type
    abbrev pub resolve_by_type : Text → TemplateState → Option MediaType → Outcome Text
    resolve_by_type body st none = resolve_template_bytes body st
    resolve_by_type body st (some mt) =
        if is_json mt
        then resolve_template_json_with_coercion body st
        else if is_binary mt
        then (ok body, st)
        else resolve_template_bytes body st

    unfoldable pub resolve_exemplar_body : Text → HeaderMap → TemplateState → Outcome Text
    unfolding resolve_template_bytes resolve_template_json_with_coercion
    resolve_exemplar_body body headers st =
        if contains_open body
        then resolve_by_type body st
            (parse_media_type pf (get_first (codes "Content-Type") headers))
        else (ok body, st)

  abbrev simple_ctx : Request → TemplateCtx
  simple_ctx r = record {
    req = r;
    req_body = read_request_body r.body;
    path_params = none;
    tape_id = [];
  }

  abbrev simple_state : Text → TemplateState
  simple_state random = record { counters = none; rand_source = random }

  -- `ResolveTemplateBodySimple`; `random` is what the system's source gives
  unfoldable pub resolve_template_body_simple : Text → Request → Bool → Text → Result Text
  unfolding resolve_template_body read_request_body
  resolve_template_body_simple body r strict random =
      (resolve_template_body (simple_ctx r) strict body (simple_state random)).0

  unfoldable pub resolve_template_headers_simple :
      HeaderMap → Request → Bool → Text → Result HeaderMap
  unfolding resolve_template_headers read_request_body
  resolve_template_headers_simple headers r strict random =
      (resolve_template_headers (simple_ctx r) strict headers (simple_state random)).0
