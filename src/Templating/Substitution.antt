-- ===== src/Templating/Substitution.antt =====
-- templating.go: the loops that replace the expressions of a text.
use httptape.Prelude.{
  ℕ, Text, Bool, true, false, Option, none, some, List, [], ◌∷◌, ◌++◌, drop, text_eq,
}
use httptape.Matcher.{Request}
use httptape.Templating.{TemplateExpr, scan_template_exprs, slice}
use httptape.Templating.Counters.{Counters}

-- What a resolution reads; the counters and the random source, which it changes, are its state.
pub record TemplateCtx : Type 0 where
  pub req : Request
  pub req_body : Text
  -- a nil map is `none`
  pub path_params : Option (List (Text × Text))
  pub tape_id : Text

pub record TemplateState : Type 0 where
  -- a nil pointer is `none`
  pub counters : Option Counters
  -- the bytes that the random source has yet to give
  pub rand_source : Text

-- A value with the state after it; `none` is an expression that cannot be resolved.
abbrev pub Resolved : Type 0
Resolved = Option Text × TemplateState

-- The errors, one for each message: of an expression, and of a coercion at a value.
pub data TemplateError : Type 0 where
  unresolvable : (raw : Text) → TemplateError
  not_coerced : (coercion value : Text) → TemplateError

pub data Result (A : Type 0) : Type 0 where
  err : TemplateError → Result A
  ok : A → Result A

-- The loops that write a source with its expressions replaced. `act` resolves the text of one
-- expression; in strict mode the first that cannot be resolved is the error.
unfoldable pub substitute_from :
    {S : Type 0}
    → (Text → S → Option Text × S)
    → (strict : Bool) → (src : Text) → (prev : ℕ) → (buf : Text) → List TemplateExpr
    → S
    → Result Text × S
substitute_from act strict src prev buf [] st = (ok (buf ++ drop prev src), st)
substitute_from act strict src prev buf (expr ∷ exprs) st =
    let buf' = buf ++ slice prev expr.start src in
    let (resolved, st') = act expr.raw st in
    elim resolved [
      | some val ↦ substitute_from act strict src expr.end (buf' ++ val) exprs st'
      | none ↦ elim strict [
        | true ↦ (err (unresolvable expr.raw), st')
        | false ↦ substitute_from act strict src expr.end buf' exprs st'
      ]
    ]

-- the text of a lenient loop, which has no error
abbrev pub text_of : Result Text → Text
text_of (err e) = []
text_of (ok s) = s

-- The loop of `resolveArgs`: a value with expressions is replaced, leniently, and one with none is
-- copied. A map is gone through in the order of its entries, which Go leaves open.
unfoldable pub resolve_args :
    {S : Type 0} → (Text → S → Option Text × S) → List (Text × Text) → S → List (Text × Text) × S
unfolding substitute_from
resolve_args act [] st = ([], st)
resolve_args act ((k, v) ∷ args) st =
    let (v', st') = substitute_from act false v 0 [] (scan_template_exprs v) st in
    let (args', st'') = resolve_args act args st' in ((k, text_of v') ∷ args', st'')
