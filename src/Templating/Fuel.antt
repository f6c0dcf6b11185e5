-- ===== src/Templating/Fuel.antt =====
-- The recursion of `resolveExpr` through the arguments ends: the fuel chosen is enough.
use httptape.Prelude.{
  ℕ, zero, suc, ◌+◌, ◌≤◌, ◌<◌, Text, ◌≡◌, refl, ap, ◌∙◌, Bool, false, Option, List, [], ◌∷◌, ◌++◌,
  length, All, All-imp, Bool-cases, Option-cases, inl, inr, text_eq, arith,
}
use httptape.Platform.{Platform, Runtime}
use httptape.Templating.{TemplateExpr, slice, scan_template_exprs, parse_expr}
use httptape.Templating.Scanning.{scan_template_exprs-IsScan}
use httptape.Templating.Resolve.{resolve_expr_from, resolve_expr}
use httptape.Templating.Substitution.{
  TemplateCtx, TemplateState, err, unresolvable, substitute_from, resolve_args,
}
use httptape.Templating.Lengths.{Short, raws-length, parse_expr-Short}

module _ {S : Type 0} (act act' : Text → S → Option Text × S) where
  -- both resolve an expression alike
  abbrev Alike : Text → Type 0
  Alike raw = (st : S) → act raw st ≡ act' raw st

  substitute_from-Alike :
      (strict : Bool) (src : Text) (prev : ℕ) (buf : Text) (exprs : List TemplateExpr) (st : S)
      → All (λ e. Alike e.raw) exprs
      → substitute_from act strict src prev buf exprs st
        ≡ substitute_from act' strict src prev buf exprs st
  unfolding substitute_from
  substitute_from-Alike strict src prev buf [] st h = refl
  substitute_from-Alike strict src prev buf (e ∷ exprs) st h =
      let st' = (act' e.raw st).1 in
      let buf' = buf ++ slice prev e.start src in
      elim (Option-cases (act' e.raw st).0) [
        | inr (val, found) ↦
            rw (h.0 st, found, substitute_from)
              (ap (λ r. substitute_from act strict src e.end (buf' ++ val) exprs r.1) (h.0 st)
                ∙ substitute_from-Alike strict src e.end (buf' ++ val) exprs st' h.1)
        | inl lost ↦ elim (Bool-cases strict) [
          | inl on ↦
              rw (h.0 st, lost, on, substitute_from)
                (ap (λ r. (err (unresolvable e.raw), r.1)) (h.0 st))
          | inr off ↦
              rw (h.0 st, lost, off, substitute_from)
                (ap (λ r. substitute_from act strict src e.end buf' exprs r.1) (h.0 st)
                  ∙ substitute_from-Alike strict src e.end buf' exprs st' h.1)
        ]
      ]

  resolve_args-Alike :
      (args : List (Text × Text)) (st : S)
      → All (λ (p : Text × Text). All (λ e. Alike e.raw) (scan_template_exprs p.1)) args
      → resolve_args act args st ≡ resolve_args act' args st
  unfolding resolve_args
  resolve_args-Alike [] st h = refl
  resolve_args-Alike ((k, v) ∷ args) st h =
      rw
        (
          substitute_from-Alike false v 0 [] (scan_template_exprs v) st h.0,
          resolve_args-Alike args (substitute_from act' false v 0 [] (scan_template_exprs v) st).1
              h.1,
        )
        refl

module _ (pf : Platform) (rt : Runtime) (ctx : TemplateCtx) where
  resolve_expr_from-same :
      (m n : ℕ) (expr : Text) (st : TemplateState)
      → length expr < m
      → length expr < n
      → resolve_expr_from pf rt ctx m expr st ≡ resolve_expr_from pf rt ctx n expr st
  unfolding resolve_expr_from
  resolve_expr_from-same zero n expr st h k = absurd (omega arith)
  resolve_expr_from-same (suc m) zero expr st h k = absurd (omega arith)
  resolve_expr_from-same (suc m) (suc n) expr st h k =
      rw
        (resolve_args-Alike (resolve_expr_from pf rt ctx m) (resolve_expr_from pf rt ctx n)
          (parse_expr expr).args st
          (All-imp (Short (length expr)) _ (parse_expr expr).args
            (λ p short.
              All-imp (λ e. length e.raw + 4 ≤ length p.1) _ (scan_template_exprs p.1)
                (λ e less st'. resolve_expr_from-same m n e.raw st' (omega arith) (omega arith))
                (raws-length p.1 0 (scan_template_exprs p.1) (scan_template_exprs-IsScan p.1)))
            (parse_expr-Short expr)))
        refl

  -- With more fuel than the expression has bytes, the resolution of an expression with those in its arguments does not
  -- depend on the fuel: what `resolveExpr` gives is what any deeper recursion gives.
  pub resolve_expr-eq :
      (fuel : ℕ) (expr : Text) (st : TemplateState)
      → length expr < fuel
      → resolve_expr_from pf rt ctx fuel expr st ≡ resolve_expr pf rt ctx expr st
  unfolding resolve_expr
  resolve_expr-eq fuel expr st h =
      resolve_expr_from-same fuel (suc (length expr)) expr st h (omega arith)
