-- ===== src/Templating/Lengths.antt =====
-- The expressions in an argument are shorter than the expression that it stands in.
use httptape.Prelude.{
  ℕ, zero, suc, ◌+◌, ◌≤◌, Text, ◌≡◌, ap, Option, none, some, List, [], ◌∷◌, ◌++◌, length,
  length-append, length-drop, All, if_both, cut, Bool-cases, Option-cases, inl, inr, nat_beq, ◌&&◌,
  ◌==◌, text_eq, map_option, arith,
}
use mathlib.Core.Path.{subst}
use httptape.MediaType.{trim_space}
use httptape.MediaType.Trim.{length-trim_space}
use httptape.Templating.{
  TemplateExpr, is_open, is_close, parse_arg_value_from, parse_arg_value, put_arg, parse_args,
  cut_blank, parse_expr, named, is_blank,
}
use httptape.Templating.Scanning.{IsExpr, IsScan}

-- an expression with its braces lies in the text
length-raw :
    (src : Text) (pos : ℕ) (e : TemplateExpr) → IsExpr src pos e → length e.raw + 4 ≤ length src
length-raw src pos e h = omega (
  arith,
  ap length h.raw,
  length-trim_space h.inner,
  ap length h.split,
  length-drop pos src,
  length-append h.before (b'{' ∷ b'{' ∷ (h.inner ++ b'}' ∷ b'}' ∷ h.after)),
  length-append h.inner (b'}' ∷ b'}' ∷ h.after),
)

pub raws-length :
    (src : Text) (pos : ℕ) (exprs : List TemplateExpr)
    → IsScan src pos exprs
    → All (λ e. length e.raw + 4 ≤ length src) exprs
raws-length src pos [] h = tt
raws-length src pos (e ∷ exprs) h = (length-raw src pos e h.0, raws-length src e.end exprs h.1)

length-parse_arg_value_from :
    (opened closed : ℕ) (s : Text)
    → length (parse_arg_value_from opened closed s).0
        + length (parse_arg_value_from opened closed s).1
      ≡ length s
unfolding parse_arg_value_from
length-parse_arg_value_from opened closed [] = omega arith
length-parse_arg_value_from opened closed (c ∷ []) = ground arith
length-parse_arg_value_from opened closed (c ∷ d ∷ s) = elim (Bool-cases (is_open c d)) [
  | inl o ↦
      rw (o, parse_arg_value_from)
        (omega (arith, length-parse_arg_value_from (suc opened) closed s))
  | inr n ↦ elim (Bool-cases (is_close c d)) [
    | inl o ↦
        rw (n, o, parse_arg_value_from)
          (omega (arith, length-parse_arg_value_from opened (suc closed) s))
    | inr m ↦ elim (Bool-cases (nat_beq opened closed && is_blank c)) [
      | inl o ↦ rw (n, m, o, parse_arg_value_from) (omega arith)
      | inr l ↦
          rw (n, m, l, parse_arg_value_from)
            (omega (arith, length-parse_arg_value_from opened closed (d ∷ s)))
    ]
  ]
]

-- what stands behind a cut is no longer than the text
abbrev Behind : ℕ → Option (Text × Text) → Type 0
Behind n none = Unit
Behind n (some (left, right)) = length right ≤ n

Behind-suc :
    (c n : ℕ) (o : Option (Text × Text))
    → Behind n o
    → Behind (suc n) (map_option (λ (p : Text × Text). (c ∷ p.0, p.1)) o)
Behind-suc c n none h = tt
Behind-suc c n (some (left, right)) h = omega arith

Behind-mono : (m n : ℕ) (o : Option (Text × Text)) → m ≤ n → Behind m o → Behind n o
Behind-mono m n none le h = tt
Behind-mono m n (some (left, right)) le h = omega arith

cut-Behind : (sep : ℕ) (s : Text) → Behind (length s) (cut sep s)
unfolding cut
cut-Behind sep [] = tt
cut-Behind sep (c ∷ s) =
    if_both (Behind (suc (length s))) (nat_beq c sep) (omega arith)
      (Behind-suc c (length s) (cut sep s) (cut-Behind sep s))

cut_blank-Behind : (s : Text) → Behind (length s) (cut_blank s)
unfolding cut_blank
cut_blank-Behind [] = tt
cut_blank-Behind (c ∷ s) =
    if_both (Behind (suc (length s))) (is_blank c) (omega arith)
      (Behind-suc c (length s) (cut_blank s) (cut_blank-Behind s))

module _ (bound : ℕ) where
  abbrev pub Short : Text × Text → Type 0
  Short (k, v) = length v ≤ bound

  put_arg-Short :
      (key value : Text) (args : List (Text × Text))
      → length value ≤ bound
      → All Short args
      → All Short (put_arg key value args)
  unfolding put_arg
  put_arg-Short key value [] h k = (h, tt)
  put_arg-Short key value ((k', v) ∷ args) h k = elim (Bool-cases (k' == key)) [
    | inl e ↦ rw e (h, k.1)
    | inr n ↦ rw n (k.0, put_arg-Short key value args h k.1)
  ]

  parse_args-Short :
      (fuel : ℕ) (rest : Text) (args : List (Text × Text))
      → length rest ≤ bound
      → All Short args
      → All Short (parse_args fuel rest args)
  unfolding parse_args
  parse_args-Short zero rest args h k = k
  parse_args-Short (suc fuel) rest args h k = elim (Option-cases (cut b'=' rest)) [
    | inl lost ↦ rw (lost, parse_args) k
    | inr ((key, rest'), found) ↦
        let shorter : length rest' ≤ length rest =
          subst (Behind (length rest)) found (cut-Behind b'=' rest) in
        let parts : length (parse_arg_value rest').0 + length (parse_arg_value rest').1
            ≡ length rest' =
          unfold parse_arg_value in length-parse_arg_value_from 0 0 rest' in
        rw (found, parse_args)
          (parse_args-Short fuel (trim_space (parse_arg_value rest').1) _
            (omega (arith, length-trim_space (parse_arg_value rest').1))
            (put_arg-Short (trim_space key) (parse_arg_value rest').0 args (omega arith) k))
  ]

  named-Short :
      (raw : Text) (o : Option (Text × Text))
      → length raw ≤ bound
      → Behind bound o
      → All Short (named raw o).args
  named-Short raw none h k = tt
  named-Short raw (some (name, rest)) h k =
      parse_args-Short (length (trim_space rest)) (trim_space rest) []
        (omega (arith, length-trim_space rest)) tt

-- the arguments of an expression are no longer than it
pub parse_expr-Short : (expr : Text) → All (Short (length expr)) (parse_expr expr).args
unfolding parse_expr
parse_expr-Short expr =
    named-Short (length expr) (trim_space expr) (cut_blank (trim_space expr))
      (length-trim_space expr)
      (Behind-mono (length (trim_space expr)) (length expr) _ (length-trim_space expr)
        (cut_blank-Behind (trim_space expr)))
