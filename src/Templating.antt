-- ===== src/Templating.antt =====
-- templating.go: the scanner and the parser of template expressions.
pub mod Counters
pub mod Balance
pub mod Scanning
pub mod Substitution
pub mod Resolve
pub mod Walk
pub mod Render
pub mod Agreement
pub mod Strictness
pub mod Lengths
pub mod Fuel
use httptape.Prelude.{
  ℕ, zero, suc, ◌+◌, ◌-◌, Text, codes, Bool, true, false, ◌&&◌, Option, none, some, List, [], ◌∷◌,
  ◌++◌, length, take, drop, cut, is_empty, nat_beq, ◌||◌, ◌==◌, text_eq, if◌then◌else◌, map_option,
}
use httptape.MediaType.{trim_space}

pub record TemplateExpr : Type 0 where
  pub raw : Text
  pub start : ℕ
  pub end : ℕ

pub record ParsedExpr : Type 0 where
  pub name : Text
  pub args : List (Text × Text)

-- the two bytes are `{{`, or `}}`
abbrev pub is_open : ℕ → ℕ → Bool
is_open c d = nat_beq c b'{' && nat_beq d b'{'

abbrev pub is_close : ℕ → ℕ → Bool
is_close c d = nat_beq c b'}' && nat_beq d b'}'

-- bytes.Index(s, "{{")
unfoldable pub index_open : Text → Option ℕ
index_open [] = none
index_open (c ∷ []) = none
index_open (c ∷ d ∷ s) = if is_open c d then some 0 else map_option suc (index_open (d ∷ s))

abbrev pub contains_open : Text → Bool
contains_open s = elim (index_open s) [ none ↦ false | some i ↦ true ]

-- the loop of `findMatchingClose`, at `pos`, with the bytes from there on
unfoldable pub find_close : (depth pos : ℕ) → Text → Option ℕ
find_close depth pos [] = none
find_close depth pos (c ∷ []) = none
find_close depth pos (c ∷ d ∷ s) = elim (is_open c d) [
  | true ↦ find_close (suc depth) (pos + 2) s
  | false ↦ elim (is_close c d) [
    | true ↦ elim (nat_beq (depth - 1) 0) [
      | true ↦ some pos
      | false ↦ find_close (depth - 1) (pos + 2) s
    ]
    | false ↦ find_close depth (pos + 1) (d ∷ s)
  ]
]

unfoldable pub find_matching_close : Text → ℕ → Option ℕ
unfolding find_close
find_matching_close src open_idx = find_close 1 (open_idx + 2) (drop (open_idx + 2) src)

-- src[from:to]
abbrev pub slice : (from to : ℕ) → Text → Text
slice from to src = take (to - from) (drop from src)

abbrev pub expr_at : Text → (open_idx close_idx : ℕ) → TemplateExpr
expr_at src open_idx close_idx = record {
  raw = trim_space (slice (open_idx + 2) close_idx src);
  start = open_idx;
  end = close_idx + 2;
}

-- The loop of `scanTemplateExprs`. A round passes four bytes at least, so there are fewer rounds
-- than bytes.
unfoldable pub scan_from : (fuel pos : ℕ) → Text → List TemplateExpr
unfolding index_open find_matching_close
scan_from zero pos src = []
scan_from (suc fuel) pos src = elim (index_open (drop pos src)) [
  | none ↦ []
  | some i ↦ elim (find_matching_close src (i + pos)) [
    | none ↦ []
    | some close_idx ↦ expr_at src (i + pos) close_idx ∷ scan_from fuel (close_idx + 2) src
  ]
]

unfoldable pub scan_template_exprs : Text → List TemplateExpr
unfolding scan_from
scan_template_exprs src = scan_from (length src) 0 src

abbrev pub is_blank : ℕ → Bool
is_blank c = nat_beq c b' ' || nat_beq c 9

-- a value goes on with the byte `c`
abbrev pub longer : ℕ → Text × Text → Text × Text
longer c (value, remaining) = (c ∷ value, remaining)

-- The loop of `parseArgValue`. The depth is an int, which a stray `}}` makes negative: it is the
-- number of the openings less that of the closings.
unfoldable pub parse_arg_value_from : (opened closed : ℕ) → Text → Text × Text
parse_arg_value_from opened closed [] = ([], [])
parse_arg_value_from opened closed (c ∷ []) =
    if nat_beq opened closed && is_blank c then ([], c ∷ []) else (c ∷ [], [])
parse_arg_value_from opened closed (c ∷ d ∷ s) = elim (is_open c d) [
  | true ↦ longer c (longer d (parse_arg_value_from (suc opened) closed s))
  | false ↦ elim (is_close c d) [
    | true ↦ longer c (longer d (parse_arg_value_from opened (suc closed) s))
    | false ↦ elim (nat_beq opened closed && is_blank c) [
      | true ↦ ([], c ∷ d ∷ s)
      | false ↦ longer c (parse_arg_value_from opened closed (d ∷ s))
    ]
  ]
]

unfoldable pub parse_arg_value : Text → Text × Text
unfolding parse_arg_value_from
parse_arg_value s = parse_arg_value_from 0 0 s

-- args[key] = value
unfoldable pub put_arg : Text → Text → List (Text × Text) → List (Text × Text)
put_arg key value [] = (key, value) ∷ []
put_arg key value ((k, v) ∷ args) =
    let rest = put_arg key value args in if k == key then (k, value) ∷ args else (k, v) ∷ rest

-- The loop of `parseExpr` over the arguments. A round passes the sign `=`, so there are no more
-- rounds than bytes.
unfoldable pub parse_args : ℕ → (rest : Text) → List (Text × Text) → List (Text × Text)
unfolding parse_arg_value put_arg
parse_args zero rest args = args
parse_args (suc fuel) rest args = elim (cut b'=' rest) [
  | none ↦ args
  | some (key, rest') ↦
      let (value, remaining) = parse_arg_value rest' in
      parse_args fuel (trim_space remaining) (put_arg (trim_space key) value args)
]

-- strings.IndexAny(raw, " \t"), with what stands before and behind
unfoldable pub cut_blank : Text → Option (Text × Text)
cut_blank [] = none
cut_blank (c ∷ s) =
    if is_blank c
    then some ([], s)
    else map_option (λ (p : Text × Text). (c ∷ p.0, p.1)) (cut_blank s)

abbrev pub named : (raw : Text) → Option (Text × Text) → ParsedExpr
named raw none = record { name = raw; args = [] }
named raw (some (name, rest)) = record {
  name = name;
  args = parse_args (length (trim_space rest)) (trim_space rest) [];
}

unfoldable pub parse_expr : Text → ParsedExpr
unfolding cut_blank parse_args
parse_expr raw = named (trim_space raw) (cut_blank (trim_space raw))
