-- ===== src/JsonPath.antt =====
-- The JSONPath-like field paths of sanitizer.go, their traversal there and in faker.go, and
-- `extractAtPath` of matcher.go.
pub mod Rewrite
pub mod Frame
use httptape.Prelude.{
  ℕ, Text, codes, Bool, true, false, Option, none, some, List, [], ◌∷◌, is_empty, strip_prefix,
  split_at, any, nat_beq, ◌||◌, if◌then◌else◌, ◌>>=◌, map_option,
}
use httptape.Json.{Json, null, arr, obj, Items, nil, cons, get, update, map_items}

pub record Segment : Type 0 where
  pub key : Text
  pub wildcard : Bool

-- strings.TrimSuffix(tok, "[*]") with the outcome of strings.HasSuffix
strip_wildcard : Text → Option Text
strip_wildcard [] = none
strip_wildcard (c ∷ s) = elim (strip_prefix (codes "[*]") (c ∷ s)) [
  | some [] ↦ some []
  | _ ↦ map_option (λ k. c ∷ k) (strip_wildcard s)
]

-- strings.ContainsAny(tok, "[]")
has_bracket : Text → Bool
has_bracket = any (λ c. nat_beq c b'[' || nat_beq c b']')

-- one round of the loop of `parsePath`
parse_token : Text → Option Segment
parse_token tok = if is_empty tok then none else elim (strip_wildcard tok) [
  | some key ↦ if is_empty key then none else some (record { key = key; wildcard = true })
  | none ↦ if has_bracket tok then none else some (record { key = tok; wildcard = false })
]

parse_tokens : List Text → Option (List Segment)
parse_tokens [] = some []
parse_tokens (tok ∷ toks) = do seg ← parse_token tok; segs ← parse_tokens toks; some (seg ∷ segs)

unfoldable pub parse_path : Text → Option (List Segment)
unfolding parse_token parse_tokens strip_wildcard has_bracket
parse_path path = do
  rest ← strip_prefix (codes "$.") path
  if is_empty rest then none else parse_tokens (split_at b'.' rest)

-- What is done with `obj[seg.key]`: `deeper` is the traversal with the segments that follow.
unfoldable pub at_value : (Json → Json) → (Json → Json) → (wildcard last : Bool) → Json → Json
at_value leaf deeper true true v = v
at_value leaf deeper true false (arr xs) = arr (map_items deeper xs)
at_value leaf deeper true false v = v
at_value leaf deeper false true v = leaf v
at_value leaf deeper false false v = deeper v

-- `redactAtPath`, `fakeAtPath` and `fakeAtPathWith`, which differ in what they do at the leaf
unfoldable pub rewrite_at_path : (Json → Json) → List Segment → Json → Json
unfolding at_value
rewrite_at_path leaf [] j = j
rewrite_at_path leaf (seg ∷ rest) (obj fs) =
    obj (update (at_value leaf (rewrite_at_path leaf rest) seg.wildcard (is_empty rest)) seg.key fs)
rewrite_at_path leaf (seg ∷ rest) j = j

-- the loop that collects from each element, all or nothing
unfoldable pub collect : (Json → Option Json) → Items → Option Items
collect f nil = some nil
collect f (cons v vs) = do w ← f v; ws ← collect f vs; some (cons w ws)

unfoldable pub from_value : (Json → Option Json) → (wildcard last : Bool) → Json → Option Json
from_value deeper true true (arr xs) = some (arr xs)
from_value deeper true false (arr xs) = map_option arr (collect deeper xs)
from_value deeper true last v = none
from_value deeper false last v = deeper v

unfoldable pub extract_at_path : List Segment → Json → Option Json
unfolding collect from_value
extract_at_path [] j = some j
extract_at_path (seg ∷ rest) (obj fs) = do
  v ← get fs seg.key
  from_value (extract_at_path rest) seg.wildcard (is_empty rest) v
extract_at_path (seg ∷ rest) j = none
