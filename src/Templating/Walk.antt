-- ===== src/Templating/Walk.antt =====
-- templating.go: the walk through a decoded body, which `walkJSON` and `walkJSONWithCoercion` share,
-- and the coercions.
use httptape.Prelude.{
  Text, codes, Bool, true, false, Option, none, some, [], ◌∷◌, strip_prefix, ◌==◌, text_eq,
  if◌then◌else◌, any,
}
use httptape.Json.{Json, null, bool, num, str, arr, obj, Items, nil, cons, Fields, end, field}
use httptape.MediaType.{trim_space}
use httptape.Templating.Substitution.{TemplateState, Result, err, ok}

abbrev pub map_result : {A B : Type 0} → (A → B) → Result A → Result B
map_result f (err e) = err e
map_result f (ok a) = ok (f a)

abbrev pub Outcome : Type 0 → Type 0
Outcome A = Result A × TemplateState

-- The walk through a decoded value, which ends at the first error. `leaf` resolves a string. An
-- object is gone through in the order of its entries, which Go leaves open.
unfoldable mutual
  pub walk_json : (Text → TemplateState → Outcome Json) → Json → TemplateState → Outcome Json
  walk_json leaf null st = (ok null, st)
  walk_json leaf (bool b) st = (ok (bool b), st)
  walk_json leaf (num n) st = (ok (num n), st)
  walk_json leaf (str s) st = leaf s st
  walk_json leaf (arr vs) st = let (r, st') = walk_items leaf vs st in (map_result arr r, st')
  walk_json leaf (obj fs) st = let (r, st') = walk_fields leaf fs st in (map_result obj r, st')

  pub walk_items : (Text → TemplateState → Outcome Json) → Items → TemplateState → Outcome Items
  walk_items leaf nil st = (ok nil, st)
  walk_items leaf (cons v vs) st =
      let (r, st') = walk_json leaf v st in
      elim r [
        | err e ↦ (err e, st')
        | ok w ↦ let (rs, st'') = walk_items leaf vs st' in (map_result (cons w) rs, st'')
      ]

  pub walk_fields : (Text → TemplateState → Outcome Json) → Fields → TemplateState → Outcome Fields
  walk_fields leaf end st = (ok end, st)
  walk_fields leaf (field k v fs) st =
      let (r, st') = walk_json leaf v st in
      elim r [
        | err e ↦ (err e, st')
        | ok w ↦ let (rs, st'') = walk_fields leaf fs st' in (map_result (field k w) rs, st'')
      ]

pub data Coercion : Type 0 where
  to_int to_float to_bool : Coercion

-- strings.LastIndex(raw, " | "), with what stands before and behind
unfoldable pub cut_last : Text → Option (Text × Text)
cut_last [] = none
cut_last (c ∷ s) = elim (cut_last s) [
  | some (left, right) ↦ some (c ∷ left, right)
  | none ↦ elim (strip_prefix (codes " | ") (c ∷ s)) [ none ↦ none | some right ↦ some ([], right) ]
]

abbrev coercion_of : Text → Option Coercion
coercion_of candidate =
    if candidate == codes "int"
    then some to_int
    else if candidate == codes "float"
    then some to_float
    else if candidate == codes "bool"
    then some to_bool
    else none

abbrev with_coercion : Text → Text → Option Coercion → Text × Option Coercion
with_coercion raw left none = (raw, none)
with_coercion raw left (some coercion) = (trim_space left, some coercion)

unfoldable pub parse_coercion : Text → Text × Option Coercion
unfolding cut_last
parse_coercion raw = elim (cut_last raw) [
  | none ↦ (raw, none)
  | some (left, right) ↦ with_coercion raw left (coercion_of (trim_space right))
]

-- strconv.ParseBool
unfoldable pub parse_bool : Text → Option Bool
parse_bool s =
    if any (λ t. s == codes t) ("1" ∷ "t" ∷ "T" ∷ "true" ∷ "TRUE" ∷ "True" ∷ [])
    then some true
    else if any (λ t. s == codes t) ("0" ∷ "f" ∷ "F" ∷ "false" ∷ "FALSE" ∷ "False" ∷ [])
    then some false
    else none
