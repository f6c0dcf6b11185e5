-- ===== src/PathPattern.antt =====
-- matcher.go: Express-style path patterns, compiled to regular expressions.
use httptape.Prelude.{
  Text, codes, Bool, true, false, Option, none, some, List, [], ◌∷◌, ◌++◌, is_empty, any, join,
  split_at, strip_prefix, ◌==◌, text_eq, if◌then◌else◌, ◌>>=◌, ◌||◌, lookup,
}
use httptape.Platform.{Runtime, Regexp}

pub record PathPattern : Type 0 where
  pub param_names : List Text
  pub re : Regexp

-- c.re.MatchString
abbrev pub matches_path : PathPattern → Text → Bool
matches_path p path = elim (p.re path) [ none ↦ false | some groups ↦ true ]

-- The parts of the regular expression and the names, as far as the loop of `NewPathPatternCriterion`
-- has come.
abbrev Parts : Type 0
Parts = List Text × List Text

abbrev group_of : Text → Text
group_of name = codes "(?P<" ++ (name ++ codes ">[^/]+)")

module _ (rt : Runtime) where
  -- one round; an empty name and one that has been seen are errors
  unfoldable pub add_part : Text → Parts → Option Parts
  add_part part (regex_parts, names) = elim (strip_prefix (codes ":") part) [
    | none ↦ some (regex_parts ++ rt.quote_meta part ∷ [], names)
    | some name ↦
        if is_empty name || any (λ n. n == name) names
        then none
        else some (regex_parts ++ group_of name ∷ [], names ++ name ∷ [])
  ]

  unfoldable pub add_parts : List Text → Parts → Option Parts
  unfolding add_part
  add_parts [] built = some built
  add_parts (part ∷ parts) built = do built' ← add_part part built; add_parts parts built'

  -- the parts behind the first, which stands before the leading `/` and is empty
  abbrev behind_first : List Text → List Text
  behind_first [] = []
  behind_first (first ∷ parts) = parts

  unfoldable pub new_path_pattern : Text → Option PathPattern
  unfolding add_parts
  new_path_pattern pattern_in = do
    rest ← strip_prefix (codes "/") pattern_in
    built ← add_parts (behind_first (split_at b'/' pattern_in)) ([] ∷ [], [])
    re ← rt.compile (codes "^" ++ (join b'/' built.0 ++ codes "$"))
    some (record { param_names = built.1; re = re })

-- the value of each parameter, matches[c.re.SubexpIndex(name)]
unfoldable pub take_params : List Text → List (Text × Text) → List (Text × Text)
take_params [] groups = []
take_params (name ∷ names) groups =
    let rest = take_params names groups in
    elim (lookup name groups) [ none ↦ rest | some v ↦ (name, v) ∷ rest ]

-- `ExtractParams`; a nil map is `none`
unfoldable pub extract_params : PathPattern → Text → Option (List (Text × Text))
unfolding take_params
extract_params p path = do groups ← p.re path; some (take_params p.param_names groups)
