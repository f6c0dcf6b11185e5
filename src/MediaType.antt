-- ===== src/MediaType.antt =====
-- media_type.go: media types, the parsing of an Accept header, and range matching.
pub mod Order
pub mod Trim
-- The texts that `TrimSpace` and `EqualFold` see here are ASCII.
use httptape.Prelude.{
  ℕ, ◌+◌, Text, codes, Bool, true, false, not, ◌&&◌, ◌||◌, Option, none, some, List, [], ◌∷◌, map,
  is_empty, cut, split_at, leb, nat_beq, ltb, ◌==◌, text_eq, if◌then◌else◌, ◌>>=◌,
}
use mathlib.Core.List.{reverse}
use httptape.Float.{float_less, float_equal, float_one}
use httptape.Platform.{Platform}

pub record MediaType : Type 0 where
  pub kind : Text
  pub subtype : Text
  pub suffix : Text
  pub params : List (Text × Text)
  pub q_value : ℕ

is_space : ℕ → Bool
is_space c = (leb 9 c && leb c 13) || nat_beq c b' '

drop_spaces : Text → Text
drop_spaces [] = []
drop_spaces (c ∷ s) = let rest = drop_spaces s in if is_space c then rest else c ∷ s

-- strings.TrimSpace
unfoldable pub trim_space : Text → Text
unfolding is_space drop_spaces
trim_space s = reverse (drop_spaces (reverse (drop_spaces s)))

unfoldable pub lower : ℕ → ℕ
lower c = if leb b'A' c && leb c b'Z' then c + 32 else c

-- strings.EqualFold
unfoldable pub equal_fold : Text → Text → Bool
unfolding lower
equal_fold s t = map lower s == map lower t

-- what stands behind the last `+`, empty if there is none
suffix_of : Text → Text → Text
suffix_of found [] = found
suffix_of found (c ∷ s) = suffix_of (if nat_beq c b'+' then s else found) s

module _ (pf : Platform) where
  clamp : ℕ → ℕ
  clamp q = if float_less q 0 then 0 else if float_less float_one q then float_one else q

  read_q : Option ℕ → ℕ → ℕ
  read_q none q = q
  read_q (some parsed) q = clamp parsed

  -- the loop over the parameters: the q-value is taken out, the others are kept
  split_params : ℕ → List (Text × Text) → ℕ × List (Text × Text)
  unfolding clamp read_q
  split_params q [] = (q, [])
  split_params q ((k, v) ∷ params) =
      let is_q = equal_fold k (codes "q") in
      let (q', kept) = split_params (if is_q then read_q (pf.parse_float v) q else q) params in
      (q', if is_q then kept else (k, v) ∷ kept)

  unfoldable pub parse_media_type : Text → Option MediaType
  unfolding split_params suffix_of
  parse_media_type s = do
    parsed ← if is_empty (trim_space s) then none else pf.parse_mime (trim_space s)
    parts ← cut b'/' parsed.0
    let split = split_params float_one parsed.1
    some (record {
      kind = parts.0;
      subtype = parts.1;
      suffix = suffix_of [] parts.1;
      params = split.1;
      q_value = split.0;
    })

abbrev pub any_type : MediaType
any_type = record {
  kind = codes "*";
  subtype = codes "*";
  suffix = [];
  params = [];
  q_value = float_one;
}

abbrev pub star : Text
star = codes "*"

unfoldable pub specificity : MediaType → ℕ
specificity mt =
    if mt.kind == star && mt.subtype == star then 1 else if mt.subtype == star then 2 else 3

-- `less` of the sort in `ParseAccept`
unfoldable pub precedes : MediaType → MediaType → Bool
precedes a b =
    if not (float_equal a.q_value b.q_value)
    then float_less b.q_value a.q_value
    else ltb (specificity b) (specificity a)

-- one round of insertion: the sorted part stands reversed, and `x` goes in from its end
unfoldable pub insert_back : MediaType → List MediaType → List MediaType
insert_back x [] = x ∷ []
insert_back x (y ∷ ys) =
    let deeper = insert_back x ys in if precedes x y then y ∷ deeper else x ∷ y ∷ ys

unfoldable pub sort_back : List MediaType → List MediaType → List MediaType
unfolding insert_back
sort_back sorted [] = sorted
sort_back sorted (x ∷ xs) = sort_back (insert_back x sorted) xs

-- sort.SliceStable
unfoldable pub sort_stable : List MediaType → List MediaType
unfolding sort_back
sort_stable xs = reverse (sort_back [] xs)

module _ (pf : Platform) where
  -- the loop over the parts of the header; an empty part is malformed too
  unfoldable pub parse_ranges : List Text → List MediaType
  parse_ranges [] = []
  parse_ranges (part ∷ parts) = elim (parse_media_type pf part) [
    | none ↦ parse_ranges parts
    | some mt ↦ mt ∷ parse_ranges parts
  ]

  unfoldable pub parse_accept : Text → List MediaType
  unfolding parse_ranges
  parse_accept accept =
      let result = parse_ranges (split_at b',' (trim_space accept)) in
      if is_empty (trim_space accept)
      then any_type ∷ []
      else if is_empty result
      then any_type ∷ []
      else sort_stable result

unfoldable pub is_json : MediaType → Bool
is_json mt =
    (mt.kind == codes "application" && mt.subtype == codes "json") || mt.suffix == codes "json"

unfoldable pub is_text : MediaType → Bool
is_text mt =
    if is_json mt
    then false
    else if mt.kind == codes "text"
    then true
    else if mt.kind == codes "application"
        && (mt.subtype == codes "xml"
            || mt.subtype == codes "javascript"
            || mt.subtype == codes "x-www-form-urlencoded")
    then true
    else mt.suffix == codes "xml"

unfoldable pub is_binary : MediaType → Bool
is_binary mt = not (is_json mt) && not (is_text mt)

unfoldable pub matches_media_range : (accept content_type : MediaType) → Bool
matches_media_range accept content_type =
    if accept.kind == star && accept.subtype == star
    then true
    else if not (equal_fold accept.kind content_type.kind)
    then false
    else if accept.subtype == star
    then true
    else equal_fold accept.subtype content_type.subtype
