-- ===== src/Diff.antt =====
-- diff.go: the differences of two JSON bodies.
pub mod Same
pub mod Paths
pub mod Differences
pub mod Soundness
pub mod Keys
pub mod Completeness
pub mod Verdicts
pub mod Report
pub mod Headers
pub mod Reports
use httptape.Prelude.{
  ℕ, suc, ◌+◌, Text, codes, Bool, true, false, not, ◌&&◌, ◌||◌, Option, none, some, List, [], ◌∷◌,
  ◌++◌, any, is_empty, ltb, nat_beq, if◌then◌else◌, ◌==◌, text_eq,
}
use httptape.Json.{
  Json, null, bool, num, str, arr, obj, Items, nil, cons, Fields, end, field, get, json_equal,
}
use httptape.JsonPath.{Segment}
use httptape.Platform.{Platform}
use httptape.Decimal.{decimal}

pub data PathSegment : Type 0 where
  key_segment : Text → PathSegment
  index_segment : ℕ → PathSegment

pub data FieldChangeKind : Type 0 where
  field_added field_removed field_changed : FieldChangeKind

-- a nil value is null
pub record BodyFieldDiff : Type 0 where
  pub path : Text
  pub kind : FieldChangeKind
  pub old_value : Json
  pub new_value : Json

abbrev pub segment_text : PathSegment → Text
segment_text (key_segment key) = key
segment_text (index_segment index) = decimal index

abbrev format_segments : List PathSegment → Text
format_segments [] = []
format_segments (seg ∷ segs) = b'.' ∷ segment_text seg ++ format_segments segs

unfoldable pub format_path : List PathSegment → Text
format_path segs = b'$' ∷ format_segments segs

unfoldable pub matches_ignore_path :
    (concrete : List PathSegment) → (pattern_in : List Segment) → Bool
matches_ignore_path [] [] = true
matches_ignore_path [] (ps ∷ pattern_in) = false
matches_ignore_path (cs ∷ concrete) [] = false
matches_ignore_path (index_segment i ∷ concrete) (ps ∷ pattern_in) = false
matches_ignore_path (key_segment key ∷ []) (ps ∷ pattern_in) =
    key == ps.key && not ps.wildcard && is_empty pattern_in
matches_ignore_path (key_segment key ∷ key_segment next ∷ concrete) (ps ∷ pattern_in) =
    let rest = matches_ignore_path (key_segment next ∷ concrete) pattern_in in
    key == ps.key && not ps.wildcard && rest
matches_ignore_path (key_segment key ∷ index_segment i ∷ concrete) (ps ∷ pattern_in) =
    let below = matches_ignore_path concrete pattern_in in
    let rest = matches_ignore_path (index_segment i ∷ concrete) pattern_in in
    key == ps.key && (if ps.wildcard then below else rest)

-- the order of Go strings
unfoldable pub text_less : Text → Text → Bool
text_less s [] = false
text_less [] (d ∷ t) = true
text_less (c ∷ s) (d ∷ t) = ltb c d || (nat_beq c d && text_less s t)

-- a set of keys, kept sorted
unfoldable pub insert_key : Text → List Text → List Text
insert_key key [] = key ∷ []
insert_key key (k ∷ ks) =
    let deeper = insert_key key ks in
    if key == k then k ∷ ks else if text_less key k then key ∷ k ∷ ks else k ∷ deeper

abbrev pub add_keys : Fields → List Text → List Text
add_keys end keys = keys
add_keys (field k v fs) keys = add_keys fs (insert_key k keys)

unfoldable pub sorted_keys : Fields → Fields → List Text
unfolding insert_key
sorted_keys fixture live = add_keys live (add_keys fixture [])

abbrev pub Compare : Type 0
Compare = Json → List PathSegment → List BodyFieldDiff

module _ (ignore_paths : List (List Segment)) where
  unfoldable pub is_ignored : List PathSegment → Bool
  unfolding matches_ignore_path
  is_ignored concrete_path = any (matches_ignore_path concrete_path) ignore_paths

  abbrev pub report : FieldChangeKind → Json → Json → List PathSegment → List BodyFieldDiff
  report kind old new path =
      record { path = format_path path; kind = kind; old_value = old; new_value = new } ∷ []

  -- the three cases of a key; `child` compares the fixture's value
  abbrev pub compare_key :
      Option Json → Option Json → Option Compare → List PathSegment → List BodyFieldDiff
  compare_key (some v) none child path = report field_removed v null path
  compare_key none (some w) child path = report field_added null w path
  compare_key (some v) (some w) (some child) path = child w path
  compare_key _ _ _ path = []

  abbrev pub unless_ignored : List PathSegment → List BodyFieldDiff → List BodyFieldDiff
  unless_ignored path diffs = if is_ignored path then [] else diffs

  -- the loop of `compareObjects` over the sorted keys
  unfoldable pub compare_keys :
      List Text
      → (fixture live : Fields) → (Text → Option Compare)
      → List PathSegment
      → List BodyFieldDiff
  unfolding is_ignored
  compare_keys [] fixture live children path = []
  compare_keys (key ∷ keys) fixture live children path =
      let child_path = path ++ key_segment key ∷ [] in
      unless_ignored child_path
        (compare_key (get fixture key) (get live key) (children key) child_path)
      ++ compare_keys keys fixture live children path

  -- the items that the live array has beyond the fixture's
  unfoldable pub added_items : ℕ → Items → List PathSegment → List BodyFieldDiff
  unfolding is_ignored
  added_items i nil path = []
  added_items i (cons w ws) path =
      let child_path = path ++ index_segment i ∷ [] in
      unless_ignored child_path (report field_added null w child_path)
      ++ added_items (suc i) ws path

  abbrev pub unless_root_ignored : List PathSegment → List BodyFieldDiff → List BodyFieldDiff
  unless_root_ignored path diffs = if not (is_empty path) && is_ignored path then [] else diffs

  abbrev pub compare_scalars : Json → Compare
  compare_scalars fixture live path =
      if json_equal fixture live then [] else report field_changed fixture live path

  unfoldable mutual
    pub compare_json : Json → Compare
    compare_json (obj fs) (obj gs) path =
        unless_root_ignored path (compare_keys (sorted_keys fs gs) fs gs (children fs) path)
    compare_json (arr xs) (arr ys) path = unless_root_ignored path (compare_items 0 xs ys path)
    compare_json fixture live path = unless_root_ignored path (compare_scalars fixture live path)

    pub children : Fields → Text → Option Compare
    children end key = none
    children (field k v fs) key = if k == key then some (compare_json v) else children fs key

    pub compare_items : ℕ → Items → Items → List PathSegment → List BodyFieldDiff
    compare_items i nil ys path = added_items i ys path
    compare_items i (cons v vs) nil path =
        let child_path = path ++ index_segment i ∷ [] in
        unless_ignored child_path (report field_removed v null child_path)
        ++ compare_items (suc i) vs nil path
    compare_items i (cons v vs) (cons w ws) path =
        let child_path = path ++ index_segment i ∷ [] in
        unless_ignored child_path (compare_json v w child_path) ++ compare_items (suc i) vs ws path

  abbrev pub compare_decoded : Option Json → Option Json → List BodyFieldDiff
  compare_decoded (some a) (some b) = compare_json a b []
  compare_decoded _ _ = []

  unfoldable pub diff_json_bodies : Platform → (fixture_body live_body : Text) → List BodyFieldDiff
  diff_json_bodies pf fixture_body live_body =
      compare_decoded (pf.unmarshal fixture_body) (pf.unmarshal live_body)
