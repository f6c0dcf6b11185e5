-- ===== src/Diff/Soundness.antt =====
-- Each reported difference is one of the values.
use httptape.Prelude.{
  ℕ, suc, ◌+◌, ◌≡◌, Text, false, not, ◌&&◌, Option, none, some, List, [], ◌∷◌, ◌++◌, All,
  All-append, All-imp, is_empty, arith, ◌==◌, text_eq, Bool-cases, inl, inr,
}
use mathlib.Core.Path.{subst}
use httptape.Json.{
  Json, null, bool, num, str, arr, obj, Items, nil, cons, Fields, end, field, get, json_equal,
}
use httptape.JsonPath.{Segment}
use httptape.Diff.{
  PathSegment, key_segment, index_segment, BodyFieldDiff, is_ignored, compare_key, unless_ignored,
  compare_keys, added_items, unless_root_ignored, compare_scalars, compare_json, children,
  compare_items, sorted_keys, Compare,
}
use httptape.Diff.Paths.{is_ignored_iff}
use httptape.Diff.Differences.{
  NotBoth, json_equal_iff, item, IsClear, Difference, removed, added, changed, below_key,
  below_index,
}

module _ (ignore_paths : List (List Segment)) where
  not_ignored-IsClear :
      (path : List PathSegment) → is_ignored ignore_paths path ≡ false → IsClear ignore_paths path
  not_ignored-IsClear path e =
      inr (λ h. let e' = (is_ignored_iff ignore_paths path).1 h in absurd (cc (e, e')))

  root_all :
      (P : BodyFieldDiff → Type 0) (path : List PathSegment) (diffs : List BodyFieldDiff)
      → All P diffs
      → All P (unless_root_ignored ignore_paths path diffs)
  root_all P path diffs h =
      elim (Bool-cases (not (is_empty path) && is_ignored ignore_paths path)) [
        | inl e ↦ rw e tt
        | inr e ↦ rw e h
      ]

  child_all :
      (P : BodyFieldDiff → Type 0) (path : List PathSegment) (diffs : List BodyFieldDiff)
      → (IsClear ignore_paths path → All P diffs)
      → All P (unless_ignored ignore_paths path diffs)
  child_all P path diffs h = elim (Bool-cases (is_ignored ignore_paths path)) [
    | inl e ↦ rw e tt
    | inr e ↦ rw e (h (not_ignored-IsClear path e))
  ]

  scalars_sound :
      (v w : Json) (path : List PathSegment)
      → NotBoth v w
      → IsClear ignore_paths path
      → All
          (Difference ignore_paths path (some v) (some w))
          (unless_root_ignored ignore_paths path (compare_scalars ignore_paths v w path))
  scalars_sound v w path plain c =
      root_all (Difference ignore_paths path (some v) (some w)) path _
        (elim (Bool-cases (json_equal v w)) [
          | inl e ↦ rw e tt
          | inr e ↦ rw e (changed path v w c ((json_equal_iff v w plain).0 e), tt)
        ])

  -- a comparison of a value that reports its differences only
  abbrev IsSound : Option Json → Option Compare → Type 0
  IsSound (some v) (some child) =
      (w : Json) (path : List PathSegment)
      → IsClear ignore_paths path
      → All (Difference ignore_paths path (some v) (some w)) (child w path)
  IsSound v child = Unit

  none_sound : (o : Option Json) → IsSound o none
  none_sound none = tt
  none_sound (some v) = tt

  key_sound :
      (old new : Option Json) (child : Option Compare) (path : List PathSegment)
      → IsSound old child
      → IsClear ignore_paths path
      → All (Difference ignore_paths path old new) (compare_key ignore_paths old new child path)
  key_sound (some v) none child path h c = (removed path v c, tt)
  key_sound none (some w) child path h c = (added path w c, tt)
  key_sound (some v) (some w) (some child) path h c = h w path c
  key_sound (some v) (some w) none path h c = tt
  key_sound none none child path h c = tt

  keys_sound :
      (keys : List Text) (fs gs : Fields) (path : List PathSegment)
      → IsClear ignore_paths path
      → ((key : Text) → IsSound (get fs key) (children ignore_paths fs key))
      → All
          (Difference ignore_paths path (some (obj fs)) (some (obj gs)))
          (compare_keys ignore_paths keys fs gs (children ignore_paths fs) path)
  unfolding compare_keys
  keys_sound [] fs gs path c h = tt
  keys_sound (key ∷ keys) fs gs path c h =
      let at = path ++ key_segment key ∷ [] in
      All-append (Difference ignore_paths path (some (obj fs)) (some (obj gs))) _ _
        (child_all _ at _ (λ k.
          All-imp (Difference ignore_paths at (get fs key) (get gs key))
            (Difference ignore_paths path (some (obj fs)) (some (obj gs))) _
            (λ d e. below_key path fs gs key d c e)
            (key_sound (get fs key) (get gs key) (children ignore_paths fs key) at (h key) k)))
        (keys_sound keys fs gs path c h)

  -- a difference of two items behind the index `i`
  abbrev AtItem : ℕ → Items → Items → List PathSegment → BodyFieldDiff → Type 0
  AtItem i xs ys path d =
      (j k : ℕ) × (k ≡ i + j)
      × Difference ignore_paths (path ++ index_segment k ∷ []) (item xs j) (item ys j) d

  at_item :
      (path : List PathSegment) (xs ys : Items) (d : BodyFieldDiff)
      → IsClear ignore_paths path
      → AtItem 0 xs ys path d
      → Difference ignore_paths path (some (arr xs)) (some (arr ys)) d
  at_item path xs ys d c (j, k, e, h) =
      let same : k ≡ j = omega (arith, e) in
      below_index path xs ys j d c (
        subst
          (λ n. Difference ignore_paths (path ++ index_segment n ∷ []) (item xs j) (item ys j) d)
          same h)

  added_sound :
      (i : ℕ) (ys : Items) (path : List PathSegment)
      → All (AtItem i nil ys path) (added_items ignore_paths i ys path)
  unfolding added_items
  added_sound i nil path = tt
  added_sound i (cons w ws) path =
      All-append (AtItem i nil (cons w ws) path) _ _
        (child_all (AtItem i nil (cons w ws) path) (path ++ index_segment i ∷ []) _
          (λ k. ((0, i, omega arith, added (path ++ index_segment i ∷ []) w k), tt)))
        (All-imp (AtItem (suc i) nil ws path) (AtItem i nil (cons w ws) path) _
          (λ d (j, k, e, h). (suc j, k, omega (arith, e), h)) (added_sound (suc i) ws path))

  mutual
    unfolding compare_json children compare_items get

    pub json_sound :
        (v w : Json) (path : List PathSegment)
        → IsClear ignore_paths path
        → All (Difference ignore_paths path (some v) (some w)) (compare_json ignore_paths v w path)
    json_sound null null path c = scalars_sound null null path tt c
    json_sound null (bool b) path c = scalars_sound null (bool b) path tt c
    json_sound null (num b) path c = scalars_sound null (num b) path tt c
    json_sound null (str b) path c = scalars_sound null (str b) path tt c
    json_sound null (arr b) path c = scalars_sound null (arr b) path tt c
    json_sound null (obj b) path c = scalars_sound null (obj b) path tt c
    json_sound (bool a) null path c = scalars_sound (bool a) null path tt c
    json_sound (bool a) (bool b) path c = scalars_sound (bool a) (bool b) path tt c
    json_sound (bool a) (num b) path c = scalars_sound (bool a) (num b) path tt c
    json_sound (bool a) (str b) path c = scalars_sound (bool a) (str b) path tt c
    json_sound (bool a) (arr b) path c = scalars_sound (bool a) (arr b) path tt c
    json_sound (bool a) (obj b) path c = scalars_sound (bool a) (obj b) path tt c
    json_sound (num a) null path c = scalars_sound (num a) null path tt c
    json_sound (num a) (bool b) path c = scalars_sound (num a) (bool b) path tt c
    json_sound (num a) (num b) path c = scalars_sound (num a) (num b) path tt c
    json_sound (num a) (str b) path c = scalars_sound (num a) (str b) path tt c
    json_sound (num a) (arr b) path c = scalars_sound (num a) (arr b) path tt c
    json_sound (num a) (obj b) path c = scalars_sound (num a) (obj b) path tt c
    json_sound (str a) null path c = scalars_sound (str a) null path tt c
    json_sound (str a) (bool b) path c = scalars_sound (str a) (bool b) path tt c
    json_sound (str a) (num b) path c = scalars_sound (str a) (num b) path tt c
    json_sound (str a) (str b) path c = scalars_sound (str a) (str b) path tt c
    json_sound (str a) (arr b) path c = scalars_sound (str a) (arr b) path tt c
    json_sound (str a) (obj b) path c = scalars_sound (str a) (obj b) path tt c
    json_sound (arr a) null path c = scalars_sound (arr a) null path tt c
    json_sound (arr a) (bool b) path c = scalars_sound (arr a) (bool b) path tt c
    json_sound (arr a) (num b) path c = scalars_sound (arr a) (num b) path tt c
    json_sound (arr a) (str b) path c = scalars_sound (arr a) (str b) path tt c
    json_sound (arr a) (arr b) path c =
        root_all (Difference ignore_paths path (some (arr a)) (some (arr b))) path _ (
          All-imp (AtItem 0 a b path) (Difference ignore_paths path (some (arr a)) (some (arr b))) _
            (λ d h. at_item path a b d c h) (items_sound 0 a b path))
    json_sound (arr a) (obj b) path c = scalars_sound (arr a) (obj b) path tt c
    json_sound (obj a) null path c = scalars_sound (obj a) null path tt c
    json_sound (obj a) (bool b) path c = scalars_sound (obj a) (bool b) path tt c
    json_sound (obj a) (num b) path c = scalars_sound (obj a) (num b) path tt c
    json_sound (obj a) (str b) path c = scalars_sound (obj a) (str b) path tt c
    json_sound (obj a) (arr b) path c = scalars_sound (obj a) (arr b) path tt c
    json_sound (obj a) (obj b) path c =
        root_all (Difference ignore_paths path (some (obj a)) (some (obj b))) path _
          (keys_sound (sorted_keys a b) a b path c (fields_sound a))

    items_sound :
        (i : ℕ) (xs ys : Items) (path : List PathSegment)
        → All (AtItem i xs ys path) (compare_items ignore_paths i xs ys path)
    items_sound i nil ys path = added_sound i ys path
    items_sound i (cons v vs) nil path =
        All-append (AtItem i (cons v vs) nil path) _ _
          (child_all (AtItem i (cons v vs) nil path) (path ++ index_segment i ∷ []) _
            (λ k. ((0, i, omega arith, removed (path ++ index_segment i ∷ []) v k), tt)))
          (All-imp (AtItem (suc i) vs nil path) (AtItem i (cons v vs) nil path) _
            (λ d (j, k, e, h). (suc j, k, omega (arith, e), h)) (items_sound (suc i) vs nil path))
    items_sound i (cons v vs) (cons w ws) path =
        let at = path ++ index_segment i ∷ [] in
        All-append (AtItem i (cons v vs) (cons w ws) path) _ _
          (child_all (AtItem i (cons v vs) (cons w ws) path) at _ (λ k.
            All-imp (Difference ignore_paths at (some v) (some w))
              (AtItem i (cons v vs) (cons w ws) path) _ (λ d h. (0, i, omega arith, h))
              (json_sound v w at k)))
          (All-imp (AtItem (suc i) vs ws path) (AtItem i (cons v vs) (cons w ws) path) _
            (λ d (j, k, e, h). (suc j, k, omega (arith, e), h)) (items_sound (suc i) vs ws path))

    fields_sound : (fs : Fields) (key : Text) → IsSound (get fs key) (children ignore_paths fs key)
    fields_sound end key = none_sound (get end key)
    fields_sound (field k v fs) key = elim (Bool-cases (k == key)) [
      | inl e ↦ rw e (λ w path c. json_sound v w path c)
      | inr e ↦ rw e (fields_sound fs key)
    ]
