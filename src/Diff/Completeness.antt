-- ===== src/Diff/Completeness.antt =====
-- Each difference of the values is reported.
use httptape.Prelude.{
  ℕ, zero, suc, ◌+◌, ◌≡◌, ◌≢◌, ◌⊎◌, refl, sym, ◌∙◌, Text, Option, none, List, [], ◌∷◌, ◌++◌, Member,
  arith, ◌==◌, text_eq, map_option, Bool-cases, inl, inr,
}
use mathlib.Core.Path.{subst}
use httptape.Json.{Json, null, bool, num, str, arr, obj, Items, nil, cons, Fields, end, field, get}
use httptape.JsonPath.{Segment}
use httptape.Diff.{
  PathSegment, key_segment, index_segment, BodyFieldDiff, is_ignored, compare_key, unless_ignored,
  compare_keys, added_items, unless_root_ignored, compare_scalars, compare_json, children,
  compare_items, sorted_keys, report, field_added, field_removed,
}
use httptape.Diff.Paths.{is_ignored_iff}
use httptape.Diff.Differences.{
  NotBoth, json_equal_iff, item, IsClear, Difference, removed, added, changed, below_key,
  below_index,
}
use httptape.Diff.Keys.{Member-left, Member-right, snoc-not_empty, key_sorted, Apart-NotBoth}

module _ (ignore_paths : List (List Segment)) where
  clear_kept :
      (path : List PathSegment) (diffs : List BodyFieldDiff)
      → IsClear ignore_paths path
      → unless_root_ignored ignore_paths path diffs ≡ diffs
  clear_kept path diffs (inl root) = rw root refl
  clear_kept path diffs (inr clear) = elim (Bool-cases (is_ignored ignore_paths path)) [
    | inl e ↦ absurd (clear ((is_ignored_iff ignore_paths path).0 e))
    | inr e ↦ ground (arith, e)
  ]

  child_kept :
      (path : List PathSegment) (seg : PathSegment) (diffs : List BodyFieldDiff)
      → IsClear ignore_paths (path ++ seg ∷ [])
      → unless_ignored ignore_paths (path ++ seg ∷ []) diffs ≡ diffs
  child_kept path seg diffs (inl root) = absurd (snoc-not_empty path seg root)
  child_kept path seg diffs (inr clear) =
      elim (Bool-cases (is_ignored ignore_paths (path ++ seg ∷ []))) [
        | inl e ↦ absurd (clear ((is_ignored_iff ignore_paths (path ++ seg ∷ [])).0 e))
        | inr e ↦ rw e refl
      ]

  -- what the comparison reports of two values, each of which may be missing
  abbrev pub compare_at : Option Json → Option Json → List PathSegment → List BodyFieldDiff
  compare_at old new path =
      compare_key ignore_paths old new (map_option (compare_json ignore_paths) old) path

  children-get :
      (fs : Fields) (key : Text)
      → children ignore_paths fs key ≡ map_option (compare_json ignore_paths) (get fs key)
  unfolding children get
  children-get end key = refl
  children-get (field k v fs) key = elim (Bool-cases (k == key)) [
    | inl e ↦ rw (e, children, get) refl
    | inr e ↦ rw (e, children, get) (children-get fs key)
  ]

  Difference-IsClear :
      (path : List PathSegment) (a b : Option Json) (d : BodyFieldDiff)
      → Difference ignore_paths path a b d
      → IsClear ignore_paths path
  Difference-IsClear path a b d (removed p v c) = c
  Difference-IsClear path a b d (added p w c) = c
  Difference-IsClear path a b d (changed p v w c h) = c
  Difference-IsClear path a b d (below_key p fs gs key e c h) = c
  Difference-IsClear path a b d (below_index p xs ys i e c h) = c

  -- something is there that differs
  Difference-present :
      (path : List PathSegment) (a b : Option Json) (d : BodyFieldDiff)
      → Difference ignore_paths path a b d
      → (a ≢ none) ⊎ (b ≢ none)
  Difference-present path a b d (removed p v c) = inl cc
  Difference-present path a b d (added p w c) = inr cc
  Difference-present path a b d (changed p v w c h) = inl cc
  Difference-present path a b d (below_key p fs gs key e c h) = inl cc
  Difference-present path a b d (below_index p xs ys i e c h) = inl cc

  child_has :
      (d : BodyFieldDiff) (path : List PathSegment) (seg : PathSegment) (diffs : List BodyFieldDiff)
      → IsClear ignore_paths (path ++ seg ∷ [])
      → Member d diffs
      → Member d (unless_ignored ignore_paths (path ++ seg ∷ []) diffs)
  child_has d path seg diffs c m = subst (Member d) (sym (child_kept path seg diffs c)) m

  keys_has :
      (d : BodyFieldDiff) (keys : List Text) (fs gs : Fields) (path : List PathSegment) (key : Text)
      → Member key keys
      → IsClear ignore_paths (path ++ key_segment key ∷ [])
      → Member d (compare_at (get fs key) (get gs key) (path ++ key_segment key ∷ []))
      → Member d (compare_keys ignore_paths keys fs gs (children ignore_paths fs) path)
  unfolding compare_keys
  keys_has d [] fs gs path key k c m = absurd k
  keys_has d (x ∷ keys) fs gs path key (inr k) c m =
      Member-right d _ _ (keys_has d keys fs gs path key k c m)
  keys_has d (x ∷ keys) fs gs path key (inl same) c m = Member-left d _ _ (
      subst
        (λ y. Member d (
          unless_ignored ignore_paths (path ++ key_segment y ∷ []) (
            compare_key ignore_paths (get fs y) (get gs y) (children ignore_paths fs y)
              (path ++ key_segment y ∷ []))))
        same
        (child_has d path (key_segment key) _ c (
          subst
            (λ child. Member d (
              compare_key ignore_paths (get fs key) (get gs key) child
                (path ++ key_segment key ∷ [])))
            (sym (children-get fs key)) m)))

  added_has :
      (d : BodyFieldDiff) (j i k : ℕ) (ys : Items) (path : List PathSegment)
      → k ≡ i + j
      → IsClear ignore_paths (path ++ index_segment k ∷ [])
      → Member d (compare_at none (item ys j) (path ++ index_segment k ∷ []))
      → Member d (added_items ignore_paths i ys path)
  unfolding added_items
  added_has d j i k nil path e c m = absurd m
  added_has d zero i k (cons w ws) path e c m =
      let same : k ≡ i = omega (arith, e) in
      Member-left d _ _ (
        subst
          (λ n. Member d (
            unless_ignored ignore_paths (path ++ index_segment n ∷ [])
              (report ignore_paths field_added null w (path ++ index_segment n ∷ []))))
          same (child_has d path (index_segment k) _ c m))
  added_has d (suc j) i k (cons w ws) path e c m =
      Member-right d _ _ (added_has d j (suc i) k ws path (omega (arith, e)) c m)

  items_has :
      (d : BodyFieldDiff) (j i k : ℕ) (xs ys : Items) (path : List PathSegment)
      → k ≡ i + j
      → IsClear ignore_paths (path ++ index_segment k ∷ [])
      → Member d (compare_at (item xs j) (item ys j) (path ++ index_segment k ∷ []))
      → Member d (compare_items ignore_paths i xs ys path)
  unfolding compare_items
  items_has d j i k nil ys path e c m = added_has d j i k ys path e c m
  items_has d zero i k (cons v vs) nil path e c m =
      let same : k ≡ i = omega (arith, e) in
      Member-left d _ _ (
        subst
          (λ n. Member d (
            unless_ignored ignore_paths (path ++ index_segment n ∷ [])
              (report ignore_paths field_removed v null (path ++ index_segment n ∷ []))))
          same (child_has d path (index_segment k) _ c m))
  items_has d (suc j) i k (cons v vs) nil path e c m =
      Member-right d _ _ (items_has d j (suc i) k vs nil path (omega (arith, e)) c m)
  items_has d zero i k (cons v vs) (cons w ws) path e c m =
      let same : k ≡ i = omega (arith, e) in
      Member-left d _ _ (
        subst
          (λ n. Member d (
            unless_ignored ignore_paths (path ++ index_segment n ∷ [])
              (compare_json ignore_paths v w (path ++ index_segment n ∷ []))))
          same (child_has d path (index_segment k) _ c m))
  items_has d (suc j) i k (cons v vs) (cons w ws) path e c m =
      Member-right d _ _ (items_has d j (suc i) k vs ws path (omega (arith, e)) c m)

  compare_plain :
      (v w : Json) (path : List PathSegment)
      → NotBoth v w
      → compare_json ignore_paths v w path
        ≡ unless_root_ignored ignore_paths path (compare_scalars ignore_paths v w path)
  unfolding compare_json
  compare_plain null w path plain = refl
  compare_plain (bool a) w path plain = refl
  compare_plain (num a) w path plain = refl
  compare_plain (str a) w path plain = refl
  compare_plain (arr a) null path plain = refl
  compare_plain (arr a) (bool b) path plain = refl
  compare_plain (arr a) (num b) path plain = refl
  compare_plain (arr a) (str b) path plain = refl
  compare_plain (arr a) (arr b) path plain = absurd plain
  compare_plain (arr a) (obj b) path plain = refl
  compare_plain (obj a) null path plain = refl
  compare_plain (obj a) (bool b) path plain = refl
  compare_plain (obj a) (num b) path plain = refl
  compare_plain (obj a) (str b) path plain = refl
  compare_plain (obj a) (arr b) path plain = refl
  compare_plain (obj a) (obj b) path plain = absurd plain

  pub has :
      (path : List PathSegment) (a b : Option Json) (d : BodyFieldDiff)
      → Difference ignore_paths path a b d
      → Member d (compare_at a b path)
  unfolding compare_json
  has path a b d (removed p v c) = inl refl
  has path a b d (added p w c) = inl refl
  has path a b d (changed p v w c h) =
      let plain = Apart-NotBoth v w h in
      subst (Member d)
        (sym (compare_plain v w p plain ∙ clear_kept p (compare_scalars ignore_paths v w p) c))
        (rw ((json_equal_iff v w plain).1 h) (inl refl))
  has path a b d (below_key p fs gs key e c h) =
      let here : Member key (sorted_keys fs gs) =
        key_sorted key fs gs (Difference-present _ _ _ d h) in
      subst (Member d)
        (sym (
          clear_kept p
            (compare_keys ignore_paths (sorted_keys fs gs) fs gs (children ignore_paths fs) p) c))
        (keys_has d (sorted_keys fs gs) fs gs p key here (Difference-IsClear _ _ _ d h)
          (has _ _ _ d h))
  has path a b d (below_index p xs ys i e c h) =
      subst (Member d) (sym (clear_kept p (compare_items ignore_paths 0 xs ys p) c))
        (items_has d i 0 i xs ys p (omega arith) (Difference-IsClear _ _ _ d h) (has _ _ _ d h))
