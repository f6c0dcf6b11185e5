-- ===== src/Diff/Same.antt =====
-- A body has no difference from itself.
use httptape.Prelude.{
  ℕ, suc, ◌≡◌, refl, Text, true, false, some, List, [], ◌∷◌, ◌++◌, ◌==◌, text_eq, eq_refl, arith,
  Bool-cases, inl, inr,
}
use httptape.Float.{is_nan, float_equal}
use httptape.Json.{
  Json, null, bool, num, str, arr, obj, Items, nil, cons, Fields, end, field, get, json_equal,
}
use httptape.JsonPath.{Segment}
use httptape.Platform.{Platform}
use httptape.Diff.{
  PathSegment, key_segment, index_segment, BodyFieldDiff, compare_key, unless_ignored, compare_keys,
  added_items, unless_root_ignored, compare_json, children, compare_items, sorted_keys,
  diff_json_bodies,
}

-- A value with no NaN in it: the decoder makes no other.
unfoldable mutual
  pub IsFinite : Json → Type 0
  IsFinite (num n) = is_nan n ≡ false
  IsFinite (arr xs) = AllFinite xs
  IsFinite (obj fs) = FieldsFinite fs
  IsFinite _ = Unit

  pub AllFinite : Items → Type 0
  AllFinite nil = Unit
  AllFinite (cons v vs) = IsFinite v × AllFinite vs

  pub FieldsFinite : Fields → Type 0
  FieldsFinite end = Unit
  FieldsFinite (field k v fs) = IsFinite v × FieldsFinite fs

module _ (ignore_paths : List (List Segment)) where
  root_nothing :
      (path : List PathSegment) (diffs : List BodyFieldDiff)
      → diffs ≡ []
      → unless_root_ignored ignore_paths path diffs ≡ []
  root_nothing path diffs e = rw e (ground arith)

  child_nothing :
      (path : List PathSegment) (diffs : List BodyFieldDiff)
      → diffs ≡ []
      → unless_ignored ignore_paths path diffs ≡ []
  child_nothing path diffs e = rw e (ground arith)

  keys_nothing :
      (keys : List Text) (fs : Fields) (path : List PathSegment)
      → ((key : Text) (child : List PathSegment)
          → compare_key ignore_paths (get fs key) (get fs key) (children ignore_paths fs key) child
            ≡ [])
      → compare_keys ignore_paths keys fs fs (children ignore_paths fs) path ≡ []
  unfolding compare_keys
  keys_nothing [] fs path h = refl
  keys_nothing (key ∷ keys) fs path h =
      rw (child_nothing (path ++ key_segment key ∷ []) _ (h key (path ++ key_segment key ∷ [])))
        (keys_nothing keys fs path h)

  float_refl : (n : ℕ) → is_nan n ≡ false → float_equal n n ≡ true
  unfolding float_equal
  float_refl n h = rw h (ground arith)

  mutual
    unfolding IsFinite compare_json children compare_items get added_items json_equal

    json_self :
        (v : Json) (path : List PathSegment) → IsFinite v → compare_json ignore_paths v v path ≡ []
    json_self null path h = root_nothing path _ refl
    json_self (bool b) path h = root_nothing path _ (ground arith)
    json_self (num n) path h = root_nothing path _ (rw (float_refl n h) refl)
    json_self (str s) path h = root_nothing path _ (rw (eq_refl s) refl)
    json_self (arr xs) path h = root_nothing path _ (items_self 0 xs path h)
    json_self (obj fs) path h =
        root_nothing path _
          (keys_nothing (sorted_keys fs fs) fs path (λ key child. fields_self fs key child h))

    items_self :
        (i : ℕ) (xs : Items) (path : List PathSegment)
        → AllFinite xs
        → compare_items ignore_paths i xs xs path ≡ []
    items_self i nil path h = refl
    items_self i (cons v vs) path h =
        rw
          (child_nothing (path ++ index_segment i ∷ []) _
            (json_self v (path ++ index_segment i ∷ []) h.0))
          (items_self (suc i) vs path h.1)

    fields_self :
        (fs : Fields) (key : Text) (child : List PathSegment)
        → FieldsFinite fs
        → compare_key ignore_paths (get fs key) (get fs key) (children ignore_paths fs key) child
          ≡ []
    fields_self end key child h = refl
    fields_self (field k v fs) key child h = elim (Bool-cases (k == key)) [
      | inl e ↦ rw e (json_self v child h.0)
      | inr e ↦ rw e (fields_self fs key child h.1)
    ]

  -- A body whose value has no NaN has no difference from itself, whatever is ignored.
  pub diff_json_bodies_self :
      (pf : Platform) (body : Text) (v : Json)
      → pf.unmarshal body ≡ some v
      → IsFinite v
      → diff_json_bodies ignore_paths pf body body ≡ []
  unfolding diff_json_bodies
  diff_json_bodies_self pf body v e h = rw e (json_self v [] h)
