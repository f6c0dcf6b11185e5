-- ===== src/Diff/Differences.antt =====
-- What differs between two JSON values, said of the values and not of the comparison.
use httptape.Prelude.{
  ℕ, zero, suc, ◌≡◌, ◌≢◌, ◌↔◌, ◌⊎◌, refl, Text, Bool, true, false, Option, none, some, List, [],
  ◌∷◌, ◌++◌, ◌==◌, text_eq, eq_iff, Bool-cases, inl, inr,
}
use httptape.Float.{float_equal}
use httptape.Json.{Json, null, bool, num, str, arr, obj, Items, nil, cons, Fields, get, json_equal}
use httptape.JsonPath.{Segment}
use httptape.Diff.{
  PathSegment, key_segment, index_segment, BodyFieldDiff, FieldChangeKind, field_added,
  field_removed, field_changed, format_path,
}
use httptape.Diff.Paths.{IsIgnored}

-- values of different types, or two scalars that are not equal
abbrev pub Apart : Json → Json → Type 0
Apart null null = ⊥
Apart (bool a) (bool b) = a ≢ b
Apart (num a) (num b) = float_equal a b ≡ false
Apart (str a) (str b) = a ≢ b
Apart (arr xs) (arr ys) = ⊥
Apart (obj fs) (obj gs) = ⊥
Apart _ _ = Unit

-- both are objects or both are arrays
abbrev pub NotBoth : Json → Json → Type 0
NotBoth (arr xs) (arr ys) = ⊥
NotBoth (obj fs) (obj gs) = ⊥
NotBoth _ _ = Unit

bool_iff : (a b : Bool) → (json_equal (bool a) (bool b) ≡ false) ↔ (a ≢ b)
unfolding json_equal
bool_iff true true = (λ h. absurd cc, λ h. absurd (h refl))
bool_iff true false = (λ h e. absurd cc, λ h. refl)
bool_iff false true = (λ h e. absurd cc, λ h. refl)
bool_iff false false = (λ h. absurd cc, λ h. absurd (h refl))

pub json_equal_iff : (v w : Json) → NotBoth v w → (json_equal v w ≡ false) ↔ Apart v w
unfolding json_equal
json_equal_iff null null both = (λ h. absurd cc, λ h. absurd h)
json_equal_iff null (bool b) both = (λ h. tt, λ h. refl)
json_equal_iff null (num b) both = (λ h. tt, λ h. refl)
json_equal_iff null (str b) both = (λ h. tt, λ h. refl)
json_equal_iff null (arr b) both = (λ h. tt, λ h. refl)
json_equal_iff null (obj b) both = (λ h. tt, λ h. refl)
json_equal_iff (bool a) null both = (λ h. tt, λ h. refl)
json_equal_iff (bool a) (bool b) both = bool_iff a b
json_equal_iff (bool a) (num b) both = (λ h. tt, λ h. refl)
json_equal_iff (bool a) (str b) both = (λ h. tt, λ h. refl)
json_equal_iff (bool a) (arr b) both = (λ h. tt, λ h. refl)
json_equal_iff (bool a) (obj b) both = (λ h. tt, λ h. refl)
json_equal_iff (num a) null both = (λ h. tt, λ h. refl)
json_equal_iff (num a) (bool b) both = (λ h. tt, λ h. refl)
json_equal_iff (num a) (num b) both = (λ h. h, λ h. h)
json_equal_iff (num a) (str b) both = (λ h. tt, λ h. refl)
json_equal_iff (num a) (arr b) both = (λ h. tt, λ h. refl)
json_equal_iff (num a) (obj b) both = (λ h. tt, λ h. refl)
json_equal_iff (str a) null both = (λ h. tt, λ h. refl)
json_equal_iff (str a) (bool b) both = (λ h. tt, λ h. refl)
json_equal_iff (str a) (num b) both = (λ h. tt, λ h. refl)
json_equal_iff (str a) (str b) both = (
  λ h e. let same = (eq_iff a b).1 e in absurd (cc (same, h)),
  λ h. elim (Bool-cases (a == b)) [ inl e ↦ absurd (h ((eq_iff a b).0 e)) | inr e ↦ e ],
)
json_equal_iff (str a) (arr b) both = (λ h. tt, λ h. refl)
json_equal_iff (str a) (obj b) both = (λ h. tt, λ h. refl)
json_equal_iff (arr a) null both = (λ h. tt, λ h. refl)
json_equal_iff (arr a) (bool b) both = (λ h. tt, λ h. refl)
json_equal_iff (arr a) (num b) both = (λ h. tt, λ h. refl)
json_equal_iff (arr a) (str b) both = (λ h. tt, λ h. refl)
json_equal_iff (arr a) (arr b) both = absurd both
json_equal_iff (arr a) (obj b) both = (λ h. tt, λ h. refl)
json_equal_iff (obj a) null both = (λ h. tt, λ h. refl)
json_equal_iff (obj a) (bool b) both = (λ h. tt, λ h. refl)
json_equal_iff (obj a) (num b) both = (λ h. tt, λ h. refl)
json_equal_iff (obj a) (str b) both = (λ h. tt, λ h. refl)
json_equal_iff (obj a) (arr b) both = (λ h. tt, λ h. refl)
json_equal_iff (obj a) (obj b) both = absurd both

-- the item at an index
abbrev pub item : Items → ℕ → Option Json
item nil j = none
item (cons v vs) zero = some v
item (cons v vs) (suc j) = item vs j

module _ (ignore_paths : List (List Segment)) where
  -- no pattern covers the path, or it is the root
  abbrev pub IsClear : List PathSegment → Type 0
  IsClear path = (path ≡ []) ⊎ (IsIgnored ignore_paths path → ⊥)

  abbrev pub difference : FieldChangeKind → Json → Json → List PathSegment → BodyFieldDiff
  difference kind old new path = record {
    path = format_path path;
    kind = kind;
    old_value = old;
    new_value = new;
  }

  -- `d` is a difference of the values that two bodies have at a path, if any, or of values below them. It is named with the
  -- path at which it is, which no pattern covers, and neither does one cover a path on the way.
  pub data Difference : List PathSegment → Option Json → Option Json → BodyFieldDiff → Type 0 where
    removed :
        (path : List PathSegment) (v : Json)
        → IsClear path
        → Difference path (some v) none (difference field_removed v null path)
    added :
        (path : List PathSegment) (w : Json)
        → IsClear path
        → Difference path none (some w) (difference field_added null w path)
    changed :
        (path : List PathSegment) (v w : Json)
        → IsClear path
        → Apart v w
        → Difference path (some v) (some w) (difference field_changed v w path)
    below_key :
        (path : List PathSegment) (fs gs : Fields) (key : Text) (d : BodyFieldDiff)
        → IsClear path
        → Difference (path ++ key_segment key ∷ []) (get fs key) (get gs key) d
        → Difference path (some (obj fs)) (some (obj gs)) d
    below_index :
        (path : List PathSegment) (xs ys : Items) (i : ℕ) (d : BodyFieldDiff)
        → IsClear path
        → Difference (path ++ index_segment i ∷ []) (item xs i) (item ys i) d
        → Difference path (some (arr xs)) (some (arr ys)) d
