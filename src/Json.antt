-- ===== src/Json.antt =====
-- The values that `json.Unmarshal` gives for an `any`, and their comparison in diff.go.
-- A float64 is its 64-bit pattern; a map is a list of entries whose first entry for a key counts.
pub mod Laws
use httptape.Prelude.{
  ℕ, suc, ◌^◌, Text, Bool, true, false, ◌&&◌, ◌||◌, Option, none, some, nat_beq, ◌==◌, text_eq,
  if◌then◌else◌,
}
use httptape.Float.{float_equal}

mutual
  pub data Json : Type 0 where
    null : Json
    bool : Bool → Json
    num : ℕ → Json
    str : Text → Json
    arr : Items → Json
    obj : Fields → Json

  pub data Items : Type 0 where
    nil : Items
    cons : Json → Items → Items

  pub data Fields : Type 0 where
    end : Fields
    field : Text → Json → Fields → Fields

-- obj[key]
unfoldable pub get : Fields → Text → Option Json
get end key = none
get (field k v fs) key = if k == key then some v else get fs key

-- obj[key] = f(obj[key]), where the key exists
unfoldable pub update : (Json → Json) → Text → Fields → Fields
update f key end = end
update f key (field k v fs) = if k == key then field k (f v) fs else field k v (update f key fs)

unfoldable pub map_items : (Json → Json) → Items → Items
map_items f nil = nil
map_items f (cons v vs) = cons (f v) (map_items f vs)

unfoldable pub count_items : Items → ℕ
count_items nil = 0
count_items (cons v vs) = suc (count_items vs)

unfoldable pub count_fields : Fields → ℕ
count_fields end = 0
count_fields (field k v fs) = suc (count_fields fs)

abbrev pub bool_equal : Bool → Bool → Bool
bool_equal true b = b
bool_equal false true = false
bool_equal false false = true

abbrev pub holds_of : (Json → Bool) → Option Json → Bool
holds_of p none = false
holds_of p (some w) = p w

unfoldable mutual
  pub json_equal : Json → Json → Bool
  json_equal null null = true
  json_equal (bool a) (bool b) = bool_equal a b
  json_equal (num a) (num b) = float_equal a b
  json_equal (str a) (str b) = a == b
  json_equal (arr a) (arr b) = nat_beq (count_items a) (count_items b) && items_equal a b
  json_equal (obj a) (obj b) = nat_beq (count_fields a) (count_fields b) && fields_equal a b
  json_equal _ _ = false

  pub items_equal : Items → Items → Bool
  items_equal nil nil = true
  items_equal (cons v vs) (cons w ws) = json_equal v w && items_equal vs ws
  items_equal _ _ = false

  pub fields_equal : Fields → Fields → Bool
  fields_equal end b = true
  fields_equal (field k v fs) b = holds_of (json_equal v) (get b k) && fields_equal fs b
