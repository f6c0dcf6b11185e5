-- ===== src/Faker/Kinds.antt =====
-- Every typed faker returns a value, and keeps the JSON type unless it has a fixed value.
use httptape.Prelude.{ℕ, ◌≡◌, ◌⊎◌, Option, none, some}
use httptape.Json.{Json, null, bool, num, str, arr, obj}
use httptape.Platform.{Platform, Runtime, HasDigests}
use httptape.Int64.{negsuc}
use httptape.Faker.Typed.{Faker, fixed_faker, numeric_faker}

pub data JsonType : Type 0 where
  nothing boolean number text array object : JsonType

abbrev pub type_of : Json → JsonType
type_of null = nothing
type_of (bool b) = boolean
type_of (num n) = number
type_of (str s) = text
type_of (arr vs) = array
type_of (obj fs) = object

-- the type of a faker's values, given that of what it fakes
abbrev pub fake_type : Faker → JsonType → JsonType
fake_type (fixed_faker value) kind = type_of value
fake_type faker kind = kind

module _ (pf : Platform) (rt : Runtime) (digests : HasDigests pf) where
  -- The faker returns a value of its type, or panics as a `NumericFaker` of negative length does on a text.
  abbrev pub IsFaked : Faker → Json → Option Json → Type 0
  IsFaked faker v o =
      ((w : Json) × (o ≡ some w) × (type_of w ≡ fake_type faker (type_of v)))
      ⊎ ((n : ℕ) × (faker ≡ numeric_faker (negsuc n)) × (type_of v ≡ text) × (o ≡ none))
