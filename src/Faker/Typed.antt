-- ===== src/Faker/Typed.antt =====
-- faker.go: the typed fakers, and FakeFieldsWith.
use httptape.Prelude.{
  ℕ, zero, suc, ◌+◌, ◌*◌, leb, get_elem?, ◌>>=◌, ◌%◌, ◌^◌, Text, codes, Option, none, some, List,
  [], ◌∷◌, ◌++◌, map, length, take, replicate, is_empty, text_eq, if◌then◌else◌, map_option,
}
use httptape.Int64.{ℤ, pos, negsuc}
use httptape.Json.{Json, num, str}
use httptape.JsonPath.{Segment, parse_path, rewrite_at_path}
use httptape.Platform.{Platform, Runtime}
use httptape.Decimal.{decimal}
use httptape.Tape.{hex}
use httptape.Sanitizer.{SanitizeFunc, redacted, redact_value, rewrite_body, sanitize_bodies}
use httptape.Faker.{
  Slot, digit_slot, phone_slot, pattern_slot, compute_hmac, fill, fake_email, fake_string,
  fake_numeric_id, float_of_uint32, first_uint32, fake_card,
}

pub data Faker : Type 0 where
  redacted_faker hmac_faker email_faker phone_faker credit_card_faker name_faker : Faker
  address_faker : Faker
  fixed_faker : (value : Json) → Faker
  numeric_faker : (len : ℤ) → Faker
  date_faker : (format : Text) → Faker
  pattern_faker : (pattern_in : Text) → Faker
  prefix_faker : (prefix : Text) → Faker

abbrev pub first_names : List Text
first_names = map codes (
    "James" ∷ "Emma" ∷ "Liam" ∷ "Olivia" ∷ "Noah" ∷ "Ava" ∷ "Lucas" ∷ "Sophia" ∷ "Mason"
    ∷ "Isabella" ∷ "Ethan" ∷ "Mia" ∷ "Logan" ∷ "Charlotte" ∷ "Aiden" ∷ "Amelia" ∷ "Jackson"
    ∷ "Harper" ∷ "Sebastian" ∷ "Evelyn" ∷ [])

abbrev pub last_names : List Text
last_names = map codes (
    "Smith" ∷ "Johnson" ∷ "Williams" ∷ "Brown" ∷ "Jones" ∷ "Garcia" ∷ "Miller" ∷ "Davis"
    ∷ "Rodriguez" ∷ "Martinez" ∷ "Anderson" ∷ "Taylor" ∷ "Thomas" ∷ "Moore" ∷ "Jackson" ∷ "Martin"
    ∷ "Lee" ∷ "Thompson" ∷ "White" ∷ "Harris" ∷ [])

abbrev pub street_names : List Text
street_names = map codes (
    "Oak" ∷ "Maple" ∷ "Cedar" ∷ "Elm" ∷ "Pine" ∷ "Birch" ∷ "Walnut" ∷ "Cherry" ∷ "Willow" ∷ "Spruce"
    ∷ [])

abbrev pub street_suffixes : List Text
street_suffixes = map codes (
    "Street" ∷ "Avenue" ∷ "Boulevard" ∷ "Drive" ∷ "Lane" ∷ "Court" ∷ "Place" ∷ "Road" ∷ "Way"
    ∷ "Circle" ∷ [])

abbrev pub city_names : List Text
city_names = map codes (
    "Springfield" ∷ "Riverside" ∷ "Fairview" ∷ "Madison" ∷ "Georgetown" ∷ "Clinton" ∷ "Arlington"
    ∷ "Salem" ∷ "Franklin" ∷ "Bristol" ∷ [])

abbrev pub state_abbrs : List Text
state_abbrs = map codes (
    "AL" ∷ "AK" ∷ "AZ" ∷ "AR" ∷ "CA" ∷ "CO" ∷ "CT" ∷ "DE" ∷ "FL" ∷ "GA" ∷ "HI" ∷ "ID" ∷ "IL" ∷ "IN"
    ∷ "IA" ∷ "KS" ∷ "KY" ∷ "LA" ∷ "ME" ∷ "MD" ∷ "MA" ∷ "MI" ∷ "MN" ∷ "MS" ∷ "MO" ∷ "MT" ∷ "NE"
    ∷ "NV" ∷ "NH" ∷ "NJ" ∷ "NM" ∷ "NY" ∷ "NC" ∷ "ND" ∷ "OH" ∷ "OK" ∷ "OR" ∷ "PA" ∷ "RI" ∷ "SC"
    ∷ "SD" ∷ "TN" ∷ "TX" ∷ "UT" ∷ "VT" ∷ "VA" ∷ "WA" ∷ "WV" ∷ "WI" ∷ "WY" ∷ [])

-- words[b%byte(len(words))]; `none` is an index out of range
abbrev pub pick : List Text → ℕ → Option Text
pick words b = get_elem? words (b % (length words % 2 ^ 8))

-- h[:n], out of range where the digest is shorter
unfoldable pub first_bytes : ℕ → Text → Option Text
first_bytes n h = if leb n (length h) then some (take n h) else none

unfoldable pub fake_name : Text → Option Text
fake_name h = do
  b0 ← get_elem? h 0
  given ← pick first_names b0
  b1 ← get_elem? h 1
  family ← pick last_names b1
  some (given ++ (b' ' ∷ family))

-- the loop that writes the digits of the zip code from the byte `i` of the digest on
unfoldable pub zip_digits : Text → (i count : ℕ) → Option Text
zip_digits h i zero = some []
zip_digits h i (suc count) =
    let rest = zip_digits h (suc i) count in
    do b ← get_elem? h i; more ← rest; some ((b'0' + b % 10) ∷ more)

unfoldable pub fake_address : Text → Option Text
unfolding zip_digits
fake_address h = do
  b0 ← get_elem? h 0
  b1 ← get_elem? h 1
  b2 ← get_elem? h 2
  street ← pick street_names b2
  b3 ← get_elem? h 3
  suffix ← pick street_suffixes b3
  b4 ← get_elem? h 4
  city ← pick city_names b4
  b5 ← get_elem? h 5
  state ← pick state_abbrs b5
  zip ← zip_digits h 6 5
  some (
      decimal ((b0 * 2 ^ 8 + b1) % 9999 + 1)
      ++ (b' ' ∷ street
          ++ (b' ' ∷ suffix ++ (codes ", " ++ (city ++ (codes ", " ++ (state ++ (b' ' ∷ zip))))))))

-- `for i := 0; i < f.Length; i++`; strings.Builder.Grow panics with a negative count
abbrev digit_slots : ℤ → Option (List Slot)
digit_slots (pos n) = some (replicate n digit_slot)
digit_slots (negsuc n) = none

abbrev pub or_default : Text → Text
or_default format = if is_empty format then codes "2006-01-02" else format

module _ (pf : Platform) (rt : Runtime) where
  -- The `Fake` methods on a string; `none` is an index out of range or a negative count, which panic.
  -- What a method reads of the digest are the bytes that `first_bytes` gives.
  unfoldable pub fake_text : Faker → (seed s : Text) → Option Json
  unfolding fake_name fake_address first_bytes
  fake_text redacted_faker seed s = some (str redacted)
  fake_text (fixed_faker value) seed s = some value
  fake_text hmac_faker seed s =
      map_option (λ h. str (fake_string h)) (first_bytes 4 (compute_hmac pf seed s))
  fake_text email_faker seed s =
      map_option (λ h. str (fake_email h)) (first_bytes 4 (compute_hmac pf seed s))
  fake_text phone_faker seed s = map_option str (fill pf seed s (map phone_slot s))
  fake_text credit_card_faker seed s =
      map_option (λ h. str (fake_card h s)) (first_bytes 9 (compute_hmac pf seed s))
  fake_text (numeric_faker len) seed s = do
    slots ← digit_slots len
    map_option str (fill pf seed s slots)
  fake_text (date_faker format) seed s =
      map_option (λ h. str (rt.format_date (or_default format) (first_uint32 h % 36525)))
        (first_bytes 4 (compute_hmac pf seed s))
  fake_text (pattern_faker pattern_in) seed s =
      map_option str (fill pf seed s (map pattern_slot pattern_in))
  fake_text (prefix_faker prefix) seed s =
      map_option (λ h. str (prefix ++ hex h)) (first_bytes 8 (compute_hmac pf seed s))
  fake_text name_faker seed s = map_option str (fake_name (compute_hmac pf seed s))
  fake_text address_faker seed s = map_option str (fake_address (compute_hmac pf seed s))

  -- the `Fake` methods on a value that is no string
  unfoldable pub fake_other : Faker → (seed : Text) → Json → Option Json
  unfolding first_bytes
  fake_other redacted_faker seed v = some (redact_value v)
  fake_other (fixed_faker value) seed v = some value
  fake_other hmac_faker seed (num n) =
      map_option (λ h. num (float_of_uint32 (fake_numeric_id h)))
        (first_bytes 4 (compute_hmac pf seed (pf.format_float n)))
  fake_other faker seed v = some v

  unfoldable pub fake : Faker → (seed : Text) → Json → Option Json
  unfolding fake_text fake_other
  fake faker seed (str s) = fake_text faker seed s
  fake faker seed v = fake_other faker seed v

  -- A panic of a faker ends the program; here it leaves the value as it is. With digests of 32 bytes only a
  -- `NumericFaker` of negative length panics.
  abbrev or_same : Json → Option Json → Json
  or_same v none = v
  or_same v (some w) = w

  unfoldable pub fake_at_path_with : Text → Faker → List Segment → Json → Json
  unfolding fake
  fake_at_path_with seed faker path v = rewrite_at_path (λ w. or_same w (fake faker seed w)) path v

  -- the paths that parse, each with its faker
  unfoldable pub path_fakers : List (Text × Faker) → List (List Segment × Faker)
  path_fakers [] = []
  path_fakers ((p, f) ∷ fields) = elim (parse_path p) [
    | none ↦ path_fakers fields
    | some pp ↦ (pp, f) ∷ path_fakers fields
  ]

  unfoldable pub apply_fakers : Text → List (List Segment × Faker) → Json → Json
  unfolding fake_at_path_with
  apply_fakers seed [] j = j
  apply_fakers seed ((path, faker) ∷ pfs) j =
      apply_fakers seed pfs (fake_at_path_with seed faker path j)

  unfoldable pub fake_body_fields_with : Text → Text → List (List Segment × Faker) → Text
  unfolding apply_fakers
  fake_body_fields_with seed body pfs = rewrite_body pf (apply_fakers seed pfs) body

  unfoldable pub fake_fields_with : Text → List (Text × Faker) → SanitizeFunc
  unfolding fake_body_fields_with path_fakers
  fake_fields_with seed fields =
      sanitize_bodies pf (λ b. fake_body_fields_with seed b (path_fakers fields))
