-- ===== src/Faker.antt =====
-- The deterministic fakes of sanitizer.go and faker.go, each a function of an HMAC digest. A digest
-- has 32 bytes, so the slices and the fixed indices taken from it are in range.
pub mod Uuid
pub mod Detection
pub mod Fill
pub mod Luhn
pub mod Typed
pub mod Kinds
use Prim.Native.Nat.{bit_and, bit_or}
use httptape.Prelude.{
  ℕ, zero, suc, ◌+◌, ◌-◌, ◌*◌, ◌/◌, ◌%◌, ◌^◌, Text, codes, Bool, true, false, ◌&&◌, ◌||◌, Option,
  none, some, List, [], ◌∷◌, ◌++◌, map, length, get_elem?, get_or, set, take, drop, replicate, keep,
  leb, ltb, nat_beq, join, map_option, ◌>>=◌, if◌then◌else◌,
}
use mathlib.Core.List.{reverse}
use httptape.Json.{Json, null, bool, num, str}
use httptape.JsonPath.{Segment, parse_path, rewrite_at_path}
use httptape.Platform.{Platform}
use httptape.Tape.{hex}
use httptape.Sanitizer.{
  SanitizeFunc, redacted, redact_value, parse_paths, apply_paths, rewrite_body, sanitize_bodies,
  sanitize_events,
}

-- strings.IndexByte
unfoldable pub index_byte : ℕ → Text → Option ℕ
index_byte b [] = none
index_byte b (c ∷ s) = if nat_beq c b then some 0 else map_option suc (index_byte b s)

-- strings.Count of a one-byte text
unfoldable pub count_byte : ℕ → Text → ℕ
count_byte b [] = 0
count_byte b (c ∷ s) = (if nat_beq c b then 1 else 0) + count_byte b s

at_inside : ℕ → Option ℕ → Bool
at_inside len none = false
at_inside len (some at) = ltb 0 at && ltb at (len - 1)

unfoldable pub is_email : Text → Bool
unfolding index_byte count_byte at_inside
is_email s = at_inside (length s) (index_byte b'@' s) && nat_beq (count_byte b'@' s) 1

abbrev pub is_dash_position : ℕ → Bool
is_dash_position i = nat_beq i 8 || nat_beq i 13 || nat_beq i 18 || nat_beq i 23

unfoldable pub is_hex_char : ℕ → Bool
is_hex_char c =
    (leb b'0' c && leb c b'9') || (leb b'a' c && leb c b'f') || (leb b'A' c && leb c b'F')

-- the loop of `isUUID`, from position `i` on
unfoldable pub uuid_from : ℕ → Text → Bool
uuid_from i [] = true
uuid_from i (c ∷ s) =
    (if is_dash_position i then nat_beq c b'-' else is_hex_char c) && uuid_from (suc i) s

unfoldable pub is_uuid : Text → Bool
unfolding uuid_from
is_uuid s = nat_beq (length s) 36 && uuid_from 0 s

unfoldable pub fake_email : Text → Text
fake_email hash = codes "user_" ++ (hex (take 4 hash) ++ codes "@example.com")

unfoldable pub fake_string : Text → Text
fake_string hash = codes "fake_" ++ hex (take 4 hash)

-- `%08x-%04x-%04x-%04x-%012x` of a 16-byte array
unfoldable pub format_uuid : Text → Text
format_uuid buf =
    hex (take 4 buf)
    ++ (b'-' ∷ hex (take 2 (drop 4 buf))
        ++ (b'-' ∷ hex (take 2 (drop 6 buf))
            ++ (b'-' ∷ hex (take 2 (drop 8 buf)) ++ (b'-' ∷ hex (take 6 (drop 10 buf))))))

-- The bytes 6 and 8 with the given version in the high half of the former and the RFC 4122 variant
-- in the two high bits of the latter.
unfoldable pub stamp : ℕ → Text → Text
stamp version buf =
    let buf' = set buf 6 (bit_or (bit_and (get_or buf 6 0) 0x0f) version) in
    set buf' 8 (bit_or (bit_and (get_or buf 8 0) 0x3f) 0x80)

unfoldable pub fake_uuid : Text → Text
unfolding format_uuid stamp
fake_uuid hash = format_uuid (stamp 0x50 (take 16 hash))

-- The big-endian uint32 of the first four bytes.
unfoldable pub first_uint32 : Text → ℕ
first_uint32 h = get_or h 0 0 * 2 ^ 24 + get_or h 1 0 * 2 ^ 16 + get_or h 2 0 * 2 ^ 8 + get_or h 3 0

-- `n & 0x7FFFFFFF`, with zero avoided
unfoldable pub fake_numeric_id : Text → ℕ
unfolding first_uint32
fake_numeric_id hash = let n = first_uint32 hash % 2 ^ 31 in if nat_beq n 0 then 1 else n

-- floor of the binary logarithm of a number below 2 ^ fuel
log2 : ℕ → ℕ → ℕ
log2 zero n = 0
log2 (suc fuel) n = let r = suc (log2 fuel (n / 2)) in if ltb n 2 then 0 else r

-- float64(n) as a bit pattern, exact below 2 ^ 32
unfoldable pub float_of_uint32 : ℕ → ℕ
unfolding log2
float_of_uint32 n =
    let e = log2 32 n in if nat_beq n 0 then 0 else (1023 + e) * 2 ^ 52 + (n - 2 ^ e) * 2 ^ (52 - e)

-- one character of a filled text: as it is, or drawn from `modulus` many from `base` on
pub data Slot : Type 0 where
  literal : ℕ → Slot
  drawn : (base modulus : ℕ) → Slot

abbrev pub digit_slot : Slot
digit_slot = drawn b'0' 10

abbrev pub is_digit : ℕ → Bool
is_digit c = leb b'0' c && leb c b'9'

-- the switches of `PhoneFaker` and of `PatternFaker`
unfoldable pub phone_slot : ℕ → Slot
phone_slot c = if is_digit c then digit_slot else literal c

unfoldable pub pattern_slot : ℕ → Slot
pattern_slot c =
    if nat_beq c b'#' then digit_slot else if nat_beq c b'?' then drawn b'a' 26 else literal c

module _ (pf : Platform) where
  abbrev pub compute_hmac : Text → Text → Text
  compute_hmac key message = pf.hmac_sha256 key message

  -- `if hi >= len(h) { h = computeHMAC(seed, buf.String()); hi = 0 }`
  unfoldable pub refill : (seed buf h : Text) → ℕ → Text × ℕ
  refill seed buf h hi = if leb (length h) hi then (compute_hmac seed buf, 0) else (h, hi)

  abbrev draw : (base modulus : ℕ) → Text × ℕ → Option (Text × ℕ × ℕ)
  draw base modulus (h, hi) = do byte ← get_elem? h hi; some (h, hi + 1, base + byte % modulus)

  -- the hash, the index into it and the character written; `none` is an index out of range
  unfoldable pub place : (seed buf : Text) → Slot → Text → ℕ → Option (Text × ℕ × ℕ)
  unfolding refill
  place seed buf (literal c) h hi = some (h, hi, c)
  place seed buf (drawn base modulus) h hi = draw base modulus (refill seed buf h hi)

  unfoldable pub fill_from : (seed h : Text) → ℕ → (buf : Text) → List Slot → Option Text
  unfolding place
  fill_from seed h hi buf [] = some buf
  fill_from seed h hi buf (slot ∷ slots) = do
    placed ← place seed buf slot h hi
    fill_from seed placed.0 placed.1 (buf ++ placed.2 ∷ []) slots

  unfoldable pub fill : (seed original : Text) → List Slot → Option Text
  unfolding fill_from
  fill seed original slots = fill_from seed (compute_hmac seed original) 0 [] slots

  unfoldable pub fake_value : Text → Json → Json
  fake_value seed (str val) =
      let h = compute_hmac seed val in
      if is_email val
      then str (fake_email h)
      else if is_uuid val
      then str (fake_uuid h)
      else str (fake_string h)
  fake_value seed (num val) =
      num (float_of_uint32 (fake_numeric_id (compute_hmac seed (pf.format_float val))))
  fake_value seed v = v

  unfoldable pub fake_at_path : Text → List Segment → Json → Json
  unfolding fake_value
  fake_at_path seed path v = rewrite_at_path (fake_value seed) path v

  unfoldable pub fake_body_fields : Text → Text → List (List Segment) → Text
  fake_body_fields seed body paths = rewrite_body pf (apply_paths (fake_at_path seed) paths) body

  unfoldable pub fake_fields : Text → List Text → SanitizeFunc
  unfolding fake_body_fields
  fake_fields seed paths = sanitize_bodies pf (λ b. fake_body_fields seed b (parse_paths paths))

  unfoldable pub fake_sse_event_data : Text → List Text → SanitizeFunc
  unfolding fake_body_fields
  fake_sse_event_data seed paths =
      sanitize_events (λ b. fake_body_fields seed b (parse_paths paths))

-- the loop of `luhnCheckDigit`, which runs from the right: `even` tells an even position
unfoldable pub luhn_loop : Bool → ℕ → Text → ℕ
luhn_loop even sum [] = sum
luhn_loop even sum (c ∷ s) =
    let d = c - b'0' in
    let d' = if even then (if ltb 9 (d * 2) then d * 2 - 9 else d * 2) else d in
    elim even [ true ↦ luhn_loop false (sum + d') s | false ↦ luhn_loop true (sum + d') s ]

unfoldable pub luhn_check_digit : Text → ℕ
unfolding luhn_loop
luhn_check_digit digits = (10 - luhn_loop true 0 (reverse digits) % 10) % 10

abbrev pub issuer_prefix : Text → Text
issuer_prefix digits = if leb 6 (length digits) then take 6 digits else codes "400000"

-- the first 15 digits of the card number, and all 16
abbrev pub card_base : (h original : Text) → Text
card_base h original = issuer_prefix (keep is_digit original) ++ map (λ b. b'0' + b % 10) (take 9 h)

unfoldable pub card_digits : (h original : Text) → Text
card_digits h original =
    card_base h original ++ (b'0' + luhn_check_digit (card_base h original)) ∷ []

unfoldable pub fake_card : (h original : Text) → Text
unfolding card_digits
fake_card h original =
    let full = card_digits h original in
    join b'-'
      (take 4 full ∷ take 4 (drop 4 full) ∷ take 4 (drop 8 full) ∷ take 4 (drop 12 full) ∷ [])
