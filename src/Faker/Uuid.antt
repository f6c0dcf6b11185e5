-- ===== src/Faker/Uuid.antt =====
-- A formatted UUID has the shape that `isUUID` tests, and the stamped version and variant.
use Prim.Native.Nat.{bit_and, bit_or}
use httptape.Prelude.{
  Text, ℕ, zero, suc, ◌<◌, ◌≤◌, ◌+◌, ◌*◌, ◌/◌, ◌%◌, ◌≡◌, refl, sym, ap, ◌∙◌, Bool, true, false,
  ◌&&◌, List, [], ◌∷◌, ◌++◌, length, get_or, set, take, drop, All, All-take, All-drop, All-set,
  length-take, length-drop, length-set, length-append, nat_beq, leb, arith, if◌then◌else◌,
}
use mathlib.Core.List.{append-nil}
use httptape.Tape.{hex, hex_digit}
use httptape.Faker.{
  is_dash_position, is_hex_char, uuid_from, is_uuid, format_uuid, stamp, fake_uuid,
}

abbrev pub IsByte : ℕ → Type 0
IsByte b = b < 256

hex_digit-is_hex_char : (n : ℕ) → n < 16 → is_hex_char (hex_digit n) ≡ true
unfolding is_hex_char hex_digit
hex_digit-is_hex_char n h = ground arith

-- no dash is due in the next `2 * n` positions
no_dash : ℕ → ℕ → Bool
no_dash i zero = true
no_dash i (suc n) =
    (if is_dash_position i then false else if is_dash_position (suc i) then false else true)
    && no_dash (suc (suc i)) n

advance : ℕ → ℕ → ℕ
advance i zero = i
advance i (suc n) = advance (suc (suc i)) n

-- a run of bytes in hexadecimal passes the loop of `isUUID`
uuid_from-hex :
    (i : ℕ) (bs rest : Text)
    → All IsByte bs
    → no_dash i (length bs) ≡ true
    → uuid_from i (hex bs ++ rest) ≡ uuid_from (advance i (length bs)) rest
unfolding uuid_from hex no_dash advance
uuid_from-hex i [] rest bytes clear = refl
uuid_from-hex i (b ∷ bs) rest bytes clear = ground (
  arith,
  hex_digit-is_hex_char (b / 16),
  hex_digit-is_hex_char (b % 16),
  uuid_from-hex (suc (suc i)) bs rest bytes.1,
)

pub length-hex : (bs : Text) → length (hex bs) ≡ 2 * length bs
unfolding hex
length-hex [] = refl
length-hex (b ∷ bs) = omega (arith, length-hex bs)

module _ (buf : Text) (len : length buf ≡ 16) (bytes : All IsByte buf) where
  abbrev group : ℕ → ℕ → Text
  group from n = take n (drop from buf)

  length-group : (from n : ℕ) → from + n ≤ 16 → length (group from n) ≡ n
  length-group from n h = omega (arith, length-take n (drop from buf), length-drop from buf)

  group_bytes : (from n : ℕ) → All IsByte (group from n)
  group_bytes from n = All-take IsByte n (drop from buf) (All-drop IsByte from buf bytes)

  -- one group, at a position where no dash is due
  run :
      (i from n : ℕ) (rest : Text)
      → from + n ≤ 16
      → no_dash i n ≡ true
      → uuid_from i (hex (group from n) ++ rest) ≡ uuid_from (advance i n) rest
  run i from n rest h clear =
      let e = length-group from n h in
      uuid_from-hex i (group from n) rest (group_bytes from n) (rw e clear)
      ∙ ap (λ k. uuid_from (advance i k) rest) e

  abbrev tail_from : ℕ → Text
  tail_from zero = hex (group 10 6)
  tail_from (suc zero) = hex (group 8 2) ++ (b'-' ∷ hex (group 10 6))
  tail_from (suc (suc zero)) =
      hex (group 6 2) ++ (b'-' ∷ hex (group 8 2) ++ (b'-' ∷ hex (group 10 6)))
  tail_from _ =
      hex (group 4 2)
      ++ (b'-' ∷ hex (group 6 2) ++ (b'-' ∷ hex (group 8 2) ++ (b'-' ∷ hex (group 10 6))))

  uuid_from-format_uuid : uuid_from 0 (format_uuid buf) ≡ true
  unfolding format_uuid uuid_from advance no_dash
  uuid_from-format_uuid =
      run 0 0 4 (b'-' ∷ tail_from 3) (omega arith) refl
      ∙ run 9 4 2 (b'-' ∷ tail_from 2) (omega arith) refl
      ∙ run 14 6 2 (b'-' ∷ tail_from 1) (omega arith) refl
      ∙ run 19 8 2 (b'-' ∷ tail_from 0) (omega arith) refl
      ∙ ap (uuid_from 24) (sym (append-nil (hex (group 10 6))))
      ∙ run 24 10 6 [] (omega arith) refl

  length-format_uuid : length (format_uuid buf) ≡ 36
  unfolding format_uuid
  length-format_uuid = omega (
    arith,
    length-append (hex (group 0 4)) (b'-' ∷ tail_from 3),
    length-append (hex (group 4 2)) (b'-' ∷ tail_from 2),
    length-append (hex (group 6 2)) (b'-' ∷ tail_from 1),
    length-append (hex (group 8 2)) (b'-' ∷ tail_from 0),
    length-hex (group 0 4),
    length-hex (group 4 2),
    length-hex (group 6 2),
    length-hex (group 8 2),
    length-hex (group 10 6),
    length-group 0 4 (omega arith),
    length-group 4 2 (omega arith),
    length-group 6 2 (omega arith),
    length-group 8 2 (omega arith),
    length-group 10 6 (omega arith),
  )

  pub format_uuid-is_uuid : is_uuid (format_uuid buf) ≡ true
  unfolding is_uuid
  format_uuid-is_uuid = rw (length-format_uuid, uuid_from-format_uuid)

-- The stamp: the high half of byte 6 is the version, the two high bits of byte 8 are 10.
-- a table of a test's outcomes, checked by computing it
passes_below : (ℕ → Bool) → ℕ → Bool
passes_below test zero = true
passes_below test (suc bound) = passes_below test bound && test bound

passes_below_lem :
    (test : ℕ → Bool) (bound byte : ℕ)
    → byte < bound
    → passes_below test bound ≡ true
    → test byte ≡ true
unfolding passes_below
passes_below_lem test zero byte small table = absurd (omega arith)
passes_below_lem test (suc bound) byte small table =
    ground (arith, passes_below_lem test bound byte)

abbrev version_ok : ℕ → ℕ → Bool
version_ok version x =
    leb (bit_or (bit_and x 0x0f) version) 255
    && nat_beq (bit_or (bit_and x 0x0f) version / 16) (version / 16)

abbrev variant_ok : ℕ → Bool
variant_ok x =
    leb (bit_or (bit_and x 0x3f) 0x80) 255 && nat_beq (bit_or (bit_and x 0x3f) 0x80 / 64) 2

version_4 : passes_below (version_ok 0x40) 256 ≡ true
unfolding passes_below
version_4 = refl

version_5 : passes_below (version_ok 0x50) 256 ≡ true
unfolding passes_below
version_5 = refl

variants : passes_below variant_ok 256 ≡ true
unfolding passes_below
variants = refl

-- a write at an index in range is read back, and disturbs no other index
get_or-set {ℓ} :
    {A : Type ℓ} (xs : List A) (i j : ℕ) (v d : A)
    → i < length xs
    → get_or (set xs i v) j d ≡ (if nat_beq i j then v else get_or xs j d)
get_or-set [] i j v d h = absurd (omega arith)
get_or-set (x ∷ xs) zero zero v d h = refl
get_or-set (x ∷ xs) zero (suc j) v d h = ground arith
get_or-set (x ∷ xs) (suc i) zero v d h = ground arith
get_or-set (x ∷ xs) (suc i) (suc j) v d h = ground (arith, get_or-set xs i j v d)

get_or-IsByte : (xs : Text) (i : ℕ) → All IsByte xs → IsByte (get_or xs i 0)
get_or-IsByte [] i h = omega arith
get_or-IsByte (x ∷ xs) zero h = h.0
get_or-IsByte (x ∷ xs) (suc i) h = get_or-IsByte xs i h.1

-- The stamp of a version, 4 or 5, on 16 bytes: 16 bytes with that version and the RFC variant.
abbrev pub IsStamped : ℕ → Text → Type 0
IsStamped version buf =
    (length buf ≡ 16) × All IsByte buf × (get_or buf 6 0 / 16 ≡ version) × (get_or buf 8 0 / 64 ≡ 2)

module _ (version : ℕ) (table : passes_below (version_ok version) 256 ≡ true) (buf : Text)
    (len : length buf ≡ 16) (bytes : All IsByte buf) where
  stamp-IsStamped : IsStamped (version / 16) (stamp version buf)
  unfolding stamp
  stamp-IsStamped =
      let six = get_or-IsByte buf 6 bytes in
      let eight = get_or-IsByte buf 8 bytes in
      let v6 = passes_below_lem (version_ok version) 256 (get_or buf 6 0) six table in
      let v8 = passes_below_lem variant_ok 256 (get_or buf 8 0) eight variants in
      let w6 = bit_or (bit_and (get_or buf 6 0) 0x0f) version in
      let w8 = bit_or (bit_and (get_or buf 8 0) 0x3f) 0x80 in
      let len' = length-set buf 6 w6 ∙ len in
      let read6 =
        get_or-set (set buf 6 w6) 8 6 w8 0 (omega arith) ∙ get_or-set buf 6 6 w6 0 (omega arith) in
      let read8 = get_or-set (set buf 6 w6) 8 8 w8 0 (omega arith) in
      (
        length-set (set buf 6 w6) 8 w8 ∙ len',
        All-set IsByte (set buf 6 w6) 8 w8 (All-set IsByte buf 6 w6 bytes (ground arith))
            (ground arith),
        ap (λ (n : ℕ). n / 16) read6 ∙ ground arith,
        ap (λ (n : ℕ). n / 64) read8 ∙ ground arith,
      )

-- From at least 16 bytes, a fake UUID has the 8-4-4-4-12 hexadecimal form, and its bytes carry version 5 and the RFC 4122
-- variant.
pub fake_uuid-is_uuid :
    (hash : Text)
    → 16 ≤ length hash
    → All IsByte hash
    → (is_uuid (fake_uuid hash) ≡ true)
      × (buf : Text) × (fake_uuid hash ≡ format_uuid buf)
      × IsStamped 5 buf
unfolding fake_uuid
fake_uuid-is_uuid hash long bytes =
    let len = length-take 16 hash ∙ omega arith in
    let stamped =
      stamp-IsStamped 0x50 version_5 (take 16 hash) len (All-take IsByte 16 hash bytes) in
    (
      format_uuid-is_uuid (stamp 0x50 (take 16 hash)) stamped.0 stamped.1,
      stamp 0x50 (take 16 hash),
      refl,
      stamped,
    )
