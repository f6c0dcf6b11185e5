-- ===== src/Faker/Detection.antt =====
-- A fake is detected as what it stands for, so faking twice uses the same strategy.
use httptape.Prelude.{
  ℕ, ◌+◌, ◌-◌, ◌^◌, ◌≤◌, ◌<◌, Text, codes, ◌≡◌, ◌≢◌, refl, true, false, some, [], ◌∷◌, ◌++◌, length,
  take, drop, length-append, length-take, arith, if◌then◌else◌, inl, inr, ◌⊎◌,
}
use mathlib.Core.List.{append_assoc}
use httptape.Json.{Json, null, bool, num, str, arr, obj}
use httptape.Platform.{Platform, HasDigests}
use httptape.Tape.{hex, hex_digit}
use httptape.Faker.Uuid.{length-hex, fake_uuid-is_uuid}
use httptape.Faker.{
  stamp, index_byte, count_byte, is_email, is_uuid, fake_email, fake_string, fake_uuid, format_uuid,
  fake_numeric_id, fake_value, compute_hmac,
}

count_byte-append : (b : ℕ) (s t : Text) → count_byte b (s ++ t) ≡ count_byte b s + count_byte b t
unfolding count_byte
count_byte-append b [] t = omega arith
count_byte-append b (c ∷ s) t = ground (arith, count_byte-append b s t)

-- no hexadecimal digit is an at sign
count_byte-hex : (bs : Text) → count_byte b'@' (hex bs) ≡ 0
unfolding count_byte hex hex_digit
count_byte-hex [] = refl
count_byte-hex (b ∷ bs) = ground (arith, count_byte-hex bs)

index_byte-append :
    (b : ℕ) (s t : Text) → count_byte b s ≡ 0 → index_byte b (s ++ b ∷ t) ≡ some (length s)
unfolding index_byte count_byte
index_byte-append b [] t h = ground arith
index_byte-append b (c ∷ s) t h = ground (arith, index_byte-append b s t)

-- one at sign with text on both sides
is_email_of_parts :
    (s t : Text)
    → count_byte b'@' s ≡ 0
    → count_byte b'@' t ≡ 0
    → 0 < length s
    → 0 < length t
    → is_email (s ++ b'@' ∷ t) ≡ true
unfolding is_email count_byte
is_email_of_parts s t hs ht ls lt =
    rw (index_byte-append b'@' s t hs)
      (ground (arith, count_byte-append b'@' s (b'@' ∷ t), length-append s (b'@' ∷ t)))

count_of_is_email : (s : Text) → count_byte b'@' s ≡ 0 → is_email s ≡ false
unfolding is_email
count_of_is_email s h = ground arith

fake_email-is_email : (hash : Text) → is_email (fake_email hash) ≡ true
unfolding fake_email count_byte
fake_email-is_email hash =
    rw (← append_assoc (codes "user_") (hex (take 4 hash)) (codes "@example.com")) (
      is_email_of_parts (codes "user_" ++ hex (take 4 hash)) (codes "example.com")
        (omega (arith, count_byte-hex (take 4 hash))) refl (omega arith) (omega arith))

fake_string-is_email : (hash : Text) → is_email (fake_string hash) ≡ false
unfolding fake_string count_byte
fake_string-is_email hash =
    count_of_is_email (fake_string hash) (omega (arith, count_byte-hex (take 4 hash)))

fake_string-is_uuid : (hash : Text) → 4 ≤ length hash → is_uuid (fake_string hash) ≡ false
unfolding fake_string is_uuid
fake_string-is_uuid hash h = ground (arith, length-hex (take 4 hash), length-take 4 hash)

group_count :
    (bs rest : Text) → count_byte b'@' rest ≡ 0 → count_byte b'@' (hex bs ++ (b'-' ∷ rest)) ≡ 0
unfolding count_byte
group_count bs rest h =
    omega (arith, count_byte-append b'@' (hex bs) (b'-' ∷ rest), count_byte-hex bs)

format_uuid-is_email : (buf : Text) → is_email (format_uuid buf) ≡ false
unfolding format_uuid
format_uuid-is_email buf = count_of_is_email (format_uuid buf) (
    group_count (take 4 buf) _ (
      group_count (take 2 (drop 4 buf)) _ (
        group_count (take 2 (drop 6 buf)) _
          (group_count (take 2 (drop 8 buf)) _ (count_byte-hex (take 6 (drop 10 buf)))))))

fake_uuid-is_email : (hash : Text) → is_email (fake_uuid hash) ≡ false
unfolding fake_uuid
fake_uuid-is_email hash = format_uuid-is_email (stamp 0x50 (take 16 hash))

-- How `fakeValue` tells values apart.
pub data Kind : Type 0 where
  email uuid generic number other : Kind

abbrev pub kind_of : Json → Kind
kind_of (str s) = if is_email s then email else if is_uuid s then uuid else generic
kind_of (num n) = number
kind_of v = other

-- With 32-byte digests the fake of a value is of the value's kind; a value that is no text and no number stays as it is.
pub kind_of-fake_value :
    (pf : Platform) (seed : Text) (v : Json)
    → HasDigests pf
    → (kind_of (fake_value pf seed v) ≡ kind_of v)
      × ((kind_of v ≢ other) ⊎ (fake_value pf seed v ≡ v))
unfolding fake_value
kind_of-fake_value pf seed null d = (refl, inr refl)
kind_of-fake_value pf seed (bool b) d = (refl, inr refl)
kind_of-fake_value pf seed (num n) d = (refl, inl cc)
kind_of-fake_value pf seed (arr xs) d = (refl, inr refl)
kind_of-fake_value pf seed (obj fs) d = (refl, inr refl)
kind_of-fake_value pf seed (str s) d =
    let h = compute_hmac pf seed s in
    ground (
      arith,
      fake_email-is_email h,
      fake_uuid-is_email h,
      (fake_uuid-is_uuid h (omega (arith, d.hmac_length seed s)) (d.hmac_bytes seed s)).0,
      fake_string-is_email h,
      fake_string-is_uuid h (omega (arith, d.hmac_length seed s)),
    )

-- The number that a fake stands for is positive and fits an int32.
pub fake_numeric_id_bounds : (h : Text) → (1 ≤ fake_numeric_id h) × (fake_numeric_id h ≤ 2 ^ 31 - 1)
unfolding fake_numeric_id
fake_numeric_id_bounds h = ground arith
