-- ===== src/Tests/Fakes.antt =====
-- The theorems on fake values at sample values.
use httptape.Prelude.{
  if◌then◌else◌, leb, Text, codes, ◌≡◌, true, take, keep, length, replicate, arith,
}
use httptape.Faker.{is_uuid, is_digit, fake_uuid, format_uuid, fake_card}
use httptape.Faker.Luhn.{IsLuhn, fake_card-IsLuhn}
use httptape.Faker.Uuid.{IsStamped, fake_uuid-is_uuid}

abbrev digest : Text
digest = replicate 32 7

fake_card-IsLuhn_example :
    (length (keep is_digit (fake_card digest (codes "4111-1111"))) ≡ 16)
    × IsLuhn (keep is_digit (fake_card digest (codes "4111-1111")))
    × (take 6 (keep is_digit (fake_card digest (codes "4111-1111"))) ≡ (
        if leb 6 (length (keep is_digit (codes "4111-1111")))
        then take 6 (keep is_digit (codes "4111-1111"))
        else codes "400000"))
fake_card-IsLuhn_example = fake_card-IsLuhn digest (codes "4111-1111") (omega arith)

fake_uuid-is_uuid_example :
    (is_uuid (fake_uuid digest) ≡ true)
    × (buf : Text) × (fake_uuid digest ≡ format_uuid buf)
    × IsStamped 5 buf
fake_uuid-is_uuid_example = fake_uuid-is_uuid digest (omega arith) (omega arith)
