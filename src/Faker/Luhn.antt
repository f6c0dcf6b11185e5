-- ===== src/Faker/Luhn.antt =====
-- The card number of `CreditCardFaker` passes the Luhn test.
use httptape.Prelude.{
  codes, if◌then◌else◌, leb, ℕ, zero, suc, ◌+◌, ◌-◌, ◌*◌, ◌%◌, ◌≤◌, Text, ◌≡◌, refl, ap, ◌∙◌, Bool,
  true, false, not, List, [], ◌∷◌, ◌++◌, map, length, take, drop, keep, All, All-append, All-take,
  All-drop, All-keep, keep_of_All, keep-append, take-append-drop, drop-drop, take-append_left,
  length-take, length-drop, length-append, length-map, join, leb, ltb, arith, if◌then◌else◌,
  Bool-cases, inl, inr,
}
use mathlib.Core.List.{reverse, reverse-append, append_assoc}
use httptape.Faker.{
  is_digit, luhn_loop, luhn_check_digit, issuer_prefix, card_base, card_digits, fake_card,
}

-- The Luhn sum as usually stated: from the right every second digit is doubled, less 9 above 9.
abbrev luhn_term : Bool → ℕ → ℕ
luhn_term true d = if ltb 9 (d * 2) then d * 2 - 9 else d * 2
luhn_term false d = d

luhn_sum : Bool → Text → ℕ
luhn_sum doubled [] = 0
luhn_sum doubled (c ∷ s) = luhn_term doubled (c - b'0') + luhn_sum (not doubled) s

-- The last digit counts once, the one before it twice, and so on; the sum ends in 0.
pub IsLuhn : Text → Type 0
IsLuhn number = luhn_sum false (reverse number) % 10 ≡ 0

luhn_loop-eq-add : (even : Bool) (sum : ℕ) (s : Text) → luhn_loop even sum s ≡ sum + luhn_sum even s
unfolding luhn_loop luhn_sum
luhn_loop-eq-add even sum [] = omega arith
luhn_loop-eq-add true sum (c ∷ s) = luhn_loop-eq-add false _ s ∙ omega arith
luhn_loop-eq-add false sum (c ∷ s) = luhn_loop-eq-add true _ s ∙ omega arith

check_digit-IsLuhn : (base : Text) → IsLuhn (base ++ (b'0' + luhn_check_digit base) ∷ [])
unfolding IsLuhn luhn_check_digit luhn_sum
check_digit-IsLuhn base =
    rw (reverse-append base ((b'0' + luhn_check_digit base) ∷ []))
      (omega (arith, luhn_loop-eq-add true 0 (reverse base)))

abbrev IsDigit : ℕ → Type 0
IsDigit c = is_digit c ≡ true

drawn_digits : (h : Text) → All IsDigit (map (λ b. b'0' + b % 10) h)
drawn_digits [] = tt
drawn_digits (b ∷ h) = (ground arith, drawn_digits h)

prefix_digits : (digits : Text) → All IsDigit digits → All IsDigit (issuer_prefix digits)
prefix_digits digits h = elim (Bool-cases (leb 6 (length digits))) [
  | inl long ↦ rw long (All-take IsDigit 6 digits h)
  | inr short ↦ rw short (refl, (refl, (refl, (refl, (refl, (refl, tt))))))
]

length-issuer_prefix : (digits : Text) → length (issuer_prefix digits) ≡ 6
length-issuer_prefix digits = elim (Bool-cases (leb 6 (length digits))) [
  | inl long ↦ rw long (length-take 6 digits ∙ ground arith)
  | inr short ↦ rw short
]

card_digits-All : (h original : Text) → All IsDigit (card_digits h original)
unfolding card_digits luhn_check_digit
card_digits-All h original =
    All-append IsDigit (card_base h original) _
      (All-append IsDigit (issuer_prefix (keep is_digit original))
        (map (λ b. b'0' + b % 10) (take 9 h))
        (prefix_digits (keep is_digit original) (All-keep is_digit original))
        (drawn_digits (take 9 h)))
      (ground arith, tt)

length-card_digits : (h original : Text) → 9 ≤ length h → length (card_digits h original) ≡ 16
unfolding card_digits
length-card_digits h original long = omega (
  arith,
  length-append (card_base h original) ((b'0' + luhn_check_digit (card_base h original)) ∷ []),
  length-append (issuer_prefix (keep is_digit original)) (map (λ b. b'0' + b % 10) (take 9 h)),
  length-issuer_prefix (keep is_digit original),
  length-map (take 9 h) (λ b. b'0' + b % 10),
  length-take 9 h,
)

keep_digits : (n : ℕ) (s : Text) → All IsDigit s → keep is_digit (take n s) ≡ take n s
keep_digits n s h = keep_of_All is_digit (take n s) (All-take IsDigit n s h)

take_whole {ℓ} : {A : Type ℓ} (n : ℕ) (xs : List A) → length xs ≤ n → take n xs ≡ xs
take_whole zero [] h = refl
take_whole zero (x ∷ xs) h = absurd (omega arith)
take_whole (suc n) [] h = refl
take_whole (suc n) (x ∷ xs) h = ap (λ ys. x ∷ ys) (take_whole n xs (omega arith))

-- the four groups are the whole number
join_groups :
    (xs : Text)
    → length xs ≡ 16
    → take 4 xs ++ (take 4 (drop 4 xs) ++ (take 4 (drop 8 xs) ++ take 4 (drop 12 xs))) ≡ xs
join_groups xs h =
    let last = take_whole 4 (drop 12 xs) (omega (arith, length-drop 12 xs)) in
    rw (
      last,
      ← drop-drop 4 8 xs,
      take-append-drop 4 (drop 8 xs),
      ← drop-drop 4 4 xs,
      take-append-drop 4 (drop 4 xs),
      take-append-drop 4 xs,
    )

keep-fake_card :
    (h original : Text)
    → 9 ≤ length h
    → keep is_digit (fake_card h original) ≡ card_digits h original
unfolding fake_card join
keep-fake_card h original long =
    let full = card_digits h original in
    let digits = card_digits-All h original in
    rw
      (
        keep-append is_digit (take 4 full),
        keep-append is_digit (take 4 (drop 4 full)),
        keep-append is_digit (take 4 (drop 8 full)),
        keep_digits 4 full digits,
        keep_digits 4 (drop 4 full) (All-drop IsDigit 4 full digits),
        keep_digits 4 (drop 8 full) (All-drop IsDigit 8 full digits),
        keep_digits 4 (drop 12 full) (All-drop IsDigit 12 full digits),
      )
      (join_groups full (length-card_digits h original long))

-- From a digest of at least 9 bytes, the formatted card number has 16 digits, which begin with the first six digits of the original
-- if it has six and with 400000 otherwise, and pass the Luhn test.
pub fake_card-IsLuhn :
    (h original : Text)
    → 9 ≤ length h
    → (length (keep is_digit (fake_card h original)) ≡ 16)
      × IsLuhn (keep is_digit (fake_card h original))
      × (take 6 (keep is_digit (fake_card h original)) ≡ (
          if leb 6 (length (keep is_digit original))
          then take 6 (keep is_digit original)
          else codes "400000"))
fake_card-IsLuhn h original long = rw (keep-fake_card h original long) (
  length-card_digits h original long,
  unfold card_digits in check_digit-IsLuhn (card_base h original),
  unfold card_digits in
      rw (append_assoc (issuer_prefix (keep is_digit original))) (
        take-append_left 6 (issuer_prefix (keep is_digit original)) _
          (length-issuer_prefix (keep is_digit original))),
)
