-- ===== src/Decimal.antt =====
-- strconv.Itoa and strconv.Atoi, for values that are not negative.
use httptape.Prelude.{
  ℕ, zero, suc, ◌+◌, ◌-◌, ◌*◌, ◌/◌, ◌%◌, ◌^◌, ◌≤◌, ◌<◌, Text, ◌≡◌, ◌≢◌, refl, ap, true, ◌&&◌,
  Option, none, some, [], ◌∷◌, ◌++◌, All, All-append, length, length-append, ltb, leb, nat_beq,
  arith, is_empty, if◌then◌else◌, ◌>>=◌, Bool-cases, inl, inr,
}
use native.Mathlib.Nat.{pow-suc}

abbrev pub max_int : ℕ
max_int = 2 ^ 63 - 1

-- the digits of a number below 10 ^ fuel
unfoldable pub decimal_from : ℕ → ℕ → Text
decimal_from zero n = []
decimal_from (suc fuel) n =
    let more = decimal_from fuel (n / 10) ++ (b'0' + n % 10) ∷ [] in
    if ltb n 10 then (b'0' + n) ∷ [] else more

-- strconv.Itoa: an int has 19 digits at most
unfoldable pub decimal : ℕ → Text
decimal n = decimal_from 19 n

abbrev pub IsDigit : ℕ → Type 0
IsDigit c = (b'0' ≤ c) × (c ≤ b'9')

unfoldable pub read_digits : ℕ → Text → Option ℕ
read_digits acc [] = some acc
read_digits acc (c ∷ s) =
    if leb b'0' c && leb c b'9' then read_digits (acc * 10 + (c - b'0')) s else none

unfoldable pub read_unsigned : Text → Option ℕ
read_unsigned s = if is_empty s then none else read_digits 0 s

abbrev in_range : ℕ → Option ℕ
in_range n = if leb n max_int then some n else none

abbrev zero_only : ℕ → Option ℕ
zero_only n = if nat_beq n 0 then some 0 else none

-- `n, err := strconv.Atoi(s)` with `err == nil && n >= 0`
unfoldable pub atoi_nonneg : Text → Option ℕ
unfolding read_unsigned read_digits
atoi_nonneg [] = none
atoi_nonneg (c ∷ s) =
    if nat_beq c b'+'
    then read_unsigned s >>= in_range
    else if nat_beq c b'-'
    then read_unsigned s >>= zero_only
    else read_unsigned (c ∷ s) >>= in_range

decimal_from-All : (fuel n : ℕ) → All IsDigit (decimal_from fuel n)
unfolding decimal_from
decimal_from-All zero n = tt
decimal_from-All (suc fuel) n = elim (Bool-cases (ltb n 10)) [
  | inl small ↦ rw small (ground arith, tt)
  | inr large ↦ rw large (
      All-append IsDigit (decimal_from fuel (n / 10)) _ (decimal_from-All fuel (n / 10))
        (omega arith, tt))
]

length-decimal_from : (fuel n : ℕ) → length (decimal_from fuel n) ≤ fuel
unfolding decimal_from
length-decimal_from zero n = omega arith
length-decimal_from (suc fuel) n = elim (Bool-cases (ltb n 10)) [
  | inl small ↦ rw small (omega arith)
  | inr large ↦ rw large (
      omega (
        arith,
        length-append (decimal_from fuel (n / 10)) ((b'0' + n % 10) ∷ []),
        length-decimal_from fuel (n / 10),
      ))
]

pub length-decimal : (n : ℕ) → length (decimal n) ≤ 19
unfolding decimal
length-decimal n = length-decimal_from 19 n

pub decimal-All : (n : ℕ) → All IsDigit (decimal n)
unfolding decimal
decimal-All n = decimal_from-All 19 n

read_digits-append :
    (acc : ℕ) (s t : Text) → read_digits acc (s ++ t) ≡ (read_digits acc s >>= λ n. read_digits n t)
unfolding read_digits
read_digits-append acc [] t = refl
read_digits-append acc (c ∷ s) t = ground (arith, read_digits-append (acc * 10 + (c - b'0')) s t)

read_digits-decimal_from :
    (fuel n : ℕ) → n < 10 ^ fuel → 0 < fuel → read_digits 0 (decimal_from fuel n) ≡ some n
unfolding decimal_from
read_digits-decimal_from zero n h k = absurd (omega arith)
read_digits-decimal_from (suc zero) n h k =
    let small : ltb n 10 ≡ true = ground arith in rw small (unfold read_digits in ground arith)
read_digits-decimal_from (suc (suc fuel)) n h k = elim (Bool-cases (ltb n 10)) [
  | inl small ↦ rw small (unfold read_digits in ground arith)
  | inr large ↦
      let less : n / 10 < 10 ^ suc fuel = omega (arith, pow-suc 10 (suc fuel)) in
      rw
        (
          large,
          read_digits-append 0 (decimal_from (suc fuel) (n / 10)),
          read_digits-decimal_from (suc fuel) (n / 10) less (omega arith),
        )
        (unfold read_digits in ground arith)
]

-- a decimal begins with a digit, so it has no sign
unsigned_head :
    (s : Text) (n : ℕ)
    → All IsDigit s
    → read_digits 0 s ≡ some n
    → s ≢ []
    → n ≤ max_int
    → atoi_nonneg s ≡ some n
unfolding atoi_nonneg
unsigned_head [] n h e filled le = absurd (filled refl)
unsigned_head (c ∷ s) n h e filled le = ground arith

decimal_from-ne-nil : (fuel n : ℕ) → decimal_from (suc fuel) n ≢ []
unfolding decimal_from
decimal_from-ne-nil fuel n e = elim (Bool-cases (ltb n 10)) [
  | inl small ↦ cc (rw small at e)
  | inr large ↦ absurd (
      omega (
        arith,
        ap length (rw large at e),
        length-append (decimal_from fuel (n / 10)) ((b'0' + n % 10) ∷ []),
      ))
]

-- An int that is not negative is read back from its decimal text.
pub atoi_nonneg-decimal : (n : ℕ) → n ≤ max_int → atoi_nonneg (decimal n) ≡ some n
atoi_nonneg-decimal n le =
    unsigned_head (decimal n) n (decimal-All n)
      (unfold decimal in read_digits-decimal_from 19 n (omega arith) (omega arith))
      (unfold decimal in decimal_from-ne-nil 18 n) le
