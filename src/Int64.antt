-- ===== src/Int64.antt =====
-- int64 values, with strconv.ParseInt and strconv.FormatInt.
use httptape.Prelude.{
  ℕ, suc, ◌+◌, ◌-◌, ◌≤◌, Text, Bool, Option, none, some, [], ◌∷◌, ltb, leb, nat_beq, if◌then◌else◌,
  ◌>>=◌,
}
use httptape.Decimal.{decimal, max_int, read_digits, read_unsigned}

-- `negsuc n` is -(n + 1).
pub data ℤ : Type 0 where
  pos : ℕ → ℤ
  negsuc : ℕ → ℤ

abbrev pub pos_part : ℤ → ℕ
pos_part (pos n) = n
pos_part (negsuc n) = 0

abbrev pub neg_part : ℤ → ℕ
neg_part (pos n) = 0
neg_part (negsuc n) = suc n

-- a - b, as an integer
abbrev pub sub_ℕ : ℕ → ℕ → ℤ
sub_ℕ a b = if leb b a then pos (a - b) else negsuc (b - a - 1)

infixl 65 ◌+ℤ◌
infix 50 ◌≤ℤ◌
unfoldable pub ◌+ℤ◌ : ℤ → ℤ → ℤ
a +ℤ b = sub_ℕ (pos_part a + pos_part b) (neg_part a + neg_part b)

abbrev pub ◌≤ℤ◌ : ℤ → ℤ → Type 0
a ≤ℤ b = pos_part a + neg_part b ≤ pos_part b + neg_part a

abbrev pub ltb_ℤ : ℤ → ℤ → Bool
ltb_ℤ a b = ltb (pos_part a + neg_part b) (pos_part b + neg_part a)

-- how many steps lead from the first to the second, where it is no less
abbrev pub distance : ℤ → ℤ → ℕ
distance a b = pos_part b + neg_part a - (pos_part a + neg_part b)

-- -n, for a magnitude that an int64 can have
abbrev negated : ℕ → Option ℤ
negated n = if leb n (max_int + 1) then some (sub_ℕ 0 n) else none

abbrev plain : ℕ → Option ℤ
plain n = if leb n max_int then some (pos n) else none

-- strconv.ParseInt(s, 10, 64)
unfoldable pub parse_int : Text → Option ℤ
unfolding read_unsigned read_digits
parse_int [] = none
parse_int (c ∷ s) =
    if nat_beq c b'+'
    then read_unsigned s >>= plain
    else if nat_beq c b'-'
    then read_unsigned s >>= negated
    else read_unsigned (c ∷ s) >>= plain

-- strconv.FormatInt(n, 10)
unfoldable pub format_int : ℤ → Text
unfolding decimal
format_int (pos n) = decimal n
format_int (negsuc n) = b'-' ∷ decimal (suc n)
