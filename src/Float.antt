-- ===== src/Float.antt =====
-- float64 values as 64-bit patterns, with Go's comparisons.
use httptape.Prelude.{ℕ, ◌+◌, ◌-◌, ◌%◌, ◌^◌, Bool, not, ◌&&◌, ltb, nat_beq, if◌then◌else◌}

-- above the pattern of an infinity, the sign left aside
unfoldable pub is_nan : ℕ → Bool
is_nan a = ltb 0x7ff0000000000000 (a % 2 ^ 63)

-- The order of the patterns that are no NaN as an order of numbers; both zeros have one key.
unfoldable pub float_key : ℕ → ℕ
float_key a = if ltb a (2 ^ 63) then 2 ^ 63 + a else 2 ^ 64 - a

-- `<` and `==`
unfoldable pub float_less : ℕ → ℕ → Bool
unfolding is_nan float_key
float_less a b = not (is_nan a) && not (is_nan b) && ltb (float_key a) (float_key b)

unfoldable pub float_equal : ℕ → ℕ → Bool
unfolding is_nan float_key
float_equal a b = not (is_nan a) && not (is_nan b) && nat_beq (float_key a) (float_key b)

abbrev pub float_one : ℕ
float_one = 0x3ff0000000000000
