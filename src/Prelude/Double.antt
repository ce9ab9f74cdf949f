-- ===== src/Prelude/Double.antt =====
-- IEEE 754 binary64 numbers as 64-bit patterns, with the order and equality of Go's float64.
use capsule.Prelude.{ℕ, ◌%◌, ◌^◌, Bool, ◌&&◌, not, ltb, if◌then◌else◌}
use capsule.Prelude.Int.{ℤ, pos, sub_ℕ, eqb_ℤ, ltb_ℤ, leb_ℤ}

-- The pattern without its sign bit.
abbrev pub magnitude : ℕ → ℕ
magnitude d = d % 2 ^ 63

-- All exponent bits are set and the fraction is not zero.
abbrev pub is_nan : ℕ → Bool
is_nan d = ltb 0x7ff0000000000000 (magnitude d)

-- Patterns that are no NaN are ordered like these integers; both zeros give 0.
abbrev pub rank : ℕ → ℤ
rank d = if ltb d (2 ^ 63) then pos d else sub_ℕ 0 (magnitude d)

abbrev pub ordered : ℕ → ℕ → Bool
ordered a b = not (is_nan a) && not (is_nan b)

unfoldable pub double_eq : ℕ → ℕ → Bool
double_eq a b = ordered a b && eqb_ℤ (rank a) (rank b)

unfoldable pub double_lt : ℕ → ℕ → Bool
double_lt a b = ordered a b && ltb_ℤ (rank a) (rank b)

unfoldable pub double_le : ℕ → ℕ → Bool
double_le a b = ordered a b && leb_ℤ (rank a) (rank b)
