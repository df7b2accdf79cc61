-- ===== src/Server/FloatBits.antt =====
-- libs/common/FloatBits.h: a double by its 64 bits.
use out_of_book.Prelude.{ℕ, ◌*◌, ◌/◌, ◌%◌, ◌^◌, ◌≡◌, ◌↔◌, Bool, true, false, ◌&&◌, not, ◌==◌, arith}

-- `bits & EXPONENT`, shifted down, and `bits & MANTISSA`
abbrev pub exponent_of : ℕ → ℕ
exponent_of bits = bits / 2 ^ 52 % 2 ^ 11

abbrev pub mantissa_of : ℕ → ℕ
mantissa_of bits = bits % 2 ^ 52

unfoldable pub is_finite : ℕ → Bool
is_finite bits = not (exponent_of bits == 0x7ff)

unfoldable pub is_nan : ℕ → Bool
is_nan bits = (exponent_of bits == 0x7ff) && not (mantissa_of bits == 0)

-- A 64-bit pattern is an infinity: either sign, no mantissa.
abbrev pub IsInfinity : ℕ → Type 0
IsInfinity bits = (bits % 2 ^ 63 ≡ 0x7ff * 2 ^ 52)

-- A double is finite exactly when it is neither a NaN nor one of the two infinities.
pub is_finite_iff :
    (bits : ℕ) → (is_finite bits ≡ true) ↔ ((is_nan bits ≡ false) × (¬ IsInfinity bits))
unfolding is_finite is_nan
is_finite_iff bits = (λ h. (ground arith, λ i. ground arith), λ h. ground arith)
