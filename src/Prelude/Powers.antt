-- ===== src/Prelude/Powers.antt =====
-- Powers of two, for shifts and masks of a variable width.
use Prim.Native.Nat.{ℕ, zero, suc, ◌+◌, ◌-◌, ◌*◌, ◌/◌, ◌%◌, ◌^◌, ◌≤◌, ◌<◌}
use mathlib.Core.Path.{◌≡◌}
use native.Mathlib.Nat.{pow-suc, pow-zero, mod-lt, div-lt_iff_lt-mul, add-zero, add-suc}
use native.Mathlib.Omega.{arith}

pub pow_add : (m n : ℕ) → 2 ^ (m + n) ≡ 2 ^ m * 2 ^ n
pow_add m zero = rw (add-zero, pow-zero) (omega arith)
pow_add m (suc n) = rw (add-suc, pow-suc, pow-suc 2 n, pow_add m n) (omega arith)

pub pow_pos : (n : ℕ) → 0 < 2 ^ n
pow_pos zero = omega arith
pow_pos (suc n) = omega (arith, pow_pos n, pow-suc 2 n)

pub mod_pow-lt : (x n : ℕ) → x % 2 ^ n < 2 ^ n
mod_pow-lt x n = mod-lt x (pow_pos n)

-- `x >> (m - n)` of an `m`-bit number has `n` bits.
pub shr-lt : (x m n : ℕ) → n ≤ m → x < 2 ^ m → x / 2 ^ (m - n) < 2 ^ n
shr-lt x m n h lt =
    let e : m ≡ n + (m - n) = omega arith in
    (div-lt_iff_lt-mul (pow_pos (m - n))).1 (rw (← pow_add n (m - n), ← e) lt)
