-- ===== src/Otb/Bytes.antt =====
-- Little-endian numbers in a byte sequence, as the structs of libs/common/common.h lie in memory.
use out_of_book.Prelude.{
  ℕ, zero, suc, ◌+◌, ◌*◌, ◌/◌, ◌%◌, ◌^◌, ◌<◌, ◌≡◌, List, [], ◌∷◌, ◌++◌, length, take, drop,
  take_exact, drop_exact, arith, refl, ap,
}
use native.Mathlib.Nat.{pow-suc, div-lt_iff_lt-mul}

unfoldable pub to_le : ℕ → ℕ → List ℕ
to_le zero x = []
to_le (suc n) x = x % 256 ∷ to_le n (x / 256)

unfoldable pub of_le : List ℕ → ℕ
of_le [] = 0
of_le (b ∷ bs) = b + 256 * of_le bs

pub length-to_le : (n x : ℕ) → length (to_le n x) ≡ n
unfolding to_le
length-to_le zero x = refl
length-to_le (suc n) x = ap suc (length-to_le n (x / 256))

div-lt_pow : (n x : ℕ) → x < 256 ^ suc n → x / 256 < 256 ^ n
div-lt_pow n x h = (div-lt_iff_lt-mul (omega arith)).1 (rw pow-suc at h)

pub of_le-to_le : (n x : ℕ) → x < 256 ^ n → of_le (to_le n x) ≡ x
unfolding to_le of_le
of_le-to_le zero x h = omega arith
of_le-to_le (suc n) x h = omega (arith, of_le-to_le n (x / 256) (div-lt_pow n x h))

-- A number of `n` bytes in front, and what follows it.
unfoldable pub read_le : ℕ → List ℕ → ℕ × List ℕ
read_le n bs = (of_le (take n bs), drop n bs)

pub read_le-to_le :
    (n x : ℕ) (rest : List ℕ) → x < 256 ^ n → read_le n (to_le n x ++ rest) ≡ (x, rest)
unfolding read_le
read_le-to_le n x rest h = rw (
  take_exact n (to_le n x) rest (length-to_le n x),
  drop_exact n (to_le n x) rest (length-to_le n x),
  of_le-to_le n x h,
)
