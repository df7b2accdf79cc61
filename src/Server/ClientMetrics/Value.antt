-- ===== src/Server/ClientMetrics/Value.antt =====
-- ClientMetrics.cpp: `parseValue` beside the decimal numbers.
use out_of_book.Prelude.{
  ℕ, zero, suc, ◌+◌, ◌-◌, ◌*◌, ◌/◌, ◌≤◌, ◌<◌, ◌≡◌, List, [], ◌∷◌, ◌||◌, ltb, if◌then◌else◌, none,
  some, length, arith, refl, Bool-cases, inl, inr,
}
use out_of_book.Text.{is_digit, is_empty, all_of}
use out_of_book.Server.ClientMetrics.{value_loop, parse_value}

-- The number that a string of digits stands for, with no bound.
unfoldable pub decimal : ℕ → List ℕ → ℕ
decimal acc [] = acc
decimal acc (c ∷ cs) = decimal (acc * 10 + (c - b'0')) cs

-- What `n` more digits may start from, to end below 10 ^ 9.
limit : ℕ → ℕ
limit zero = 1_000_000_000
limit (suc n) = limit n / 10

limit-le : (n : ℕ) → limit n ≤ 1_000_000_000
unfolding limit
limit-le zero = omega arith
limit-le (suc n) = omega (arith, limit-le n)

limit-pos : (n : ℕ) → n ≤ 9 → 0 < limit n
unfolding limit
limit-pos n h = below (9 - n) n (omega arith)
  where
    below : (k m : ℕ) → m + k ≡ 9 → 0 < limit m
    below zero m e = rw (let m9 : m ≡ 9 = omega arith in m9) (omega arith)
    below (suc k) m e = let ih = below k (suc m) (omega arith) in omega arith

value_loop_lem :
    (acc : ℕ) (cs : List ℕ)
    → acc < limit (length cs)
    → value_loop acc cs ≡ (if all_of is_digit cs then some (decimal acc cs) else none)
unfolding value_loop decimal limit
value_loop_lem acc [] h = refl
value_loop_lem acc (c ∷ cs) h =
    ground (arith, limit-le (length cs), value_loop_lem (acc * 10 + (c - b'0')) cs)

-- `parseValue` accepts the strings of one to nine digits, and returns the number that they stand
-- for: the 32-bit accumulator does not wrap around.
pub parse_value-decimal :
    (text : List ℕ)
    → parse_value text ≡ (
        if is_empty text || ltb 9 (length text)
        then none
        else if all_of is_digit text
        then some (decimal 0 text)
        else none)
unfolding parse_value
parse_value-decimal text = elim (Bool-cases (is_empty text || ltb 9 (length text))) [
  | inl e ↦ rw e
  | inr e ↦ rw e (value_loop_lem 0 text (limit-pos (length text) (ground arith)))
]
