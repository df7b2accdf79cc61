-- ===== src/Text/Decimal.antt =====
-- `std::to_string` of an unsigned number.
use out_of_book.Prelude.{ℕ, zero, suc, ◌+◌, ◌/◌, ◌%◌, List, [], ◌∷◌, ◌++◌, ltb, if◌then◌else◌}

-- The digits of `n`, on fuel; `n` itself is always enough.
unfoldable pub digits_fuel : ℕ → ℕ → List ℕ
digits_fuel zero n = (b'0' + n % 10) ∷ []
digits_fuel (suc f) n =
    let front = digits_fuel f (n / 10) in
    if ltb n 10 then (b'0' + n) ∷ [] else front ++ ((b'0' + n % 10) ∷ [])

unfoldable pub to_string : ℕ → List ℕ
unfolding digits_fuel
to_string n = digits_fuel n n
