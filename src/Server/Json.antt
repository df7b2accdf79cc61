-- ===== src/Server/Json.antt =====
-- web/server/Json.h: the append-only JSON writer.
use out_of_book.Prelude.{
  ℕ, zero, suc, ◌+◌, ◌-◌, ◌/◌, ◌%◌, ◌≤◌, ◌<◌, ◌≡◌, List, [], ◌∷◌, ◌++◌, Bool, true, false, ◌==◌,
  ltb, if◌then◌else◌,
}
use out_of_book.Text.{bytes}
use out_of_book.Text.Decimal.{to_string}
use out_of_book.Server.FloatBits.{is_finite}
pub mod Escape
pub mod Tree

-- `out_` and `needComma_`
pub record Json : Type 0 where
  pub out : List ℕ
  pub need_comma : Bool

abbrev pub empty : Json
empty = record { out = []; need_comma = false }

abbrev pub append : List ℕ → Json → Json
append s j = record j { out = j.out ++ s }

unfoldable pub sep : Json → Json
sep j = record { out = (if j.need_comma then j.out ++ b',' ∷ [] else j.out); need_comma = true }

unfoldable pub begin_object : Json → Json
begin_object j = record (append (b'{' ∷ []) (sep j)) { need_comma = false }

unfoldable pub end_object : Json → Json
end_object j = record (append (b'}' ∷ []) j) { need_comma = true }

unfoldable pub begin_array : Json → Json
begin_array j = record (append (b'[' ∷ []) (sep j)) { need_comma = false }

unfoldable pub end_array : Json → Json
end_array j = record (append (b']' ∷ []) j) { need_comma = true }

-- One digit of `%04x`.
abbrev pub hex_digit : ℕ → ℕ
hex_digit d = if ltb d 10 then b'0' + d else b'a' + (d - 10)

-- The cases of `writeString`: `\u%04x` stands for a byte below 0x20, whose first two digits are 0.
unfoldable pub escape : ℕ → List ℕ
escape c =
    if c == b'"'
    then bytes "\\\""
    else if c == 92
    then bytes "\\\\"
    else if c == 10
    then bytes "\\n"
    else if c == 13
    then bytes "\\r"
    else if c == 9
    then bytes "\\t"
    else if ltb c 0x20
    then bytes "\\u00" ++ (hex_digit (c / 16) ∷ hex_digit (c % 16) ∷ [])
    else c ∷ []

unfoldable pub escape_all : List ℕ → List ℕ
escape_all [] = []
escape_all (c ∷ cs) = escape c ++ escape_all cs

unfoldable pub write_string : List ℕ → Json → Json
write_string v j = append (b'"' ∷ (escape_all v ++ b'"' ∷ [])) j

unfoldable pub key : List ℕ → Json → Json
key k j = record (append (b':' ∷ []) (write_string k (sep j))) { need_comma = false }

unfoldable pub value_string : List ℕ → Json → Json
value_string v j = write_string v (sep j)

unfoldable pub value_bool : Bool → Json → Json
value_bool v j = append (if v then bytes "true" else bytes "false") (sep j)

unfoldable pub value_unsigned : ℕ → Json → Json
value_unsigned v j = append (to_string v) (sep j)

-- `value(int)`: the sign, and the magnitude.
unfoldable pub value_int : Bool → ℕ → Json → Json
value_int negative v j = append (if negative then b'-' ∷ to_string v else to_string v) (sep j)

-- `value(double)`, by its bits. `format` is what `snprintf` prints under `%.6g`.
unfoldable pub value_double : (ℕ → List ℕ) → ℕ → Json → Json
value_double format bits j =
    if is_finite bits then append (format bits) (sep j) else append (bytes "null") (sep j)

unfoldable pub null : Json → Json
null j = append (bytes "null") (sep j)

unfoldable pub null_field : List ℕ → Json → Json
null_field k j = null (key k j)
