-- ===== src/Pgn/Extract.antt =====
-- apps/db_to_spills/extractor.{h,cpp}: the headers of a game.
use out_of_book.Prelude.{
  ℕ, zero, suc, ◌+◌, ◌-◌, ◌*◌, ◌/◌, ◌%◌, ◌^◌, ◌≤◌, ◌<◌, ◌≡◌, List, [], ◌∷◌, ◌++◌, Bool, true, false,
  not, ◌==◌, ◌&&◌, ◌||◌, ltb, leb, if◌then◌else◌, Option, none, some, length, take, drop, get_or,
}
use out_of_book.Text.{bytes, bytes_eq, cut, is_empty, is_digit, starts_with, find_byte}
use out_of_book.Spill.RecordCache.{GameResult}
pub mod Laws

-- An `int`, by its sign and its size.
pub record Signed : Type 0 where
  pub negative : Bool
  pub magnitude : ℕ

abbrev pub distance_of : ℕ → ℕ → ℕ
distance_of a b = if leb a b then b - a else a - b

abbrev pub same_sign : Bool → Bool → Bool
same_sign true true = true
same_sign false false = true
same_sign _ _ = false

abbrev pub difference : Signed → Signed → ℕ
difference a b =
    if same_sign a.negative b.negative
    then distance_of a.magnitude b.magnitude
    else a.magnitude + b.magnitude

-- `std::abs(a)`, where `none` is an overflow of `int`.
unfoldable pub abs_of : ℕ → Option ℕ
abs_of magnitude = if ltb (2 ^ 31 - 1) magnitude then none else some magnitude

-- `std::abs(a - b)`: if the difference outgrows an `int`, then so does its size.
unfoldable pub abs_diff : Signed → Signed → Option ℕ
abs_diff a b = abs_of (difference a b)

-- The digits at the front, on top of those before.
unfoldable pub digits_value : ℕ → List ℕ → ℕ
digits_value n [] = n
digits_value n (c ∷ s) =
    let more = digits_value (n * 10 + (c - b'0')) s in if is_digit c then more else n

abbrev pub starts_with_digit : List ℕ → Bool
starts_with_digit s = is_digit (get_or s 0 0)

abbrev pub within_int : Bool → ℕ → Option Signed
within_int negative n =
    if leb n (if negative then 2 ^ 31 else 2 ^ 31 - 1)
    then some (record { negative = negative; magnitude = n })
    else none

-- `std::from_chars`; `none` is an error code, which the assertion refuses.
unfoldable pub parse_int : List ℕ → Option Signed
parse_int s =
    let negative = get_or s 0 0 == b'-' in
    let digits = if negative then drop 1 s else s in
    if starts_with_digit digits then within_int negative (digits_value 0 digits) else none

-- The places of the first and the last quotation mark.
unfoldable pub find_last : ℕ → List ℕ → Option ℕ
find_last c [] = none
find_last c (x ∷ s) = elim (find_last c s) [
  | some i ↦ some (suc i)
  | none ↦ if x == c then some 0 else none
]

-- `line.substr(a + 1, b - a - 1)`: the rest of the line where there is one mark only, and the whole
-- line, by way of `npos`, where there is none.
unfoldable pub quoted_between : Option ℕ → Option ℕ → List ℕ → List ℕ
quoted_between none b line = line
quoted_between (some a) none line = line
quoted_between (some a) (some b) line =
    if a == b then drop (a + 1) line else take (b - a - 1) (drop (a + 1) line)

unfoldable pub quoted_value : List ℕ → List ℕ
quoted_value line = quoted_between (find_byte b'"' line) (find_last b'"' line) line

pub record Metadata : Type 0 where
  pub white_elo : Signed
  pub black_elo : Signed
  pub result : GameResult
  pub moves : List ℕ

-- The local variables, an absent value for one that no header has set.
pub record Headers : Type 0 where
  pub white_elo : Option Signed
  pub black_elo : Option Signed
  pub result : Option GameResult

abbrev pub no_headers : Headers
no_headers = record { white_elo = none; black_elo = none; result = none }

-- What a line does: a failed assertion or an overflow, a game that is refused, or the headers so far.
pub data Step : Type 0 where
  failed refused : Step
  going : Headers → Step

-- Whether a number is over a limit, if it did not overflow.
abbrev pub over : ℕ → Option ℕ → Option Bool
over limit none = none
over limit (some n) = some (ltb limit n)

abbrev pub too_far : Option Signed → Signed → Option Bool
too_far none a = some false
too_far (some b) a = over 200 (abs_diff a b)

abbrev pub refuse_if : Option Bool → Headers → Step
refuse_if none h = failed
refuse_if (some far) h = if far then refused else going h

unfoldable pub title_line : List ℕ → Headers → Step
title_line v h = if bytes_eq v (bytes "BOT") then refused else going h

-- `quotedValue(line).substr(1)`, which throws on an empty value.
abbrev pub value_behind_sign : List ℕ → Option Signed
value_behind_sign v = if is_empty v then none else parse_int (drop 1 v)

unfoldable pub white_elo_line : Option Signed → Headers → Step
white_elo_line none h = failed
white_elo_line (some a) h = refuse_if (too_far h.black_elo a) (record h { white_elo = some a })

unfoldable pub black_elo_line : Option Signed → Headers → Step
black_elo_line none h = failed
black_elo_line (some a) h = refuse_if (too_far h.white_elo a) (record h { black_elo = some a })

unfoldable pub rating_diff_line : Option Signed → Headers → Step
rating_diff_line none h = failed
rating_diff_line (some d) h = refuse_if (over 39 (abs_of d.magnitude)) h

unfoldable pub base_line : Option Signed → Headers → Step
base_line none h = failed
base_line (some base) h = if base.negative || ltb base.magnitude 180 then refused else going h

unfoldable pub time_control_line : List ℕ → Headers → Step
time_control_line tc h = elim (cut b'+' tc).1 [
  | none ↦ refused
  | some _ ↦ base_line (parse_int (cut b'+' tc).0) h
]

unfoldable pub result_line : List ℕ → Headers → Step
result_line r h =
    if bytes_eq r (bytes "1-0")
    then going (record h { result = some GameResult.white_win })
    else if bytes_eq r (bytes "0-1")
    then going (record h { result = some GameResult.black_win })
    else if bytes_eq r (bytes "1/2-1/2")
    then going (record h { result = some GameResult.draw })
    else refused

unfoldable pub header_line : List ℕ → Headers → Step
header_line line h =
    if starts_with line (bytes "[WhiteTitle ") || starts_with line (bytes "[BlackTitle ")
    then title_line (quoted_value line) h
    else if starts_with line (bytes "[WhiteElo ")
    then white_elo_line (parse_int (quoted_value line)) h
    else if starts_with line (bytes "[BlackElo ")
    then black_elo_line (parse_int (quoted_value line)) h
    else if starts_with line (bytes "[WhiteRatingDiff ")
        || starts_with line (bytes "[BlackRatingDiff ")
    then rating_diff_line (value_behind_sign (quoted_value line)) h
    else if starts_with line (bytes "[TimeControl ")
    then time_control_line (quoted_value line) h
    else if starts_with line (bytes "[Result ")
    then result_line (quoted_value line) h
    else going h

-- "Strip trailing '\r'"
unfoldable pub strip : List ℕ → List ℕ
strip line = if get_or line (length line - 1) 0 == 13 then take (length line - 1) line else line

-- What the end of the headers makes of them: a game that is accepted, or one that is refused.
pub data Verdict : Type 0 where
  broken rejected : Verdict
  accepted : Metadata → Verdict

unfoldable pub conclude : Option Signed → Option Signed → Option GameResult → List ℕ → Verdict
conclude (some w) (some b) (some r) moves =
    accepted (record { white_elo = w; black_elo = b; result = r; moves = moves })
conclude _ _ _ moves = rejected

-- `game.substr(end + 1)` throws where the empty line is the last and has no end.
unfoldable pub end_of_headers : Option (List ℕ) → Headers → Verdict
end_of_headers none h = broken
end_of_headers (some moves) h = conclude h.white_elo h.black_elo h.result moves

abbrev pub or_empty : Option (List ℕ) → List ℕ
or_empty none = []
or_empty (some s) = s

-- The lines of the game, one for each round; every round but the last uses one up.
unfoldable pub header_loop : ℕ → List ℕ → Headers → Verdict
header_loop zero game h = rejected
header_loop (suc n) game h =
    let line = strip (cut 10 game).0 in
    if is_empty game
    then rejected
    else if is_empty line
    then end_of_headers (cut 10 game).1 h
    else elim (header_line line h) [
      | failed ↦ broken
      | refused ↦ rejected
      | going h' ↦ header_loop n (or_empty (cut 10 game).1) h'
    ]

unfoldable pub extract_metadata : List ℕ → Verdict
extract_metadata game = header_loop (suc (length game)) game no_headers
