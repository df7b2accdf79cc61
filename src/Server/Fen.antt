-- ===== src/Server/Fen.antt =====
-- web/server/Fen.h: whether the position parser may be given a FEN, and the reason where not.
use out_of_book.Prelude.{
  ℕ, zero, suc, ◌+◌, ◌-◌, ◌≡◌, List, [], ◌∷◌, ◌++◌, Bool, true, false, ◌&&◌, ◌||◌, not, ◌==◌, ltb,
  leb, if◌then◌else◌, Option, none, some, length, get_or, set, replicate, max,
}
use out_of_book.Text.{
  bytes, bytes_eq, is_space, is_digit, is_upper, is_empty, to_lower, to_upper, all_of,
}
pub mod Board
pub mod Pieces
pub mod Usable

abbrev pub max_length : ℕ
max_length = 200

-- The sentences that `validate` returns. A rank is named by its number, a piece by its character.
pub data Reason : Type 0 where
  empty too_long too_few_fields too_many_fields bad_spacing bad_ranks : Reason
  rank_not_eight rank_too_wide bad_piece : ℕ → Reason
  back_rank_pawn bad_kings adjacent_kings : Reason
  too_many_pieces : Bool → Reason
  bad_side bad_castling chess960_castling : Reason
  castling_no_king castling_no_rook : ℕ → Reason
  bad_en_passant counter_not_numeric counter_too_long zero_fullmove : Reason

-- `split`: the maximal runs of bytes that are not spaces. `token` is the run being read.
unfoldable pub split_loop : List ℕ → List ℕ → List (List ℕ)
split_loop token [] = if is_empty token then [] else token ∷ []
split_loop token (c ∷ s) =
    let after = split_loop [] s in
    let longer = split_loop (token ++ c ∷ []) s in
    if is_space c then (if is_empty token then after else token ∷ after) else longer

unfoldable pub split : List ℕ → List (List ℕ)
split s = split_loop [] s

-- The loop that builds `canonical`.
unfoldable pub join_loop : List ℕ → List (List ℕ) → List ℕ
join_loop canonical [] = canonical
join_loop canonical (field ∷ fields) =
    join_loop ((if is_empty canonical then [] else canonical ++ b' ' ∷ []) ++ field) fields

-- `detail::Type` by its number, 6 for none.
unfoldable pub type_of : ℕ → ℕ
type_of lower =
    if lower == b'p'
    then 0
    else if lower == b'n'
    then 1
    else if lower == b'b'
    then 2
    else if lower == b'r'
    then 3
    else if lower == b'q'
    then 4
    else if lower == b'k'
    then 5
    else 6

-- The variables `board.squares`, `board.count`, `row` and `col`.
pub record Scan : Type 0 where
  pub squares : List (List ℕ)
  pub white : List ℕ
  pub black : List ℕ
  pub row : ℕ
  pub col : ℕ

abbrev pub start : Scan
start = record {
  squares = replicate 8 (replicate 8 0);
  white = replicate 6 0;
  black = replicate 6 0;
  row = 0;
  col = 0;
}

pub data Verdict : Type 0 where
  going : Scan → Verdict
  reject : Reason → Verdict

abbrev pub at : Scan → ℕ → ℕ → ℕ
at b row col = get_or (get_or b.squares row []) col 0

abbrev pub tick : List ℕ → ℕ → List ℕ
tick counts type = set counts type (get_or counts type 0 + 1)

-- `board.squares[row][col] = c; ++board.count[c == lower ? 1 : 0][type]; ++col;`
unfoldable pub put_piece : ℕ → ℕ → ℕ → Scan → Scan
put_piece c lower type b = record {
  squares = set b.squares b.row (set (get_or b.squares b.row []) b.col c);
  white = if c == lower then b.white else tick b.white type;
  black = if c == lower then tick b.black type else b.black;
  row = b.row;
  col = b.col + 1;
}

-- One character of the board field.
unfoldable pub scan_step : ℕ → Scan → Verdict
scan_step c b =
    let lower = to_lower c in
    let type = type_of lower in
    if c == b'/'
    then (if not (b.col == 8)
        then reject (rank_not_eight (8 - b.row))
        else if ltb 7 (b.row + 1)
        then reject bad_ranks
        else going (record b { row = b.row + 1; col = 0 }))
    else if leb b'1' c && leb c b'8'
    then going (record b { col = b.col + (c - b'0') })
    else if type == 6
    then reject (bad_piece c)
    else if ltb 7 b.col
    then reject (rank_too_wide (8 - b.row))
    else if (type == 0) && ((b.row == 0) || (b.row == 7))
    then reject back_rank_pawn
    else going (put_piece c lower type b)

unfoldable pub scan : List ℕ → Scan → Verdict
scan [] b = going b
scan (c ∷ cs) b = elim (scan_step c b) [ reject r ↦ reject r | going b' ↦ scan cs b' ]

-- The two nested loops over the squares that note where a king stands: the last one found.
unfoldable pub seek_col : ℕ → ℕ → ℕ → List ℕ → ℕ × ℕ → ℕ × ℕ
seek_col king r f [] found = found
seek_col king r f (c ∷ cs) found = seek_col king r (suc f) cs (if c == king then (r, f) else found)

unfoldable pub seek_row : ℕ → ℕ → List (List ℕ) → ℕ × ℕ → ℕ × ℕ
seek_row king r [] found = found
seek_row king r (row ∷ rows) found = seek_row king (suc r) rows (seek_col king r 0 row found)

-- `std::abs(a - b) <= 1`
abbrev pub touches : ℕ → ℕ → Bool
touches a b = leb ((a - b) + (b - a)) 1

abbrev pub adjacent : ℕ × ℕ → ℕ × ℕ → Bool
adjacent (r, f) (r', f') = touches r r' && touches f f'

abbrev pub promotions : List ℕ → ℕ
promotions counts =
    ((get_or counts 4 0 - 1) + (get_or counts 3 0 - 2))
    + ((get_or counts 2 0 - 2) + (get_or counts 1 0 - 2))

-- The material section, on the finished board. No reason means that it goes on.
unfoldable pub check_material : Scan → Option Reason
check_material b =
    if not (get_or b.white 5 0 == 1) || not (get_or b.black 5 0 == 1)
    then some bad_kings
    else if adjacent (seek_row b'K' 0 b.squares (0, 0)) (seek_row b'k' 0 b.squares (0, 0))
    then some adjacent_kings
    else if ltb 8 (get_or b.white 0 0 + promotions b.white)
    then some (too_many_pieces true)
    else if ltb 8 (get_or b.black 0 0 + promotions b.black)
    then some (too_many_pieces false)
    else none

-- One castling character, cross-checked against the board.
unfoldable pub castling_step : Scan → ℕ → Option Reason
castling_step b c =
    let white = is_upper c in
    let side = to_upper c in
    let back_row : ℕ = if white then 7 else 0 in
    let rook_col : ℕ = if side == b'K' then 7 else 0 in
    if not (side == b'K') && not (side == b'Q')
    then some chess960_castling
    else if not (at b back_row 4 == (if white then b'K' else b'k'))
    then some (castling_no_king c)
    else if not (at b back_row rook_col == (if white then b'R' else b'r'))
    then some (castling_no_rook c)
    else none

unfoldable pub castling_loop : Scan → List ℕ → Option Reason
castling_loop b [] = none
castling_loop b (c ∷ cs) = elim (castling_step b c) [ some r ↦ some r | none ↦ castling_loop b cs ]

unfoldable pub check_castling : Scan → List ℕ → Option Reason
check_castling b field =
    if bytes_eq field (bytes "-")
    then none
    else if ltb 4 (length field)
    then some bad_castling
    else castling_loop b field

unfoldable pub check_en_passant : List ℕ → Option Reason
check_en_passant field =
    let file = get_or field 0 0 in
    let rank = get_or field 1 0 in
    if bytes_eq field (bytes "-")
    then none
    else if not (length field == 2)
        || (ltb file b'a' || (ltb b'h' file || (not (rank == b'3') && not (rank == b'6'))))
    then some bad_en_passant
    else none

-- The fields from index 4 on, of which there are at most two.
unfoldable pub check_counters : List (List ℕ) → Option Reason
check_counters [] = none
check_counters (field ∷ fields) =
    if not (all_of is_digit field)
    then some counter_not_numeric
    else if ltb 6 (length field)
    then some counter_too_long
    else check_counters fields

unfoldable pub check_fullmove : List (List ℕ) → Option Reason
check_fullmove fields =
    if leb 6 (length fields) && all_of (λ c. c == b'0') (get_or fields 5 [])
    then some zero_fullmove
    else none

-- The sections in turn, up to the first reason.
infixr 20 ◌orelse◌
abbrev pub ◌orelse◌ : Option Reason → Option Reason → Option Reason
some r orelse k = some r
none orelse k = k

abbrev pub side_to_move : List ℕ → Option Reason
side_to_move field =
    if not (bytes_eq field (bytes "w")) && not (bytes_eq field (bytes "b"))
    then some bad_side
    else none

-- Everything behind the board.
unfoldable pub check_rest : Scan → List (List ℕ) → Option Reason
check_rest b fields =
    check_material b
    orelse side_to_move (get_or fields 1 [])
    orelse check_castling b (get_or fields 2 [])
    orelse check_en_passant (get_or fields 3 [])
    orelse check_counters (out_of_book.Prelude.drop 4 fields)
    orelse check_fullmove fields

unfoldable pub check_board : Verdict → List (List ℕ) → Option Reason
check_board (reject r) fields = some r
check_board (going b) fields =
    if not (b.row == 7) || not (b.col == 8) then some bad_ranks else check_rest b fields

unfoldable pub check_fields : List ℕ → List (List ℕ) → Option Reason
check_fields fen fields =
    if ltb (length fields) 4
    then some too_few_fields
    else if ltb 6 (length fields)
    then some too_many_fields
    else if not (bytes_eq (join_loop [] fields) fen)
    then some bad_spacing
    else check_board (scan (get_or fields 0 []) start) fields

-- `none` is `std::nullopt`: the FEN is usable.
unfoldable pub validate : List ℕ → Option Reason
validate fen =
    if is_empty fen
    then some empty
    else if ltb max_length (length fen)
    then some too_long
    else check_fields fen (split fen)
