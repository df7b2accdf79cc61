-- ===== src/Tests/Games.antt =====
-- The theorems about the reading of games at concrete inputs.
use out_of_book.Prelude.{ℕ, ◌+◌, ◌≡◌, List, [], ◌∷◌, ◌++◌, false, Option, some, refl, length}
use out_of_book.Text.{bytes, bytes_eq, cut, starts_with, find_byte}
use out_of_book.Spill.RecordCache.{GameResult}
use out_of_book.Pgn.Extract
use out_of_book.Pgn.Extract.{abs_diff, accepted, Metadata, extract_metadata}
use out_of_book.Pgn.Extract.Laws.{Close, extract_metadata-abs_diff}
use out_of_book.Pgn.Game.{process_game}
use out_of_book.Pgn.Game.Replay.{counted, process_game-counted}
use out_of_book.Pgn.Blob.{find_text, event}

abbrev headers : List ℕ
headers =
    bytes "[WhiteElo \"1500\"]"
    ++ (10
        ∷ (bytes "[BlackElo \"1600\"]"
            ++ (10 ∷ (bytes "[Result \"1-0\"]" ++ (10 ∷ (10 ∷ bytes "1. e4 e5 1-0"))))))

abbrev metadata : Metadata
metadata = record {
  white_elo = record { negative = false; magnitude = 1500 };
  black_elo = record { negative = false; magnitude = 1600 };
  result = GameResult.white_win;
  moves = bytes "1. e4 e5 1-0";
}

headers_read : extract_metadata headers ≡ accepted metadata
unfolding extract_metadata Extract.header_loop Extract.strip Extract.header_line
    Extract.end_of_headers Extract.conclude Extract.white_elo_line Extract.black_elo_line
    Extract.result_line Extract.quoted_value Extract.quoted_between Extract.find_last
    Extract.parse_int Extract.digits_value Extract.abs_of abs_diff cut starts_with find_byte
    bytes_eq
headers_read = refl

extract_metadata-abs_diff_example : Close metadata.white_elo metadata.black_elo
extract_metadata-abs_diff_example = extract_metadata-abs_diff headers metadata headers_read

-- A position is a number of moves, and every text is a move.
abbrev key_of : ℕ → ℕ
key_of p = p + 100

abbrev next_of : ℕ → ℕ → ℕ
next_of p m = p + 1

abbrev any_move : List ℕ → ℕ → Option ℕ
any_move raw p = some (length raw)

abbrev five_moves : List (List ℕ)
five_moves = bytes "e4" ∷ bytes "e5" ∷ bytes "Nf3" ∷ bytes "Nc6" ∷ bytes "Bb5" ∷ []

process_game-counted_example :
    process_game ℕ key_of next_of any_move 3 GameResult.draw 0 five_moves
    ≡ counted ℕ key_of next_of any_move 3 GameResult.draw five_moves 0
process_game-counted_example =
    process_game-counted ℕ key_of next_of any_move 3 GameResult.draw 0 five_moves

abbrev chunk : List ℕ
chunk = bytes "x[Event a[Event b"

chunk_starts : find_text event chunk ≡ some 1
unfolding find_text starts_with
chunk_starts = refl
