-- ===== src/Tests/Reading.antt =====
-- The theorems about whole runs of the reading stage, and about its queue, at concrete inputs.
use out_of_book.Prelude.{
  ℕ, ◌+◌, ◌≡◌, List, [], ◌∷◌, ◌++◌, Option, none, some, arith, refl, length, map,
}
use out_of_book.Text.{bytes, bytes_eq, cut, starts_with, find_byte, drop_while}
use out_of_book.Spill.{SpillRecord, Key, Counter, tally, tallies}
use out_of_book.Spill.RecordCache.{Config, GameResult, Played, record_of}
use out_of_book.Spill.RecordCache.Tally.{IsConfig}
use out_of_book.Pgn.Extract
use out_of_book.Pgn.Extract.{extract_metadata}
use out_of_book.Pgn.Moves
use out_of_book.Pgn.Game
use out_of_book.Pgn.Blob
use out_of_book.Pgn.Blob.{find_text, event, process_blob}
use out_of_book.Pgn.Database
use out_of_book.Pgn.Database.{PgnBlob, produce, worker_calls, process_db}
use out_of_book.Pgn.Database.Chunks.{
  all_games, cut_chunk, cut_chunks, nil, cons, all_games-cut_chunks,
}
use out_of_book.Pgn.Database.Shares.{process_db-tally}

-- A position is a number of moves, and every text is a move.
abbrev key_of : ℕ → ℕ
key_of p = p + 100

abbrev next_of : ℕ → ℕ → ℕ
next_of p m = p + 1

abbrev any_move : List ℕ → ℕ → Option ℕ
any_move raw p = some (length raw)

abbrev first_chunk : List ℕ
first_chunk =
    bytes "[Event]"
    ++ (10
        ∷ (bytes "[WhiteElo \"1500\"]"
            ++ (10
                ∷ (bytes "[BlackElo \"1600\"]"
                    ++ (10
                        ∷ (bytes "[Result \"1-0\"]"
                            ++ (10 ∷ (10 ∷ bytes "1. e4 e5 2. Nf3 Nc6 3. Bb5 1-0"))))))))

abbrev last_chunk : List ℕ
last_chunk = bytes "[Event]"

abbrev played_at : ℕ → ℕ → Played
played_at p move = record { zobrist = p; move = move; bucket = 3; result = GameResult.white_win }

abbrev calls : List Played
calls =
    played_at 100 2
    ∷ played_at 101 2
    ∷ played_at 102 3
    ∷ played_at 103 3
    ∷ played_at 104 3
    ∷ played_at 105 130
    ∷ []

first_chunk_calls :
    worker_calls ℕ key_of next_of any_move 0 (produce none (first_chunk ∷ last_chunk ∷ []))
    ≡ some calls
unfolding worker_calls produce Database.process_games Database.process_single_game
    Database.rated_game Database.add_signed Database.rating_bucket process_blob Blob.games_loop
    Blob.last_game find_text extract_metadata Extract.header_loop Extract.strip Extract.header_line
    Extract.end_of_headers Extract.conclude Extract.white_elo_line Extract.black_elo_line
    Extract.result_line Extract.quoted_value Extract.quoted_between Extract.find_last
    Extract.parse_int Extract.digits_value Extract.abs_of Extract.abs_diff cut starts_with find_byte
    bytes_eq Moves.moves_of Moves.moves_loop Moves.token_of Moves.take_while Game.process_game
    Game.for_each_move Game.on_move Game.next_move Game.count_move Game.process_moves
    Game.process_move Game.play Game.end_game drop_while
first_chunk_calls = refl

abbrev small : Config
small = record { slot_bits = 1; max_run = 1; shard_bits = 1; buffer_records = 2 }

small-IsConfig : IsConfig small
small-IsConfig = record { shards = omega arith }

abbrev start_key : Key
start_key = record { zobrist = 100; move = 2; bucket = 3 }

abbrev popped_by : List ℕ
popped_by = 4 ∷ []

one_pair : length popped_by ≡ length (produce none (first_chunk ∷ last_chunk ∷ []))
unfolding produce
one_pair = refl

process_db-tally_example :
    (files : List (List SpillRecord)) × (process_db ℕ key_of next_of any_move 0 small
        (first_chunk ∷ last_chunk ∷ [])
        popped_by
      ≡ some files)
    × (tallies start_key Counter.count files ≡ tally start_key Counter.count (map record_of calls))
process_db-tally_example =
    process_db-tally ℕ key_of next_of any_move 0 start_key Counter.count small small-IsConfig
      (omega arith) (first_chunk ∷ last_chunk ∷ []) popped_by calls one_pair (omega arith)
      first_chunk_calls (omega arith) (omega arith)

-- Three games in two chunks, the second of which goes on in the second chunk.
abbrev some_games : List ℕ
some_games = bytes "[Event a][Event b"

abbrev more_games : List ℕ
more_games = bytes "] [Event c]"

some_begin : find_text event some_games ≡ some 0
unfolding find_text starts_with
some_begin = refl

more_begin : find_text event more_games ≡ some 2
unfolding find_text starts_with
more_begin = refl

two_games :
    (cut_chunks some_games (more_games ∷ [])).games ≡ bytes "[Event a]" ∷ bytes "[Event b] " ∷ []
unfolding cut_chunks cut_chunk starts_with
two_games = refl

all_games-cut_chunks_example :
    all_games (produce none (some_games ∷ more_games ∷ []))
    ≡ (cut_chunks some_games (more_games ∷ [])).games
all_games-cut_chunks_example =
    all_games-cut_chunks some_games (more_games ∷ []) 0 some_begin (cons 2 more_begin nil)
