-- ===== src/Pgn/Database.antt =====
-- apps/db_to_spills/db_to_spills.cpp: one game from its text to its calls of `RecordCache::add`, the
-- producer that pairs each chunk of text with the next one, and the workers that share the pairs.
use out_of_book.Prelude.{
  ℕ, zero, suc, ◌+◌, ◌-◌, ◌/◌, ◌^◌, ◌≤◌, ◌<◌, ◌≡◌, ◌∙◌, List, [], ◌∷◌, ◌++◌, Option, none, some,
  Bool, true, false, ◌==◌, ltb, leb, if◌then◌else◌, arith, refl, ap, length, take, drop,
}
use out_of_book.Spill.{SpillRecord}
use out_of_book.Spill.RecordCache.{Config, RecordCache, Played, GameResult, init, add_all, destroy}
use out_of_book.Pgn.Extract.{
  Signed, same_sign, within_int, Metadata, Verdict, broken, rejected, accepted, extract_metadata,
}
use out_of_book.Pgn.Moves.{moves_of}
use out_of_book.Pgn.Game.{process_game}
use out_of_book.Pgn.Blob.{process_blob}
pub mod Chunks
pub mod Shares

-- `ratingBucket` of types.h
unfoldable pub rating_bucket : Signed → ℕ
rating_bucket rating =
    if rating.negative
    then 0
    else if ltb rating.magnitude 1000
    then 0
    else if leb 2400 rating.magnitude
    then 8
    else 1 + (rating.magnitude - 1000) / 200

-- `a + b` of two `int`s, where `none` is an overflow.
unfoldable pub add_signed : Signed → Signed → Option Signed
add_signed a b =
    if same_sign a.negative b.negative
    then within_int a.negative (a.magnitude + b.magnitude)
    else if leb b.magnitude a.magnitude
    then some (record a { magnitude = a.magnitude - b.magnitude })
    else some (record b { magnitude = b.magnitude - a.magnitude })

-- `sum / 2`, which rounds towards zero.
abbrev pub halve : Signed → Signed
halve sum = record sum { magnitude = sum.magnitude / 2 }

-- A chunk of text and the one behind it. `processDB` only makes pairs where there is one.
pub record PgnBlob : Type 0 where
  pub blob : List ℕ
  pub next_blob : Option (List ℕ)

-- The producer's loop over the chunks that are read: `lastChunk` is what is paired next.
unfoldable pub produce : Option (List ℕ) → List (List ℕ) → List PgnBlob
produce last_chunk [] = []
produce none (c ∷ chunks) = produce (some c) chunks
produce (some l) (c ∷ chunks) = record { blob = l; next_blob = some c } ∷ produce (some c) chunks

-- The blobs that one worker pops, given the number of the worker that pops each of them.
unfoldable pub share : ℕ → List ℕ → List PgnBlob → List PgnBlob
share w [] blobs = []
share w (t ∷ tags) [] = []
share w (t ∷ tags) (b ∷ blobs) = if t == w then b ∷ share w tags blobs else share w tags blobs

abbrev pub worker_threads : ℕ
worker_threads = 5

module _ (Position : Type 0) (key : Position → ℕ) (do_move : Position → ℕ → Position)
    (get_move : List ℕ → Position → Option ℕ) (start : Position) where
  -- The game with its rating bucket known, where `none` is the overflow of the sum.
  unfoldable pub rated_game : Option Signed → Metadata → Option (List Played)
  rated_game none metadata = none
  rated_game (some sum) metadata =
      process_game Position key do_move get_move (rating_bucket (halve sum)) metadata.result start
        (moves_of metadata.moves)

  -- `processSingleGame`: its calls of `add`, none if the game is filtered out.
  unfoldable pub process_single_game : List ℕ → Option (List Played)
  process_single_game game = elim (extract_metadata game) [
    | broken ↦ none
    | rejected ↦ some []
    | accepted metadata ↦ rated_game (add_signed metadata.white_elo metadata.black_elo) metadata
  ]

  unfoldable pub process_games : List (List ℕ) → Option (List Played)
  process_games [] = some []
  process_games (g ∷ games) = elim (process_single_game g) [
    | none ↦ none
    | some calls ↦ elim (process_games games) [ none ↦ none | some more ↦ some (calls ++ more) ]
  ]

  abbrev pub blob_calls : PgnBlob → Option (List Played)
  blob_calls b = process_games (process_blob b.blob b.next_blob)

  -- The loop of a worker thread over the blobs that it pops.
  unfoldable pub worker_calls : List PgnBlob → Option (List Played)
  worker_calls [] = some []
  worker_calls (b ∷ blobs) = elim (blob_calls b) [
    | none ↦ none
    | some calls ↦ elim (worker_calls blobs) [ none ↦ none | some more ↦ some (calls ++ more) ]
  ]

  -- A worker's life: its cache, the calls of its blobs, and the files its destructor leaves.
  unfoldable pub run_worker : Config → List PgnBlob → Option (List (List SpillRecord))
  run_worker cfg blobs = elim (worker_calls blobs) [
    | none ↦ none
    | some calls ↦ some (destroy cfg (add_all cfg calls (init cfg))).files
  ]

  -- The workers from number `w` on, with those left: the spill files of all of them.
  unfoldable pub run_workers :
      Config → ℕ → ℕ → List ℕ → List PgnBlob → Option (List (List SpillRecord))
  run_workers cfg zero w tags blobs = some []
  run_workers cfg (suc n) w tags blobs = elim (run_worker cfg (share w tags blobs)) [
    | none ↦ none
    | some files ↦ elim (run_workers cfg n (suc w) tags blobs) [
      | none ↦ none
      | some more ↦ some (files ++ more)
    ]
  ]

  -- `processDB`, given the chunks that the reader yields and who pops which blob.
  unfoldable pub process_db : Config → List (List ℕ) → List ℕ → Option (List (List SpillRecord))
  process_db cfg chunks tags = run_workers cfg worker_threads 0 tags (produce none chunks)
