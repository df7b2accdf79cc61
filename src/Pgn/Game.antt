-- ===== src/Pgn/Game.antt =====
-- apps/db_to_spills/db_to_spills.cpp: `processSingleGame`. The calls of `RecordCache::add` are the
-- result, in their order; positions and the reading of a move belong to the chess library.
use out_of_book.Prelude.{
  ℕ, zero, suc, ◌+◌, ◌-◌, ◌*◌, ◌/◌, ◌≤◌, ◌<◌, ◌≡◌, ◌∙◌, List, [], ◌∷◌, ◌++◌, Bool, true, false, not,
  ◌==◌, ltb, leb, if◌then◌else◌, Option, none, some, length, take, arith, refl, ap, sym, Bool-cases,
  Option-cases, inl, inr,
}
use out_of_book.Spill.RecordCache.{GameResult, Played}
use out_of_book.GenerateOtb.Walk.{termination}
pub mod Replay

abbrev pub min_depth : ℕ
min_depth = 4

abbrev pub max_depth : ℕ
max_depth = 40

module _ (Position : Type 0) (key : Position → ℕ) (do_move : Position → ℕ → Position)
    (get_move : List ℕ → Position → Option ℕ) (bucket : ℕ) (result : GameResult) where
  -- The local variables of `processSingleGame`, and the calls so far.
  pub record Progress : Type 0 where
    pub pos : Position
    pub halfmove : ℕ
    pub buffer : List (List ℕ)
    pub calls : List Played

  abbrev pub call_of : Position → ℕ → Played
  call_of pos move = record { zobrist = key pos; move = move; bucket = bucket; result = result }

  unfoldable pub play : Option ℕ → Progress → Option Progress
  play none g = none
  play (some move) g =
      some (record g { pos = do_move g.pos move; calls = g.calls ++ call_of g.pos move ∷ [] })

  -- `none` is the failed assertion on an invalid move.
  unfoldable pub process_move : List ℕ → Progress → Option Progress
  process_move raw g = play (get_move raw g.pos) g

  unfoldable pub process_moves : List (List ℕ) → Progress → Option Progress
  process_moves [] g = some g
  process_moves (m ∷ ms) g = elim (process_move m g) [ none ↦ none | some g' ↦ process_moves ms g' ]

  -- What the callback does with a move: fail, stop the loop, or go on.
  pub data Outcome : Type 0 where
    failed : Outcome
    stopped : Progress → Outcome
    going : Progress → Outcome

  unfoldable pub count_move : Option Progress → Outcome
  count_move none = failed
  count_move (some g) = going (record g { halfmove = g.halfmove + 1 })

  unfoldable pub next_move : List ℕ → Option Progress → Outcome
  next_move raw none = failed
  next_move raw (some g) =
      if g.halfmove == max_depth then stopped g else count_move (process_move raw g)

  unfoldable pub on_move : List ℕ → Progress → Outcome
  on_move raw g =
      if ltb g.halfmove min_depth
      then going (record g { buffer = g.buffer ++ raw ∷ []; halfmove = g.halfmove + 1 })
      else next_move raw (if g.halfmove == min_depth then process_moves g.buffer g else some g)

  unfoldable pub for_each_move : List (List ℕ) → Progress → Option Progress
  for_each_move [] g = some g
  for_each_move (m ∷ ms) g = elim (on_move m g) [
    | failed ↦ none
    | stopped g' ↦ some g'
    | going g' ↦ for_each_move ms g'
  ]

  -- What is done behind the loop: an empty list of calls is a discarded game.
  unfoldable pub end_game : Option Progress → Option (List Played)
  end_game none = none
  end_game (some g) =
      if ltb g.halfmove min_depth then some [] else some (g.calls ++ call_of g.pos termination ∷ [])

  unfoldable pub process_game : Position → List (List ℕ) → Option (List Played)
  process_game start moves =
      end_game (for_each_move moves (record { pos = start; halfmove = 0; buffer = []; calls = [] }))
