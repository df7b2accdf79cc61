-- ===== src/Tests/Pipeline.antt =====
-- The spill and aggregation theorems at concrete inputs.
use out_of_book.Prelude.{
  ℕ, zero, suc, ◌+◌, ◌<◌, ◌≡◌, List, [], ◌∷◌, arith, refl, map, All, Bool-cases, inl, inr,
}
use out_of_book.Spill.{SpillRecord, Key, Counter, tally, tallies, u32, key_eq, key_of, read}
use out_of_book.Spill.RecordCache.{Config, GameResult, Played, record_of, init, add_all, destroy}
use out_of_book.Spill.RecordCache.Tally.{IsConfig}
use out_of_book.Spill.RecordCache.Totals.{destroy-add_all}
use out_of_book.AggSpills.{aggregate_shard, aggregate}
use out_of_book.AggSpills.Order.{IsSorted, aggregate_shard-IsSorted}
use out_of_book.AggSpills.Shards.{shard_of, aggregate-IsSorted}
use out_of_book.AggSpills.Totals.{shard_tally, aggregate-tally}

-- Two slots, runs of one slot, two shards, buffers of two records.
abbrev tiny : Config
tiny = record { slot_bits = 1; max_run = 1; shard_bits = 1; buffer_records = 2 }

tiny-IsConfig : IsConfig tiny
tiny-IsConfig = record { shards = omega arith }

abbrev played : List Played
played =
    record { zobrist = 2; move = 7; bucket = 0; result = GameResult.white_win }
    ∷ record { zobrist = 4; move = 7; bucket = 0; result = GameResult.draw }
    ∷ record { zobrist = 2; move = 7; bucket = 0; result = GameResult.black_win }
    ∷ []

abbrev first_key : Key
first_key = record { zobrist = 2; move = 7; bucket = 0 }

played_twice : tally first_key Counter.count (map record_of played) ≡ 2
unfolding tally
played_twice = refl

destroy-add_all_example :
    tallies first_key Counter.count (destroy tiny (add_all tiny played (init tiny))).files
    ≡ tally first_key Counter.count (map record_of played)
destroy-add_all_example =
    destroy-add_all tiny first_key Counter.count tiny-IsConfig (omega arith) played (omega arith)
      (omega arith, (omega arith, (omega arith, tt)))

abbrev one_record : SpillRecord
one_record = record { zobrist = 5; move = 7; bucket = 0; count = 3; white_wins = 1; draws = 1 }

abbrev spilled : ℕ → List (List SpillRecord)
spilled zero = (one_record ∷ one_record ∷ []) ∷ []
spilled (suc s) = []

spilled_room : (s : ℕ) (k : Key) (c : Counter) → tallies k c (spilled s) < u32
unfolding tallies tally
spilled_room zero k c = elim (Bool-cases (key_eq (key_of one_record) k)) [
  | inl e ↦ rw e (small c)
  | inr e ↦ rw e (omega arith)
]
  where
    small : (c : Counter) → read c one_record + (read c one_record + 0) + 0 < u32
    small Counter.count = omega arith
    small Counter.white_wins = omega arith
    small Counter.draws = omega arith
spilled_room (suc s) k c = omega arith

aggregate-tally_example :
    tally first_key Counter.count (aggregate spilled)
    ≡ shard_tally first_key Counter.count 64 0 spilled
aggregate-tally_example = aggregate-tally spilled spilled_room first_key Counter.count

aggregate_shard-IsSorted_example : IsSorted (aggregate_shard (spilled 0))
aggregate_shard-IsSorted_example = aggregate_shard-IsSorted (spilled 0)

spilled_own : (s : ℕ) → All (All (λ r. shard_of r ≡ s)) (spilled s)
spilled_own zero = ((refl, (refl, tt)), tt)
spilled_own (suc s) = tt

aggregate-IsSorted_example : IsSorted (aggregate spilled)
aggregate-IsSorted_example = aggregate-IsSorted spilled spilled_own
