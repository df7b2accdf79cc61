-- ===== src/Tests/Merging.antt =====
-- The merger's theorems at concrete inputs.
use out_of_book.Prelude.{ℕ, ◌<◌, ◌≡◌, List, [], ◌∷◌, arith, refl, All, ltb, if◌then◌else◌}
use out_of_book.Spill.{SpillRecord, Key, Counter, tally, tallies, u32, u64}
use out_of_book.AggSpills.Order.{IsSorted}
use out_of_book.AggMerger.Ranges.{ok}
use out_of_book.AggMerger.Worker
use out_of_book.AggMerger.Ranges
use out_of_book.AggMerger.Join.{join, merge_files}
use out_of_book.AggMerger.Sums.{sum_of, sums_of, position_total, IsAscending}
use out_of_book.AggMerger.Totals.{merge_files-tally, merge_files-IsSorted}

abbrev common : SpillRecord
common = record { zobrist = 5; move = 7; bucket = 0; count = 3; white_wins = 1; draws = 1 }

abbrev rare : SpillRecord
rare = record { zobrist = 9; move = 7; bucket = 0; count = 2; white_wins = 0; draws = 1 }

abbrev first_file : List SpillRecord
first_file = common ∷ rare ∷ []

abbrev other_files : List (List SpillRecord)
other_files = (common ∷ []) ∷ []

abbrev merged : List SpillRecord
merged = record common { count = 6; white_wins = 2; draws = 2 } ∷ []

-- The position with six games is kept, and that with two is left out.
merged_files : merge_files (first_file ∷ other_files) ≡ ok merged
unfolding merge_files Ranges.split_work Ranges.boundaries Ranges.boundary_at Ranges.split_loop
    Ranges.ranges Ranges.lower_bound join Worker.merge_worker Worker.cursors Worker.worker_loop
    Worker.pop Worker.read_record Worker.pull Worker.advance Worker.record_count Worker.emit
    Worker.total_of Worker.merge_group Worker.push_merged
merged_files = refl

files_in_order : All IsAscending (first_file ∷ other_files)
files_in_order = (((refl, tt), (tt, tt)), ((tt, tt), tt))

small : (c : Counter) (k : Key) → tallies k c (first_file ∷ other_files) < u32
unfolding tallies tally
small Counter.count k = ground arith
small Counter.white_wins k = ground arith
small Counter.draws k = ground arith

few_games : (z : ℕ) → position_total z (first_file ∷ other_files) < u64
unfolding sums_of sum_of
few_games z = ground arith

merge_files-tally_example :
    (out : List SpillRecord) × (merge_files (first_file ∷ other_files) ≡ ok out)
    × ((k : Key) (c : Counter)
        → tally k c out ≡ (
            if ltb (position_total k.zobrist (first_file ∷ other_files)) 5
            then 0
            else tallies k c (first_file ∷ other_files)))
merge_files-tally_example =
    merge_files-tally first_file other_files files_in_order (omega arith) (λ k c. small c k)
      few_games

merge_files-IsSorted_example : IsSorted merged
merge_files-IsSorted_example =
    merge_files-IsSorted first_file other_files files_in_order (omega arith) (λ k c. small c k)
      few_games merged merged_files
