-- ===== src/Tests/Generator.antt =====
-- The theorems about generate_otb.cpp at concrete inputs.
use out_of_book.Prelude.{
  ℕ, ◌+◌, ◌*◌, ◌≤◌, ◌<◌, ◌≡◌, List, [], ◌∷◌, true, false, map, none, some, arith, refl, All, length,
}
use out_of_book.Spill.{SpillRecord, u64}
use out_of_book.Otb.Search.{find_key, Ascending, is_sorted}
use out_of_book.Otb.Bytes.{to_le}
use out_of_book.Otb.Format.{IndexEntry, header_size, put_node, put_entries, put_entry}
use out_of_book.Otb.Store.{OtbStore, ok, open_store}
use out_of_book.GenerateOtb.{write_otb}
use out_of_book.GenerateOtb.Opens.{open_store-write_otb}
use out_of_book.GenerateOtb.Index.{
  NodeClassification, Entry, PositionIndex, find, finalize, raise_bits, fill_buckets, scan_records,
  finish_run, append, is_above, max_entries,
}
use out_of_book.GenerateOtb.Index.Prefix.{find-find_key}
use out_of_book.GenerateOtb.Index.Build.{runs, absorb, kept, scan_records-kept}
use out_of_book.GenerateOtb.Index.Visits.{visits_of, classify, verdict_of, classify-scan_records}
use out_of_book.GenerateOtb.Walk
use out_of_book.GenerateOtb.Walk.{Walk, dfs, finish, index_entries}
use out_of_book.GenerateOtb.Walk.Entries.{RecordFits}
use out_of_book.GenerateOtb.Walk.Blobs.{Extends, dfs-Extends}
use out_of_book.GenerateOtb.Walk.Depth.{left, unvisited, dfs-enough}
use out_of_book.GenerateOtb.Served.{Serves, finish-Serves}

abbrev at_five : SpillRecord
at_five = record { zobrist = 5; move = 7; bucket = 2; count = 40; white_wins = 9; draws = 1 }

abbrev ended : SpillRecord
ended = record { zobrist = 5; move = 130; bucket = 2; count = 20; white_wins = 9; draws = 1 }

abbrev rare : SpillRecord
rare = record { zobrist = 6; move = 7; bucket = 2; count = 20; white_wins = 9; draws = 1 }

abbrev aggregate : List SpillRecord
aggregate = at_five ∷ ended ∷ rare ∷ []

abbrev entry : Entry
entry = record { key = 5; slot = 0; class = NodeClassification.leaf; visited = false }

kept_one : length (kept (runs aggregate 0)) ≤ max_entries
unfolding runs absorb kept
kept_one = omega arith

aggregate-Ascending : Ascending (map (λ r. r.zobrist) aggregate)
aggregate-Ascending = ((omega arith, (omega arith, tt)), ((omega arith, tt), (tt, tt)))

scan_records-kept_example : scan_records aggregate 0 none [] ≡ some (kept (runs aggregate 0))
scan_records-kept_example = scan_records-kept aggregate aggregate-Ascending kept_one

scanned : scan_records aggregate 0 none [] ≡ some (entry ∷ [])
unfolding scan_records finish_run append is_above
scanned = refl

classify-scan_records_example : classify 6 (entry ∷ []) ≡ verdict_of (visits_of 6 aggregate)
classify-scan_records_example =
    classify-scan_records aggregate (entry ∷ []) 6 aggregate-Ascending kept_one scanned

abbrev small_index : PositionIndex
small_index = record {
  entries = entry ∷ [];
  prefix_bits = 1;
  bucket_start = fill_buckets 1 (5 ∷ []) 0 0;
}

finalized : finalize (entry ∷ []) ≡ some small_index
unfolding finalize raise_bits
finalized = refl

find-find_key_example : find small_index 5 ≡ find_key (map (λ e. e.key) (entry ∷ [])) 5
find-find_key_example = find-find_key (entry ∷ []) small_index 5 finalized (omega arith)

abbrev one_index_entry : List IndexEntry
one_index_entry = record { zobrist = 5; offset_div4 = 16 } ∷ []

one_sorted : is_sorted (map (λ e. e.zobrist) one_index_entry) ≡ true
unfolding is_sorted
one_sorted = refl

open_store-write_otb_example :
    open_store (write_otb (0 ∷ 0 ∷ 0 ∷ 0 ∷ []) one_index_entry) none
    ≡ ok (record {
      otb = write_otb (0 ∷ 0 ∷ 0 ∷ 0 ∷ []) one_index_entry;
      ote = none;
      zobrists = map (λ e. e.zobrist) one_index_entry;
      offsets_div4 = map (λ e. e.offset_div4) one_index_entry;
    })
open_store-write_otb_example =
    open_store-write_otb (0 ∷ 0 ∷ 0 ∷ 0 ∷ []) one_index_entry ((omega arith, omega arith), tt)
      (omega arith) one_sorted

-- A position is its key, and a move adds to it.
abbrev play : ℕ → ℕ → ℕ
play pos move = pos + move

abbrev entry_visited : Entry
entry_visited = record { key = 5; slot = 16; class = NodeClassification.leaf; visited = true }

abbrev first_walk : Walk
first_walk = record { index = small_index; out = [] }

records_fit : All RecordFits aggregate
records_fit = (
  (omega arith, omega arith, omega arith, omega arith, omega arith),
  (
    (omega arith, omega arith, omega arith, omega arith, omega arith),
    ((omega arith, omega arith, omega arith, omega arith, omega arith), tt),
  ),
)

abbrev after_walk : Walk
after_walk = record {
  index = record small_index { entries = entry_visited ∷ [] };
  out =
      put_node
        (record { move = 130; bucket = 2; count = 20; white_wins = 9; draws = 1 }
          ∷ record { move = 0xffff; bucket = 2; count = 40; white_wins = 9; draws = 1 }
          ∷ [])
        [];
}

walked : dfs ℕ (λ p. p) play aggregate 1 0 5 first_walk ≡ some after_walk
unfolding Walk.insert_record Walk.add_catchall Walk.for_each Walk.leaf_step Walk.run_of
    Walk.insert_catchall Walk.mark_visited Walk.set_otb_offset Walk.claim Walk.write_node
    Walk.leaf_node Walk.build_node Walk.finish_node Walk.dfs_at dfs
walked = refl

after_walk-small :
    header_size + length after_walk.out + length (index_entries after_walk.index.entries) * 16 < u64
unfolding put_node put_entries put_entry to_le index_entries
after_walk-small = omega arith

dfs-Extends_example : Extends aggregate first_walk after_walk
dfs-Extends_example =
    dfs-Extends ℕ (λ p. p) play aggregate records_fit 1 0 5 first_walk after_walk walked

finish-Serves_example : (s : OtbStore) × Serves after_walk s
finish-Serves_example =
    finish-Serves ℕ (λ p. p) play aggregate 1 0 5 small_index after_walk records_fit (refl, tt)
      (tt, tt) (omega arith, tt) walked after_walk-small

first_walk-left : left first_walk ≤ 1
unfolding unvisited
first_walk-left = omega arith

first_walk-left_more : left first_walk ≤ 9
unfolding unvisited
first_walk-left_more = omega arith

dfs-enough_example :
    dfs ℕ (λ p. p) play aggregate 1 0 5 first_walk ≡ dfs ℕ (λ p. p) play aggregate 9 0 5 first_walk
dfs-enough_example =
    dfs-enough ℕ (λ p. p) play aggregate records_fit 1 9 0 5 first_walk first_walk-left
      first_walk-left_more
