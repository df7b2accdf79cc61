-- ===== src/AggSpills.antt =====
-- apps/agg_spills/agg_spills.cpp: the spill files of each shard are summed up by key, and the sums
-- are written out in the order of their keys. The program opens its outputs to append; here they
-- are new.
use out_of_book.Prelude.{
  ℕ, zero, suc, ◌+◌, ◌*◌, ◌/◌, ◌%◌, ◌≡◌, List, [], ◌∷◌, ◌++◌, Bool, true, false, ◌&&◌, not, ◌==◌,
  ltb, if◌then◌else◌, map,
}
use out_of_book.Spill.{SpillRecord, Key, key_of, key_eq, u32}
pub mod Order
pub mod Shards
pub mod Totals

-- `SHARDS / WORKERS` shards for each of `WORKERS` workers
abbrev pub workers : ℕ
workers = 4

abbrev pub shards_per_worker : ℕ
shards_per_worker = 16

-- `recordLess`
abbrev pub record_less : SpillRecord → SpillRecord → Bool
record_less a b =
    if not (a.zobrist == b.zobrist)
    then ltb a.zobrist b.zobrist
    else if not (a.move == b.move)
    then ltb a.move b.move
    else ltb a.bucket b.bucket

-- The hash map from a key to its record, in the order of insertion.
abbrev pub Totals : Type 0
Totals = List (Key × SpillRecord)

-- `it->second.count += r.count`, and so on
abbrev pub accumulate : SpillRecord → SpillRecord → SpillRecord
accumulate v r = record v {
  count = (v.count + r.count) % u32;
  white_wins = (v.white_wins + r.white_wins) % u32;
  draws = (v.draws + r.draws) % u32;
}

-- `map.emplace(k, r)`, and the addition if the key was there
unfoldable pub emplace : SpillRecord → Totals → Totals
emplace r [] = (key_of r, r) ∷ []
emplace r ((k, v) ∷ m) =
    if key_eq k (key_of r) then (k, accumulate v r) ∷ m else (k, v) ∷ emplace r m

-- The records of one file, then the files of a shard.
unfoldable pub read_file : List SpillRecord → Totals → Totals
read_file [] m = m
read_file (r ∷ rs) m = read_file rs (emplace r m)

unfoldable pub read_files : List (List SpillRecord) → Totals → Totals
read_files [] m = m
read_files (f ∷ fs) m = read_files fs (read_file f m)

abbrev pub values : Totals → List SpillRecord
values = map (λ e. e.1)

-- `std::sort` by `recordLess`
unfoldable pub insert_sorted : SpillRecord → List SpillRecord → List SpillRecord
insert_sorted r [] = r ∷ []
insert_sorted r (x ∷ xs) = if record_less r x then r ∷ x ∷ xs else x ∷ insert_sorted r xs

unfoldable pub sort : List SpillRecord → List SpillRecord
sort [] = []
sort (x ∷ xs) = insert_sorted x (sort xs)

-- What `aggregateShard` appends to its output, given the files of the shard.
unfoldable pub aggregate_shard : List (List SpillRecord) → List SpillRecord
aggregate_shard files = sort (values (read_files files []))

-- The loop of `worker` from `shard` on, with the shards left. `shard_files` finds a shard's files.
unfoldable pub worker_loop : ℕ → ℕ → (ℕ → List (List SpillRecord)) → List SpillRecord
worker_loop zero shard shard_files = []
worker_loop (suc n) shard shard_files =
    aggregate_shard (shard_files shard) ++ worker_loop n (suc shard) shard_files

unfoldable pub worker : ℕ → (ℕ → List (List SpillRecord)) → List SpillRecord
worker id shard_files = worker_loop shards_per_worker (id * shards_per_worker) shard_files

-- `main` joins the outputs of the workers in the order of their numbers.
unfoldable pub join : ℕ → ℕ → (ℕ → List (List SpillRecord)) → List SpillRecord
join zero id shard_files = []
join (suc n) id shard_files = worker id shard_files ++ join n (suc id) shard_files

unfoldable pub aggregate : (ℕ → List (List SpillRecord)) → List SpillRecord
aggregate shard_files = join workers 0 shard_files
