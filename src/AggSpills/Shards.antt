-- ===== src/AggSpills/Shards.antt =====
-- agg_spills.cpp: the shards and the joined output, by the order of the keys.
use out_of_book.Prelude.{
  All-append, ℕ, zero, suc, ◌+◌, ◌*◌, ◌/◌, ◌^◌, ◌≤◌, ◌<◌, ◌≡◌, List, [], ◌∷◌, ◌++◌, true, arith,
  All, All-map,
}
use out_of_book.Spill.{SpillRecord, Key}
use out_of_book.AggSpills.{
  Totals, record_less, emplace, read_file, read_files, values, aggregate_shard, shards_per_worker,
  workers, worker_loop, worker, join, aggregate,
}
use out_of_book.AggSpills.Order.{IsSorted, emplace-All, sort-All, aggregate_shard-IsSorted}

-- The shard of a 64-bit key, by its top six bits.
abbrev pub shard_of : SpillRecord → ℕ
shard_of r = r.zobrist / 2 ^ 58

abbrev Within : ℕ → Key × SpillRecord → Type 0
Within s e = shard_of e.1 ≡ s

read_file-Within :
    (s : ℕ) (rs : List SpillRecord) (m : Totals)
    → All (λ r. shard_of r ≡ s) rs
    → All (Within s) m
    → All (Within s) (read_file rs m)
unfolding read_file
read_file-Within s [] m h w = w
read_file-Within s (r ∷ rs) m h w =
    read_file-Within s rs (emplace r m) h.1 (emplace-All (Within s) r m h.0 (λ k v _ p. p) w)

read_files-Within :
    (s : ℕ) (fs : List (List SpillRecord)) (m : Totals)
    → All (All (λ r. shard_of r ≡ s)) fs
    → All (Within s) m
    → All (Within s) (read_files fs m)
unfolding read_files
read_files-Within s [] m h w = w
read_files-Within s (f ∷ fs) m h w =
    read_files-Within s fs (read_file f m) h.1 (read_file-Within s f m h.0 w)

values-Within : (s : ℕ) (m : Totals) → All (Within s) m → All (λ r. shard_of r ≡ s) (values m)
values-Within s [] h = tt
values-Within s (e ∷ m) h = (h.0, values-Within s m h.1)

aggregate_shard-shard :
    (s : ℕ) (files : List (List SpillRecord))
    → All (All (λ r. shard_of r ≡ s)) files
    → All (λ r. shard_of r ≡ s) (aggregate_shard files)
unfolding aggregate_shard
aggregate_shard-shard s files h =
    sort-All (λ r. shard_of r ≡ s) (values (read_files files []))
      (values-Within s (read_files files []) (read_files-Within s files [] h tt))

-- Every shard number of a sequence lies in [lo, hi).
abbrev Between : ℕ → ℕ → List SpillRecord → Type 0
Between lo hi = All (λ r. (lo ≤ shard_of r) × (shard_of r < hi))

less_of_shards :
    (mid hi : ℕ) (x : SpillRecord) (ys : List SpillRecord)
    → shard_of x < mid
    → Between mid hi ys
    → All (λ y. record_less x y ≡ true) ys
less_of_shards mid hi x ys lt =
    All-map (λ y. (mid ≤ shard_of y) × (shard_of y < hi)) (λ y. record_less x y ≡ true) ys
      (λ y h. let l : x.zobrist < y.zobrist = omega arith in ground arith)

append-IsSorted :
    (lo mid hi : ℕ) (xs ys : List SpillRecord)
    → Between lo mid xs
    → Between mid hi ys
    → IsSorted xs
    → IsSorted ys
    → IsSorted (xs ++ ys)
append-IsSorted lo mid hi [] ys b b' h h' = h'
append-IsSorted lo mid hi (x ∷ xs) ys b b' h h' = (
  All-append (λ y. record_less x y ≡ true) xs ys h.0 (less_of_shards mid hi x ys b.0.1 b'),
  append-IsSorted lo mid hi xs ys b.1 b' h.1 h',
)

module _ (f : ℕ → List (List SpillRecord))
    (own : (s : ℕ) → All (All (λ r. shard_of r ≡ s)) (f s)) where
  worker_loop_lem :
      (n shard : ℕ)
      → Between shard (shard + n) (worker_loop n shard f) × IsSorted (worker_loop n shard f)
  unfolding worker_loop
  worker_loop_lem zero shard = (tt, tt)
  worker_loop_lem (suc n) shard =
      let here =
        All-map (λ r. shard_of r ≡ shard) (λ r. (shard ≤ shard_of r) × (shard_of r < suc shard))
          (aggregate_shard (f shard)) (λ r e. omega arith)
          (aggregate_shard-shard shard (f shard) (own shard)) in
      let (b, h) = worker_loop_lem n (suc shard) in
      (
        All-append _ (aggregate_shard (f shard)) (worker_loop n (suc shard) f)
            (All-map (λ r. (shard ≤ shard_of r) × (shard_of r < suc shard)) _
              (aggregate_shard (f shard)) (λ r e. omega arith) here)
            (All-map (λ r. (suc shard ≤ shard_of r) × (shard_of r < suc shard + n)) _
              (worker_loop n (suc shard) f) (λ r e. omega arith) b),
        append-IsSorted shard (suc shard) (suc shard + n) _ _ here b
            (aggregate_shard-IsSorted (f shard)) h,
      )

  join_lem :
      (n id : ℕ)
      → Between (id * shards_per_worker) ((id + n) * shards_per_worker) (join n id f)
        × IsSorted (join n id f)
  unfolding join worker
  join_lem zero id = (tt, tt)
  join_lem (suc n) id =
      let lo = id * shards_per_worker in
      let mid = suc id * shards_per_worker in
      let hi = (suc id + n) * shards_per_worker in
      let (b, h) = worker_loop_lem shards_per_worker lo in
      let (b', h') = join_lem n (suc id) in
      let here =
        All-map (λ r. (lo ≤ shard_of r) × (shard_of r < lo + shards_per_worker))
          (λ r. (lo ≤ shard_of r) × (shard_of r < mid)) (worker id f) (λ r e. omega arith) b in
      (
        All-append _ (worker id f) (join n (suc id) f)
            (All-map (λ r. (lo ≤ shard_of r) × (shard_of r < mid)) _ (worker id f)
              (λ r e. omega arith) here)
            (All-map (λ r. (mid ≤ shard_of r) × (shard_of r < hi)) _ (join n (suc id) f)
              (λ r e. omega arith) b'),
        append-IsSorted lo mid hi _ _ here b' h h',
      )

  -- If every file holds only records of the shard that its name says, then the aggregate is in
  -- strict `recordLess` order from end to end: sorted, and no key twice.
  pub aggregate-IsSorted : IsSorted (aggregate f)
  unfolding aggregate
  aggregate-IsSorted = (join_lem workers 0).1
