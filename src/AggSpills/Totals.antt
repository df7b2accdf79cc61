-- ===== src/AggSpills/Totals.antt =====
-- agg_spills.cpp: the tally of a key through summing up, cutting off and joining.
use out_of_book.Prelude.{
  ℕ, zero, suc, ◌+◌, ◌*◌, ◌<◌, ◌≡◌, List, [], ◌∷◌, true, arith, refl, Bool-cases, inl, inr, All,
}
use native.Mathlib.Nat.{add-zero, zero-add, suc-add, add-suc}
use out_of_book.Spill.{
  SpillRecord, Key, Counter, weight, tally, tallies, tally-append, u32, read, key_of, key_eq,
}
use out_of_book.AggSpills.{
  Totals, record_less, emplace, read_file, read_files, values, insert_sorted, sort,
  shards_per_worker, workers, aggregate_shard, worker_loop, worker, join, aggregate,
}

-- A record stands under its own key.
abbrev Keyed : Key × SpillRecord → Type 0
Keyed e = key_eq e.0 (key_of e.1) ≡ true

emplace-Keyed : (r : SpillRecord) (m : Totals) → All Keyed m → All Keyed (emplace r m)
unfolding emplace
emplace-Keyed r [] h = ground arith
emplace-Keyed r ((k, v) ∷ m) h = elim (Bool-cases (key_eq k (key_of r))) [
  | inl e ↦ rw e (h.0, h.1)
  | inr e ↦ rw e (h.0, emplace-Keyed r m h.1)
]

-- The sums that `emplace` writes do not wrap around.
abbrev Room : SpillRecord → Totals → Type 0
Room r m = (c : Counter) → tally (key_of r) c (values m) + read c r < u32

emplace-tally :
    (k : Key) (c : Counter) (r : SpillRecord) (m : Totals)
    → All Keyed m
    → Room r m
    → tally k c (values (emplace r m)) ≡ tally k c (values m) + weight k c r
unfolding emplace tally
emplace-tally k c r [] h room = omega arith
emplace-tally k c r ((k', v) ∷ m) h room = elim (Bool-cases (key_eq k' (key_of r))) [
  | inl e ↦ rw e (ground (arith, room Counter.count, room Counter.white_wins, room Counter.draws))
  | inr e ↦ rw e (omega (arith, emplace-tally k c r m h.1 (λ d. omega (arith, room d))))
]

read_file_lem :
    (rs : List SpillRecord) (m : Totals)
    → All Keyed m
    → ((k : Key) (c : Counter) → tally k c (values m) + tally k c rs < u32)
    → All Keyed (read_file rs m)
      × ((k : Key) (c : Counter)
          → tally k c (values (read_file rs m)) ≡ tally k c (values m) + tally k c rs)
unfolding read_file tally
read_file_lem [] m h room = (h, λ k c. omega arith)
read_file_lem (r ∷ rs) m h room =
    let here : Room r m = λ c. ground (arith, room (key_of r) c) in
    let h' = emplace-Keyed r m h in
    let step = λ (k : Key) (c : Counter). emplace-tally k c r m h here in
    let (h'', e) = read_file_lem rs (emplace r m) h' (λ k c. omega (arith, room k c, step k c)) in
    (h'', λ k c. omega (arith, e k c, step k c))

read_files_lem :
    (fs : List (List SpillRecord)) (m : Totals)
    → All Keyed m
    → ((k : Key) (c : Counter) → tally k c (values m) + tallies k c fs < u32)
    → (k : Key) (c : Counter)
    → tally k c (values (read_files fs m)) ≡ tally k c (values m) + tallies k c fs
unfolding read_files tallies
read_files_lem [] m h room k c = omega arith
read_files_lem (f ∷ fs) m h room k c =
    let (h', e) = read_file_lem f m h (λ j d. omega (arith, room j d)) in
    omega (
      arith,
      e k c,
      read_files_lem fs (read_file f m) h' (λ j d. omega (arith, room j d, e j d)) k c,
    )

insert_sorted-tally :
    (k : Key) (c : Counter) (r : SpillRecord) (xs : List SpillRecord)
    → tally k c (insert_sorted r xs) ≡ weight k c r + tally k c xs
unfolding insert_sorted tally
insert_sorted-tally k c r [] = refl
insert_sorted-tally k c r (x ∷ xs) = elim (Bool-cases (record_less r x)) [
  | inl e ↦ rw e
  | inr e ↦ rw e (omega (arith, insert_sorted-tally k c r xs))
]

sort-tally : (k : Key) (c : Counter) (xs : List SpillRecord) → tally k c (sort xs) ≡ tally k c xs
unfolding sort tally
sort-tally k c [] = refl
sort-tally k c (x ∷ xs) = omega (arith, insert_sorted-tally k c x (sort xs), sort-tally k c xs)

-- The output of a shard has the tallies of its files.
pub aggregate_shard-tally :
    (files : List (List SpillRecord))
    → ((k : Key) (c : Counter) → tallies k c files < u32)
    → (k : Key) (c : Counter) → tally k c (aggregate_shard files) ≡ tallies k c files
unfolding aggregate_shard tally
aggregate_shard-tally files room k c = omega (
  arith,
  sort-tally k c (values (read_files files [])),
  read_files_lem files [] tt (λ j d. omega (arith, room j d)) k c,
)

-- The tally over the files of `n` shards.
unfoldable pub shard_tally : Key → Counter → ℕ → ℕ → (ℕ → List (List SpillRecord)) → ℕ
shard_tally k c zero shard f = 0
shard_tally k c (suc n) shard f = tallies k c (f shard) + shard_tally k c n (suc shard) f

module _ (f : ℕ → List (List SpillRecord))
    (room : (s : ℕ) (k : Key) (c : Counter) → tallies k c (f s) < u32) (k : Key) (c : Counter) where
  worker_loop-tally : (n shard : ℕ) → tally k c (worker_loop n shard f) ≡ shard_tally k c n shard f
  unfolding worker_loop shard_tally tally
  worker_loop-tally zero shard = refl
  worker_loop-tally (suc n) shard = omega (
    arith,
    tally-append k c (aggregate_shard (f shard)) (worker_loop n (suc shard) f),
    aggregate_shard-tally (f shard) (room shard) k c,
    worker_loop-tally n (suc shard),
  )

  shard_tally-add :
      (n m shard : ℕ)
      → shard_tally k c (n + m) shard f
        ≡ shard_tally k c n shard f + shard_tally k c m (shard + n) f
  unfolding shard_tally
  shard_tally-add zero m shard = rw (add-zero, zero-add) (omega arith)
  shard_tally-add (suc n) m shard =
      rw (suc-add, add-suc, ← suc-add shard n) (omega (arith, shard_tally-add n m (suc shard)))

  join-tally :
      (n id : ℕ)
      → tally k c (join n id f) ≡ shard_tally k c (shards_per_worker * n) (id * shards_per_worker) f
  unfolding join worker shard_tally tally
  join-tally zero id = refl
  join-tally (suc n) id =
      let e : shards_per_worker * suc n ≡ shards_per_worker + shards_per_worker * n = omega arith in
      let e' : suc id * shards_per_worker ≡ id * shards_per_worker + shards_per_worker =
        omega arith in
      rw
        (
          e,
          shard_tally-add shards_per_worker (shards_per_worker * n) (id * shards_per_worker),
          ← e',
        )
        (omega (
          arith,
          tally-append k c (worker_loop 16 (id * 16) f) (join n (suc id) f),
          worker_loop-tally 16 (id * 16),
          join-tally n (suc id),
        ))

  -- The aggregate that the four workers write holds, for every key and counter, the sum over the
  -- spill files of all 64 shards, if no shard's sum for a key outgrows 32 bits.
  pub aggregate-tally : tally k c (aggregate f) ≡ shard_tally k c 64 0 f
  unfolding aggregate
  aggregate-tally = join-tally workers 0
