-- ===== src/AggMerger/Ranges.antt =====
-- agg_merger.cpp, `splitWork`: which part of each file each worker reads.
use out_of_book.Prelude.{
  ℕ, zero, suc, ◌+◌, ◌*◌, ◌/◌, List, [], ◌∷◌, Option, none, some, ltb, if◌then◌else◌, map, length,
  get_elem?, ◌==◌,
}
use out_of_book.Spill.{SpillRecord}

abbrev pub worker_count : ℕ
worker_count = 4

pub record FileRange : Type 0 where
  pub begin : ℕ
  pub end : ℕ

-- How `splitWork` ends: with the ranges of each worker, by one of its two exceptions, or by reading
-- outside of the first file.
pub data Split {ℓ} (A : Type ℓ) : Type ℓ where
  ok : A → Split A
  no_files first_empty out_of_range : Split A

-- `std::lower_bound` by the key: the partition point, of a file that is in order.
unfoldable pub lower_bound : ℕ → List SpillRecord → ℕ
lower_bound key [] = 0
lower_bound key (r ∷ rs) = if ltb r.zobrist key then suc (lower_bound key rs) else 0

-- `boundaries[boundary]`, where `none` is a read behind the end of the file.
unfoldable pub boundary_at : List SpillRecord → ℕ → Option ℕ
boundary_at reference boundary =
    elim (get_elem? reference ((length reference * (boundary + 1)) / worker_count)) [
      | none ↦ none
      | some r ↦ some r.zobrist
    ]

-- The boundaries from `boundary` on, with the number of those left.
unfoldable pub boundaries : List SpillRecord → ℕ → ℕ → Option (List ℕ)
boundaries reference zero boundary = some []
boundaries reference (suc n) boundary = elim (boundary_at reference boundary) [
  | none ↦ none
  | some b ↦ elim (boundaries reference n (boundary + 1)) [ none ↦ none | some bs ↦ some (b ∷ bs) ]
]

unfoldable pub ranges : List ℕ → List ℕ → List FileRange
ranges [] ends = []
ranges (b ∷ begins) [] = []
ranges (b ∷ begins) (e ∷ ends) = record { begin = b; end = e } ∷ ranges begins ends

-- The loop over the workers, from the one whose ranges begin at `begins` on. A worker with no
-- boundary left is the last one, and reads to the end of each file.
unfoldable pub split_loop : List ℕ → List ℕ → List (List SpillRecord) → List (List FileRange)
split_loop [] begins files = ranges begins (map length files) ∷ []
split_loop (b ∷ bs) begins files =
    ranges begins (map (lower_bound b) files) ∷ split_loop bs (map (lower_bound b) files) files

unfoldable pub split_work : List (List SpillRecord) → Split (List (List FileRange))
split_work [] = no_files
split_work (reference ∷ files) =
    if length reference == 0 then first_empty else elim (boundaries reference 3 0) [
      | none ↦ out_of_range
      | some bs ↦ ok (split_loop bs (map (λ _. 0) (reference ∷ files)) (reference ∷ files))
    ]
