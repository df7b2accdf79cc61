-- ===== src/AggMerger/Worker.antt =====
-- agg_merger.cpp, `mergeWorker`: one cursor per file in a priority queue, all records of a position
-- pulled from it, records of one move and bucket added up, and the position written if it has games
-- enough.
use out_of_book.Prelude.{
  ℕ, zero, suc, ◌+◌, ◌%◌, List, [], ◌∷◌, ◌++◌, Option, none, some, Bool, true, false, not, ltb,
  if◌then◌else◌, ◌==◌, ◌||◌, get_elem?, length,
}
use out_of_book.Spill.{SpillRecord, u64}
use out_of_book.AggSpills.{accumulate}
use out_of_book.AggMerger.Ranges.{FileRange}

pub record Node : Type 0 where
  pub file : ℕ
  pub index : ℕ
  pub end : ℕ
  pub rec : SpillRecord

-- `Cmp`: whether `a` comes after `b`.
abbrev pub cmp : Node → Node → Bool
cmp a b =
    if not (a.rec.zobrist == b.rec.zobrist)
    then ltb b.rec.zobrist a.rec.zobrist
    else if not (a.rec.move == b.rec.move)
    then ltb b.rec.move a.rec.move
    else ltb b.rec.bucket a.rec.bucket

-- `top` and `pop` of the priority queue, a list of nodes here: a node that comes after no other, and
-- the queue without it.
unfoldable pub pop : List Node → Option (Node × List Node)
pop [] = none
pop (n ∷ q) = elim (pop q) [
  | none ↦ some (n, [])
  | some (m, q') ↦ if cmp n m then some (m, n ∷ q') else some (n, q)
]

-- `(*files[file])[index]`, where `none` is a read out of range.
unfoldable pub read_record : List (List SpillRecord) → ℕ → ℕ → Option SpillRecord
read_record files file index = elim (get_elem? files file) [
  | none ↦ none
  | some f ↦ get_elem? f index
]

-- The cursors of the files that have a range, numbered from `i`.
unfoldable pub cursors : List (List SpillRecord) → ℕ → List FileRange → Option (List Node)
cursors files i [] = some []
cursors files i (r ∷ rs) = elim (cursors files (suc i) rs) [
  | none ↦ none
  | some q ↦ if r.begin == r.end then some q else elim (read_record files i r.begin) [
    | none ↦ none
    | some rec ↦ some (record { file = i; index = r.begin; end = r.end; rec = rec } ∷ q)
  ]
]

-- `++node.index`, and the node pushed again if its range goes on.
unfoldable pub advance : List (List SpillRecord) → Node → List Node → Option (List Node)
advance files n q =
    if ltb (n.index + 1) n.end
    then elim (read_record files n.file (n.index + 1)) [
      | none ↦ none
      | some r ↦ some (record n { index = n.index + 1; rec = r } ∷ q)
    ]
    else some q

-- The inner loop: what it leaves in `group`, and the queue. `none` is a bad read, or fuel run out.
unfoldable pub pull :
    ℕ
    → List (List SpillRecord)
    → ℕ
    → List Node
    → List SpillRecord
    → Option (List SpillRecord × List Node)
pull zero files zobrist q group = none
pull (suc fuel) files zobrist q group = elim (pop q) [
  | none ↦ some (group, q)
  | some (n, q') ↦ elim (n.rec.zobrist == zobrist) [
    | false ↦ some (group, q)
    | true ↦ elim (advance files n q') [
      | none ↦ none
      | some q'' ↦ pull fuel files zobrist q'' (group ++ n.rec ∷ [])
    ]
  ]
]

-- A record of the group goes into the last merged one, or behind it.
unfoldable pub push_merged : List SpillRecord → SpillRecord → List SpillRecord
push_merged [] r = r ∷ []
push_merged (m ∷ []) r =
    if not (m.bucket == r.bucket) || not (m.move == r.move) then m ∷ r ∷ [] else accumulate m r ∷ []
push_merged (m ∷ m' ∷ ms) r = m ∷ push_merged (m' ∷ ms) r

unfoldable pub merge_group : List SpillRecord → List SpillRecord → List SpillRecord
merge_group merged [] = merged
merge_group merged (r ∷ group) = merge_group (push_merged merged r) group

-- `total` is a `uint64_t`.
unfoldable pub total_of : ℕ → List SpillRecord → ℕ
total_of total [] = total
total_of total (r ∷ merged) = total_of ((total + r.count) % u64) merged

-- What a group adds to the output.
unfoldable pub emit : List SpillRecord → List SpillRecord → List SpillRecord
emit out group =
    let merged = merge_group [] group in if ltb (total_of 0 merged) 5 then out else out ++ merged

-- The outer loop, with what is written so far.
unfoldable pub worker_loop :
    ℕ → List (List SpillRecord) → List Node → List SpillRecord → Option (List SpillRecord)
worker_loop zero files q out = none
worker_loop (suc fuel) files q out = elim (pop q) [
  | none ↦ some out
  | some (top, _) ↦ elim (pull (suc fuel) files top.rec.zobrist q []) [
    | none ↦ none
    | some (group, q') ↦ worker_loop fuel files q' (emit out group)
  ]
]

-- The number of records of the files, more than which no loop makes rounds.
unfoldable pub record_count : List (List SpillRecord) → ℕ
record_count [] = 0
record_count (f ∷ files) = length f + record_count files

unfoldable pub merge_worker : List FileRange → List (List SpillRecord) → Option (List SpillRecord)
merge_worker split files = elim (cursors files 0 split) [
  | none ↦ none
  | some q ↦ worker_loop (suc (record_count files)) files q []
]
