-- ===== src/GenerateOtb/Walk.antt =====
-- generate_otb.cpp and NodeBlobHelpers.h: the depth-first walk that writes a blob for every position it
-- reaches. A failed assertion is `none`. Counters and progress output are left out.
use out_of_book.Prelude.{
  ℕ, zero, suc, ◌+◌, ◌-◌, ◌*◌, ◌/◌, ◌%◌, ◌^◌, ◌≤◌, ◌<◌, ◌≡◌, ◌∙◌, List, [], ◌∷◌, ◌++◌, Bool, true,
  false, map, not, ◌==◌, ◌&&◌, ◌||◌, ltb, leb, if◌then◌else◌, Option, none, some, length, take,
  drop, get_or, set, get_elem?, replicate,
}
use out_of_book.Text.{is_empty}
use out_of_book.Spill.{SpillRecord}
use out_of_book.Spill.RecordCache.{empty_slot}
use out_of_book.AggSpills.{accumulate}
use out_of_book.Otb.Format.{NodeBlobEntry, IndexEntry, put_node, max_children, header_size}
use out_of_book.GenerateOtb.{write_otb}
use out_of_book.GenerateOtb.Index.{NodeClassification, Entry, PositionIndex, find}
pub mod Entries
pub mod Counts
pub mod Blobs
pub mod Depth

-- `Move::termination().raw()`, `Move::forcedAggregation().raw()` and `RatingBucket::NUM_BUCKETS`
abbrev pub termination : ℕ
termination = 130

abbrev pub forced_aggregation : ℕ
forced_aggregation = 0xffff

abbrev pub num_buckets : ℕ
num_buckets = 9

-- The blob that a call of `dfs` builds, and its `catchall`.
pub record Node : Type 0 where
  pub entries : List NodeBlobEntry
  pub catchall : List SpillRecord

abbrev pub empty_node : Node
empty_node = record { entries = []; catchall = replicate num_buckets empty_slot }

abbrev pub blob_entry : SpillRecord → NodeBlobEntry
blob_entry r = record {
  move = r.move;
  bucket = r.bucket;
  count = r.count;
  white_wins = r.white_wins;
  draws = r.draws;
}

unfoldable pub insert_record : SpillRecord → Node → Option Node
insert_record r n =
    if length n.entries == max_children
    then none
    else some (record n { entries = n.entries ++ blob_entry r ∷ [] })

unfoldable pub add_catchall : SpillRecord → Node → Option Node
add_catchall r n =
    if ltb r.bucket num_buckets
    then some (record n {
      catchall = set n.catchall r.bucket (accumulate (get_or n.catchall r.bucket empty_slot) r);
    })
    else none

-- A step for every record of a list, up to the first that fails.
unfoldable pub for_each : (SpillRecord → Node → Option Node) → List SpillRecord → Node → Option Node
for_each step [] n = some n
for_each step (r ∷ rs) n = elim (step r n) [ none ↦ none | some n' ↦ for_each step rs n' ]

-- The body of the loop for a leaf.
unfoldable pub leaf_step : SpillRecord → Node → Option Node
leaf_step r n = if r.move == termination then insert_record r n else add_catchall r n

-- The records of one position, from its first one on.
unfoldable pub run_of : ℕ → List SpillRecord → List SpillRecord
run_of z [] = []
run_of z (r ∷ rs) = if r.zobrist == z then r ∷ run_of z rs else []

-- The records of one move at the front, and what is behind them.
unfoldable pub take_move : ℕ → List SpillRecord → List SpillRecord
take_move m [] = []
take_move m (r ∷ rs) = if r.move == m then r ∷ take_move m rs else []

unfoldable pub drop_move : ℕ → List SpillRecord → List SpillRecord
drop_move m [] = []
drop_move m (r ∷ rs) = if r.move == m then drop_move m rs else r ∷ rs

-- `bucketRecord` of every bucket from `bucket` on, which gets the move and the bucket of the AGG entry.
unfoldable pub insert_catchall : ℕ → List SpillRecord → Node → Option Node
insert_catchall bucket [] n = some n
insert_catchall bucket (r ∷ rs) n =
    if r.count == 0
    then insert_catchall (suc bucket) rs n
    else elim (insert_record (record r { move = forced_aggregation; bucket = bucket }) n) [
      | none ↦ none
      | some n' ↦ insert_catchall (suc bucket) rs n'
    ]

-- `ChildRef`: `none` is `NOT_FOUND`, a dropped child.
abbrev pub ChildRef : Type 0
ChildRef = ℕ × Option ℕ

abbrev pub is_last : Option ℕ → ℕ → Bool
is_last none m = false
is_last (some last) m = last == m

abbrev pub cons_child : ChildRef → Option (List ChildRef) → Option (List ChildRef)
cons_child c none = none
cons_child c (some cs) = some (c ∷ cs)

-- The index, whose entries are claimed and moved, and the bytes written behind the header.
pub record Walk : Type 0 where
  pub index : PositionIndex
  pub out : List ℕ

-- `markVisited` and `setOtbOffset`
unfoldable pub mark_visited : ℕ → List Entry → List Entry
mark_visited i [] = []
mark_visited zero (e ∷ es) = record e { visited = true } ∷ es
mark_visited (suc i) (e ∷ es) = e ∷ mark_visited i es

unfoldable pub set_otb_offset : ℕ → ℕ → List Entry → List Entry
set_otb_offset i offset [] = []
set_otb_offset zero offset (e ∷ es) = record e { slot = offset } ∷ es
set_otb_offset (suc i) offset (e ∷ es) = e ∷ set_otb_offset i offset es

unfoldable pub claim : ℕ → Walk → Walk
claim i w = record w { index = record w.index { entries = mark_visited i w.index.entries } }

-- The end of `dfs`: the blob goes to the end of the file.
unfoldable pub write_node : ℕ → Node → Walk → Option Walk
write_node i n w =
    let tell = header_size + length w.out in
    if (tell % 4 == 0) && leb (tell / 4) 0xffff_ffff
    then some (record {
      index = record w.index { entries = set_otb_offset i (tell / 4) w.index.entries };
      out = w.out ++ put_node n.entries [];
    })
    else none

-- The position and its moves belong to the chess library.
module _ (Position : Type 0) (key : Position → ℕ) (do_move : Position → ℕ → Position) where
  -- Pass one: every child is looked up before the walk goes on.
  unfoldable pub resolve :
      PositionIndex → Position → List SpillRecord → Option ℕ → Option (List ChildRef)
  resolve idx pos [] last = some []
  resolve idx pos (r ∷ rs) last =
      let skip = (r.move == termination) || is_last last r.move in
      let rest = resolve idx pos rs (if skip then last else some r.move) in
      if skip
      then rest
      else if r.move == forced_aggregation
      then none
      else cons_child (r.move, find idx (key (do_move pos r.move))) rest

  module _ (walk_child : ℕ → Position → Walk → Option Walk) where
    abbrev pub enter : Option ℕ → Position → Walk → Option Walk
    enter none pos w = some w
    enter (some i) pos w = walk_child i pos w

    -- "a dropped child has no blob of its own"
    abbrev pub collect : Option ℕ → List SpillRecord → Node → Option Node
    collect none group n = for_each add_catchall group n
    collect (some i) group n = for_each insert_record group n

    -- Pass two, with rounds for every record of the run.
    unfoldable pub expand :
        ℕ → Position → List SpillRecord → List ChildRef → Walk → Node → Option (Walk × Node)
    expand n pos [] [] w node = some (w, node)
    expand n pos [] (c ∷ cs) w node = none
    expand zero pos (r ∷ rs) cs w node = none
    expand (suc n) pos (r ∷ rs) [] w node =
        if r.move == termination
        then elim (insert_record r node) [ none ↦ none | some node' ↦ expand n pos rs [] w node' ]
        else none
    expand (suc n) pos (r ∷ rs) (c ∷ cs) w node =
        if r.move == termination
        then elim (insert_record r node) [
          | none ↦ none
          | some node' ↦ expand n pos rs (c ∷ cs) w node'
        ]
        else if not (c.0 == r.move)
        then none
        else elim (enter c.1 (do_move pos r.move) w) [
          | none ↦ none
          | some w' ↦ elim (collect c.1 (take_move r.move (r ∷ rs)) node) [
            | none ↦ none
            | some node' ↦ expand n pos (drop_move r.move rs) cs w' node'
          ]
        ]

    unfoldable pub expand_children :
        Option (List ChildRef) → Position → List SpillRecord → Walk → Option (Walk × Node)
    expand_children none pos run w = none
    expand_children (some cs) pos run w = expand (length run) pos run cs w empty_node

    unfoldable pub leaf_node : Option Node → Walk → Option (Walk × Node)
    leaf_node none w = none
    leaf_node (some n) w = some (w, n)

    -- The two kinds of position.
    unfoldable pub build_node :
        NodeClassification → Position → List SpillRecord → Walk → Option (Walk × Node)
    build_node NodeClassification.leaf pos run w = leaf_node (for_each leaf_step run empty_node) w
    build_node NodeClassification.full pos run w =
        expand_children (resolve w.index pos run none) pos run w

  unfoldable pub finish_node : ℕ → Option (Walk × Node) → Option Walk
  finish_node i none = none
  finish_node i (some (w, n)) = elim (insert_catchall 0 n.catchall n) [
    | none ↦ none
    | some n' ↦ write_node i n' w
  ]

  module _ (records : List SpillRecord) where
    abbrev pub build_from :
        (ℕ → Position → Walk → Option Walk) → Entry → ℕ → Position → Walk → Option Walk
    build_from walk_child e i pos w =
        finish_node i
          (build_node walk_child e.class pos (run_of (key pos) (drop e.slot records)) (claim i w))

    -- The depths left up to `MAX_DEPTH`.
    unfoldable pub dfs_at :
        Option Entry
        → (ℕ → Position → Walk → Option Walk)
        → Bool
        → ℕ
        → Position
        → Walk
        → Option Walk
    dfs_at none walk_child deep i pos w = none
    dfs_at (some e) walk_child deep i pos w =
        if e.visited
        then some w
        else if deep || not (e.key == key pos)
        then none
        else build_from walk_child e i pos w

    unfoldable pub dfs : ℕ → ℕ → Position → Walk → Option Walk
    dfs zero i pos w = dfs_at (get_elem? w.index.entries i) (λ j p v. none) true i pos w
    dfs (suc n) i pos w = dfs_at (get_elem? w.index.entries i) (dfs n) false i pos w

-- The loop of `main` that writes the index: the visited entries in their order.
unfoldable pub index_entries : List Entry → List IndexEntry
index_entries [] = []
index_entries (e ∷ es) =
    if e.visited
    then record { zobrist = e.key; offset_div4 = e.slot } ∷ index_entries es
    else index_entries es

unfoldable pub finish : Walk → List ℕ
finish w = write_otb w.out (index_entries w.index.entries)
