-- ===== src/GenerateOtb/Walk/Entries.antt =====
-- generate_otb.cpp: the widths and the number of the entries of a blob.
use out_of_book.Prelude.{
  All-append, ℕ, zero, suc, ◌+◌, ◌≤◌, ◌≡◌, List, [], ◌∷◌, ◌++◌, ◌==◌, ltb, Option, some, length,
  drop, get_or, set, arith, Bool-cases, Option-cases, inl, inr, All, length-append, length-set,
  All-set, All-get_or, All-replicate,
}
use mathlib.Core.Option.{some_inj}
use mathlib.Core.Path.{subst}
use out_of_book.Spill.{SpillRecord}
use out_of_book.Spill.RecordCache.{empty_slot}
use out_of_book.AggSpills.{accumulate}
use out_of_book.Otb.Format.{NodeBlobEntry, max_children}
use out_of_book.Otb.RoundTrip.{EntryFits}
use out_of_book.GenerateOtb.Walk.{
  Node, blob_entry, insert_record, add_catchall, for_each, leaf_step, run_of, take_move, drop_move,
  insert_catchall, empty_node, num_buckets, forced_aggregation, termination,
}

abbrev pub NodeFits : List NodeBlobEntry → Type 0
NodeFits = All EntryFits

-- The fields of a record have the widths of the struct.
abbrev pub RecordFits : SpillRecord → Type 0
RecordFits r = EntryFits (blob_entry r)

pub record IsNode (n : Node) : Type 0 where
  pub few : length n.entries ≤ max_children
  pub fits : NodeFits n.entries
  pub catchall : All RecordFits n.catchall
  pub buckets : length n.catchall ≤ num_buckets

pub empty_node-IsNode : IsNode empty_node
empty_node-IsNode = record {
  few = omega arith;
  fits = tt;
  catchall =
      All-replicate RecordFits num_buckets empty_slot
        (omega arith, omega arith, omega arith, omega arith, omega arith);
  buckets = omega arith;
}

pub insert_record-IsNode :
    (r : SpillRecord) (n n' : Node)
    → RecordFits r
    → IsNode n
    → insert_record r n ≡ some n'
    → IsNode n'
unfolding insert_record
insert_record-IsNode r n n' f h e = elim (Bool-cases (length n.entries == max_children)) [
  | inl full ↦ absurd (ground arith)
  | inr room ↦
      let same : record n { entries = n.entries ++ blob_entry r ∷ [] } ≡ n' = cc in
      let long = length-append n.entries (blob_entry r ∷ []) in
      subst IsNode same (record {
        few = ground (arith, h.few, long);
        fits = All-append EntryFits n.entries (blob_entry r ∷ []) h.fits (f, tt);
        catchall = h.catchall;
        buckets = h.buckets;
      })
]

pub add_catchall-IsNode :
    (r : SpillRecord) (n n' : Node)
    → RecordFits r
    → IsNode n
    → add_catchall r n ≡ some n'
    → IsNode n'
unfolding add_catchall
add_catchall-IsNode r n n' f h e = elim (Bool-cases (ltb r.bucket num_buckets)) [
  | inr bad ↦ absurd (ground arith)
  | inl good ↦
      let sum = accumulate (get_or n.catchall r.bucket empty_slot) r in
      let old =
        All-get_or RecordFits n.catchall r.bucket empty_slot h.catchall
          (omega arith, omega arith, omega arith, omega arith, omega arith) in
      let same : record n { catchall = set n.catchall r.bucket sum } ≡ n' = cc in
      subst IsNode same (record {
        few = h.few;
        fits = h.fits;
        catchall =
            All-set RecordFits n.catchall r.bucket sum h.catchall
              (old.0, old.1, omega arith, omega arith, omega arith);
        buckets = omega (arith, h.buckets, length-set n.catchall r.bucket sum);
      })
]

-- A step that keeps a node within the format.
abbrev pub Keeps : (SpillRecord → Node → Option Node) → Type 0
Keeps step =
    (r : SpillRecord) (n n' : Node) → RecordFits r → IsNode n → step r n ≡ some n' → IsNode n'

pub leaf_step-Keeps : Keeps leaf_step
unfolding leaf_step
leaf_step-Keeps r n n' f h e = elim (Bool-cases (r.move == termination)) [
  | inl stop ↦ insert_record-IsNode r n n' f h (ground arith)
  | inr go ↦ add_catchall-IsNode r n n' f h (ground arith)
]

pub for_each-IsNode :
    (step : SpillRecord → Node → Option Node) (rs : List SpillRecord) (n n' : Node)
    → Keeps step
    → All RecordFits rs
    → IsNode n
    → for_each step rs n ≡ some n'
    → IsNode n'
unfolding for_each
for_each-IsNode step [] n n' k f h e = subst IsNode (some_inj.0 e) h
for_each-IsNode step (r ∷ rs) n n' k f h e = elim (Option-cases (step r n)) [
  | inl bad ↦ absurd (ground arith)
  | inr (m, good) ↦ for_each-IsNode step rs m n' k f.1 (k r n m f.0 h good) (ground arith)
]

pub insert_catchall-IsNode :
    (bucket : ℕ) (rs : List SpillRecord) (n n' : Node)
    → bucket + length rs ≤ 256
    → All RecordFits rs
    → IsNode n
    → insert_catchall bucket rs n ≡ some n'
    → IsNode n'
unfolding insert_catchall
insert_catchall-IsNode bucket [] n n' b f h e = subst IsNode (some_inj.0 e) h
insert_catchall-IsNode bucket (r ∷ rs) n n' b f h e = elim (Bool-cases (r.count == 0)) [
  | inl none_there ↦ insert_catchall-IsNode (suc bucket) rs n n' (omega arith) f.1 h (ground arith)
  | inr some_there ↦
      let agg = record r { move = forced_aggregation; bucket = bucket } in
      elim (Option-cases (insert_record agg n)) [
        | inl bad ↦ absurd (ground arith)
        | inr (m, good) ↦
            insert_catchall-IsNode (suc bucket) rs m n' (omega arith) f.1
              (insert_record-IsNode agg n m (omega arith, omega arith, f.0.2, f.0.3, f.0.4) h good)
              (ground arith)
      ]
]

pub run_of-All : (z : ℕ) (rs : List SpillRecord) → All RecordFits rs → All RecordFits (run_of z rs)
unfolding run_of
run_of-All z [] h = tt
run_of-All z (r ∷ rs) h = elim (Bool-cases (r.zobrist == z)) [
  | inl e ↦ rw e (h.0, run_of-All z rs h.1)
  | inr e ↦ rw e tt
]

pub take_move-All :
    (m : ℕ) (rs : List SpillRecord) → All RecordFits rs → All RecordFits (take_move m rs)
unfolding take_move
take_move-All m [] h = tt
take_move-All m (r ∷ rs) h = elim (Bool-cases (r.move == m)) [
  | inl e ↦ rw e (h.0, take_move-All m rs h.1)
  | inr e ↦ rw e tt
]

pub drop_move-All :
    (m : ℕ) (rs : List SpillRecord) → All RecordFits rs → All RecordFits (drop_move m rs)
unfolding drop_move
drop_move-All m [] h = tt
drop_move-All m (r ∷ rs) h = elim (Bool-cases (r.move == m)) [
  | inl e ↦ rw e (drop_move-All m rs h.1)
  | inr e ↦ rw e h
]

pub drop-All : (n : ℕ) (rs : List SpillRecord) → All RecordFits rs → All RecordFits (drop n rs)
drop-All zero rs h = h
drop-All (suc n) [] h = tt
drop-All (suc n) (r ∷ rs) h = drop-All n rs h.1
