-- ===== src/GenerateOtb/Walk/Counts.antt =====
-- generate_otb.cpp: the counts of the blob that `dfs` builds, in their 32 bits.
use out_of_book.Prelude.{
  ℕ, zero, suc, true, ◌+◌, ◌%◌, ◌<◌, ◌≡◌, ◌∙◌, ap, sym, List, [], ◌∷◌, ◌++◌, ◌==◌, ltb, Option,
  none, some, length, get_or, set, arith, refl, Bool-cases, Option-cases, inl, inr, length-set,
}
use mathlib.Core.Option.{some_inj}
use mathlib.Core.Path.{subst}
use out_of_book.Spill.{SpillRecord, u32}
use out_of_book.Spill.RecordCache.{empty_slot}
use out_of_book.AggSpills.{accumulate}
use out_of_book.Otb.Format.{NodeBlobEntry, max_children}
use out_of_book.GenerateOtb.Index.{NodeClassification}
use out_of_book.GenerateOtb.Walk.{
  Node, Walk, ChildRef, blob_entry, insert_record, add_catchall, for_each, leaf_step, take_move,
  drop_move, insert_catchall, empty_node, num_buckets, forced_aggregation, termination, enter,
  collect, expand, expand_children, leaf_node, build_node, resolve,
}

unfoldable pub count_entries : List NodeBlobEntry → ℕ
count_entries [] = 0
count_entries (e ∷ es) = e.count + count_entries es

unfoldable pub count_records : List SpillRecord → ℕ
count_records [] = 0
count_records (r ∷ rs) = r.count + count_records rs

count_entries-append :
    (es : List NodeBlobEntry) (e : NodeBlobEntry)
    → count_entries (es ++ e ∷ []) ≡ count_entries es + e.count
unfolding count_entries
count_entries-append [] e = omega arith
count_entries-append (x ∷ es) e = omega (arith, count_entries-append es e)

count_records-set :
    (rs : List SpillRecord) (i : ℕ) (d v : SpillRecord)
    → i < length rs
    → count_records (set rs i v) + (get_or rs i d).count ≡ count_records rs + v.count
unfolding count_records
count_records-set [] i d v lt = absurd (omega arith)
count_records-set (r ∷ rs) zero d v lt = omega arith
count_records-set (r ∷ rs) (suc i) d v lt = omega (arith, count_records-set rs i d v (omega arith))

-- A node that holds the counts of records that add up to `k`.
pub record Counted (n : Node) (k : ℕ) : Type 0 where
  pub size : length n.catchall ≡ num_buckets
  pub sum : (count_entries n.entries + count_records n.catchall) % u32 ≡ k % u32

pub empty_node-Counted : Counted empty_node 0
unfolding count_entries count_records
empty_node-Counted = record { size = omega arith; sum = omega arith }

insert_record-Counted :
    (r : SpillRecord) (n n' : Node) (k : ℕ)
    → Counted n k
    → insert_record r n ≡ some n'
    → Counted n' (k + r.count)
unfolding insert_record
insert_record-Counted r n n' k h e = elim (Bool-cases (length n.entries == max_children)) [
  | inl full ↦ absurd (ground arith)
  | inr room ↦
      let same : record n { entries = n.entries ++ blob_entry r ∷ [] } ≡ n' = ground arith in
      subst (λ n. Counted n (k + r.count)) same
        (record {
          size = h.size;
          sum = omega (arith, h.sum, count_entries-append n.entries (blob_entry r));
        })
]

add_catchall-Counted :
    (r : SpillRecord) (n n' : Node) (k : ℕ)
    → Counted n k
    → add_catchall r n ≡ some n'
    → Counted n' (k + r.count)
unfolding add_catchall
add_catchall-Counted r n n' k h e = elim (Bool-cases (ltb r.bucket num_buckets)) [
  | inr bad ↦ absurd (ground arith)
  | inl good ↦
      let old = get_or n.catchall r.bucket empty_slot in
      let sum = accumulate old r in
      let same : record n { catchall = set n.catchall r.bucket sum } ≡ n' = ground arith in
      let inside : r.bucket < length n.catchall = ground (arith, h.size, good) in
      let moved = count_records-set n.catchall r.bucket empty_slot sum inside in
      let added : sum.count ≡ (old.count + r.count) % u32 = refl in
      subst (λ n. Counted n (k + r.count)) same
        (record {
          size = length-set n.catchall r.bucket sum ∙ h.size;
          sum = omega (arith, h.sum, moved, added);
        })
]

-- A step that adds the count of its record.
abbrev Adds : (SpillRecord → Node → Option Node) → Type 0
Adds step =
    (r : SpillRecord) (n n' : Node) (k : ℕ)
    → Counted n k
    → step r n ≡ some n'
    → Counted n' (k + r.count)

leaf_step-Adds : Adds leaf_step
unfolding leaf_step
leaf_step-Adds r n n' k h e = elim (Bool-cases (r.move == termination)) [
  | inl stop ↦ insert_record-Counted r n n' k h (ground arith)
  | inr go ↦ add_catchall-Counted r n n' k h (ground arith)
]

for_each-Counted :
    (step : SpillRecord → Node → Option Node) (rs : List SpillRecord) (n n' : Node) (k : ℕ)
    → Adds step
    → Counted n k
    → for_each step rs n ≡ some n'
    → Counted n' (k + count_records rs)
unfolding for_each count_records
for_each-Counted step [] n n' k adds h e =
    subst (Counted n') (omega arith) (subst (λ n. Counted n k) (some_inj.0 e) h)
for_each-Counted step (r ∷ rs) n n' k adds h e = elim (Option-cases (step r n)) [
  | inl bad ↦ absurd (ground arith)
  | inr (m, good) ↦
      subst (Counted n') (omega arith)
        (for_each-Counted step rs m n' (k + r.count) adds (adds r n m k h good) (ground arith))
]

insert_record-count :
    (r : SpillRecord) (n m : Node)
    → insert_record r n ≡ some m
    → count_entries m.entries ≡ count_entries n.entries + r.count
unfolding insert_record
insert_record-count r n m e = elim (Bool-cases (length n.entries == max_children)) [
  | inl full ↦ absurd (ground arith)
  | inr room ↦
      let same : record n { entries = n.entries ++ blob_entry r ∷ [] } ≡ m = ground arith in
      sym (ap (λ (x : Node). count_entries x.entries) same)
      ∙ count_entries-append n.entries (blob_entry r)
]

-- The catchall goes to the entries.
pub insert_catchall-count :
    (bucket : ℕ) (rs : List SpillRecord) (n n' : Node)
    → insert_catchall bucket rs n ≡ some n'
    → count_entries n'.entries ≡ count_entries n.entries + count_records rs
unfolding insert_catchall count_records
insert_catchall-count bucket [] n n' e =
    omega (arith, ap (λ (x : Node). count_entries x.entries) (some_inj.0 e))
insert_catchall-count bucket (r ∷ rs) n n' e = elim (Bool-cases (r.count == 0)) [
  | inl none_there ↦
      let zero_count : r.count ≡ 0 = ground arith in
      omega (arith, insert_catchall-count (suc bucket) rs n n' (ground arith))
  | inr some_there ↦
      let agg = record r { move = forced_aggregation; bucket = bucket } in
      elim (Option-cases (insert_record agg n)) [
        | inl bad ↦ absurd (ground arith)
        | inr (m, good) ↦ omega (
          arith,
          insert_record-count agg n m good,
          insert_catchall-count (suc bucket) rs m n' (ground arith),
        )
      ]
]

-- The records of the first move, and those behind them.
take-drop_move :
    (m : ℕ) (rs : List SpillRecord)
    → count_records (take_move m rs) + count_records (drop_move m rs) ≡ count_records rs
unfolding take_move drop_move count_records
take-drop_move m [] = omega arith
take-drop_move m (r ∷ rs) = elim (Bool-cases (r.move == m)) [
  | inl e ↦ rw e (omega (arith, take-drop_move m rs))
  | inr e ↦ rw e (omega arith)
]

module _ (Position : Type 0) (key : Position → ℕ) (do_move : Position → ℕ → Position)
    (walk_child : ℕ → Position → Walk → Option Walk) where
  collect-Counted :
      (c : Option ℕ) (rs : List SpillRecord) (n m : Node) (k : ℕ)
      → Counted n k
      → collect Position key do_move walk_child c rs n ≡ some m
      → Counted m (k + count_records rs)
  collect-Counted none rs n m k h e = for_each-Counted _ rs n m k add_catchall-Counted h e
  collect-Counted (some i) rs n m k h e = for_each-Counted _ rs n m k insert_record-Counted h e

  -- The records of the move that is taken, and the others.
  group-count :
      (r : SpillRecord) (rs : List SpillRecord) (k : ℕ)
      → k + count_records (take_move r.move (r ∷ rs)) + count_records (drop_move r.move rs)
        ≡ k + count_records (r ∷ rs)
  unfolding take_move count_records
  group-count r rs k =
      let own : (r.move == r.move) ≡ true = ground arith in
      rw own (omega (arith, take-drop_move r.move rs))

  expand-Counted :
      (fuel : ℕ) (pos : Position) (rs : List SpillRecord) (cs : List ChildRef) (u v : Walk)
      (n m : Node) (k : ℕ)
      → Counted n k
      → expand Position key do_move walk_child fuel pos rs cs u n ≡ some (v, m)
      → Counted m (k + count_records rs)
  unfolding expand count_records
  expand-Counted fuel pos [] [] u v n m k h e =
      subst (Counted m) (omega arith) (subst (λ n. Counted n k) (ap (λ p. p.1) (some_inj.0 e)) h)
  expand-Counted fuel pos [] (c ∷ cs) u v n m k h e = absurd (cc)
  expand-Counted zero pos (r ∷ rs) cs u v n m k h e = absurd (cc)
  expand-Counted (suc fuel) pos (r ∷ rs) [] u v n m k h e =
      elim (Bool-cases (r.move == termination)) [
        | inr go ↦ absurd (ground arith)
        | inl stop ↦ elim (Option-cases (insert_record r n)) [
          | inl bad ↦ absurd (ground arith)
          | inr (n', good) ↦ subst (Counted m) (omega arith) (
              expand-Counted fuel pos rs [] u v n' m (k + r.count)
                (insert_record-Counted r n n' k h good) (ground arith))
        ]
      ]
  expand-Counted (suc fuel) pos (r ∷ rs) (c ∷ cs) u v n m k h e =
      elim (Bool-cases (r.move == termination)) [
        | inl stop ↦ elim (Option-cases (insert_record r n)) [
          | inl bad ↦ absurd (ground arith)
          | inr (n', good) ↦ subst (Counted m) (omega arith) (
              expand-Counted fuel pos rs (c ∷ cs) u v n' m (k + r.count)
                (insert_record-Counted r n n' k h good) (ground arith))
        ]
        | inr go ↦
            elim (Option-cases (enter Position key do_move walk_child c.1 (do_move pos r.move) u)) [
              | inl bad ↦ absurd (ground arith)
              | inr (w, entered) ↦
                  let group = take_move r.move (r ∷ rs) in
                  elim (Option-cases (collect Position key do_move walk_child c.1 group n)) [
                    | inl bad ↦ absurd (ground arith)
                    | inr (n', good) ↦ subst (Counted m) (group-count r rs k) (
                        expand-Counted fuel pos (drop_move r.move rs) cs w v n' m
                          (k + count_records group) (collect-Counted c.1 group n n' k h good)
                          (ground arith))
                  ]
            ]
      ]

  expand_children-Counted :
      (cs : Option (List ChildRef)) (pos : Position) (rs : List SpillRecord) (u v : Walk) (m : Node)
      → expand_children Position key do_move walk_child cs pos rs u ≡ some (v, m)
      → Counted m (0 + count_records rs)
  unfolding expand_children
  expand_children-Counted none pos rs u v m e = absurd (cc)
  expand_children-Counted (some cs) pos rs u v m e =
      expand-Counted (length rs) pos rs cs u v empty_node m 0 empty_node-Counted e

  leaf_node-Counted :
      (o : Option Node) (u v : Walk) (m : Node) (k : ℕ)
      → ((n : Node) → o ≡ some n → Counted n k)
      → leaf_node Position key do_move walk_child o u ≡ some (v, m)
      → Counted m k
  unfolding leaf_node
  leaf_node-Counted none u v m k h e = absurd (cc)
  leaf_node-Counted (some n) u v m k h e =
      subst (λ n. Counted n k) (ap (λ p. p.1) (some_inj.0 e)) (h n refl)

  -- Of either kind of position, the node holds the counts of its records.
  pub build_node-Counted :
      (c : NodeClassification) (pos : Position) (rs : List SpillRecord) (u v : Walk) (m : Node)
      → build_node Position key do_move walk_child c pos rs u ≡ some (v, m)
      → Counted m (0 + count_records rs)
  unfolding build_node
  build_node-Counted NodeClassification.leaf pos rs u v m e =
      leaf_node-Counted (for_each leaf_step rs empty_node) u v m (0 + count_records rs)
        (λ n made.
          for_each-Counted leaf_step rs empty_node n 0 leaf_step-Adds empty_node-Counted made)
        e
  build_node-Counted NodeClassification.full pos rs u v m e =
      expand_children-Counted (resolve Position key do_move u.index pos rs none) pos rs u v m e
