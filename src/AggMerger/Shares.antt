-- ===== src/AggMerger/Shares.antt =====
-- agg_merger.cpp, `mergeWorker`: its share of the files, the cursors on the slices and its output.
use out_of_book.Prelude.{
  ℕ, zero, suc, ◌+◌, ◌-◌, ◌≤◌, ◌<◌, ◌≡◌, ap, sym, ◌∙◌, List, [], ◌∷◌, some, ◌==◌, ltb,
  if◌then◌else◌, arith, refl, inl, inr, Bool-cases, length, get_elem?, get_or, take, drop, All,
  All-take, drop-get_elem?, take_step, take_none, length-take, length-drop,
}
use mathlib.Core.Path.{subst}
use out_of_book.Spill.{SpillRecord, Key, Counter, weight, tally, u32, u64}
use out_of_book.AggSpills.Order.{IsSorted}
use out_of_book.AggMerger.Ranges.{FileRange}
use out_of_book.AggMerger.Worker.{Node, read_record, cursors, record_count, merge_worker}
use out_of_book.AggMerger.Sums.{sum_of, sums_of, one, games_at, IsAscending, AtMost, tally-sum_of}
use out_of_book.AggMerger.Cursors.{rest, pending}
use out_of_book.AggMerger.Drains.{IsReady, Drains-exists, Drains-sum_of, Drains-All}
use out_of_book.AggMerger.Written.{IsRoomy, kept}
use out_of_book.AggMerger.Loop.{worker_loop_lem}
use out_of_book.AggMerger.Slices.{slice}

-- A range for each file, inside of it.
pub data AreRanges : List FileRange → List (List SpillRecord) → Type 0 where
  nil : AreRanges [] []
  cons :
      {r : FileRange} {f : List SpillRecord} {rs : List FileRange} {fs : List (List SpillRecord)}
      → r.begin ≤ r.end
      → r.end ≤ length f
      → AreRanges rs fs
      → AreRanges (r ∷ rs) (f ∷ fs)

abbrev pub slices : List FileRange → List (List SpillRecord) → List (List SpillRecord)
slices [] fs = []
slices (r ∷ rs) [] = []
slices (r ∷ rs) (f ∷ fs) = slice f r ∷ slices rs fs

take-IsAscending : (n : ℕ) (xs : List SpillRecord) → IsAscending xs → IsAscending (take n xs)
take-IsAscending zero xs h = tt
take-IsAscending (suc n) [] h = tt
take-IsAscending (suc n) (x ∷ xs) h = (All-take (AtMost x) n xs h.0, take-IsAscending n xs h.1)

drop-IsAscending : (n : ℕ) (xs : List SpillRecord) → IsAscending xs → IsAscending (drop n xs)
drop-IsAscending zero xs h = h
drop-IsAscending (suc n) [] h = tt
drop-IsAscending (suc n) (x ∷ xs) h = drop-IsAscending n xs h.1

-- The file at a number, found by what is left of the list from there on.
file_at :
    (i : ℕ) (files : List (List SpillRecord)) (f : List SpillRecord) (fs : List (List SpillRecord))
    → drop i files ≡ f ∷ fs
    → (i < length files)
      × (get_elem? files i ≡ some f)
      × (get_or files i [] ≡ f)
      × (drop (suc i) files ≡ fs)
file_at zero [] f fs h = absurd (cc)
file_at zero (g ∷ files) f fs h = let p = cons_inj h in (omega arith, ap some p.0, p.0, p.1)
  where
    cons_inj : (g ∷ files ≡ f ∷ fs) → (g ≡ f) × (files ≡ fs)
    cons_inj e = (cc, cc)
file_at (suc i) [] f fs h = absurd (cc)
file_at (suc i) (g ∷ files) f fs h =
    let (lt, e, e', e'') = file_at i files f fs h in (omega arith, e, e', e'')

sum_of_one : (xs : List SpillRecord) → sum_of one xs ≡ length xs
unfolding sum_of
sum_of_one [] = refl
sum_of_one (x ∷ xs) = omega (arith, sum_of_one xs)

sums_of_one :
    (rs : List FileRange) (fs : List (List SpillRecord))
    → sums_of one (slices rs fs) ≤ record_count fs
unfolding sums_of record_count
sums_of_one [] fs = omega arith
sums_of_one (r ∷ rs) [] = omega arith
sums_of_one (r ∷ rs) (f ∷ fs) = omega (
  arith,
  sum_of_one (slice f r),
  length-take {0} (r.end - r.begin) (drop r.begin f),
  length-drop {0} r.begin f,
  sums_of_one rs fs,
)

-- What a worker should write of the parts of the files that it reads: the sums of every position
-- with games enough, in strict order, and within the bounds of the parts.
pub record Wrote (parts : List (List SpillRecord)) (out : List SpillRecord) : Type 0 where
  pub sums :
      (k : Key) (c : Counter)
      → tally k c out
        ≡ (if ltb (sums_of (games_at k.zobrist) parts) 5 then 0 else sums_of (weight k c) parts)
  pub sorted : IsSorted out
  pub above : (lo : ℕ) → All (All (λ r. lo ≤ r.zobrist)) parts → All (λ r. lo ≤ r.zobrist) out
  pub below : (hi : ℕ) → All (All (λ r. r.zobrist < hi)) parts → All (λ r. r.zobrist < hi) out

-- No sum over the parts outgrows its type.
pub record HasRoom (parts : List (List SpillRecord)) : Type 0 where
  pub sums : (k : Key) (c : Counter) → sums_of (weight k c) parts < u32
  pub games : (z : ℕ) → sums_of (games_at z) parts < u64

module _ (files : List (List SpillRecord)) where
  -- The cursor of a range that is not empty, and the records that it will give.
  start :
      (i : ℕ) (f : List SpillRecord) (r : FileRange)
      → i < length files
      → get_elem? files i ≡ some f
      → get_or files i [] ≡ f
      → r.begin < r.end
      → r.end ≤ length f
      → IsAscending f
      → (x : SpillRecord) × (read_record files i r.begin ≡ some x)
        × IsReady files (record { file = i; index = r.begin; end = r.end; rec = x })
        × (rest files (record { file = i; index = r.begin; end = r.end; rec = x }) ≡ slice f r)
  unfolding read_record
  start i f r lt e e' some_left within up =
      let (x, at, ahead) = drop-get_elem? r.begin f (omega arith) in
      let n : Node = record { file = i; index = r.begin; end = r.end; rec = x } in
      let here : rest files n ≡ slice f r =
        ap (λ g. x ∷ take (r.end - (r.begin + 1)) (drop (r.begin + 1) g)) e'
        ∙ sym (
            ap (take (r.end - r.begin)) ahead
            ∙ take_step (r.end - r.begin) x (drop (suc r.begin) f) (omega arith)
            ∙ shifted x f r.begin r.end) in
      let up' =
        take-IsAscending (r.end - r.begin) (drop r.begin f) (drop-IsAscending r.begin f up) in
      (
        x,
        rw (e, read_record) at,
        (
          (lt, some_left, subst (λ g. r.end ≤ length g) (sym e') within),
          subst IsAscending (sym here) up',
        ),
        here,
      )
    where
      shifted :
          (x : SpillRecord) (f : List SpillRecord) (b e : ℕ)
          → x ∷ take (e - b - 1) (drop (suc b) f) ≡ x ∷ take (e - (b + 1)) (drop (b + 1) f)
      shifted x f b e =
          let p : suc b ≡ b + 1 = omega arith in
          let p' : e - b - 1 ≡ e - (b + 1) = omega arith in rw (p, p') refl

  -- The cursors on a worker's ranges.
  record Starts (slices : List (List SpillRecord)) (q : List Node) : Type 1 where
    ready : All (IsReady files) q
    sums : (w : SpillRecord → ℕ) → pending files w q ≡ sums_of w slices
    held : (P : SpillRecord → Type 0) → All (All P) slices → All (λ n. All P (rest files n)) q

  cursors_lem :
      (i : ℕ) (rs : List FileRange) (fs : List (List SpillRecord))
      → drop i files ≡ fs
      → AreRanges rs fs
      → All IsAscending fs
      → (q : List Node) × (cursors files i rs ≡ some q) × Starts (slices rs fs) q
  unfolding cursors pending sums_of sum_of
  cursors_lem i [] [] d nil up =
      ([], refl, record { ready = tt; sums = λ w. refl; held = λ P h. tt })
  cursors_lem i [] (f ∷ fs) d a up = elim a [ ]
  cursors_lem i (r ∷ rs) [] d a up = elim a [ ]
  cursors_lem i (r ∷ rs) (f ∷ fs) d (cons le within more) up =
      let (lt, e, e', d') = file_at i files f fs d in
      let (q, p, s) = cursors_lem (suc i) rs fs d' more up.1 in
      elim (Bool-cases (r.begin == r.end)) [
        | inl same ↦ (
          q,
          rw (p, same) refl,
          record {
            ready = s.ready;
            sums = λ w. omega (
              arith,
              s.sums w,
              ap (sum_of w) (take_none (r.end - r.begin) (drop r.begin f) (ground arith)),
            );
            held = λ P h. s.held P h.1;
          },
        )
        | inr differ ↦
            let (x, read, ready, here) = start i f r lt e e' (ground arith) within up.0 in
            (
              record { file = i; index = r.begin; end = r.end; rec = x } ∷ q,
              rw (p, differ) (rw read refl),
              record {
                ready = (ready, s.ready);
                sums = λ w. omega (arith, s.sums w, ap (sum_of w) here);
                held = λ P h. (subst (All P) (sym here) h.0, s.held P h.1);
              },
            )
      ]

  -- A worker ends, and writes what its slices ask for.
  pub merge_worker_lem :
      (rs : List FileRange)
      → AreRanges rs files
      → All IsAscending files
      → HasRoom (slices rs files)
      → (out : List SpillRecord) × (merge_worker rs files ≡ some out) × Wrote (slices rs files) out
  unfolding merge_worker
  merge_worker_lem rs a up room =
      let (q, p, s) = cursors_lem 0 rs files refl a up in
      let (drained, d) = Drains-exists files (pending files one q) q s.ready (omega arith) in
      let total = λ (w : SpillRecord → ℕ). Drains-sum_of files w drained q s.ready d ∙ s.sums w in
      let roomy : IsRoomy drained = record {
        sums = λ k c. omega (arith, tally-sum_of k c drained, total (weight k c), room.sums k c);
        games = λ z. omega (arith, total (games_at z), room.games z);
      } in
      let enough : sum_of one drained < suc (record_count files) =
        omega (arith, total one, sums_of_one rs files) in
      let (out, e, w) =
        worker_loop_lem files (suc (record_count files)) drained q [] s.ready d enough roomy in
      (
        out,
        rw (p, merge_worker) e,
        record {
          sums = λ k c.
              w.sums k c
              ∙ same_kept k c drained (slices rs files) (total (games_at k.zobrist))
                  (tally-sum_of k c drained ∙ total (weight k c));
          sorted = w.sorted;
          above = λ lo h. w.above lo (
              Drains-All files (λ r. lo ≤ r.zobrist) drained q s.ready
                (s.held (λ r. lo ≤ r.zobrist) h) d);
          below = λ hi h. w.below hi (
              Drains-All files (λ r. r.zobrist < hi) drained q s.ready
                (s.held (λ r. r.zobrist < hi) h) d);
        },
      )
    where
      same_kept :
          (k : Key) (c : Counter) (drained : List SpillRecord) (parts : List (List SpillRecord))
          → sum_of (games_at k.zobrist) drained ≡ sums_of (games_at k.zobrist) parts
          → tally k c drained ≡ sums_of (weight k c) parts
          → kept k c drained
            ≡ (if ltb (sums_of (games_at k.zobrist) parts) 5 then 0 else sums_of (weight k c) parts)
      same_kept k c drained parts e e' = rw (e, e') refl
