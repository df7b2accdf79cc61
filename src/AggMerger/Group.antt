-- ===== src/AggMerger/Group.antt =====
-- agg_merger.cpp: adding up the adjacent records of one position's group.
use out_of_book.Prelude.{
  ℕ, ◌+◌, ◌%◌, ◌<◌, ◌≡◌, List, [], ◌∷◌, true, false, not, ◌||◌, ◌==◌, arith, inl, inr, Bool-cases,
  All,
}
use out_of_book.Spill.{SpillRecord, Key, Counter, read, weight, tally, key_of, key_eq, u32, u64}
use out_of_book.AggSpills.{record_less, accumulate}
use out_of_book.AggSpills.Order.{IsSorted}
use out_of_book.AggMerger.Worker.{push_merged, merge_group, total_of}
use out_of_book.AggMerger.Sums.{sum_of, games_at, AtMost, IsAscending, tally-sum_of}

abbrev pub AtPosition : ℕ → SpillRecord → Type 0
AtPosition z r = r.zobrist ≡ z

-- The test by which two records of a position are added up.
abbrev Joins : SpillRecord → SpillRecord → Type 0
Joins m r = (not (m.bucket == r.bucket) || not (m.move == r.move)) ≡ false

-- A weight that adds up where records do, if no counter wraps around.
abbrev pub IsAdditive : ℕ → (SpillRecord → ℕ) → Type 0
IsAdditive z w =
    (m r : SpillRecord)
    → AtPosition z m
    → AtPosition z r
    → Joins m r
    → m.count + r.count < u32
    → m.white_wins + r.white_wins < u32
    → m.draws + r.draws < u32
    → w (accumulate m r) ≡ w m + w r

pub weight-IsAdditive : (z : ℕ) (k : Key) (c : Counter) → IsAdditive z (weight k c)
weight-IsAdditive z k Counter.count m r a b j h h' h'' = ground arith
weight-IsAdditive z k Counter.white_wins m r a b j h h' h'' = ground arith
weight-IsAdditive z k Counter.draws m r a b j h h' h'' = ground arith

pub games_at-IsAdditive : (z y : ℕ) → IsAdditive z (games_at y)
games_at-IsAdditive z y m r a b j h h' h'' = ground arith

-- The sums for the key of `r` do not wrap around when `r` is added.
abbrev Room : SpillRecord → List SpillRecord → Type 0
Room r acc = (c : Counter) → tally (key_of r) c acc + read c r < u32

push_merged-sum_of :
    (z : ℕ) (w : SpillRecord → ℕ)
    → IsAdditive z w
    → (acc : List SpillRecord) (r : SpillRecord) → All (AtPosition z) acc
    → AtPosition z r
    → Room r acc
    → sum_of w (push_merged acc r) ≡ sum_of w acc + w r
unfolding push_merged sum_of tally
push_merged-sum_of z w add [] r h p room = omega arith
push_merged-sum_of z w add (m ∷ []) r h p room =
    elim (Bool-cases (not (m.bucket == r.bucket) || not (m.move == r.move))) [
      | inl e ↦ rw e (omega arith)
      | inr e ↦
          let same : key_eq (key_of m) (key_of r) ≡ true = ground arith in
          let fits : (c : Counter) → read c m + read c r < u32 =
            λ c. let g : (read c m + 0) + read c r < u32 = rw same at (room c) in omega arith in
          rw e (
            omega (
              arith,
              add m r h.0 p e (fits Counter.count) (fits Counter.white_wins) (fits Counter.draws),
            ))
    ]
push_merged-sum_of z w add (m ∷ m' ∷ ms) r h p room =
    omega (arith, push_merged-sum_of z w add (m' ∷ ms) r h.1 p (λ c. omega (arith, room c)))

push_merged-All :
    (P : SpillRecord → Type 0) (acc : List SpillRecord) (r : SpillRecord)
    → ((m : SpillRecord) → Joins m r → P m → P (accumulate m r))
    → All P acc
    → P r
    → All P (push_merged acc r)
unfolding push_merged
push_merged-All P [] r f h p = (p, tt)
push_merged-All P (m ∷ []) r f h p =
    elim (Bool-cases (not (m.bucket == r.bucket) || not (m.move == r.move))) [
      | inl e ↦ rw e (h.0, (p, tt))
      | inr e ↦ rw e (f m e h.0, tt)
    ]
push_merged-All P (m ∷ m' ∷ ms) r f h p = (h.0, push_merged-All P (m' ∷ ms) r f h.1 p)

push_merged-IsSorted :
    (z : ℕ) (acc : List SpillRecord) (r : SpillRecord)
    → All (AtPosition z) acc
    → AtPosition z r
    → All (λ m. AtMost m r) acc
    → IsSorted acc
    → IsSorted (push_merged acc r)
unfolding push_merged
push_merged-IsSorted z [] r h p le s = (tt, tt)
push_merged-IsSorted z (m ∷ []) r h p le s =
    elim (Bool-cases (not (m.bucket == r.bucket) || not (m.move == r.move))) [
      | inl e ↦ rw e ((ground arith, tt), (tt, tt))
      | inr e ↦ rw e (tt, tt)
    ]
push_merged-IsSorted z (m ∷ m' ∷ ms) r h p le s = (
  push_merged-All (λ y. record_less m y ≡ true) (m' ∷ ms) r (λ y j l. l) s.0
      (less_AtMost m m' r s.0.0 le.1.0),
  push_merged-IsSorted z (m' ∷ ms) r h.1 p le.1 s.1,
)
  where
    less_AtMost :
        (x y r : SpillRecord) → record_less x y ≡ true → AtMost y r → record_less x r ≡ true
    less_AtMost x y r l le = ground arith

-- Every record so far is at most each of those to come.
abbrev Precedes : List SpillRecord → List SpillRecord → Type 0
Precedes acc = All (λ r. All (λ m. AtMost m r) acc)

push_merged-Precedes :
    (acc : List SpillRecord) (r : SpillRecord) (group : List SpillRecord)
    → Precedes acc group
    → All (AtMost r) group
    → Precedes (push_merged acc r) group
push_merged-Precedes acc r [] h le = tt
push_merged-Precedes acc r (x ∷ group) h le = (
  push_merged-All (λ m. AtMost m x) acc r (λ m j l. l) h.0 le.0,
  push_merged-Precedes acc r group h.1 le.1,
)

-- What the loop over a group keeps.
record IsMerging (z : ℕ) (acc group : List SpillRecord) : Type 0 where
  before : All (AtPosition z) acc
  after : All (AtPosition z) group
  sorted : IsSorted acc
  ascending : IsAscending group
  precedes : Precedes acc group
  room : (k : Key) (c : Counter) → tally k c acc + tally k c group < u32

pub record Merged (z : ℕ) (acc group merged : List SpillRecord) : Type 0 where
  pub place : All (AtPosition z) merged
  pub sorted : IsSorted merged
  pub sums :
      (w : SpillRecord → ℕ) → IsAdditive z w → sum_of w merged ≡ sum_of w acc + sum_of w group

IsMerging-Room :
    (z : ℕ) (acc : List SpillRecord) (r : SpillRecord) (group : List SpillRecord)
    → IsMerging z acc (r ∷ group)
    → Room r acc
unfolding tally
IsMerging-Room z acc r group h c = ground (arith, h.room (key_of r) c)

push_merged-IsMerging :
    (z : ℕ) (acc : List SpillRecord) (r : SpillRecord) (group : List SpillRecord)
    → IsMerging z acc (r ∷ group)
    → IsMerging z (push_merged acc r) group
unfolding tally
push_merged-IsMerging z acc r group h = record {
  before = push_merged-All (AtPosition z) acc r (λ m j p. p) h.before h.after.0;
  after = h.after.1;
  sorted = push_merged-IsSorted z acc r h.before h.after.0 h.precedes.0 h.sorted;
  ascending = h.ascending.1;
  precedes = push_merged-Precedes acc r group h.precedes.1 h.ascending.0;
  room = λ k c. omega (
    arith,
    h.room k c,
    tally-sum_of k c acc,
    tally-sum_of k c (push_merged acc r),
    push_merged-sum_of z (weight k c) (weight-IsAdditive z k c) acc r h.before h.after.0
        (IsMerging-Room z acc r group h),
  );
}

merge_group_lem :
    (z : ℕ) (acc group : List SpillRecord)
    → IsMerging z acc group
    → Merged z acc group (merge_group acc group)
unfolding merge_group sum_of
merge_group_lem z acc [] h = record {
  place = h.before;
  sorted = h.sorted;
  sums = λ w add. omega arith;
}
merge_group_lem z acc (r ∷ group) h =
    let m = merge_group_lem z (push_merged acc r) group (push_merged-IsMerging z acc r group h) in
    record {
      place = m.place;
      sorted = m.sorted;
      sums = λ w add. omega (
        arith,
        m.sums w add,
        push_merged-sum_of z w add acc r h.before h.after.0 (IsMerging-Room z acc r group h),
      );
    }

Precedes-none : (group : List SpillRecord) → Precedes [] group
Precedes-none [] = tt
Precedes-none (r ∷ group) = (tt, Precedes-none group)

-- The merged records of a position in order: strictly sorted, and with the group's sums.
pub merge_group-Merged :
    (z : ℕ) (group : List SpillRecord)
    → All (AtPosition z) group
    → IsAscending group
    → ((k : Key) (c : Counter) → tally k c group < u32)
    → Merged z [] group (merge_group [] group)
unfolding tally
merge_group-Merged z group at up room = merge_group_lem z [] group (record {
  before = tt;
  after = at;
  sorted = tt;
  ascending = up;
  precedes = Precedes-none group;
  room = λ k c. omega (arith, room k c);
})

-- `total` is the number of games of the position, if that fits its type.
pub total_of_games :
    (z total : ℕ) (merged : List SpillRecord)
    → All (AtPosition z) merged
    → total + sum_of (games_at z) merged < u64
    → total_of total merged ≡ total + sum_of (games_at z) merged
unfolding total_of sum_of
total_of_games z total [] h lt = omega arith
total_of_games z total (m ∷ merged) h lt =
    let e : games_at z m ≡ m.count = ground arith in
    let fits : (total + m.count) % u64 ≡ total + m.count = omega arith in
    rw fits (omega (arith, total_of_games z (total + m.count) merged h.1 (omega arith)))
