-- ===== src/AggMerger/Written.antt =====
-- agg_merger.cpp: what a worker writes of a sequence in order.
use out_of_book.Prelude.{
  ℕ, suc, ◌+◌, ◌≤◌, ◌<◌, ◌≡◌, sym, ◌∙◌, List, [], ◌∷◌, ◌++◌, true, false, ◌==◌, ltb, if◌then◌else◌,
  arith, refl, inl, inr, Bool-cases, All, All-map, All-append,
}
use mathlib.Core.Path.{subst}
use mathlib.Core.List.{append-nil}
use out_of_book.Spill.{SpillRecord, Key, Counter, weight, tally, u32, u64}
use out_of_book.AggSpills.{record_less}
use out_of_book.AggSpills.Order.{IsSorted}
use out_of_book.AggMerger.Worker.{merge_group, total_of, emit}
use out_of_book.AggMerger.Sums.{
  sum_of, games_at, IsLocal, weight-IsLocal, games_at-IsLocal, sum_of_zero, tally-sum_of,
  IsAscending,
}
use out_of_book.AggMerger.Group.{
  AtPosition, merge_group-Merged, total_of_games, games_at-IsAdditive, weight-IsAdditive,
}
use out_of_book.AggMerger.Spans.{same, others, same-AtPosition, sum_of-same-others}

-- The tally that a sequence leaves for a key: none if its position has fewer than five games.
abbrev pub kept : Key → Counter → List SpillRecord → ℕ
kept k c rs = if ltb (sum_of (games_at k.zobrist) rs) 5 then 0 else tally k c rs

-- No sum outgrows its type.
pub record IsRoomy (rs : List SpillRecord) : Type 0 where
  pub sums : (k : Key) (c : Counter) → tally k c rs < u32
  pub games : (z : ℕ) → sum_of (games_at z) rs < u64

-- `out` is what should be written of `rs`.
pub record Writes (rs out : List SpillRecord) : Type 0 where
  pub sums : (k : Key) (c : Counter) → tally k c out ≡ kept k c rs
  pub sorted : IsSorted out
  pub above : (lo : ℕ) → All (λ r. lo ≤ r.zobrist) rs → All (λ r. lo ≤ r.zobrist) out
  pub below : (hi : ℕ) → All (λ r. r.zobrist < hi) rs → All (λ r. r.zobrist < hi) out

elsewhere_zero :
    (z y : ℕ) (w : SpillRecord → ℕ) (rs : List SpillRecord)
    → (z == y) ≡ false
    → IsLocal y w
    → All (AtPosition z) rs
    → sum_of w rs ≡ 0
elsewhere_zero z y w rs ne local = sum_of_zero w (AtPosition z) (λ r h. local r (rw h ne)) rs

later_zero :
    (z : ℕ) (w : SpillRecord → ℕ) (rs : List SpillRecord)
    → IsLocal z w
    → All (λ r. suc z ≤ r.zobrist) rs
    → sum_of w rs ≡ 0
later_zero z w rs local = sum_of_zero w (λ r. suc z ≤ r.zobrist) (λ r h. local r (ground arith)) rs

-- The part that one group adds to the output.
pub record Part (z : ℕ) (group part : List SpillRecord) : Type 0 where
  pub sums : (k : Key) (c : Counter) → tally k c part ≡ kept k c group
  pub sorted : IsSorted part
  pub place : All (AtPosition z) part

module _ (z : ℕ) (group : List SpillRecord) (at : All (AtPosition z) group) (up : IsAscending group)
    (room : IsRoomy group) where
  group_sums : (k : Key) (c : Counter) → tally k c (merge_group [] group) ≡ tally k c group
  unfolding sum_of
  group_sums k c =
      let m = merge_group-Merged z group at up room.sums in
      omega (
        arith,
        m.sums (weight k c) (weight-IsAdditive z k c),
        tally-sum_of k c group,
        tally-sum_of k c (merge_group [] group),
      )

  group_total : total_of 0 (merge_group [] group) ≡ sum_of (games_at z) group
  unfolding sum_of
  group_total =
      let m = merge_group-Merged z group at up room.sums in
      let e = m.sums (games_at z) (games_at-IsAdditive z z) in
      omega (
        arith,
        e,
        total_of_games z 0 (merge_group [] group) m.place (omega (arith, e, room.games z)),
      )

  -- Every key of the group is of its position, so the games of that position decide.
  kept-group :
      (k : Key) (c : Counter)
      → kept k c group ≡ (if ltb (sum_of (games_at z) group) 5 then 0 else tally k c group)
  kept-group k c = elim (Bool-cases (z == k.zobrist)) [
    | inl e ↦
        let same_z : z ≡ k.zobrist = ground arith in
        subst
          (λ y.
            (if ltb (sum_of (games_at y) group) 5 then 0 else tally k c group)
            ≡ (if ltb (sum_of (games_at z) group) 5 then 0 else tally k c group))
          same_z refl
    | inr e ↦
        let zero_tally : tally k c group ≡ 0 =
          tally-sum_of k c group
          ∙ elsewhere_zero z k.zobrist (weight k c) group e (weight-IsLocal k c) at in
        rw zero_tally (ground arith)
  ]

  pub emit_lem :
      (out : List SpillRecord)
      → (part : List SpillRecord) × (emit out group ≡ out ++ part) × Part z group part
  unfolding emit tally
  emit_lem out =
      let m = merge_group-Merged z group at up room.sums in
      elim (Bool-cases (ltb (sum_of (games_at z) group) 5)) [
        | inl few ↦ (
          [],
          rw (group_total, few) (sym (append-nil out)),
          record { sums = λ k c. sym (rw few at (kept-group k c)); sorted = tt; place = tt },
        )
        | inr many ↦ (
          merge_group [] group,
          rw (group_total, many) refl,
          record {
            sums = λ k c. group_sums k c ∙ sym (rw many at (kept-group k c));
            sorted = m.sorted;
            place = m.place;
          },
        )
      ]

pub IsSorted-append :
    (b : ℕ) (xs ys : List SpillRecord)
    → All (λ r. r.zobrist < b) xs
    → All (λ r. b ≤ r.zobrist) ys
    → IsSorted xs
    → IsSorted ys
    → IsSorted (xs ++ ys)
IsSorted-append b [] ys lt le h h' = h'
IsSorted-append b (x ∷ xs) ys lt le h h' = (
  All-append (λ y. record_less x y ≡ true) xs ys h.0
      (All-map (λ r. b ≤ r.zobrist) (λ y. record_less x y ≡ true) ys
        (λ y l. less x y (omega (arith, lt.0))) le),
  IsSorted-append b xs ys lt.1 le h.1 h',
)
  where
    less : (x y : SpillRecord) → x.zobrist < y.zobrist → record_less x y ≡ true
    less x y l = ground arith

-- The parts of a sequence: its first position, and the rest, whose positions come later.
pub kept-append :
    (z : ℕ) (k : Key) (c : Counter) (rs : List SpillRecord)
    → All (λ r. suc z ≤ r.zobrist) (others z rs)
    → kept k c rs ≡ kept k c (same z rs) + kept k c (others z rs)
kept-append z k c rs later =
    let games = sum_of-same-others z (games_at k.zobrist) rs in
    let tallied : tally k c rs ≡ tally k c (same z rs) + tally k c (others z rs) = omega (
      arith,
      tally-sum_of k c rs,
      tally-sum_of k c (same z rs),
      tally-sum_of k c (others z rs),
      sum_of-same-others z (weight k c) rs,
    ) in
    elim (Bool-cases (z == k.zobrist)) [
      | inl e ↦
          let z_eq : k.zobrist ≡ z = ground arith in
          let local : IsLocal z (weight k c) = λ r ne. weight-IsLocal k c r (rw z_eq ne) in
          let none_later : tally k c (others z rs) ≡ 0 =
            tally-sum_of k c (others z rs) ∙ later_zero z (weight k c) (others z rs) local later in
          let no_games : sum_of (games_at k.zobrist) (others z rs) ≡ 0 =
            later_zero z (games_at k.zobrist) (others z rs)
              (λ r ne. games_at-IsLocal k.zobrist r (rw z_eq ne)) later in
          ground (arith, games, tallied, none_later, no_games)
      | inr e ↦
          let none_here : tally k c (same z rs) ≡ 0 =
            tally-sum_of k c (same z rs)
            ∙ elsewhere_zero z k.zobrist (weight k c) (same z rs) e (weight-IsLocal k c)
                (same-AtPosition z rs) in
          let no_games : sum_of (games_at k.zobrist) (same z rs) ≡ 0 =
            elsewhere_zero z k.zobrist (games_at k.zobrist) (same z rs) e
              (games_at-IsLocal k.zobrist) (same-AtPosition z rs) in
          ground (arith, games, tallied, none_here, no_games)
    ]
