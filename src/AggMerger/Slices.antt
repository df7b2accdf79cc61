-- ===== src/AggMerger/Slices.antt =====
-- agg_merger.cpp, `splitWork`: the ranges of the workers as slices of the files.
use out_of_book.Prelude.{
  drop-drop, ℕ, zero, suc, ◌+◌, ◌-◌, ◌≤◌, ◌<◌, ◌≡◌, ap, ◌∙◌, List, [], ◌∷◌, ltb, arith, inl, inr,
  Bool-cases, length, take, drop, All, All-map, All-take, take-append-drop,
}
use out_of_book.Spill.{SpillRecord}
use out_of_book.AggMerger.Ranges.{FileRange, lower_bound}
use out_of_book.AggMerger.Sums.{sum_of, sum_of-append, IsAscending, AtMost, AtMost-zobrist}

-- The records that a range selects.
abbrev pub slice : List SpillRecord → FileRange → List SpillRecord
slice f r = take (r.end - r.begin) (drop r.begin f)

module _ (b : ℕ) where
  pub lower_bound-le-length : (f : List SpillRecord) → lower_bound b f ≤ length f
  unfolding lower_bound
  lower_bound-le-length [] = omega arith
  lower_bound-le-length (r ∷ f) = ground (arith, lower_bound-le-length f)

  pub take-lower_bound :
      (f : List SpillRecord) → All (λ r. r.zobrist < b) (take (lower_bound b f) f)
  unfolding lower_bound
  take-lower_bound [] = tt
  take-lower_bound (r ∷ f) = elim (Bool-cases (ltb r.zobrist b)) [
    | inl e ↦ rw e (ground arith, take-lower_bound f)
    | inr e ↦ rw e tt
  ]

  -- Of a file in order.
  pub drop-lower_bound :
      (f : List SpillRecord) → IsAscending f → All (λ r. b ≤ r.zobrist) (drop (lower_bound b f) f)
  unfolding lower_bound
  drop-lower_bound [] h = tt
  drop-lower_bound (r ∷ f) h = elim (Bool-cases (ltb r.zobrist b)) [
    | inl e ↦ rw e (drop-lower_bound f h.1)
    | inr e ↦
        let here : b ≤ r.zobrist = ground arith in
        rw e (
          here,
          All-map (AtMost r) (λ y. b ≤ y.zobrist) f (λ y l. omega (arith, AtMost-zobrist r y l))
              h.0,
        )
  ]

  pub lower_bound_mono :
      (b' : ℕ) (f : List SpillRecord) → b ≤ b' → lower_bound b f ≤ lower_bound b' f
  unfolding lower_bound
  lower_bound_mono b' [] le = omega arith
  lower_bound_mono b' (r ∷ f) le = ground (arith, lower_bound_mono b' f le)

-- A slice, and what lies behind it, are what lies behind its beginning.
pub sum_of-slice :
    (w : SpillRecord → ℕ) (f : List SpillRecord) (r : FileRange)
    → r.begin ≤ r.end
    → sum_of w (drop r.begin f) ≡ sum_of w (slice f r) + sum_of w (drop r.end f)
sum_of-slice w f r le =
    let e : r.begin + (r.end - r.begin) ≡ r.end = omega arith in
    let parts = take-append-drop (r.end - r.begin) (drop r.begin f) in
    let behind : drop (r.end - r.begin) (drop r.begin f) ≡ drop r.end f =
      drop-drop (r.end - r.begin) r.begin f ∙ ap (λ n. drop n f) e in
    omega (
      arith,
      ap (sum_of w) parts,
      ap (sum_of w) behind,
      sum_of-append w (slice f r) (drop (r.end - r.begin) (drop r.begin f)),
    )

-- What a slice holds is held before its end.
pub slice-All :
    (P : SpillRecord → Type 0) (f : List SpillRecord) (b e : ℕ)
    → All P (take e f)
    → All P (take (e - b) (drop b f))
slice-All P f zero e h = let n : e - 0 ≡ e = omega arith in rw n h
slice-All P f (suc b) zero h = let n : zero - suc b ≡ 0 = omega arith in rw n tt
slice-All P [] (suc b) (suc e) h = All-take P (suc e - suc b) [] tt
slice-All P (r ∷ f) (suc b) (suc e) h =
    let n : suc e - suc b ≡ e - b = omega arith in rw n (slice-All P f b e h.1)

-- The boundaries do not descend.
abbrev pub IsOrdered : List ℕ → Type 0
IsOrdered [] = Unit
IsOrdered (b ∷ bs) = All (λ b'. b ≤ b') bs × IsOrdered bs
