-- ===== src/AggMerger/Spans.antt =====
-- agg_merger.cpp, `pull`: the run of records of one position that it takes from the queue.
use out_of_book.Prelude.{
  ℕ, zero, suc, ◌+◌, ◌≤◌, ◌<◌, ◌≡◌, ap, sym, ◌∙◌, List, [], ◌∷◌, ◌++◌, some, true, false, ◌==◌,
  if◌then◌else◌, arith, refl, inl, inr, Bool-cases, All, All-map,
}
use mathlib.Core.Path.{subst}
use mathlib.Core.List.{append_assoc, append-nil}
use out_of_book.Spill.{SpillRecord}
use out_of_book.AggMerger.Worker.{Node, pop, pull, advance}
use out_of_book.AggMerger.Sums.{sum_of, one, AtMost, IsAscending, AtMost-zobrist}
use out_of_book.AggMerger.Cursors.{pop-Popped, Popped-All}
use out_of_book.AggMerger.Drains.{Drains, IsReady, Turned-of}
use out_of_book.AggMerger.Group.{AtPosition}

-- The records of position `z` that a sequence starts with, and what follows them.
pub same : ℕ → List SpillRecord → List SpillRecord
same z [] = []
same z (r ∷ rs) = if r.zobrist == z then r ∷ same z rs else []

pub others : ℕ → List SpillRecord → List SpillRecord
others z [] = []
others z (r ∷ rs) = if r.zobrist == z then others z rs else r ∷ rs

pub others_head :
    (r : SpillRecord) (rs : List SpillRecord) → others r.zobrist (r ∷ rs) ≡ others r.zobrist rs
unfolding others
others_head r rs = ground arith

module _ (z : ℕ) where
  pub same-AtPosition : (rs : List SpillRecord) → All (AtPosition z) (same z rs)
  unfolding same
  same-AtPosition [] = tt
  same-AtPosition (r ∷ rs) = elim (Bool-cases (r.zobrist == z)) [
    | inl e ↦ rw e (ground arith, same-AtPosition rs)
    | inr e ↦ rw e tt
  ]

  pub same-All : (P : SpillRecord → Type 0) (rs : List SpillRecord) → All P rs → All P (same z rs)
  unfolding same
  same-All P [] h = tt
  same-All P (r ∷ rs) h = elim (Bool-cases (r.zobrist == z)) [
    | inl e ↦ rw e (h.0, same-All P rs h.1)
    | inr e ↦ rw e tt
  ]

  pub others-All :
      (P : SpillRecord → Type 0) (rs : List SpillRecord) → All P rs → All P (others z rs)
  unfolding others
  others-All P [] h = tt
  others-All P (r ∷ rs) h = elim (Bool-cases (r.zobrist == z)) [
    | inl e ↦ rw e (others-All P rs h.1)
    | inr e ↦ rw e h
  ]

  pub same-IsAscending : (rs : List SpillRecord) → IsAscending rs → IsAscending (same z rs)
  unfolding same
  same-IsAscending [] h = tt
  same-IsAscending (r ∷ rs) h = elim (Bool-cases (r.zobrist == z)) [
    | inl e ↦ rw e (same-All (AtMost r) rs h.0, same-IsAscending rs h.1)
    | inr e ↦ rw e tt
  ]

  pub others-IsAscending : (rs : List SpillRecord) → IsAscending rs → IsAscending (others z rs)
  unfolding others
  others-IsAscending [] h = tt
  others-IsAscending (r ∷ rs) h = elim (Bool-cases (r.zobrist == z)) [
    | inl e ↦ rw e (others-IsAscending rs h.1)
    | inr e ↦ rw e h
  ]

  pub sum_of-same-others :
      (w : SpillRecord → ℕ) (rs : List SpillRecord)
      → sum_of w rs ≡ sum_of w (same z rs) + sum_of w (others z rs)
  unfolding same others sum_of
  sum_of-same-others w [] = refl
  sum_of-same-others w (r ∷ rs) = elim (Bool-cases (r.zobrist == z)) [
    | inl e ↦ rw e (omega (arith, sum_of-same-others w rs))
    | inr e ↦ rw e (omega arith)
  ]

  -- In a sequence in order, later positions follow.
  pub others_above :
      (rs : List SpillRecord)
      → IsAscending rs
      → All (λ r. z ≤ r.zobrist) rs
      → All (λ r. suc z ≤ r.zobrist) (others z rs)
  unfolding others
  others_above [] h le = tt
  others_above (r ∷ rs) h le = elim (Bool-cases (r.zobrist == z)) [
    | inl e ↦ rw e (others_above rs h.1 le.1)
    | inr e ↦
        let here : suc z ≤ r.zobrist = ground arith in
        rw e (
          here,
          All-map (AtMost r) (λ y. suc z ≤ y.zobrist) rs
              (λ y l. omega (arith, AtMost-zobrist r y l)) h.0,
        )
  ]

  module _ (files : List (List SpillRecord)) where
    pull_empty :
        (fuel : ℕ) (group : List SpillRecord) → pull (suc fuel) files z [] group ≡ some (group, [])
    unfolding pull pop
    pull_empty fuel group = refl

    pull-going :
        (fuel : ℕ) (q : List Node) (group : List SpillRecord) {n : Node} {q' q'' : List Node}
        → pop q ≡ some (n, q')
        → (n.rec.zobrist == z) ≡ true
        → advance files n q' ≡ some q''
        → pull (suc fuel) files z q group ≡ pull fuel files z q'' (group ++ n.rec ∷ [])
    unfolding pull
    pull-going fuel q group e t e' = ground (arith, e, t, e')

    pull-done :
        (fuel : ℕ) (q : List Node) (group : List SpillRecord) {n : Node} {q' : List Node}
        → pop q ≡ some (n, q')
        → (n.rec.zobrist == z) ≡ false
        → pull (suc fuel) files z q group ≡ some (group, q)
    unfolding pull
    pull-done fuel q group e t = ground (arith, e, t)

    -- With fuel for every record, `pull` takes the run, and leaves a queue that drains to the rest.
    pub pull_lem :
        (fuel : ℕ) (rs : List SpillRecord) (q : List Node) (group : List SpillRecord)
        → All (IsReady files) q
        → Drains files rs q
        → sum_of one rs < fuel
        → (q' : List Node) × (pull fuel files z q group ≡ some (group ++ same z rs, q'))
          × All (IsReady files) q'
          × Drains files (others z rs) q'
    unfolding same others sum_of
    pull_lem zero rs q group h d lt = absurd (omega arith)
    pull_lem (suc fuel) [] q group h d lt =
        ([], rw (d, append-nil group) (pull_empty fuel group), tt, refl)
    pull_lem (suc fuel) (r ∷ rs) q group h (n, q', q'', e, at, e', d) lt =
        elim (Bool-cases (r.zobrist == z)) [
          | inl t ↦
              let t' : (n.rec.zobrist == z) ≡ true =
                subst (λ x. (x.zobrist == z) ≡ true) (sym at) t in
              let (ready, others_ready) = Popped-All (IsReady files) (pop-Popped q n q' e) h in
              let h'' = (Turned-of files n q' q'' ready others_ready e').0 in
              let (q3, p, h3, d3) =
                pull_lem fuel rs q'' (group ++ n.rec ∷ []) h'' d (omega arith) in
              let regroup : (group ++ n.rec ∷ []) ++ same z rs ≡ group ++ r ∷ same z rs =
                append_assoc group (n.rec ∷ []) (same z rs) ∙ ap (λ x. group ++ x ∷ same z rs) at in
              rw t
                (q3, pull-going fuel q group e t' e' ∙ p ∙ ap (λ x. some (x, q3)) regroup, h3, d3)
          | inr f ↦
              let f' : (n.rec.zobrist == z) ≡ false =
                subst (λ x. (x.zobrist == z) ≡ false) (sym at) f in
              rw f (q, rw append-nil (pull-done fuel q group e f'), h, (n, q', q'', e, at, e', d))
        ]
