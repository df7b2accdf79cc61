-- ===== src/AggMerger/Loop.antt =====
-- agg_merger.cpp: the loop of `mergeWorker`, its fuel and its output.
use out_of_book.Prelude.{
  ℕ, zero, suc, ◌+◌, ◌≤◌, ◌<◌, ◌≡◌, ap, sym, ◌∙◌, List, [], ◌∷◌, ◌++◌, some, arith, refl, All,
  All-map, All-append,
}
use mathlib.Core.Path.{subst}
use mathlib.Core.List.{append_assoc, append-nil}
use out_of_book.Spill.{SpillRecord, Key, Counter, weight, tally, tally-append}
use out_of_book.AggMerger.Worker.{Node, pop, pull, emit, worker_loop}
use out_of_book.AggMerger.Sums.{sum_of, one, games_at, tally-sum_of, AtMost, AtMost-zobrist}
use out_of_book.AggMerger.Drains.{Drains, IsReady, Drains-IsAscending}
use out_of_book.AggMerger.Group.{AtPosition}
use out_of_book.AggMerger.Spans.{
  same, others, same-AtPosition, same-IsAscending, others-All, sum_of-same-others, others_above,
  others_head, pull_lem,
}
use out_of_book.AggMerger.Written.{IsRoomy, Writes, Part, emit_lem, IsSorted-append, kept-append}

module _ (z : ℕ) (rs : List SpillRecord) (room : IsRoomy rs) where
  tally-same-others :
      (k : Key) (c : Counter) → tally k c rs ≡ tally k c (same z rs) + tally k c (others z rs)
  tally-same-others k c = omega (
    arith,
    tally-sum_of k c rs,
    tally-sum_of k c (same z rs),
    tally-sum_of k c (others z rs),
    sum_of-same-others z (weight k c) rs,
  )

  same-IsRoomy : IsRoomy (same z rs)
  same-IsRoomy = record {
    sums = λ k c. omega (arith, room.sums k c, tally-same-others k c);
    games = λ y. omega (arith, room.games y, sum_of-same-others z (games_at y) rs);
  }

  others-IsRoomy : IsRoomy (others z rs)
  others-IsRoomy = record {
    sums = λ k c. omega (arith, room.sums k c, tally-same-others k c);
    games = λ y. omega (arith, room.games y, sum_of-same-others z (games_at y) rs);
  }

-- A position's part in front of what is written of the rest.
Part-Writes :
    (r : SpillRecord) (rs part out : List SpillRecord)
    → All (λ y. suc r.zobrist ≤ y.zobrist) (others r.zobrist (r ∷ rs))
    → Part r.zobrist (same r.zobrist (r ∷ rs)) part
    → Writes (others r.zobrist (r ∷ rs)) out
    → Writes (r ∷ rs) (part ++ out)
Part-Writes r rs part out later p w =
    let z = r.zobrist in
    record {
      sums = λ k c. omega (
        arith,
        tally-append k c part out,
        p.sums k c,
        w.sums k c,
        kept-append z k c (r ∷ rs) later,
      );
      sorted =
          IsSorted-append (suc z) part out
            (All-map (AtPosition z) (λ y. y.zobrist < suc z) part (λ y e. omega arith) p.place)
            (w.above (suc z) later) p.sorted w.sorted;
      above = λ lo h.
          All-append (λ y. lo ≤ y.zobrist) part out
            (All-map (AtPosition z) (λ y. lo ≤ y.zobrist) part (λ y e. rw e h.0) p.place)
            (w.above lo (others-All z (λ y. lo ≤ y.zobrist) (r ∷ rs) h));
      below = λ hi h.
          All-append (λ y. y.zobrist < hi) part out
            (All-map (AtPosition z) (λ y. y.zobrist < hi) part (λ y e. rw e h.0) p.place)
            (w.below hi (others-All z (λ y. y.zobrist < hi) (r ∷ rs) h));
    }

module _ (files : List (List SpillRecord)) where
  worker_loop_going :
      (fuel : ℕ) (q : List Node) (out : List SpillRecord) {n : Node} {q' q'' : List Node}
      {group : List SpillRecord}
      → pop q ≡ some (n, q')
      → pull (suc fuel) files n.rec.zobrist q [] ≡ some (group, q'')
      → worker_loop (suc fuel) files q out ≡ worker_loop fuel files q'' (emit out group)
  unfolding worker_loop
  worker_loop_going fuel q out e e' = ground (arith, e, e')

  worker_loop_empty :
      (fuel : ℕ) (out : List SpillRecord) → worker_loop (suc fuel) files [] out ≡ some out
  unfolding worker_loop pop
  worker_loop_empty fuel out = refl

  pub worker_loop_lem :
      (fuel : ℕ) (rs : List SpillRecord) (q : List Node) (out : List SpillRecord)
      → All (IsReady files) q
      → Drains files rs q
      → sum_of one rs < fuel
      → IsRoomy rs
      → (written : List SpillRecord) × (worker_loop fuel files q out ≡ some (out ++ written))
        × Writes rs written
  unfolding sum_of tally
  worker_loop_lem zero rs q out h d lt room = absurd (omega arith)
  worker_loop_lem (suc fuel) [] q out h d lt room = (
    [],
    rw (d, append-nil out) (worker_loop_empty fuel out),
    record { sums = λ k c. omega arith; sorted = tt; above = λ lo b. tt; below = λ hi b. tt },
  )
  worker_loop_lem (suc fuel) (r ∷ rs) q out h (n, q', q'', e, at, e', d) lt room =
      let z = r.zobrist in
      let up = Drains-IsAscending files (r ∷ rs) q h (n, q', q'', e, at, e', d) in
      let (q3, p, h3, d3) =
        pull_lem z files (suc fuel) (r ∷ rs) q [] h (n, q', q'', e, at, e', d) lt in
      let (part, e4, written) =
        emit_lem z (same z (r ∷ rs)) (same-AtPosition z (r ∷ rs)) (same-IsAscending z (r ∷ rs) up)
          (same-IsRoomy z (r ∷ rs) room) out in
      let later = others_above z (r ∷ rs) up (
        omega arith,
        All-map (AtMost r) (λ y. z ≤ y.zobrist) rs (λ y l. AtMost-zobrist r y l) up.0,
      ) in
      let (tail, e5, w) =
        worker_loop_lem fuel (others z (r ∷ rs)) q3 (out ++ part) h3 d3 (fewer r rs fuel lt)
          (others-IsRoomy z (r ∷ rs) room) in
      let p' =
        subst (λ x. pull (suc fuel) files x.zobrist q [] ≡ some (same z (r ∷ rs), q3)) (sym at) p in
      (
        part ++ tail,
        worker_loop_going fuel q out e p'
            ∙ ap (worker_loop fuel files q3) e4
            ∙ e5
            ∙ ap some (append_assoc out part tail),
        Part-Writes r rs part tail later written w,
      )
    where
      fewer :
          (r : SpillRecord) (rs : List SpillRecord) (fuel : ℕ)
          → sum_of one (r ∷ rs) < suc fuel
          → sum_of one (others r.zobrist (r ∷ rs)) < fuel
      fewer r rs fuel lt =
          rw (others_head r rs) (omega (arith, sum_of-same-others r.zobrist one rs))
