-- ===== src/AggMerger/Drains.antt =====
-- agg_merger.cpp: the sequence of records that leaves the priority queue when it is popped and
-- refilled until it is empty.
use out_of_book.Prelude.{
  ℕ, zero, suc, ◌+◌, ◌-◌, ◌≤◌, ◌<◌, ◌≡◌, ap, sym, ◌∙◌, List, [], ◌∷◌, some, ltb, arith, refl, ◌⊎◌,
  inl, inr, Bool-cases, Option-cases, get_or, take, drop, All, All-map, get_elem?-get_or,
  drop-get_elem?, take_step, take_none,
}
use mathlib.Core.Path.{subst}
use mathlib.Core.Option.{some_inj}
use out_of_book.Spill.{SpillRecord}
use out_of_book.AggMerger.Worker.{Node, pop, read_record, advance}
use out_of_book.AggMerger.Sums.{sum_of, one, AtMost, IsAscending, AtMost-trans}
use out_of_book.AggMerger.Cursors.{
  rest, IsCursor, pending, pop-Popped, Popped-All, Popped-least, pop-none, Popped-pending,
}

module _ (files : List (List SpillRecord)) where
  -- A cursor is used up by `advance`, or moves on to the next record of its range.
  advance-cases :
      (n : Node) (q : List Node)
      → IsCursor files n
      → ((advance files n q ≡ some q) × (rest files n ≡ n.rec ∷ []))
        ⊎ ((n' : Node) × (advance files n q ≡ some (n' ∷ q))
            × IsCursor files n'
            × (rest files n ≡ n.rec ∷ rest files n'))
  unfolding advance read_record
  advance-cases n q (inside, before, within) = elim (Bool-cases (ltb (n.index + 1) n.end)) [
    | inl more ↦
        let f = get_or files n.file [] in
        let lt : n.index + 1 < n.end = ground arith in
        let (r, at, ahead) = drop-get_elem? (n.index + 1) f (omega arith) in
        let n' = record n { index = n.index + 1; rec = r } in
        let e : n.end - (n.index + 1) - 1 ≡ n.end - (n.index + 1 + 1) = omega arith in
        let e' : suc (n.index + 1) ≡ n.index + 1 + 1 = omega arith in
        inr (
          n',
          rw (more, get_elem?-get_or files n.file [] inside) (rw at refl),
          (inside, lt, within),
          ap (◌∷◌ n.rec) (
              ap (take (n.end - (n.index + 1))) ahead
              ∙ take_step (n.end - (n.index + 1)) r (drop (suc (n.index + 1)) f) (omega arith)
              ∙ ap (λ t. r ∷ take t (drop (suc (n.index + 1)) f)) e
              ∙ ap (λ t. r ∷ take (n.end - (n.index + 1 + 1)) (drop t f)) e'),
        )
    | inr over ↦ inl (rw over refl, ap (◌∷◌ n.rec) (take_none _ _ (ground arith)))
  ]

  -- `rs` is the sequence of records that leaves the queue `q`.
  abbrev pub Drains : List SpillRecord → List Node → Type 0
  Drains [] q = q ≡ []
  Drains (r ∷ rs) q =
      (n : Node) × (q' : List Node) × (q'' : List Node) × (pop q ≡ some (n, q'))
      × (n.rec ≡ r)
      × (advance files n q' ≡ some q'')
      × Drains rs q''

  -- A cursor whose records left are in order.
  abbrev pub IsReady : Node → Type 0
  IsReady n = IsCursor files n × IsAscending (rest files n)

  sum_of-rest : (n : Node) → 0 < sum_of one (rest files n)
  unfolding sum_of
  sum_of-rest n = omega arith

  AtMost-refl : (x : SpillRecord) → AtMost x x
  AtMost-refl x = ground arith

  above :
      (x : SpillRecord) (q : List Node)
      → All IsReady q
      → All (λ m. AtMost x m.rec) q
      → All (λ m. All (AtMost x) (rest files m)) q
  above x [] h g = tt
  above x (m ∷ q) h g = (
    (g.0, All-map (AtMost m.rec) (AtMost x) _ (λ y l. AtMost-trans x m.rec y g.0 l) h.0.1.0),
    above x q h.1 g.1,
  )

  -- One turn of the loop that drains the queue: the records held are the one that leaves and those
  -- held afterwards.
  abbrev pub Turned : Node → List Node → List Node → Type 0
  Turned n q' q'' =
      All IsReady q''
      × ((w : SpillRecord → ℕ)
          → sum_of w (rest files n) + pending files w q' ≡ w n.rec + pending files w q'')

  turn :
      (n : Node) (q' : List Node)
      → IsReady n
      → All IsReady q'
      → (q'' : List Node) × (advance files n q' ≡ some q'') × Turned n q' q''
  unfolding sum_of pending
  turn n q' (c, a) h = elim (advance-cases n q' c) [
    | inl (e, last) ↦ (q', e, (h, λ w. omega (arith, ap (sum_of w) last)))
    | inr (n', e, c', more) ↦
        let a' : IsAscending (n.rec ∷ rest files n') = subst IsAscending more a in
        (n' ∷ q', e, (((c', a'.1), h), λ w. omega (arith, ap (sum_of w) more)))
  ]

  pub Turned-of :
      (n : Node) (q' q'' : List Node)
      → IsReady n
      → All IsReady q'
      → advance files n q' ≡ some q''
      → Turned n q' q''
  Turned-of n q' q'' r h e =
      let (q0, e0, t) = turn n q' r h in subst (λ x. Turned n q' x) (some_inj.0 (sym e0 ∙ e)) t

  advance-All :
      (P : SpillRecord → Type 0) (n : Node) (q' q'' : List Node)
      → IsCursor files n
      → advance files n q' ≡ some q''
      → All P (rest files n)
      → All (λ m. All P (rest files m)) q'
      → All (λ m. All P (rest files m)) q''
  advance-All P n q' q'' c e h h' = elim (advance-cases n q' c) [
    | inl (e0, last) ↦ subst (All (λ m. All P (rest files m))) (some_inj.0 (sym e0 ∙ e)) h'
    | inr (n', e0, c', more) ↦
        let g : All P (n.rec ∷ rest files n') = subst (All P) more h in
        subst (All (λ m. All P (rest files m))) (some_inj.0 (sym e0 ∙ e)) (g.1, h')
  ]

  -- A queue of ready cursors empties.
  pub Drains-exists :
      (k : ℕ) (q : List Node)
      → All IsReady q
      → pending files one q ≤ k
      → (rs : List SpillRecord) × Drains rs q
  Drains-exists zero q h le = elim (Option-cases (pop q)) [
    | inl e ↦ ([], pop-none q e)
    | inr ((n, q'), e) ↦
        absurd (omega (arith, Popped-pending files one (pop-Popped q n q' e), sum_of-rest n))
  ]
  Drains-exists (suc k) q h le = elim (Option-cases (pop q)) [
    | inl e ↦ ([], pop-none q e)
    | inr ((n, q'), e) ↦
        let p = pop-Popped q n q' e in
        let (r, h') = Popped-All IsReady p h in
        let (q'', e', (h'', sums)) = turn n q' r h' in
        let (rs, d) =
          Drains-exists k q'' h'' (omega (arith, Popped-pending files one p, sums one)) in
        (n.rec ∷ rs, (n, q', q'', e, refl, e', d))
  ]

  module _ (w : SpillRecord → ℕ) where
    pub Drains-sum_of :
        (rs : List SpillRecord) (q : List Node)
        → All IsReady q
        → Drains rs q
        → sum_of w rs ≡ pending files w q
    unfolding sum_of pending
    Drains-sum_of [] q h d = rw d refl
    Drains-sum_of (x ∷ rs) q h (n, q', q'', e, same, e', d) =
        let p = pop-Popped q n q' e in
        let (r, h') = Popped-All IsReady p h in
        let (h'', sums) = Turned-of n q' q'' r h' e' in
        let one_more : w n.rec ≡ w x = ap w same in
        omega (arith, Popped-pending files w p, sums w, Drains-sum_of rs q'' h'' d)

  module _ (P : SpillRecord → Type 0) where
    pub Drains-All :
        (rs : List SpillRecord) (q : List Node)
        → All IsReady q
        → All (λ n. All P (rest files n)) q
        → Drains rs q
        → All P rs
    Drains-All [] q h g d = tt
    Drains-All (x ∷ rs) q h g (n, q', q'', e, same, e', d) =
        let p = pop-Popped q n q' e in
        let (r, h') = Popped-All IsReady p h in
        let (here, g') = Popped-All (λ m. All P (rest files m)) p g in
        (
          subst P same here.0,
          Drains-All rs q'' (Turned-of n q' q'' r h' e').0 (advance-All P n q' q'' r.0 e' here g')
              d,
        )

  -- The records leave in order.
  pub Drains-IsAscending :
      (rs : List SpillRecord) (q : List Node) → All IsReady q → Drains rs q → IsAscending rs
  Drains-IsAscending [] q h d = tt
  Drains-IsAscending (x ∷ rs) q h (n, q', q'', e, same, e', d) =
      let p = pop-Popped q n q' e in
      let (r, h') = Popped-All IsReady p h in
      let h'' = (Turned-of n q' q'' r h' e').0 in
      let others = above n.rec q' h' (Popped-least p) in
      let own : All (AtMost n.rec) (rest files n) = (AtMost-refl n.rec, r.1.0) in
      let all = advance-All (AtMost n.rec) n q' q'' r.0 e' own others in
      (
        subst (λ y. All (AtMost y) rs) same (Drains-All (AtMost n.rec) rs q'' h'' all d),
        Drains-IsAscending rs q'' h'' d,
      )
