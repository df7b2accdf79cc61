-- ===== src/AggMerger/Cursors.antt =====
-- agg_merger.cpp, the priority queue of cursors: which records it still holds, and in which order
-- they leave it.
use out_of_book.Prelude.{
  ℕ, ◌+◌, ◌-◌, ◌≤◌, ◌<◌, ◌≡◌, ap, List, [], ◌∷◌, none, some, true, false, arith, refl, inl, inr,
  Bool-cases, Option-cases, length, get_or, take, drop, All, All-map,
}
use mathlib.Core.Option.{some_inj}
use out_of_book.Spill.{SpillRecord}
use out_of_book.AggMerger.Worker.{Node, cmp, pop}
use out_of_book.AggMerger.Sums.{sum_of, AtMost, AtMost-trans}

-- Popping permutes the queue: the node and what stays behind are what was there.
pub pop-none : (q : List Node) → pop q ≡ none → q ≡ []
unfolding pop
pop-none [] h = refl
pop-none (n ∷ q) h = elim (Option-cases (pop q)) [
  | inl e ↦ absurd (let h' : some (n, []) ≡ none = rw e at h in cc)
  | inr ((m, q'), e) ↦ elim (Bool-cases (cmp n m)) [
    | inl c ↦ absurd (ground arith)
    | inr c ↦ absurd (ground arith)
  ]
]

-- How `pop` finds the node that it takes: in the rest of the queue, or at its front.
pub data Popped : List Node → Node → List Node → Type 0 where
  single : (n : Node) → Popped (n ∷ []) n []
  later :
      (n m : Node) (q q' : List Node) → cmp n m ≡ true → Popped q m q' → Popped (n ∷ q) m (n ∷ q')
  first : (n m : Node) (q q' : List Node) → cmp n m ≡ false → Popped q m q' → Popped (n ∷ q) n q

pub pop-Popped : (q : List Node) (n : Node) (q' : List Node) → pop q ≡ some (n, q') → Popped q n q'
unfolding pop
pop-Popped [] n q' h = absurd (cc)
pop-Popped (x ∷ q) n q' h = elim (Option-cases (pop q)) [
  | inl e ↦
      let h' : some (x, []) ≡ some (n, q') = rw e at h in
      let p = some_inj.0 h' in
      let ex : q ≡ [] = pop-none q e in rw (ex, ← ap (λ t. t.0) p, ← ap (λ t. t.1) p) (single x)
  | inr ((m, q0), e) ↦
      let known = pop-Popped q m q0 e in
      elim (Bool-cases (cmp x m)) [
        | inl c ↦
            let p : (m, x ∷ q0) ≡ (n, q') = some_inj.0 (rw (e, c) at h) in
            rw (← ap (λ t. t.0) p, ← ap (λ t. t.1) p) (later x m q q0 c known)
        | inr c ↦
            let p : (x, q) ≡ (n, q') = some_inj.0 (rw (e, c) at h) in
            rw (← ap (λ t. t.0) p, ← ap (λ t. t.1) p) (first x m q q0 c known)
      ]
]

pub Popped-All :
    (P : Node → Type 0) {q : List Node} {n : Node} {q' : List Node}
    → Popped q n q'
    → All P q
    → P n × All P q'
Popped-All P (single n) h = (h.0, tt)
Popped-All P (later n m q q' c p) h = let (g, r) = Popped-All P p h.1 in (g, (h.0, r))
Popped-All P (first n m q q' c p) h = h

Popped-back :
    (P : Node → Type 0) {q : List Node} {n : Node} {q' : List Node}
    → Popped q n q'
    → P n
    → All P q'
    → All P q
Popped-back P (single n) g h = (g, tt)
Popped-back P (later n m q q' c p) g h = (h.0, Popped-back P p g h.1)
Popped-back P (first n m q q' c p) g h = (g, h)

-- The node that is taken comes after none of the others.
pub Popped-least :
    {q : List Node} {n : Node} {q' : List Node} → Popped q n q' → All (λ m. AtMost n.rec m.rec) q'
Popped-least (single n) = tt
Popped-least (later n m q q' c p) = (ground arith, Popped-least p)
Popped-least (first n m q q' c p) =
    let least : AtMost n.rec m.rec = ground arith in
    Popped-back (λ x. AtMost n.rec x.rec) p least
      (All-map (λ x. AtMost m.rec x.rec) (λ x. AtMost n.rec x.rec) q'
        (λ x g. AtMost-trans n.rec m.rec x.rec least g) (Popped-least p))

module _ (files : List (List SpillRecord)) where
  -- The records that a cursor has not given yet.
  abbrev pub rest : Node → List SpillRecord
  rest n = n.rec ∷ take (n.end - (n.index + 1)) (drop (n.index + 1) (get_or files n.file []))

  -- A cursor inside of its file.
  abbrev pub IsCursor : Node → Type 0
  IsCursor n =
      (n.file < length files) × (n.index < n.end) × (n.end ≤ length (get_or files n.file []))

  unfoldable pub pending : (SpillRecord → ℕ) → List Node → ℕ
  pending w [] = 0
  pending w (n ∷ q) = sum_of w (rest n) + pending w q

  pub Popped-pending :
      (w : SpillRecord → ℕ) {q : List Node} {n : Node} {q' : List Node}
      → Popped q n q'
      → pending w q ≡ sum_of w (rest n) + pending w q'
  unfolding pending
  Popped-pending w (single n) = refl
  Popped-pending w (later n m q q' c p) = omega (arith, Popped-pending w p)
  Popped-pending w (first n m q q' c p) = refl
