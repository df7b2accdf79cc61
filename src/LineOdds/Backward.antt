-- ===== src/LineOdds/Backward.antt =====
-- TargetGraph.cpp, `filterBackward`: nodes alive, beside paths along the edges.
use out_of_book.Prelude.{
  ℕ, zero, suc, ◌+◌, ◌≤◌, ◌<◌, ◌≡◌, ◌∙◌, ap, sym, ◌↔◌, List, [], ◌∷◌, Bool, true, false, ◌==◌,
  if◌then◌else◌, some, length, get_elem?, All, arith, refl, Bool-cases, inl, inr, ==_iff,
  drop-get_elem?, All-get_elem?,
}
use mathlib.Core.Path.{subst}
use mathlib.Core.Option.{some_inj}
use out_of_book.Spill.{u32}
use out_of_book.LineOdds.Graph.{
  Edge, Node, Layer, revive, mark_targets, child_alive, leads_on, count_edges, mark_nodes,
  mark_layer, mark_layers,
}

-- The node at a place, and alive.
abbrev pub Alive : List Node → ℕ → Type 0
Alive nodes i = (n : Node) × (get_elem? nodes i ≡ some n) × (n.alive ≡ true)

-- Edges lead from the node at place `i` of the first layer, layer by layer, to a node of the last
-- layer that has the target's key.
abbrev pub Leads : ℕ → List Layer → ℕ → Type 0
Leads target [] i = ⊥
Leads target (last ∷ []) i = (n : Node) × (get_elem? last.nodes i ≡ some n) × (n.key ≡ target)
Leads target (here ∷ next ∷ layers) i =
    (n : Node) × (e : ℕ) × (edge : Edge) × (get_elem? here.nodes i ≡ some n)
    × (n.first_edge ≤ e)
    × (e < n.first_edge + n.edge_count)
    × (get_elem? here.edges e ≡ some edge)
    × Leads target (next ∷ layers) edge.child

-- A layer as the forward pass leaves it: no node is alive, the edges of a node are there, and they
-- lead to nodes of the next layer, of which there are `width`. The edges are counted in 32 bits.
pub record IsLaid (width : ℕ) (l : Layer) : Type 0 where
  pub dead : All (λ n. n.alive ≡ false) l.nodes
  pub edges : All (λ n. n.first_edge + n.edge_count ≤ length l.edges) l.nodes
  pub children : All (λ e. e.child < width) l.edges
  pub small : length l.edges < u32

abbrev pub AreLaid : List Layer → Type 0
AreLaid [] = ⊥
AreLaid (last ∷ []) = All (λ n. n.alive ≡ false) last.nodes
AreLaid (here ∷ next ∷ layers) = IsLaid (length next.nodes) here × AreLaid (next ∷ layers)

-- Every layer of `marked` has alive just the nodes from which the target is reached.
abbrev pub AreMarked : ℕ → List Layer → List Layer → Type 0
AreMarked target [] marked = Unit
AreMarked target (l ∷ layers) [] = ⊥
AreMarked target (l ∷ layers) (m ∷ marked) =
    ((i : ℕ) → Alive m.nodes i ↔ Leads target (l ∷ layers) i) × AreMarked target layers marked

dead-alive : (n m : Node) → n.alive ≡ false → n ≡ m → m.alive ≡ true → ⊥
dead-alive n m d e a = let live : n.alive ≡ true = ap (λ (x : Node). x.alive) e ∙ a in cc

module _ (target : ℕ) where
  other_key : (n m : Node) → (n.key == target) ≡ false → n ≡ m → m.key ≡ target → ⊥
  other_key n m f e k = let same : n.key ≡ target = ap (λ (x : Node). x.key) e ∙ k in ground arith

  mark_targets_lem :
      (nodes : List Node) (i : ℕ)
      → All (λ n. n.alive ≡ false) nodes
      → Alive (mark_targets target nodes) i
        ↔ ((n : Node) × (get_elem? nodes i ≡ some n) × (n.key ≡ target))
  unfolding mark_targets
  mark_targets_lem [] i h = (λ a. absurd (cc (a.1)), λ l. absurd (cc (l.1)))
  mark_targets_lem (n ∷ nodes) zero h = elim (Bool-cases (n.key == target)) [
    | inl e ↦ rw e (λ a. (n, refl, (==_iff n.key target).0 e), λ l. (revive n, refl, refl))
    | inr e ↦ rw e (
      λ a. absurd (dead-alive n a.0 h.0 (some_inj.0 a.1) a.2),
      λ l. absurd (other_key n l.0 e (some_inj.0 l.1) l.2),
    )
  ]
  mark_targets_lem (n ∷ nodes) (suc i) h = mark_targets_lem nodes i h.1

false_ne_true : false ≡ true → ⊥
false_ne_true e = cc

-- An edge among those from `e` on, `count` of them, that leads to a node that is alive.
abbrev LeadsOn : ℕ → List Edge → List Node → ℕ → Type 0
LeadsOn count edges next e =
    (e' : ℕ) × (edge : Edge) × (e ≤ e')
    × (e' < e + count)
    × (get_elem? edges e' ≡ some edge)
    × Alive next edge.child

-- What a loop over edges comes to, if it does not read out of range.
record Found (count : ℕ) (edges : List Edge) (next : List Node) (e : ℕ) (b : Bool) : Type 0 where
  runs : leads_on count edges next e ≡ some b
  sound : b ≡ true → LeadsOn count edges next e
  complete : LeadsOn count edges next e → b ≡ true

module _ (edges : List Edge) (next : List Node)
    (children : All (λ (e : Edge). e.child < length next) edges) where
  child_alive_lem :
      (e : ℕ)
      → e < length edges
      → (edge : Edge) × (n : Node) × (get_elem? edges e ≡ some edge)
        × (get_elem? next edge.child ≡ some n)
        × (child_alive edges next e ≡ some n.alive)
  unfolding child_alive
  child_alive_lem e lt =
      let (edge, at, _) = drop-get_elem? e edges lt in
      let (n, at', _) =
        drop-get_elem? edge.child next
          (All-get_elem? (λ (e : Edge). e.child < length next) edges e edge children at) in
      (edge, n, at, at', rw (at, child_alive) (rw at' refl))

  leads_on-taken :
      (count e : ℕ)
      → child_alive edges next e ≡ some true
      → leads_on (suc count) edges next e ≡ some true
  unfolding leads_on
  leads_on-taken count e h = rw (h, leads_on) refl

  leads_on-passed :
      (count e : ℕ)
      → child_alive edges next e ≡ some false
      → leads_on (suc count) edges next e ≡ leads_on count edges next (suc e)
  unfolding leads_on
  leads_on-passed count e h = rw (h, leads_on) refl

  later-LeadsOn :
      (count e : ℕ) → LeadsOn count edges next (suc e) → LeadsOn (suc count) edges next e
  later-LeadsOn count e (e', edge, le, lt, at, a) = (e', edge, omega arith, omega arith, at, a)

  -- An edge that leads on, the first of the loop being one that does not.
  complete_later :
      (count e : ℕ) (edge : Edge) (n : Node) (b : Bool)
      → get_elem? edges e ≡ some edge
      → get_elem? next edge.child ≡ some n
      → n.alive ≡ false
      → (LeadsOn count edges next (suc e) → b ≡ true)
      → LeadsOn (suc count) edges next e
      → b ≡ true
  complete_later count e edge n b at at' dead later (e', edge', le, lt, at'', a) =
      elim (Bool-cases (e == e')) [
        | inl same ↦
            let first : e ≡ e' = (==_iff e e').0 same in
            let one_edge : edge ≡ edge' = some_inj.0 (sym at ∙ ap (get_elem? edges) first ∙ at'') in
            let one_node : n ≡ a.0 =
              some_inj.0 (sym at' ∙ ap (λ (x : Edge). get_elem? next x.child) one_edge ∙ a.1) in
            absurd (dead-alive n a.0 dead one_node a.2)
        | inr differ ↦
            let behind : suc e ≤ e' = ground arith in
            later (e', edge', behind, omega arith, at'', a)
      ]

  leads_on_lem : (count e : ℕ) → e + count ≤ length edges → (b : Bool) × Found count edges next e b
  unfolding leads_on
  leads_on_lem zero e h = (
    false,
    record {
      runs = refl;
      sound = λ t. absurd (cc);
      complete = λ (e', edge, le, lt, at, a). absurd (omega arith);
    },
  )
  leads_on_lem (suc count) e h =
      let (edge, n, at, at', runs) = child_alive_lem e (omega arith) in
      elim (Bool-cases n.alive) [
        | inl live ↦ (
          true,
          record {
            runs = leads_on-taken count e (runs ∙ ap some live);
            sound = λ t. (e, edge, omega arith, omega arith, at, (n, at', live));
            complete = λ l. refl;
          },
        )
        | inr dead ↦
            let (b, f) = leads_on_lem count (suc e) (omega arith) in
            (
              b,
              record {
                runs = leads_on-passed count e (runs ∙ ap some dead) ∙ f.runs;
                sound = λ t. later-LeadsOn count e (f.sound t);
                complete = λ l. complete_later count e edge n b at at' dead f.complete l;
              },
            )
      ]

  abbrev Marks : List Node → List Node → Type 0
  Marks nodes marked =
      (i : ℕ)
      → Alive marked i
        ↔ ((n : Node) × (get_elem? nodes i ≡ some n) × LeadsOn n.edge_count edges next n.first_edge)

  Marks-cons :
      (n : Node) (nodes marked : List Node) (b : Bool)
      → n.alive ≡ false
      → Found n.edge_count edges next n.first_edge b
      → Marks nodes marked
      → Marks (n ∷ nodes) ((if b then revive n else n) ∷ marked)
  Marks-cons n nodes marked b dead f iff (suc i) = iff i
  Marks-cons n nodes marked true dead f iff zero =
      (λ a. (n, refl, f.sound refl), λ l. (revive n, refl, refl))
  Marks-cons n nodes marked false dead f iff zero = (
    λ a. absurd (dead-alive n a.0 dead (some_inj.0 a.1) a.2),
    λ l. absurd (
        false_ne_true (
          f.complete (
            subst (λ (x : Node). LeadsOn x.edge_count edges next x.first_edge)
              (sym (some_inj.0 l.1)) l.2))),
  )

  count_edges_lem :
      (n : Node)
      → n.first_edge + n.edge_count ≤ length edges
      → length edges < u32
      → count_edges n ≡ n.edge_count
  unfolding count_edges
  count_edges_lem n h small = omega arith

  -- The nodes of a layer, marked.
  mark_nodes_lem :
      (nodes : List Node)
      → length edges < u32
      → All (λ n. n.alive ≡ false) nodes
      → All (λ n. n.first_edge + n.edge_count ≤ length edges) nodes
      → (marked : List Node) × (mark_nodes edges next nodes ≡ some marked)
        × Marks nodes marked
        × (length marked ≡ length nodes)
  unfolding mark_nodes
  mark_nodes_lem [] small d h =
      ([], refl, λ i. (λ a. absurd (cc (a.1)), λ l. absurd (cc (l.1))), refl)
  mark_nodes_lem (n ∷ nodes) small d h =
      let (b, f) = leads_on_lem n.edge_count n.first_edge h.0 in
      let (marked, e, iff, long) = mark_nodes_lem nodes small d.1 h.1 in
      (
        (if b then revive n else n) ∷ marked,
        rw (count_edges_lem n h.0 small, mark_nodes) (rw f.runs (rw e refl)),
        Marks-cons n nodes marked b d.0 f iff,
        ap suc long,
      )

length-mark_targets :
    (target : ℕ) (nodes : List Node) → length (mark_targets target nodes) ≡ length nodes
unfolding mark_targets
length-mark_targets target [] = refl
length-mark_targets target (n ∷ nodes) = ap suc (length-mark_targets target nodes)

module _ (target : ℕ) where
  -- The marked layers, of which the first is as wide as before.
  data Marking (width : ℕ) (layers : List Layer) : Type 0 where
    marking :
        (m : Layer) (marked : List Layer)
        → mark_layers target layers ≡ some (m ∷ marked)
        → AreMarked target layers (m ∷ marked)
        → length m.nodes ≡ width
        → Marking width layers

  mark_layers-step :
      (here next : Layer) (layers : List Layer) (m : Layer) (marked : List Layer)
      (nodes : List Node)
      → mark_layers target (next ∷ layers) ≡ some (m ∷ marked)
      → mark_nodes here.edges m.nodes here.nodes ≡ some nodes
      → mark_layers target (here ∷ next ∷ layers)
        ≡ some (record here { nodes = nodes } ∷ m ∷ marked)
  unfolding mark_layers mark_layer
  mark_layers-step here next layers m marked nodes e e' =
      rw (e, mark_layers) (rw (e', mark_layer) refl)

  -- An edge to a node that is alive, and the way on from there.
  through :
      (here next : Layer) (layers : List Layer) (m : Layer)
      (children : All (λ (e : Edge). e.child < length m.nodes) here.edges) (nodes : List Node)
      (i : ℕ)
      → Marks here.edges m.nodes children here.nodes nodes
      → ((j : ℕ) → Alive m.nodes j ↔ Leads target (next ∷ layers) j)
      → Alive nodes i ↔ Leads target (here ∷ next ∷ layers) i
  through here next layers m children nodes i iff right = (
    λ a.
        let (n, at, l) = (iff i).0 a in
        let (e, edge, le, lt, at', alive) = l in
        (n, e, edge, at, le, lt, at', (right edge.child).0 alive),
    λ (n, e, edge, at, le, lt, at', leads).
        (iff i).1 (n, at, (e, edge, le, lt, at', (right edge.child).1 leads)),
  )

  mark_layers_lem :
      (l : Layer) (layers : List Layer)
      → AreLaid (l ∷ layers)
      → Marking (length l.nodes) (l ∷ layers)
  unfolding mark_layers
  mark_layers_lem l [] laid =
      marking (record l { nodes = mark_targets target l.nodes }) [] refl
        ((λ i. mark_targets_lem target l.nodes i laid), tt) (length-mark_targets target l.nodes)
  mark_layers_lem here (next ∷ layers) (laid, rest) = elim (mark_layers_lem next layers rest) [
    | marking m marked e right wide ↦
        let children =
          subst (λ w. All (λ (e : Edge). e.child < w) here.edges) (sym wide) laid.children in
        let (nodes, e', iff, long) =
          mark_nodes_lem here.edges m.nodes children here.nodes laid.small laid.dead laid.edges in
        marking (record here { nodes = nodes }) (m ∷ marked)
          (mark_layers-step here next layers m marked nodes e e')
          ((λ i. through here next layers m children nodes i iff right.0), right) long
  ]

  -- On layers as the forward pass leaves them, the backward pass reads nothing out of range, and in
  -- every layer the nodes that it leaves alive are exactly those from which edges lead, layer by
  -- layer, to a node of the last layer with the target's key.
  pub mark_layers-AreMarked :
      (l : Layer) (layers : List Layer)
      → AreLaid (l ∷ layers)
      → (marked : List Layer) × (mark_layers target (l ∷ layers) ≡ some marked)
        × AreMarked target (l ∷ layers) marked
  mark_layers-AreMarked l layers laid = elim (mark_layers_lem l layers laid) [
    | marking m marked e right wide ↦ (m ∷ marked, e, right)
  ]
