-- ===== src/LineOdds/Graph.antt =====
-- apps/line_odds/TargetGraph.cpp: the layers of positions, the backward pass that keeps what leads to
-- the target, and its census. `none` is a read out of range.
use out_of_book.Prelude.{
  ℕ, zero, suc, ◌+◌, ◌-◌, ◌%◌, List, [], ◌∷◌, Bool, true, false, ◌==◌, ◌||◌, if◌then◌else◌, Option,
  none, some, get_elem?, max,
}
use out_of_book.Spill.{u32}

pub record Edge : Type 0 where
  pub child : ℕ
  pub move : ℕ

pub record Node : Type 0 where
  pub key : ℕ
  pub parent : ℕ
  pub first_edge : ℕ
  pub edge_count : ℕ
  pub move : ℕ
  pub alive : Bool

pub record Layer : Type 0 where
  pub nodes : List Node
  pub edges : List Edge

-- `node.alive = true`
abbrev pub revive : Node → Node
revive n = record n { alive = true }

-- The nodes of the last layer, of which those with the target's key are alive.
unfoldable pub mark_targets : ℕ → List Node → List Node
mark_targets target [] = []
mark_targets target (n ∷ nodes) =
    (if n.key == target then revive n else n) ∷ mark_targets target nodes

-- `found`
unfoldable pub has_target : ℕ → List Node → Bool
has_target target [] = false
has_target target (n ∷ nodes) = n.key == target || has_target target nodes

-- `next.nodes[here.edges[e].child].alive`
unfoldable pub child_alive : List Edge → List Node → ℕ → Option Bool
child_alive edges next e = elim (get_elem? edges e) [
  | none ↦ none
  | some edge ↦ elim (get_elem? next edge.child) [ none ↦ none | some n ↦ some n.alive ]
]

-- The loop over the edges of a node from `e` on, with the number left: whether it breaks off.
unfoldable pub leads_on : ℕ → List Edge → List Node → ℕ → Option Bool
leads_on zero edges next e = some false
leads_on (suc n) edges next e = elim (child_alive edges next e) [
  | none ↦ none
  | some true ↦ some true
  | some false ↦ leads_on n edges next (suc e)
]

-- The rounds of that loop, up to `node.firstEdge + node.edgeCount`.
unfoldable pub count_edges : Node → ℕ
count_edges n = (n.first_edge + n.edge_count) % u32 - n.first_edge

unfoldable pub mark_nodes : List Edge → List Node → List Node → Option (List Node)
mark_nodes edges next [] = some []
mark_nodes edges next (n ∷ nodes) = elim (leads_on (count_edges n) edges next n.first_edge) [
  | none ↦ none
  | some on ↦ elim (mark_nodes edges next nodes) [
    | none ↦ none
    | some marked ↦ some ((if on then revive n else n) ∷ marked)
  ]
]

-- A layer in front of the layers that are marked already.
unfoldable pub mark_layer : Layer → List Layer → Option (List Layer)
mark_layer here [] = none
mark_layer here (next ∷ rest) = elim (mark_nodes here.edges next.nodes here.nodes) [
  | none ↦ none
  | some nodes ↦ some (record here { nodes = nodes } ∷ next ∷ rest)
]

-- The two loops of `filterBackward` that mark, from the last layer back.
unfoldable pub mark_layers : ℕ → List Layer → Option (List Layer)
mark_layers target [] = none
mark_layers target (last ∷ []) = some (record last { nodes = mark_targets target last.nodes } ∷ [])
mark_layers target (here ∷ next ∷ layers) = elim (mark_layers target (next ∷ layers)) [
  | none ↦ none
  | some marked ↦ mark_layer here marked
]

unfoldable pub count_alive : List Node → ℕ
count_alive [] = 0
count_alive (n ∷ nodes) = (if n.alive then 1 else 0) + count_alive nodes

-- What the last loop adds to the census.
pub record Census : Type 0 where
  pub survivors : ℕ
  pub widest : ℕ

unfoldable pub take_census : List Layer → Census → Census
take_census [] c = c
take_census (l ∷ layers) c =
    let alive = count_alive l.nodes in
    take_census layers (record { survivors = c.survivors + alive; widest = max c.widest alive })
