-- ===== src/LineOdds/Forward.antt =====
-- apps/line_odds/TargetGraph.cpp: the forward pass, which walks out from the starting position layer by
-- layer. A position, its key, its moves and the test of Reachability.cpp are parameters, and so is what
-- the clock says.
use out_of_book.Prelude.{
  ℕ, zero, suc, ◌+◌, ◌-◌, ◌/◌, ◌%◌, List, [], ◌∷◌, ◌++◌, Bool, true, false, not, ◌==◌, ◌&&◌, ◌||◌,
  ltb, if◌then◌else◌, Option, none, some, length, get_elem?,
}
use out_of_book.Text.{bytes_eq, is_empty}
use out_of_book.Spill.{u32}
use out_of_book.GenerateOtb.Walk.{termination, forced_aggregation}
use out_of_book.LineOdds.Graph.{Edge, Node, Layer}

-- The two limits that throw.
pub data Limit : Type 0 where
  too_late too_many : Limit

-- What a pass comes to; `strayed` is a read out of range, and `wrapped` a node counter that reaches
-- 2 ^ 32 and starts again at 0, from where on the pass is not followed.
pub data Walk {ℓ} (A : Type ℓ) : Type ℓ where
  ended : A → Walk A
  throws : Limit → Walk A
  strayed wrapped : Walk A

infixl 5 ◌>>=◌
unfoldable pub ◌>>=◌ {ℓ κ} : {A : Type ℓ} {B : Type κ} → Walk A → (A → Walk B) → Walk B
ended a >>= f = f a
throws l >>= f = throws l
strayed >>= f = strayed
wrapped >>= f = wrapped

-- `uint32_t i`, at the head of the loop.
unfoldable pub check_counter : ℕ → Walk (Unit {0})
check_counter i = if ltb i u32 then ended tt else wrapped

unfoldable pub or_strayed {ℓ} : {A : Type ℓ} → Option A → Walk A
or_strayed none = strayed
or_strayed (some a) = ended a

-- `NO_PARENT`
abbrev pub no_parent : ℕ
no_parent = 0xffff_ffff

-- What `expand` writes to: the map of the keys that were seen, the next layer's nodes, and the edges.
pub record Expansion : Type 0 where
  pub seen : List (ℕ × ℕ)
  pub next : List Node
  pub edges : List Edge

unfoldable pub find_seen : ℕ → List (ℕ × ℕ) → Option ℕ
find_seen key [] = none
find_seen key ((k, v) ∷ seen) = if k == key then some v else find_seen key seen

abbrev pub no_expansion : Expansion
no_expansion = record { seen = []; next = []; edges = [] }

-- `seen.try_emplace`, and the node and the edge that follow from it.
unfoldable pub link : ℕ → ℕ → ℕ → Option ℕ → Expansion → Expansion
link key move parent (some child) x = record x {
  edges = x.edges ++ record { child = child; move = move } ∷ [];
}
link key move parent none x =
    let child = length x.next % u32 in
    let node : Node = record {
      key = key;
      parent = parent;
      first_edge = 0;
      edge_count = 0;
      move = move;
      alive = false;
    } in
    record x {
      seen = (key, child) ∷ x.seen;
      next = x.next ++ node ∷ [];
      edges = x.edges ++ record { child = child; move = move } ∷ [];
    }

unfoldable pub is_pseudo_move : ℕ → Bool
is_pseudo_move m = (m == termination) || (m == forced_aggregation)

-- The crowd's moves among a blob's rows: a move's rows are adjacent, so it is taken once.
abbrev pub is_previous : Option ℕ → ℕ → Bool
is_previous none m = false
is_previous (some p) m = p == m

unfoldable pub crowd_moves : Option ℕ → List ℕ → List ℕ
crowd_moves previous [] = []
crowd_moves previous (m ∷ rows) =
    let rest = crowd_moves (some m) rows in
    if is_previous previous m || is_pseudo_move m then rest else m ∷ rest

-- `std::find` in the plan.
unfoldable pub in_plan : List ℕ → List (List ℕ) → Bool
in_plan text [] = false
in_plan text (p ∷ plan) = bytes_eq p text || in_plan text plan

unfoldable pub plan_moves : (ℕ → List ℕ) → List (List ℕ) → List ℕ → List ℕ
plan_moves uci plan [] = []
plan_moves uci plan (m ∷ moves) =
    let rest = plan_moves uci plan moves in
    if not (is_empty plan) && not (in_plan (uci m) plan) then rest else m ∷ rest

abbrev pub is_hero : Option Bool → Bool → Bool
is_hero none white = false
is_hero (some true) white = white
is_hero (some false) white = not white

-- What the walk asks of the chess library, of the book, of Reachability.cpp and of the clock.
pub record Game : Type 1 where
  pub Position : Type 0
  pub key : Position → ℕ
  pub do_move : Position → ℕ → Position
  pub white_to_move : Position → Bool
  pub legal_moves : Position → List ℕ
  pub uci : ℕ → List ℕ
  pub book_moves : ℕ → List ℕ
  pub reachable : Position → ℕ → ℕ → Bool
  pub late : ℕ → ℕ → Bool

module _ (g : Game) where
  -- The members that the passes read.
  pub record Search : Type 0 where
    pub start : g.Position
    pub hero : Option Bool
    pub plan : List (List ℕ)
    pub max_states : ℕ

  -- The test of `admit`, with `remaining` half-moves between this layer and the target.
  unfoldable pub admitted : ℕ → g.Position → Bool
  admitted remaining child =
      let for_stm = (remaining + 1) / 2 in
      let for_other = remaining / 2 in
      let white = g.white_to_move child in
      g.reachable child (if white then for_stm else for_other)
        (if white then for_other else for_stm)

  unfoldable pub admit : ℕ → g.Position → ℕ → ℕ → Expansion → Expansion
  admit remaining pos parent move x =
      let child = g.do_move pos move in
      if admitted remaining child
      then link (g.key child) move parent (find_seen (g.key child) x.seen) x
      else x

  unfoldable pub admit_all : ℕ → g.Position → ℕ → List ℕ → Expansion → Expansion
  admit_all remaining pos parent [] x = x
  admit_all remaining pos parent (m ∷ moves) x =
      admit_all remaining pos parent moves (admit remaining pos parent m x)

  -- The moves that are tried at a node.
  unfoldable pub moves_at : Search → g.Position → ℕ → List ℕ
  moves_at s pos node_key =
      if is_hero s.hero (g.white_to_move pos)
      then plan_moves g.uci s.plan (g.legal_moves pos)
      else crowd_moves none (g.book_moves node_key)

  -- `positionAt`: the moves to a node of the first of the layers, the earlier ones behind it.
  unfoldable pub path_to : List Layer → ℕ → Option (List ℕ)
  path_to [] index = none
  path_to (first ∷ []) index = some []
  path_to (here ∷ before ∷ earlier) index = elim (get_elem? here.nodes index) [
    | none ↦ none
    | some n ↦ elim (path_to (before ∷ earlier) n.parent) [
      | none ↦ none
      | some path ↦ some (path ++ n.move ∷ [])
    ]
  ]

  unfoldable pub replay : List ℕ → g.Position → g.Position
  replay [] pos = pos
  replay (m ∷ moves) pos = replay moves (g.do_move pos m)

  -- A node with its edges behind those that there are, and the expansion by its moves.
  unfoldable pub expand_node : Search → ℕ → ℕ → Node → g.Position → Expansion → Node × Expansion
  expand_node s remaining i n pos x =
      let x' = admit_all remaining pos i (moves_at s pos n.key) x in
      let first = length x.edges % u32 in
      (
        record n { first_edge = first; edge_count = (length x'.edges % u32 + u32 - first) % u32 },
        x',
      )

  -- The test of the limits, at every 1024th node.
  unfoldable pub check_limits : Search → ℕ → ℕ → Expansion → Walk (Unit {0})
  check_limits s ply i x =
      if not (i % 0x400 == 0)
      then ended tt
      else if g.late ply i
      then throws too_late
      else if ltb s.max_states (length x.next)
      then throws too_many
      else ended tt

  -- The loop over the nodes from number `i` on. `layers` are this layer and the earlier ones.
  unfoldable pub expand_nodes :
      Search → ℕ → ℕ → List Layer → ℕ → List Node → Expansion → Walk (List Node × Expansion)
  expand_nodes s ply remaining layers i [] x = do counted ← check_counter i; ended ([], x)
  expand_nodes s ply remaining layers i (n ∷ nodes) x = do
    counted ← check_counter i
    checked ← check_limits s ply i x
    path ← or_strayed (path_to layers i)
    (nodes', x') ←
        expand_nodes s ply remaining layers (suc i) nodes
          (expand_node s remaining i n (replay path s.start) x).1
    ended ((expand_node s remaining i n (replay path s.start) x).0 ∷ nodes', x')

  -- The layers from half-move `ply` on, with the half-moves left up to the target.
  unfoldable pub expand_from : Search → ℕ → ℕ → List Layer → Layer → Walk (List Layer)
  expand_from s zero ply earlier here = ended (here ∷ [])
  expand_from s (suc n) ply earlier here = do
    (nodes, x) ← expand_nodes s ply n (here ∷ earlier) 0 here.nodes no_expansion
    layers ←
        expand_from s n (suc ply) (record { nodes = nodes; edges = x.edges } ∷ earlier)
          (record { nodes = x.next; edges = [] })
    ended (record { nodes = nodes; edges = x.edges } ∷ layers)

  -- The first layer, and the loop of the constructor.
  unfoldable pub forward : Search → ℕ → Walk (List Layer)
  forward s target_ply =
      let root : Node = record {
        key = g.key s.start;
        parent = no_parent;
        first_edge = 0;
        edge_count = 0;
        move = 0;
        alive = false;
      } in
      expand_from s target_ply 0 [] (record { nodes = root ∷ []; edges = [] })
