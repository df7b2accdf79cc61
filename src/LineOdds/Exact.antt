-- ===== src/LineOdds/Exact.antt =====
-- TargetGraph.cpp: the whole constructor, beside lines of moves from the root to the target.
use out_of_book.Prelude.{
  ℕ, zero, suc, ◌+◌, ◌≤◌, ◌<◌, ◌≡◌, ◌∙◌, ap, sym, ◌↔◌, ◌≢◌, List, [], ◌∷◌, false, some, length,
  get_elem?, All, arith, refl,
}
use mathlib.Core.Path.{subst}
use mathlib.Core.Option.{some_inj}
use mathlib.Core.List.{Memᴰ}
use out_of_book.Spill.{u32}
use out_of_book.LineOdds.Graph.{Node, Layer, mark_layers}
use out_of_book.LineOdds.Walks.{ended_inj}
use out_of_book.LineOdds.Forward.{
  Game, ended, Expansion, no_expansion, find_seen, Search, admitted, moves_at, replay, path_to,
  expand_from, forward,
}
use out_of_book.LineOdds.Backward.{Alive, Leads, AreMarked}
use out_of_book.LineOdds.Within.{Tidy}
use out_of_book.LineOdds.Covers.{Keeping, Looped, expand_nodes-Looped}
use out_of_book.LineOdds.Laid.{
  expand_from-Expanded, expand_nodes-Sound, expand_from-AreLaid, forward-AreMarked,
}
use out_of_book.LineOdds.Paths.{Tracked, next-Tracked}

no_expansion-Tidy : {Born : ℕ → ℕ → ℕ → Type 0} → Tidy Born no_expansion
unfolding find_seen
no_expansion-Tidy = record {
  born = λ i n at. absurd (cc);
  seen = λ k v e. absurd (cc);
  fewer = omega arith;
}

module _ (g : Game) where
  -- Positions with the same key have the same side to move, the same legal moves, keys of what the
  -- moves lead to, and answers of the test.
  pub record KeysDecide : Type 0 where
    pub side : (p q : g.Position) → g.key p ≡ g.key q → g.white_to_move p ≡ g.white_to_move q
    pub legal : (p q : g.Position) → g.key p ≡ g.key q → g.legal_moves p ≡ g.legal_moves q
    pub moved :
        (p q : g.Position) (m : ℕ)
        → g.key p ≡ g.key q
        → g.key (g.do_move p m) ≡ g.key (g.do_move q m)
    pub tested :
        (p q : g.Position) (a b : ℕ) → g.key p ≡ g.key q → g.reachable p a b ≡ g.reachable q a b

  -- A line of `n` moves from a position to the target, each of them one that is tried where it is
  -- made, and to a position that the test keeps.
  abbrev pub Line : Search g → ℕ → ℕ → g.Position → Type 0
  Line s target zero pos = g.key pos ≡ target
  Line s target (suc n) pos =
      (m : ℕ) × Memᴰ m (moves_at g s pos (g.key pos))
      × Keeping g n pos m
      × Line s target n (g.do_move pos m)

  module _ (decide : KeysDecide) (s : Search g) where
    moves_at-same :
        (p q : g.Position) (k : ℕ) → g.key p ≡ g.key q → moves_at g s p k ≡ moves_at g s q k
    unfolding moves_at
    moves_at-same p q k e = rw (decide.side p q e, decide.legal p q e) refl

    admitted-same :
        (remaining : ℕ) (p q : g.Position)
        → g.key p ≡ g.key q
        → admitted g remaining p ≡ admitted g remaining q
    unfolding admitted
    admitted-same remaining p q e = rw (decide.side p q e, admitted) (decide.tested p q _ _ e)

  -- What is alive in a layer are its lines to the target, where a node's key may be that of several
  -- positions.
  abbrev LeadsAlong : Search g → ℕ → ℕ → List Node → List Layer → Type 0
  LeadsAlong s target n nodes layers =
      (i : ℕ) (nd : Node) (pos : g.Position)
      → get_elem? nodes i ≡ some nd
      → g.key pos ≡ nd.key
      → Leads target layers i ↔ Line s target n pos

  module _ (decide : KeysDecide) (s : Search g) (target : ℕ) where
    layer-LeadsAlong :
        (ply n : ℕ) (earlier : List Layer) (here : Layer) (nodes : List Node) (x : Expansion)
        (l : Layer) (ls : List Layer)
        → Tracked g s (here ∷ earlier)
        → Looped g s ply n (here ∷ earlier) 0 here.nodes no_expansion nodes x
        → LeadsAlong s target n x.next (l ∷ ls)
        → LeadsAlong s target
            (suc n)
            here.nodes
            (record { nodes = nodes; edges = x.edges } ∷ l ∷ ls)
    layer-LeadsAlong ply n earlier here nodes x l ls tracked looped right i nd pos at k =
        let (nd', at', path, found, passed) = looped.each i nd at in
        let (path', found', k') = tracked i nd at in
        let pos' = replay g path s.start in
        let one_path : path' ≡ path =
          some_inj.0 (sym found' ∙ ap (path_to g (here ∷ earlier)) (omega arith) ∙ found) in
        let agree : g.key pos' ≡ g.key pos =
          ap (λ p. g.key (replay g p s.start)) (sym one_path) ∙ k' ∙ sym k in
        let moves : moves_at g s pos' nd.key ≡ moves_at g s pos (g.key pos) =
          moves_at-same decide s pos' pos nd.key agree ∙ ap (moves_at g s pos) (sym k) in
        let step = λ (m : ℕ). decide.moved pos' pos m agree in
        let kept =
          λ (m : ℕ). admitted-same decide s n (g.do_move pos' m) (g.do_move pos m) (step m) in
        (
          λ (n', e, edge, at'', le, lt, at_e, leads).
              let same : n' ≡ nd' = some_inj.0 (sym at'' ∙ at') in
              let le' = subst (λ (q : Node). q.first_edge ≤ e) same le in
              let lt' = subst (λ (q : Node). e < q.first_edge + q.edge_count) same lt in
              let (mem, ok, (child, at_c, to)) = passed.covers.sound e edge le' lt' at_e in
              (
                edge.move,
                subst (Memᴰ edge.move) moves mem,
                sym (kept edge.move) ∙ ok,
                (right edge.child child (g.do_move pos edge.move) at_c
                      (sym (step edge.move) ∙ sym to)).0
                    leads,
              ),
          λ (m, mem, ok, line).
              let (e, edge, le, lt, at_e, (child, at_c, to)) =
                passed.covers.complete m (subst (Memᴰ m) (sym moves) mem) (kept m ∙ ok) in
              (
                nd',
                e,
                edge,
                at',
                le,
                lt,
                at_e,
                (right edge.child child (g.do_move pos m) at_c (sym (step m) ∙ sym to)).1 line,
              ),
        )

    expand_from-LeadsAlong :
        (n ply : ℕ) (earlier : List Layer) (here : Layer) (layers : List Layer)
        → expand_from g s n ply earlier here ≡ ended layers
        → All (λ n. n.alive ≡ false) here.nodes
        → All (λ l. length l.edges < u32) layers
        → Tracked g s (here ∷ earlier)
        → LeadsAlong s target n here.nodes layers
    unfolding expand_from
    expand_from-LeadsAlong zero ply earlier here layers e dead small tracked =
        subst (LeadsAlong s target 0 here.nodes) (ended_inj e) (λ i nd pos at k. (
          λ (nd', at', k'). k ∙ ap (λ (q : Node). q.key) (some_inj.0 (sym at ∙ at')) ∙ k',
          λ reached. (nd, at, sym k ∙ reached),
        ))
    expand_from-LeadsAlong (suc n) ply earlier here layers e dead small tracked =
        let f = expand_from-Expanded g s n ply earlier here layers e in
        let here' : Layer = record { nodes = f.nodes; edges = f.x.edges } in
        let next : Layer = record { nodes = f.x.next; edges = [] } in
        let smalls = subst (All (λ (l : Layer). length l.edges < u32)) f.first small in
        let ((sound, _), _) =
          expand_nodes-Sound g s ply n (here ∷ earlier) 0 here.nodes no_expansion f.nodes f.x f.loop
            (record { seen = tt; children = tt; dead = tt }) in
        let looped =
          expand_nodes-Looped g s ply n (here ∷ earlier) 0 here.nodes no_expansion f.nodes f.x
            f.loop smalls.0 no_expansion-Tidy in
        let right =
          expand_from-LeadsAlong n (suc ply) (here' ∷ earlier) next f.rest f.ends sound.dead
            smalls.1 (next-Tracked g s ply n earlier here f.nodes f.x looped) in
        let (l, ls, same, _, _) =
          expand_from-AreLaid g s n (suc ply) (here' ∷ earlier) next f.rest f.ends sound.dead
            smalls.1 in
        subst (LeadsAlong s target (suc n) here.nodes) (sym (f.first ∙ ap (λ r. here' ∷ r) same)) (
          layer-LeadsAlong ply n earlier here f.nodes f.x l ls tracked looped
            (subst (LeadsAlong s target n f.x.next) same right))

    root-Tracked :
        (n : Node)
        → g.key s.start ≡ n.key
        → Tracked g s (record { nodes = n ∷ []; edges = [] } ∷ [])
    unfolding path_to replay
    root-Tracked n k zero nd at = ([], refl, k ∙ ap (λ (q : Node). q.key) (some_inj.0 at))
    root-Tracked n k (suc i) nd at = absurd (cc)

    first-Alive :
        (layers marked : List Layer)
        → layers ≢ []
        → AreMarked target layers marked
        → mark_layers target layers ≡ some marked
        → (m : Layer) × (rest : List Layer) × (mark_layers target layers ≡ some (m ∷ rest))
          × ((i : ℕ) → Alive m.nodes i ↔ Leads target layers i)
    first-Alive [] marked some_layer right e = absurd (some_layer refl)
    first-Alive (l ∷ layers) [] some_layer right e = absurd right
    first-Alive (l ∷ layers) (m ∷ rest) some_layer right e = (m, rest, e, right.0)

    -- If no two positions with one key differ in what the walk asks of them, the forward pass ends,
    -- and no layer has 2 ^ 32 edges, then after both passes the starting position is alive exactly if
    -- a line of `target_ply` moves leads from it to the target, each move one that is tried where it
    -- is made (the hero's from the legal ones, the crowd's from the book) and kept by the test.
    pub forward-Line :
        (target_ply : ℕ) (layers : List Layer)
        → forward g s target_ply ≡ ended layers
        → All (λ l. length l.edges < u32) layers
        → (m : Layer) × (marked : List Layer) × (mark_layers target layers ≡ some (m ∷ marked))
          × (Alive m.nodes 0 ↔ Line s target target_ply s.start)
    unfolding forward
    forward-Line target_ply layers e small =
        let root_line =
          expand_from-LeadsAlong target_ply 0 [] _ layers e (refl, tt) small (root-Tracked _ refl) 0
            _ s.start refl refl in
        let (_, _, same, _, _) =
          expand_from-AreLaid g s target_ply 0 [] _ layers e (refl, tt) small in
        let (marked, runs, right) = forward-AreMarked g s target target_ply layers e small in
        let (m, rest, runs', right') = first-Alive layers marked (λ z. cc) right runs in
        (
          m,
          rest,
          runs',
          (λ a. root_line.0 ((right' 0).0 a), λ line. (right' 0).1 (root_line.1 line)),
        )
