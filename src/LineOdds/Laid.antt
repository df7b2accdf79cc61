-- ===== src/LineOdds/Laid.antt =====
-- TargetGraph.cpp, the constructor: the form of the layers between the two passes.
use out_of_book.Prelude.{
  ℕ, zero, suc, ◌+◌, ◌-◌, ◌%◌, ◌≤◌, ◌<◌, ◌≡◌, ◌∙◌, ap, sym, List, [], ◌∷◌, false, some, length, All,
  All-map, arith, refl,
}
use mathlib.Core.Path.{subst}
use out_of_book.Spill.{u32}
use out_of_book.LineOdds.Graph.{Edge, Node, Layer, mark_layers}
use out_of_book.LineOdds.Backward.{AreLaid, AreMarked, mark_layers-AreMarked}
use out_of_book.LineOdds.Walks.{bind-ended, ended_inj, or_strayed-ended}
use out_of_book.LineOdds.Forward.{
  Game, Walk, ended, Expansion, Search, admit, admit_all, moves_at, replay, path_to, expand_node,
  expand_nodes, no_expansion, expand_from, forward,
}
use out_of_book.LineOdds.Sound.{IsSound, Sound, if-Sound, Sound-trans}

module _ (g : Game) where
  abbrev Searches : Type 0
  Searches = Search g

  abbrev walk_moves : ℕ → g.Position → ℕ → List ℕ → Expansion → Expansion
  walk_moves = admit_all g

  admit-Sound :
      (remaining : ℕ) (pos : g.Position) (parent move : ℕ) (x : Expansion)
      → IsSound x
      → Sound x (admit g remaining pos parent move x)
  unfolding admit
  admit-Sound remaining pos parent move x s =
      if-Sound (g.key (g.do_move pos move)) move parent x _ s

  admit_all-Sound :
      (remaining : ℕ) (pos : g.Position) (parent : ℕ) (moves : List ℕ) (x : Expansion)
      → IsSound x
      → Sound x (walk_moves remaining pos parent moves x)
  unfolding admit_all
  admit_all-Sound remaining pos parent [] x s = (s, omega arith)
  admit_all-Sound remaining pos parent (m ∷ moves) x s =
      Sound-trans x _ _ (admit-Sound remaining pos parent m x s)
        (λ s'. admit_all-Sound remaining pos parent moves _ s')

  abbrev walk_node : Searches → ℕ → ℕ → Node → g.Position → Expansion → Node × Expansion
  walk_node = expand_node g

  -- A node that is dead, and whose edges are among the first `most`.
  abbrev Placed : ℕ → Node → Type 0
  Placed most n = (n.alive ≡ false) × (n.first_edge + n.edge_count ≤ most)

  counted : (l l' : ℕ) → l ≤ l' → l' < u32 → l % u32 + (l' % u32 + u32 - l % u32) % u32 ≤ l'
  counted l l' le small = omega arith

  module _ (s : Searches) (remaining i : ℕ) (n : Node) (pos : g.Position) (x : Expansion) where
    expand_node-Sound : IsSound x → Sound x (walk_node s remaining i n pos x).1
    unfolding expand_node
    expand_node-Sound sound = admit_all-Sound remaining pos i (moves_at g s pos n.key) x sound

    expand_node-Placed :
        n.alive ≡ false
        → IsSound x
        → length (walk_node s remaining i n pos x).1.edges < u32
        → Placed
            (length (walk_node s remaining i n pos x).1.edges)
            (walk_node s remaining i n pos x).0
    unfolding expand_node
    expand_node-Placed dead sound small =
        (dead, counted (length x.edges) _ (expand_node-Sound sound).1 small)

  abbrev walk_nodes :
      Searches → ℕ → ℕ → List Layer → ℕ → List Node → Expansion → Walk (List Node × Expansion)
  walk_nodes = expand_nodes g

  -- What a loop over nodes did at the first of them, if it came to an end.
  pub record First (s : Searches) (ply remaining : ℕ) (layers : List Layer) (i : ℕ) (n : Node)
      (nodes : List Node) (x : Expansion) (nodes' : List Node) (x' : Expansion) : Type 0 where
    pub path : List ℕ
    pub found : path_to g layers i ≡ some path
    pub rest : List Node
    pub ends :
        walk_nodes s ply remaining layers
          (suc i)
          nodes
          (walk_node s remaining i n (replay g path s.start) x).1
        ≡ ended (rest, x')
    pub first : nodes' ≡ (walk_node s remaining i n (replay g path s.start) x).0 ∷ rest

  module _ (s : Searches) (ply remaining : ℕ) (layers : List Layer) where
    pub expand_nodes-First :
        (i : ℕ) (n : Node) (nodes : List Node) (x : Expansion) (nodes' : List Node) (x' : Expansion)
        → walk_nodes s ply remaining layers i (n ∷ nodes) x ≡ ended (nodes', x')
        → First s ply remaining layers i n nodes x nodes' x'
    unfolding expand_nodes
    expand_nodes-First i n nodes x nodes' x' e =
        let (_, _, e₀) = bind-ended _ _ (nodes', x') e in
        let (_, _, e₁) = bind-ended _ _ (nodes', x') e₀ in
        let (path, found, e₂) = bind-ended _ _ (nodes', x') e₁ in
        let ((rest, x₁), later, same) = bind-ended _ _ (nodes', x') e₂ in
        let same' = ended_inj same in
        record {
          path = path;
          found = or_strayed-ended _ path found;
          rest = rest;
          ends = later ∙ ap (λ p. ended (rest, p.1)) same';
          first = sym (ap (λ p. p.0) same');
        }

    -- The loop behind the last node.
    pub expand_nodes-nil :
        (i : ℕ) (x : Expansion) (nodes' : List Node) (x' : Expansion)
        → walk_nodes s ply remaining layers i [] x ≡ ended (nodes', x')
        → ◌≡◌ {A = List Node × Expansion} ([], x) (nodes', x')
    unfolding expand_nodes
    expand_nodes-nil i x nodes' x' e = ended_inj (bind-ended _ _ (nodes', x') e).2

    pub expand_nodes-Sound :
        (i : ℕ) (nodes : List Node) (x : Expansion) (nodes' : List Node) (x' : Expansion)
        → walk_nodes s ply remaining layers i nodes x ≡ ended (nodes', x')
        → IsSound x
        → Sound x x' × (length nodes' ≡ length nodes)
    unfolding expand_nodes
    expand_nodes-Sound i [] x nodes' x' e sound =
        let same = expand_nodes-nil i x nodes' x' e in
        (subst (Sound x) (ap (λ p. p.1) same) (sound, omega arith), sym (ap (λ p. length p.0) same))
    expand_nodes-Sound i (n ∷ nodes) x nodes' x' e sound =
        let f = expand_nodes-First i n nodes x nodes' x' e in
        let one = expand_node-Sound s remaining i n (replay g f.path s.start) x sound in
        let (more, long) = expand_nodes-Sound (suc i) nodes _ f.rest x' f.ends one.0 in
        ((more.0, omega (arith, one.1, more.1)), ap length f.first ∙ ap suc long)

    expand_nodes-Placed :
        (i : ℕ) (nodes : List Node) (x : Expansion) (nodes' : List Node) (x' : Expansion)
        → walk_nodes s ply remaining layers i nodes x ≡ ended (nodes', x')
        → IsSound x
        → All (λ n. n.alive ≡ false) nodes
        → length x'.edges < u32
        → All (Placed (length x'.edges)) nodes'
    unfolding expand_nodes
    expand_nodes-Placed i [] x nodes' x' e sound dead small =
        subst (All (Placed (length x'.edges))) (ap (λ p. p.0) (expand_nodes-nil i x nodes' x' e)) tt
    expand_nodes-Placed i (n ∷ nodes) x nodes' x' e sound dead small =
        let f = expand_nodes-First i n nodes x nodes' x' e in
        let one = expand_node-Sound s remaining i n (replay g f.path s.start) x sound in
        let (more, long) = expand_nodes-Sound (suc i) nodes _ f.rest x' f.ends one.0 in
        let (d, le) =
          expand_node-Placed s remaining i n (replay g f.path s.start) x dead.0 sound
            (omega (arith, more.1)) in
        subst (All (Placed (length x'.edges))) (sym f.first) (
          (d, omega (arith, le, more.1)),
          expand_nodes-Placed (suc i) nodes _ f.rest x' f.ends one.0 dead.1 small,
        )

  abbrev walk_from : Searches → ℕ → ℕ → List Layer → Layer → Walk (List Layer)
  walk_from = expand_from g

  -- What a layer and those behind it come to, if the layers are expanded to the end.
  pub record Expanded (s : Searches) (n ply : ℕ) (earlier : List Layer) (here : Layer)
      (layers : List Layer) : Type 0 where
    pub nodes : List Node
    pub x : Expansion
    pub rest : List Layer
    pub loop : walk_nodes s ply n (here ∷ earlier) 0 here.nodes no_expansion ≡ ended (nodes, x)
    pub ends :
        walk_from s n
          (suc ply)
          (record { nodes = nodes; edges = x.edges } ∷ earlier)
          (record { nodes = x.next; edges = [] })
        ≡ ended rest
    pub first : layers ≡ record { nodes = nodes; edges = x.edges } ∷ rest

  module _ (s : Searches) where
    pub expand_from-Expanded :
        (n ply : ℕ) (earlier : List Layer) (here : Layer) (layers : List Layer)
        → walk_from s (suc n) ply earlier here ≡ ended layers
        → Expanded s n ply earlier here layers
    unfolding expand_from
    expand_from-Expanded n ply earlier here layers e =
        let ((nodes, x), loop, e₁) = bind-ended _ _ layers e in
        let (rest, ends, same) = bind-ended _ _ layers e₁ in
        record {
          nodes = nodes;
          x = x;
          rest = rest;
          loop = loop;
          ends = ends;
          first = sym (ended_inj same);
        }

    -- Layers that are laid, the first of them of a width.
    abbrev LaidFrom : ℕ → List Layer → Type 0
    LaidFrom width layers =
        (l : Layer) × (ls : List Layer) × (layers ≡ l ∷ ls)
        × (length l.nodes ≡ width)
        × AreLaid (l ∷ ls)

    pub expand_from-AreLaid :
        (n ply : ℕ) (earlier : List Layer) (here : Layer) (layers : List Layer)
        → walk_from s n ply earlier here ≡ ended layers
        → All (λ n. n.alive ≡ false) here.nodes
        → All (λ l. length l.edges < u32) layers
        → LaidFrom (length here.nodes) layers
    unfolding expand_from
    expand_from-AreLaid zero ply earlier here layers e dead small =
        (here, [], sym (ended_inj e), refl, dead)
    expand_from-AreLaid (suc n) ply earlier here layers e dead small =
        let f = expand_from-Expanded n ply earlier here layers e in
        let start : IsSound no_expansion = record { seen = tt; children = tt; dead = tt } in
        let ((sound, _), long) =
          expand_nodes-Sound s ply n (here ∷ earlier) 0 here.nodes no_expansion f.nodes f.x f.loop
            start in
        let smalls = subst (All (λ (l : Layer). length l.edges < u32)) f.first small in
        let placed =
          expand_nodes-Placed s ply n (here ∷ earlier) 0 here.nodes no_expansion f.nodes f.x f.loop
            start dead smalls.0 in
        let (l, ls, same, wide, laid) =
          expand_from-AreLaid n (suc ply) _ (record { nodes = f.x.next; edges = [] }) f.rest f.ends
            sound.dead smalls.1 in
        (
          record { nodes = f.nodes; edges = f.x.edges },
          l ∷ ls,
          f.first ∙ ap (λ r. record { nodes = f.nodes; edges = f.x.edges } ∷ r) same,
          long,
          (
            record {
              dead = All-map _ _ f.nodes (λ n p. p.0) placed;
              edges = All-map _ _ f.nodes (λ n p. p.1) placed;
              children =
                  subst (λ w. All (λ (e : Edge). e.child < w) f.x.edges) (sym wide) sound.children;
              small = smalls.0;
            },
            laid,
          ),
        )

    -- Whenever the constructor's forward pass ends and no layer has 2 ^ 32 edges, the layers are in the
    -- form that the backward pass needs, and as that pass leaves them a node is alive exactly if
    -- edges lead from it, layer by layer, to a node of the last layer with the target's key.
    pub forward-AreMarked :
        (target target_ply : ℕ) (layers : List Layer)
        → forward g s target_ply ≡ ended layers
        → All (λ l. length l.edges < u32) layers
        → (marked : List Layer) × (mark_layers target layers ≡ some marked)
          × AreMarked target layers marked
    unfolding forward
    forward-AreMarked target target_ply layers e small =
        let (l, ls, same, wide, laid) =
          expand_from-AreLaid target_ply 0 [] _ layers e (refl, tt) small in
        subst
          (λ layers.
            (marked : List Layer) × (mark_layers target layers ≡ some marked)
            × AreMarked target layers marked)
          (sym same) (mark_layers-AreMarked target l ls laid)
