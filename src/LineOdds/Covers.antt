-- ===== src/LineOdds/Covers.antt =====
-- TargetGraph.cpp, `expand`: the edges of the nodes of a layer, beside their admitted moves.
use out_of_book.Prelude.{
  ℕ, zero, suc, ◌+◌, ◌-◌, ◌%◌, ◌≤◌, ◌<◌, ◌≡◌, ◌∙◌, ap, sym, List, [], ◌∷◌, true, some, length,
  get_elem?, drop-get_elem?, arith, refl,
}
use mathlib.Core.Path.{subst}
use mathlib.Core.Option.{some_inj}
use mathlib.Core.List.{Memᴰ}
use out_of_book.Spill.{u32}
use out_of_book.LineOdds.Graph.{Edge, Node, Layer}
use out_of_book.LineOdds.Forward.{
  Game, ended, Expansion, Search, admitted, admit_all, moves_at, replay, path_to, expand_node,
  expand_nodes,
}
use out_of_book.LineOdds.Within.{
  get_elem?-within, KeyAt, KeyAt-Within, Tidy, Keeps, Keeps-refl, Keeps-trans,
}
use out_of_book.LineOdds.Admits.{Adds, admit_all-Adds, admit_all-longer}
use out_of_book.LineOdds.Laid.{expand_nodes-First, expand_nodes-nil}

module _ (g : Game) where
  -- Whether `admit` keeps the position that a move leads to.
  abbrev pub Keeping : ℕ → g.Position → ℕ → Type 0
  Keeping remaining pos m = admitted g remaining (g.do_move pos m) ≡ true

  -- The edges from place `first` on and before `last` are the moves that are admitted.
  pub record Covers (remaining : ℕ) (pos : g.Position) (moves : List ℕ) (next : List Node)
      (edges : List Edge) (first last : ℕ) : Type 0 where
    pub sound :
        (e : ℕ) (edge : Edge)
        → first ≤ e
        → e < last
        → get_elem? edges e ≡ some edge
        → Memᴰ edge.move moves
          × Keeping remaining pos edge.move
          × KeyAt next edge.child (g.key (g.do_move pos edge.move))
    pub complete :
        (m : ℕ)
        → Memᴰ m moves
        → Keeping remaining pos m
        → (e : ℕ) × (edge : Edge) × (first ≤ e)
          × (e < last)
          × (get_elem? edges e ≡ some edge)
          × KeyAt next edge.child (g.key (g.do_move pos m))

  -- Later edges and nodes change nothing for the edges there are.
  Covers-Keeps :
      (remaining : ℕ) (pos : g.Position) (moves : List ℕ) (x x' : Expansion) (first last : ℕ)
      → last ≤ length x.edges
      → Keeps x x'
      → Covers remaining pos moves x.next x.edges first last
      → Covers remaining pos moves x'.next x'.edges first last
  Covers-Keeps remaining pos moves x x' first last le k c = record {
    sound = λ e edge le' lt at.
        let (old, at', _) = drop-get_elem? e x.edges (omega arith) in
        let same : old ≡ edge = some_inj.0 (sym (k.edges e old at') ∙ at) in
        let (mem, ok, to) = c.sound e edge le' lt (at' ∙ ap some same) in
        (mem, ok, KeyAt-Within x.next x'.next edge.child _ k.next to);
    complete = λ m mem ok.
        let (e, edge, le', lt, at, to) = c.complete m mem ok in
        (e, edge, le', lt, k.edges e edge at, KeyAt-Within x.next x'.next edge.child _ k.next to);
  }

  Covers-Adds :
      (remaining : ℕ) (pos : g.Position) (parent : ℕ) (Born : ℕ → ℕ → ℕ → Type 0) (moves : List ℕ)
      (x x' : Expansion)
      → Adds g remaining pos parent Born moves x x'
      → Covers remaining pos moves x'.next x'.edges (length x.edges) (length x'.edges)
  Covers-Adds remaining pos parent Born moves x x' a = record {
    sound = λ e edge le lt at. a.sound e edge le at;
    complete = λ m mem ok.
        let (e, edge, le, at, to) = a.complete m mem ok in
        (e, edge, le, get_elem?-within x'.edges e edge at, at, to);
  }

  -- A node that the loop has passed: what it was before, and its edges.
  pub record Passed (s : Search g) (remaining : ℕ) (n n' : Node) (pos : g.Position) (x : Expansion)
      : Type 0 where
    pub same_key : n'.key ≡ n.key
    pub same_parent : n'.parent ≡ n.parent
    pub same_move : n'.move ≡ n.move
    pub covers :
        Covers remaining pos
          (moves_at g s pos n.key)
          x.next
          x.edges
          n'.first_edge
          (n'.first_edge + n'.edge_count)
    pub placed : n'.first_edge + n'.edge_count ≤ length x.edges

  Passed-Keeps :
      (s : Search g) (remaining : ℕ) (n n' : Node) (pos : g.Position) (x x' : Expansion)
      → Keeps x x'
      → Passed s remaining n n' pos x
      → Passed s remaining n n' pos x'
  Passed-Keeps s remaining n n' pos x x' k p = record {
    same_key = p.same_key;
    same_parent = p.same_parent;
    same_move = p.same_move;
    covers = Covers-Keeps remaining pos _ x x' _ _ p.placed k p.covers;
    placed = omega (arith, p.placed, k.longer);
  }

  range :
      (l l' : ℕ)
      → l ≤ l'
      → l' < u32
      → (l ≡ l % u32) × (l' ≡ l % u32 + (l' % u32 + u32 - l % u32) % u32)
  range l l' le small = (omega arith, omega arith)

  expand_node-longer :
      (s : Search g) (remaining i : ℕ) (n : Node) (pos : g.Position) (x : Expansion)
      → length x.edges ≤ length (expand_node g s remaining i n pos x).1.edges
  unfolding expand_node
  expand_node-longer s remaining i n pos x =
      admit_all-longer g remaining pos i (moves_at g s pos n.key) x

  module _ (s : Search g) (remaining i : ℕ) (n : Node) (pos : g.Position) (x : Expansion)
      (Born : ℕ → ℕ → ℕ → Type 0) (born : (m : ℕ) → Born i m (g.key (g.do_move pos m)))
      (tidy : Tidy Born x) where
    expand_node-Passed :
        length (expand_node g s remaining i n pos x).1.edges < u32
        → Keeps x (expand_node g s remaining i n pos x).1
          × Tidy Born (expand_node g s remaining i n pos x).1
          × Passed s remaining n
              (expand_node g s remaining i n pos x).0
              pos
              (expand_node g s remaining i n pos x).1
    unfolding expand_node
    expand_node-Passed small =
        let moves = moves_at g s pos n.key in
        let x' = admit_all g remaining pos i moves x in
        let a = admit_all-Adds g remaining pos i Born moves x small born tidy in
        let (from, to) = range (length x.edges) (length x'.edges) a.keeps.longer small in
        (
          a.keeps,
          a.tidy,
          record {
            same_key = refl;
            same_parent = refl;
            same_move = refl;
            covers =
                subst (λ b. Covers remaining pos moves x'.next x'.edges (length x.edges % u32) b) to
                  (subst (λ b. Covers remaining pos moves x'.next x'.edges b (length x'.edges)) from
                    (Covers-Adds remaining pos i Born moves x x' a));
            placed = omega (arith, to);
          },
        )

  module _ (s : Search g) (ply remaining : ℕ) (layers : List Layer) where
    -- The node with a key was reached by a move from its parent, whose place has a path.
    abbrev pub Born : ℕ → ℕ → ℕ → Type 0
    Born parent m k =
        (path : List ℕ) × (path_to g layers parent ≡ some path)
        × (g.key (g.do_move (replay g path s.start) m) ≡ k)

    -- What the loop over nodes does: each is passed, at the position that its path leads to.
    pub record Looped (i : ℕ) (nodes : List Node) (x : Expansion) (nodes' : List Node)
        (x' : Expansion) : Type 0 where
      pub keeps : Keeps x x'
      pub tidy : Tidy Born x'
      pub each :
          (j : ℕ) (n : Node)
          → get_elem? nodes j ≡ some n
          → (n' : Node) × (get_elem? nodes' j ≡ some n')
            × (path : List ℕ) × (path_to g layers (i + j) ≡ some path)
            × Passed s remaining n n' (replay g path s.start) x'

    expand_nodes-longer :
        (i : ℕ) (nodes : List Node) (x : Expansion) (nodes' : List Node) (x' : Expansion)
        → expand_nodes g s ply remaining layers i nodes x ≡ ended (nodes', x')
        → length x.edges ≤ length x'.edges
    unfolding expand_nodes
    expand_nodes-longer i [] x nodes' x' e =
        subst (λ p. length x.edges ≤ length p.edges)
          (ap (λ p. p.1) (expand_nodes-nil g s ply remaining layers i x nodes' x' e)) (omega arith)
    expand_nodes-longer i (n ∷ nodes) x nodes' x' e =
        let f = expand_nodes-First g s ply remaining layers i n nodes x nodes' x' e in
        let here = expand_node-longer s remaining i n (replay g f.path s.start) x in
        let later = expand_nodes-longer (suc i) nodes _ f.rest x' f.ends in omega arith

    -- The first node of the loop, and the others.
    Looped-cons :
        (i : ℕ) (n n' : Node) (nodes nodes' : List Node) (path : List ℕ) (x x₁ x' : Expansion)
        → path_to g layers i ≡ some path
        → Keeps x x₁
        → Passed s remaining n n' (replay g path s.start) x₁
        → Looped (suc i) nodes x₁ nodes' x'
        → Looped i (n ∷ nodes) x (n' ∷ nodes') x'
    Looped-cons i n n' nodes nodes' path x x₁ x' found k p l = record {
      keeps = Keeps-trans x x₁ x' k l.keeps;
      tidy = l.tidy;
      each = λ j m at. each_of j m at;
    }
      where
        each_of :
            (j : ℕ) (m : Node)
            → get_elem? (n ∷ nodes) j ≡ some m
            → (m' : Node) × (get_elem? (n' ∷ nodes') j ≡ some m')
              × (path : List ℕ) × (path_to g layers (i + j) ≡ some path)
              × Passed s remaining m m' (replay g path s.start) x'
        each_of zero m at = (
          n',
          refl,
          path,
          subst (λ a. path_to g layers a ≡ some path) (omega arith) found,
          subst (λ m. Passed s remaining m n' (replay g path s.start) x') (some_inj.0 at)
              (Passed-Keeps s remaining n n' _ x₁ x' l.keeps p),
        )
        each_of (suc j) m at =
            let (m', at', path', found', p') = l.each j m at in
            (m', at', path', subst (λ a. path_to g layers a ≡ some path') (omega arith) found', p')

    pub expand_nodes-Looped :
        (i : ℕ) (nodes : List Node) (x : Expansion) (nodes' : List Node) (x' : Expansion)
        → expand_nodes g s ply remaining layers i nodes x ≡ ended (nodes', x')
        → length x'.edges < u32
        → Tidy Born x
        → Looped i nodes x nodes' x'
    unfolding expand_nodes
    expand_nodes-Looped i [] x nodes' x' e small tidy =
        subst (λ p. Looped i [] x p.0 p.1)
          (expand_nodes-nil g s ply remaining layers i x nodes' x' e)
          (record { keeps = Keeps-refl x; tidy = tidy; each = λ j n at. absurd (cc) })
    expand_nodes-Looped i (n ∷ nodes) x nodes' x' e small tidy =
        let f = expand_nodes-First g s ply remaining layers i n nodes x nodes' x' e in
        let pos = replay g f.path s.start in
        let later = expand_nodes-longer (suc i) nodes _ f.rest x' f.ends in
        let (k, t, p) =
          expand_node-Passed s remaining i n pos x Born (λ m. (f.path, f.found, refl)) tidy
            (omega arith) in
        subst (λ ns. Looped i (n ∷ nodes) x ns x') (sym f.first)
          (Looped-cons i n _ nodes f.rest f.path x _ x' f.found k p
            (expand_nodes-Looped (suc i) nodes _ f.rest x' f.ends small t))
