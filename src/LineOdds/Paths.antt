-- ===== src/LineOdds/Paths.antt =====
-- TargetGraph.cpp, `positionAt`: the moves to a node and the position that they lead to.
use out_of_book.Prelude.{
  ℕ, ◌≡◌, ◌∙◌, ap, sym, List, [], ◌∷◌, ◌++◌, Option, none, some, get_elem?, refl, Option-cases, inl,
  inr,
}
use out_of_book.LineOdds.Graph.{Node, Layer}
use out_of_book.LineOdds.Forward.{Game, Expansion, no_expansion, Search, replay, path_to}
use out_of_book.LineOdds.Covers.{Looped}

module _ (g : Game) where
  -- Every node of the first layer has a path, to a position with the node's key.
  abbrev pub Tracked : Search g → List Layer → Type 0
  Tracked s [] = Unit
  Tracked s (here ∷ earlier) =
      (i : ℕ) (n : Node)
      → get_elem? here.nodes i ≡ some n
      → (path : List ℕ) × (path_to g (here ∷ earlier) i ≡ some path)
        × (g.key (replay g path s.start) ≡ n.key)

  replay-append :
      (path : List ℕ) (m : ℕ) (pos : g.Position)
      → replay g (path ++ m ∷ []) pos ≡ g.do_move (replay g path pos) m
  unfolding replay
  replay-append [] m pos = refl
  replay-append (a ∷ path) m pos = replay-append path m (g.do_move pos a)

  abbrev extend : ℕ → Option (List ℕ) → Option (List ℕ)
  extend m none = none
  extend m (some path) = some (path ++ m ∷ [])

  path_to-step :
      (here before : Layer) (earlier : List Layer) (i : ℕ) (n : Node)
      → get_elem? here.nodes i ≡ some n
      → path_to g (here ∷ before ∷ earlier) i
        ≡ extend n.move (path_to g (before ∷ earlier) n.parent)
  unfolding path_to
  path_to-step here before earlier i n at =
      elim (Option-cases (path_to g (before ∷ earlier) n.parent)) [
        | inl t ↦ rw (at, path_to) (rw t refl)
        | inr (path, t) ↦ rw (at, path_to) (rw t refl)
      ]

  -- The path through a layer is the same once the edges of its nodes are there.
  path_to-Looped :
      (s : Search g) (ply n : ℕ) (earlier : List Layer) (here : Layer) (nodes : List Node)
      (x : Expansion) (p : ℕ) (path : List ℕ)
      → Looped g s ply n (here ∷ earlier) 0 here.nodes no_expansion nodes x
      → path_to g (here ∷ earlier) p ≡ some path
      → path_to g (record { nodes = nodes; edges = x.edges } ∷ earlier) p ≡ some path
  unfolding path_to
  path_to-Looped s ply n [] here nodes x p path l e = e
  path_to-Looped s ply n (before ∷ earlier) here nodes x p path l e =
      elim (Option-cases (get_elem? here.nodes p)) [
        | inl t ↦
            let lost : path_to g (here ∷ before ∷ earlier) p ≡ none = rw (t, path_to) refl in
            absurd (cc)
        | inr (nd, t) ↦
            let (nd', at, path', found, passed) = l.each p nd t in
            let here' : Layer = record { nodes = nodes; edges = x.edges } in
            let same : path_to g (here' ∷ before ∷ earlier) p
                ≡ path_to g (here ∷ before ∷ earlier) p =
              path_to-step here' before earlier p nd' at
              ∙ ap (λ m. extend m (path_to g (before ∷ earlier) nd'.parent)) passed.same_move
              ∙ ap (λ q. extend nd.move (path_to g (before ∷ earlier) q)) passed.same_parent
              ∙ sym (path_to-step here before earlier p nd t) in
            same ∙ e
      ]

  -- The nodes of the next layer have paths, through their parents.
  pub next-Tracked :
      (s : Search g) (ply n : ℕ) (earlier : List Layer) (here : Layer) (nodes : List Node)
      (x : Expansion)
      → Looped g s ply n (here ∷ earlier) 0 here.nodes no_expansion nodes x
      → Tracked s (
          record { nodes = x.next; edges = [] }
          ∷ record { nodes = nodes; edges = x.edges }
          ∷ earlier)
  next-Tracked s ply n earlier here nodes x l i nd at =
      let (path, found, leads) = l.tidy.born i nd at in
      let here' : Layer = record { nodes = nodes; edges = x.edges } in
      let next : Layer = record { nodes = x.next; edges = [] } in
      (
        path ++ nd.move ∷ [],
        path_to-step next here' earlier i nd at
            ∙ ap (extend nd.move)
                (path_to-Looped s ply n earlier here nodes x nd.parent path l found),
        ap g.key (replay-append path nd.move s.start) ∙ leads,
      )
