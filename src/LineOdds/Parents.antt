-- ===== src/LineOdds/Parents.antt =====
-- TargetGraph.cpp: the parents of the nodes, which `positionAt` follows.
use out_of_book.Prelude.{
  ltb, ℕ, zero, suc, ◌+◌, ◌≤◌, ◌<◌, ◌≡◌, ◌≢◌, sym, List, [], ◌∷◌, ◌++◌, Bool, true, false,
  if◌then◌else◌, Option, none, some, length, drop-get_elem?, All, All-append, All-get_elem?, arith,
  refl, inl, inr,
}
use mathlib.Core.Path.{subst}
use out_of_book.Spill.{u32}
use out_of_book.LineOdds.Graph.{Node, Layer}
use out_of_book.LineOdds.Forward.{
  Game, ended, throws, strayed, wrapped, check_counter, too_late, too_many, or_strayed, Expansion,
  no_expansion, find_seen, link, Search, admit, admit_all, moves_at, replay, path_to, expand_node,
  check_limits, expand_nodes, expand_from, forward,
}
use out_of_book.LineOdds.Walks.{bind-strayed}
use out_of_book.LineOdds.Laid.{expand_nodes-First, expand_nodes-nil, expand_nodes-Sound}

-- The parents of nodes are among the first `width` of the layer before.
abbrev HaveParents : ℕ → List Node → Type 0
HaveParents width nodes = All (λ n. n.parent < width) nodes

abbrev AreChained : List Layer → Type 0
AreChained [] = Unit
AreChained (first ∷ []) = Unit
AreChained (here ∷ before ∷ earlier) =
    HaveParents (length before.nodes) here.nodes × AreChained (before ∷ earlier)

link-HaveParents :
    (width k move parent : ℕ) (found : Option ℕ) (x : Expansion)
    → parent < width
    → HaveParents width x.next
    → HaveParents width (link k move parent found x).next
unfolding link
link-HaveParents width k move parent none x lt h =
    All-append (λ (n : Node). n.parent < width) x.next (_ ∷ []) h (lt, tt)
link-HaveParents width k move parent (some child) x lt h = h

if-HaveParents :
    (width k move parent : ℕ) (x : Expansion) (b : Bool)
    → parent < width
    → HaveParents width x.next
    → HaveParents width (if b then link k move parent (find_seen k x.seen) x else x).next
if-HaveParents width k move parent x true lt h = link-HaveParents width k move parent _ x lt h
if-HaveParents width k move parent x false lt h = h

limits-strayed :
    (skips late many : Bool)
    → (if skips
        then ended (tt {0})
        else if late
        then throws too_late
        else if many
        then throws too_many
        else ended tt)
      ≢ strayed
limits-strayed true late many = λ e. cc
limits-strayed false true many = λ e. cc
limits-strayed false false true = λ e. cc
limits-strayed false false false = λ e. cc

check_counter-strayed : (i : ℕ) → check_counter i ≢ strayed
unfolding check_counter
check_counter-strayed i = counter-strayed (ltb i u32)
  where
    counter-strayed : (b : Bool) → (if b then ended (tt {0}) else wrapped) ≢ strayed
    counter-strayed true e = absurd (cc)
    counter-strayed false e = absurd (cc)

or_strayed-some : {A : Type 0} (o : Option A) (a : A) → o ≡ some a → or_strayed o ≢ strayed
unfolding or_strayed
or_strayed-some none a e = λ e'. cc
or_strayed-some (some b) a e = λ e'. cc

module _ (g : Game) where
  path_to-exists :
      (here : Layer) (earlier : List Layer) (i : ℕ)
      → AreChained (here ∷ earlier)
      → i < length here.nodes
      → (path : List ℕ) × (path_to g (here ∷ earlier) i ≡ some path)
  unfolding path_to
  path_to-exists here [] i h lt = ([], refl)
  path_to-exists here (before ∷ earlier) i (parents, h) lt =
      let (n, at, _) = drop-get_elem? i here.nodes lt in
      let (path, found) =
        path_to-exists before earlier n.parent h (
          All-get_elem? (λ (n : Node). n.parent < length before.nodes) here.nodes i n parents at) in
      (path ++ n.move ∷ [], rw (at, path_to) (rw found refl))

  module _ (width remaining : ℕ) (pos : g.Position) (parent : ℕ) (lt : parent < width) where
    admit-HaveParents :
        (m : ℕ) (x : Expansion)
        → HaveParents width x.next
        → HaveParents width (admit g remaining pos parent m x).next
    unfolding admit
    admit-HaveParents m x h = if-HaveParents width (g.key (g.do_move pos m)) m parent x _ lt h

    admit_all-HaveParents :
        (moves : List ℕ) (x : Expansion)
        → HaveParents width x.next
        → HaveParents width (admit_all g remaining pos parent moves x).next
    unfolding admit_all
    admit_all-HaveParents [] x h = h
    admit_all-HaveParents (m ∷ moves) x h = admit_all-HaveParents moves _ (admit-HaveParents m x h)

  expand_node-HaveParents :
      (s : Search g) (width remaining i : ℕ) (n : Node) (pos : g.Position) (x : Expansion)
      → i < width
      → HaveParents width x.next
      → HaveParents width (expand_node g s remaining i n pos x).1.next
        × ((expand_node g s remaining i n pos x).0.parent ≡ n.parent)
  unfolding expand_node
  expand_node-HaveParents s width remaining i n pos x lt h =
      (admit_all-HaveParents width remaining pos i lt (moves_at g s pos n.key) x h, refl)

  check_limits-strayed :
      (s : Search g) (ply i : ℕ) (x : Expansion) → check_limits g s ply i x ≢ strayed
  unfolding check_limits
  check_limits-strayed s ply i x = limits-strayed _ _ _

  module _ (s : Search g) (ply remaining : ℕ) (here : Layer) (earlier : List Layer) where
    expand_nodes-strayed :
        (i : ℕ) (nodes : List Node) (x : Expansion)
        → AreChained (here ∷ earlier)
        → i + length nodes ≤ length here.nodes
        → expand_nodes g s ply remaining (here ∷ earlier) i nodes x ≢ strayed
    unfolding expand_nodes
    expand_nodes-strayed i [] x h le e = elim (bind-strayed _ _ e) [
      | inl t ↦ check_counter-strayed i t
      | inr (_, _, e₁) ↦ absurd (cc)
    ]
    expand_nodes-strayed i (n ∷ nodes) x h le e = elim (bind-strayed _ _ e) [
      | inl t ↦ check_counter-strayed i t
      | inr (_, _, e₀) ↦ elim (bind-strayed _ _ e₀) [
        | inl t ↦ check_limits-strayed s ply i x t
        | inr (_, _, e₁) ↦ elim (bind-strayed _ _ e₁) [
          | inl t ↦
              let (path, found) = path_to-exists here earlier i h (omega arith) in
              or_strayed-some _ path found t
          | inr (path, _, e₂) ↦ elim (bind-strayed _ _ e₂) [
            | inl t ↦ expand_nodes-strayed (suc i) nodes _ h (omega arith) t
            | inr (_, _, e₃) ↦ absurd (cc)
          ]
        ]
      ]
    ]

    expand_nodes-HaveParents :
        (width i : ℕ) (nodes : List Node) (x : Expansion) (nodes' : List Node) (x' : Expansion)
        → expand_nodes g s ply remaining (here ∷ earlier) i nodes x ≡ ended (nodes', x')
        → i + length nodes ≤ width
        → HaveParents width x.next
        → HaveParents width x'.next × ((w : ℕ) → HaveParents w nodes → HaveParents w nodes')
    unfolding expand_nodes
    expand_nodes-HaveParents width i [] x nodes' x' e le h =
        let same = expand_nodes-nil g s ply remaining (here ∷ earlier) i x nodes' x' e in
        (
          subst (λ p. HaveParents width p.1.next) same h,
          λ w hw. subst (λ p. HaveParents w p.0) same tt,
        )
    expand_nodes-HaveParents width i (n ∷ nodes) x nodes' x' e le h =
        let f = expand_nodes-First g s ply remaining (here ∷ earlier) i n nodes x nodes' x' e in
        let (h₁, same) =
          expand_node-HaveParents s width remaining i n (replay g f.path s.start) x (omega arith)
            h in
        let (h₂, kept) =
          expand_nodes-HaveParents width (suc i) nodes _ f.rest x' f.ends (omega arith) h₁ in
        (
          h₂,
          λ w hw.
              subst (HaveParents w) (sym f.first) (subst (λ p. p < w) (sym same) hw.0, kept w hw.1),
        )

  AreChained-head :
      (here here' : Layer) (earlier : List Layer)
      → ((w : ℕ) → HaveParents w here.nodes → HaveParents w here'.nodes)
      → AreChained (here ∷ earlier)
      → AreChained (here' ∷ earlier)
  AreChained-head here here' [] kept h = tt
  AreChained-head here here' (before ∷ earlier) kept (parents, h) =
      (kept (length before.nodes) parents, h)

  expand_from-strayed :
      (s : Search g) (n ply : ℕ) (earlier : List Layer) (here : Layer)
      → AreChained (here ∷ earlier)
      → expand_from g s n ply earlier here ≢ strayed
  unfolding expand_from
  expand_from-strayed s zero ply earlier here h e = absurd (cc)
  expand_from-strayed s (suc n) ply earlier here h e = elim (bind-strayed _ _ e) [
    | inl t ↦ expand_nodes-strayed s ply n here earlier 0 here.nodes no_expansion h (omega arith) t
    | inr ((nodes, x), loop, e₁) ↦ elim (bind-strayed _ _ e₁) [
      | inl t ↦
          let (parents, kept) =
            expand_nodes-HaveParents s ply n here earlier (length here.nodes) 0 here.nodes
              no_expansion nodes x loop (omega arith) tt in
          let (_, long) =
            expand_nodes-Sound g s ply n (here ∷ earlier) 0 here.nodes no_expansion nodes x loop
              (record { seen = tt; children = tt; dead = tt }) in
          expand_from-strayed s n (suc ply) _ _
            (
              subst (λ w. HaveParents w x.next) (sym long) parents,
              AreChained-head here (record { nodes = nodes; edges = x.edges }) earlier kept h,
            )
            t
      | inr (_, _, e₂) ↦ absurd (cc)
    ]
  ]

  -- The forward pass of the constructor never reads out of range, whatever the book, the clock and
  -- the test answer: it ends, or one of the two limits throws, or a layer has so many nodes that
  -- their counter of 32 bits wraps around. Up to there `positionAt` finds every parent.
  pub forward-strayed : (s : Search g) (target_ply : ℕ) → forward g s target_ply ≢ strayed
  unfolding forward
  forward-strayed s target_ply = expand_from-strayed s target_ply 0 [] _ tt
