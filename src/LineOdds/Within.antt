-- ===== src/LineOdds/Within.antt =====
-- TargetGraph.cpp, `expand`: what a list of nodes or edges keeps as it grows, and what one `admit` adds.
use out_of_book.Prelude.{
  ℕ, zero, suc, ◌%◌, ◌≤◌, ◌<◌, ◌≡◌, ◌∙◌, sym, List, [], ◌∷◌, ◌++◌, false, ◌==◌, none, some, length,
  get_elem?, length-append, arith, refl, Bool-cases, Option-cases, inl, inr, ◌⊎◌, ==_iff,
}
use mathlib.Core.Path.{subst}
use mathlib.Core.Option.{some_inj}
use out_of_book.Spill.{u32}
use out_of_book.LineOdds.Graph.{Edge, Node}
use out_of_book.LineOdds.Forward.{Expansion, find_seen, link}

module _ {A : Type 0} where
  -- Every place of the first list has the same in the second.
  abbrev pub Within : List A → List A → Type 0
  Within xs ys = (i : ℕ) (x : A) → get_elem? xs i ≡ some x → get_elem? ys i ≡ some x

  pub append-Within : (xs ys : List A) → Within xs (xs ++ ys)
  append-Within [] ys i x e = absurd (cc)
  append-Within (a ∷ xs) ys zero x e = e
  append-Within (a ∷ xs) ys (suc i) x e = append-Within xs ys i x e

  pub get_elem?-behind : (xs : List A) (x : A) → get_elem? (xs ++ x ∷ []) (length xs) ≡ some x
  get_elem?-behind [] x = refl
  get_elem?-behind (a ∷ xs) x = get_elem?-behind xs x

  pub get_elem?-append_one :
      (xs : List A) (y : A) (i : ℕ) (x : A)
      → get_elem? (xs ++ y ∷ []) i ≡ some x
      → (get_elem? xs i ≡ some x) ⊎ (y ≡ x)
  get_elem?-append_one [] y zero x e = inr (some_inj.0 e)
  get_elem?-append_one [] y (suc i) x e = absurd (cc)
  get_elem?-append_one (a ∷ xs) y zero x e = inl e
  get_elem?-append_one (a ∷ xs) y (suc i) x e = get_elem?-append_one xs y i x e

  pub get_elem?-within : (xs : List A) (i : ℕ) (x : A) → get_elem? xs i ≡ some x → i < length xs
  get_elem?-within [] i x e = absurd (cc)
  get_elem?-within (a ∷ xs) zero x e = omega arith
  get_elem?-within (a ∷ xs) (suc i) x e = omega (arith, get_elem?-within xs i x e)

-- The node at a place, with a key.
abbrev pub KeyAt : List Node → ℕ → ℕ → Type 0
KeyAt nodes i k = (n : Node) × (get_elem? nodes i ≡ some n) × (n.key ≡ k)

pub KeyAt-Within :
    (nodes nodes' : List Node) (i k : ℕ) → Within nodes nodes' → KeyAt nodes i k → KeyAt nodes' i k
KeyAt-Within nodes nodes' i k w (n, at, e) = (n, w i n at, e)

-- The map finds the nodes of the next layer by their keys, every node came with an edge, and has a
-- parent, a move and a key for which `Born` holds.
pub record Tidy (Born : ℕ → ℕ → ℕ → Type 0) (x : Expansion) : Type 0 where
  pub born : (i : ℕ) (n : Node) → get_elem? x.next i ≡ some n → Born n.parent n.move n.key
  pub seen : (k v : ℕ) → find_seen k x.seen ≡ some v → KeyAt x.next v k
  pub fewer : length x.next ≤ length x.edges

-- What an expansion keeps of an earlier one.
pub record Keeps (x x' : Expansion) : Type 0 where
  pub edges : Within x.edges x'.edges
  pub next : Within x.next x'.next
  pub longer : length x.edges ≤ length x'.edges

pub Keeps-refl : (x : Expansion) → Keeps x x
Keeps-refl x = record { edges = λ i e at. at; next = λ i e at. at; longer = omega arith }

pub Keeps-trans : (x y z : Expansion) → Keeps x y → Keeps y z → Keeps x z
Keeps-trans x y z h h' = record {
  edges = λ i e at. h'.edges i e (h.edges i e at);
  next = λ i e at. h'.next i e (h.next i e at);
  longer = omega (arith, h.longer, h'.longer);
}

-- One more edge, by a move, to a node with a key.
pub record Linked (Born : ℕ → ℕ → ℕ → Type 0) (k move : ℕ) (x x' : Expansion) : Type 0 where
  pub keeps : Keeps x x'
  pub tidy : Tidy Born x'
  pub edge : Edge
  pub at : get_elem? x'.edges (length x.edges) ≡ some edge
  pub by : edge.move ≡ move
  pub to : KeyAt x'.next edge.child k
  pub one : length x'.edges ≡ suc (length x.edges)

-- The map with one more key.
found_later :
    (k k' child v : ℕ) (seen : List (ℕ × ℕ)) (nodes : List Node)
    → KeyAt nodes child k
    → ((k' v : ℕ) → find_seen k' seen ≡ some v → KeyAt nodes v k')
    → find_seen k' ((k, child) ∷ seen) ≡ some v
    → KeyAt nodes v k'
unfolding find_seen
found_later k k' child v seen nodes at h e = elim (Bool-cases (k == k')) [
  | inl t ↦
      let found : find_seen k' ((k, child) ∷ seen) ≡ some child = rw (t, find_seen) refl in
      subst (λ v. KeyAt nodes v k') (some_inj.0 (sym found ∙ e))
        (subst (KeyAt nodes child) ((==_iff k k').0 t) at)
  | inr t ↦
      let later : find_seen k' ((k, child) ∷ seen) ≡ find_seen k' seen = rw (t, find_seen) refl in
      h k' v (sym later ∙ e)
]

module _ (Born : ℕ → ℕ → ℕ → Type 0) (k move parent : ℕ) (x : Expansion) where
  link-found :
      (child : ℕ)
      → KeyAt x.next child k
      → Tidy Born x
      → Linked Born k move x (link k move parent (some child) x)
  unfolding link
  link-found child at t =
      let edge : Edge = record { child = child; move = move } in
      let longer = length-append x.edges (edge ∷ []) in
      record {
        keeps = record {
          edges = append-Within x.edges (edge ∷ []);
          next = λ i e at. at;
          longer = omega arith;
        };
        tidy = record { born = t.born; seen = t.seen; fewer = omega (arith, t.fewer) };
        edge = edge;
        at = get_elem?-behind x.edges edge;
        by = refl;
        to = at;
        one = omega arith;
      }

  link-made :
      length x.edges < u32
      → Born parent move k
      → Tidy Born x
      → Linked Born k move x (link k move parent none x)
  unfolding link
  link-made small b t =
      let child = length x.next % u32 in
      let node : Node = record {
        key = k;
        parent = parent;
        first_edge = 0;
        edge_count = 0;
        move = move;
        alive = false;
      } in
      let edge : Edge = record { child = child; move = move } in
      let longer = length-append x.edges (edge ∷ []) in
      let longer' = length-append x.next (node ∷ []) in
      let exact : length x.next ≡ child = omega (arith, t.fewer) in
      let placed : KeyAt (x.next ++ node ∷ []) child k = (
        node,
        subst (λ i. get_elem? (x.next ++ node ∷ []) i ≡ some node) exact
            (get_elem?-behind x.next node),
        refl,
      ) in
      record {
        keeps = record {
          edges = append-Within x.edges (edge ∷ []);
          next = append-Within x.next (node ∷ []);
          longer = omega arith;
        };
        tidy = record {
          born = λ i n at. elim (get_elem?-append_one x.next node i n at) [
            | inl at' ↦ t.born i n at'
            | inr e ↦ subst (λ (n : Node). Born n.parent n.move n.key) e b
          ];
          seen = λ k' v e.
              found_later k k' child v x.seen (x.next ++ node ∷ []) placed
                (λ k' v e.
                  KeyAt-Within x.next _ v k' (append-Within x.next (node ∷ [])) (t.seen k' v e))
                e;
          fewer = omega (arith, t.fewer);
        };
        edge = edge;
        at = get_elem?-behind x.edges edge;
        by = refl;
        to = placed;
        one = omega arith;
      }

  pub link-Linked :
      length x.edges < u32
      → Born parent move k
      → Tidy Born x
      → Linked Born k move x (link k move parent (find_seen k x.seen) x)
  link-Linked small b t = elim (Option-cases (find_seen k x.seen)) [
    | inl e ↦ rw e (link-made small b t)
    | inr (child, e) ↦ rw e (link-found child (t.seen k child e) t)
  ]
