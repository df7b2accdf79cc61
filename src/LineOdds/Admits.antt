-- ===== src/LineOdds/Admits.antt =====
-- TargetGraph.cpp, `expand`: the edges that the moves at one node add.
use out_of_book.Prelude.{
  ℕ, ◌%◌, ◌≤◌, ◌<◌, ◌≡◌, ◌∙◌, ap, sym, List, [], ◌∷◌, true, false, ◌==◌, Option, none, some, length,
  get_elem?, length-append, arith, refl, Bool-cases, inl, inr, ==_iff,
}
use mathlib.Core.Path.{subst}
use mathlib.Core.Option.{some_inj}
use mathlib.Core.List.{Memᴰ}
use mathlib.Core.List.Memᴰ.{head, tail, not-nil, cases_cons}
use out_of_book.Spill.{u32}
use out_of_book.LineOdds.Graph.{Edge, Node}
use out_of_book.LineOdds.Forward.{Game, Expansion, link, admitted, admit, admit_all}
use out_of_book.LineOdds.Within.{
  get_elem?-within, KeyAt, KeyAt-Within, Tidy, Keeps, Keeps-refl, Keeps-trans, Linked, link-Linked,
}

link-longer :
    (k move parent : ℕ) (found : Option ℕ) (x : Expansion)
    → length x.edges ≤ length (link k move parent found x).edges
unfolding link
link-longer k move parent none x =
    omega (arith, length-append x.edges (record { child = length x.next % u32; move = move } ∷ []))
link-longer k move parent (some child) x =
    omega (arith, length-append x.edges (record { child = child; move = move } ∷ []))

module _ (g : Game) where
  module _ (remaining : ℕ) (pos : g.Position) (parent : ℕ) where
    abbrev Admits : ℕ → Type 0
    Admits m = admitted g remaining (g.do_move pos m) ≡ true

    abbrev walk_move : ℕ → Expansion → Expansion
    walk_move = admit g remaining pos parent

    abbrev walk_moves : List ℕ → Expansion → Expansion
    walk_moves = admit_all g remaining pos parent

    -- The edge of one of the moves, which is admitted, to the node with the key it leads to.
    abbrev Fits : List ℕ → List Node → Edge → Type 0
    Fits moves next edge =
        Memᴰ edge.move moves
        × Admits edge.move
        × KeyAt next edge.child (g.key (g.do_move pos edge.move))

    -- What the moves of a node add to an expansion.
    pub record Adds (Born : ℕ → ℕ → ℕ → Type 0) (moves : List ℕ) (x x' : Expansion) : Type 0 where
      pub keeps : Keeps x x'
      pub tidy : Tidy Born x'
      pub sound :
          (e : ℕ) (edge : Edge)
          → length x.edges ≤ e
          → get_elem? x'.edges e ≡ some edge
          → Fits moves x'.next edge
      pub complete :
          (m : ℕ)
          → Memᴰ m moves
          → Admits m
          → (e : ℕ) × (edge : Edge) × (length x.edges ≤ e)
            × (get_elem? x'.edges e ≡ some edge)
            × KeyAt x'.next edge.child (g.key (g.do_move pos m))

    admit-longer : (m : ℕ) (x : Expansion) → length x.edges ≤ length (walk_move m x).edges
    unfolding admit
    admit-longer m x = elim (Bool-cases (admitted g remaining (g.do_move pos m))) [
      | inl t ↦ rw t (link-longer (g.key (g.do_move pos m)) m parent _ x)
      | inr t ↦ rw t (omega arith)
    ]

    pub admit_all-longer :
        (moves : List ℕ) (x : Expansion) → length x.edges ≤ length (walk_moves moves x).edges
    unfolding admit_all
    admit_all-longer [] x = omega arith
    admit_all-longer (m ∷ moves) x =
        omega (arith, admit-longer m x, admit_all-longer moves (walk_move m x))

    module _ (Born : ℕ → ℕ → ℕ → Type 0) where
      Adds-nil : (x : Expansion) → Tidy Born x → Adds Born [] x x
      Adds-nil x t = record {
        keeps = Keeps-refl x;
        tidy = t;
        sound = λ e edge le at. absurd (omega (arith, get_elem?-within x.edges e edge at));
        complete = λ m mem a. absurd (not-nil mem);
      }

      Adds-passed :
          (m : ℕ) (moves : List ℕ) (x x' : Expansion)
          → admitted g remaining (g.do_move pos m) ≡ false
          → Adds Born moves x x'
          → Adds Born (m ∷ moves) x x'
      Adds-passed m moves x x' bars a = record {
        keeps = a.keeps;
        tidy = a.tidy;
        sound = λ e edge le at. let (mem, ok, to) = a.sound e edge le at in (tail mem, ok, to);
        complete = λ m' mem ok. elim (cases_cons mem) [
          | inl same ↦ let bad : Admits m = subst Admits same ok in absurd (cc)
          | inr mem' ↦ a.complete m' mem' ok
        ];
      }

      first-Fits :
          (m : ℕ) (moves : List ℕ) (next : List Node) (l edge : Edge)
          → Admits m
          → l.move ≡ m
          → KeyAt next l.child (g.key (g.do_move pos m))
          → l ≡ edge
          → Fits (m ∷ moves) next edge
      first-Fits m moves next l edge ok by to same = subst (Fits (m ∷ moves) next) same (
        head by,
        subst Admits (sym by) ok,
        subst (λ m. KeyAt next l.child (g.key (g.do_move pos m))) (sym by) to,
      )

      Adds-taken :
          (m : ℕ) (moves : List ℕ) (x x₁ x' : Expansion)
          → Admits m
          → Linked Born (g.key (g.do_move pos m)) m x x₁
          → Adds Born moves x₁ x'
          → Adds Born (m ∷ moves) x x'
      Adds-taken m moves x x₁ x' ok l a =
          let at' : get_elem? x'.edges (length x.edges) ≡ some l.edge =
            a.keeps.edges (length x.edges) l.edge l.at in
          let to' = KeyAt-Within x₁.next x'.next l.edge.child _ a.keeps.next l.to in
          record {
            keeps = Keeps-trans x x₁ x' l.keeps a.keeps;
            tidy = a.tidy;
            sound = λ e edge le at. elim (Bool-cases (length x.edges == e)) [
              | inl t ↦
                  let here : length x.edges ≡ e = (==_iff (length x.edges) e).0 t in
                  first-Fits m moves x'.next l.edge edge ok l.by to'
                    (some_inj.0 (sym at' ∙ ap (get_elem? x'.edges) here ∙ at))
              | inr t ↦
                  let behind : length x₁.edges ≤ e = ground (arith, l.one) in
                  let (mem, ok', to) = a.sound e edge behind at in (tail mem, ok', to)
            ];
            complete = λ m' mem ok'. elim (cases_cons mem) [
              | inl same ↦ (
                length x.edges,
                l.edge,
                omega arith,
                at',
                subst (λ m. KeyAt x'.next l.edge.child (g.key (g.do_move pos m))) (sym same) to',
              )
              | inr mem' ↦
                  let (e, edge, le, at, to) = a.complete m' mem' ok' in
                  (e, edge, omega (arith, l.one), at, to)
            ];
          }

      admit-taken :
          (m : ℕ) (x : Expansion)
          → Admits m
          → length x.edges < u32
          → Born parent m (g.key (g.do_move pos m))
          → Tidy Born x
          → Linked Born (g.key (g.do_move pos m)) m x (walk_move m x)
      unfolding admit
      admit-taken m x ok small b t =
          rw ok (link-Linked Born (g.key (g.do_move pos m)) m parent x small b t)

      admit-passed :
          (m : ℕ) (x : Expansion)
          → admitted g remaining (g.do_move pos m) ≡ false
          → walk_move m x ≡ x
      unfolding admit
      admit-passed m x bars = rw bars refl

      pub admit_all-Adds :
          (moves : List ℕ) (x : Expansion)
          → length (walk_moves moves x).edges < u32
          → ((m : ℕ) → Born parent m (g.key (g.do_move pos m)))
          → Tidy Born x
          → Adds Born moves x (walk_moves moves x)
      unfolding admit_all
      admit_all-Adds [] x small b t = Adds-nil x t
      admit_all-Adds (m ∷ moves) x small b t =
          elim (Bool-cases (admitted g remaining (g.do_move pos m))) [
            | inl ok ↦
                let l =
                  admit-taken m x ok
                    (omega (arith, admit-longer m x, admit_all-longer moves (walk_move m x))) (b m)
                    t in
                Adds-taken m moves x (walk_move m x) _ ok l
                  (admit_all-Adds moves (walk_move m x) small b l.tidy)
            | inr bars ↦
                let same = sym (admit-passed m x bars) in
                let small' =
                  subst (λ x. length (walk_moves moves x).edges < u32) (sym same) small in
                subst (λ y. Adds Born (m ∷ moves) x (walk_moves moves y)) same
                  (Adds-passed m moves x _ bars (admit_all-Adds moves x small' b t))
          ]
