-- ===== src/LineOdds/Sound.antt =====
-- TargetGraph.cpp, `expand`: where the edges to the next layer lead.
use out_of_book.Prelude.{
  ℕ, ◌%◌, ◌≤◌, ◌<◌, ◌≡◌, ◌∙◌, sym, List, [], ◌∷◌, ◌++◌, Bool, true, false, ◌==◌, if◌then◌else◌,
  none, some, length, All, All-append, length-append, arith, refl, Bool-cases, Option-cases, inl,
  inr,
}
use mathlib.Core.Path.{subst}
use mathlib.Core.Option.{some_inj}
use out_of_book.Spill.{u32}
use out_of_book.LineOdds.Graph.{Edge, Node}
use out_of_book.LineOdds.Forward.{Expansion, find_seen, link}

-- What holds of the next layer and the edges to it while a layer is expanded.
pub record IsSound (x : Expansion) : Type 0 where
  pub seen : All (λ p. p.1 < length x.next) x.seen
  pub children : All (λ e. e.child < length x.next) x.edges
  pub dead : All (λ n. n.alive ≡ false) x.next

find_seen-All :
    (key width : ℕ) (seen : List (ℕ × ℕ)) (v : ℕ)
    → All (λ p. p.1 < width) seen
    → find_seen key seen ≡ some v
    → v < width
unfolding find_seen
find_seen-All key width [] v h e = absurd (cc)
find_seen-All key width ((k, w) ∷ seen) v h e = elim (Bool-cases (k == key)) [
  | inl t ↦
      let found : find_seen key ((k, w) ∷ seen) ≡ some w = rw (t, find_seen) refl in
      subst (λ n. n < width) (some_inj.0 (sym found ∙ e)) h.0
  | inr t ↦
      let later : find_seen key ((k, w) ∷ seen) ≡ find_seen key seen = rw (t, find_seen) refl in
      find_seen-All key width seen v h.1 (sym later ∙ e)
]

-- An expansion that is sound and has at least the edges of `x`.
abbrev pub Sound : Expansion → Expansion → Type 0
Sound x x' = IsSound x' × (length x.edges ≤ length x'.edges)

module _ {A : Type 0} (f : A → ℕ) where
  wider : (xs : List A) (m n : ℕ) → m ≤ n → All (λ x. f x < m) xs → All (λ x. f x < n) xs
  wider [] m n le h = tt
  wider (x ∷ xs) m n le h = (omega arith, wider xs m n le h.1)

module _ (key move parent : ℕ) (x : Expansion) where
  link_seen :
      (child : ℕ)
      → child < length x.next
      → IsSound x
      → Sound x (link key move parent (some child) x)
  unfolding link
  link_seen child lt s = (
    record {
      seen = s.seen;
      children =
          All-append (λ (e : Edge). e.child < length x.next) x.edges (_ ∷ []) s.children (lt, tt);
      dead = s.dead;
    },
    omega (arith, length-append x.edges (record { child = child; move = move } ∷ [])),
  )

  link_new : IsSound x → Sound x (link key move parent none x)
  unfolding link
  link_new s =
      let child = length x.next % u32 in
      let node : Node = record {
        key = key;
        parent = parent;
        first_edge = 0;
        edge_count = 0;
        move = move;
        alive = false;
      } in
      let longer = length-append x.next (node ∷ []) in
      let grown : length x.next ≤ length (x.next ++ node ∷ []) = omega arith in
      let placed : child < length (x.next ++ node ∷ []) = omega arith in
      (
        record {
          seen = (placed, wider (λ (p : ℕ × ℕ). p.1) x.seen _ _ grown s.seen);
          children =
              All-append (λ (e : Edge). e.child < length (x.next ++ node ∷ [])) x.edges (_ ∷ [])
                (wider (λ (e : Edge). e.child) x.edges _ _ grown s.children) (placed, tt);
          dead = All-append (λ (n : Node). n.alive ≡ false) x.next (node ∷ []) s.dead (refl, tt);
        },
        omega (arith, length-append x.edges (record { child = child; move = move } ∷ [])),
      )

  link-Sound : IsSound x → Sound x (link key move parent (find_seen key x.seen) x)
  link-Sound s = elim (Option-cases (find_seen key x.seen)) [
    | inl e ↦ rw e (link_new s)
    | inr (child, e) ↦
        rw e (link_seen child (find_seen-All key (length x.next) x.seen child s.seen e) s)
  ]

pub if-Sound :
    (key move parent : ℕ) (x : Expansion) (b : Bool)
    → IsSound x
    → Sound x (if b then link key move parent (find_seen key x.seen) x else x)
if-Sound key move parent x true s = link-Sound key move parent x s
if-Sound key move parent x false s = (s, omega arith)

pub Sound-trans : (x y z : Expansion) → Sound x y → (IsSound y → Sound y z) → Sound x z
Sound-trans x y z (s, le) h = ((h s).0, omega (arith, (h s).1))
