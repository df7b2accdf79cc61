-- ===== src/GenerateOtb/Walk/Depth.antt =====
-- generate_otb.cpp: how deep the walk can go.
use out_of_book.Prelude.{
  ℕ, zero, suc, ◌+◌, ◌≤◌, ◌≡◌, ◌∙◌, ◌⊎◌, List, [], ◌∷◌, Bool, true, false, ◌==◌, if◌then◌else◌,
  Option, none, some, length, drop, get_elem?, arith, refl, ap, Bool-cases, Option-cases, inl, inr,
  All,
}
use mathlib.Core.Option.{some_inj}
use out_of_book.Spill.{SpillRecord}
use out_of_book.GenerateOtb.Index.{NodeClassification, Entry}
use out_of_book.GenerateOtb.Walk.{
  Node, Walk, mark_visited, claim, enter, collect, expand, expand_children, build_node, dfs_at, dfs,
  insert_record, resolve, ChildRef, take_move, drop_move, empty_node, termination, run_of,
  leaf_node, for_each, leaf_step,
}
use out_of_book.GenerateOtb.Walk.Entries.{RecordFits}
use out_of_book.GenerateOtb.Walk.Blobs.{Later, Fresh, Extends, Grows, enter-Extends, dfs-Extends}

abbrev pub open_place : Entry → ℕ
open_place e = if e.visited then 0 else 1

-- The entries that a walk may still claim.
unfoldable pub unvisited : List Entry → ℕ
unvisited [] = 0
unvisited (e ∷ es) = open_place e + unvisited es

Later-unvisited :
    (records : List SpillRecord) (out : List ℕ) (es fs : List Entry)
    → Later records out es fs
    → unvisited fs ≤ unvisited es
unfolding unvisited
Later-unvisited records out [] [] h = omega arith
Later-unvisited records out [] (f ∷ fs) h = absurd h
Later-unvisited records out (e ∷ es) [] h = absurd h
Later-unvisited records out (e ∷ es) (f ∷ fs) h =
    omega (arith, Later-unvisited records out es fs h.1, one h.0)
  where
    one : (e ≡ f) ⊎ Fresh records out e f → open_place f ≤ open_place e
    one (inl p) = omega (arith, ap open_place p)
    one (inr (a, b, c, d)) = ground arith

mark_visited-unvisited :
    (es : List Entry) (i : ℕ) (e : Entry)
    → get_elem? es i ≡ some e
    → e.visited ≡ false
    → suc (unvisited (mark_visited i es)) ≡ unvisited es
unfolding unvisited mark_visited
mark_visited-unvisited [] i e at new = absurd (cc)
mark_visited-unvisited (x ∷ es) zero e at new =
    let x_new = ap (λ y. y.visited) (some_inj.0 at) ∙ new in ground arith
mark_visited-unvisited (x ∷ es) (suc i) e at new =
    let rest = mark_visited-unvisited es i e at new in omega arith

none_unvisited :
    (es : List Entry) (i : ℕ) (e : Entry)
    → get_elem? es i ≡ some e
    → unvisited es ≡ 0
    → e.visited ≡ true
none_unvisited es i e at h = elim (Bool-cases e.visited) [
  | inl seen ↦ seen
  | inr new ↦ absurd (omega (arith, mark_visited-unvisited es i e at new))
]

abbrev pub left : Walk → ℕ
left w = unvisited w.index.entries

Extends-left : (records : List SpillRecord) (u v : Walk) → Extends records u v → left v ≤ left u
Extends-left records u v h = Later-unvisited records v.out u.index.entries v.index.entries h.later

module _ (Position : Type 0) (key : Position → ℕ) (do_move : Position → ℕ → Position) where
  abbrev Child : Type 0
  Child = ℕ → Position → Walk → Option Walk

  -- Two ways to walk a child that agree where at most `k` entries are left.
  abbrev Agree : ℕ → Child → Child → Type 0
  Agree k f g = (i : ℕ) (p : Position) (v : Walk) → left v ≤ k → f i p v ≡ g i p v

  module _ (records : List SpillRecord) (k : ℕ) (f g : Child) (agree : Agree k f g)
      (grows : Grows Position key do_move records f) where
    enter_lem :
        (c : Option ℕ) (p : Position) (u : Walk)
        → left u ≤ k
        → enter Position key do_move f c p u ≡ enter Position key do_move g c p u
    enter_lem none p u h = refl
    enter_lem (some i) p u h = agree i p u h

    collect_lem :
        (c : Option ℕ) (rs : List SpillRecord) (n : Node)
        → collect Position key do_move f c rs n ≡ collect Position key do_move g c rs n
    collect_lem none rs n = refl
    collect_lem (some i) rs n = refl

    expand_lem :
        (n : ℕ) (pos : Position) (rs : List SpillRecord) (cs : List ChildRef) (u : Walk) (nd : Node)
        → left u ≤ k
        → expand Position key do_move f n pos rs cs u nd
          ≡ expand Position key do_move g n pos rs cs u nd
    unfolding expand
    expand_lem n pos [] [] u nd h = refl
    expand_lem n pos [] (c ∷ cs) u nd h = refl
    expand_lem zero pos (r ∷ rs) cs u nd h = refl
    expand_lem (suc n) pos (r ∷ rs) [] u nd h = elim (Bool-cases (r.move == termination)) [
      | inr go ↦ ground arith
      | inl stop ↦ elim (Option-cases (insert_record r nd)) [
        | inl bad ↦ ground arith
        | inr (nd', good) ↦ let ih = expand_lem n pos rs [] u nd' h in ground arith
      ]
    ]
    expand_lem (suc n) pos (r ∷ rs) (c ∷ cs) u nd h = elim (Bool-cases (r.move == termination)) [
      | inl stop ↦ elim (Option-cases (insert_record r nd)) [
        | inl bad ↦ ground arith
        | inr (nd', good) ↦ let ih = expand_lem n pos rs (c ∷ cs) u nd' h in ground arith
      ]
      | inr go ↦
          let p = do_move pos r.move in
          let group = take_move r.move (r ∷ rs) in
          let same = enter_lem c.1 p u h in
          let same' = collect_lem c.1 group nd in
          elim (Option-cases (enter Position key do_move f c.1 p u)) [
            | inl bad ↦ ground arith
            | inr (w, entered) ↦ elim (Option-cases (collect Position key do_move f c.1 group nd)) [
              | inl bad ↦ ground arith
              | inr (nd', good) ↦
                  let less =
                    Extends-left records u w
                      (enter-Extends Position key do_move records f grows c.1 p u w entered) in
                  let ih = expand_lem n pos (drop_move r.move rs) cs w nd' (omega arith) in
                  ground arith
            ]
          ]
    ]

    expand_children_lem :
        (cs : Option (List ChildRef)) (pos : Position) (rs : List SpillRecord) (u : Walk)
        → left u ≤ k
        → expand_children Position key do_move f cs pos rs u
          ≡ expand_children Position key do_move g cs pos rs u
    unfolding expand_children
    expand_children_lem none pos rs u h = refl
    expand_children_lem (some cs) pos rs u h = expand_lem (length rs) pos rs cs u empty_node h

    leaf_node_lem :
        (o : Option Node) (u : Walk)
        → leaf_node Position key do_move f o u ≡ leaf_node Position key do_move g o u
    unfolding leaf_node
    leaf_node_lem none u = refl
    leaf_node_lem (some n) u = refl

    build_node_lem :
        (c : NodeClassification) (pos : Position) (rs : List SpillRecord) (u : Walk)
        → left u ≤ k
        → build_node Position key do_move f c pos rs u
          ≡ build_node Position key do_move g c pos rs u
    unfolding build_node
    build_node_lem NodeClassification.leaf pos rs u h =
        leaf_node_lem (for_each leaf_step rs empty_node) u
    build_node_lem NodeClassification.full pos rs u h =
        expand_children_lem (resolve Position key do_move u.index pos rs none) pos rs u h

  module _ (records : List SpillRecord) (fits : All RecordFits records) where
    abbrev walk : ℕ → Child
    walk = dfs Position key do_move records

    dfs_at_lem :
        (o : Option Entry) (f g : Child) (deep : Bool) (i : ℕ) (pos : Position) (u : Walk)
        → ((x : Entry)
            → o ≡ some x
            → x.visited ≡ false
            → Agree (left (claim i u)) f g × Grows Position key do_move records f)
        → dfs_at Position key do_move records o f deep i pos u
          ≡ dfs_at Position key do_move records o g deep i pos u
    unfolding dfs_at
    dfs_at_lem none f g deep i pos u h = refl
    dfs_at_lem (some x) f g deep i pos u h = elim (Bool-cases x.visited) [
      | inl seen ↦ rw seen refl
      | inr new ↦
          let (agree, grows) = h x refl new in
          let run = run_of (key pos) (drop x.slot records) in
          let same =
            build_node_lem records (left (claim i u)) f g agree grows x.class pos run (claim i u)
              (omega arith) in
          ground arith
    ]

    nothing_left :
        (o : Option Entry) (f g : Child) (deep deep' : Bool) (i : ℕ) (pos : Position) (u : Walk)
        → get_elem? u.index.entries i ≡ o
        → left u ≡ 0
        → dfs_at Position key do_move records o f deep i pos u
          ≡ dfs_at Position key do_move records o g deep' i pos u
    unfolding dfs_at
    nothing_left none f g deep deep' i pos u at h = refl
    nothing_left (some x) f g deep deep' i pos u at h =
        rw (none_unvisited u.index.entries i x at h) refl

    claim-left :
        (i : ℕ) (x : Entry) (u : Walk)
        → get_elem? u.index.entries i ≡ some x
        → x.visited ≡ false
        → suc (left (claim i u)) ≡ left u
    unfolding claim
    claim-left i x u at new = mark_visited-unvisited u.index.entries i x at new

    -- The walk never goes deeper than there are positions left to claim: any two limits on the depth
    -- that are at least their number give the same result.
    pub dfs-enough :
        (n m i : ℕ) (pos : Position) (u : Walk)
        → left u ≤ n
        → left u ≤ m
        → walk n i pos u ≡ walk m i pos u
    unfolding dfs
    dfs-enough zero zero i pos u h k = refl
    dfs-enough zero (suc m) i pos u h k =
        nothing_left (get_elem? u.index.entries i) _ _ true false i pos u refl (omega arith)
    dfs-enough (suc n) zero i pos u h k =
        nothing_left (get_elem? u.index.entries i) _ _ false true i pos u refl (omega arith)
    dfs-enough (suc n) (suc m) i pos u h k =
        dfs_at_lem (get_elem? u.index.entries i) (walk n) (walk m) false i pos u (λ x at new. (
          λ j p v l.
              dfs-enough n m j p v (omega (arith, claim-left i x u at new))
                (omega (arith, claim-left i x u at new)),
          dfs-Extends Position key do_move records fits n,
        ))
