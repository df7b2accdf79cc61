-- ===== src/GenerateOtb/Walk/Blobs.antt =====
-- generate_otb.cpp: the slots of the index and the blobs in the file, through the walk.
use out_of_book.Prelude.{
  ℕ, zero, suc, ◌+◌, ◌*◌, ◌/◌, ◌%◌, ◌^◌, ◌≤◌, ◌<◌, ◌≡◌, ◌∙◌, ◌⊎◌, List, [], ◌∷◌, ◌++◌, Bool, true,
  false, not, ◌==◌, ◌&&◌, ◌||◌, leb, Option, none, some, length, drop, get_elem?, arith, refl, ap,
  sym, Bool-cases, Option-cases, inl, inr, All,
}
use mathlib.Core.Option.{some_inj}
use mathlib.Core.Path.{subst}
use mathlib.Core.List.{append_assoc, append-nil}
use out_of_book.Otb.Format.{NodeBlobEntry, put_node, max_children, header_size}
use out_of_book.GenerateOtb.Index.{NodeClassification, Entry}
use out_of_book.GenerateOtb.Walk.{
  Node, Walk, mark_visited, set_otb_offset, claim, write_node, enter, collect, expand,
  expand_children, leaf_node, build_node, finish_node, dfs_at, dfs, insert_record, for_each,
  leaf_step, resolve, insert_catchall, ChildRef, take_move, drop_move, empty_node, termination,
  run_of,
}
use out_of_book.Spill.{SpillRecord, u32}
use out_of_book.GenerateOtb.Walk.Counts.{
  Counted, count_entries, count_records, insert_catchall-count, build_node-Counted,
}
use out_of_book.GenerateOtb.Walk.Entries.{
  NodeFits, RecordFits, IsNode, empty_node-IsNode, insert_record-IsNode, add_catchall-IsNode,
  leaf_step-Keeps, for_each-IsNode, insert_catchall-IsNode, run_of-All, take_move-All,
  drop_move-All, drop-All,
}

-- A blob stands where a slot says, in units of four bytes from the start of the file.
pub record BlobAt (out : List ℕ) (slot : ℕ) : Type 0 where
  pub node : List NodeBlobEntry
  pub before : List ℕ
  pub after : List ℕ
  pub bytes : out ≡ before ++ (put_node node [] ++ after)
  pub place : header_size + length before ≡ slot * 4
  pub few : length node ≤ max_children
  pub fits : NodeFits node
  pub small : slot < 256 ^ 4

BlobAt-append : (out tail : List ℕ) (slot : ℕ) → BlobAt out slot → BlobAt (out ++ tail) slot
BlobAt-append out tail slot b = record {
  node = b.node;
  before = b.before;
  after = b.after ++ tail;
  bytes =
      ap (λ o. o ++ tail) b.bytes
      ∙ append_assoc b.before (put_node b.node [] ++ b.after) tail
      ∙ ap (λ o. b.before ++ o) (append_assoc (put_node b.node []) b.after tail);
  place = b.place;
  few = b.few;
  fits = b.fits;
  small = b.small;
}

module _ (records : List SpillRecord) where
  -- A blob with the counts of an entry's position: they add up to those of the records that the entry's
  -- slot says, in 32 bits.
  pub record BlobOf (e : Entry) (out : List ℕ) (slot : ℕ) : Type 0 where
    pub at : BlobAt out slot
    pub counts :
        count_entries at.node % u32 ≡ count_records (run_of e.key (drop e.slot records)) % u32

  BlobOf-append :
      (e : Entry) (out tail : List ℕ) (slot : ℕ) → BlobOf e out slot → BlobOf e (out ++ tail) slot
  unfolding BlobAt-append
  BlobOf-append e out tail slot b = record {
    at = BlobAt-append out tail slot b.at;
    counts = b.counts;
  }

  -- What becomes of an entry: nothing, or it is visited and its blob written.
  abbrev pub Fresh : List ℕ → Entry → Entry → Type 0
  Fresh out e e' =
      (e.visited ≡ false) × (e'.visited ≡ true) × (e'.key ≡ e.key) × BlobOf e out e'.slot

  abbrev pub Later : List ℕ → List Entry → List Entry → Type 0
  Later out [] [] = Unit
  Later out [] (e ∷ es) = ⊥
  Later out (e ∷ es) [] = ⊥
  Later out (e ∷ es) (e' ∷ es') = ((e ≡ e') ⊎ Fresh out e e') × Later out es es'

  pub record Extends (w w' : Walk) : Type 0 where
    pub tail : List ℕ
    pub out : w'.out ≡ w.out ++ tail
    pub later : Later w'.out w.index.entries w'.index.entries

  Later-refl : (out : List ℕ) (es : List Entry) → Later out es es
  Later-refl out [] = tt
  Later-refl out (e ∷ es) = (inl refl, Later-refl out es)

  -- What was written stays where it is.
  Fresh-append : (out tail : List ℕ) (e e' : Entry) → Fresh out e e' → Fresh (out ++ tail) e e'
  Fresh-append out tail e e' (a, b, c, d) = (a, b, c, BlobOf-append e out tail e'.slot d)

  Later-trans :
      (out tail : List ℕ) (es fs gs : List Entry)
      → Later out es fs
      → Later (out ++ tail) fs gs
      → Later (out ++ tail) es gs
  Later-trans out tail [] [] [] h k = tt
  Later-trans out tail [] [] (g ∷ gs) h k = absurd k
  Later-trans out tail [] (f ∷ fs) gs h k = absurd h
  Later-trans out tail (e ∷ es) [] gs h k = absurd h
  Later-trans out tail (e ∷ es) (f ∷ fs) [] h k = absurd k
  Later-trans out tail (e ∷ es) (f ∷ fs) (g ∷ gs) h k =
      (both h.0 k.0, Later-trans out tail es fs gs h.1 k.1)
    where
      twice : Fresh out e f → Fresh (out ++ tail) f g → ⊥
      twice (a, b, c, d) (a', b', c', d') = ground arith

      both :
          (e ≡ f) ⊎ Fresh out e f
          → (f ≡ g) ⊎ Fresh (out ++ tail) f g
          → (e ≡ g) ⊎ Fresh (out ++ tail) e g
      both (inl p) (inl q) = inl (p ∙ q)
      both (inl p) (inr q) = inr (subst (λ x. Fresh (out ++ tail) x g) (sym p) q)
      both (inr p) (inl q) =
          inr (subst (λ x. Fresh (out ++ tail) e x) q (Fresh-append out tail e f p))
      both (inr p) (inr q) = absurd (twice p q)

  Extends-refl : (w : Walk) → Extends w w
  Extends-refl w = record {
    tail = [];
    out = sym (append-nil w.out);
    later = Later-refl w.out w.index.entries;
  }

  Extends-trans : (u v w : Walk) → Extends u v → Extends v w → Extends u w
  Extends-trans u v w h k = record {
    tail = h.tail ++ k.tail;
    out = k.out ∙ ap (λ o. o ++ k.tail) h.out ∙ append_assoc u.out h.tail k.tail;
    later =
        subst (λ o. Later o u.index.entries w.index.entries) (sym k.out)
          (Later-trans v.out k.tail u.index.entries v.index.entries w.index.entries h.later
            (subst (λ o. Later o v.index.entries w.index.entries) k.out k.later));
  }

  Later-append :
      (out tail : List ℕ) (es fs : List Entry) → Later out es fs → Later (out ++ tail) es fs
  Later-append out tail es fs h = Later-trans out tail es fs fs h (Later-refl (out ++ tail) fs)

  Changed-append :
      (out tail : List ℕ) (e f : Entry)
      → (e ≡ f) ⊎ Fresh out e f
      → (e ≡ f) ⊎ Fresh (out ++ tail) e f
  Changed-append out tail e f (inl p) = inl p
  Changed-append out tail e f (inr q) = inr (Fresh-append out tail e f q)

  -- An entry that was claimed, then left alone by the walk below it, and then given its slot.
  Later-written :
      (out tail : List ℕ) (es fs : List Entry) (i slot : ℕ) (e : Entry)
      → get_elem? es i ≡ some e
      → e.visited ≡ false
      → Later out (mark_visited i es) fs
      → BlobOf e (out ++ tail) slot
      → Later (out ++ tail) es (set_otb_offset i slot fs)
  unfolding mark_visited set_otb_offset
  Later-written out tail [] fs i slot e at new h b = absurd (cc)
  Later-written out tail (x ∷ es) [] zero slot e at new h b = absurd h
  Later-written out tail (x ∷ es) [] (suc i) slot e at new h b = absurd h
  Later-written out tail (x ∷ es) (f ∷ fs) zero slot e at new h b =
      (first h.0, Later-append out tail es fs h.1)
    where
      x_new : x.visited ≡ false
      x_new = ap (λ y. y.visited) (some_inj.0 at) ∙ new

      own : BlobOf x (out ++ tail) slot
      own = subst (λ y. BlobOf y (out ++ tail) slot) (sym (some_inj.0 at)) b

      first :
          (record x { visited = true } ≡ f) ⊎ Fresh out (record x { visited = true }) f
          → (x ≡ record f { slot = slot }) ⊎ Fresh (out ++ tail) x (record f { slot = slot })
      first (inl p) = inr (x_new, ap (λ y. y.visited) (sym p), ap (λ y. y.key) (sym p), own)
      first (inr (a, q, q', q'')) = absurd (ground arith)
  Later-written out tail (x ∷ es) (f ∷ fs) (suc i) slot e at new h b =
      (Changed-append out tail x f h.0, Later-written out tail es fs i slot e at new h.1 b)

  write_node-Extends :
      (i : ℕ) (e : Entry) (n : Node) (u v w : Walk)
      → get_elem? u.index.entries i ≡ some e
      → e.visited ≡ false
      → IsNode n
      → count_entries n.entries % u32 ≡ count_records (run_of e.key (drop e.slot records)) % u32
      → Extends (claim i u) v
      → write_node i n v ≡ some w
      → Extends u w
  unfolding write_node claim
  write_node-Extends i e n u v w at new ok counts h done =
      let tell = header_size + length v.out in
      elim (Bool-cases ((tell % 4 == 0) && leb (tell / 4) 0xffff_ffff)) [
        | inr bad ↦ absurd (ground arith)
        | inl good ↦
            let last : Walk = record {
              index = record v.index { entries = set_otb_offset i (tell / 4) v.index.entries };
              out = v.out ++ put_node n.entries [];
            } in
            let same : last ≡ w = cc in
            let here : BlobAt (v.out ++ put_node n.entries []) (tell / 4) = record {
              node = n.entries;
              before = v.out;
              after = [];
              bytes = ap (λ o. v.out ++ o) (sym (append-nil (put_node n.entries [])));
              place = ground arith;
              few = ok.few;
              fits = ok.fits;
              small = ground arith;
            } in
            subst (Extends u) same (record {
              tail = h.tail ++ put_node n.entries [];
              out =
                  ap (λ o. o ++ put_node n.entries []) h.out
                  ∙ append_assoc u.out h.tail (put_node n.entries []);
              later =
                  Later-written v.out (put_node n.entries []) u.index.entries v.index.entries i
                    (tell / 4) e at new h.later (record { at = here; counts = counts });
            })
      ]

module _ (Position : Type 0) (key : Position → ℕ) (do_move : Position → ℕ → Position)
    (records : List SpillRecord) where
  finish_node-Extends :
      (i : ℕ) (e : Entry) (u w : Walk) (built : Option (Walk × Node))
      → get_elem? u.index.entries i ≡ some e
      → e.visited ≡ false
      → ((v : Walk) (n : Node)
          → built ≡ some (v, n)
          → IsNode n
            × Extends records (claim i u) v
            × Counted n (0 + count_records (run_of e.key (drop e.slot records))))
      → finish_node Position key do_move i built ≡ some w
      → Extends records u w
  unfolding finish_node
  finish_node-Extends i e u w none at new h done = absurd (cc)
  finish_node-Extends i e u w (some (v, n)) at new h done =
      let (ok, ext, counted) = h v n refl in
      elim (Option-cases (insert_catchall 0 n.catchall n)) [
        | inl bad ↦ absurd (ground arith)
        | inr (m, good) ↦
            write_node-Extends records i e m u v w at new
              (insert_catchall-IsNode 0 n.catchall n m (omega (arith, ok.buckets)) ok.catchall ok
                good)
              (omega (arith, counted.sum, insert_catchall-count 0 n.catchall n m good)) ext
              (ground arith)
      ]

  abbrev pub Grows : (ℕ → Position → Walk → Option Walk) → Type 0
  Grows walk_child =
      (i : ℕ) (p : Position) (u v : Walk) → walk_child i p u ≡ some v → Extends records u v

  module _ (walk_child : ℕ → Position → Walk → Option Walk) (grows : Grows walk_child) where
    pub enter-Extends :
        (c : Option ℕ) (p : Position) (u v : Walk)
        → enter Position key do_move walk_child c p u ≡ some v
        → Extends records u v
    enter-Extends none p u v e = subst (Extends records u) (some_inj.0 e) (Extends-refl records u)
    enter-Extends (some i) p u v e = grows i p u v e

    collect-IsNode :
        (c : Option ℕ) (rs : List SpillRecord) (n m : Node)
        → All RecordFits rs
        → IsNode n
        → collect Position key do_move walk_child c rs n ≡ some m
        → IsNode m
    collect-IsNode none rs n m f h e = for_each-IsNode _ rs n m add_catchall-IsNode f h e
    collect-IsNode (some i) rs n m f h e = for_each-IsNode _ rs n m insert_record-IsNode f h e

    expand_lem :
        (k : ℕ) (pos : Position) (rs : List SpillRecord) (cs : List ChildRef) (u v : Walk)
        (n m : Node)
        → All RecordFits rs
        → IsNode n
        → expand Position key do_move walk_child k pos rs cs u n ≡ some (v, m)
        → IsNode m × Extends records u v
    unfolding expand
    expand_lem k pos [] [] u v n m f h e =
        (subst IsNode (pair_eq.1) h, subst (Extends records u) (pair_eq.0) (Extends-refl records u))
      where
        pair_eq : (u ≡ v) × (n ≡ m)
        pair_eq = (ap (λ p. p.0) (some_inj.0 e), ap (λ p. p.1) (some_inj.0 e))
    expand_lem k pos [] (c ∷ cs) u v n m f h e = absurd (cc)
    expand_lem zero pos (r ∷ rs) cs u v n m f h e = absurd (cc)
    expand_lem (suc k) pos (r ∷ rs) [] u v n m f h e = elim (Bool-cases (r.move == termination)) [
      | inr go ↦ absurd (ground arith)
      | inl stop ↦ elim (Option-cases (insert_record r n)) [
        | inl bad ↦ absurd (ground arith)
        | inr (n', good) ↦
            expand_lem k pos rs [] u v n' m f.1 (insert_record-IsNode r n n' f.0 h good)
              (ground arith)
      ]
    ]
    expand_lem (suc k) pos (r ∷ rs) (c ∷ cs) u v n m f h e =
        elim (Bool-cases (r.move == termination)) [
          | inl stop ↦ elim (Option-cases (insert_record r n)) [
            | inl bad ↦ absurd (ground arith)
            | inr (n', good) ↦
                expand_lem k pos rs (c ∷ cs) u v n' m f.1 (insert_record-IsNode r n n' f.0 h good)
                  (ground arith)
          ]
          | inr go ↦
              elim (Option-cases
                (enter Position key do_move walk_child c.1 (do_move pos r.move) u)) [
                  | inl bad ↦ absurd (ground arith)
                  | inr (w, entered) ↦
                      let group = take_move r.move (r ∷ rs) in
                      elim (Option-cases (collect Position key do_move walk_child c.1 group n)) [
                        | inl bad ↦ absurd (ground arith)
                        | inr (n', good) ↦
                            let ok =
                              collect-IsNode c.1 group n n' (take_move-All r.move (r ∷ rs) f) h
                                good in
                            let rest =
                              expand_lem k pos (drop_move r.move rs) cs w v n' m
                                (drop_move-All r.move rs f.1) ok (ground arith) in
                            (
                              rest.0,
                              Extends-trans records u w v
                                  (enter-Extends c.1 (do_move pos r.move) u w entered) rest.1,
                            )
                      ]
                ]
        ]

    expand_children_lem :
        (cs : Option (List ChildRef)) (pos : Position) (rs : List SpillRecord) (u v : Walk)
        (m : Node)
        → All RecordFits rs
        → expand_children Position key do_move walk_child cs pos rs u ≡ some (v, m)
        → IsNode m × Extends records u v
    unfolding expand_children
    expand_children_lem none pos rs u v m f e = absurd (cc)
    expand_children_lem (some cs) pos rs u v m f e =
        expand_lem (length rs) pos rs cs u v empty_node m f empty_node-IsNode e

    leaf_node_lem :
        (o : Option Node) (u v : Walk) (m : Node)
        → ((n : Node) → o ≡ some n → IsNode n)
        → leaf_node Position key do_move walk_child o u ≡ some (v, m)
        → IsNode m × Extends records u v
    unfolding leaf_node
    leaf_node_lem none u v m h e = absurd (cc)
    leaf_node_lem (some n) u v m h e = (
      subst IsNode (ap (λ p. p.1) (some_inj.0 e)) (h n refl),
      subst (Extends records u) (ap (λ p. p.0) (some_inj.0 e)) (Extends-refl records u),
    )

    build_node_lem :
        (c : NodeClassification) (pos : Position) (rs : List SpillRecord) (u v : Walk) (m : Node)
        → All RecordFits rs
        → build_node Position key do_move walk_child c pos rs u ≡ some (v, m)
        → IsNode m × Extends records u v
    unfolding build_node
    build_node_lem NodeClassification.leaf pos rs u v m f e =
        leaf_node_lem (for_each leaf_step rs empty_node) u v m
          (λ n made.
            for_each-IsNode leaf_step rs empty_node n leaf_step-Keeps f empty_node-IsNode made)
          e
    build_node_lem NodeClassification.full pos rs u v m f e =
        expand_children_lem (resolve Position key do_move u.index pos rs none) pos rs u v m f e

  module _ (fits : All RecordFits records) where
    dfs_at-Extends :
        (o : Option Entry) (walk_child : ℕ → Position → Walk → Option Walk) (deep : Bool) (i : ℕ)
        (pos : Position) (u v : Walk)
        → Grows walk_child
        → get_elem? u.index.entries i ≡ o
        → dfs_at Position key do_move records o walk_child deep i pos u ≡ some v
        → Extends records u v
    unfolding dfs_at
    dfs_at-Extends none walk_child deep i pos u v g at e = absurd (cc)
    dfs_at-Extends (some x) walk_child deep i pos u v g at e = elim (Bool-cases x.visited) [
      | inl seen ↦
          let same : u ≡ v = some_inj.0 (ground arith) in
          subst (Extends records u) same (Extends-refl records u)
      | inr new ↦ elim (Bool-cases (deep || not (x.key == key pos))) [
        | inl stop ↦ absurd (ground arith)
        | inr go ↦
            let run = run_of (key pos) (drop x.slot records) in
            let own : x.key ≡ key pos = ground arith in
            finish_node-Extends i x u v
              (build_node Position key do_move walk_child x.class pos run (claim i u)) at new
              (λ w n made.
                let (ok, ext) =
                  build_node_lem walk_child g x.class pos run (claim i u) w n
                    (run_of-All (key pos) (drop x.slot records) (drop-All x.slot records fits))
                    made in
                (
                  ok,
                  ext,
                  subst (λ z. Counted n (0 + count_records (run_of z (drop x.slot records))))
                      (sym own)
                      (build_node-Counted Position key do_move walk_child x.class pos run
                        (claim i u) w n made),
                ))
              (ground arith)
      ]
    ]

    -- A walk that no assertion stops only adds to the file. It leaves every entry as it was, or visits
    -- it, and then the entry's slot is the place of a blob in the file whose counts add up, modulo
    -- 2 ^ 32, to those of the position's records at the entry's former slot.
    pub dfs-Extends :
        (depth i : ℕ) (pos : Position) (u v : Walk)
        → dfs Position key do_move records depth i pos u ≡ some v
        → Extends records u v
    unfolding dfs
    dfs-Extends zero i pos u v e =
        dfs_at-Extends (get_elem? u.index.entries i) (λ j p w. none) true i pos u v
          (λ j p w w' n. absurd (cc)) refl e
    dfs-Extends (suc n) i pos u v e =
        dfs_at-Extends (get_elem? u.index.entries i) (dfs Position key do_move records n) false i
          pos u v (dfs-Extends n) refl e
