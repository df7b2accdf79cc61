-- ===== src/BoardDb/Finds.antt =====
-- BoardDB.cpp and OtbStore.cpp: the searches of the two readers of .otb files, side by side.
use out_of_book.Prelude.{
  ℕ, zero, suc, ◌+◌, ◌*◌, ◌^◌, ◌<◌, ◌≡◌, ◌∙◌, ap, sym, List, [], ◌∷◌, Option, none, some, true,
  length, get_elem?, get_or, map, arith, refl, All, All-get_elem?, Option-cases, inl, inr,
}
use mathlib.Core.Path.{subst}
use mathlib.Core.Option.{some_inj}
use out_of_book.Otb.Format.{NodeBlobEntry, IndexEntry, header_size}
use out_of_book.Otb.RoundTrip.{IndexFits}
use out_of_book.Otb.Search.{is_sorted, is_sorted-Ascending, find_key, find_key-some}
use out_of_book.Otb.Store
use out_of_book.Otb.Store.{OtbStore, open_store, ◌>>=◌}
use out_of_book.GenerateOtb.{write_otb}
use out_of_book.GenerateOtb.Opens.{open_store-write_otb}
use out_of_book.BoardDb.{
  BoardDb, NodeResult, ok, open_otb, find_index, read_node, read_evals, read_result, find,
}
use out_of_book.BoardDb.Search.{zobrists, find_index-find_key}
use out_of_book.BoardDb.Agrees.{
  Result-cases, read_node-read_blob, room, database, open_otb-write_otb, read_index_entry_lem,
}

-- The entry behind a key that is found.
entry_at :
    (es : List IndexEntry) (i z : ℕ)
    → get_elem? (zobrists es) i ≡ some z
    → (e : IndexEntry) × (get_elem? es i ≡ some e)
      × (e.zobrist ≡ z)
      × (get_or (map (λ x. x.offset_div4) es) i 0 ≡ e.offset_div4)
entry_at [] i z h = absurd (cc)
entry_at (x ∷ es) zero z h = (x, refl, some_inj.0 h, refl)
entry_at (x ∷ es) (suc i) z h = entry_at es i z h

module _ (db : BoardDb) (z : ℕ) where
  find-none : find_index db z ≡ ok none → find db z ≡ ok none
  unfolding find read_result
  find-none e = rw e refl

  find-some :
      (i : ℕ) (ns : List NodeBlobEntry)
      → find_index db z ≡ ok (some i)
      → read_node db i z ≡ ok ns
      → db.ote ≡ none
      → find db z ≡ ok (some (record { entries = ns; ote = none }))
  unfolding find read_result read_evals
  find-some i ns e e' bare = rw e (rw e' (rw bare refl))

pub store_inj : (s t : OtbStore) → ◌≡◌ {A = Store.Result OtbStore} (Store.ok s) (Store.ok t) → s ≡ t
store_inj s t e = cc

db_inj : (d d' : BoardDb) → ok d ≡ ok d' → d ≡ d'
db_inj d d' e = cc

-- A lookup in the server's store: `find`, and `readNode` of the place that it gives.
unfoldable pub look_up : OtbStore → ℕ → Store.Result (Option (List NodeBlobEntry))
look_up s z = elim (Store.find s z) [
  | none ↦ Store.ok none
  | some i ↦ (Store.read_node s i >>= λ ns. Store.ok (some ns))
]

pub look_up-none :
    (s : OtbStore) (z : ℕ) (r : Option (List NodeBlobEntry))
    → Store.find s z ≡ none
    → look_up s z ≡ Store.ok r
    → r ≡ none
unfolding look_up
look_up-none s z r e h = ground (arith, h, e)

pub look_up-some :
    (s : OtbStore) (z i : ℕ) (r : Option (List NodeBlobEntry))
    → Store.find s z ≡ some i
    → look_up s z ≡ Store.ok r
    → (ns : List NodeBlobEntry) × (Store.read_node s i ≡ Store.ok ns) × (r ≡ some ns)
unfolding look_up
look_up-some s z i r e h = elim (Result-cases (Store.read_node s i)) [
  | inl (ns, e') ↦ (ns, e', ground (arith, h, e, e'))
  | inr (err, e') ↦ absurd (ground (arith, h, e, e'))
]

-- The same answer as a `NodeResult` without evaluations.
abbrev pub found : Option (List NodeBlobEntry) → Option NodeResult
found none = none
found (some ns) = some (record { entries = ns; ote = none })

module _ (blobs : List ℕ) (es : List IndexEntry) (fits : All IndexFits es)
    (small : header_size + length blobs + length es * 16 < 2 ^ 63)
    (sorted : is_sorted (map (λ e. e.zobrist) es) ≡ true) where
  store : OtbStore
  store = record {
    otb = write_otb blobs es;
    ote = none;
    zobrists = map (λ e. e.zobrist) es;
    offsets_div4 = map (λ e. e.offset_div4) es;
  }

  found_place :
      (z : ℕ) → find_index (database blobs es fits small sorted) z ≡ ok (find_key (zobrists es) z)
  found_place z =
      find_index-find_key (database blobs es fits small sorted) es refl
        (read_index_entry_lem blobs es fits small sorted) (is_sorted-Ascending (zobrists es) sorted)
        z (omega arith)

  answer :
      (z : ℕ) (r : Option (List NodeBlobEntry))
      → look_up store z ≡ Store.ok r
      → find (database blobs es fits small sorted) z ≡ ok (found r)
  unfolding store Store.find Store.read_node
  answer z r h = elim (Option-cases (find_key (zobrists es) z)) [
    | inl e ↦
        let nothing = look_up-none store z r e h in
        rw nothing (find-none (database blobs es fits small sorted) z (found_place z ∙ ap ok e))
    | inr (i, e) ↦
        let (ns, read, same) = look_up-some store z i r e h in
        let (x, at, key, offset) = entry_at es i z (find_key-some (zobrists es) z i e).0 in
        let db = database blobs es fits small sorted in
        let fit = All-get_elem? IndexFits es i x fits at in
        let blob : Store.read_blob (write_otb blobs es) (x.offset_div4 * 4) ≡ Store.ok ns =
          subst (λ n. Store.read_blob (write_otb blobs es) (n * 4) ≡ Store.ok ns) offset read in
        let mine =
          read_node-read_blob db i z x ns (read_index_entry_lem blobs es fits small sorted i x at)
            key (omega (arith, fit.1)) blob in
        rw same (find-some db z i ns (found_place z ∙ ap ok e) mine refl)
  ]

  -- On a file of any blobs and of an index in key order, whose entries have the widths of the struct
  -- and which is shorter than 2 ^ 63 bytes, opened by both readers: where a lookup in the server's
  -- store has an answer, a node's entries or that the key is not there, `BoardDB::find` ends and has
  -- the same answer.
  pub find-look_up :
      (s : OtbStore) (db : BoardDb) (z : ℕ) (r : Option (List NodeBlobEntry))
      → open_store (write_otb blobs es) none ≡ Store.ok s
      → open_otb (write_otb blobs es) ≡ ok db
      → look_up s z ≡ Store.ok r
      → find db z ≡ ok (found r)
  unfolding store
  find-look_up s db z r e e' h =
      let same_store : store ≡ s =
        store_inj store s
          (sym (open_store-write_otb blobs es fits (room blobs es fits small sorted) sorted) ∙ e) in
      let same_db : database blobs es fits small sorted ≡ db =
        db_inj (database blobs es fits small sorted) db
          (sym (open_otb-write_otb blobs es fits small sorted) ∙ e') in
      subst (λ d. find d z ≡ ok (found r)) same_db
        (answer z r (subst (λ t. look_up t z ≡ Store.ok r) (sym same_store) h))
