-- ===== src/BoardDb/Agrees.antt =====
-- BoardDB.cpp and OtbStore.cpp: what the two readers read of a file that the generator
-- wrote, an entry of the index and a blob.
use out_of_book.Prelude.{
  ℕ, zero, suc, ◌+◌, ◌*◌, ◌%◌, ◌^◌, ◌<◌, ◌≡◌, ◌∙◌, ap, sym, List, [], ◌∷◌, ◌++◌, true, false, ◌==◌,
  ltb, none, some, length, get_elem?, take, map, arith, refl, All, All-get_elem?, drop-get_elem?,
  Bool-cases, inl, inr, ◌⊎◌, lt→ltb,
}
use out_of_book.Spill.{u64}
use out_of_book.Otb.Bytes.{of_le}
use out_of_book.Otb.Format.{
  NodeBlobEntry, IndexEntry, get_index_entry, get_index, get_entries, put_header, put_index,
  max_children, header_size, node_header_size, entry_size,
}
use out_of_book.Otb.RoundTrip.{IndexFits, get_header-put_header, get_index-put_index}
use out_of_book.Otb.Search.{is_sorted}
use out_of_book.Otb.Store
use out_of_book.Otb.Store.{OtbStore, open_store}
use out_of_book.Otb.Store.Index.{read_chunk}
use out_of_book.GenerateOtb.{write_otb}
use out_of_book.GenerateOtb.Opens.{
  header, header-HeaderFits, read_header, index_layout, length-front,
}
use out_of_book.BoardDb.{
  BoardDb, ok, no_blob_entries, no_blob_seek, no_blob_header, no_otb_header, no_index_seek,
  no_index_entry, Error, read, seek_read, open_otb, check_header, read_index_entry, read_node,
  read_blob_entries,
}

-- A read that the server's `readExact` makes, this reader makes too.
read-read_at :
    (e : Error) (file : List ℕ) (n offset : ℕ) (bytes : List ℕ)
    → Store.read_at file n offset ≡ Store.ok bytes
    → 0 < n
    → read e file offset n ≡ ok bytes
unfolding read Store.read_at
read-read_at e file n offset bytes h pos = ground (arith, h)

seek_read-read_at :
    (e e' : Error) (file : List ℕ) (n offset : ℕ) (bytes : List ℕ)
    → Store.read_at file n offset ≡ Store.ok bytes
    → 0 < n
    → offset < 2 ^ 63
    → seek_read e e' file offset n ≡ ok bytes
unfolding seek_read
seek_read-read_at e e' file n offset bytes h pos small =
    rw (lt→ltb offset (2 ^ 63) small) (read-read_at e' file n offset bytes h pos)

pub Result-cases :
    {A : Type 0} (r : Store.Result A)
    → ((a : A) × (r ≡ Store.ok a)) ⊎ ((e : Store.Error) × (r ≡ Store.err e))
Result-cases (Store.ok a) = inl (a, refl)
Result-cases (Store.err e) = inr (e, refl)

entries_of :
    (file : List ℕ) (offset n : ℕ) (ns : List NodeBlobEntry) (bytes : List ℕ)
    → ltb max_children (suc n) ≡ false
    → Store.read_at file (suc n * entry_size) (offset + node_header_size) ≡ Store.ok bytes
    → read no_blob_entries file (offset + node_header_size) (suc n * entry_size) ≡ ok bytes
    → Store.read_entries file offset (suc n) ≡ Store.ok ns
    → read_blob_entries file offset (suc n) ≡ ok ns
unfolding read_blob_entries Store.read_entries
entries_of file offset n ns bytes few e mine h =
    let same : (get_entries (suc n) bytes).0 ≡ ns = ground (arith, h, few, e) in
    ground (arith, few, mine, same)

pub failed_entries :
    (file : List ℕ) (offset n : ℕ) (ns : List NodeBlobEntry) (err : Store.Error)
    → ltb max_children (suc n) ≡ false
    → Store.read_at file (suc n * entry_size) (offset + node_header_size) ≡ Store.err err
    → Store.read_entries file offset (suc n) ≡ Store.ok ns
    → ⊥
unfolding Store.read_entries
failed_entries file offset n ns err few e h = ground (arith, h, few, e)

-- The entries that the server reads behind a blob's header.
read_blob_entries-read_entries :
    (file : List ℕ) (offset n : ℕ) (ns : List NodeBlobEntry)
    → Store.read_entries file offset n ≡ Store.ok ns
    → read_blob_entries file offset n ≡ ok ns
unfolding read_blob_entries Store.read_entries Store.read_at get_entries
read_blob_entries-read_entries file offset zero ns h = ground (arith, h)
read_blob_entries-read_entries file offset (suc n) ns h =
    elim (Bool-cases (ltb max_children (suc n))) [
      | inl many ↦ absurd (ground (arith, h, many))
      | inr few ↦
          elim (Result-cases
            (Store.read_at file (suc n * entry_size) (offset + node_header_size))) [
              | inl (bytes, e) ↦
                  let mine =
                    read-read_at no_blob_entries file (suc n * entry_size)
                      (offset + node_header_size) bytes e (omega arith) in
                  entries_of file offset n ns bytes few e mine h
              | inr (err, e) ↦ absurd (failed_entries file offset n ns err few e h)
            ]
    ]

pub blob_parts :
    (file : List ℕ) (offset : ℕ) (ns : List NodeBlobEntry)
    → Store.read_blob file offset ≡ Store.ok ns
    → (header : List ℕ) × (Store.read_at file node_header_size offset ≡ Store.ok header)
      × (Store.read_entries file offset (of_le (take 2 header)) ≡ Store.ok ns)
unfolding Store.read_blob
blob_parts file offset ns h = elim (Result-cases (Store.read_at file node_header_size offset)) [
  | inl (header, e) ↦ (header, e, ground (arith, h, e))
  | inr (err, e) ↦ absurd (ground (arith, h, e))
]

-- A blob that the server reads, behind an index entry of the key that is asked for.
pub read_node-read_blob :
    (db : BoardDb) (i z : ℕ) (e : IndexEntry) (ns : List NodeBlobEntry)
    → read_index_entry db i ≡ ok e
    → e.zobrist ≡ z
    → e.offset_div4 * 4 < 2 ^ 63
    → Store.read_blob db.otb (e.offset_div4 * 4) ≡ Store.ok ns
    → read_node db i z ≡ ok ns
unfolding read_node
read_node-read_blob db i z e ns at same small h =
    let (header, read, entries) = blob_parts db.otb (e.offset_div4 * 4) ns h in
    let mine =
      seek_read-read_at no_blob_seek no_blob_header db.otb node_header_size (e.offset_div4 * 4)
        header read (omega arith) small in
    let rest =
      read_blob_entries-read_entries db.otb (e.offset_div4 * 4) (of_le (take 2 header)) ns
        entries in
    let hit : (e.zobrist == z) ≡ true = ground arith in rw at (rw hit (rw mine rest))

get_index_entry-put_index :
    (e : IndexEntry) → IndexFits e → (get_index_entry (put_index (e ∷ []) [])).0 ≡ e
unfolding get_index
get_index_entry-put_index e fits =
    let whole =
      ap (λ (p : List IndexEntry × List ℕ). p.0) (get_index-put_index (e ∷ []) [] (fits, tt)) in
    first_of (get_index_entry (put_index (e ∷ []) [])).0 e whole
  where
    first_of : (x y : IndexEntry) → x ∷ [] ≡ y ∷ [] → x ≡ y
    first_of x y h = cc

pub get_elem?-lt :
    {A : Type 0} (xs : List A) (i : ℕ) (x : A) → get_elem? xs i ≡ some x → i < length xs
get_elem?-lt [] i x h = absurd (cc)
get_elem?-lt (y ∷ xs) zero x h = omega arith
get_elem?-lt (y ∷ xs) (suc i) x h = omega (arith, get_elem?-lt xs i x h)

module _ (blobs : List ℕ) (es : List IndexEntry) (fits : All IndexFits es)
    (small : header_size + length blobs + length es * 16 < 2 ^ 63)
    (sorted : is_sorted (map (λ e. e.zobrist) es) ≡ true) where
  pub room : header_size + length blobs + length es * 16 < u64
  room = omega arith

  abbrev pub database : BoardDb
  database = record {
    otb = write_otb blobs es;
    header = header blobs es fits room sorted;
    ote = none;
  }

  pub open_otb-write_otb : open_otb (write_otb blobs es) ≡ ok database
  unfolding open_otb check_header
  open_otb-write_otb =
      let h = header blobs es fits room sorted in
      let bytes =
        read-read_at no_otb_header (write_otb blobs es) header_size 0 (put_header h [])
          (read_header blobs es fits room sorted) (omega arith) in
      rw (bytes, get_header-put_header h [] (header-HeaderFits blobs es fits room sorted)) refl

  -- The bytes of one entry of the index.
  entry_bytes :
      (i : ℕ) (e : IndexEntry)
      → get_elem? es i ≡ some e
      → Store.read_at
          (write_otb blobs es)
          entry_size
          ((header_size + length blobs + i * entry_size) % u64)
        ≡ Store.ok (put_index (e ∷ []) [])
  entry_bytes i e at =
      let front = put_header (header blobs es fits room sorted) [] ++ blobs in
      let inside : i < length es = get_elem?-lt es i e at in
      let long = length-front blobs es fits room sorted in
      let (x, at', ahead) = drop-get_elem? i es inside in
      let same : x ≡ e = cc in
      ap (λ f. Store.read_at f entry_size ((header_size + length blobs + i * entry_size) % u64))
        (index_layout blobs es fits room sorted)
      ∙ ap (λ n. Store.read_at (front ++ put_index es []) entry_size ((n + i * entry_size) % u64))
          (sym long)
      ∙ read_chunk front es fits (omega (arith, long)) i 1 (omega arith)
      ∙ ap (λ xs. Store.ok (put_index (take 1 xs) [])) ahead
      ∙ ap (λ y. Store.ok (put_index (y ∷ []) [])) same

  pub read_index_entry_lem :
      (i : ℕ) (e : IndexEntry) → get_elem? es i ≡ some e → read_index_entry database i ≡ ok e
  unfolding read_index_entry
  read_index_entry_lem i e at =
      let inside : i < length es = get_elem?-lt es i e at in
      let bytes =
        seek_read-read_at no_index_seek no_index_entry (write_otb blobs es) entry_size
          ((header_size + length blobs + i * entry_size) % u64) (put_index (e ∷ []) [])
          (entry_bytes i e at) (omega arith) (omega arith) in
      rw bytes (ap ok (get_index_entry-put_index e (All-get_elem? IndexFits es i e fits at)))
