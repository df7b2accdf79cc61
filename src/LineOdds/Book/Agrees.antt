-- ===== src/LineOdds/Book/Agrees.antt =====
-- Book.cpp and OtbStore.cpp: what the book and the server's store read of a file in the generator's
-- layout, whose index the book takes only where its place is a multiple of eight.
use out_of_book.Prelude.{
  ℕ, zero, suc, ◌+◌, ◌-◌, ◌*◌, ◌/◌, ◌%◌, ◌<◌, ◌≡◌, ◌∙◌, ap, sym, List, [], ◌++◌, Option, none, some,
  true, false, ltb, length, get_or, take, drop, map, arith, refl, All, Option-cases, Bool-cases,
  inl, inr, length-append, take_exact, drop_exact,
}
use mathlib.Core.Path.{subst}
use out_of_book.Spill.{u64}
use out_of_book.Otb.Bytes.{of_le}
use out_of_book.Otb.Format.{
  NodeBlobEntry, IndexEntry, get_entries, get_index, put_header, put_index, max_children,
  header_size, node_header_size, entry_size,
}
use out_of_book.Otb.RoundTrip.{
  IndexFits, get_header-put_header, get_index-put_index, length-put_index, length-put_header,
}
use out_of_book.Otb.Search.{is_sorted, find_key}
use out_of_book.Otb.Store
use out_of_book.Otb.Store.{OtbStore, open_store}
use out_of_book.GenerateOtb.{write_otb}
use out_of_book.GenerateOtb.Opens.{
  put_header-append, header, header-HeaderFits, index_layout, length-front, open_store-write_otb,
}
use out_of_book.BoardDb.Agrees.{Result-cases, blob_parts, failed_entries}
use out_of_book.BoardDb.Finds.{look_up, look_up-none, look_up-some, store_inj}
use out_of_book.LineOdds.Book.{
  Book, ok, bad_layout, index_alignment, is_aligned, check_header, open_book, view, span, blob_at,
  at,
}

-- What the server's `readExact` reads is inside the map.
view-read_at :
    (file : List ℕ) (n offset : ℕ) (bytes : List ℕ)
    → Store.read_at file n offset ≡ Store.ok bytes
    → 0 < n
    → view file offset n ≡ some bytes
unfolding view Store.read_at
view-read_at file n offset bytes h pos = ground (arith, h)

span_of :
    (file : List ℕ) (offset n : ℕ) (ns : List NodeBlobEntry) (bytes : List ℕ)
    → ltb max_children (suc n) ≡ false
    → Store.read_at file (suc n * entry_size) (offset + node_header_size) ≡ Store.ok bytes
    → view file (offset + node_header_size) (suc n * entry_size) ≡ some bytes
    → Store.read_entries file offset (suc n) ≡ Store.ok ns
    → span file offset (suc n) ≡ some ns
unfolding span Store.read_entries
span_of file offset n ns bytes few e mine h =
    let same : (get_entries (suc n) bytes).0 ≡ ns = ground (arith, h, few, e) in
    ground (arith, mine, same)

span-read_entries :
    (file : List ℕ) (offset n : ℕ) (ns : List NodeBlobEntry)
    → Store.read_entries file offset n ≡ Store.ok ns
    → span file offset n ≡ some ns
unfolding span Store.read_entries Store.read_at get_entries
span-read_entries file offset zero ns h = ground (arith, h)
span-read_entries file offset (suc n) ns h = elim (Bool-cases (ltb max_children (suc n))) [
  | inl many ↦ absurd (ground (arith, h, many))
  | inr few ↦
      elim (Result-cases (Store.read_at file (suc n * entry_size) (offset + node_header_size))) [
        | inl (bytes, e) ↦
            let mine =
              view-read_at file (suc n * entry_size) (offset + node_header_size) bytes e
                (omega arith) in
            span_of file offset n ns bytes few e mine h
        | inr (err, e) ↦ absurd (failed_entries file offset n ns err few e h)
      ]
]

blob_at-read_blob :
    (file : List ℕ) (offset : ℕ) (ns : List NodeBlobEntry)
    → Store.read_blob file offset ≡ Store.ok ns
    → blob_at file offset ≡ some ns
unfolding blob_at
blob_at-read_blob file offset ns h =
    let (header, read, entries) = blob_parts file offset ns h in
    rw (view-read_at file node_header_size offset header read (omega arith), blob_at)
      (span-read_entries file offset (of_le (take 2 header)) ns entries)

module _ (b : Book) (z : ℕ) where
  at-missing : find_key (map (λ e. e.zobrist) b.index) z ≡ none → at b z ≡ some []
  unfolding at
  at-missing e = rw (e, at) refl

  at-present :
      (i : ℕ)
      → find_key (map (λ e. e.zobrist) b.index) z ≡ some i
      → at b z ≡ blob_at b.data_bytes (get_or (map (λ e. e.offset_div4) b.index) i 0 * 4)
  unfolding at
  at-present i e = rw (e, at) refl

book_inj : (b b' : Book) → ok b ≡ ok b' → b ≡ b'
book_inj b b' e = cc

-- The entries of a node, of which a position that is not there has none.
abbrev pub entries_of : Option (List NodeBlobEntry) → List NodeBlobEntry
entries_of none = []
entries_of (some ns) = ns

module _ (blobs : List ℕ) (es : List IndexEntry) (fits : All IndexFits es)
    (small : header_size + length blobs + length es * 16 < u64)
    (sorted : is_sorted (map (λ e. e.zobrist) es) ≡ true)
    (aligned : (header_size + length blobs) % index_alignment ≡ 0) where
  abbrev pub book : Book
  book = record { data_bytes = write_otb blobs es; index = es }

  store : OtbStore
  store = record {
    otb = write_otb blobs es;
    ote = none;
    zobrists = map (λ e. e.zobrist) es;
    offsets_div4 = map (λ e. e.offset_div4) es;
  }

  size : length (write_otb blobs es) ≡ header_size + length blobs + length es * 16
  size =
      let front = put_header (header blobs es fits small sorted) [] ++ blobs in
      ap length (index_layout blobs es fits small sorted)
      ∙ length-append front (put_index es [])
      ∙ omega (arith, length-front blobs es fits small sorted, length-put_index es [])

  index_of : (get_index (length es) (drop (header_size + length blobs) (write_otb blobs es))).0 ≡ es
  index_of =
      let front = put_header (header blobs es fits small sorted) [] ++ blobs in
      ap (λ f. (get_index (length es) (drop (header_size + length blobs) f)).0)
        (index_layout blobs es fits small sorted)
      ∙ ap (λ n. (get_index (length es) (drop n (front ++ put_index es []))).0)
          (sym (length-front blobs es fits small sorted))
      ∙ ap (λ f. (get_index (length es) f).0)
          (drop_exact (length front) front (put_index es []) refl)
      ∙ ap (λ (p : List IndexEntry × List ℕ). p.0) (get_index-put_index es [] fits)

  front_bytes :
      take header_size (write_otb blobs es) ≡ put_header (header blobs es fits small sorted) []
  unfolding write_otb
  front_bytes =
      let h = header blobs es fits small sorted in
      let rest = blobs ++ put_index es [] in
      ap (take header_size) (put_header-append h rest)
      ∙ take_exact header_size (put_header h []) rest (length-put_header h [])

  long_enough : ltb (length (write_otb blobs es)) header_size ≡ false
  long_enough = ground (arith, size)

  layout : bad_layout (header blobs es fits small sorted) (length (write_otb blobs es)) ≡ false
  unfolding bad_layout
  layout =
      let nodes : (header_size + length blobs + length es * 16 - (header_size + length blobs))
            / entry_size
          ≡ length es =
        omega arith in
      rw size (ground (arith, nodes))

  aligned_lem : is_aligned (header_size + length blobs) ≡ true
  unfolding is_aligned
  aligned_lem = ground (arith, aligned)

  pub open_book_lem : open_book (write_otb blobs es) ≡ ok book
  unfolding open_book check_header
  open_book_lem =
      rw
        (
          long_enough,
          front_bytes,
          get_header-put_header (header blobs es fits small sorted) []
              (header-HeaderFits blobs es fits small sorted),
          layout,
          aligned_lem,
          index_of,
        )
        refl

  answer :
      (z : ℕ) (r : Option (List NodeBlobEntry))
      → look_up store z ≡ Store.ok r
      → at book z ≡ some (entries_of r)
  unfolding store Store.find Store.read_node
  answer z r h = elim (Option-cases (find_key (map (λ e. e.zobrist) es) z)) [
    | inl e ↦ rw (look_up-none store z r e h) (at-missing book z e)
    | inr (i, e) ↦
        let (ns, read, same) = look_up-some store z i r e h in
        rw same (at-present book z i e ∙ blob_at-read_blob (write_otb blobs es) _ ns read)
  ]

  -- On a file of any blobs and of an index in key order, whose entries have the widths of the struct
  -- which is shorter than 2 ^ 64 bytes, and whose index begins at a multiple of eight bytes, opened by
  -- both: where a lookup in the server's store has
  -- an answer, the book reads nothing beyond the map, and it has the same entries, none for a key
  -- that is not there.
  pub at-look_up :
      (s : OtbStore) (b : Book) (z : ℕ) (r : Option (List NodeBlobEntry))
      → open_store (write_otb blobs es) none ≡ Store.ok s
      → open_book (write_otb blobs es) ≡ ok b
      → look_up s z ≡ Store.ok r
      → at b z ≡ some (entries_of r)
  unfolding store
  at-look_up s b z r e e' h =
      let same_store : store ≡ s =
        store_inj store s (sym (open_store-write_otb blobs es fits small sorted) ∙ e) in
      let same_book : book ≡ b = book_inj book b (sym open_book_lem ∙ e') in
      subst (λ b. at b z ≡ some (entries_of r)) same_book
        (answer z r (subst (λ s. look_up s z ≡ Store.ok r) (sym same_store) h))
