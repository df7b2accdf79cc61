-- ===== src/GenerateOtb/Opens.antt =====
-- generate_otb.cpp and OtbStore.cpp: the generator's file before the server's constructor.
use out_of_book.Prelude.{
  ℕ, suc, ◌+◌, ◌*◌, ◌<◌, ◌≡◌, ◌∙◌, List, [], ◌++◌, true, map, none, length, take, arith, refl, ap,
  sym, All, length-append, take_exact,
}
use mathlib.Core.List.{append_assoc}
use out_of_book.Spill.{u64}
use out_of_book.Otb.Bytes.{to_le}
use out_of_book.Otb.Format.{
  IndexEntry, OtbHeader, put_header, put_index, magic, version, header_size,
}
use out_of_book.Otb.RoundTrip.{IndexFits, HeaderFits, get_header-put_header, length-put_header}
use out_of_book.Otb.Search.{is_sorted}
use out_of_book.Otb.Store.{
  ok, read_at, load_loop, load_index, check_sorted, check_header, check_evals, open_store,
  index_chunk_entries,
}
use out_of_book.Otb.Store.Blob.{read_at-append}
use out_of_book.Otb.Store.Index.{load_loop_lem}
use out_of_book.GenerateOtb.{write_otb}

-- The bytes of a header are those of it alone, in front of what follows.
pub put_header-append :
    (h : OtbHeader) (rest : List ℕ) → put_header h rest ≡ put_header h [] ++ rest
unfolding put_header to_le
put_header-append h rest = refl

module _ (blobs : List ℕ) (es : List IndexEntry) (fits : All IndexFits es)
    (small : header_size + length blobs + length es * 16 < u64)
    (sorted : is_sorted (map (λ e. e.zobrist) es) ≡ true) where
  abbrev pub header : OtbHeader
  header = record {
    magic = magic;
    version = version;
    nodes = length es;
    index_offset = header_size + length blobs;
  }

  pub header-HeaderFits : HeaderFits header
  header-HeaderFits = (omega arith, omega arith, omega arith, omega arith)

  pub read_header : read_at (write_otb blobs es) header_size 0 ≡ ok (put_header header [])
  unfolding write_otb
  read_header =
      let rest = blobs ++ put_index es [] in
      read_at-append [] (put_header header rest) header_size 0 refl
        (omega (arith, length-put_header header rest))
      ∙ ap (λ bs. ok (take header_size bs)) (put_header-append header rest)
      ∙ ap ok (take_exact header_size (put_header header []) rest (length-put_header header []))

  pub index_layout : write_otb blobs es ≡ (put_header header [] ++ blobs) ++ put_index es []
  unfolding write_otb
  index_layout =
      put_header-append header (blobs ++ put_index es [])
      ∙ sym (append_assoc (put_header header []) blobs (put_index es []))

  pub length-front : length (put_header header [] ++ blobs) ≡ header_size + length blobs
  length-front =
      omega (arith, length-append (put_header header []) blobs, length-put_header header [])

  loaded :
      load_loop
        (suc (length es))
        index_chunk_entries
        (write_otb blobs es)
        (length es)
        (header_size + length blobs)
        0
      ≡ ok es
  loaded =
      let front = put_header header [] ++ blobs in
      ap
        (λ f.
          load_loop (suc (length es)) index_chunk_entries f (length es) (header_size + length blobs)
            0)
        index_layout
      ∙ ap
          (λ n.
            load_loop (suc (length es)) index_chunk_entries (front ++ put_index es []) (length es) n
              0)
          (sym length-front)
      ∙ load_loop_lem front es fits (omega (arith, length-front)) (suc (length es))
          index_chunk_entries 0 (omega arith) (omega arith)

  load_index_lem : load_index (write_otb blobs es) (length es) (header_size + length blobs) ≡ ok es
  unfolding load_index check_sorted
  load_index_lem = rw (loaded, sorted) refl

  -- The file of any blobs and of any index in key order opens, without evaluations, to a store with
  -- exactly the keys and offsets of that index, if its entries have the widths of the struct and the
  -- file is smaller than 2 ^ 64 bytes.
  pub open_store-write_otb :
      open_store (write_otb blobs es) none
      ≡ ok (record {
        otb = write_otb blobs es;
        ote = none;
        zobrists = map (λ e. e.zobrist) es;
        offsets_div4 = map (λ e. e.offset_div4) es;
      })
  unfolding open_store check_header check_evals
  open_store-write_otb =
      rw (read_header, get_header-put_header header [] header-HeaderFits, load_index_lem) refl
