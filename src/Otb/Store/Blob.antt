-- ===== src/Otb/Store/Blob.antt =====
-- OtbStore.cpp: `readNode` on a node blob as generate_otb.cpp writes it.
use out_of_book.Prelude.{
  ℕ, zero, suc, ◌+◌, ◌*◌, ◌≤◌, ◌≡◌, ◌∙◌, List, [], ◌∷◌, ◌++◌, false, ltb, length, take, arith, refl,
  ap, sym, All, length-append, take_exact, drop_exact,
}
use mathlib.Core.List.{append_assoc}
use out_of_book.Otb.Bytes.{to_le, of_le}
use out_of_book.Otb.Format.{
  NodeBlobEntry, put_entry, put_entries, put_node, max_children, entry_size, node_header_size,
}
use out_of_book.Otb.RoundTrip.{EntryFits, get_entries-put_entries, length-put_entries}
use out_of_book.Otb.Store.{ok, read_at, read_entries, read_blob}

-- A read inside of what stands behind `before`.
pub read_at-append :
    (before body : List ℕ) (n offset : ℕ)
    → offset ≡ length before
    → n ≤ length body
    → read_at (before ++ body) n offset ≡ ok (take n body)
unfolding read_at
read_at-append before body zero offset e h = refl
read_at-append before body (suc n) offset e h =
    let d = drop_exact offset before body (sym e) in ground (arith, length-append before body)

put_entries-append :
    (es : List NodeBlobEntry) (rest : List ℕ) → put_entries es rest ≡ put_entries es [] ++ rest
unfolding put_entries put_entry to_le
put_entries-append [] rest = refl
put_entries-append (e ∷ es) rest = rw (put_entries-append es rest)

pub put_node-append :
    (es : List NodeBlobEntry) (rest : List ℕ) → put_node es rest ≡ put_node es [] ++ rest
unfolding put_node to_le
put_node-append es rest = rw (put_entries-append es rest) refl

-- The first four bytes of a blob hold its number of entries.
node_count :
    (es : List NodeBlobEntry) (rest : List ℕ)
    → length es ≤ max_children
    → of_le (take 2 (take 4 (put_node es rest))) ≡ length es
unfolding put_node to_le of_le
node_count es rest h = omega arith

length-put_node :
    (es : List NodeBlobEntry) (rest : List ℕ)
    → length (put_node es rest) ≡ 4 + length es * 16 + length rest
unfolding put_node to_le
length-put_node es rest = omega (arith, length-put_entries es rest)

count_header : List NodeBlobEntry → List ℕ
count_header es = to_le 2 (length es) ++ to_le 2 0

behind_header :
    (before : List ℕ) (es : List NodeBlobEntry) (after : List ℕ)
    → before ++ put_node es after ≡ (before ++ count_header es) ++ put_entries es after
unfolding put_node to_le count_header
behind_header before es after = sym (append_assoc before (count_header es) (put_entries es after))

length-count_header :
    (before : List ℕ) (es : List NodeBlobEntry)
    → length before + node_header_size ≡ length (before ++ count_header es)
unfolding to_le count_header
length-count_header before es = omega (arith, length-append before (count_header es))

read_at_entries :
    (before after : List ℕ) (es : List NodeBlobEntry)
    → read_at
        (before ++ put_node es after)
        (length es * entry_size)
        (length before + node_header_size)
      ≡ ok (put_entries es [])
read_at_entries before after es =
    let long = length-put_entries es after in
    let exact =
      take_exact (length es * 16) (put_entries es []) after
        (omega (arith, length-put_entries es [])) in
    ap (λ file. read_at file (length es * entry_size) (length before + node_header_size))
      (behind_header before es after)
    ∙ read_at-append (before ++ count_header es) (put_entries es after) (length es * entry_size)
        (length before + node_header_size) (length-count_header before es) (omega (arith, long))
    ∙ ap (λ bs. ok (take (length es * 16) bs)) (put_entries-append es after)
    ∙ ap ok exact

within : (es : List NodeBlobEntry) → length es ≤ max_children → ltb max_children (length es) ≡ false
within es h = ground arith

read_entries_lem :
    (before after : List ℕ) (es : List NodeBlobEntry)
    → All EntryFits es
    → length es ≤ max_children
    → read_entries (before ++ put_node es after) (length before) (length es) ≡ ok es
unfolding read_entries
read_entries_lem before after es fits small =
    rw (within es small, read_at_entries before after es, get_entries-put_entries es [] fits)

-- `readNode` at the place where a node with at most 1000 children was written returns exactly its
-- entries, if their fields have the widths of the struct, whatever stands before and after them.
pub read_blob-put_node :
    (before after : List ℕ) (es : List NodeBlobEntry)
    → All EntryFits es
    → length es ≤ max_children
    → read_blob (before ++ put_node es after) (length before) ≡ ok es
unfolding read_blob
read_blob-put_node before after es fits small = rw (
  read_at-append before (put_node es after) 4 (length before) refl
      (omega (arith, length-put_node es after)),
  node_count es after small,
  read_entries_lem before after es fits small,
)
