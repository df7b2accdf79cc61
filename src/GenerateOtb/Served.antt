-- ===== src/GenerateOtb/Served.antt =====
-- generate_otb.cpp and OtbStore.cpp: the file of a walk, as the server opens it and looks
-- positions up in it.
use out_of_book.Prelude.{
  ℕ, zero, suc, ◌+◌, ◌*◌, ◌^◌, ◌≤◌, ◌<◌, ◌≡◌, ◌≢◌, ◌∙◌, ◌⊎◌, List, [], ◌∷◌, ◌++◌, true, false, map,
  none, some, length, get_or, get_elem?, arith, refl, ap, sym, Bool-cases, inl, inr, All,
  length-append,
}
use mathlib.Core.Path.{subst}
use mathlib.Core.List.{append_assoc}
use out_of_book.Spill.{SpillRecord, u64}
use out_of_book.Otb.Format.{
  NodeBlobEntry, IndexEntry, OtbHeader, put_header, put_node, put_index, header_size, max_children,
  magic, version,
}
use out_of_book.Otb.RoundTrip.{IndexFits, length-put_header}
use out_of_book.Otb.Search.{Ascending, is_sorted, find_key-some, find_key-none}
use out_of_book.Otb.Store.{OtbStore, ok, open_store, find, read_node, read_blob}
use out_of_book.Otb.Store.Blob.{read_blob-put_node, put_node-append}
use out_of_book.GenerateOtb.{write_otb}
use out_of_book.GenerateOtb.Index.{Entry, PositionIndex}
use out_of_book.GenerateOtb.Opens.{put_header-append, open_store-write_otb}
use out_of_book.GenerateOtb.Walk.{Walk, dfs, index_entries, finish}
use out_of_book.GenerateOtb.Walk.Entries.{RecordFits}
use out_of_book.GenerateOtb.Walk.Blobs.{BlobAt, Later, Fresh, dfs-Extends}

-- Every visited entry has its blob.
abbrev Written : List ℕ → Entry → Type 0
Written out e = e.visited ≡ true → BlobAt out e.slot

Written-of_Later :
    (records : List SpillRecord) (out : List ℕ) (es fs : List Entry)
    → All (λ e. e.visited ≡ false) es
    → Later records out es fs
    → All (Written out) fs
Written-of_Later records out [] [] new h = tt
Written-of_Later records out [] (f ∷ fs) new h = absurd h
Written-of_Later records out (e ∷ es) [] new h = absurd h
Written-of_Later records out (e ∷ es) (f ∷ fs) new h =
    (one h.0, Written-of_Later records out es fs new.1 h.1)
  where
    one : (e ≡ f) ⊎ Fresh records out e f → Written out f
    one (inl p) seen = absurd (let q = ap (λ x. x.visited) p in let n = new.0 in ground arith)
    one (inr (a, b, c, d)) seen = d.at

keys_of_Later :
    (records : List SpillRecord) (out : List ℕ) (es fs : List Entry)
    → Later records out es fs
    → map (λ e. e.key) fs ≡ map (λ e. e.key) es
keys_of_Later records out [] [] h = refl
keys_of_Later records out [] (f ∷ fs) h = absurd h
keys_of_Later records out (e ∷ es) [] h = absurd h
keys_of_Later records out (e ∷ es) (f ∷ fs) h =
    rw (one h.0, keys_of_Later records out es fs h.1) refl
  where
    one : (e ≡ f) ⊎ Fresh records out e f → f.key ≡ e.key
    one (inl p) = ap (λ x. x.key) (sym p)
    one (inr (a, b, c, d)) = c

index_entries-All :
    (P : ℕ → Type 0) (es : List Entry)
    → All P (map (λ e. e.key) es)
    → All P (map (λ x. x.zobrist) (index_entries es))
unfolding index_entries
index_entries-All P [] h = tt
index_entries-All P (e ∷ es) h = elim (Bool-cases e.visited) [
  | inl seen ↦ rw seen (h.0, index_entries-All P es h.1)
  | inr new ↦ rw new (index_entries-All P es h.1)
]

index_entries-Ascending :
    (es : List Entry)
    → Ascending (map (λ e. e.key) es)
    → Ascending (map (λ x. x.zobrist) (index_entries es))
unfolding index_entries
index_entries-Ascending [] h = tt
index_entries-Ascending (e ∷ es) h = elim (Bool-cases e.visited) [
  | inl seen ↦ rw seen (index_entries-All (λ y. e.key ≤ y) es h.0, index_entries-Ascending es h.1)
  | inr new ↦ rw new (index_entries-Ascending es h.1)
]

is_sorted_of_Ascending : (xs : List ℕ) → Ascending xs → is_sorted xs ≡ true
unfolding is_sorted
is_sorted_of_Ascending [] h = refl
is_sorted_of_Ascending (x ∷ []) h = refl
is_sorted_of_Ascending (x ∷ y ∷ rest) h =
    let tail = is_sorted_of_Ascending (y ∷ rest) h.1 in let first : x ≤ y = h.0.0 in ground arith

-- An index entry points at a blob.
abbrev Pointed : List ℕ → IndexEntry → Type 0
Pointed out x = BlobAt out x.offset_div4

index_entries-Pointed :
    (out : List ℕ) (es : List Entry) → All (Written out) es → All (Pointed out) (index_entries es)
unfolding index_entries
index_entries-Pointed out [] h = tt
index_entries-Pointed out (e ∷ es) h = elim (Bool-cases e.visited) [
  | inl seen ↦ rw seen (h.0 seen, index_entries-Pointed out es h.1)
  | inr new ↦ rw new (index_entries-Pointed out es h.1)
]

index_entries-fit :
    (out : List ℕ) (xs : List IndexEntry)
    → All (Pointed out) xs
    → All (λ z. z < 2 ^ 64) (map (λ x. x.zobrist) xs)
    → All IndexFits xs
index_entries-fit out [] h k = tt
index_entries-fit out (x ∷ xs) h k =
    ((omega (arith, k.0), h.0.small), index_entries-fit out xs h.1 k.1)

-- The blob that the index entry at a place points at.
blob_of :
    (out : List ℕ) (xs : List IndexEntry) (i z : ℕ)
    → All (Pointed out) xs
    → get_elem? (map (λ x. x.zobrist) xs) i ≡ some z
    → BlobAt out (get_or (map (λ x. x.offset_div4) xs) i 0)
blob_of out [] i z h e = absurd (cc)
blob_of out (x ∷ xs) zero z h e = h.0
blob_of out (x ∷ xs) (suc i) z h e = blob_of out xs i z h.1 e

regroup : (f b p a x : List ℕ) → f ++ ((b ++ (p ++ a)) ++ x) ≡ (f ++ b) ++ (p ++ (a ++ x))
regroup f b p a x =
    ap (λ o. f ++ o) (append_assoc b (p ++ a) x ∙ ap (λ o. b ++ o) (append_assoc p a x))
    ∙ sym (append_assoc f b (p ++ (a ++ x)))

header_of : List ℕ → List IndexEntry → OtbHeader
header_of out xs = record {
  magic = magic;
  version = version;
  nodes = length xs;
  index_offset = header_size + length out;
}

front_layout :
    (out : List ℕ) (xs : List IndexEntry) (slot : ℕ) (b : BlobAt out slot)
    → write_otb out xs
      ≡ (put_header (header_of out xs) [] ++ b.before)
        ++ put_node b.node (b.after ++ put_index xs [])
unfolding write_otb header_of
front_layout out xs slot b =
    put_header-append (header_of out xs) (out ++ put_index xs [])
    ∙ ap (λ o. put_header (header_of out xs) [] ++ (o ++ put_index xs [])) b.bytes
    ∙ regroup (put_header (header_of out xs) []) b.before (put_node b.node []) b.after
        (put_index xs [])
    ∙ ap (λ o. (put_header (header_of out xs) [] ++ b.before) ++ o)
        (sym (put_node-append b.node (b.after ++ put_index xs [])))

read_blob_lem :
    (out : List ℕ) (xs : List IndexEntry) (slot : ℕ) (b : BlobAt out slot)
    → read_blob (write_otb out xs) (slot * 4) ≡ ok b.node
read_blob_lem out xs slot b =
    let front = put_header (header_of out xs) [] ++ b.before in
    ap (λ file. read_blob file (slot * 4)) (front_layout out xs slot b)
    ∙ ap (read_blob (front ++ put_node b.node (b.after ++ put_index xs []))) (
        omega (
          arith,
          b.place,
          length-append (put_header (header_of out xs) []) b.before,
          length-put_header (header_of out xs) [],
        ))
    ∙ read_blob-put_node front (b.after ++ put_index xs []) b.node b.fits b.few

-- What the server makes of a file: it opens, every position that it finds has a node that it reads, and
-- a position that it does not find was not visited.
pub record Serves (w : Walk) (s : OtbStore) : Type 0 where
  pub opens : open_store (finish w) none ≡ ok s
  pub found :
      (z i : ℕ)
      → find s z ≡ some i
      → (node : List NodeBlobEntry) × (read_node s i ≡ ok node) × (length node ≤ max_children)
  pub missing : (z : ℕ) → find s z ≡ none → All (λ e. e.visited ≡ true → e.key ≢ z) w.index.entries

entries_seen :
    (e : Entry) (es : List Entry)
    → e.visited ≡ true
    → index_entries (e ∷ es) ≡ record { zobrist = e.key; offset_div4 = e.slot } ∷ index_entries es
unfolding index_entries
entries_seen e es seen = rw seen refl

entries_new :
    (e : Entry) (es : List Entry) → e.visited ≡ false → index_entries (e ∷ es) ≡ index_entries es
unfolding index_entries
entries_new e es new = rw new refl

abbrev Unlisted : ℕ → List IndexEntry → Type 0
Unlisted z xs = (i : ℕ) → get_elem? (map (λ x. x.zobrist) xs) i ≢ some z

-- A visited entry stands in the index.
listed :
    (z : ℕ) (es : List Entry)
    → Unlisted z (index_entries es)
    → All (λ e. e.visited ≡ true → e.key ≢ z) es
listed z [] h = tt
listed z (e ∷ es) h = elim (Bool-cases e.visited) [
  | inl seen ↦
      let h' = subst (Unlisted z) (entries_seen e es seen) h in
      (λ s k. h' 0 (ap some k), listed z es (λ i. h' (suc i)))
  | inr new ↦
      (λ s k. absurd (ground arith), listed z es (subst (Unlisted z) (entries_new e es new) h))
]

-- The store that the file opens to.
abbrev pub store_of : Walk → OtbStore
store_of w = record {
  otb = write_otb w.out (index_entries w.index.entries);
  ote = none;
  zobrists = map (λ x. x.zobrist) (index_entries w.index.entries);
  offsets_div4 = map (λ x. x.offset_div4) (index_entries w.index.entries);
}

module _ (w : Walk) (written : All (Written w.out) w.index.entries)
    (ascending : Ascending (map (λ e. e.key) w.index.entries))
    (narrow : All (λ z. z < 2 ^ 64) (map (λ e. e.key) w.index.entries))
    (small : header_size + length w.out + length (index_entries w.index.entries) * 16 < u64) where
  pointed : All (Pointed w.out) (index_entries w.index.entries)
  pointed = index_entries-Pointed w.out w.index.entries written

  store_opens : open_store (finish w) none ≡ ok (store_of w)
  unfolding finish
  store_opens =
      open_store-write_otb w.out (index_entries w.index.entries)
        (index_entries-fit w.out (index_entries w.index.entries) pointed
          (index_entries-All (λ z. z < 2 ^ 64) w.index.entries narrow))
        small
        (is_sorted_of_Ascending (map (λ x. x.zobrist) (index_entries w.index.entries))
          (index_entries-Ascending w.index.entries ascending))

  store_found :
      (z i : ℕ)
      → find (store_of w) z ≡ some i
      → (node : List NodeBlobEntry) × (read_node (store_of w) i ≡ ok node)
        × (length node ≤ max_children)
  unfolding find read_node
  store_found z i e =
      let (at, before) =
        find_key-some (map (λ x. x.zobrist) (index_entries w.index.entries)) z i e in
      let b = blob_of w.out (index_entries w.index.entries) i z pointed at in
      (b.node, read_blob_lem w.out (index_entries w.index.entries) _ b, b.few)

  store_missing :
      (z : ℕ) → find (store_of w) z ≡ none → All (λ e. e.visited ≡ true → e.key ≢ z) w.index.entries
  unfolding find
  store_missing z e = listed z w.index.entries (
      find_key-none (map (λ x. x.zobrist) (index_entries w.index.entries)) z
        (index_entries-Ascending w.index.entries ascending) e)

  store-Serves : Serves w (store_of w)
  store-Serves = record { opens = store_opens; found = store_found; missing = store_missing }

module _ (Position : Type 0) (key : Position → ℕ) (do_move : Position → ℕ → Position)
    (records : List SpillRecord) where
  -- Take an index in ascending order of 64-bit keys, none of them visited, an aggregate whose fields
  -- have the widths of a record, and a walk over it from any position that no assertion stops. If the
  -- file it writes is smaller than 2 ^ 64 bytes, then the server opens that file; for every position
  -- that it finds there it reads a node of at most 1000 entries; and a position that it does not find
  -- is none of those that the walk visited.
  pub finish-Serves :
      (depth root : ℕ) (pos : Position) (index : PositionIndex) (w : Walk)
      → All RecordFits records
      → All (λ e. e.visited ≡ false) index.entries
      → Ascending (map (λ e. e.key) index.entries)
      → All (λ z. z < 2 ^ 64) (map (λ e. e.key) index.entries)
      → dfs Position key do_move records depth root pos (record { index = index; out = [] })
        ≡ some w
      → header_size + length w.out + length (index_entries w.index.entries) * 16 < u64
      → (s : OtbStore) × Serves w s
  finish-Serves depth root pos index w fits new ascending narrow walked small =
      let start : Walk = record { index = index; out = [] } in
      let ext = dfs-Extends Position key do_move records fits depth root pos start w walked in
      let keys = sym (keys_of_Later records w.out index.entries w.index.entries ext.later) in
      (
        store_of w,
        store-Serves w (Written-of_Later records w.out index.entries w.index.entries new ext.later)
            (subst Ascending keys ascending) (subst (All (λ z. z < 2 ^ 64)) keys narrow) small,
      )
