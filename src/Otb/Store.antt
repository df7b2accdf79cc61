-- ===== src/Otb/Store.antt =====
-- web/server/OtbStore.cpp: the store that the server reads positions from. A file is its bytes.
use out_of_book.Prelude.{
  ℕ, zero, suc, ◌+◌, ◌-◌, ◌*◌, ◌/◌, ◌%◌, ◌≤◌, ◌<◌, ◌≡◌, List, [], ◌∷◌, ◌++◌, Bool, true, false, not,
  ◌==◌, ltb, leb, if◌then◌else◌, Option, none, some, length, get_or, take, drop, map, min,
}
use out_of_book.Spill.{u64}
use out_of_book.Text.{is_empty}
use out_of_book.Otb.Bytes.{of_le, read_le}
use out_of_book.Otb.Format.{
  NodeBlobEntry, IndexEntry, OtbHeader, get_header, get_index, get_entries, magic, version,
  max_children, header_size, node_header_size, entry_size,
}
use out_of_book.Otb.Search.{find_key, is_sorted}
pub mod ReadExact
pub mod Blob
pub mod Index

pub data Error : Type 0 where
  read_failed end_of_file not_otb bad_otb_version index_not_sorted too_many_entries : Error
  not_ote bad_ote_version ote_size_mismatch no_evals : Error

pub data Result {ℓ} (A : Type ℓ) : Type ℓ where
  ok : A → Result A
  err : Error → Result A

infixl 5 ◌>>=◌
abbrev pub ◌>>=◌ {ℓ κ} : {A : Type ℓ} {B : Type κ} → Result A → (A → Result B) → Result B
ok a >>= f = f a
err e >>= f = err e

-- What one call of `pread` may do: stop with EINTR, fail, or deliver up to `n + 1` bytes.
pub data Pread : Type 0 where
  interrupted failed : Pread
  delivers : ℕ → Pread

-- `readExact`, along the outcomes of its calls; `none` while it still waits for one.
abbrev pub prepend : List ℕ → Option (Result (List ℕ)) → Option (Result (List ℕ))
prepend chunk none = none
prepend chunk (some (err e)) = some (err e)
prepend chunk (some (ok rest)) = some (ok (chunk ++ rest))

unfoldable pub read_exact : List Pread → List ℕ → ℕ → ℕ → Option (Result (List ℕ))
read_exact [] file bytes offset = if bytes == 0 then some (ok []) else none
read_exact (interrupted ∷ calls) file bytes offset =
    let rest = read_exact calls file bytes offset in if bytes == 0 then some (ok []) else rest
read_exact (failed ∷ calls) file bytes offset =
    if bytes == 0 then some (ok []) else some (err read_failed)
read_exact (delivers n ∷ calls) file bytes offset =
    let chunk = take (min (suc n) bytes) (drop offset file) in
    let rest = read_exact calls file (bytes - length chunk) (offset + length chunk) in
    if bytes == 0
    then some (ok [])
    else if is_empty chunk
    then some (err end_of_file)
    else prepend chunk rest

-- The bytes that `readExact` returns if no call of `pread` fails.
unfoldable pub read_at : List ℕ → ℕ → ℕ → Result (List ℕ)
read_at file bytes offset =
    if (bytes == 0)
    then ok []
    else if leb (offset + bytes) (length file)
    then ok (take bytes (drop offset file))
    else err end_of_file

pub record OtbStore : Type 0 where
  pub otb : List ℕ
  pub ote : Option (List ℕ)
  pub zobrists : List ℕ
  pub offsets_div4 : List ℕ

abbrev pub ote_magic : ℕ
ote_magic = 0x48c6_d042_4d50_5ead + 0x8000_0000_0000_0000

abbrev pub ote_entry_size : ℕ
ote_entry_size = 92

-- The entries of one chunk in front of the later ones.
unfoldable pub append_entries :
    ℕ → Result (List ℕ) → Result (List IndexEntry) → Result (List IndexEntry)
append_entries n read later = do bytes ← read; rest ← later; ok ((get_index n bytes).0 ++ rest)

-- The loop of `loadIndex` over chunks of `chunk` entries. Each round but the last reads `chunk` more
-- entries, so that the fuel `nodes + 1` is enough.
unfoldable pub load_loop : ℕ → ℕ → List ℕ → ℕ → ℕ → ℕ → Result (List IndexEntry)
load_loop zero chunk file nodes index_offset start = ok []
load_loop (suc fuel) chunk file nodes index_offset start =
    let n = min chunk (nodes - start) in
    let read = read_at file (n * entry_size) ((index_offset + start * entry_size) % u64) in
    let rest = load_loop fuel chunk file nodes index_offset (start + chunk) in
    if ltb start nodes then append_entries n read rest else ok []

abbrev pub index_chunk_entries : ℕ
index_chunk_entries = 0x10_0000

unfoldable pub check_sorted : List IndexEntry → Result (List IndexEntry)
check_sorted es = if is_sorted (map (λ e. e.zobrist) es) then ok es else err index_not_sorted

unfoldable pub load_index : List ℕ → ℕ → ℕ → Result (List IndexEntry)
load_index file nodes index_offset = do
  es ← load_loop (suc nodes) index_chunk_entries file nodes index_offset 0
  check_sorted es

unfoldable pub check_header : OtbHeader → Result OtbHeader
check_header h =
    if not (h.magic == magic)
    then err not_otb
    else if not (h.version == version)
    then err bad_otb_version
    else ok h

-- The checks on an .ote file, which is a flat array parallel to the index.
unfoldable pub check_ote : List ℕ → ℕ → Result (Unit {0})
check_ote ote nodes = do
  bytes ← read_at ote header_size 0
  if not ((read_le 8 bytes).0 == ote_magic)
      then err not_ote
      else if not ((read_le 2 (drop 8 bytes)).0 == version)
      then err bad_ote_version
      else if not (length ote == (header_size + nodes * ote_entry_size) % u64)
      then err ote_size_mismatch
      else ok tt

unfoldable pub check_evals : Option (List ℕ) → ℕ → Result (Unit {0})
check_evals none nodes = ok tt
check_evals (some ote) nodes = check_ote ote nodes

-- The constructor: `none` stands for an empty path.
unfoldable pub open_store : List ℕ → Option (List ℕ) → Result OtbStore
open_store otb ote = do
  bytes ← read_at otb header_size 0
  h ← check_header (get_header bytes).0
  es ← load_index otb h.nodes h.index_offset
  _ ← check_evals ote h.nodes
  ok (record {
    otb = otb;
    ote = ote;
    zobrists = map (λ e. e.zobrist) es;
    offsets_div4 = map (λ e. e.offset_div4) es;
  })

unfoldable pub find : OtbStore → ℕ → Option ℕ
find s zobrist = find_key s.zobrists zobrist

-- `readNode`. The caller has the index from `find`.
unfoldable pub read_entries : List ℕ → ℕ → ℕ → Result (List NodeBlobEntry)
read_entries file offset n = if ltb max_children n then err too_many_entries else do
  bytes ← read_at file (n * entry_size) (offset + node_header_size)
  ok (get_entries n bytes).0

unfoldable pub read_blob : List ℕ → ℕ → Result (List NodeBlobEntry)
read_blob file offset = do
  header ← read_at file node_header_size offset
  read_entries file offset (of_le (take 2 header))

unfoldable pub read_node : OtbStore → ℕ → Result (List NodeBlobEntry)
read_node s index = read_blob s.otb (get_or s.offsets_div4 index 0 * 4)

-- `readEvals`: the bytes of an `OteEntry`.
unfoldable pub read_evals_of : Option (List ℕ) → ℕ → Result (List ℕ)
read_evals_of none index = err no_evals
read_evals_of (some ote) index = read_at ote ote_entry_size (header_size + index * ote_entry_size)

unfoldable pub read_evals : OtbStore → ℕ → Result (List ℕ)
read_evals s index = read_evals_of s.ote index
