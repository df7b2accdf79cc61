-- ===== src/BoardDb.antt =====
-- apps/fen_stats/BoardDB.cpp: the reader of the .otb and .ote files that the statistics program uses. A
-- file is its bytes; the `clear` before each read makes the reads independent of one another.
use out_of_book.Prelude.{
  ℕ, zero, suc, ◌+◌, ◌-◌, ◌*◌, ◌/◌, ◌%◌, ◌^◌, ◌≤◌, ◌<◌, ◌≡◌, List, [], ◌∷◌, ◌++◌, Bool, true, false,
  not, ◌==◌, ltb, leb, if◌then◌else◌, Option, none, some, length, take, drop,
}
use out_of_book.Spill.{u64}
use out_of_book.Otb.Bytes.{of_le, read_le}
use out_of_book.Otb.Format.{
  NodeBlobEntry, IndexEntry, OtbHeader, get_header, get_index_entry, get_entries, magic, version,
  max_children, header_size, node_header_size, entry_size,
}
use out_of_book.Otb.Store.{ote_magic, ote_entry_size}
pub mod Search
pub mod Agrees
pub mod Finds

-- The exceptions, in the order of the source.
pub data Error : Type 0 where
  no_otb_header bad_otb_magic bad_otb_version no_ote_header bad_ote_magic bad_ote_version : Error
  no_index_seek no_index_entry no_ote_seek no_ote_entry zobrist_mismatch : Error
  no_blob_seek no_blob_header too_many_entries bad_blob_size no_blob_entries : Error

-- What a call comes to; `out_of_fuel` is a loop that has not ended.
pub data Result {ℓ} (A : Type ℓ) : Type ℓ where
  ok : A → Result A
  throws : Error → Result A
  out_of_fuel : Result A

infixl 5 ◌>>=◌
abbrev pub ◌>>=◌ {ℓ κ} : {A : Type ℓ} {B : Type κ} → Result A → (A → Result B) → Result B
ok a >>= f = f a
throws e >>= f = throws e
out_of_fuel >>= f = out_of_fuel

-- `read` of `n` bytes at the place of the stream.
unfoldable pub read : Error → List ℕ → ℕ → ℕ → Result (List ℕ)
read e file offset n =
    if leb (offset + n) (length file) then ok (take n (drop offset file)) else throws e

-- `seekg` and `read`. An offset that is negative as a `streamoff` is refused.
unfoldable pub seek_read : Error → Error → List ℕ → ℕ → ℕ → Result (List ℕ)
seek_read no_seek e file offset n =
    if ltb offset (2 ^ 63) then read e file offset n else throws no_seek

pub record BoardDb : Type 0 where
  pub otb : List ℕ
  pub header : OtbHeader
  pub ote : Option (List ℕ)

unfoldable pub check_header : OtbHeader → Result OtbHeader
check_header h =
    if not (h.magic == magic)
    then throws bad_otb_magic
    else if not (h.version == version)
    then throws bad_otb_version
    else ok h

-- The constructor from an .otb file.
unfoldable pub open_otb : List ℕ → Result BoardDb
open_otb otb = do
  bytes ← read no_otb_header otb 0 header_size
  h ← check_header (get_header bytes).0
  ok (record { otb = otb; header = h; ote = none })

-- The constructor from both files.
unfoldable pub open_ote : List ℕ → List ℕ → Result BoardDb
open_ote otb ote = do
  db ← open_otb otb
  bytes ← read no_ote_header ote 0 header_size
  if not ((read_le 8 bytes).0 == ote_magic)
      then throws bad_ote_magic
      else if not ((read_le 2 (drop 8 bytes)).0 == version)
      then throws bad_ote_version
      else ok (record db { ote = some ote })

unfoldable pub read_index_entry : BoardDb → ℕ → Result IndexEntry
read_index_entry db index = do
  bytes ←
      seek_read no_index_seek no_index_entry db.otb
        ((db.header.index_offset + index * entry_size) % u64) entry_size
  ok (get_index_entry bytes).0

-- The loop of `findIndex`: the place where `lo` and `hi` meet.
unfoldable pub search_loop : ℕ → BoardDb → ℕ → ℕ → ℕ → Result ℕ
search_loop zero db zobrist lo hi = if ltb lo hi then out_of_fuel else ok lo
search_loop (suc fuel) db zobrist lo hi =
    let mid = lo + (hi - lo) / 2 in
    let rest = read_index_entry db mid >>= λ e.
    search_loop fuel db zobrist (if ltb e.zobrist zobrist then mid + 1 else lo)
      (if ltb e.zobrist zobrist then hi else mid) in
    if ltb lo hi then rest else ok lo

-- What is done with that place: `none` is the result false.
unfoldable pub check_place : BoardDb → ℕ → ℕ → Result (Option ℕ)
check_place db zobrist lo =
    if leb db.header.nodes lo
    then ok none
    else do e ← read_index_entry db lo; ok (if not (e.zobrist == zobrist) then none else some lo)

-- `hi - lo` has 64 bits, and every round halves it.
unfoldable pub find_index : BoardDb → ℕ → Result (Option ℕ)
find_index db zobrist = do
  lo ← search_loop 64 db zobrist 0 db.header.nodes
  check_place db zobrist lo

-- The entries behind a blob's header. The size check repeats the one before it.
unfoldable pub read_blob_entries : List ℕ → ℕ → ℕ → Result (List NodeBlobEntry)
read_blob_entries otb offset n =
    if ltb max_children n
    then throws too_many_entries
    else if ltb (node_header_size + max_children * entry_size) (node_header_size + n * entry_size)
    then throws bad_blob_size
    else if n == 0
    then ok []
    else (read no_blob_entries otb (offset + node_header_size) (n * entry_size) >>= λ bytes.
        ok (get_entries n bytes).0)

unfoldable pub read_node : BoardDb → ℕ → ℕ → Result (List NodeBlobEntry)
read_node db index zobrist = do
  e ← read_index_entry db index
  if not (e.zobrist == zobrist) then throws zobrist_mismatch else do
    header ← seek_read no_blob_seek no_blob_header db.otb (e.offset_div4 * 4) node_header_size
    read_blob_entries db.otb (e.offset_div4 * 4) (of_le (take 2 header))

unfoldable pub read_ote_entry : List ℕ → ℕ → Result (List ℕ)
read_ote_entry ote index =
    seek_read no_ote_seek no_ote_entry ote ((header_size + index * ote_entry_size) % u64)
      ote_entry_size

-- `NodeResult`, where the evaluations are the bytes of their struct.
pub record NodeResult : Type 0 where
  pub entries : List NodeBlobEntry
  pub ote : Option (List ℕ)

unfoldable pub read_evals : Option (List ℕ) → ℕ → Result (Option (List ℕ))
read_evals none index = ok none
read_evals (some ote) index = do bytes ← read_ote_entry ote index; ok (some bytes)

unfoldable pub read_result : BoardDb → ℕ → Option ℕ → Result (Option NodeResult)
read_result db zobrist none = ok none
read_result db zobrist (some index) = do
  entries ← read_node db index zobrist
  evals ← read_evals db.ote index
  ok (some (record { entries = entries; ote = evals }))

-- `find`: `none` is the result false.
unfoldable pub find : BoardDb → ℕ → Result (Option NodeResult)
find db zobrist = do place ← find_index db zobrist; read_result db zobrist place
