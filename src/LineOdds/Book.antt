-- ===== src/LineOdds/Book.antt =====
-- apps/line_odds/Book.cpp: the .otb file mapped for reading, whose index stays where it is. A file is
-- its bytes.
use out_of_book.Prelude.{
  ℕ, ◌+◌, ◌-◌, ◌*◌, ◌/◌, ◌%◌, ◌≡◌, List, [], Bool, not, ◌==◌, ltb, leb, ◌||◌, if◌then◌else◌, Option,
  none, some, length, get_or, take, drop, map,
}
use out_of_book.Otb.Bytes.{of_le}
use out_of_book.Otb.Format.{
  NodeBlobEntry, IndexEntry, OtbHeader, get_header, get_index, get_entries, magic, version,
  header_size, node_header_size, entry_size,
}
use out_of_book.Otb.Search.{find_key}
pub mod Agrees

-- The exceptions, in the order of the source, and the assertion.
pub data Error : Type 0 where
  too_small bad_magic bad_version bad_index misaligned : Error

pub data Result {ℓ} (A : Type ℓ) : Type ℓ where
  ok : A → Result A
  throws : Error → Result A

pub record Book : Type 0 where
  pub data_bytes : List ℕ
  pub index : List IndexEntry

unfoldable pub bad_layout : OtbHeader → ℕ → Bool
bad_layout h size = ltb size h.index_offset || not ((size - h.index_offset) / entry_size == h.nodes)

-- `alignof(IndexEntry)`. The map itself begins on a page.
abbrev pub index_alignment : ℕ
index_alignment = 8

unfoldable pub is_aligned : ℕ → Bool
is_aligned offset = offset % index_alignment == 0

unfoldable pub check_header : List ℕ → OtbHeader → Result Book
check_header file h =
    if not (h.magic == magic)
    then throws bad_magic
    else if not (h.version == version)
    then throws bad_version
    else if bad_layout h (length file)
    then throws bad_index
    else if not (is_aligned h.index_offset)
    then throws misaligned
    else ok (record { data_bytes = file; index = (get_index h.nodes (drop h.index_offset file)).0 })

-- The constructor.
unfoldable pub open_book : List ℕ → Result Book
open_book file =
    if ltb (length file) header_size
    then throws too_small
    else check_header file (get_header (take header_size file)).0

-- What is read through a pointer into the map; `none` is a read behind its end.
unfoldable pub view : List ℕ → ℕ → ℕ → Option (List ℕ)
view file offset n =
    if leb (offset + n) (length file) then some (take n (drop offset file)) else none

-- The span of a blob's entries, behind its header.
unfoldable pub span : List ℕ → ℕ → ℕ → Option (List NodeBlobEntry)
span file offset n =
    if n == 0 then some [] else elim (view file (offset + node_header_size) (n * entry_size)) [
      | none ↦ none
      | some bytes ↦ some (get_entries n bytes).0
    ]

unfoldable pub blob_at : List ℕ → ℕ → Option (List NodeBlobEntry)
blob_at file offset = elim (view file offset node_header_size) [
  | none ↦ none
  | some header ↦ span file offset (of_le (take 2 header))
]

unfoldable pub at : Book → ℕ → Option (List NodeBlobEntry)
at b zobrist = elim (find_key (map (λ e. e.zobrist) b.index) zobrist) [
  | none ↦ some []
  | some i ↦ blob_at b.data_bytes (get_or (map (λ e. e.offset_div4) b.index) i 0 * 4)
]
