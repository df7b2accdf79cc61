-- ===== src/Otb/RoundTrip.antt =====
-- libs/common/common.h: the structs between their bytes and their fields.
use out_of_book.Prelude.{ℕ, ◌+◌, ◌*◌, ◌^◌, ◌<◌, ◌≡◌, List, [], ◌∷◌, length, All, arith, refl}
use out_of_book.Otb.Bytes.{to_le, read_le-to_le}
use out_of_book.Otb.Format.{
  NodeBlobEntry, IndexEntry, OtbHeader, put_entry, put_entries, put_index_entry, put_index,
  put_header, get_entry, get_entries, get_index_entry, get_index, get_header,
}

-- The fields have the widths of the struct.
abbrev pub EntryFits : NodeBlobEntry → Type 0
EntryFits e =
    (e.move < 256 ^ 2)
    × (e.bucket < 256 ^ 1)
    × (e.count < 256 ^ 4)
    × (e.white_wins < 256 ^ 4)
    × (e.draws < 256 ^ 4)

abbrev pub IndexFits : IndexEntry → Type 0
IndexFits e = (e.zobrist < 256 ^ 8) × (e.offset_div4 < 256 ^ 4)

abbrev pub HeaderFits : OtbHeader → Type 0
HeaderFits h =
    (h.magic < 256 ^ 8) × (h.version < 256 ^ 2) × (h.nodes < 256 ^ 8) × (h.index_offset < 256 ^ 8)

pub get_entry-put_entry :
    (e : NodeBlobEntry) (rest : List ℕ) → EntryFits e → get_entry (put_entry e rest) ≡ (e, rest)
unfolding get_entry put_entry
get_entry-put_entry e rest h = rw (
  read_le-to_le 2 e.move _ h.0,
  read_le-to_le 1 e.bucket _ h.1,
  read_le-to_le 1 0 _ (omega arith),
  read_le-to_le 4 e.count _ h.2,
  read_le-to_le 4 e.white_wins _ h.3,
  read_le-to_le 4 e.draws rest h.4,
)

-- Any number of node entries reads back as itself from the bytes of its structs, and the reader stops
-- where they end, if every field has the width that the struct gives it.
pub get_entries-put_entries :
    (es : List NodeBlobEntry) (rest : List ℕ)
    → All EntryFits es
    → get_entries (length es) (put_entries es rest) ≡ (es, rest)
unfolding get_entries put_entries
get_entries-put_entries [] rest h = refl
get_entries-put_entries (e ∷ es) rest h =
    rw (get_entry-put_entry e (put_entries es rest) h.0, get_entries-put_entries es rest h.1)

-- Any number of index entries reads back as itself from the bytes of its structs, if every field has
-- the width that the struct gives it.
pub get_index-put_index :
    (es : List IndexEntry) (rest : List ℕ)
    → All IndexFits es
    → get_index (length es) (put_index es rest) ≡ (es, rest)
unfolding get_index put_index get_index_entry put_index_entry
get_index-put_index [] rest h = refl
get_index-put_index (e ∷ es) rest h = rw (
  read_le-to_le 8 e.zobrist _ h.0.0,
  read_le-to_le 4 e.offset_div4 _ h.0.1,
  read_le-to_le 4 0 _ (omega arith),
  get_index-put_index es rest h.1,
)

-- The header of an .otb file reads back as itself from its 64 bytes, if every field has the width that
-- the struct gives it.
pub get_header-put_header :
    (h : OtbHeader) (rest : List ℕ) → HeaderFits h → get_header (put_header h rest) ≡ (h, rest)
unfolding get_header put_header
get_header-put_header h rest f = rw (
  read_le-to_le 8 h.magic _ f.0,
  read_le-to_le 2 h.version _ f.1,
  read_le-to_le 6 0 _ (omega arith),
  read_le-to_le 8 h.nodes _ f.2,
  read_le-to_le 8 h.index_offset _ f.3,
)

-- The sizes that the readers assume.
pub length-put_entry :
    (e : NodeBlobEntry) (rest : List ℕ) → length (put_entry e rest) ≡ 16 + length rest
unfolding put_entry to_le
length-put_entry e rest = omega arith

pub length-put_entries :
    (es : List NodeBlobEntry) (rest : List ℕ)
    → length (put_entries es rest) ≡ length es * 16 + length rest
unfolding put_entries
length-put_entries [] rest = omega arith
length-put_entries (e ∷ es) rest =
    omega (arith, length-put_entry e (put_entries es rest), length-put_entries es rest)

pub length-put_index :
    (es : List IndexEntry) (rest : List ℕ)
    → length (put_index es rest) ≡ length es * 16 + length rest
unfolding put_index put_index_entry to_le
length-put_index [] rest = omega arith
length-put_index (e ∷ es) rest = omega (arith, length-put_index es rest)

pub length-put_header :
    (h : OtbHeader) (rest : List ℕ) → length (put_header h rest) ≡ 64 + length rest
unfolding put_header to_le
length-put_header h rest = omega arith
