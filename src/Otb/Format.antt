-- ===== src/Otb/Format.antt =====
-- libs/common/common.h: the headers and entries of an .otb file, byte by byte, without padding other
-- than the one the structs have.
use out_of_book.Prelude.{ℕ, zero, suc, List, [], ◌∷◌, ◌++◌, length, drop, replicate}
use out_of_book.Otb.Bytes.{to_le, read_le}

pub record NodeBlobEntry : Type 0 where
  pub move : ℕ
  pub bucket : ℕ
  pub count : ℕ
  pub white_wins : ℕ
  pub draws : ℕ

pub record IndexEntry : Type 0 where
  pub zobrist : ℕ
  pub offset_div4 : ℕ

pub record OtbHeader : Type 0 where
  pub magic : ℕ
  pub version : ℕ
  pub nodes : ℕ
  pub index_offset : ℕ

abbrev pub magic : ℕ
magic = 0x48c6_d042_4d50_5ead

abbrev pub version : ℕ
version = 0

abbrev pub max_children : ℕ
max_children = 1000

-- `sizeof` of the header, of a node blob's header and of the two kinds of entry
abbrev pub header_size : ℕ
header_size = 64

abbrev pub node_header_size : ℕ
node_header_size = 4

abbrev pub entry_size : ℕ
entry_size = 16

-- The bytes of a struct, in front of what follows.
unfoldable pub put_entry : NodeBlobEntry → List ℕ → List ℕ
put_entry e rest =
    to_le 2 e.move
    ++ (to_le 1 e.bucket
        ++ (to_le 1 0 ++ (to_le 4 e.count ++ (to_le 4 e.white_wins ++ (to_le 4 e.draws ++ rest)))))

unfoldable pub put_entries : List NodeBlobEntry → List ℕ → List ℕ
put_entries [] rest = rest
put_entries (e ∷ es) rest = put_entry e (put_entries es rest)

-- `out.write(&node, sizeof(NodeBlobHeader) + node.nEntries * sizeof(NodeBlobEntry))`
unfoldable pub put_node : List NodeBlobEntry → List ℕ → List ℕ
put_node es rest = to_le 2 (length es) ++ (to_le 2 0 ++ put_entries es rest)

unfoldable pub put_index_entry : IndexEntry → List ℕ → List ℕ
put_index_entry e rest = to_le 8 e.zobrist ++ (to_le 4 e.offset_div4 ++ (to_le 4 0 ++ rest))

unfoldable pub put_index : List IndexEntry → List ℕ → List ℕ
put_index [] rest = rest
put_index (e ∷ es) rest = put_index_entry e (put_index es rest)

unfoldable pub put_header : OtbHeader → List ℕ → List ℕ
put_header h rest =
    to_le 8 h.magic
    ++ (to_le 2 h.version
        ++ (to_le 6 0 ++ (to_le 8 h.nodes ++ (to_le 8 h.index_offset ++ (replicate 32 0 ++ rest)))))

-- Reading a struct from the bytes that begin with it.
unfoldable pub get_entry : List ℕ → NodeBlobEntry × List ℕ
get_entry bs =
    let (move, b1) = read_le 2 bs in
    let (bucket, b2) = read_le 1 b1 in
    let (pad, b3) = read_le 1 b2 in
    let (count, b4) = read_le 4 b3 in
    let (white_wins, b5) = read_le 4 b4 in
    let (draws, b6) = read_le 4 b5 in
    (
      record {
        move = move;
        bucket = bucket;
        count = count;
        white_wins = white_wins;
        draws = draws;
      },
      b6,
    )

abbrev pub cons_first {ℓ} : {A : Type ℓ} → A → List A × List ℕ → List A × List ℕ
cons_first x (xs, rest) = (x ∷ xs, rest)

unfoldable pub get_entries : ℕ → List ℕ → List NodeBlobEntry × List ℕ
get_entries zero bs = ([], bs)
get_entries (suc n) bs = cons_first (get_entry bs).0 (get_entries n (get_entry bs).1)

unfoldable pub get_index_entry : List ℕ → IndexEntry × List ℕ
get_index_entry bs =
    let (zobrist, b1) = read_le 8 bs in
    let (offset_div4, b2) = read_le 4 b1 in
    let (pad, b3) = read_le 4 b2 in (record { zobrist = zobrist; offset_div4 = offset_div4 }, b3)

unfoldable pub get_index : ℕ → List ℕ → List IndexEntry × List ℕ
get_index zero bs = ([], bs)
get_index (suc n) bs = cons_first (get_index_entry bs).0 (get_index n (get_index_entry bs).1)

unfoldable pub get_header : List ℕ → OtbHeader × List ℕ
get_header bs =
    let (magic, b1) = read_le 8 bs in
    let (version, b2) = read_le 2 b1 in
    let (pad, b3) = read_le 6 b2 in
    let (nodes, b4) = read_le 8 b3 in
    let (index_offset, b5) = read_le 8 b4 in
    (
      record { magic = magic; version = version; nodes = nodes; index_offset = index_offset },
      drop 32 b5,
    )
