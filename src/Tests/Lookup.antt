-- ===== src/Tests/Lookup.antt =====
-- The theorems about the reader of the statistics program at a concrete file.
use out_of_book.Prelude.{
  ℕ, ◌+◌, ◌*◌, ◌%◌, ◌^◌, ◌<◌, ◌≡◌, List, [], ◌∷◌, none, some, true, arith, refl, length, map, All,
}
use out_of_book.Spill.{u64}
use out_of_book.Otb.Bytes.{to_le, of_le, read_le}
use out_of_book.Otb.Format
use out_of_book.Otb.Format.{NodeBlobEntry, IndexEntry, put_node, header_size}
use out_of_book.Otb.RoundTrip.{IndexFits}
use out_of_book.Otb.Search.{is_sorted, find_key, lower_bound, hit}
use out_of_book.Otb.Store
use out_of_book.Otb.Store.{OtbStore, open_store}
use out_of_book.GenerateOtb.{write_otb}
use out_of_book.GenerateOtb.Opens.{open_store-write_otb}
use out_of_book.LineOdds.Book
use out_of_book.LineOdds.Book.{Book, open_book, at}
use out_of_book.LineOdds.Book.Agrees.{open_book_lem, at-look_up}
use out_of_book.BoardDb.{ok, find}
use out_of_book.BoardDb.Agrees.{database, open_otb-write_otb, room}
use out_of_book.BoardDb.Finds.{look_up, found, find-look_up}

abbrev node : List NodeBlobEntry
node = record { move = 9; bucket = 2; count = 60; white_wins = 30; draws = 10 } ∷ []

abbrev blobs : List ℕ
unfolding put_node to_le
blobs = put_node node []

-- The blob stands behind the header, at 4 * 16.
abbrev entries : List IndexEntry
entries = record { zobrist = 7; offset_div4 = 16 } ∷ []

fits : All IndexFits entries
fits = omega arith

small : header_size + length blobs + length entries * 16 < 2 ^ 63
unfolding put_node Format.put_entries Format.put_entry to_le
small = omega arith

sorted : is_sorted (map (λ e. e.zobrist) entries) ≡ true
unfolding is_sorted
sorted = refl

abbrev store : OtbStore
store = record {
  otb = write_otb blobs entries;
  ote = none;
  zobrists = 7 ∷ [];
  offsets_div4 = 16 ∷ [];
}

looked_up : look_up store 7 ≡ Store.ok (some node)
unfolding look_up Store.find find_key lower_bound hit Store.read_node Store.read_blob Store.read_at
    Store.read_entries write_otb put_node Format.put_entries Format.put_entry Format.put_index
    Format.put_index_entry Format.put_header to_le of_le read_le Format.get_entries Format.get_entry
looked_up = refl

find-look_up_example : find (database blobs entries fits small sorted) 7 ≡ ok (found (some node))
find-look_up_example =
    find-look_up blobs entries fits small sorted store (database blobs entries fits small sorted) 7
      (some node)
      (open_store-write_otb blobs entries fits (room blobs entries fits small sorted) sorted)
      (open_otb-write_otb blobs entries fits small sorted) looked_up

-- A file of two such nodes, whose index begins at 104 = 8 * 13.
abbrev two_blobs : List ℕ
unfolding put_node to_le
two_blobs = put_node node (put_node node [])

abbrev two_entries : List IndexEntry
two_entries =
    record { zobrist = 7; offset_div4 = 16 } ∷ record { zobrist = 9; offset_div4 = 21 } ∷ []

two_fit : All IndexFits two_entries
two_fit = omega arith

two_small : header_size + length two_blobs + length two_entries * 16 < u64
unfolding put_node Format.put_entries Format.put_entry to_le
two_small = omega arith

two_sorted : is_sorted (map (λ e. e.zobrist) two_entries) ≡ true
unfolding is_sorted
two_sorted = refl

two_aligned : (header_size + length two_blobs) % 8 ≡ 0
unfolding put_node Format.put_entries Format.put_entry to_le
two_aligned = refl

abbrev two_store : OtbStore
two_store = record {
  otb = write_otb two_blobs two_entries;
  ote = none;
  zobrists = 7 ∷ 9 ∷ [];
  offsets_div4 = 16 ∷ 21 ∷ [];
}

second_looked_up : look_up two_store 9 ≡ Store.ok (some node)
unfolding look_up Store.find find_key lower_bound hit Store.read_node Store.read_blob Store.read_at
    Store.read_entries write_otb put_node Format.put_entries Format.put_entry Format.put_index
    Format.put_index_entry Format.put_header to_le of_le read_le Format.get_entries Format.get_entry
second_looked_up = refl

abbrev shelf : Book
shelf = record { data_bytes = write_otb two_blobs two_entries; index = two_entries }

opened : open_book (write_otb two_blobs two_entries) ≡ Book.ok shelf
opened = open_book_lem two_blobs two_entries two_fit two_small two_sorted two_aligned

at-look_up_example : at shelf 9 ≡ some node
at-look_up_example =
    at-look_up two_blobs two_entries two_fit two_small two_sorted two_aligned two_store shelf 9
      (some node) (open_store-write_otb two_blobs two_entries two_fit two_small two_sorted) opened
      second_looked_up
