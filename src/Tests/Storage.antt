-- ===== src/Tests/Storage.antt =====
-- The theorems about .otb files at concrete inputs.
use out_of_book.Prelude.{
  ℕ, ◌≡◌, List, [], ◌∷◌, ◌++◌, none, some, arith, refl, ◌≢◌, get_elem?, take, drop,
}
use out_of_book.Otb.Format.{NodeBlobEntry, IndexEntry, OtbHeader, put_node, magic, version}
use out_of_book.Otb.Search.{find_key, lower_bound, hit, Ascending, find_key-none}
use out_of_book.Otb.Store.{ok, Pread, interrupted, delivers, read_exact, read_blob}
use out_of_book.Otb.Store.ReadExact.{no_failure, supply, read_exact-enough}
use out_of_book.Otb.Store.Blob.{read_blob-put_node}

abbrev entries : List NodeBlobEntry
entries = record { move = 796; bucket = 2; count = 70000; white_wins = 300; draws = 12 } ∷ []

abbrev index : List IndexEntry
index = record { zobrist = 0x1234_5678_9abc_def0; offset_div4 = 16 } ∷ []

abbrev header : OtbHeader
header = record { magic = magic; version = version; nodes = 1; index_offset = 84 }

read_blob-put_node_example : read_blob ((1 ∷ 2 ∷ []) ++ put_node entries (3 ∷ [])) 2 ≡ ok entries
read_blob-put_node_example =
    read_blob-put_node (1 ∷ 2 ∷ []) (3 ∷ []) entries
      ((omega arith, omega arith, omega arith, omega arith, omega arith), tt) (omega arith)

abbrev keys : List ℕ
keys = 3 ∷ 5 ∷ 8 ∷ []

keys_has : find_key keys 5 ≡ some 1
unfolding find_key lower_bound hit
keys_has = refl

keys_lacks : find_key keys 6 ≡ none
unfolding find_key lower_bound hit
keys_lacks = refl

keys-Ascending : Ascending keys
keys-Ascending = ((omega arith, (omega arith, tt)), ((omega arith, tt), (tt, tt)))

find_key-none_example : get_elem? keys 2 ≢ some 6
find_key-none_example = find_key-none keys 6 keys-Ascending keys_lacks 2

abbrev calls : List Pread
calls = delivers 1 ∷ interrupted ∷ delivers 0 ∷ delivers 5 ∷ []

read_exact-enough_example : read_exact calls keys 3 0 ≡ some (ok (take 3 (drop 0 keys)))
unfolding no_failure supply
read_exact-enough_example = read_exact-enough calls keys 3 0 refl (omega arith) (omega arith)
