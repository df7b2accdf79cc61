-- ===== src/GenerateOtb.antt =====
-- apps/generate_otb/generate_otb.cpp: the opening tree is built from the aggregate and written out.
use out_of_book.Prelude.{ℕ, ◌+◌, List, [], ◌++◌, length}
use out_of_book.Otb.Format.{
  IndexEntry, OtbHeader, put_index, put_header, magic, version, header_size,
}
pub mod Index
pub mod Opens
pub mod Walk
pub mod Served

-- What `main` does behind the walk: the index goes to the end of the file, and the header, now with
-- the number of nodes and the place of the index, over the one that `main` began with.
unfoldable pub write_otb : List ℕ → List IndexEntry → List ℕ
write_otb blobs es =
    put_header
      (record {
        magic = magic;
        version = version;
        nodes = length es;
        index_offset = header_size + length blobs;
      })
      (blobs ++ put_index es [])
