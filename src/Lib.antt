-- ===== src/Lib.antt =====
-- A verification library for out-of-book, which turns a database of chess games into an opening tree
-- and serves it over HTTP.
--
-- The pipeline. apps/db_to_spills reads games and counts every move played in a cache of
-- `SpillRecord`s, which spills to files, one for each shard and worker. apps/agg_spills sums the spill
-- files up by key. apps/agg_merger merges the aggregates of several runs. apps/generate_otb builds the
-- tree, an .otb file of node blobs with an index by Zobrist key. web/server opens that file and answers requests.
--
--   * Spill: `SpillRecord` of libs/common/common.h, and the tally of a key over a list of records.
--   * Spill/RecordCache: apps/db_to_spills/RecordCache.{h,cpp}. The state is the slots, the write
--     buffers, the spill files and the metric; `add`, `flush_buffer` and `destroy` are the methods, with
--     the probe loop as a function of the rounds left. SLOTS, MAX_RUN, SHARD_BITS and the size of a
--     buffer are the fields of `Config`.
--   * Pgn: apps/db_to_spills/extractor.{h,cpp}, and apps/db_to_spills/db_to_spills.cpp. Extract reads the headers, a failed assertion or an exception
--     being `broken`; Moves lists the moves that `forEachMove` calls back with, in as many rounds as the
--     text has bytes; Game runs the callback over them, and its result is the list of calls of
--     `RecordCache::add`; Blob cuts a chunk into games; Database runs the producer and the
--     workers, who share the producer's pairs of chunks out among them in any way, and has `ratingBucket` of
--     libs/chess/stockfish/types.h. A failed assertion in a game is `none`. A position, its key, its moves and the reading of a
--     move are parameters.
--   * AggSpills: apps/agg_spills/agg_spills.cpp. A file is the list of its records; which files a shard
--     has is a parameter. The hash map is an association list with distinct keys.
--   * AggMerger: apps/agg_merger/agg_merger.cpp. Ranges is `splitWork`, where `std::lower_bound` is the
--     partition point; Worker is `mergeWorker`, where the priority queue is a list of nodes from which a
--     least one is taken; Join is `main`. Both loops take one more round than there are records as
--     their fuel, since every round takes a record off the queue.
--   * Queue: libs/queue/SPMCQueue.h, as a relation between states of which each step is one call under
--     the mutex; a call that waits is a step that is not possible yet. The notifications are not modelled.
--   * Otb: the .otb format of libs/common/common.h as bytes, little-endian as on the machines it is built
--     for, and web/server/OtbStore.cpp over a file as its list of bytes. `read_exact` runs along the
--     outcomes of its calls of `pread`; every other function reads with `read_at`, which is its result
--     when no call fails. Otb/Search is the lookup by `std::lower_bound`.
--   * GenerateOtb: apps/generate_otb/generate_otb.cpp. Index is `PositionIndex` and `buildIndex`, its
--     three vectors as one list of entries, with the two assertions of `append`; Walk is `dfs` over any type of positions with a key and a move
--     function, and the writing of the index. A failed assertion or an exception is `none`, and the
--     depths left up to MAX_DEPTH are the fuel of `dfs`, of which every position
--     that is claimed on the way down uses one; the rounds of its second pass are as many as the
--     records of the position, of which every round uses one.
--   * BoardDb: apps/fen_stats/BoardDB.cpp, the other reader of both files. An exception is a value; the
--     fuel of the search is 64 rounds, since the distance of its ends has 64 bits and every round
--     halves it.
--   * LineOdds/Book: apps/line_odds/Book.cpp, the third reader, over the mapped file as its bytes, with the
--     assertion on the place of the index as one of its errors.
--   * LineOdds: apps/line_odds/TargetGraph.cpp. A layer is its nodes and edges; Graph is
--     `filterBackward`, Forward the rest of the constructor, with `expand` and `positionAt`. A
--     position, its key and moves, the book, the test of Reachability.cpp and the clock are the fields of
--     `Game`; a read out of range is a result of its own, apart from the exceptions of the two limits.
--   * Text: bytes of a string, cut at a character, and trimmed.
--   * Server/Fen: web/server/Fen.h, the whole of `validate`, a reason or none.
--   * Server/ClientMetrics: web/server/ClientMetrics.cpp. The fuel of the loop of `parse` is the length of
--     the header plus one, which each round lowers by a field and its comma.
--   * Server/Json and Server/FloatBits: web/server/Json.h and libs/common/FloatBits.h. What `snprintf`
--     prints for a finite double is a parameter; a double is its 64 bits.
--   * Server/RateLimit: web/server/RateLimit.cpp. The arithmetic on doubles is a parameter, a time is a
--     count of ticks, and the table is an association list. A call holds the mutex from start to end, so
--     calls are one after another; a theorem about `check` is about one call at any `now`.
--   * Server/ClientAddress: web/server/ClientAddress.cpp, and in its module Key
--     web/server/RateLimitKey.cpp, where `inet_pton` and `inet_ntop` are parameters.
--   * Tests: the theorems at concrete inputs.
--
-- Machine integers. The counters of a record wrap around at 2 ^ 32 and the limiter's count of refusals
-- at 2 ^ 64; an overflow of `int` and a failed assertion are failures; a node counter of 32 bits that
-- wraps is a result of its own. Sizes and places in a container, and the times of a clock, are numbers
-- without a bound, and a theorem that needs one says so.
--
-- A file that a program opens to append to, a spill file or an aggregate, is taken to be new.
--
-- Not modelled: the chess rules of libs/chess and the map of libs/ankerl_map, which are vendored; the
-- decompression, memory maps, metrics and HTTP code, which is input and output; the user interface in
-- web/ui; and the evaluation and export programs of apps, with the main programs of apps/fen_stats and apps/line_odds.
pub mod Prelude
pub mod Spill
pub mod AggMerger
pub mod AggSpills
pub mod Text
pub mod Queue
pub mod Server
pub mod Otb
pub mod GenerateOtb
pub mod BoardDb
pub mod LineOdds
pub mod Pgn
mod Tests
