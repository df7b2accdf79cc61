-- ===== src/GenerateOtb/Index.antt =====
-- generate_otb.cpp: `PositionIndex`, the positions that reach `DROP_LIMIT` visits, and `buildIndex`,
-- which fills it from the aggregate.
use out_of_book.Prelude.{
  ℕ, zero, suc, ◌+◌, ◌-◌, ◌*◌, ◌/◌, ◌%◌, ◌^◌, ◌≤◌, ◌<◌, ◌≡◌, ◌∙◌, List, [], ◌∷◌, ◌++◌, Bool, true,
  false, map, not, ◌==◌, ◌&&◌, ◌||◌, ltb, leb, if◌then◌else◌, Option, none, some, length, take,
  drop, get_or, set, get_elem?, replicate,
}
use out_of_book.Spill.{SpillRecord}
use out_of_book.Otb.Search.{lower_bound, hit}
pub mod Prefix
pub mod Build
pub mod Visits

abbrev pub drop_limit : ℕ
drop_limit = 50

abbrev pub leaf_limit : ℕ
leaf_limit = 150

abbrev pub max_entries : ℕ
max_entries = 200000000

-- `NodeClassification`: a position that is not in the index is dropped.
pub data NodeClassification : Type 0 where
  leaf full : NodeClassification

-- What the three vectors hold of one position: its key, its slot, and the class and the visited bit of
-- its flags.
pub record Entry : Type 0 where
  pub key : ℕ
  pub slot : ℕ
  pub class : NodeClassification
  pub visited : Bool

-- The vectors, and the table that `finalize` adds.
pub record PositionIndex : Type 0 where
  pub entries : List Entry
  pub prefix_bits : ℕ
  pub bucket_start : List ℕ

abbrev pub class_of : ℕ → NodeClassification
class_of visits = if ltb visits leaf_limit then NodeClassification.leaf else NodeClassification.full

-- `keys.empty() || key > keys.back()`
unfoldable pub is_above : ℕ → List Entry → Bool
is_above key [] = true
is_above key (e ∷ []) = ltb e.key key
is_above key (e ∷ f ∷ es) = is_above key (f ∷ es)

-- `none` is a failed assertion.
unfoldable pub append : ℕ → ℕ → ℕ → List Entry → Option (List Entry)
append key agg_offset visits es =
    if ltb visits drop_limit
    then none
    else if is_above key es
    then some (
        es
        ++ record { key = key; slot = agg_offset; class = class_of visits; visited = false } ∷ [])
    else none

abbrev pub target_bucket_size : ℕ
target_bucket_size = 16

abbrev pub max_prefix_bits : ℕ
max_prefix_bits = 22

-- The loop that raises `prefixBits`, with the rounds left up to `MAX_PREFIX_BITS`.
unfoldable pub raise_bits : ℕ → ℕ → ℕ → ℕ
raise_bits zero bits size = bits
raise_bits (suc n) bits size =
    let more = raise_bits n (suc bits) size in
    if ltb (2 ^ bits) (size / target_bucket_size) then more else bits

abbrev pub prefix_of : ℕ → ℕ → ℕ
prefix_of bits key = key / 2 ^ (64 - bits)

-- The entries of `bucketStart` from `bucket` on, with the keys from place `i` on still to come.
unfoldable pub fill_buckets : ℕ → List ℕ → ℕ → ℕ → List ℕ
fill_buckets bits [] i bucket = replicate (2 ^ bits + 1 - bucket) i
fill_buckets bits (k ∷ ks) i bucket =
    let target = prefix_of bits k in
    replicate (target + 1 - bucket) i
    ++ fill_buckets bits ks (suc i) (if leb bucket target then target + 1 else bucket)

-- `none` is the exception for an index that is too large.
unfoldable pub finalize : List Entry → Option PositionIndex
finalize es =
    let bits = raise_bits (max_prefix_bits - 1) 1 (length es) in
    if ltb 0xffff_ffff (length es)
    then none
    else some (record {
      entries = es;
      prefix_bits = bits;
      bucket_start = fill_buckets bits (map (λ e. e.key) es) 0 0;
    })

-- `std::lower_bound` over the keys of one bucket only.
unfoldable pub find_between : List ℕ → ℕ → ℕ → ℕ → Option ℕ
find_between keys begin end key =
    let bucket = take (end - begin) (drop begin keys) in
    let it = lower_bound bucket key in hit (get_elem? bucket it) (begin + it) key

unfoldable pub find : PositionIndex → ℕ → Option ℕ
find idx key =
    let bucket = prefix_of idx.prefix_bits key in
    find_between (map (λ e. e.key) idx.entries) (get_or idx.bucket_start bucket 0)
      (get_or idx.bucket_start (bucket + 1) 0) key

-- `runKey`, `runOffset` and `runVisits`
pub record Run : Type 0 where
  pub key : ℕ
  pub offset : ℕ
  pub visits : ℕ

-- `finishRun`; `none` for the run is `!haveRun`, and as a result the exception of an index
-- that is full, or a failed assertion of `append`.
unfoldable pub finish_run : Option Run → List Entry → Option (List Entry)
finish_run none es = some es
finish_run (some run) es =
    if leb drop_limit run.visits
    then (if length es == max_entries then none else append run.key run.offset run.visits es)
    else some es

-- "the sum is capped rather than carried to its true value"
abbrev pub visit : SpillRecord → Run → Run
visit r run =
    if ltb run.visits leaf_limit then record run { visits = run.visits + r.count } else run

abbrev pub same_run : Option Run → SpillRecord → Bool
same_run none r = false
same_run (some run) r = r.zobrist == run.key

abbrev pub new_run : SpillRecord → ℕ → Run
new_run r i = record { key = r.zobrist; offset = i; visits = 0 }

abbrev pub run_or : Option Run → Run → Run
run_or none d = d
run_or (some run) d = run

-- The loop over the records, which is the same whether they come in one buffer or in several.
unfoldable pub scan_records : List SpillRecord → ℕ → Option Run → List Entry → Option (List Entry)
scan_records [] i run es = finish_run run es
scan_records (r ∷ rs) i run es =
    if same_run run r
    then scan_records rs (suc i) (some (visit r (run_or run (new_run r i)))) es
    else elim (finish_run run es) [
      | none ↦ none
      | some es' ↦ scan_records rs (suc i) (some (visit r (new_run r i))) es'
    ]

unfoldable pub build_index : List SpillRecord → Option PositionIndex
build_index records = elim (scan_records records 0 none []) [ none ↦ none | some es ↦ finalize es ]
