-- ===== src/Server/ClientMetrics.antt =====
-- web/server/ClientMetrics.{h,cpp}: reading the metrics header that a page sends.
use out_of_book.Prelude.{
  ℕ, zero, suc, ◌+◌, ◌-◌, ◌*◌, ◌%◌, ◌≤◌, ◌<◌, ◌≡◌, List, [], ◌∷◌, Bool, true, false, ◌&&◌, ◌||◌,
  not, ltb, leb, if◌then◌else◌, Option, none, some, length, get_or, set, replicate,
}
use out_of_book.Text.{bytes, bytes_eq, is_digit, is_empty, cut}
use out_of_book.Spill.{u32}
pub mod Value
pub mod Loop
pub mod Bounds

pub record Report : Type 0 where
  pub page_load_ms : Option ℕ
  pub cache_hits : ℕ
  pub cache_misses : ℕ
  pub uncaught_errors : ℕ
  pub api_errors : ℕ
  pub position_waits : ℕ
  pub slow_position_waits : ℕ
  pub version_reloads : ℕ
  pub version_stuck : ℕ

abbrev pub empty_report : Report
empty_report = record {
  page_load_ms = none;
  cache_hits = 0;
  cache_misses = 0;
  uncaught_errors = 0;
  api_errors = 0;
  position_waits = 0;
  slow_position_waits = 0;
  version_reloads = 0;
  version_stuck = 0;
}

abbrev pub max_header_bytes : ℕ
max_header_bytes = 256

abbrev pub max_count : ℕ
max_count = 10000

abbrev pub max_page_load_ms : ℕ
max_page_load_ms = 600000

pub data Field : Type 0 where
  page_load_ms cache_hits cache_misses uncaught_errors api_errors position_waits : Field
  slow_position_waits version_reloads version_stuck unknown : Field

-- `static_cast<size_t>(field)`
abbrev pub index_of : Field → ℕ
index_of Field.page_load_ms = 0
index_of Field.cache_hits = 1
index_of Field.cache_misses = 2
index_of Field.uncaught_errors = 3
index_of Field.api_errors = 4
index_of Field.position_waits = 5
index_of Field.slow_position_waits = 6
index_of Field.version_reloads = 7
index_of Field.version_stuck = 8
index_of Field.unknown = 9

abbrev pub field_count : ℕ
field_count = 9

unfoldable pub field_of : List ℕ → Field
field_of key =
    if bytes_eq key (bytes "pl")
    then Field.page_load_ms
    else if bytes_eq key (bytes "ch")
    then Field.cache_hits
    else if bytes_eq key (bytes "cm")
    then Field.cache_misses
    else if bytes_eq key (bytes "ee")
    then Field.uncaught_errors
    else if bytes_eq key (bytes "ea")
    then Field.api_errors
    else if bytes_eq key (bytes "wn")
    then Field.position_waits
    else if bytes_eq key (bytes "ws")
    then Field.slow_position_waits
    else if bytes_eq key (bytes "vr")
    then Field.version_reloads
    else if bytes_eq key (bytes "vs")
    then Field.version_stuck
    else Field.unknown

unfoldable pub store : Report → Field → ℕ → Report
store r Field.page_load_ms v = record r { page_load_ms = some v }
store r Field.cache_hits v = record r { cache_hits = v }
store r Field.cache_misses v = record r { cache_misses = v }
store r Field.uncaught_errors v = record r { uncaught_errors = v }
store r Field.api_errors v = record r { api_errors = v }
store r Field.position_waits v = record r { position_waits = v }
store r Field.slow_position_waits v = record r { slow_position_waits = v }
store r Field.version_reloads v = record r { version_reloads = v }
store r Field.version_stuck v = record r { version_stuck = v }
store r Field.unknown v = r

-- The loop of `parseValue`, with its `uint32_t` accumulator.
unfoldable pub value_loop : ℕ → List ℕ → Option ℕ
value_loop value [] = some value
value_loop value (c ∷ cs) =
    let rest = value_loop ((value * 10 + (c - b'0')) % u32) cs in
    if ltb c b'0' || ltb b'9' c then none else rest

unfoldable pub parse_value : List ℕ → Option ℕ
parse_value text = if is_empty text || ltb 9 (length text) then none else value_loop 0 text

-- The variables `report` and `seen` of `parse`.
pub record Progress : Type 0 where
  pub report : Report
  pub seen : List Bool

abbrev pub is_known : Field → Bool
is_known Field.unknown = false
is_known _ = true

abbrev pub ceiling_of : Field → ℕ
ceiling_of Field.page_load_ms = max_page_load_ms
ceiling_of _ = max_count

-- The body of `if (field != Field::Unknown)`.
unfoldable pub take_field : Field → ℕ → Progress → Option Progress
take_field field value p =
    if get_or p.seen (index_of field) false
    then none
    else if ltb (ceiling_of field) value
    then none
    else some
        (record { report = store p.report field value; seen = set p.seen (index_of field) true })

-- One round of the loop, on the text between two commas.
unfoldable pub take_value : Field → Option ℕ → Progress → Option Progress
take_value field none p = none
take_value field (some value) p = if is_known field then take_field field value p else some p

unfoldable pub take_split : List ℕ × Option (List ℕ) → Progress → Option Progress
take_split (key, none) p = none
take_split (key, some text) p =
    if is_empty key then none else take_value (field_of key) (parse_value text) p

unfoldable pub take_pair : List ℕ → Progress → Option Progress
take_pair pair p = take_split (cut b'=' pair) p

-- `while (at <= header.size())`, with the header from `at` on. Every round but the last moves `at`
-- beyond a comma, so that the fuel `header.size() + 1` is enough.
unfoldable pub parse_loop : ℕ → List ℕ → Progress → Option Progress
parse_loop zero header p = none
parse_loop (suc fuel) header p = elim (take_pair (cut b',' header).0 p) [
  | none ↦ none
  | some p' ↦ elim (cut b',' header).1 [ none ↦ some p' | some rest ↦ parse_loop fuel rest p' ]
]

abbrev pub start : Progress
start = record { report = empty_report; seen = replicate field_count false }

-- "The slow waits are drawn from the total".
unfoldable pub check_waits : Option Progress → Option Report
check_waits none = none
check_waits (some p) =
    if ltb p.report.position_waits p.report.slow_position_waits then none else some p.report

unfoldable pub parse : List ℕ → Option Report
parse header =
    if is_empty header || ltb max_header_bytes (length header)
    then none
    else check_waits (parse_loop (suc (length header)) header start)
