-- ===== src/Tests/Service.antt =====
-- The theorems about the server's parsers and its rate limiter at concrete inputs.
use out_of_book.Prelude.{
  ℕ, ◌+◌, ◌-◌, ◌*◌, ◌/◌, ◌%◌, ◌≤◌, ◌<◌, ◌≡◌, List, [], ◌∷◌, ◌++◌, true, false, Option, none, some,
  arith, refl, All, length, get_or, take, leb, ltb, if◌then◌else◌, ◌||◌, ◌⊎◌, min, replicate, ◌&&◌,
}
use out_of_book.Spill.{u64}
use out_of_book.Text.{bytes, fields, cut, bytes_eq, is_empty, all_of}
use out_of_book.Server.ClientMetrics
use out_of_book.Server.ClientMetrics.Value.{decimal, parse_value-decimal}
use out_of_book.Server.ClientMetrics.Bounds.{IsPlausible, named, parse-IsPlausible, parse_repeated}
use out_of_book.Server.Fen
use out_of_book.Server.Fen.Usable.{IsBoard, HasRight, validate-IsBoard, validate-HasRight}
use out_of_book.Server.Json
use out_of_book.Server.Json.Escape.{read_string, read_string-escape_all}
use out_of_book.Server.Json.Tree.{Value, Items, Members, emit, text, emit-text}
use out_of_book.Server.RateLimit.{Double, Config, RateLimiter, check}
use out_of_book.Server.RateLimit.Table.{IsValid, Kept}
use out_of_book.Server.RateLimit.Check.{check-IsValid, check-Kept, check-refused}
use out_of_book.Server.ClientAddress.{resolve, contains}
use out_of_book.Server.ClientAddress.Laws.{resolve_untrusted, resolve_forged}

abbrev start_fen : List ℕ
start_fen = bytes "rnbqkbnr/pppppppp/8/8/8/8/PPPPPPPP/RNBQKBNR w KQkq - 0 1"

start_fen_usable : Fen.validate start_fen ≡ none
unfolding bytes_eq Fen.validate Fen.check_fields Fen.split Fen.split_loop Fen.join_loop
    Fen.check_board Fen.scan Fen.scan_step Fen.type_of Fen.put_piece Fen.check_rest
    Fen.check_material Fen.seek_row Fen.seek_col Fen.check_castling Fen.castling_loop
    Fen.castling_step Fen.check_counters Fen.check_en_passant Fen.check_fullmove
start_fen_usable = refl

validate-IsBoard_example : IsBoard (get_or (Fen.split start_fen) 0 [])
validate-IsBoard_example = validate-IsBoard start_fen start_fen_usable

validate-HasRight_example :
    (b : Fen.Scan) × (Fen.scan (get_or (Fen.split start_fen) 0 []) Fen.start ≡ Fen.going b)
    × ((get_or (Fen.split start_fen) 2 [] ≡ bytes "-")
        ⊎ ((length (get_or (Fen.split start_fen) 2 []) ≤ 4)
            × All (HasRight b) (get_or (Fen.split start_fen) 2 [])))
validate-HasRight_example = validate-HasRight start_fen start_fen_usable

parse_value-decimal_example : ClientMetrics.parse_value (bytes "042") ≡ (
    if is_empty (bytes "042") || ltb 9 (length (bytes "042"))
    then none
    else if all_of (λ c. leb b'0' c && leb c b'9') (bytes "042")
    then some (decimal 0 (bytes "042"))
    else none)
parse_value-decimal_example = parse_value-decimal (bytes "042")

abbrev report_header : List ℕ
report_header = bytes "ch=3,wn=5,ws=2"

abbrev report : ClientMetrics.Report
report = record ClientMetrics.empty_report {
  cache_hits = 3;
  position_waits = 5;
  slow_position_waits = 2;
}

report_parsed : ClientMetrics.parse report_header ≡ some report
unfolding bytes_eq cut ClientMetrics.parse ClientMetrics.parse_loop ClientMetrics.take_pair
    ClientMetrics.take_split ClientMetrics.take_value ClientMetrics.take_field
    ClientMetrics.field_of ClientMetrics.parse_value ClientMetrics.value_loop ClientMetrics.store
    ClientMetrics.check_waits
report_parsed = refl

parse-IsPlausible_example :
    IsPlausible report
    × (report.slow_position_waits ≤ report.position_waits)
    × (0 < length report_header)
    × (length report_header ≤ ClientMetrics.max_header_bytes)
parse-IsPlausible_example = parse-IsPlausible report_header report report_parsed

repeated_fields :
    fields b',' (bytes "x=1,ch=3,ws=0,ch=4")
    ≡ (bytes "x=1" ∷ []) ++ (bytes "ch=3" ∷ ((bytes "ws=0" ∷ []) ++ (bytes "ch=4" ∷ [])))
unfolding fields
repeated_fields = refl

hits_known : ClientMetrics.is_known (named (bytes "ch=3")) ≡ true
unfolding cut bytes_eq ClientMetrics.field_of
hits_known = refl

hits_repeated : named (bytes "ch=3") ≡ named (bytes "ch=4")
unfolding cut bytes_eq ClientMetrics.field_of
hits_repeated = refl

parse_repeated_example : ClientMetrics.parse (bytes "x=1,ch=3,ws=0,ch=4") ≡ none
parse_repeated_example =
    parse_repeated (bytes "x=1,ch=3,ws=0,ch=4") (bytes "x=1" ∷ []) (bytes "ws=0" ∷ []) []
      (bytes "ch=3") (bytes "ch=4") repeated_fields hits_known hits_repeated

read_string-escape_all_example :
    read_string 4 (Json.escape_all (34 ∷ 10 ∷ 65 ∷ []) ++ (b'"' ∷ b',' ∷ []))
    ≡ some (34 ∷ 10 ∷ 65 ∷ [], b',' ∷ [])
read_string-escape_all_example =
    read_string-escape_all 4 (34 ∷ 10 ∷ 65 ∷ []) (b',' ∷ []) (omega arith)

-- A stand-in for `std::format` of a double, which the value below does not use.
abbrev no_format : ℕ → List ℕ
no_format d = []

abbrev document : Value
document = Value.object (
    Members.member (bytes "ok") (Value.boolean true) (
      Members.member (bytes "moves") (Value.array (Items.item (Value.unsigned 7) Items.end))
        Members.done))

emit-text_example : emit no_format document Json.empty ≡ record {
  out = [] ++ ((if false then b',' ∷ [] else []) ++ text no_format document);
  need_comma = true;
}
emit-text_example = emit-text no_format document Json.empty

-- Whole numbers in the place of doubles.
abbrev whole : Double
whole = record {
  Real = ℕ;
  one = 1;
  zero_point_zero = 0;
  add = λ a b. a + b;
  sub = λ a b. a - b;
  mul = λ a b. a * b;
  div = λ a b. a / b;
  min = min;
  at_least = λ a b. leb b a;
  seconds_between = λ now seen. now - seen;
}

abbrev limits : Config whole
limits = record {
  rate_per_second = 1;
  burst = 2;
  idle_timeout = 10;
  sweep_interval = 5;
  max_clients = 2;
}

abbrev alice : List ℕ
alice = bytes "10.0.0.1"

abbrev bob : List ℕ
bob = bytes "10.0.0.2"

abbrev one_client : RateLimiter whole
one_client = record {
  buckets = (alice, record { tokens = 0; seen = 4 }) ∷ [];
  last_sweep = 3;
  refused = 0;
}

one_client-IsValid : IsValid whole limits one_client
one_client-IsValid = record { bounded = omega arith; distinct = (tt, tt) }

check-IsValid_example : IsValid whole limits (check whole limits 4 bob one_client).0
check-IsValid_example = check-IsValid whole limits 4 bob one_client one_client-IsValid

alice_is_not_bob : bytes_eq bob alice ≡ false
unfolding bytes_eq
alice_is_not_bob = refl

check-Kept_example : Kept whole limits 20 alice one_client (check whole limits 20 bob one_client).0
check-Kept_example =
    check-Kept whole limits 20 bob one_client alice alice_is_not_bob one_client-IsValid

check-refused_example :
    (check whole limits 4 alice one_client).0.refused
    ≡ (one_client.refused + (if (check whole limits 4 alice one_client).1.allowed then 0 else 1))
      % u64
check-refused_example = check-refused whole limits 4 alice one_client (omega arith)

abbrev proxy : List (List ℕ)
proxy = bytes "127.0.0.1" ∷ []

bob_untrusted : contains proxy bob ≡ false
unfolding contains bytes_eq
bob_untrusted = refl

resolve_untrusted_example : resolve proxy bob (bytes "10.0.0.1") ≡ bob
resolve_untrusted_example = resolve_untrusted proxy bob (bytes "10.0.0.1") bob_untrusted

resolve_forged_example :
    resolve proxy (bytes "127.0.0.1") (bob ++ (b',' ∷ alice))
    ≡ resolve proxy (bytes "127.0.0.1") alice
resolve_forged_example = resolve_forged proxy (bytes "127.0.0.1") bob alice

-- Stand-ins for `inet_pton` and `inet_ntop`: a text is an address of sixteen bytes that begin with it.
abbrev read_address : List ℕ → Option (List ℕ)
read_address a = some (take 16 (a ++ replicate 16 0))

abbrev print_address : List ℕ → Option (List ℕ)
print_address a = some (take 8 a)

-- A reader that refuses every text as an IPv6 address.
abbrev refuse : List ℕ → Option (List ℕ)
refuse a = none
