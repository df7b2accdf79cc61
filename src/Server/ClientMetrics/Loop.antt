-- ===== src/Server/ClientMetrics/Loop.antt =====
-- ClientMetrics.cpp: the loop of `parse` and the fields between the commas.
use out_of_book.Prelude.{
  ℕ, zero, suc, ◌<◌, ◌≡◌, List, [], ◌∷◌, if◌then◌else◌, ltb, ◌||◌, Option, none, some, length,
  arith, Option-cases, inl, inr,
}
use out_of_book.Text.{fields, cut, length-cut, fields-cut, fields-cut_last, is_empty}
use out_of_book.Server.ClientMetrics.{
  Progress, take_pair, parse_loop, check_waits, parse, start, max_header_bytes,
}

-- The rounds, one for each field, up to the first that refuses.
unfoldable pub take_pairs : List (List ℕ) → Progress → Option Progress
take_pairs [] p = some p
take_pairs (f ∷ fs) p = elim (take_pair f p) [ none ↦ none | some p' ↦ take_pairs fs p' ]

-- With fuel beyond the length of the header, the loop is the fold over its fields.
pub parse_loop-take_pairs :
    (fuel : ℕ) (header : List ℕ) (p : Progress)
    → length header < fuel
    → parse_loop fuel header p ≡ take_pairs (fields b',' header) p
unfolding parse_loop take_pairs
parse_loop-take_pairs zero header p h = elim h [ ]
parse_loop-take_pairs (suc fuel) header p h =
    elim (Option-cases (take_pair (cut b',' header).0 p)) [
      | inl refused ↦ elim (Option-cases (cut b',' header).1) [
        | inl e ↦ rw (fields-cut_last b',' header e) (ground arith)
        | inr (rest, e) ↦ rw (fields-cut b',' header rest e) (ground arith)
      ]
      | inr (q, taken) ↦ elim (Option-cases (cut b',' header).1) [
        | inl e ↦ rw (fields-cut_last b',' header e) (ground arith)
        | inr (rest, e) ↦
            let shorter = length-cut b',' header rest e in
            let ih = parse_loop-take_pairs fuel rest q (omega arith) in
            rw (fields-cut b',' header rest e) (ground arith)
      ]
    ]

-- `parse` is its two checks round `take_pairs` over the fields.
pub parse-take_pairs :
    (header : List ℕ)
    → parse header ≡ (
        if is_empty header || ltb max_header_bytes (length header)
        then none
        else check_waits (take_pairs (fields b',' header) start))
unfolding parse
parse-take_pairs header =
    rw (parse_loop-take_pairs (suc (length header)) header start (omega arith))
