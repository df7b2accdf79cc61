-- ===== src/Server/ClientMetrics/Bounds.antt =====
-- ClientMetrics.cpp: the reports that are accepted, and repeated keys.
use out_of_book.Prelude.{
  ℕ, ◌≤◌, ◌<◌, ◌≡◌, ◌∙◌, ◌⊎◌, List, [], ◌∷◌, ◌++◌, true, false, ltb, ◌||◌, Option, none, some,
  length, arith, refl, sym, ap, Bool-cases, Option-cases, inl, inr, get_or, set, get_or-set_self,
  get_or-set_ne, length-set,
}
use native.Mathlib.Decide.{ℕ_discrete}
use out_of_book.Text.{fields, cut, is_empty}
use out_of_book.Server.ClientMetrics.{
  Progress, Report, Field, take_pair, take_split, take_value, take_field, check_waits, parse, start,
  max_header_bytes, max_count, max_page_load_ms, index_of, field_of, is_known, field_count,
  parse_value, ceiling_of, store,
}
use out_of_book.Server.ClientMetrics.Loop.{take_pairs, parse-take_pairs}

abbrev AtMost : ℕ → Option ℕ → Type 0
AtMost limit none = Unit
AtMost limit (some v) = v ≤ limit

-- Every number of a report is below its ceiling.
pub record IsPlausible (r : Report) : Type 0 where
  pub page_load_ms : AtMost max_page_load_ms r.page_load_ms
  pub cache_hits : r.cache_hits ≤ max_count
  pub cache_misses : r.cache_misses ≤ max_count
  pub uncaught_errors : r.uncaught_errors ≤ max_count
  pub api_errors : r.api_errors ≤ max_count
  pub position_waits : r.position_waits ≤ max_count
  pub slow_position_waits : r.slow_position_waits ≤ max_count
  pub version_reloads : r.version_reloads ≤ max_count
  pub version_stuck : r.version_stuck ≤ max_count

store-IsPlausible :
    (r : Report) (f : Field) (v : ℕ) → IsPlausible r → v ≤ ceiling_of f → IsPlausible (store r f v)
unfolding store
store-IsPlausible r Field.page_load_ms v h le = record {
  page_load_ms = le;
  cache_hits = h.cache_hits;
  cache_misses = h.cache_misses;
  uncaught_errors = h.uncaught_errors;
  api_errors = h.api_errors;
  position_waits = h.position_waits;
  slow_position_waits = h.slow_position_waits;
  version_reloads = h.version_reloads;
  version_stuck = h.version_stuck;
}
store-IsPlausible r f v h le = ground arith

-- The field that a pair is for.
abbrev pub named : List ℕ → Field
named pair = field_of (cut b'=' pair).0

-- What a round that does not refuse has done.
abbrev Taken : Field → Progress → Progress → Type 0
Taken f p q =
    ((is_known f ≡ false) × (q ≡ p))
    ⊎ ((v : ℕ) × (v ≤ ceiling_of f)
        × (get_or p.seen (index_of f) false ≡ false)
        × (q.report ≡ store p.report f v)
        × (q.seen ≡ set p.seen (index_of f) true))

take_value-Taken :
    (f : Field) (o : Option ℕ) (p q : Progress) → take_value f o p ≡ some q → Taken f p q
unfolding take_value take_field
take_value-Taken f none p q e = cc
take_value-Taken f (some v) p q e = elim (Bool-cases (is_known f)) [
  | inr unknown ↦ inl (unknown, ground arith)
  | inl known ↦ inr (v, ground arith, ground arith, ground arith, ground arith)
]

take_pair-Taken :
    (pair : List ℕ) (p q : Progress) → take_pair pair p ≡ some q → Taken (named pair) p q
unfolding take_pair
take_pair-Taken pair p q e = split (cut b'=' pair) e
  where
    split : (s : List ℕ × Option (List ℕ)) → take_split s p ≡ some q → Taken (field_of s.0) p q
    split (key, none) e = unfold take_split in cc
    split (key, some text) e =
        take_value-Taken (field_of key) (parse_value text) p q (unfold take_split in ground arith)

Taken-IsPlausible :
    (f : Field) (p q : Progress) → Taken f p q → IsPlausible p.report → IsPlausible q.report
Taken-IsPlausible f p q (inl (_, e)) h = rw e h
Taken-IsPlausible f p q (inr (v, le, _, e, _)) h = rw e (store-IsPlausible p.report f v h le)

take_pairs-IsPlausible :
    (fs : List (List ℕ)) (p q : Progress)
    → take_pairs fs p ≡ some q
    → IsPlausible p.report
    → IsPlausible q.report
unfolding take_pairs
take_pairs-IsPlausible [] p q e h = let r : p ≡ q = cc in rw (← r) h
take_pairs-IsPlausible (f ∷ fs) p q e h = elim (Option-cases (take_pair f p)) [
  | inl refused ↦ absurd (ground arith)
  | inr (p', taken) ↦
      take_pairs-IsPlausible fs p' q (ground arith)
        (Taken-IsPlausible (named f) p p' (take_pair-Taken f p p' taken) h)
]

check_waits_lem :
    (o : Option Progress) (r : Report)
    → check_waits o ≡ some r
    → (p : Progress) × (o ≡ some p)
      × (p.report ≡ r)
      × (p.report.slow_position_waits ≤ p.report.position_waits)
unfolding check_waits
check_waits_lem none r e = cc
check_waits_lem (some p) r e = (p, refl, ground arith, ground arith)

length_pos : (xs : List ℕ) → is_empty xs ≡ false → 0 < length xs
length_pos [] h = cc
length_pos (x ∷ xs) h = omega arith

-- A report that `parse` accepts is plausible: no count above 10000, no page load above 600000 ms,
-- and no more slow waits than waits. The header it came from was neither empty nor beyond 256 bytes.
pub parse-IsPlausible :
    (header : List ℕ) (r : Report)
    → parse header ≡ some r
    → IsPlausible r
      × (r.slow_position_waits ≤ r.position_waits)
      × (0 < length header)
      × (length header ≤ max_header_bytes)
parse-IsPlausible header r e =
    let f : check_waits (take_pairs (fields b',' header) start) ≡ some r =
      ground (arith, parse-take_pairs header) in
    let (p, taken, same, waits) = check_waits_lem _ r f in
    (
      let h = take_pairs-IsPlausible (fields b',' header) start p taken (omega arith) in
          rw (← same) h,
      rw (← same) waits,
      length_pos header (ground (arith, parse-take_pairs header)),
      ground (arith, parse-take_pairs header),
    )

-- Once a known key was seen, it stays so.
Taken-seen :
    (f : Field) (i : ℕ) (p q : Progress)
    → Taken f p q
    → get_or p.seen i false ≡ true
    → get_or q.seen i false ≡ true
Taken-seen f i p q (inl (_, e)) h = rw e h
Taken-seen f i p q (inr (v, _, unseen, _, e)) h = elim (ℕ_discrete (index_of f) i) [
  | yes same ↦ absurd (cc (sym unseen ∙ ap (λ n. get_or p.seen n false) same ∙ h))
  | no other ↦ rw (e, get_or-set_ne p.seen (index_of f) i true false other) h
]

Taken-length : (f : Field) (p q : Progress) → Taken f p q → length q.seen ≡ length p.seen
Taken-length f p q (inl (_, e)) = rw e
Taken-length f p q (inr (v, _, _, _, e)) = rw e (length-set p.seen (index_of f) true)

index-lt : (f : Field) → is_known f ≡ true → index_of f < field_count
index-lt Field.unknown h = cc
index-lt f h = omega arith

Taken-marks :
    (f : Field) (p q : Progress)
    → Taken f p q
    → is_known f ≡ true
    → length p.seen ≡ field_count
    → get_or q.seen (index_of f) false ≡ true
Taken-marks f p q (inl (unknown, _)) known h = absurd (cc)
Taken-marks f p q (inr (v, _, _, _, e)) known h =
    rw e (get_or-set_self p.seen (index_of f) true false (omega (arith, index-lt f known)))

-- A pair whose key was seen is refused.
take_pair_seen :
    (pair : List ℕ) (p : Progress)
    → is_known (named pair) ≡ true
    → get_or p.seen (index_of (named pair)) false ≡ true
    → take_pair pair p ≡ none
take_pair_seen pair p known seen = elim (Option-cases (take_pair pair p)) [
  | inl e ↦ e
  | inr (q, e) ↦ refuse q (take_pair-Taken pair p q e)
]
  where
    refuse : (q : Progress) → Taken (named pair) p q → take_pair pair p ≡ none
    refuse q (inl (unknown, _)) = absurd (cc)
    refuse q (inr (v, _, unseen, _, _)) = absurd (cc)

take_pairs_seen :
    (mid rest : List (List ℕ)) (pair : List ℕ) (p : Progress)
    → is_known (named pair) ≡ true
    → get_or p.seen (index_of (named pair)) false ≡ true
    → take_pairs (mid ++ pair ∷ rest) p ≡ none
unfolding take_pairs
take_pairs_seen [] rest pair p known seen = rw (take_pair_seen pair p known seen, take_pairs)
take_pairs_seen (f ∷ mid) rest pair p known seen = elim (Option-cases (take_pair f p)) [
  | inl refused ↦ ground arith
  | inr (q, taken) ↦
      let ih =
        take_pairs_seen mid rest pair q known
          (Taken-seen (named f) (index_of (named pair)) p q (take_pair-Taken f p q taken) seen) in
      ground arith
]

take_pairs_repeated :
    (pre mid rest : List (List ℕ)) (a b : List ℕ) (p : Progress)
    → length p.seen ≡ field_count
    → is_known (named a) ≡ true
    → named a ≡ named b
    → take_pairs (pre ++ (a ∷ (mid ++ b ∷ rest))) p ≡ none
unfolding take_pairs
take_pairs_repeated [] mid rest a b p len known same = elim (Option-cases (take_pair a p)) [
  | inl refused ↦ ground arith
  | inr (q, taken) ↦
      let t = take_pair-Taken a p q taken in
      let known' : is_known (named b) ≡ true = rw (← same) known in
      let marked : get_or q.seen (index_of (named b)) false ≡ true =
        rw (← same) (Taken-marks (named a) p q t known len) in
      let ih = take_pairs_seen mid rest b q known' marked in ground arith
]
take_pairs_repeated (f ∷ pre) mid rest a b p len known same = elim (Option-cases (take_pair f p)) [
  | inl refused ↦ ground arith
  | inr (q, taken) ↦
      let len' = Taken-length (named f) p q (take_pair-Taken f p q taken) in
      let ih = take_pairs_repeated pre mid rest a b q (len' ∙ len) known same in ground arith
]

-- A header that names one known key twice, in any two of its fields, is refused as a whole.
pub parse_repeated :
    (header : List ℕ) (pre mid rest : List (List ℕ)) (a b : List ℕ)
    → fields b',' header ≡ pre ++ (a ∷ (mid ++ b ∷ rest))
    → is_known (named a) ≡ true
    → named a ≡ named b
    → parse header ≡ none
unfolding check_waits
parse_repeated header pre mid rest a b shape known same =
    let e = take_pairs_repeated pre mid rest a b start refl known same in
    elim (Bool-cases (is_empty header || ltb max_header_bytes (length header))) [
      | inl out ↦ parse-take_pairs header ∙ rw out
      | inr _ ↦ parse-take_pairs header ∙ rw (shape, e) (ground arith)
    ]
