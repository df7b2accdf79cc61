-- ===== src/GenerateOtb/Index/Visits.antt =====
-- `buildIndex` of generate_otb.cpp: the classes of the positions, beside the sums of their counts.
use out_of_book.Prelude.{
  ℕ, suc, ◌+◌, ◌≤◌, ◌<◌, ◌≡◌, ◌∙◌, List, [], ◌∷◌, map, ◌==◌, leb, if◌then◌else◌, Option, none, some,
  length, arith, refl, ap, Bool-cases, inl, inr, All, All-map,
}
use out_of_book.Spill.{SpillRecord}
use out_of_book.Otb.Search.{Ascending}
use out_of_book.GenerateOtb.Index.{
  NodeClassification, Entry, Run, class_of, drop_limit, max_entries, scan_records,
}
use out_of_book.GenerateOtb.Index.Build.{absorb, single_of, runs, kept, scan_records-kept}

-- All the visits of a position, wherever its records stand.
unfoldable pub visits_of : ℕ → List SpillRecord → ℕ
visits_of z [] = 0
visits_of z (r ∷ rs) = (if r.zobrist == z then r.count else 0) + visits_of z rs

unfoldable visits_in : ℕ → List Run → ℕ
visits_in z [] = 0
visits_in z (t ∷ ts) = (if t.key == z then t.visits else 0) + visits_in z ts

-- The class of the first entry with a key; none for a dropped position.
unfoldable pub classify : ℕ → List Entry → Option NodeClassification
classify z [] = none
classify z (e ∷ es) = if e.key == z then some e.class else classify z es

visits_in-absorb :
    (z : ℕ) (t : Run) (us : List Run) → visits_in z (absorb t us) ≡ visits_in z (t ∷ us)
unfolding visits_in absorb
visits_in-absorb z t [] = refl
visits_in-absorb z t (u ∷ us) = elim (Bool-cases (t.key == u.key)) [
  | inl same ↦ rw same (ground arith)
  | inr other ↦ rw other refl
]

visits_in-runs : (z : ℕ) (rs : List SpillRecord) (i : ℕ) → visits_in z (runs rs i) ≡ visits_of z rs
unfolding visits_in visits_of runs
visits_in-runs z [] i = refl
visits_in-runs z (r ∷ rs) i =
    visits_in-absorb z (single_of r i) (runs rs (suc i))
    ∙ ap (λ n. (if r.zobrist == z then r.count else 0) + n) (visits_in-runs z rs (suc i))

-- Every key once, and in ascending order.
abbrev Strict : List Run → Type 0
Strict [] = Unit
Strict (t ∷ ts) = All (λ u. t.key < u.key) ts × Strict ts

absorb-All :
    (k : ℕ) (t : Run) (us : List Run)
    → k ≤ t.key
    → All (λ u. k ≤ u.key) us
    → All (λ u. k ≤ u.key) (absorb t us)
unfolding absorb
absorb-All k t [] h all = (h, tt)
absorb-All k t (u ∷ us) h all = elim (Bool-cases (t.key == u.key)) [
  | inl same ↦ rw same (h, all.1)
  | inr other ↦ rw other (h, all)
]

runs-All :
    (k : ℕ) (rs : List SpillRecord) (i : ℕ)
    → All (λ z. k ≤ z) (map (λ r. r.zobrist) rs)
    → All (λ u. k ≤ u.key) (runs rs i)
unfolding runs
runs-All k [] i h = tt
runs-All k (r ∷ rs) i h =
    absorb-All k (single_of r i) (runs rs (suc i)) h.0 (runs-All k rs (suc i) h.1)

absorb-Strict :
    (t : Run) (us : List Run) → All (λ u. t.key ≤ u.key) us → Strict us → Strict (absorb t us)
unfolding absorb
absorb-Strict t [] all h = (tt, tt)
absorb-Strict t (u ∷ us) all h = elim (Bool-cases (t.key == u.key)) [
  | inl same ↦
      let e : t.key ≡ u.key = ground arith in
      rw same (All-map (λ v. u.key < v.key) (λ v. t.key < v.key) us (λ v l. omega arith) h.0, h.1)
  | inr other ↦
      let less : t.key < u.key = ground (arith, all.0) in
      rw other
        ((less, All-map (λ v. u.key < v.key) (λ v. t.key < v.key) us (λ v l. omega arith) h.0), h)
]

runs-Strict :
    (rs : List SpillRecord) (i : ℕ) → Ascending (map (λ r. r.zobrist) rs) → Strict (runs rs i)
unfolding runs
runs-Strict [] i h = tt
runs-Strict (r ∷ rs) i h =
    absorb-Strict (single_of r i) (runs rs (suc i)) (runs-All r.zobrist rs (suc i) h.0)
      (runs-Strict rs (suc i) h.1)

nothing_above : (z : ℕ) (ts : List Run) → All (λ u. z < u.key) ts → visits_in z ts ≡ 0
unfolding visits_in
nothing_above z [] h = refl
nothing_above z (t ∷ ts) h = ground (arith, h.0, nothing_above z ts h.1)

plus_zero : (n : ℕ) → n + 0 ≡ n
plus_zero n = omega arith

zero_plus : (n : ℕ) → 0 + n ≡ n
zero_plus n = omega arith

-- The class that a number of visits asks for.
abbrev pub verdict_of : ℕ → Option NodeClassification
verdict_of n = if leb drop_limit n then some (class_of n) else none

classify-kept :
    (z : ℕ) (ts : List Run) → Strict ts → classify z (kept ts) ≡ verdict_of (visits_in z ts)
unfolding classify kept visits_in
classify-kept z [] h = refl
classify-kept z (t ∷ ts) h =
    let ih = classify-kept z ts h.1 in
    elim (Bool-cases (t.key == z)) [
      | inl same ↦
          let e : t.key ≡ z = ground arith in
          let none_left =
            nothing_above z ts
              (All-map (λ u. t.key < u.key) (λ u. z < u.key) ts (λ u l. omega arith) h.0) in
          rw (same, none_left, plus_zero t.visits)
            (elim (Bool-cases (leb drop_limit t.visits)) [
              | inl keeps ↦ rw (keeps, same) refl
              | inr drops ↦ rw drops (ih ∙ ap verdict_of none_left)
            ])
      | inr other ↦
          rw (other, zero_plus (visits_in z ts))
            (elim (Bool-cases (leb drop_limit t.visits)) [
              | inl keeps ↦ rw (keeps, other) ih
              | inr drops ↦ rw drops ih
            ])
    ]

-- In an aggregate that is sorted by key, with at most `MAX_ENTRIES` positions to keep: the index
-- that the pass builds has no entry for a position with fewer than 50 visits in all of its records, and
-- otherwise one whose class is leaf up to 149 visits and full from 150 on.
pub classify-scan_records :
    (rs : List SpillRecord) (es : List Entry) (z : ℕ)
    → Ascending (map (λ r. r.zobrist) rs)
    → length (kept (runs rs 0)) ≤ max_entries
    → scan_records rs 0 none [] ≡ some es
    → classify z es ≡ verdict_of (visits_of z rs)
classify-scan_records rs es z sorted room e =
    let all : es ≡ kept (runs rs 0) = (let k = scan_records-kept rs sorted room in cc) in
    ap (classify z) all
    ∙ classify-kept z (runs rs 0) (runs-Strict rs 0 sorted)
    ∙ ap verdict_of (visits_in-runs z rs 0)
