-- ===== src/GenerateOtb/Index/Build.antt =====
-- `buildIndex` of generate_otb.cpp: the pass over the aggregate, beside sums without a cap.
use out_of_book.Prelude.{
  ℕ, suc, ◌+◌, ◌≤◌, ◌<◌, ◌≡◌, ◌∙◌, List, [], ◌∷◌, ◌++◌, true, false, ◌==◌, ltb, leb, if◌then◌else◌,
  none, some, length, arith, refl, ap, sym, Bool-cases, inl, inr, All, map, ◌⊎◌, length-append,
}
use mathlib.Core.List.{append_assoc, append-nil}
use mathlib.Core.Path.{subst}
use out_of_book.Spill.{SpillRecord}
use out_of_book.Otb.Search.{Ascending}
use out_of_book.GenerateOtb.Index.{
  Entry, Run, is_above, append, class_of, drop_limit, leaf_limit, max_entries, finish_run, visit,
  new_run, scan_records,
}

-- A run in front of others, which it takes in if it has the same key as the next.
unfoldable pub absorb : Run → List Run → List Run
absorb t [] = t ∷ []
absorb t (u ∷ us) =
    if t.key == u.key then record t { visits = t.visits + u.visits } ∷ us else t ∷ u ∷ us

abbrev pub single_of : SpillRecord → ℕ → Run
single_of r i = record { key = r.zobrist; offset = i; visits = r.count }

-- The runs of neighbours with one key, with the places where they begin and their exact visits.
unfoldable pub runs : List SpillRecord → ℕ → List Run
runs [] i = []
runs (r ∷ rs) i = absorb (single_of r i) (runs rs (suc i))

abbrev pub entry_of : Run → Entry
entry_of t = record { key = t.key; slot = t.offset; class = class_of t.visits; visited = false }

unfoldable pub kept : List Run → List Entry
kept [] = []
kept (t ∷ ts) = if leb drop_limit t.visits then entry_of t ∷ kept ts else kept ts

absorb-absorb :
    (t s : Run) (us : List Run)
    → t.key ≡ s.key
    → absorb t (absorb s us) ≡ absorb (record t { visits = t.visits + s.visits }) us
unfolding absorb
absorb-absorb t s [] e = ground arith
absorb-absorb t s (u ∷ us) e = elim (Bool-cases (s.key == u.key)) [
  | inl same ↦ rw same (ground arith)
  | inr other ↦ rw other (ground arith)
]

absorb_other :
    (t s : Run) (us : List Run) → t.key == s.key ≡ false → absorb t (absorb s us) ≡ t ∷ absorb s us
unfolding absorb
absorb_other t s [] e = ground arith
absorb_other t s (u ∷ us) e = elim (Bool-cases (s.key == u.key)) [
  | inl same ↦ rw same (ground arith)
  | inr other ↦ rw other (ground arith)
]

-- The capped sum decides like the exact one.
abbrev Capped : ℕ → ℕ → Type 0
Capped v n = (v ≡ n) ⊎ ((leaf_limit ≤ v) × (leaf_limit ≤ n))

-- The run that the loop is in, with its exact visits.
abbrev exact : Run → ℕ → Run
exact run n = record run { visits = n }

Capped-kept : (v n : ℕ) → Capped v n → leb drop_limit v ≡ leb drop_limit n
Capped-kept v n (inl e) = ap (leb drop_limit) e
Capped-kept v n (inr (h, h')) = ground arith

Capped-class : (v n : ℕ) → Capped v n → class_of v ≡ class_of n
Capped-class v n (inl e) = ap class_of e
Capped-class v n (inr (h, h')) = ground arith

Capped-visit :
    (r : SpillRecord) (run : Run) (n : ℕ)
    → Capped run.visits n
    → Capped (visit r run).visits (n + r.count)
Capped-visit r run n c = elim (Bool-cases (ltb run.visits leaf_limit)) [
  | inl more ↦ rw more (more_visits run.visits n r.count more c)
  | inr enough ↦ rw enough (enough_visits run.visits n r.count enough c)
]
  where
    more_visits : (v n k : ℕ) → ltb v leaf_limit ≡ true → Capped v n → Capped (v + k) (n + k)
    more_visits v n k b (inl e) = inl (ap (λ m. m + k) e)
    more_visits v n k b (inr (h, h')) = absurd (ground arith)

    enough_visits : (v n k : ℕ) → ltb v leaf_limit ≡ false → Capped v n → Capped v (n + k)
    enough_visits v n k b (inl e) = inr (ground arith, ground arith)
    enough_visits v n k b (inr (h, h')) = inr (h, omega arith)

visit-key : (r : SpillRecord) (run : Run) → (visit r run).key ≡ run.key
visit-key r run = elim (Bool-cases (ltb run.visits leaf_limit)) [
  | inl more ↦ rw more refl
  | inr enough ↦ rw enough refl
]

visit-exact : (r : SpillRecord) (run : Run) (n : ℕ) → exact (visit r run) n ≡ exact run n
visit-exact r run n = elim (Bool-cases (ltb run.visits leaf_limit)) [
  | inl more ↦ rw more refl
  | inr enough ↦ rw enough refl
]

kept-cons : (t : Run) (us : List Run) → kept (t ∷ us) ≡ kept (t ∷ []) ++ kept us
unfolding kept
kept-cons t us = elim (Bool-cases (leb drop_limit t.visits)) [
  | inl e ↦ rw e refl
  | inr e ↦ rw e refl
]

is_above_mono : (k k' : ℕ) (es : List Entry) → k ≤ k' → is_above k es ≡ true → is_above k' es ≡ true
unfolding is_above
is_above_mono k k' [] le h = refl
is_above_mono k k' (e ∷ []) le h = ground arith
is_above_mono k k' (e ∷ f ∷ es) le h = is_above_mono k k' (f ∷ es) le h

is_above-append :
    (k : ℕ) (es : List Entry) (e : Entry) → ltb e.key k ≡ true → is_above k (es ++ e ∷ []) ≡ true
unfolding is_above
is_above-append k [] e h = h
is_above-append k (x ∷ []) e h = h
is_above-append k (x ∷ y ∷ es) e h = is_above-append k (y ∷ es) e h

-- What is kept of a run is below every later key.
is_above-kept :
    (t : Run) (es : List Entry) (k : ℕ)
    → t.key < k
    → is_above t.key es ≡ true
    → is_above k (es ++ kept (t ∷ [])) ≡ true
unfolding kept
is_above-kept t es k lt h = elim (Bool-cases (leb drop_limit t.visits)) [
  | inl keeps ↦ rw keeps (is_above-append k es (entry_of t) (ground arith))
  | inr drops ↦ rw (drops, append-nil es) (is_above_mono t.key k es (omega arith) h)
]

finish_run_lem :
    (run : Run) (n : ℕ) (es : List Entry)
    → is_above run.key es ≡ true
    → Capped run.visits n
    → length (es ++ kept (exact run n ∷ [])) ≤ max_entries
    → finish_run (some run) es ≡ some (es ++ kept (exact run n ∷ []))
unfolding finish_run append kept
finish_run_lem run n es above c h =
    rw (Capped-kept run.visits n c) (elim (Bool-cases (leb drop_limit n)) [
      | inl keeps ↦
          let room = length-append es (kept (exact run n ∷ [])) in
          let free : length es == max_entries ≡ false = ground arith in
          let enough : ltb run.visits drop_limit ≡ false =
            ground (arith, Capped-kept run.visits n c, keeps) in
          rw (keeps, free, enough, above, Capped-class run.visits n c) refl
      | inr drops ↦ rw drops (ap some (sym (append-nil es)))
    ])

kept_first :
    (t : Run) (us ts : List Run) (es : List Entry)
    → ts ≡ t ∷ us
    → es ++ kept ts ≡ (es ++ kept (t ∷ [])) ++ kept us
kept_first t us ts es e =
    ap (λ xs. es ++ kept xs) e
    ∙ ap (λ xs. es ++ xs) (kept-cons t us)
    ∙ sym (append_assoc es (kept (t ∷ [])) (kept us))

-- With the run that it is in, the loop appends what is kept of all runs to come.
scan_records_lem :
    (rs : List SpillRecord) (i : ℕ) (run : Run) (n : ℕ) (es : List Entry) (ts : List Run)
    → is_above run.key es ≡ true
    → All (λ z. run.key ≤ z) (map (λ r. r.zobrist) rs)
    → Ascending (map (λ r. r.zobrist) rs)
    → Capped run.visits n
    → ts ≡ absorb (exact run n) (runs rs i)
    → length (es ++ kept ts) ≤ max_entries
    → scan_records rs i (some run) es ≡ some (es ++ kept ts)
unfolding scan_records runs
scan_records_lem [] i run n es ts above later sorted c e h =
    let single : ts ≡ exact run n ∷ [] = e ∙ unfold absorb in refl in
    rw (single) (
      finish_run_lem run n es above c (subst (λ xs. length (es ++ kept xs) ≤ max_entries) single h))
scan_records_lem (r ∷ rs) i run n es ts above later sorted c e h =
    elim (Bool-cases (r.zobrist == run.key)) [
      | inl same ↦ rw same (
          scan_records_lem rs (suc i) (visit r run) (n + r.count) es ts
            (subst (λ k. is_above k es ≡ true) (sym (visit-key r run)) above)
            (subst (λ k. All (λ z. k ≤ z) (map (λ r. r.zobrist) rs)) (sym (visit-key r run))
              later.1)
            sorted.1 (Capped-visit r run n c)
            (e
              ∙ absorb-absorb (exact run n) (single_of r i) (runs rs (suc i)) (ground arith)
              ∙ ap (λ t. absorb t (runs rs (suc i))) (sym (visit-exact r run (n + r.count))))
            h)
      | inr other ↦
          let us = absorb (single_of r i) (runs rs (suc i)) in
          let apart =
            e ∙ absorb_other (exact run n) (single_of r i) (runs rs (suc i)) (ground arith) in
          let first = kept_first (exact run n) us ts es apart in
          let bound = subst (λ xs. length xs ≤ max_entries) first h in
          let room = length-append (es ++ kept (exact run n ∷ [])) (kept us) in
          let lt : run.key < r.zobrist = ground (arith, later.0, other) in
          let key = sym (visit-key r (new_run r i)) in
          rw (other, finish_run_lem run n es above c (omega (arith, bound, room)), first)
            (scan_records_lem rs (suc i) (visit r (new_run r i)) r.count
              (es ++ kept (exact run n ∷ [])) us
              (subst (λ k. is_above k (es ++ kept (exact run n ∷ [])) ≡ true) key
                (is_above-kept (exact run n) es r.zobrist lt above))
              (subst (λ k. All (λ z. k ≤ z) (map (λ r. r.zobrist) rs)) key sorted.0) sorted.1
              (inl (omega arith)) refl bound)
    ]

-- For any sequence of records in the order of their keys whose kept runs are at most `MAX_ENTRIES`, the one pass with its capped
-- sum fails no assertion and returns exactly the runs of neighbours with one key that have at least `DROP_LIMIT` visits by
-- their exact sum, in their order, each with the place of its first record and with the class that
-- the exact sum has.
pub scan_records-kept :
    (rs : List SpillRecord)
    → Ascending (map (λ r. r.zobrist) rs)
    → length (kept (runs rs 0)) ≤ max_entries
    → scan_records rs 0 none [] ≡ some (kept (runs rs 0))
unfolding scan_records finish_run
scan_records-kept [] sorted h = unfold runs kept in refl
scan_records-kept (r ∷ rs) sorted h =
    let key = sym (visit-key r (new_run r 0)) in
    scan_records_lem rs 1 (visit r (new_run r 0)) r.count [] (runs (r ∷ rs) 0)
      (unfold is_above in refl)
      (subst (λ k. All (λ z. k ≤ z) (map (λ r. r.zobrist) rs)) key sorted.0) sorted.1
      (inl (omega arith)) (unfold runs in refl) h
