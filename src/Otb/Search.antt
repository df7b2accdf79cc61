-- ===== src/Otb/Search.antt =====
-- `std::lower_bound` over ascending keys, and the lookup that OtbStore.cpp, Book.cpp and
-- generate_otb.cpp build on it.
use out_of_book.Prelude.{
  ℕ, zero, suc, ◌≤◌, ◌<◌, ◌≡◌, ◌∙◌, ◌≢◌, List, [], ◌∷◌, Bool, true, ◌==◌, ltb, leb, ◌&&◌,
  if◌then◌else◌, Option, none, some, get_elem?, All, All-map, arith, refl, Bool-cases, inl, inr,
}

-- The first place whose key is not below `key`; the length if there is none.
unfoldable pub lower_bound : List ℕ → ℕ → ℕ
lower_bound [] key = 0
lower_bound (x ∷ xs) key = if ltb x key then suc (lower_bound xs key) else 0

-- `it == end || *it != key` means that the key is not there.
unfoldable pub hit : Option ℕ → ℕ → ℕ → Option ℕ
hit none it key = none
hit (some x) it key = if x == key then some it else none

unfoldable pub find_key : List ℕ → ℕ → Option ℕ
find_key keys key = hit (get_elem? keys (lower_bound keys key)) (lower_bound keys key) key

-- `std::is_sorted`
unfoldable pub is_sorted : List ℕ → Bool
is_sorted [] = true
is_sorted (x ∷ []) = true
is_sorted (x ∷ y ∷ rest) = leb x y && is_sorted (y ∷ rest)

abbrev pub Ascending : List ℕ → Type 0
Ascending [] = Unit
Ascending (x ∷ xs) = All (λ y. x ≤ y) xs × Ascending xs

pub is_sorted-Ascending : (xs : List ℕ) → is_sorted xs ≡ true → Ascending xs
unfolding is_sorted
is_sorted-Ascending [] h = tt
is_sorted-Ascending (x ∷ []) h = (tt, tt)
is_sorted-Ascending (x ∷ y ∷ rest) h =
    let a = is_sorted-Ascending (y ∷ rest) (ground arith) in
    let le : x ≤ y = ground arith in
    ((le, All-map (λ z. y ≤ z) (λ z. x ≤ z) rest (λ z l. omega arith) a.0), a)

abbrev pub shift : Option ℕ → Option ℕ
shift none = none
shift (some i) = some (suc i)

pub hit-shift : (o : Option ℕ) (it key : ℕ) → hit o (suc it) key ≡ shift (hit o it key)
unfolding hit
hit-shift none it key = refl
hit-shift (some x) it key = ground arith

pub find_key-cons :
    (x key : ℕ) (xs : List ℕ)
    → find_key (x ∷ xs) key
      ≡ (if ltb x key then shift (find_key xs key) else if x == key then some 0 else none)
unfolding find_key lower_bound
find_key-cons x key xs = elim (Bool-cases (ltb x key)) [
  | inl e ↦ rw e (hit-shift (get_elem? xs (lower_bound xs key)) (lower_bound xs key) key)
  | inr e ↦ rw e (unfold hit in refl)
]

-- A key that is found stands at the place that is reported, and no earlier.
pub find_key-some :
    (keys : List ℕ) (key i : ℕ)
    → find_key keys key ≡ some i
    → (get_elem? keys i ≡ some key) × ((j : ℕ) → j < i → get_elem? keys j ≢ some key)
find_key-some [] key i h = absurd (nothing h)
  where
    nothing : find_key [] key ≡ some i → ⊥
    nothing e = unfold find_key hit in cc
find_key-some (x ∷ xs) key zero h =
    (ground (arith, find_key-cons x key xs), λ j lt. absurd (omega arith))
find_key-some (x ∷ xs) key (suc i) h =
    let tail : find_key xs key ≡ some i = ground (arith, find_key-cons x key xs) in
    let (at, before) = find_key-some xs key i tail in
    let less : x < key = ground (arith, find_key-cons x key xs) in
    (at, elim [ zero ↦ λ lt e. ground arith | suc j ↦ λ lt e. before j (omega arith) e ])

missing_beyond :
    (keys : List ℕ) (key i : ℕ) → All (λ y. suc key ≤ y) keys → get_elem? keys i ≢ some key
missing_beyond [] key i h e = cc
missing_beyond (x ∷ xs) key zero h e = ground arith
missing_beyond (x ∷ xs) key (suc i) h e = missing_beyond xs key i h.1 e

-- In ascending order, a key that is not found is nowhere.
pub find_key-none :
    (keys : List ℕ) (key : ℕ)
    → Ascending keys
    → find_key keys key ≡ none
    → (i : ℕ) → get_elem? keys i ≢ some key
find_key-none [] key a h i e = cc
find_key-none (x ∷ xs) key a h i e = elim (Bool-cases (ltb x key)) [
  | inl less ↦ ahead less i e (find_key-none xs key a.1)
  | inr not_less ↦
      let beyond : suc key ≤ x = ground (arith, find_key-cons x key xs) in
      missing_beyond (x ∷ xs) key i
        (beyond, All-map (λ y. x ≤ y) (λ y. suc key ≤ y) xs (λ y l. omega arith) a.0) e
]
  where
    ahead :
        ltb x key ≡ true
        → (j : ℕ) → get_elem? (x ∷ xs) j ≡ some key
        → (find_key xs key ≡ none → (k : ℕ) → get_elem? xs k ≢ some key)
        → ⊥
    ahead less zero e ih = ground arith
    ahead less (suc j) e ih =
        ih (rest_none (find_key xs key) (find_key-cons x key xs ∙ rw less)) j e
      where
        rest_none : (o : Option ℕ) → find_key (x ∷ xs) key ≡ shift o → o ≡ none
        rest_none none q = refl
        rest_none (some k) q = absurd (cc (h))
