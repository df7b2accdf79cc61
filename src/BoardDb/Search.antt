-- ===== src/BoardDb/Search.antt =====
-- BoardDB.cpp, `findIndex`: the binary search beside `std::lower_bound`.
use out_of_book.Prelude.{
  ℕ, zero, suc, ◌+◌, ◌-◌, ◌/◌, ◌^◌, ◌≤◌, ◌<◌, ◌≡◌, ◌∙◌, ap, List, [], ◌∷◌, ltb, leb, if◌then◌else◌,
  none, some, length, get_elem?, map, arith, refl, All-get_elem?, drop-get_elem?, lt→ltb, ltb→lt,
  leb→le, length-map, Bool-cases, inl, inr,
}
use mathlib.Core.Option.{some_inj}
use native.Mathlib.Nat.{pow-suc, pow-zero}
use out_of_book.Otb.Format.{IndexEntry}
use out_of_book.Otb.Search.{lower_bound, find_key, hit, Ascending}
use out_of_book.BoardDb.{BoardDb, ok, read_index_entry, search_loop, check_place, find_index}

module _ (key : ℕ) where
  before_bound :
      (xs : List ℕ) (i x : ℕ)
      → Ascending xs
      → get_elem? xs i ≡ some x
      → x < key
      → i < lower_bound xs key
  unfolding lower_bound
  before_bound [] i x a e lt = absurd (cc)
  before_bound (y ∷ xs) zero x a e lt = ground (arith, e)
  before_bound (y ∷ xs) (suc i) x a e lt =
      let le : y ≤ x = All-get_elem? (λ z. y ≤ z) xs i x a.0 e in
      ground (arith, before_bound xs i x a.1 e lt)

  behind_bound :
      (xs : List ℕ) (i x : ℕ) → get_elem? xs i ≡ some x → key ≤ x → lower_bound xs key ≤ i
  unfolding lower_bound
  behind_bound [] i x e le = absurd (cc)
  behind_bound (y ∷ xs) zero x e le = ground (arith, e)
  behind_bound (y ∷ xs) (suc i) x e le = ground (arith, behind_bound xs i x e le)

  lower_bound-le-length : (xs : List ℕ) → lower_bound xs key ≤ length xs
  unfolding lower_bound
  lower_bound-le-length [] = omega arith
  lower_bound-le-length (x ∷ xs) = ground (arith, lower_bound-le-length xs)

abbrev pub zobrists : List IndexEntry → List ℕ
zobrists = map (λ e. e.zobrist)

get_elem?-zobrists :
    (es : List IndexEntry) (i : ℕ) (e : IndexEntry)
    → get_elem? es i ≡ some e
    → get_elem? (zobrists es) i ≡ some e.zobrist
get_elem?-zobrists [] i e h = absurd (cc)
get_elem?-zobrists (x ∷ es) zero e h = ap (λ y. some y.zobrist) (some_inj.0 h)
get_elem?-zobrists (x ∷ es) (suc i) e h = get_elem?-zobrists es i e h

get_elem?-behind : (xs : List ℕ) (i : ℕ) → length xs ≤ i → get_elem? xs i ≡ none
get_elem?-behind [] i h = refl
get_elem?-behind (x ∷ xs) zero h = absurd (omega arith)
get_elem?-behind (x ∷ xs) (suc i) h = get_elem?-behind xs i (omega arith)

-- A database whose index can be read, and is in order.
module _ (db : BoardDb) (es : List IndexEntry) (count : db.header.nodes ≡ length es)
    (reads : (i : ℕ) (e : IndexEntry) → get_elem? es i ≡ some e → read_index_entry db i ≡ ok e)
    (up : Ascending (zobrists es)) (z : ℕ) where
  search_loop-going :
      (fuel lo hi : ℕ) (e : IndexEntry)
      → lo < hi
      → read_index_entry db (lo + (hi - lo) / 2) ≡ ok e
      → search_loop (suc fuel) db z lo hi
        ≡ search_loop fuel db z
            (if ltb e.zobrist z then lo + (hi - lo) / 2 + 1 else lo)
            (if ltb e.zobrist z then hi else lo + (hi - lo) / 2)
  unfolding search_loop
  search_loop-going fuel lo hi e lt read = rw (lt→ltb lo hi lt) (rw read refl)

  search_loop-met : (fuel lo hi : ℕ) → hi ≤ lo → search_loop fuel db z lo hi ≡ ok lo
  unfolding search_loop
  search_loop-met zero lo hi le = ground arith
  search_loop-met (suc fuel) lo hi le = ground arith

  search_loop_lem :
      (fuel lo hi : ℕ)
      → lo ≤ lower_bound (zobrists es) z
      → lower_bound (zobrists es) z ≤ hi
      → hi ≤ length es
      → hi - lo < 2 ^ fuel
      → search_loop fuel db z lo hi ≡ ok (lower_bound (zobrists es) z)
  search_loop_lem zero lo hi l h n small =
      let met : lower_bound (zobrists es) z ≡ lo = omega (arith, pow-zero 2) in
      rw met (search_loop-met 0 lo hi (omega (arith, pow-zero 2)))
  search_loop_lem (suc fuel) lo hi l h n small = elim (Bool-cases (ltb lo hi)) [
    | inr over ↦
        let le : hi ≤ lo = ground arith in
        let met : lower_bound (zobrists es) z ≡ lo = omega arith in
        rw met (search_loop-met (suc fuel) lo hi le)
    | inl more ↦
        let lt : lo < hi = ltb→lt lo hi more in
        let mid = lo + (hi - lo) / 2 in
        let (e, at, _) = drop-get_elem? mid es (omega arith) in
        let key_at = get_elem?-zobrists es mid e at in
        search_loop-going fuel lo hi e lt (reads mid e at) ∙ elim (Bool-cases (ltb e.zobrist z)) [
          | inl less ↦ rw less (
              search_loop_lem fuel (mid + 1) hi
                (omega
                  (arith, before_bound z (zobrists es) mid e.zobrist up key_at (ltb→lt _ _ less)))
                h n (omega (arith, pow-suc 2 fuel)))
          | inr not_less ↦
              let le : z ≤ e.zobrist = ground arith in
              rw not_less (
                search_loop_lem fuel lo mid l (behind_bound z (zobrists es) mid e.zobrist key_at le)
                  (omega arith) (omega (arith, pow-suc 2 fuel)))
        ]
  ]

  check_place_lem : (lo : ℕ) → check_place db z lo ≡ ok (hit (get_elem? (zobrists es) lo) lo z)
  unfolding check_place hit
  check_place_lem lo = elim (Bool-cases (leb db.header.nodes lo)) [
    | inl behind ↦
        let none_there = get_elem?-behind (zobrists es) lo (
          omega (arith, leb→le _ _ behind, length-map {0, 0} es (λ (e : IndexEntry). e.zobrist))) in
        rw (behind, none_there) refl
    | inr inside ↦
        let lt : lo < db.header.nodes = ground arith in
        let (e, at, _) = drop-get_elem? lo es (omega arith) in
        rw (inside, get_elem?-zobrists es lo e at, reads lo e at) (ground arith)
  ]

  -- `findIndex` ends, within 64 rounds, with the place at which `std::lower_bound` finds the key, or
  -- with none where it does not, if the index is in order and its entries can be read.
  pub find_index-find_key :
      db.header.nodes < 2 ^ 64 → find_index db z ≡ ok (find_key (zobrists es) z)
  unfolding find_index find_key
  find_index-find_key small =
      let le = lower_bound-le-length z (zobrists es) in
      let n = length-map {0, 0} es (λ (e : IndexEntry). e.zobrist) in
      rw
        (search_loop_lem 64 0 db.header.nodes (omega arith) (omega arith) (omega arith)
          (omega arith))
        (check_place_lem (lower_bound (zobrists es) z))
