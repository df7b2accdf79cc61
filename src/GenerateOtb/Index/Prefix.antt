-- ===== src/GenerateOtb/Index/Prefix.antt =====
-- PositionIndex: a search inside of one bucket of the prefix table, beside one over all keys.
use out_of_book.Prelude.{
  ℕ, zero, suc, ◌+◌, ◌-◌, ◌/◌, ◌^◌, ◌≤◌, ◌<◌, ◌≡◌, ◌∙◌, List, [], ◌∷◌, ◌++◌, true, false, map, ltb,
  leb, if◌then◌else◌, Option, none, some, length, take, drop, get_or, get_elem?, replicate, arith,
  refl, ap, sym, pow_pos, shr-lt, Bool-cases, inl, inr,
}
use native.Mathlib.Nat.{div-lt_iff_lt-mul, div-mul-le_self}
use out_of_book.Otb.Search.{lower_bound, hit, find_key, shift, find_key-cons}
use out_of_book.GenerateOtb.Index.{
  Entry, PositionIndex, prefix_of, raise_bits, fill_buckets, finalize, find_between, find,
}

-- The number of leading keys whose prefix is below `b`.
unfoldable pub leading : ℕ → ℕ → List ℕ → ℕ
leading bits b [] = 0
leading bits b (k ∷ ks) = if ltb (prefix_of bits k) b then suc (leading bits b ks) else 0

get_or-append_left : (m i j : ℕ) (ys : List ℕ) → j < m → get_or (replicate m i ++ ys) j 0 ≡ i
get_or-append_left zero i j ys h = elim h [ ]
get_or-append_left (suc m) i zero ys h = refl
get_or-append_left (suc m) i (suc j) ys h = get_or-append_left m i j ys (omega arith)

minus_zero : (j : ℕ) → j - 0 ≡ j
minus_zero j = omega arith

minus_suc : (j m : ℕ) → suc j - suc m ≡ j - m
minus_suc j m = omega arith

plus_zero : (i : ℕ) → i ≡ i + 0
plus_zero i = omega arith

gone : (bucket target : ℕ) → leb bucket target ≡ false → target + 1 - bucket ≡ 0
gone bucket target h = ground arith

past :
    (target bucket j : ℕ)
    → leb bucket target ≡ true
    → ltb j (target + 1 - bucket) ≡ false
    → target + 1 + (j - (target + 1 - bucket)) ≡ bucket + j
past target bucket j h h' = ground arith

step_below : (target b i n : ℕ) → target < b → suc i + n ≡ i + (if ltb target b then suc n else 0)
step_below target b i n h = ground arith

step_at : (target b i n : ℕ) → b ≤ target → i ≡ i + (if ltb target b then suc n else 0)
step_at target b i n h = ground arith

get_or-append_right :
    (m i j : ℕ) (ys : List ℕ) → m ≤ j → get_or (replicate m i ++ ys) j 0 ≡ get_or ys (j - m) 0
get_or-append_right zero i j ys h = ap (λ n. get_or ys n 0) (sym (minus_zero j))
get_or-append_right (suc m) i zero ys h = absurd (omega arith)
get_or-append_right (suc m) i (suc j) ys h =
    get_or-append_right m i j ys (omega arith) ∙ ap (λ n. get_or ys n 0) (sym (minus_suc j m))

get_or-replicate_in : (m i j : ℕ) → j < m → get_or (replicate m i) j 0 ≡ i
get_or-replicate_in zero i j h = elim h [ ]
get_or-replicate_in (suc m) i zero h = refl
get_or-replicate_in (suc m) i (suc j) h = get_or-replicate_in m i j (omega arith)

-- The table holds at every bucket the number of keys in front of it.
fill_buckets_lem :
    (bits : ℕ) (ks : List ℕ) (i bucket j : ℕ)
    → bucket + j ≤ 2 ^ bits
    → get_or (fill_buckets bits ks i bucket) j 0 ≡ i + leading bits (bucket + j) ks
unfolding fill_buckets leading
fill_buckets_lem bits [] i bucket j h =
    get_or-replicate_in (2 ^ bits + 1 - bucket) i j (omega arith) ∙ plus_zero i
fill_buckets_lem bits (k ∷ ks) i bucket j h =
    let target = prefix_of bits k in
    elim (Bool-cases (leb bucket target)) [
      | inr before ↦ rw before (
          ap (λ m. get_or (replicate m i ++ fill_buckets bits ks (suc i) bucket) j 0)
            (gone bucket target before)
          ∙ fill_buckets_lem bits ks (suc i) bucket j h
          ∙ step_below target (bucket + j) i (leading bits (bucket + j) ks) (ground arith))
      | inl here ↦ rw here (elim (Bool-cases (ltb j (target + 1 - bucket))) [
        | inl left ↦
            get_or-append_left (target + 1 - bucket) i j _ (ground arith)
            ∙ step_at target (bucket + j) i (leading bits (bucket + j) ks) (ground arith)
        | inr right ↦
            get_or-append_right (target + 1 - bucket) i j _ (ground arith)
            ∙ fill_buckets_lem bits ks (suc i) (target + 1) (j - (target + 1 - bucket))
                (ground arith)
            ∙ ap (λ b. suc i + leading bits b ks) (past target bucket j here right)
            ∙ step_below target (bucket + j) i (leading bits (bucket + j) ks) (ground arith)
      ])
    ]

-- A smaller prefix belongs to a smaller key.
lt_of_shr-lt : (x y n : ℕ) → x / 2 ^ n < y / 2 ^ n → x < y
lt_of_shr-lt x y n h =
    let below = (div-lt_iff_lt-mul (pow_pos n)).0 h in
    omega (arith, div-mul-le_self y (2 ^ n), below)

-- A place in a part of the keys, as a place among all of them.
abbrev behind : ℕ → Option ℕ → Option ℕ
behind b none = none
behind b (some i) = some (b + i)

hit-add : (b : ℕ) (o : Option ℕ) (it key : ℕ) → hit o (b + it) key ≡ behind b (hit o it key)
unfolding hit
hit-add b none it key = refl
hit-add b (some x) it key = ground arith

behind-zero : (o : Option ℕ) → behind 0 o ≡ o
behind-zero none = refl
behind-zero (some i) = ap some (omega arith)

behind-suc : (b : ℕ) (o : Option ℕ) → behind (suc b) o ≡ shift (behind b o)
behind-suc b none = refl
behind-suc b (some i) = ap some (omega arith)

find_between-behind :
    (keys : List ℕ) (b e key : ℕ)
    → find_between keys b e key ≡ behind b (find_key (take (e - b) (drop b keys)) key)
unfolding find_between find_key
find_between-behind keys b e key =
    hit-add b
      (get_elem? (take (e - b) (drop b keys)) (lower_bound (take (e - b) (drop b keys)) key))
      (lower_bound (take (e - b) (drop b keys)) key) key

find_key-nil : (key : ℕ) → find_key [] key ≡ none
unfolding find_key lower_bound hit
find_key-nil key = refl

module _ (bits key : ℕ) where
  -- Behind the bucket there are larger keys only.
  find_key-take :
      (keys : List ℕ)
      → find_key (take (leading bits (prefix_of bits key + 1) keys) keys) key ≡ find_key keys key
  unfolding leading
  find_key-take [] = refl
  find_key-take (x ∷ xs) =
      let within = take (leading bits (prefix_of bits key + 1) xs) xs in
      elim (Bool-cases (ltb (prefix_of bits x) (prefix_of bits key + 1))) [
        | inl inside ↦
            rw (inside, find_key-cons x key within, find_key-cons x key xs, find_key-take xs) refl
        | inr larger ↦
            let above : key < x = lt_of_shr-lt key x (64 - bits) (ground arith) in
            rw (larger, find_key-cons x key xs, find_key-nil key) (ground arith)
      ]

  -- In front of it there are smaller ones only.
  find_between-find_key :
      (keys : List ℕ)
      → behind (leading bits (prefix_of bits key) keys) (
          find_key
            (take
              (leading bits (prefix_of bits key + 1) keys - leading bits (prefix_of bits key) keys)
              (drop (leading bits (prefix_of bits key) keys) keys))
            key)
        ≡ find_key keys key
  unfolding leading
  find_between-find_key [] = rw (find_key-nil key) refl
  find_between-find_key (x ∷ xs) =
      let b = leading bits (prefix_of bits key) xs in
      let e = leading bits (prefix_of bits key + 1) xs in
      elim (Bool-cases (ltb (prefix_of bits x) (prefix_of bits key))) [
        | inl smaller ↦
            let below : x < key = lt_of_shr-lt x key (64 - bits) (ground arith) in
            let low : ltb (prefix_of bits x) (prefix_of bits key + 1) ≡ true = ground arith in
            rw
              (
                smaller,
                low,
                minus_suc e b,
                behind-suc b (find_key (take (e - b) (drop b xs)) key),
                find_between-find_key xs,
                find_key-cons x key xs,
              )
              (ground arith)
        | inr within ↦
            rw (within, behind-zero _)
              (ap (λ n. find_key (take n (x ∷ xs)) key) (minus_zero _) ∙ find_key-take (x ∷ xs))
      ]

raise_bits-le : (n bits size : ℕ) → raise_bits n bits size ≤ bits + n
unfolding raise_bits
raise_bits-le zero bits size = omega arith
raise_bits-le (suc n) bits size = ground (arith, raise_bits-le n (suc bits) size)

zero_add : (n : ℕ) → 0 + n ≡ n
zero_add n = omega arith

start_of :
    (bits : ℕ) (ks : List ℕ) (j : ℕ)
    → j ≤ 2 ^ bits
    → get_or (fill_buckets bits ks 0 0) j 0 ≡ leading bits j ks
start_of bits ks j h =
    fill_buckets_lem bits ks 0 0 j (omega arith)
    ∙ zero_add (leading bits (0 + j) ks)
    ∙ ap (λ n. leading bits n ks) (zero_add j)

find_in_table :
    (bits : ℕ) (ks : List ℕ) (key : ℕ)
    → bits ≤ 64
    → key < 2 ^ 64
    → find_between ks
        (get_or (fill_buckets bits ks 0 0) (prefix_of bits key) 0)
        (get_or (fill_buckets bits ks 0 0) (prefix_of bits key + 1) 0)
        key
      ≡ find_key ks key
find_in_table bits ks key wide small =
    let inside = shr-lt key 64 bits wide small in
    rw
      (
        start_of bits ks (prefix_of bits key) (omega arith),
        start_of bits ks (prefix_of bits key + 1) (omega arith),
      )
      (find_between-behind ks (leading bits (prefix_of bits key) ks)
          (leading bits (prefix_of bits key + 1) ks) key
        ∙ find_between-find_key bits key ks)

-- With the table that `finalize` builds, `find` gives for every 64-bit key the same answer as a search
-- over all keys: the first place that holds it, or none.
pub find-find_key :
    (es : List Entry) (idx : PositionIndex) (key : ℕ)
    → finalize es ≡ some idx
    → key < 2 ^ 64
    → find idx key ≡ find_key (map (λ e. e.key) es) key
unfolding find finalize
find-find_key es idx key made small = elim (Bool-cases (ltb 0xffff_ffff (length es))) [
  | inl large ↦ absurd (ground arith)
  | inr room ↦
      let bits = raise_bits 21 1 (length es) in
      let same =
        find_in_table bits (map (λ e. e.key) es) key (omega (arith, raise_bits-le 21 1 (length es)))
          small in
      cc
]
