-- ===== src/AggSpills/Order.antt =====
-- agg_spills.cpp: the order of the records of one worker's output.
use out_of_book.Prelude.{◌≡◌, List, [], ◌∷◌, true, false, arith, Bool-cases, inl, inr, All, All-map}
use out_of_book.Spill.{SpillRecord, Key, key_of, key_eq}
use out_of_book.AggSpills.{
  Totals, record_less, accumulate, emplace, read_file, read_files, values, insert_sorted, sort,
  aggregate_shard,
}

-- Strictly ascending by `recordLess`: sorted, and no key twice.
abbrev pub IsSorted : List SpillRecord → Type 0
IsSorted [] = Unit
IsSorted (x ∷ xs) = All (λ y. record_less x y ≡ true) xs × IsSorted xs

abbrev Differs : Key → Key × SpillRecord → Type 0
Differs k e = key_eq k e.0 ≡ false

abbrev DistinctKeys : Totals → Type 0
DistinctKeys [] = Unit
DistinctKeys (e ∷ m) = All (Differs e.0) m × DistinctKeys m

record_less_trans :
    (x y z : SpillRecord) → record_less x y ≡ true → record_less y z ≡ true → record_less x z ≡ true
record_less_trans x y z p q = ground arith

record_less_total :
    (x y : SpillRecord)
    → key_eq (key_of x) (key_of y) ≡ false
    → record_less x y ≡ false
    → record_less y x ≡ true
record_less_total x y d p = ground arith

-- Emplacing keeps any property of entries that it has of the new and of the changed ones.
pub emplace-All :
    (P : Key × SpillRecord → Type 0) (r : SpillRecord) (m : Totals)
    → P (key_of r, r)
    → ((k : Key) (v : SpillRecord) → key_eq k (key_of r) ≡ true → P (k, v) → P (k, accumulate v r))
    → All P m
    → All P (emplace r m)
unfolding emplace
emplace-All P r [] new old h = (new, tt)
emplace-All P r ((k, v) ∷ m) new old h = elim (Bool-cases (key_eq k (key_of r))) [
  | inl e ↦ rw e (old k v e h.0, h.1)
  | inr e ↦ rw e (h.0, emplace-All P r m new old h.1)
]

emplace-DistinctKeys : (r : SpillRecord) (m : Totals) → DistinctKeys m → DistinctKeys (emplace r m)
unfolding emplace
emplace-DistinctKeys r [] h = (tt, tt)
emplace-DistinctKeys r ((k, v) ∷ m) h = elim (Bool-cases (key_eq k (key_of r))) [
  | inl e ↦ rw e h
  | inr e ↦ rw e (emplace-All (Differs k) r m e (λ k' v' _ d. d) h.0, emplace-DistinctKeys r m h.1)
]

-- An entry's record has the entry's key.
abbrev Keyed : Key × SpillRecord → Type 0
Keyed e = key_eq e.0 (key_of e.1) ≡ true

record IsTable (m : Totals) : Type 0 where
  keyed : All Keyed m
  distinct : DistinctKeys m

emplace-IsTable : (r : SpillRecord) (m : Totals) → IsTable m → IsTable (emplace r m)
emplace-IsTable r m h = record {
  keyed = emplace-All Keyed r m (ground arith) (λ k v _ d. d) h.keyed;
  distinct = emplace-DistinctKeys r m h.distinct;
}

read_file-IsTable : (rs : List SpillRecord) (m : Totals) → IsTable m → IsTable (read_file rs m)
unfolding read_file
read_file-IsTable [] m h = h
read_file-IsTable (r ∷ rs) m h = read_file-IsTable rs (emplace r m) (emplace-IsTable r m h)

read_files-IsTable :
    (fs : List (List SpillRecord)) (m : Totals) → IsTable m → IsTable (read_files fs m)
unfolding read_files
read_files-IsTable [] m h = h
read_files-IsTable (f ∷ fs) m h = read_files-IsTable fs (read_file f m) (read_file-IsTable f m h)

-- Sorting keeps what holds of every record, and orders records of distinct keys strictly.
pub insert_sorted-All :
    (P : SpillRecord → Type 0) (r : SpillRecord) (xs : List SpillRecord)
    → P r
    → All P xs
    → All P (insert_sorted r xs)
unfolding insert_sorted
insert_sorted-All P r [] p h = (p, tt)
insert_sorted-All P r (x ∷ xs) p h = elim (Bool-cases (record_less r x)) [
  | inl e ↦ rw e (p, h)
  | inr e ↦ rw e (h.0, insert_sorted-All P r xs p h.1)
]

pub sort-All : (P : SpillRecord → Type 0) (xs : List SpillRecord) → All P xs → All P (sort xs)
unfolding sort
sort-All P [] h = tt
sort-All P (x ∷ xs) h = insert_sorted-All P x (sort xs) h.0 (sort-All P xs h.1)

abbrev OtherKey : SpillRecord → SpillRecord → Type 0
OtherKey x y = key_eq (key_of x) (key_of y) ≡ false

insert_sorted-IsSorted :
    (r : SpillRecord) (xs : List SpillRecord)
    → All (OtherKey r) xs
    → IsSorted xs
    → IsSorted (insert_sorted r xs)
unfolding insert_sorted
insert_sorted-IsSorted r [] d h = (tt, tt)
insert_sorted-IsSorted r (x ∷ xs) d h = elim (Bool-cases (record_less r x)) [
  | inl e ↦ rw e (
    (
      e,
      All-map (λ y. record_less x y ≡ true) (λ y. record_less r y ≡ true) xs
          (λ y l. record_less_trans r x y e l) h.0,
    ),
    h,
  )
  | inr e ↦ rw e (
    insert_sorted-All (λ y. record_less x y ≡ true) r xs (record_less_total r x d.0 e) h.0,
    insert_sorted-IsSorted r xs d.1 h.1,
  )
]

values-OtherKey :
    (e : Key × SpillRecord) (m : Totals)
    → Keyed e
    → All (Differs e.0) m
    → All Keyed m
    → All (OtherKey e.1) (values m)
values-OtherKey e [] k d h = tt
values-OtherKey e (e' ∷ m) k d h = (ground arith, values-OtherKey e m k d.1 h.1)

sort-IsSorted : (m : Totals) → All Keyed m → DistinctKeys m → IsSorted (sort (values m))
unfolding sort
sort-IsSorted [] k d = tt
sort-IsSorted (e ∷ m) k d =
    insert_sorted-IsSorted e.1 (sort (values m))
      (sort-All (OtherKey e.1) (values m) (values-OtherKey e m k.0 d.0 k.1))
      (sort-IsSorted m k.1 d.1)

-- The output of one shard is in strict key order, whatever its files hold.
pub aggregate_shard-IsSorted : (files : List (List SpillRecord)) → IsSorted (aggregate_shard files)
unfolding aggregate_shard
aggregate_shard-IsSorted files =
    let t = read_files-IsTable files [] (record { keyed = tt; distinct = tt }) in
    sort-IsSorted (read_files files []) t.keyed t.distinct
