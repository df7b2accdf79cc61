-- ===== src/AggMerger/Sums.antt =====
-- Sums over spill records, by which the stages of the merger are compared, and the order of the
-- files that agg_merger.cpp reads.
use out_of_book.Prelude.{
  ℕ, ◌+◌, ◌≤◌, ◌≡◌, ap, List, [], ◌∷◌, ◌++◌, false, ◌==◌, if◌then◌else◌, arith, refl, All,
}
use out_of_book.Spill.{SpillRecord, Key, Counter, weight, tally, tallies}
use out_of_book.AggSpills.{record_less}

unfoldable pub sum_of : (SpillRecord → ℕ) → List SpillRecord → ℕ
sum_of w [] = 0
sum_of w (r ∷ rs) = w r + sum_of w rs

unfoldable pub sums_of : (SpillRecord → ℕ) → List (List SpillRecord) → ℕ
sums_of w [] = 0
sums_of w (f ∷ fs) = sum_of w f + sums_of w fs

pub sum_of-append :
    (w : SpillRecord → ℕ) (xs ys : List SpillRecord)
    → sum_of w (xs ++ ys) ≡ sum_of w xs + sum_of w ys
unfolding sum_of
sum_of-append w [] ys = omega arith
sum_of-append w (x ∷ xs) ys = omega (arith, sum_of-append w xs ys)

pub tally-sum_of :
    (k : Key) (c : Counter) (xs : List SpillRecord) → tally k c xs ≡ sum_of (weight k c) xs
unfolding tally sum_of
tally-sum_of k c [] = refl
tally-sum_of k c (x ∷ xs) = ap (λ t. weight k c x + t) (tally-sum_of k c xs)

pub tallies-sums_of :
    (k : Key) (c : Counter) (fs : List (List SpillRecord))
    → tallies k c fs ≡ sums_of (weight k c) fs
unfolding tallies sums_of
tallies-sums_of k c [] = refl
tallies-sums_of k c (f ∷ fs) = omega (arith, tally-sum_of k c f, tallies-sums_of k c fs)

pub sum_of_zero :
    (w : SpillRecord → ℕ) (P : SpillRecord → Type 0)
    → ((r : SpillRecord) → P r → w r ≡ 0)
    → (xs : List SpillRecord) → All P xs
    → sum_of w xs ≡ 0
unfolding sum_of
sum_of_zero w P z [] h = refl
sum_of_zero w P z (x ∷ xs) h = omega (arith, z x h.0, sum_of_zero w P z xs h.1)

-- The records counted, and the games of a position.
abbrev pub one : SpillRecord → ℕ
one r = 1

abbrev pub games_at : ℕ → SpillRecord → ℕ
games_at z r = if r.zobrist == z then r.count else 0

abbrev pub position_total : ℕ → List (List SpillRecord) → ℕ
position_total z files = sums_of (games_at z) files

-- A weight that only records of position `z` have.
abbrev pub IsLocal : ℕ → (SpillRecord → ℕ) → Type 0
IsLocal z w = (r : SpillRecord) → (r.zobrist == z) ≡ false → w r ≡ 0

pub weight-IsLocal : (k : Key) (c : Counter) → IsLocal k.zobrist (weight k c)
weight-IsLocal k c r h = ground arith

pub games_at-IsLocal : (z : ℕ) → IsLocal z (games_at z)
games_at-IsLocal z r h = rw h refl

-- `y` does not come before `x` by position, move and bucket.
abbrev pub AtMost : SpillRecord → SpillRecord → Type 0
AtMost x y = record_less y x ≡ false

-- Sorted by position, move and bucket, where equal keys may repeat.
abbrev pub IsAscending : List SpillRecord → Type 0
IsAscending [] = Unit
IsAscending (x ∷ xs) = All (AtMost x) xs × IsAscending xs

pub AtMost-trans : (x y z : SpillRecord) → AtMost x y → AtMost y z → AtMost x z
AtMost-trans x y z h h' = ground arith

pub AtMost-zobrist : (x y : SpillRecord) → AtMost x y → x.zobrist ≤ y.zobrist
AtMost-zobrist x y h = ground arith
