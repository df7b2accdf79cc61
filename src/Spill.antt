-- ===== src/Spill.antt =====
-- libs/common/common.h: `SpillRecord`, the unit in which the pipeline counts played moves, and the
-- measures by which the stages are compared.
use out_of_book.Prelude.{
  ℕ, ◌+◌, ◌≡◌, ◌^◌, ◌<◌, List, [], ◌∷◌, ◌++◌, Bool, ◌&&◌, ◌==◌, if◌then◌else◌, arith,
}
pub mod RecordCache

-- `uint32_t` and `uint64_t` moduli
abbrev pub u32 : ℕ
u32 = 0x1_0000_0000

abbrev pub u64 : ℕ
u64 = 0x1_0000_0000_0000_0000

pub record SpillRecord : Type 0 where
  pub zobrist : ℕ
  pub move : ℕ
  pub bucket : ℕ
  pub count : ℕ
  pub white_wins : ℕ
  pub draws : ℕ

-- The first three fields of a record, which `Key` of agg_spills.cpp holds too.
pub record Key : Type 0 where
  pub zobrist : ℕ
  pub move : ℕ
  pub bucket : ℕ

abbrev pub key_of : SpillRecord → Key
key_of r = record { zobrist = r.zobrist; move = r.move; bucket = r.bucket }

abbrev pub key_eq : Key → Key → Bool
key_eq a b = (a.zobrist == b.zobrist) && ((a.move == b.move) && (a.bucket == b.bucket))

-- The three counters that a record carries.
pub data Counter : Type 0 where
  count white_wins draws : Counter

abbrev pub read : Counter → SpillRecord → ℕ
read Counter.count r = r.count
read Counter.white_wins r = r.white_wins
read Counter.draws r = r.draws

-- What a record adds to the tally of a key.
abbrev pub weight : Key → Counter → SpillRecord → ℕ
weight k c r = if key_eq (key_of r) k then read c r else 0

-- The tally of a key over a sequence of records, exact and with no wrap-around.
unfoldable pub tally : Key → Counter → List SpillRecord → ℕ
tally k c [] = 0
tally k c (r ∷ rs) = weight k c r + tally k c rs

-- The tally over several sequences: buffers, or files.
unfoldable pub tallies : Key → Counter → List (List SpillRecord) → ℕ
tallies k c [] = 0
tallies k c (xs ∷ xss) = tally k c xs + tallies k c xss

pub tally-append :
    (k : Key) (c : Counter) (xs ys : List SpillRecord)
    → tally k c (xs ++ ys) ≡ tally k c xs + tally k c ys
unfolding tally
tally-append k c [] ys = omega arith
tally-append k c (x ∷ xs) ys = omega (arith, tally-append k c xs ys)

pub tallies-append :
    (k : Key) (c : Counter) (xss yss : List (List SpillRecord))
    → tallies k c (xss ++ yss) ≡ tallies k c xss + tallies k c yss
unfolding tallies
tallies-append k c [] yss = omega arith
tallies-append k c (xs ∷ xss) yss = omega (arith, tallies-append k c xss yss)
