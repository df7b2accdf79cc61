-- ===== src/Server/Fen/Board.antt =====
-- Fen.h: what the loop over the board field lets through.
use out_of_book.Prelude.{
  ℕ, ◌+◌, ◌-◌, ◌≡◌, ◌⊎◌, List, [], ◌∷◌, true, false, ◌&&◌, ◌==◌, leb, if◌then◌else◌, length, arith,
  refl, Bool-cases, inl, inr,
}
use out_of_book.Text.{fields}
use out_of_book.Server.Fen.{Scan, Verdict, going, reject, Reason, scan_step, scan, put_piece}

-- The squares that a character of a rank stands for.
abbrev pub width : ℕ → ℕ
width c = if leb b'1' c && leb c b'8' then c - b'0' else 1

unfoldable pub rank_width : List ℕ → ℕ
rank_width [] = 0
rank_width (c ∷ cs) = width c + rank_width cs

-- Ranks that are read from column `col` on and leave the last one at column `end`: each rank in
-- front of the last describes exactly eight squares.
abbrev pub Wide : ℕ → ℕ → List (List ℕ) → Type 0
Wide col end [] = ⊥
Wide col end (f ∷ []) = end ≡ col + rank_width f
Wide col end (f ∷ g ∷ fs) = (col + rank_width f ≡ 8) × Wide 0 end (g ∷ fs)

-- The position that an accepted character leads to: a slash needs a rank of eight squares, any
-- other character moves on by its width.
step_slash :
    (c : ℕ) (b b' : Scan)
    → scan_step c b ≡ going b'
    → (c == b'/') ≡ true
    → (b.col ≡ 8) × (b'.row ≡ b.row + 1) × (b'.col ≡ 0)
unfolding scan_step
step_slash c b b' e s = ground arith

step_other :
    (c : ℕ) (b b' : Scan)
    → scan_step c b ≡ going b'
    → (c == b'/') ≡ false
    → (b'.row ≡ b.row) × (b'.col ≡ b.col + width c)
unfolding scan_step put_piece
step_other c b b' e s = ground arith

-- Consing a character onto the first of the fields.
Wide-cons :
    (c col end : ℕ) (fs : List (List ℕ))
    → Wide (col + width c) end fs
    → Wide col end (elim fs [ [] ↦ (c ∷ []) ∷ [] | f ∷ gs ↦ (c ∷ f) ∷ gs ])
unfolding rank_width
Wide-cons c col end [] h = absurd h
Wide-cons c col end (f ∷ []) h = omega arith
Wide-cons c col end (f ∷ g ∷ fs) h = (omega arith, h.1)

Wide-slash : (col end : ℕ) (fs : List (List ℕ)) → col ≡ 8 → Wide 0 end fs → Wide col end ([] ∷ fs)
unfolding rank_width
Wide-slash col end [] e h = absurd h
Wide-slash col end (g ∷ fs) e h = (omega arith, h)

length_cons :
    (c : ℕ) (col end : ℕ) (fs : List (List ℕ))
    → Wide col end fs
    → length (elim fs [ [] ↦ (c ∷ []) ∷ [] | f ∷ gs ↦ (c ∷ f) ∷ gs ]) ≡ length fs
length_cons c col end [] h = absurd h
length_cons c col end (f ∷ gs) h = refl

pub Verdict-cases : (v : Verdict) → ((r : Reason) × (v ≡ reject r)) ⊎ ((b : Scan) × (v ≡ going b))
Verdict-cases (reject r) = inl (r, refl)
Verdict-cases (going b) = inr (b, refl)

-- A scan that goes through has read ranks of eight squares, one more than it counted slashes.
pub scan-Wide :
    (cs : List ℕ) (b b' : Scan)
    → scan cs b ≡ going b'
    → Wide b.col b'.col (fields b'/' cs) × (b'.row + 1 ≡ b.row + length (fields b'/' cs))
unfolding scan fields rank_width
scan-Wide [] b b' e = (ground arith, ground arith)
scan-Wide (c ∷ cs) b b' e = elim (Verdict-cases (scan_step c b)) [
  | inl (r, q) ↦ absurd (ground arith)
  | inr (m, q) ↦
      let (w, n) = scan-Wide cs m b' (ground arith) in
      elim (Bool-cases (c == b'/')) [
        | inl s ↦
            let (a, r, z) = step_slash c b m q s in
            rw s (Wide-slash b.col b'.col (fields b'/' cs) a (rw z at w), omega arith)
        | inr s ↦
            let (r, z) = step_other c b m q s in
            let w' : Wide (b.col + width c) b'.col (fields b'/' cs) = rw z at w in
            rw s (
              Wide-cons c b.col b'.col (fields b'/' cs) w',
              omega (arith, length_cons c (b.col + width c) b'.col (fields b'/' cs) w'),
            )
      ]
]
