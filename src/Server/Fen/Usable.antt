-- ===== src/Server/Fen/Usable.antt =====
-- Fen.h: what is true of a FEN that `validate` passes.
use out_of_book.Prelude.{
  ℕ, ◌+◌, ◌-◌, ◌≤◌, ◌<◌, ◌≡◌, ◌∙◌, ◌⊎◌, List, [], ◌∷◌, Bool, true, false, ◌==◌, if◌then◌else◌,
  Option, none, some, length, get_or, arith, refl, Bool-cases, Option-cases, inl, inr, All, drop,
  get_or-replicate,
}
use out_of_book.Text.{fields, bytes, bytes_eq, bytes_eq_sound, is_upper, to_upper}
use out_of_book.Server.Fen.{
  Scan, going, Reason, scan, start, split, join_loop, at, promotions, check_material, castling_step,
  castling_loop, check_castling, check_rest, check_board, check_fields, validate, max_length,
  ◌orelse◌, side_to_move, check_en_passant, check_counters, check_fullmove,
}
use out_of_book.Server.Fen.Board.{Wide, rank_width, scan-Wide, Verdict-cases}
use out_of_book.Server.Fen.Pieces.{pieces, count_of, scan-pieces}

-- Pieces beyond the opening complement, each of which has cost a pawn.
abbrev pub promoted : Bool → List ℕ → ℕ
promoted white board =
    ((pieces 4 white board - 1) + (pieces 3 white board - 2))
    + ((pieces 2 white board - 2) + (pieces 1 white board - 2))

-- An independent description of the text of a usable FEN's board.
pub record IsBoard (board : List ℕ) : Type 0 where
  pub ranks : length (fields b'/' board) ≡ 8
  pub widths : All (λ rank. rank_width rank ≡ 8) (fields b'/' board)
  pub one_king : (white : Bool) → pieces 5 white board ≡ 1
  pub pawns : (white : Bool) → pieces 0 white board + promoted white board ≤ 8

Wide-widths : (fs : List (List ℕ)) → Wide 0 8 fs → All (λ rank. rank_width rank ≡ 8) fs
Wide-widths [] h = absurd h
Wide-widths (f ∷ []) h = (omega arith, tt)
Wide-widths (f ∷ g ∷ fs) h = (omega arith, Wide-widths (g ∷ fs) h.1)

orelse-none : (a k : Option Reason) → (a orelse k) ≡ none → (a ≡ none) × (k ≡ none)
orelse-none none k h = (refl, h)
orelse-none (some r) k h = cc

-- The run of `validate` on a FEN that it passes: the board scan went through and every later
-- section had no objection.
pub record Passed (fen : List ℕ) (b : Scan) : Type 0 where
  pub size : length fen ≤ max_length
  pub few : 4 ≤ length (split fen)
  pub many : length (split fen) ≤ 6
  pub spacing : join_loop [] (split fen) ≡ fen
  pub scanned : scan (get_or (split fen) 0 []) start ≡ going b
  pub row : b.row ≡ 7
  pub col : b.col ≡ 8
  pub material : check_material b ≡ none
  pub side : side_to_move (get_or (split fen) 1 []) ≡ none
  pub castling : check_castling b (get_or (split fen) 2 []) ≡ none
  pub en_passant : check_en_passant (get_or (split fen) 3 []) ≡ none
  pub counters : check_counters (drop 4 (split fen)) ≡ none
  pub fullmove : check_fullmove (split fen) ≡ none

pub validate-Passed : (fen : List ℕ) → validate fen ≡ none → (b : Scan) × Passed fen b
unfolding validate check_fields check_board check_rest
validate-Passed fen e = elim (Verdict-cases (scan (get_or (split fen) 0 []) start)) [
  | inl (r, q) ↦ absurd (ground arith)
  | inr (b, q) ↦
      let rest : check_rest b (split fen) ≡ none = unfold check_rest in ground arith in
      let p = orelse-none _ _ rest in
      let p1 = orelse-none _ _ p.1 in
      let p2 = orelse-none _ _ p1.1 in
      let p3 = orelse-none _ _ p2.1 in
      let p4 = orelse-none _ _ p3.1 in
      (
        b,
        record {
          size = ground arith;
          few = ground arith;
          many = ground arith;
          spacing = bytes_eq_sound _ _ (ground arith);
          scanned = q;
          row = ground arith;
          col = ground arith;
          material = p.0;
          side = p1.0;
          castling = p2.0;
          en_passant = p3.0;
          counters = p4.0;
          fullmove = p4.1;
        },
      )
]

check_material-counts :
    (b : Scan)
    → check_material b ≡ none
    → (get_or b.white 5 0 ≡ 1)
      × (get_or b.black 5 0 ≡ 1)
      × (get_or b.white 0 0 + promotions b.white ≤ 8)
      × (get_or b.black 0 0 + promotions b.black ≤ 8)
unfolding check_material
check_material-counts b e = ground arith

scanned-count :
    (fen : List ℕ) (b : Scan) (type : ℕ) (white : Bool)
    → type < 6
    → scan fen start ≡ going b
    → count_of type white b ≡ pieces type white fen
scanned-count fen b type white small e =
    scan-pieces fen type white start b small (refl, refl) e
    ∙ start_counts type white (pieces type white fen)
  where
    start_counts : (t : ℕ) (w : Bool) (n : ℕ) → count_of t w start + n ≡ n
    start_counts t true n = omega (arith, get_or-replicate {A = ℕ} 6 t 0)
    start_counts t false n = omega (arith, get_or-replicate {A = ℕ} 6 t 0)

module _ (board : List ℕ) (b : Scan) (scanned : scan board start ≡ going b) where
  count : (type : ℕ) (white : Bool) → type < 6 → count_of type white b ≡ pieces type white board
  count type white small = scanned-count board b type white small scanned

  one_king_of : check_material b ≡ none → (white : Bool) → pieces 5 white board ≡ 1
  one_king_of m true = omega (arith, check_material-counts b m, count 5 true (omega arith))
  one_king_of m false = omega (arith, check_material-counts b m, count 5 false (omega arith))

  pawns_of :
      check_material b ≡ none → (white : Bool) → pieces 0 white board + promoted white board ≤ 8
  pawns_of m true = omega (
    arith,
    check_material-counts b m,
    count 0 true (omega arith),
    count 1 true (omega arith),
    count 2 true (omega arith),
    count 3 true (omega arith),
    count 4 true (omega arith),
  )
  pawns_of m false = omega (
    arith,
    check_material-counts b m,
    count 0 false (omega arith),
    count 1 false (omega arith),
    count 2 false (omega arith),
    count 3 false (omega arith),
    count 4 false (omega arith),
  )

-- The board field of a FEN that passes describes eight ranks of eight squares each, with exactly one
-- king of each colour, and no more pieces of a colour than its promotions can account for.
pub validate-IsBoard : (fen : List ℕ) → validate fen ≡ none → IsBoard (get_or (split fen) 0 [])
validate-IsBoard fen e =
    let (b, p) = validate-Passed fen e in
    let board = get_or (split fen) 0 [] in
    let (w, n) = scan-Wide board start b p.scanned in
    record {
      ranks = omega (arith, p.row);
      widths = Wide-widths (fields b'/' board) (rw p.col at w);
      one_king = one_king_of board b p.scanned p.material;
      pawns = pawns_of board b p.scanned p.material;
    }

-- What a castling letter claims: K and Q for White on rank 1 (row 7), k and q for Black on rank 8.
abbrev pub HasRight : Scan → ℕ → Type 0
HasRight b c =
    ((to_upper c ≡ b'K') ⊎ (to_upper c ≡ b'Q'))
    × (at b (if is_upper c then 7 else 0) 4 ≡ (if is_upper c then b'K' else b'k'))
    × (at b (if is_upper c then 7 else 0) (if to_upper c == b'K' then 7 else 0)
        ≡ (if is_upper c then b'R' else b'r'))

castling_step-home : (b : Scan) (c : ℕ) → castling_step b c ≡ none → HasRight b c
unfolding castling_step
castling_step-home b c e = ground arith

castling_loop-home : (b : Scan) (cs : List ℕ) → castling_loop b cs ≡ none → All (HasRight b) cs
unfolding castling_loop
castling_loop-home b [] e = tt
castling_loop-home b (c ∷ cs) e = elim (Option-cases (castling_step b c)) [
  | inl ok ↦ (castling_step-home b c ok, castling_loop-home b cs (ground arith))
  | inr (r, bad) ↦ absurd (ground arith)
]

-- A castling field that passes is `-`, or at most four letters, each with its king and its rook on
-- their home squares of the scanned board.
pub check_castling-HasRight :
    (b : Scan) (field : List ℕ)
    → check_castling b field ≡ none
    → (field ≡ bytes "-") ⊎ ((length field ≤ 4) × All (HasRight b) field)
unfolding check_castling
check_castling-HasRight b field e = elim (Bool-cases (bytes_eq field (bytes "-"))) [
  | inl dash ↦ inl (bytes_eq_sound field (bytes "-") dash)
  | inr letters ↦ inr (ground arith, castling_loop-home b field (ground arith))
]

-- The castling field of a FEN that passes is `-`, or at most four letters, each with its king and its
-- rook on their home squares of the board that the FEN describes.
pub validate-HasRight :
    (fen : List ℕ)
    → validate fen ≡ none
    → (b : Scan) × (scan (get_or (split fen) 0 []) start ≡ going b)
      × ((get_or (split fen) 2 [] ≡ bytes "-")
          ⊎ ((length (get_or (split fen) 2 []) ≤ 4) × All (HasRight b) (get_or (split fen) 2 [])))
validate-HasRight fen e =
    let (b, p) = validate-Passed fen e in
    (b, p.scanned, check_castling-HasRight b (get_or (split fen) 2 []) p.castling)
