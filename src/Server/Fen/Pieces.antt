-- ===== src/Server/Fen/Pieces.antt =====
-- Fen.h: the counts that the board loop keeps, beside the pieces in the board field.
use out_of_book.Prelude.{
  ℕ, ◌+◌, ◌<◌, ◌≡◌, List, [], ◌∷◌, Bool, true, false, ◌&&◌, not, ◌==◌, leb, if◌then◌else◌, length,
  get_or, arith, Bool-cases, inl, inr, length-set, get_or-set_self, get_or-set_ne,
}
use native.Mathlib.Decide.{ℕ_discrete}
use out_of_book.Text.{to_lower}
use out_of_book.Server.Fen.{Scan, going, scan_step, scan, put_piece, tick, type_of}
use out_of_book.Server.Fen.Board.{Verdict-cases}

-- Whether a character is a piece of the type and colour.
abbrev pub is_piece : ℕ → Bool → ℕ → Bool
is_piece type white c =
    (type_of (to_lower c) == type) && (if white then not (c == to_lower c) else c == to_lower c)

unfoldable pub pieces : ℕ → Bool → List ℕ → ℕ
pieces type white [] = 0
pieces type white (c ∷ cs) = (if is_piece type white c then 1 else 0) + pieces type white cs

abbrev pub count_of : ℕ → Bool → Scan → ℕ
count_of type white b = get_or (if white then b.white else b.black) type 0

abbrev pub HasCounts : Scan → Type 0
HasCounts b = (length b.white ≡ 6) × (length b.black ≡ 6)

tick_lem :
    (counts : List ℕ) (t type : ℕ)
    → t < length counts
    → get_or (tick counts t) type 0 ≡ get_or counts type 0 + (if t == type then 1 else 0)
tick_lem counts t type h = elim (ℕ_discrete t type) [
  | yes e ↦ rw (← e, get_or-set_self counts t (get_or counts t 0 + 1) 0 h) (ground arith)
  | no d ↦ rw (get_or-set_ne counts t type (get_or counts t 0 + 1) 0 d) (ground arith)
]

type-lt : (l : ℕ) → (type_of l == 6) ≡ false → type_of l < 6
unfolding type_of
type-lt l h = ground arith

type_slash : (c : ℕ) → (c == b'/') ≡ true → type_of (to_lower c) ≡ 6
unfolding type_of
type_slash c h = ground arith

type_digit : (c : ℕ) → (leb b'1' c && leb c b'8') ≡ true → type_of (to_lower c) ≡ 6
unfolding type_of
type_digit c h = ground arith

put_piece_lem :
    (c type : ℕ) (white : Bool) (b : Scan)
    → HasCounts b
    → type_of (to_lower c) < 6
    → HasCounts (put_piece c (to_lower c) (type_of (to_lower c)) b)
      × (count_of type white (put_piece c (to_lower c) (type_of (to_lower c)) b)
          ≡ count_of type white b + (if is_piece type white c then 1 else 0))
unfolding put_piece
put_piece_lem c type true b h lt =
    let t = type_of (to_lower c) in
    ground (
      arith,
      tick_lem b.white t type,
      length-set b.white t (get_or b.white t 0 + 1),
      length-set b.black t (get_or b.black t 0 + 1),
    )
put_piece_lem c type false b h lt =
    let t = type_of (to_lower c) in
    ground (
      arith,
      tick_lem b.black t type,
      length-set b.white t (get_or b.white t 0 + 1),
      length-set b.black t (get_or b.black t 0 + 1),
    )

scan_step-pieces :
    (c type : ℕ) (white : Bool) (b b' : Scan)
    → type < 6
    → HasCounts b
    → scan_step c b ≡ going b'
    → HasCounts b'
      × (count_of type white b' ≡ count_of type white b + (if is_piece type white c then 1 else 0))
unfolding scan_step
scan_step-pieces c type white b b' small h e = elim (Bool-cases (c == b'/')) [
  | inl s ↦ ground (arith, type_slash c)
  | inr s ↦ elim (Bool-cases (leb b'1' c && leb c b'8')) [
    | inl d ↦ ground (arith, type_digit c)
    | inr d ↦ elim (Bool-cases (type_of (to_lower c) == 6)) [
      | inl bad ↦ absurd (ground arith)
      | inr ok ↦
          let (p, q) = put_piece_lem c type white b h (type-lt (to_lower c) ok) in ground arith
    ]
  ]
]

pub scan-pieces :
    (cs : List ℕ) (type : ℕ) (white : Bool) (b b' : Scan)
    → type < 6
    → HasCounts b
    → scan cs b ≡ going b'
    → count_of type white b' ≡ count_of type white b + pieces type white cs
unfolding scan pieces
scan-pieces [] type white b b' small h e = ground arith
scan-pieces (c ∷ cs) type white b b' small h e = elim (Verdict-cases (scan_step c b)) [
  | inl (r, q) ↦ absurd (ground arith)
  | inr (m, q) ↦
      let (h', one) = scan_step-pieces c type white b m small h q in
      omega (arith, scan-pieces cs type white m b' small h' (ground arith))
]
