-- ===== src/Pgn/Extract/Laws.antt =====
-- extractor.cpp: what is true of a game that `extractMetadata` accepts.
use out_of_book.Prelude.{
  ℕ, zero, suc, ◌+◌, ◌≤◌, ◌≡◌, ◌∙◌, ap, List, Bool, true, false, if◌then◌else◌, Option, none, some,
  length, arith, refl, Bool-cases, Option-cases, inl, inr, ◌⊎◌,
}
use mathlib.Core.Path.{subst}
use out_of_book.Text.{cut, is_empty}
use out_of_book.Spill.RecordCache.{GameResult}
use out_of_book.Pgn.Extract.{
  Signed, Headers, Step, failed, refused, going, abs_of, over, refuse_if, difference, abs_diff,
  too_far, title_line, white_elo_line, black_elo_line, rating_diff_line, base_line,
  time_control_line, result_line, header_line, conclude, header_loop, extract_metadata, accepted,
  Metadata, no_headers, strip, quoted_value, parse_int, end_of_headers, same_sign, distance_of,
  value_behind_sign, or_empty,
}

-- The difference is an `int`, and at most 200.
abbrev pub Close : Signed → Signed → Type 0
Close a b = (d : ℕ) × (abs_diff a b ≡ some d) × (d ≤ 200)

-- If both ratings are known, they are close.
abbrev Near : Option Signed → Option Signed → Type 0
Near (some a) (some b) = Close a b
Near _ _ = Unit

abbrev IsNear : Headers → Type 0
IsNear h = Near h.white_elo h.black_elo

difference_comm : (a b : Signed) → difference a b ≡ difference b a
difference_comm a b = swap (same_sign b.negative a.negative) (signs a.negative b.negative)
  where
    signs : (s t : Bool) → same_sign s t ≡ same_sign t s
    signs true true = refl
    signs true false = refl
    signs false true = refl
    signs false false = refl

    swap :
        (s : Bool)
        → same_sign a.negative b.negative ≡ s
        → (if same_sign a.negative b.negative
            then distance_of a.magnitude b.magnitude
            else a.magnitude + b.magnitude)
          ≡ (if s then distance_of b.magnitude a.magnitude else b.magnitude + a.magnitude)
    swap true e = rw e (ground arith)
    swap false e = rw e (omega arith)

abs_diff_comm : (a b : Signed) → abs_diff a b ≡ abs_diff b a
unfolding abs_diff
abs_diff_comm a b = ap abs_of (difference_comm a b)

too_far-Near : (o : Option Signed) (a : Signed) → too_far o a ≡ some false → Near o (some a)
too_far-Near none a e = tt
too_far-Near (some b) a e = elim (Option-cases (abs_diff a b)) [
  | inl t ↦ absurd (ground (arith, e, t))
  | inr (d, t) ↦ (d, abs_diff_comm b a ∙ t, ground (arith, e, t))
]

Near-comm : (a b : Option Signed) → Near a b → Near b a
Near-comm none none n = tt
Near-comm none (some b) n = tt
Near-comm (some a) none n = tt
Near-comm (some a) (some b) (d, e, le) = (d, abs_diff_comm b a ∙ e, le)

-- A property of what a test leaves going holds if it does in both branches.
either :
    (P : Headers → Type 0) (b : Bool) (s t : Step) (h : Headers)
    → (s ≡ going h → P h)
    → (t ≡ going h → P h)
    → (if b then s else t) ≡ going h
    → P h
either P true s t h f g e = f e
either P false s t h f g e = g e

unchanged : (h h' : Headers) → IsNear h → going h ≡ going h' → IsNear h'
unchanged h h' n e = let same : h ≡ h' = cc in subst IsNear same n

stopped : (P : Headers → Type 0) (h' : Headers) → refused ≡ going h' → P h'
stopped P h' e = absurd (cc)

broke : (P : Headers → Type 0) (h' : Headers) → failed ≡ going h' → P h'
broke P h' e = absurd (cc)

-- A test that lets a line go on is one that was made and said no.
flag-cases :
    (o : Option Bool) → ((h h' : Headers) → refuse_if o h ≡ going h' → ⊥) ⊎ (o ≡ some false)
flag-cases none = inl (λ h h' e. cc)
flag-cases (some true) = inl (λ h h' e. cc)
flag-cases (some false) = inr refl

module _ (h h' : Headers) (n : IsNear h) where
  title_line-IsNear : (v : List ℕ) → title_line v h ≡ going h' → IsNear h'
  unfolding title_line
  title_line-IsNear v = either IsNear _ refused (going h) h' (stopped IsNear h') (unchanged h h' n)

  white_elo_line-IsNear : (o : Option Signed) → white_elo_line o h ≡ going h' → IsNear h'
  unfolding white_elo_line
  white_elo_line-IsNear none e = broke IsNear h' e
  white_elo_line-IsNear (some a) e = elim (flag-cases (too_far h.black_elo a)) [
    | inl far ↦ absurd (far _ h' e)
    | inr near ↦
        let same : record h { white_elo = some a } ≡ h' = ground arith in
        subst IsNear same (Near-comm h.black_elo (some a) (too_far-Near h.black_elo a near))
  ]

  black_elo_line-IsNear : (o : Option Signed) → black_elo_line o h ≡ going h' → IsNear h'
  unfolding black_elo_line
  black_elo_line-IsNear none e = broke IsNear h' e
  black_elo_line-IsNear (some a) e = elim (flag-cases (too_far h.white_elo a)) [
    | inl far ↦ absurd (far _ h' e)
    | inr near ↦
        let same : record h { black_elo = some a } ≡ h' = ground arith in
        subst IsNear same (too_far-Near h.white_elo a near)
  ]

  rating_diff_line-IsNear : (o : Option Signed) → rating_diff_line o h ≡ going h' → IsNear h'
  unfolding rating_diff_line
  rating_diff_line-IsNear none e = broke IsNear h' e
  rating_diff_line-IsNear (some d) e = elim (flag-cases (over 39 (abs_of d.magnitude))) [
    | inl far ↦ absurd (far _ h' e)
    | inr near ↦ let same : h ≡ h' = ground (arith, e, near) in subst IsNear same n
  ]

  base_line-IsNear : (o : Option Signed) → base_line o h ≡ going h' → IsNear h'
  unfolding base_line
  base_line-IsNear none = broke IsNear h'
  base_line-IsNear (some b) =
      either IsNear _ refused (going h) h' (stopped IsNear h') (unchanged h h' n)

  time_control_line-IsNear : (tc : List ℕ) → time_control_line tc h ≡ going h' → IsNear h'
  unfolding time_control_line
  time_control_line-IsNear tc e = elim (Option-cases (cut b'+' tc).1) [
    | inl no_plus ↦ absurd (ground arith)
    | inr (x, plus) ↦ base_line-IsNear (parse_int (cut b'+' tc).0) (ground arith)
  ]

  result_line-IsNear : (r : List ℕ) → result_line r h ≡ going h' → IsNear h'
  unfolding result_line
  result_line-IsNear r e = set_result h'.result (ground arith)
    where
      set_result : (o : Option GameResult) → record h { result = o } ≡ h' → IsNear h'
      set_result o same = subst IsNear same n

  header_line-IsNear : (line : List ℕ) → header_line line h ≡ going h' → IsNear h'
  unfolding header_line
  header_line-IsNear line =
      let v = quoted_value line in
      either IsNear _ _ _ h' (title_line-IsNear v) (
        either IsNear _ _ _ h' (white_elo_line-IsNear (parse_int v)) (
          either IsNear _ _ _ h' (black_elo_line-IsNear (parse_int v)) (
            either IsNear _ _ _ h' (rating_diff_line-IsNear (value_behind_sign v)) (
              either IsNear _ _ _ h' (time_control_line-IsNear v)
                (either IsNear _ _ _ h' (result_line-IsNear v) (unchanged h h' n))))))

conclude_lem :
    (w b : Option Signed) (r : Option GameResult) (moves : List ℕ) (m : Metadata)
    → Near w b
    → conclude w b r moves ≡ accepted m
    → Close m.white_elo m.black_elo
unfolding conclude
conclude_lem (some w) (some b) (some r) moves m n e =
    let same : record { white_elo = w; black_elo = b; result = r; moves = moves } ≡ m = cc in
    subst (λ m. Close m.white_elo m.black_elo) same n
conclude_lem none b r moves m n e = absurd (cc)
conclude_lem (some w) none r moves m n e = absurd (cc)
conclude_lem (some w) (some b) none moves m n e = absurd (cc)

end_of_headers_lem :
    (o : Option (List ℕ)) (h : Headers) (m : Metadata)
    → IsNear h
    → end_of_headers o h ≡ accepted m
    → Close m.white_elo m.black_elo
unfolding end_of_headers
end_of_headers_lem none h m n e = absurd (cc)
end_of_headers_lem (some moves) h m n e = conclude_lem h.white_elo h.black_elo h.result moves m n e

Step-cases : (s : Step) → (s ≡ failed) ⊎ ((s ≡ refused) ⊎ ((h : Headers) × (s ≡ going h)))
Step-cases failed = inl refl
Step-cases refused = inr (inl refl)
Step-cases (going h) = inr (inr (h, refl))

header_loop_lem :
    (fuel : ℕ) (game : List ℕ) (h : Headers) (m : Metadata)
    → IsNear h
    → header_loop fuel game h ≡ accepted m
    → Close m.white_elo m.black_elo
unfolding header_loop
header_loop_lem zero game h m n e = absurd (cc)
header_loop_lem (suc fuel) game h m n e =
    let line = strip (cut 10 game).0 in
    elim (Bool-cases (is_empty game)) [
      | inl nothing ↦ absurd (ground arith)
      | inr more ↦ elim (Bool-cases (is_empty line)) [
        | inl blank ↦ end_of_headers_lem (cut 10 game).1 h m n (ground arith)
        | inr header ↦ elim (Step-cases (header_line line h)) [
          | inl f ↦ absurd (ground arith)
          | inr (inl r) ↦ absurd (ground arith)
          | inr (inr (h', g)) ↦
              header_loop_lem fuel (or_empty (cut 10 game).1) h' m
                (header_line-IsNear h h' n line g) (ground arith)
        ]
      ]
    ]

-- A game that `extractMetadata` accepts has players whose ratings differ by at most 200, with a
-- difference that is an `int`.
pub extract_metadata-abs_diff :
    (game : List ℕ) (m : Metadata)
    → extract_metadata game ≡ accepted m
    → Close m.white_elo m.black_elo
unfolding extract_metadata
extract_metadata-abs_diff game m e = header_loop_lem (suc (length game)) game no_headers m tt e
