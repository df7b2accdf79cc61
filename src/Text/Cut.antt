-- ===== src/Text/Cut.antt =====
-- Cutting a string at a byte, and trimming.
use out_of_book.Prelude.{
  ℕ, ◌<◌, ◌≡◌, List, [], ◌∷◌, Bool, ◌==◌, ◌&&◌, if◌then◌else◌, Option, none, some, arith, refl,
  length, Bool-cases, inl, inr,
}
use out_of_book.Text.Bytes.{drop_while, is_empty}

-- What stands in front of the first byte `c`, and what stands behind it, if there is one:
-- `substr(0, find(c))` and `substr(find(c) + 1)`.
abbrev pub push_front : ℕ → List ℕ × Option (List ℕ) → List ℕ × Option (List ℕ)
push_front x (front, rest) = (x ∷ front, rest)

unfoldable pub cut : ℕ → List ℕ → List ℕ × Option (List ℕ)
cut c [] = ([], none)
cut c (x ∷ xs) = if x == c then ([], some xs) else push_front x (cut c xs)

-- The fields between the separators `c`: always at least one, some may be empty.
unfoldable pub fields : ℕ → List ℕ → List (List ℕ)
fields c [] = [] ∷ []
fields c (x ∷ xs) =
    if x == c
    then [] ∷ fields c xs
    else elim (fields c xs) [ [] ↦ (x ∷ []) ∷ [] | f ∷ fs ↦ (x ∷ f) ∷ fs ]

pub length-cut : (c : ℕ) (xs rest : List ℕ) → (cut c xs).1 ≡ some rest → length rest < length xs
unfolding cut
length-cut c [] rest h = ground arith
length-cut c (x ∷ xs) rest h = elim (Bool-cases (x == c)) [
  | inl e ↦ ground arith
  | inr e ↦ ground (arith, length-cut c xs rest)
]

-- `cut` takes the first field off.
pub fields-cut_last : (c : ℕ) (xs : List ℕ) → (cut c xs).1 ≡ none → fields c xs ≡ (cut c xs).0 ∷ []
unfolding cut fields
fields-cut_last c [] h = refl
fields-cut_last c (x ∷ xs) h = ground (arith, fields-cut_last c xs)

pub fields-cut :
    (c : ℕ) (xs rest : List ℕ)
    → (cut c xs).1 ≡ some rest
    → fields c xs ≡ (cut c xs).0 ∷ fields c rest
unfolding cut fields
fields-cut c [] rest h = ground arith
fields-cut c (x ∷ xs) rest h = ground (arith, fields-cut c xs rest)

-- The part up to the last byte that is not in the set: `find_last_not_of`.
unfoldable pub drop_last_while : (ℕ → Bool) → List ℕ → List ℕ
drop_last_while p [] = []
drop_last_while p (x ∷ xs) =
    let rest = drop_last_while p xs in if p x && is_empty rest then [] else x ∷ rest

-- The idiom `find_first_not_of(set)`, `find_last_not_of(set)`, `substr`.
unfoldable pub trim_by : (ℕ → Bool) → List ℕ → List ℕ
trim_by p text = drop_last_while p (drop_while p text)
