-- ===== src/Pgn/Blob.antt =====
-- apps/db_to_spills/db_to_spills.cpp: `processBlob` cuts the games out of a chunk of text; the last one
-- goes on into the next chunk. The games it passes to `processSingleGame` are the result.
use out_of_book.Prelude.{
  ℕ, zero, suc, ◌+◌, ◌≡◌, List, [], ◌∷◌, ◌++◌, ◌==◌, if◌then◌else◌, Option, none, some, length,
  take, drop, arith, refl, sym,
}
use mathlib.Core.List.{append-nil}
use out_of_book.Text.{bytes, starts_with}

abbrev pub event : List ℕ
event = bytes "[Event"

-- `find`, as an index
unfoldable pub find_text : List ℕ → List ℕ → Option ℕ
find_text p [] = if starts_with [] p then some 0 else none
find_text p (c ∷ s) =
    let later = find_text p s in
    if starts_with (c ∷ s) p then some 0 else elim later [ none ↦ none | some i ↦ some (suc i) ]

-- What the last game takes from the next chunk: its text up to the first game there.
abbrev pub up_to : Option ℕ → List ℕ → List ℕ
up_to none next = next
up_to (some i) next = take i next

unfoldable pub overflow : Option (List ℕ) → List ℕ
overflow none = []
overflow (some next) = up_to (find_text event next) next

abbrev pub append_unless_first : List ℕ → Option ℕ → List ℕ → List ℕ
append_unless_first game none next = game ++ next
append_unless_first game (some i) next = if i == 0 then game else game ++ take i next

unfoldable pub last_game : List ℕ → Option (List ℕ) → List ℕ
last_game game none = game
last_game game (some next) = append_unless_first game (find_text event next) next

-- The rounds over the text from `gameStart` on; every round but the last takes a game off.
unfoldable pub games_loop : ℕ → List ℕ → Option (List ℕ) → List (List ℕ)
games_loop zero t next = []
games_loop (suc n) t next = elim (find_text event (drop 1 t)) [
  | none ↦ last_game t next ∷ []
  | some i ↦ take (i + 1) t ∷ games_loop n (drop (i + 1) t) next
]

unfoldable pub process_blob : List ℕ → Option (List ℕ) → List (List ℕ)
process_blob current next = elim (find_text event current) [
  | none ↦ []
  | some start ↦ games_loop (suc (length current)) (drop start current) next
]

pub last_game-overflow :
    (t : List ℕ) (next : Option (List ℕ)) → last_game t next ≡ t ++ overflow next
unfolding last_game overflow
last_game-overflow t none = sym (append-nil t)
last_game-overflow t (some next) = by_place (find_text event next)
  where
    by_place : (o : Option ℕ) → append_unless_first t o next ≡ t ++ up_to o next
    by_place none = refl
    by_place (some zero) = sym (append-nil t)
    by_place (some (suc i)) = ground arith

pub games_loop-last :
    (n : ℕ) (t : List ℕ) (next : Option (List ℕ))
    → find_text event (drop 1 t) ≡ none
    → games_loop (suc n) t next ≡ last_game t next ∷ []
unfolding games_loop
games_loop-last n t next e = ground arith

pub games_loop-more :
    (n : ℕ) (t : List ℕ) (next : Option (List ℕ)) (i : ℕ)
    → find_text event (drop 1 t) ≡ some i
    → games_loop (suc n) t next ≡ take (i + 1) t ∷ games_loop n (drop (i + 1) t) next
unfolding games_loop
games_loop-more n t next i e = ground arith
