-- ===== src/Pgn/Moves.antt =====
-- apps/db_to_spills/extractor.h: `forEachMove`, the moves of a game in PGN, in order. The callback is
-- run over them in Game.
use out_of_book.Prelude.{
  ℕ, zero, suc, List, [], ◌∷◌, Bool, not, ◌==◌, ◌&&◌, ◌||◌, if◌then◌else◌, Option, none, some,
  length, get_or,
}
use out_of_book.Text.{bytes, cut, is_empty, is_digit, is_space, starts_with, drop_while}

abbrev pub san_char : ℕ → Bool
san_char c = not (is_space c) && not (c == b'{')

unfoldable pub take_while : (ℕ → Bool) → List ℕ → List ℕ
take_while p [] = []
take_while p (c ∷ s) = if p c then c ∷ take_while p s else []

abbrev pub is_result : List ℕ → Bool
is_result s =
    starts_with s (bytes "1-0") || (starts_with s (bytes "0-1") || starts_with s (bytes "1/2-1/2"))

-- What the text begins with: its end or a result, something to skip with the text behind it, or a move.
pub data Token : Type 0 where
  finished : Token
  skipped : List ℕ → Token
  san : Token

abbrev pub comment : Option (List ℕ) → Token
comment none = finished
comment (some rest) = skipped rest

unfoldable pub token_of : List ℕ → Token
token_of s =
    let behind = drop_while is_digit s in
    if is_empty s
    then finished
    else if get_or s 0 0 == b'{'
    then comment (cut b'}' s).1
    else if is_digit (get_or s 0 0) && (get_or behind 0 0 == b'.')
    then skipped (drop_while (λ c. c == b'.') behind)
    else if is_digit (get_or s 0 0) && is_result s
    then finished
    else if get_or s 0 0 == b'*'
    then finished
    else san

-- Every round takes at least one byte off the text.
unfoldable pub moves_loop : ℕ → List ℕ → List (List ℕ)
moves_loop zero s = []
moves_loop (suc n) s =
    let s' = drop_while is_space s in
    elim (token_of s') [
      | finished ↦ []
      | skipped rest ↦ moves_loop n rest
      | san ↦ take_while san_char s' ∷ moves_loop n (drop_while san_char s')
    ]

unfoldable pub moves_of : List ℕ → List (List ℕ)
moves_of s = moves_loop (suc (length s)) s
