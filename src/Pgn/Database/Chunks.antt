-- ===== src/Pgn/Database/Chunks.antt =====
-- db_to_spills.cpp, the producer and `processBlob`: how the chunks of the text are cut into games.
use out_of_book.Prelude.{
  ℕ, zero, suc, ◌+◌, ◌<◌, ◌≡◌, ◌∙◌, ap, sym, List, [], ◌∷◌, ◌++◌, true, false, if◌then◌else◌, none,
  some, length, take, drop, arith, refl, Bool-cases, Option-cases, inl, inr, length-drop,
}
use mathlib.Core.Path.{subst}
use mathlib.Core.Option.{some_inj}
use out_of_book.Text.{starts_with}
use out_of_book.Pgn.Blob.{
  find_text, event, process_blob, games_loop, games_loop-last, games_loop-more, overflow,
  last_game-overflow,
}
use out_of_book.Pgn.Database.{PgnBlob, produce}

-- The games of all pairs, in the order of the text.
pub all_games : List PgnBlob → List (List ℕ)
all_games [] = []
all_games (b ∷ blobs) = process_blob b.blob b.next_blob ++ all_games blobs

-- In every chunk a game begins.
pub data Begins : List (List ℕ) → Type 0 where
  nil : Begins []
  cons :
      {c : List ℕ} {chunks : List (List ℕ)} (start : ℕ)
      → find_text event c ≡ some start
      → Begins chunks
      → Begins (c ∷ chunks)

-- A text cut at its games: what stands in front of the first, and the games.
pub record Cut : Type 0 where
  pub front : List ℕ
  pub games : List (List ℕ)

-- A character in front of a cut text, and a game that begins with it.
abbrev pub put : ℕ → Cut → Cut
put c t = record t { front = c ∷ t.front }

abbrev pub open_game : Cut → Cut
open_game t = record { front = []; games = t.front ∷ t.games }

-- A chunk in front of a text that is cut already: a game begins at each place where the rest of the
-- chunk starts with `[Event`, and nowhere else.
unfoldable pub cut_chunk : List ℕ → Cut → Cut
cut_chunk [] t = t
cut_chunk (c ∷ s) t =
    let rest = put c (cut_chunk s t) in if starts_with (c ∷ s) event then open_game rest else rest

-- The chunks from `c` on; of the last one, only what stands in front of its first game.
unfoldable pub cut_chunks : List ℕ → List (List ℕ) → Cut
cut_chunks c [] = record {
  front = (cut_chunk c (record { front = []; games = [] })).front;
  games = [];
}
cut_chunks c (d ∷ chunks) = cut_chunk c (cut_chunks d chunks)

cut_chunk-begins :
    (c : ℕ) (s : List ℕ) (t : Cut)
    → starts_with (c ∷ s) event ≡ true
    → cut_chunk (c ∷ s) t ≡ open_game (put c (cut_chunk s t))
unfolding cut_chunk
cut_chunk-begins c s t e = rw (e, cut_chunk) refl

cut_chunk-goes_on :
    (c : ℕ) (s : List ℕ) (t : Cut)
    → starts_with (c ∷ s) event ≡ false
    → cut_chunk (c ∷ s) t ≡ put c (cut_chunk s t)
unfolding cut_chunk
cut_chunk-goes_on c s t e = rw (e, cut_chunk) refl

find_text-here :
    (c : ℕ) (s : List ℕ) → starts_with (c ∷ s) event ≡ true → find_text event (c ∷ s) ≡ some 0
unfolding find_text
find_text-here c s e = rw (e, find_text) refl

find_text-none :
    (c : ℕ) (s : List ℕ)
    → find_text event (c ∷ s) ≡ none
    → (starts_with (c ∷ s) event ≡ false) × (find_text event s ≡ none)
unfolding find_text
find_text-none c s e = elim (Option-cases (find_text event s)) [
  | inl t ↦ (ground (arith, e, t), t)
  | inr (i, t) ↦ absurd (ground (arith, e, t))
]

-- A text in which no game begins stays in front.
cut_chunk-none :
    (s : List ℕ) (t : Cut)
    → find_text event s ≡ none
    → cut_chunk s t ≡ record t { front = s ++ t.front }
unfolding cut_chunk
cut_chunk-none [] t e = refl
cut_chunk-none (c ∷ s) t e =
    let (here, later) = find_text-none c s e in
    cut_chunk-goes_on c s t here ∙ ap (put c) (cut_chunk-none s t later)

-- A text whose first game begins at `i`.
record First (s : List ℕ) (i : ℕ) (t : Cut) : Type 0 where
  front : (cut_chunk s t).front ≡ take i s
  games : (cut_chunk s t).games ≡ (cut_chunk (drop i s) t).games
  begins : starts_with (drop i s) event ≡ true

First-here : (c : ℕ) (s : List ℕ) (t : Cut) → starts_with (c ∷ s) event ≡ true → First (c ∷ s) 0 t
First-here c s t e = record {
  front = ap (λ (x : Cut). x.front) (cut_chunk-begins c s t e);
  games = refl;
  begins = e;
}

First-later :
    (c : ℕ) (s : List ℕ) (i : ℕ) (t : Cut)
    → starts_with (c ∷ s) event ≡ false
    → First s i t
    → First (c ∷ s) (suc i) t
First-later c s i t e f = record {
  front = ap (λ (x : Cut). x.front) (cut_chunk-goes_on c s t e) ∙ ap (◌∷◌ c) f.front;
  games = ap (λ (x : Cut). x.games) (cut_chunk-goes_on c s t e) ∙ f.games;
  begins = f.begins;
}

no_text : (i : ℕ) → find_text event [] ≡ some i → ⊥
unfolding find_text starts_with
no_text i e = absurd (cc)

find_text-First : (s : List ℕ) (i : ℕ) (t : Cut) → find_text event s ≡ some i → First s i t
unfolding find_text
find_text-First [] i t e = absurd (no_text i e)
find_text-First (c ∷ s) i t e = elim (Bool-cases (starts_with (c ∷ s) event)) [
  | inl here ↦
      subst (λ n. First (c ∷ s) n t) (some_inj.0 (sym (find_text-here c s here) ∙ e))
        (First-here c s t here)
  | inr later ↦ elim (Option-cases (find_text event s)) [
    | inl nowhere ↦ absurd (ground (arith, e, later, nowhere))
    | inr (j, found) ↦
        let same : suc j ≡ i = ground (arith, e, later, found) in
        subst (λ n. First (c ∷ s) n t) same
          (First-later c s j t later (find_text-First s j t found))
  ]
]

no_event : starts_with [] event ≡ true → ⊥
unfolding starts_with
no_event e = absurd (cc)

-- The loop over the games of a chunk cuts where `cut_chunk` does.
games_loop_lem :
    (n : ℕ) (u d : List ℕ) (gs : List (List ℕ)) (t : Cut)
    → length u < n
    → starts_with u event ≡ true
    → t.front ≡ overflow (some d)
    → t.games ≡ gs
    → (cut_chunk u t).games ≡ games_loop n u (some d) ++ gs
games_loop_lem n [] d gs t lt b front games = absurd (no_event b)
games_loop_lem zero (c ∷ s) d gs t lt b front games = absurd (omega arith)
games_loop_lem (suc n) (c ∷ s) d gs t lt b front games =
    let cut = ap (λ (x : Cut). x.games) (cut_chunk-begins c s t b) in
    elim (Option-cases (find_text event s)) [
      | inl e ↦
          cut
          ∙ ap (λ (x : Cut). (c ∷ x.front) ∷ x.games) (cut_chunk-none s t e)
          ∙ ap (λ o. (c ∷ (s ++ o)) ∷ t.games) front
          ∙ ap (λ g. (c ∷ (s ++ overflow (some d))) ∷ g) games
          ∙ ap (λ l. l ∷ gs) (sym (last_game-overflow (c ∷ s) (some d)))
          ∙ ap (λ l. l ++ gs) (sym (games_loop-last n (c ∷ s) (some d) e))
      | inr (i, e) ↦
          let f = find_text-First s i t e in
          let shorter : length (drop i s) < n = omega (arith, length-drop {0} i s) in
          let place : suc i ≡ i + 1 = omega arith in
          cut
          ∙ ap (λ l. (c ∷ l) ∷ (cut_chunk s t).games) f.front
          ∙ ap (λ g. (c ∷ take i s) ∷ g)
              (f.games ∙ games_loop_lem n (drop i s) d gs t shorter f.begins front games)
          ∙ ap (λ k. (take k (c ∷ s) ∷ games_loop n (drop k (c ∷ s)) (some d)) ++ gs) place
          ∙ ap (λ l. l ++ gs) (sym (games_loop-more n (c ∷ s) (some d) i e))
    ]

cut_chunks-front :
    (d : List ℕ) (chunks : List (List ℕ)) (start : ℕ)
    → find_text event d ≡ some start
    → (cut_chunks d chunks).front ≡ overflow (some d)
unfolding cut_chunks overflow
cut_chunks-front d [] start e =
    rw e ((find_text-First d start (record { front = []; games = [] }) e).front)
cut_chunks-front d (c ∷ chunks) start e =
    rw e ((find_text-First d start (cut_chunks c chunks) e).front)

process_blob-begins :
    (c d : List ℕ) (start : ℕ)
    → find_text event c ≡ some start
    → process_blob c (some d) ≡ games_loop (suc (length c)) (drop start c) (some d)
unfolding process_blob
process_blob-begins c d start e = ground (arith, e)

from_chunk :
    (c : List ℕ) (chunks : List (List ℕ)) (start : ℕ)
    → find_text event c ≡ some start
    → Begins chunks
    → all_games (produce (some c) chunks) ≡ (cut_chunks c chunks).games
unfolding produce all_games cut_chunks
from_chunk c [] start e nil = refl
from_chunk c (d ∷ chunks) start e (cons start' e' more) =
    let t = cut_chunks d chunks in
    let later = from_chunk d chunks start' e' more in
    let f = find_text-First c start t e in
    ap (λ l. l ++ all_games (produce (some d) chunks)) (process_blob-begins c d start e)
    ∙ sym (
        games_loop_lem (suc (length c)) (drop start c) d (all_games (produce (some d) chunks)) t
          (omega (arith, length-drop {0} start c)) f.begins (cut_chunks-front d chunks start' e')
          (sym later))
    ∙ sym f.games

-- If a game begins in every chunk, then the games that the producer's pairs of chunks give are exactly
-- those of the text cut at every `[Event` that stands within one chunk, each whole and in the order of
-- the text. The games that begin in the last chunk are not among them.
pub all_games-cut_chunks :
    (c : List ℕ) (chunks : List (List ℕ)) (start : ℕ)
    → find_text event c ≡ some start
    → Begins chunks
    → all_games (produce none (c ∷ chunks)) ≡ (cut_chunks c chunks).games
unfolding produce
all_games-cut_chunks c chunks start e b = from_chunk c chunks start e b
