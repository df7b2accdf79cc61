-- ===== src/Pgn/Game/Replay.antt =====
-- db_to_spills.cpp: which moves of a game are counted.
use out_of_book.Prelude.{
  ℕ, zero, suc, ◌+◌, ◌-◌, ◌≤◌, ◌<◌, ◌≡◌, ◌∙◌, List, [], ◌∷◌, ◌++◌, true, false, ◌==◌, ltb,
  if◌then◌else◌, Option, none, some, length, take, arith, refl, ap, sym, Bool-cases, Option-cases,
  inl, inr, ◌⊎◌,
}
use mathlib.Core.List.{append_assoc}
use out_of_book.Spill.RecordCache.{GameResult, Played}
use out_of_book.GenerateOtb.Walk.{termination}
use out_of_book.Pgn.Game.{
  Progress, call_of, play, process_move, process_moves, Outcome, failed, stopped, going, count_move,
  next_move, on_move, for_each_move, end_game, process_game, min_depth, max_depth,
}

not_early : (n : ℕ) → min_depth < n → ltb n min_depth ≡ false
not_early n h = ground arith

not_fourth : (n : ℕ) → min_depth < n → n == min_depth ≡ false
not_fourth n h = ground arith

none_left : (n : ℕ) → n == max_depth ≡ true → max_depth - n ≡ 0
none_left n h = ground arith

one_more :
    (n : ℕ) → n ≤ max_depth → n == max_depth ≡ false → max_depth - n ≡ suc (max_depth - (n + 1))
one_more n h e = ground arith

take_nil {ℓ} : {A : Type ℓ} (n : ℕ) → take {A = A} n [] ≡ []
take_nil zero = refl
take_nil (suc n) = refl

module _ (Position : Type 0) (key : Position → ℕ) (do_move : Position → ℕ → Position)
    (get_move : List ℕ → Position → Option ℕ) (bucket : ℕ) (result : GameResult) where
  abbrev P : Type 0
  P = Progress Position key do_move get_move bucket result

  abbrev prepend : Played → Option (List Played) → Option (List Played)
  prepend c none = none
  prepend c (some cs) = some (c ∷ cs)

  -- A line of play from a position: a call for every move with the position that it is played in, and
  -- one for the end of the game in the last position.
  unfoldable pub replay : List (List ℕ) → Position → Option (List Played)
  replay [] pos = some (call_of Position key do_move get_move bucket result pos termination ∷ [])
  replay (m ∷ ms) pos = elim (get_move m pos) [
    | none ↦ none
    | some move ↦
        prepend (call_of Position key do_move get_move bucket result pos move)
          (replay ms (do_move pos move))
  ]

  abbrev behind : List Played → Option (List Played) → Option (List Played)
  behind cs none = none
  behind cs (some ds) = some (cs ++ ds)

  abbrev call : Position → ℕ → Played
  call = call_of Position key do_move get_move bucket result

  abbrev loop : List (List ℕ) → P → Option P
  loop = for_each_move Position key do_move get_move bucket result

  abbrev ended : Option P → Option (List Played)
  ended = end_game Position key do_move get_move bucket result

  abbrev moved : List (List ℕ) → P → Option P
  moved = process_moves Position key do_move get_move bucket result

  behind-prepend :
      (cs : List Played) (c : Played) (o : Option (List Played))
      → behind cs (prepend c o) ≡ behind (cs ++ c ∷ []) o
  behind-prepend cs c none = refl
  behind-prepend cs c (some ds) = ap some (sym (append_assoc cs (c ∷ []) ds))

  abbrev step : List ℕ → P → Outcome Position key do_move get_move bucket result
  step = on_move Position key do_move get_move bucket result

  -- The position and the calls behind a move.
  abbrev advance : P → ℕ → P
  advance g move = record g {
    pos = do_move g.pos move;
    calls = g.calls ++ call g.pos move ∷ [];
    halfmove = g.halfmove + 1;
  }

  step-last : (m : List ℕ) (g : P) → g.halfmove == max_depth ≡ true → step m g ≡ stopped g
  unfolding on_move next_move
  step-last m g e = ground arith

  step-bad :
      (m : List ℕ) (g : P)
      → min_depth < g.halfmove
      → g.halfmove == max_depth ≡ false
      → get_move m g.pos ≡ none
      → step m g ≡ failed
  unfolding on_move next_move count_move process_move play
  step-bad m g h e bad = rw (not_early g.halfmove h, not_fourth g.halfmove h, e, bad) refl

  step-good :
      (m : List ℕ) (g : P) (move : ℕ)
      → min_depth < g.halfmove
      → g.halfmove == max_depth ≡ false
      → get_move m g.pos ≡ some move
      → step m g ≡ going (advance g move)
  unfolding on_move next_move count_move process_move play
  step-good m g move h e good = rw (not_early g.halfmove h, not_fourth g.halfmove h, e, good) refl

  loop-nil : (g : P) → loop [] g ≡ some g
  unfolding for_each_move
  loop-nil g = refl

  loop-stopped :
      (m : List ℕ) (ms : List (List ℕ)) (g h : P) → step m g ≡ stopped h → loop (m ∷ ms) g ≡ some h
  unfolding for_each_move
  loop-stopped m ms g h e = ground arith

  loop-failed :
      (m : List ℕ) (ms : List (List ℕ)) (g : P) → step m g ≡ failed → loop (m ∷ ms) g ≡ none
  unfolding for_each_move
  loop-failed m ms g e = ground arith

  loop-going :
      (m : List ℕ) (ms : List (List ℕ)) (g h : P) → step m g ≡ going h → loop (m ∷ ms) g ≡ loop ms h
  unfolding for_each_move
  loop-going m ms g h e = ground arith

  replay-bad :
      (m : List ℕ) (ms : List (List ℕ)) (pos : Position)
      → get_move m pos ≡ none
      → replay (m ∷ ms) pos ≡ none
  unfolding replay
  replay-bad m ms pos e = ground arith

  replay-good :
      (m : List ℕ) (ms : List (List ℕ)) (pos : Position) (move : ℕ)
      → get_move m pos ≡ some move
      → replay (m ∷ ms) pos ≡ prepend (call pos move) (replay ms (do_move pos move))
  unfolding replay
  replay-good m ms pos move e = ground arith

  ended_late :
      (g : P)
      → min_depth < g.halfmove
      → ended (some g) ≡ some (g.calls ++ call g.pos termination ∷ [])
  unfolding end_game
  ended_late g h = ground arith

  ended-none : ended none ≡ none
  unfolding end_game
  ended-none = refl

  replay-nil : (pos : Position) → replay [] pos ≡ some (call pos termination ∷ [])
  unfolding replay
  replay-nil pos = refl

  -- From the fifth move on, every move up to the fortieth is played and counted at once.
  loop_later :
      (ms : List (List ℕ)) (g : P)
      → min_depth < g.halfmove
      → g.halfmove ≤ max_depth
      → ended (loop ms g) ≡ behind g.calls (replay (take (max_depth - g.halfmove) ms) g.pos)
  loop_later [] g h h' =
      ap ended (loop-nil g)
      ∙ ended_late g h
      ∙ sym (
          ap (λ xs. behind g.calls (replay xs g.pos)) (take_nil (max_depth - g.halfmove))
          ∙ ap (behind g.calls) (replay-nil g.pos))
  loop_later (m ∷ ms) g h h' =
      let later = take (max_depth - (g.halfmove + 1)) ms in
      elim (Bool-cases (g.halfmove == max_depth)) [
        | inl last ↦
            ap ended (loop-stopped m ms g g (step-last m g last))
            ∙ ended_late g h
            ∙ sym (
                ap (λ n. behind g.calls (replay (take n (m ∷ ms)) g.pos))
                  (none_left g.halfmove last)
                ∙ ap (behind g.calls) (replay-nil g.pos))
        | inr more ↦ elim (Option-cases (get_move m g.pos)) [
          | inl bad ↦
              ap ended (loop-failed m ms g (step-bad m g h more bad))
              ∙ ended-none
              ∙ sym (
                  ap (λ n. behind g.calls (replay (take n (m ∷ ms)) g.pos))
                    (one_more g.halfmove h' more)
                  ∙ ap (behind g.calls) (replay-bad m later g.pos bad))
          | inr (move, good) ↦
              ap ended (loop-going m ms g (advance g move) (step-good m g move h more good))
              ∙ loop_later ms (advance g move) (omega arith) (ground arith)
              ∙ sym (
                  ap (λ n. behind g.calls (replay (take n (m ∷ ms)) g.pos))
                    (one_more g.halfmove h' more)
                  ∙ ap (behind g.calls) (replay-good m later g.pos move good)
                  ∙ behind-prepend g.calls (call g.pos move) (replay later (do_move g.pos move)))
        ]
      ]

  -- Playing the moves of the buffer, and what is still to come behind them.
  moved_lem :
      (xs ys : List (List ℕ)) (g : P) (n : ℕ)
      → g.halfmove ≡ n
      → ((moved xs g ≡ none) × (replay (xs ++ ys) g.pos ≡ none))
        ⊎ ((h : P) × (moved xs g ≡ some h)
            × (h.halfmove ≡ n)
            × (behind g.calls (replay (xs ++ ys) g.pos) ≡ behind h.calls (replay ys h.pos)))
  unfolding process_moves process_move play
  moved_lem [] ys g n same = inr (g, refl, same, refl)
  moved_lem (x ∷ xs) ys g n same = elim (Option-cases (get_move x g.pos)) [
    | inl bad ↦ inl (ground arith, replay-bad x (xs ++ ys) g.pos bad)
    | inr (move, good) ↦
        let played = record g {
          pos = do_move g.pos move;
          calls = g.calls ++ call g.pos move ∷ [];
        } in
        let first = replay-good x (xs ++ ys) g.pos move good in
        elim (moved_lem xs ys played n same) [
          | inl (fails, none_left) ↦ inl (ground arith, ground arith)
          | inr (h, plays, still, rest) ↦ inr (
            h,
            ground arith,
            still,
            ap (behind g.calls) first
                ∙ behind-prepend g.calls (call g.pos move) (replay (xs ++ ys) (do_move g.pos move))
                ∙ rest,
          )
        ]
  ]

  abbrev fourth : Position → List ℕ → List ℕ → List ℕ → List ℕ → P
  fourth start a b c d = record {
    pos = start;
    halfmove = 4;
    buffer = a ∷ b ∷ c ∷ d ∷ [];
    calls = [];
  }

  behind-nil : (o : Option (List Played)) → behind [] o ≡ o
  behind-nil none = refl
  behind-nil (some cs) = refl

  thirty_five : (n : ℕ) → n ≡ 4 → max_depth - (n + 1) ≡ 35
  thirty_five n e = omega arith

  fifth-failed : (e : List ℕ) (g : P) → g.halfmove ≡ 4 → moved g.buffer g ≡ none → step e g ≡ failed
  unfolding on_move next_move
  fifth-failed e g four fails = ground arith

  fifth-bad :
      (e : List ℕ) (g h : P)
      → g.halfmove ≡ 4
      → moved g.buffer g ≡ some h
      → h.halfmove ≡ 4
      → get_move e h.pos ≡ none
      → step e g ≡ failed
  unfolding on_move next_move count_move process_move play
  fifth-bad e g h four plays still bad = ground arith

  fifth-good :
      (e : List ℕ) (g h : P) (move : ℕ)
      → g.halfmove ≡ 4
      → moved g.buffer g ≡ some h
      → h.halfmove ≡ 4
      → get_move e h.pos ≡ some move
      → step e g ≡ going (advance h move)
  unfolding on_move next_move count_move process_move play
  fifth-good e g h move four plays still good = ground arith

  fifth :
      (e : List ℕ) (ms : List (List ℕ)) (g : P)
      → g.halfmove ≡ 4
      → g.calls ≡ []
      → ended (loop (e ∷ ms) g) ≡ replay (g.buffer ++ take 36 (e ∷ ms)) g.pos
  fifth e ms g four fresh = elim (moved_lem g.buffer (e ∷ take 35 ms) g 4 four) [
    | inl (fails, gone) ↦
        ap ended (loop-failed e ms g (fifth-failed e g four fails)) ∙ ended-none ∙ sym gone
    | inr (h, plays, still, rest) ↦
        let whole =
          sym (behind-nil (replay (g.buffer ++ (e ∷ take 35 ms)) g.pos))
          ∙ ap (λ cs. behind cs (replay (g.buffer ++ (e ∷ take 35 ms)) g.pos)) (sym fresh)
          ∙ rest in
        elim (Option-cases (get_move e h.pos)) [
          | inl bad ↦
              ap ended (loop-failed e ms g (fifth-bad e g h four plays still bad))
              ∙ ended-none
              ∙ sym (whole ∙ ap (behind h.calls) (replay-bad e (take 35 ms) h.pos bad))
          | inr (move, good) ↦
              ap ended
                (loop-going e ms g (advance h move) (fifth-good e g h move four plays still good))
              ∙ loop_later ms (advance h move) (omega arith) (omega arith)
              ∙ ap
                  (λ n.
                    behind (h.calls ++ call h.pos move ∷ [])
                      (replay (take n ms) (do_move h.pos move)))
                  (thirty_five h.halfmove still)
              ∙ sym (
                  whole
                  ∙ ap (behind h.calls) (replay-good e (take 35 ms) h.pos move good)
                  ∙ behind-prepend h.calls (call h.pos move)
                      (replay (take 35 ms) (do_move h.pos move)))
        ]
  ]

  -- What is counted of a game: nothing below four moves; only its end, in the position that it began
  -- in, at four; and from five on the first forty moves and the end in the position behind them.
  abbrev pub counted : List (List ℕ) → Position → Option (List Played)
  counted ms start =
      if ltb (length ms) min_depth
      then some []
      else if length ms == min_depth
      then some (call start termination ∷ [])
      else replay (take max_depth ms) start

  -- `processSingleGame` makes exactly the calls of `counted`, for every list of moves: in a game of
  -- exactly four moves none of them is counted, and a move that cannot be read fails the game as it
  -- fails the replay of its first forty moves.
  pub process_game-counted :
      (start : Position) (ms : List (List ℕ))
      → process_game Position key do_move get_move bucket result start ms ≡ counted ms start
  unfolding process_game for_each_move on_move end_game
  process_game-counted start [] = refl
  process_game-counted start (a ∷ []) = refl
  process_game-counted start (a ∷ b ∷ []) = refl
  process_game-counted start (a ∷ b ∷ c ∷ []) = refl
  process_game-counted start (a ∷ b ∷ c ∷ d ∷ []) = refl
  process_game-counted start (a ∷ b ∷ c ∷ d ∷ e ∷ ms) =
      fifth e ms (fourth start a b c d) refl refl ∙ sym (ground arith)
