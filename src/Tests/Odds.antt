-- ===== src/Tests/Odds.antt =====
-- The theorems about the target graph at a concrete game: a position is a number, and the moves add 1 or 2.
use out_of_book.Prelude.{
  ℕ, ◌+◌, ◌<◌, ◌≡◌, ◌≢◌, ap, ◌↔◌, List, [], ◌∷◌, true, false, none, some, length, All, arith, refl,
}
use out_of_book.Spill.{u32}
use out_of_book.LineOdds.Graph.{Edge, Node, Layer, mark_layers}
use out_of_book.LineOdds.Forward
use out_of_book.LineOdds.Forward.{Game, Search, forward, ended, strayed}
use out_of_book.LineOdds.Backward.{Alive}
use out_of_book.LineOdds.Parents.{forward-strayed}
use out_of_book.LineOdds.Exact.{KeysDecide, Line, forward-Line}

abbrev game : Game
game = record {
  Position = ℕ;
  key = λ p. p;
  do_move = λ p m. p + m;
  white_to_move = λ p. true;
  legal_moves = λ p. [];
  uci = λ m. [];
  book_moves = λ k. 1 ∷ 2 ∷ [];
  reachable = λ p a b. true;
  late = λ ply i. false;
}

abbrev walk : Search game
walk = record { start = 0; hero = none; plan = []; max_states = 100 }

abbrev node : ℕ → ℕ → ℕ → ℕ → ℕ → Node
node k parent first count move = record {
  key = k;
  parent = parent;
  first_edge = first;
  edge_count = count;
  move = move;
  alive = false;
}

abbrev edge : ℕ → ℕ → Edge
edge child move = record { child = child; move = move }

-- 0; then 1 and 2; then 2, 3 and 4, where 3 is reached in two ways.
abbrev layers : List Layer
layers =
    record { nodes = node 0 0xffff_ffff 0 2 0 ∷ []; edges = edge 0 1 ∷ edge 1 2 ∷ [] }
    ∷ record {
      nodes = node 1 0 0 2 1 ∷ node 2 0 2 2 2 ∷ [];
      edges = edge 0 1 ∷ edge 1 2 ∷ edge 1 1 ∷ edge 2 2 ∷ [];
    }
    ∷ record { nodes = node 2 0 0 0 1 ∷ node 3 0 0 0 2 ∷ node 4 1 0 0 2 ∷ []; edges = [] }
    ∷ []

walked : forward game walk 2 ≡ ended layers
unfolding forward Forward.expand_from Forward.expand_nodes Forward.check_counter
    Forward.check_limits Forward.or_strayed Forward.◌>>=◌ Forward.path_to Forward.replay
    Forward.expand_node Forward.admit_all Forward.admit Forward.admitted Forward.link
    Forward.find_seen Forward.moves_at Forward.crowd_moves Forward.is_pseudo_move
walked = refl

small : All (λ l. length l.edges < u32) layers
small = (omega arith, (omega arith, (omega arith, tt)))

decide : KeysDecide game
decide = record {
  side = λ p q e. refl;
  legal = λ p q e. refl;
  moved = λ p q m e. ap (λ p. p + m) e;
  tested = λ p q a b e. refl;
}

forward-Line_example :
    (m : Layer) × (marked : List Layer) × (mark_layers 3 layers ≡ some (m ∷ marked))
    × (Alive m.nodes 0 ↔ Line game walk 3 2 0)
forward-Line_example = forward-Line game decide walk 3 2 layers walked small

forward-strayed_example : forward game walk 2 ≢ strayed
forward-strayed_example = forward-strayed game walk 2
