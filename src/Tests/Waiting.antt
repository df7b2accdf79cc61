-- ===== src/Tests/Waiting.antt =====
-- The theorems about the queue at a concrete history.
use out_of_book.Prelude.{ℕ, ◌≤◌, ◌≡◌, List, [], ◌∷◌, ◌++◌, some, arith, refl, length, false}
use out_of_book.Queue.{
  SpmcQueue, push, pop, pop_items, set_finished, drain, History, pushes, pops, finishes, Reach,
  here, next,
}
use out_of_book.Queue.Fifo.{Reach-pushed, drain-pushed}

-- Two items are pushed into a queue for two, one is popped, and the queue is finished.
abbrev queue_of : List ℕ → SpmcQueue ℕ
queue_of items = record { items = items; max_size = 2; finished = false }

abbrev one_item : History ℕ
one_item = record { queue = queue_of (7 ∷ []); pushed = 7 ∷ []; popped = [] }

abbrev two_items : History ℕ
two_items = record { queue = queue_of (7 ∷ 8 ∷ []); pushed = 7 ∷ 8 ∷ []; popped = [] }

abbrev one_popped : History ℕ
one_popped = record { queue = queue_of (8 ∷ []); pushed = 7 ∷ 8 ∷ []; popped = 7 ∷ [] }

abbrev ended : History ℕ
ended = record one_popped { queue = set_finished ℕ (queue_of (8 ∷ [])) }

run : Reach ℕ 2 ended
unfolding push pop pop_items
run =
    next
      (next
        (next (next here (pushes 7 (queue_of (7 ∷ [])) refl refl))
          (pushes 8 (queue_of (7 ∷ 8 ∷ [])) refl refl))
        (pops 7 (queue_of (8 ∷ [])) refl refl))
      (finishes refl)

Reach-pushed_example :
    (ended.pushed ≡ ended.popped ++ ended.queue.items) × (length ended.queue.items ≤ 2)
Reach-pushed_example = Reach-pushed ℕ run

drain-pushed_example :
    (items : List ℕ) × (drain ℕ 3 ended.queue ≡ some (items, record ended.queue { items = [] }))
    × (ended.pushed ≡ ended.popped ++ items)
drain-pushed_example = drain-pushed ℕ 3 run refl (omega arith)
