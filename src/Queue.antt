-- ===== src/Queue.antt =====
-- libs/queue/SPMCQueue.h: the bounded queue between threads. Each call is one step under the mutex; a
-- call that waits on a condition is a step that the state does not allow yet. The notifications, on
-- which it depends that a waiting thread is woken, are not modelled.
use out_of_book.Prelude.{
  ℕ, zero, suc, ◌+◌, ◌≤◌, ◌<◌, ◌≡◌, List, [], ◌∷◌, ◌++◌, Bool, true, false, ltb, if◌then◌else◌,
  Option, none, some, length,
}
pub mod Fifo

module _ (T : Type 0) where
  pub record SpmcQueue : Type 0 where
    pub items : List T
    pub max_size : ℕ
    pub finished : Bool

  -- `SPMCQueue(maxSize)`
  abbrev pub new : ℕ → SpmcQueue
  new n = record { items = []; max_size = n; finished = false }

  -- `push`, where `none` is a wait for room.
  unfoldable pub push : T → SpmcQueue → Option SpmcQueue
  push item q =
      if ltb (length q.items) q.max_size
      then some (record q { items = q.items ++ item ∷ [] })
      else none

  -- How `pop` goes on: it waits for an item, returns false, or moves the front out.
  pub data Pop : Type 0 where
    waits closed : Pop
    took : T → SpmcQueue → Pop

  unfoldable pub pop_items : List T → SpmcQueue → Pop
  pop_items [] q = if q.finished then closed else waits
  pop_items (item ∷ items) q = took item (record q { items = items })

  unfoldable pub pop : SpmcQueue → Pop
  pop q = pop_items q.items q

  -- `setFinished`
  abbrev pub set_finished : SpmcQueue → SpmcQueue
  set_finished q = record q { finished = true }

  -- `while (queue.pop(item))`: the items that the loop of a consumer gets while nobody else pops, and
  -- the queue that it leaves. `none` is a wait, or fuel run out.
  unfoldable pub drain : ℕ → SpmcQueue → Option (List T × SpmcQueue)
  drain zero q = none
  drain (suc fuel) q = elim (pop q) [
    | waits ↦ none
    | closed ↦ some ([], q)
    | took item q' ↦ elim (drain fuel q') [
      | none ↦ none
      | some (items, q'') ↦ some (item ∷ items, q'')
    ]
  ]

  -- A queue with the items that were pushed and popped so far, oldest first.
  pub record History : Type 0 where
    pub queue : SpmcQueue
    pub pushed : List T
    pub popped : List T

  abbrev pub start : ℕ → History
  start n = record { queue = new n; pushed = []; popped = [] }

  -- A step of any thread: a producer's call, or a consumer's. A `pop` that returns false changes nothing.
  pub data Step (h : History) (h' : History) : Type 0 where
    pushes :
        (item : T) (q : SpmcQueue)
        → push item h.queue ≡ some q
        → h' ≡ record { queue = q; pushed = h.pushed ++ item ∷ []; popped = h.popped }
        → Step h h'
    pops :
        (item : T) (q : SpmcQueue)
        → pop h.queue ≡ took item q
        → h' ≡ record { queue = q; pushed = h.pushed; popped = h.popped ++ item ∷ [] }
        → Step h h'
    finishes : h' ≡ record h { queue = set_finished h.queue } → Step h h'

  pub data Reach (n : ℕ) : History → Type 0 where
    here : Reach n (start n)
    next : {h h' : History} → Reach n h → Step h h' → Reach n h'
