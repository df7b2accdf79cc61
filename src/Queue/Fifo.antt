-- ===== src/Queue/Fifo.antt =====
-- SPMCQueue.h: the order of the items under interleaved calls of the threads.
use out_of_book.Prelude.{
  ℕ, zero, suc, ◌≤◌, ◌<◌, ◌≡◌, ◌∙◌, sym, ap, List, [], ◌∷◌, ◌++◌, true, some, length, length-append,
  arith, refl,
}
use mathlib.Core.Path.{subst}
use mathlib.Core.List.{append_assoc, append-nil}
use out_of_book.Queue.{
  SpmcQueue, push, closed, took, pop_items, pop, drain, History, Step, pushes, pops, finishes,
  Reach, here, next,
}

module _ (T : Type 0) where
  -- What was pushed is what was popped, in the same order, and then what is still queued.
  record IsFifo (n : ℕ) (h : History T) : Type 0 where
    order : h.pushed ≡ h.popped ++ h.queue.items
    room : length h.queue.items ≤ n
    limit : h.queue.max_size ≡ n

  push-cases :
      (item : T) (q q' : SpmcQueue T)
      → push T item q ≡ some q'
      → (length q.items < q.max_size)
        × (q'.items ≡ q.items ++ item ∷ [])
        × (q'.max_size ≡ q.max_size)
  unfolding push
  push-cases item q q' e = ground (arith, e)

  pop-cases :
      (item : T) (items : List T) (q q' : SpmcQueue T)
      → pop_items T items q ≡ took item q'
      → (items ≡ item ∷ q'.items) × (q'.max_size ≡ q.max_size)
  unfolding pop_items
  pop-cases item [] q q' e = absurd (ground (arith, e))
  pop-cases item (x ∷ items) q q' e = ground (arith, e)

  Step-IsFifo : (n : ℕ) (h h' : History T) → Step T h h' → IsFifo n h → IsFifo n h'
  unfolding pop
  Step-IsFifo n h h' (pushes item q e e') f =
      let (lt, items, same) = push-cases item h.queue q e in
      subst (IsFifo n) (sym e') (record {
        order =
            ap (λ xs. xs ++ item ∷ []) f.order
            ∙ append_assoc h.popped h.queue.items (item ∷ [])
            ∙ ap (λ xs. h.popped ++ xs) (sym items);
        room = omega (arith, ap length items, length-append {0} h.queue.items (item ∷ []), f.limit);
        limit = same ∙ f.limit;
      })
  Step-IsFifo n h h' (pops item q e e') f =
      let (items, same) = pop-cases item h.queue.items h.queue q e in
      subst (IsFifo n) (sym e') (record {
        order =
            f.order
            ∙ ap (λ xs. h.popped ++ xs) items
            ∙ sym (append_assoc h.popped (item ∷ []) q.items);
        room = omega (arith, ap length items, f.room);
        limit = same ∙ f.limit;
      })
  Step-IsFifo n h h' (finishes e') f =
      subst (IsFifo n) (sym e') (record { order = f.order; room = f.room; limit = f.limit })

  Reach-IsFifo : {n : ℕ} {h : History T} → Reach T n h → IsFifo n h
  Reach-IsFifo {n} here = record { order = refl; room = omega arith; limit = refl }
  Reach-IsFifo (next r s) = Step-IsFifo _ _ _ s (Reach-IsFifo r)

  -- Whatever the threads have done: the items popped so far, and then those still queued, are the
  -- items pushed, in the order of the pushes, and no more than `maxSize` are queued.
  pub Reach-pushed :
      {n : ℕ} {h : History T}
      → Reach T n h
      → (h.pushed ≡ h.popped ++ h.queue.items) × (length h.queue.items ≤ n)
  Reach-pushed r = let f = Reach-IsFifo r in (f.order, f.room)

  -- When `pop` returns false, the queue has been finished, and every item pushed so far has been popped.
  pub pop-closed :
      {n : ℕ} {h : History T}
      → Reach T n h
      → pop T h.queue ≡ closed
      → (h.pushed ≡ h.popped) × (h.queue.finished ≡ true)
  unfolding pop pop_items
  pop-closed {h = h} r e =
      let (items, done) = closed-cases h.queue.items h.queue e in
      ((Reach-IsFifo r).order ∙ ap (λ xs. h.popped ++ xs) items ∙ append-nil h.popped, done)
    where
      closed-cases :
          (items : List T) (q : SpmcQueue T)
          → pop_items T items q ≡ closed
          → (items ≡ []) × (q.finished ≡ true)
      closed-cases [] q e = (refl, ground (arith, e))
      closed-cases (x ∷ items) q e = absurd (ground (arith, e))

  drain_lem :
      (fuel : ℕ) (items : List T) (q : SpmcQueue T)
      → q.finished ≡ true
      → length items < fuel
      → drain T fuel (record q { items = items }) ≡ some (items, record q { items = [] })
  unfolding drain pop pop_items
  drain_lem zero items q done lt = absurd (omega arith)
  drain_lem (suc fuel) [] q done lt = rw done refl
  drain_lem (suc fuel) (x ∷ items) q done lt = rw (drain_lem fuel items q done (omega arith)) refl

  -- Once the queue is finished, and if no other thread calls it any more, the loop of the consumer
  -- that is left ends: with fuel for the items queued, it gets just those that nobody had popped, in
  -- the order of their pushes, and it leaves the queue empty.
  pub drain-pushed :
      {n : ℕ} {h : History T} (fuel : ℕ)
      → Reach T n h
      → h.queue.finished ≡ true
      → n < fuel
      → (items : List T) × (drain T fuel h.queue ≡ some (items, record h.queue { items = [] }))
        × (h.pushed ≡ h.popped ++ items)
  drain-pushed {h = h} fuel r done lt =
      let f = Reach-IsFifo r in
      (h.queue.items, drain_lem fuel h.queue.items h.queue done (omega (arith, f.room)), f.order)
