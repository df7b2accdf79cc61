-- ===== src/Server/RateLimit/Check.antt =====
-- RateLimit.cpp: `check` as a whole.
use out_of_book.Prelude.{
  ℕ, ◌+◌, ◌%◌, ◌<◌, ◌≡◌, ◌∙◌, ap, List, false, leb, if◌then◌else◌, Option, none, some, length,
  arith, refl, Bool-cases, inl, inr,
}
use out_of_book.Spill.{u64}
use out_of_book.Text.{bytes_eq}
use out_of_book.Server.RateLimit.{
  Double, Config, Bucket, RateLimiter, find, evict_oldest, drop_idle, sweep, admit, first_seen,
  refill, spend, decide, due, check,
}
use out_of_book.Server.RateLimit.Table.{
  IsValid, Kept, Kept-trans, sweep-IsValid, due-IsValid, admit-IsValid, sweep-Kept, due-Kept,
  find-none_after, length-write, write-Distinct, find-write_ne,
}

-- One request of the client `c` at the time `now`.
module _ (d : Double) (cfg : Config d) (now : ℕ) (c : List ℕ) (s : RateLimiter d) where
  first_seen-IsValid :
      IsValid d cfg s → find d c s.buckets ≡ none → IsValid d cfg (first_seen d cfg now c s).0
  unfolding first_seen
  first_seen-IsValid h e = elim (Bool-cases (leb cfg.max_clients (length s.buckets))) [
    | inr room ↦ rw room (admit-IsValid d cfg now c s h e (ground arith))
    | inl full ↦
        rw full (elim (Bool-cases (leb cfg.max_clients (length (sweep d cfg now s).buckets))) [
          | inl still ↦ rw still (sweep-IsValid d cfg now s h)
          | inr room ↦ rw room (
              admit-IsValid d cfg now c (sweep d cfg now s) (sweep-IsValid d cfg now s h)
                (find-none_after d cfg now c s (sweep d cfg now s) (sweep-Kept d cfg now c s h) e)
                (ground arith))
        ])
  ]

  spend-IsValid : (b : Bucket d) → IsValid d cfg s → IsValid d cfg (spend d cfg now c b s).0
  unfolding spend
  spend-IsValid b h = elim (Bool-cases (d.at_least (refill d cfg now b) d.one)) [
    | inl e ↦ rw e (record {
      bounded = omega (arith, h.bounded, length-write d c _ s.buckets);
      distinct = write-Distinct d c _ s.buckets h.distinct;
    })
    | inr e ↦ rw e (record {
      bounded = omega (arith, h.bounded, length-write d c _ s.buckets);
      distinct = write-Distinct d c _ s.buckets h.distinct;
    })
  ]

  decide-IsValid :
      (o : Option (Bucket d))
      → find d c s.buckets ≡ o
      → IsValid d cfg s
      → IsValid d cfg (decide d cfg now c o s).0
  unfolding decide
  decide-IsValid none e h = first_seen-IsValid h e
  decide-IsValid (some b) e h = spend-IsValid b h

  -- Another client's bucket.
  module _ (q : List ℕ) (other : bytes_eq c q ≡ false) where
    admit-find : (t : RateLimiter d) → find d q (admit d cfg now c t).0.buckets ≡ find d q t.buckets
    unfolding admit find
    admit-find t = rw other

    first_seen-Kept : IsValid d cfg s → Kept d cfg now q s (first_seen d cfg now c s).0
    unfolding first_seen
    first_seen-Kept h = elim (Bool-cases (leb cfg.max_clients (length s.buckets))) [
      | inr room ↦ rw room (inl (admit-find s))
      | inl full ↦
          rw full (elim (Bool-cases (leb cfg.max_clients (length (sweep d cfg now s).buckets))) [
            | inl still ↦ rw still (sweep-Kept d cfg now q s h)
            | inr room ↦ rw room (
                let t = sweep d cfg now s in
                Kept-trans d cfg now q s t (admit d cfg now c t).0 (sweep-Kept d cfg now q s h)
                  (inl (admit-find t)))
          ])
    ]

    spend-Kept : (b : Bucket d) → Kept d cfg now q s (spend d cfg now c b s).0
    unfolding spend
    spend-Kept b = elim (Bool-cases (d.at_least (refill d cfg now b) d.one)) [
      | inl e ↦ rw e (inl (find-write_ne d q c _ s.buckets other))
      | inr e ↦ rw e (inl (find-write_ne d q c _ s.buckets other))
    ]

    decide-Kept :
        (o : Option (Bucket d)) → IsValid d cfg s → Kept d cfg now q s (decide d cfg now c o s).0
    unfolding decide
    decide-Kept none h = first_seen-Kept h
    decide-Kept (some b) h = spend-Kept b

  drop_idle-refused : (drop_idle d cfg now s).refused ≡ s.refused
  unfolding drop_idle
  drop_idle-refused = refl

  sweep-refused : (sweep d cfg now s).refused ≡ s.refused
  unfolding sweep evict_oldest drop_idle
  sweep-refused = ground arith

  due-refused : (due d cfg now s).refused ≡ s.refused
  unfolding due
  due-refused = ground (arith, sweep-refused)

  decide-refused :
      (o : Option (Bucket d))
      → s.refused < u64
      → (decide d cfg now c o s).0.refused
        ≡ (s.refused + (if (decide d cfg now c o s).1.allowed then 0 else 1)) % u64
  unfolding decide first_seen spend admit
  decide-refused none small = ground (arith, sweep-refused)
  decide-refused (some b) small = ground arith

module _ (d : Double) (cfg : Config d) (now : ℕ) (c : List ℕ) (s : RateLimiter d) where
  -- The table never outgrows `maxClients` and never holds a client twice.
  pub check-IsValid : IsValid d cfg s → IsValid d cfg (check d cfg now c s).0
  unfolding check
  check-IsValid h =
      let s' = due d cfg now s in
      decide-IsValid d cfg now c s' (find d c s'.buckets) refl (due-IsValid d cfg now s h)

  -- A request of one client leaves the bucket of any other as it was, or drops it if that client had
  -- been silent for longer than the idle timeout.
  pub check-Kept :
      (q : List ℕ)
      → bytes_eq c q ≡ false
      → IsValid d cfg s
      → Kept d cfg now q s (check d cfg now c s).0
  unfolding check
  check-Kept q other h =
      let s' = due d cfg now s in
      Kept-trans d cfg now q s s' (check d cfg now c s).0 (due-Kept d cfg now q s h)
        (decide-Kept d cfg now c s' q other (find d c s'.buckets) (due-IsValid d cfg now s h))

  -- `refused_`, a number of 64 bits, goes up by one for a request that is not allowed, from its largest
  -- value to 0, and it stays as it is for every other request.
  pub check-refused :
      s.refused < u64
      → (check d cfg now c s).0.refused
        ≡ (s.refused + (if (check d cfg now c s).1.allowed then 0 else 1)) % u64
  unfolding check
  check-refused small =
      let s' = due d cfg now s in
      let same = due-refused d cfg now c s in
      let counted =
        decide-refused d cfg now c s' (find d c s'.buckets) (omega (arith, small, same)) in
      counted
      ∙ ap
          (λ n.
            (n + (if (decide d cfg now c (find d c s'.buckets) s').1.allowed then 0 else 1)) % u64)
          same
