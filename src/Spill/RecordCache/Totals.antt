-- ===== src/Spill/RecordCache/Totals.antt =====
-- RecordCache.cpp: the totals of a worker's whole life, from the empty cache to the spill files.
use out_of_book.Prelude.{
  ℕ, zero, suc, ◌+◌, ◌^◌, ◌<◌, ◌≡◌, ◌∙◌, ◌≢◌, List, [], ◌∷◌, ◌==◌, get_or, length, All, All-set,
  All-get_or, All-replicate, All-map, length-replicate, replicate, arith, refl, mod_pow-lt,
  Bool-cases, inl, inr, map, nil_of_length, ap, sym, ==_iff, get_or-set_self, get_or-set_ne,
}
use native.Mathlib.Decide.{ℕ_discrete}
use native.Mathlib.Nat.{add-zero}
use out_of_book.Spill.{SpillRecord, Key, Counter, weight, tally, tallies, u32}
use out_of_book.Spill.RecordCache.{
  RecordCache, Config, Played, Probe, stored, full, empty_slot, home_of, shard_of, init, probe_loop,
  flush_buffer, copy_record, flush_full, append_buffer, evict, settle, add, drain_slot, drain_slots,
  flush_rest, flush_all, destroy, record_of, add_all,
}
use out_of_book.Spill.RecordCache.Tally.{
  tally-set, held, IsConfig, IsShaped, Fits, Settles, flush-IsShaped, append_buffer-IsShaped,
  set-IsShaped, evict-IsShaped, held-flush, held-append_buffer, held-evict, probe_loop-Settles,
}

-- The state after at most `n` calls of `add`.
pub record IsValid (cfg : Config) (n : ℕ) (s : RecordCache) : Type 0 where
  pub shaped : IsShaped cfg s
  pub fits : All (Fits n) s.slots

-- The buffers of the shards below `n` are empty.
abbrev EmptyBelow : ℕ → RecordCache → Type 0
EmptyBelow n s = (i : ℕ) → i < n → get_or s.buffers i [] ≡ []

tallies_of_empty :
    (k : Key) (c : Counter) (xss : List (List SpillRecord))
    → ((i : ℕ) → i < length xss → get_or xss i [] ≡ [])
    → tallies k c xss ≡ 0
unfolding tallies tally
tallies_of_empty k c [] h = refl
tallies_of_empty k c (xs ∷ xss) h =
    rw (h 0 (omega arith), tallies_of_empty k c xss (λ i lt. h (suc i) (omega arith))) (omega arith)

tallies-replicate : (k : Key) (c : Counter) (n : ℕ) → tallies k c (replicate n []) ≡ 0
unfolding tallies tally
tallies-replicate k c zero = refl
tallies-replicate k c (suc n) = omega (arith, tallies-replicate k c n)

tally-replicate :
    (k : Key) (c : Counter) (n : ℕ) → k.zobrist ≢ 0 → tally k c (replicate n empty_slot) ≡ 0
unfolding tally
tally-replicate k c zero nz = refl
tally-replicate k c (suc n) nz = ground (arith, tally-replicate k c n nz)

module _ (cfg : Config) where
  flush_full-slots : (shard : ℕ) (s : RecordCache) → (flush_full cfg shard s).slots ≡ s.slots
  unfolding flush_full flush_buffer
  flush_full-slots shard s = ground arith

  append_buffer-slots :
      (r : SpillRecord) (s : RecordCache) → (append_buffer cfg r s).slots ≡ s.slots
  unfolding append_buffer copy_record
  append_buffer-slots r s = flush_full-slots (shard_of cfg r.zobrist) _

  evict-Fits :
      (p n : ℕ) (r : SpillRecord) (s : RecordCache)
      → All (Fits n) s.slots
      → Fits n r
      → All (Fits n) (evict cfg p r s).slots
  unfolding evict
  evict-Fits p n r s all h = rw append_buffer-slots (All-set (Fits n) s.slots p r all h)

  flush_buffer-slots : (shard : ℕ) (s : RecordCache) → (flush_buffer cfg shard s).slots ≡ s.slots
  unfolding flush_buffer
  flush_buffer-slots shard s = refl

  -- `flush_rest` leaves its own buffer empty and the others as they are.
  flush_rest-EmptyBelow :
      (shard : ℕ) (s : RecordCache)
      → IsShaped cfg s
      → EmptyBelow shard s
      → shard < 2 ^ cfg.shard_bits
      → EmptyBelow (suc shard) (flush_rest cfg shard s)
  unfolding flush_rest flush_buffer
  flush_rest-EmptyBelow shard s h below lt i le =
      elim (Bool-cases (length (get_or s.buffers shard []) == 0)) [
        | inl e ↦ rw e (elim (ℕ_discrete i shard) [
          | yes p ↦ rw p (nil_of_length _ ((==_iff _ 0).0 e))
          | no p ↦ below i (omega arith)
        ])
        | inr e ↦ rw e (elim (ℕ_discrete i shard) [
          | yes p ↦ rw p (get_or-set_self s.buffers shard [] [] (omega (arith, h.buffers)))
          | no p ↦ get_or-set_ne s.buffers shard i [] [] (λ q. p (sym q)) ∙ below i (omega arith)
        ])
      ]

  init-IsValid : IsValid cfg 0 (init cfg)
  unfolding init
  init-IsValid = record {
    shaped = record {
      slots = length-replicate (2 ^ cfg.slot_bits) empty_slot;
      buffers = length-replicate (2 ^ cfg.shard_bits) [];
      files = length-replicate (2 ^ cfg.shard_bits) [];
    };
    fits = All-replicate (Fits 0) (2 ^ cfg.slot_bits) empty_slot (omega arith);
  }

  module _ (k : Key) (c : Counter) (ok : IsConfig cfg) (nz : k.zobrist ≢ 0) where
    settle_lem :
        (n : ℕ) (r : SpillRecord) (s : RecordCache) (o : Probe)
        → IsValid cfg n s
        → Fits 1 r
        → Settles cfg k c n s.slots r o
        → IsValid cfg (suc n) (settle cfg o r s)
          × (held k c (settle cfg o r s) ≡ held k c s + weight k c r)
    unfolding settle held
    settle_lem n r s (stored p v) h h1 (lt, e, f) = (
      record {
        shaped = set-IsShaped cfg p v s h.shaped;
        fits =
            All-set (Fits (suc n)) s.slots p v
              (All-map (Fits n) (Fits (suc n)) s.slots (λ a f. omega arith) h.fits) f;
      },
      omega (arith, h.shaped.slots, tally-set k c s.slots p v empty_slot),
    )
    settle_lem n r s (full p) h h1 lt = (
      record {
        shaped = evict-IsShaped cfg p r s h.shaped;
        fits =
            evict-Fits p (suc n) r s
              (All-map (Fits n) (Fits (suc n)) s.slots (λ a f. omega arith) h.fits) (omega arith);
      },
      held-evict cfg k c ok p r s h.shaped lt
          (All-get_or (Fits n) s.slots p empty_slot h.fits (omega arith)).0,
    )

    init-held : held k c (init cfg) ≡ 0
    unfolding held init
    init-held = omega (
      arith,
      tally-replicate k c (2 ^ cfg.slot_bits) nz,
      tallies-replicate k c (2 ^ cfg.shard_bits),
    )

    incoming-Fits : (g : Played) → g.zobrist < 2 ^ 64 → Fits 1 (record_of g)
    incoming-Fits g h = ground arith

    -- One `add` puts exactly one game on the tally of its key and nothing on any other.
    add_lem :
        (n : ℕ) (g : Played) (s : RecordCache)
        → IsValid cfg n s
        → suc n < u32
        → g.zobrist < 2 ^ 64
        → IsValid cfg (suc n) (add cfg g.zobrist g.move g.bucket g.result s)
          × (held k c (add cfg g.zobrist g.move g.bucket g.result s)
              ≡ held k c s + weight k c (record_of g))
    unfolding add
    add_lem n g s h small lt =
        let r = record_of g in
        let p = home_of cfg g.zobrist in
        let at_home = mod_pow-lt g.zobrist cfg.slot_bits in
        settle_lem n r s (probe_loop cfg cfg.max_run s.slots r p p 0xffff_ffff) h
          (incoming-Fits g lt)
          (probe_loop-Settles cfg k c cfg.max_run n s.slots r p p 0xffff_ffff nz small h.fits
            (incoming-Fits g lt) refl at_home at_home)

    add_all_lem :
        (n : ℕ) (gs : List Played) (s : RecordCache)
        → IsValid cfg n s
        → n + length gs < u32
        → All (λ g. g.zobrist < 2 ^ 64) gs
        → IsValid cfg (n + length gs) (add_all cfg gs s)
          × (held k c (add_all cfg gs s) ≡ held k c s + tally k c (map record_of gs))
    unfolding add_all tally
    add_all_lem n [] s h small all = (rw add-zero h, omega arith)
    add_all_lem n (g ∷ gs) s h small all =
        let s' = add cfg g.zobrist g.move g.bucket g.result s in
        let (h', e) = add_lem n g s h (omega arith) all.0 in
        let (h'', e') = add_all_lem (suc n) gs s' h' (omega arith) all.1 in
        (let m : n + suc (length gs) ≡ suc n + length gs = omega arith in rw m h'', omega arith)

    drain_slot_lem :
        (n : ℕ) (r : SpillRecord) (s : RecordCache)
        → IsShaped cfg s
        → Fits n r
        → IsShaped cfg (drain_slot cfg r s)
          × (held k c (drain_slot cfg r s) ≡ held k c s + weight k c r)
          × ((drain_slot cfg r s).slots ≡ s.slots)
    unfolding drain_slot
    drain_slot_lem n r s h f = elim (Bool-cases (r.zobrist == 0)) [
      | inl e ↦ rw e (h, ground arith, refl)
      | inr e ↦ rw e (
        append_buffer-IsShaped cfg r s h,
        held-append_buffer cfg k c ok r s h f.0,
        append_buffer-slots r s,
      )
    ]

    -- The destructor's first loop moves every slot that is taken to the buffers.
    drain_slots_lem :
        (n : ℕ) (rs : List SpillRecord) (s : RecordCache)
        → IsShaped cfg s
        → All (Fits n) rs
        → IsShaped cfg (drain_slots cfg rs s)
          × (held k c (drain_slots cfg rs s) ≡ held k c s + tally k c rs)
          × ((drain_slots cfg rs s).slots ≡ s.slots)
    unfolding drain_slots tally
    drain_slots_lem n [] s h all = (h, omega arith, refl)
    drain_slots_lem n (r ∷ rs) s h all =
        let (a, b, d) = drain_slot_lem n r s h all.0 in
        let (a', b', d') = drain_slots_lem n rs (drain_slot cfg r s) a all.1 in
        (a', omega arith, d' ∙ d)

    flush_rest_lem :
        (shard : ℕ) (s : RecordCache)
        → IsShaped cfg s
        → shard < 2 ^ cfg.shard_bits
        → IsShaped cfg (flush_rest cfg shard s)
          × (held k c (flush_rest cfg shard s) ≡ held k c s)
          × ((flush_rest cfg shard s).slots ≡ s.slots)
    unfolding flush_rest
    flush_rest_lem shard s h lt = elim (Bool-cases (length (get_or s.buffers shard []) == 0)) [
      | inl e ↦ rw e (h, refl, refl)
      | inr e ↦ rw e (
        flush-IsShaped cfg shard s h,
        held-flush cfg k c shard s h lt,
        flush_buffer-slots shard s,
      )
    ]

    flush_all_lem :
        (n shard : ℕ) (s : RecordCache)
        → IsShaped cfg s
        → shard + n ≡ 2 ^ cfg.shard_bits
        → EmptyBelow shard s
        → IsShaped cfg (flush_all cfg n shard s)
          × (held k c (flush_all cfg n shard s) ≡ held k c s)
          × ((flush_all cfg n shard s).slots ≡ s.slots)
          × EmptyBelow (shard + n) (flush_all cfg n shard s)
    unfolding flush_all
    flush_all_lem zero shard s h e below = (h, refl, refl, λ i lt. below i (omega arith))
    flush_all_lem (suc n) shard s h e below =
        let s' = flush_rest cfg shard s in
        let (h', held', slots') = flush_rest_lem shard s h (omega arith) in
        let (h'', held'', slots'', below'') =
          flush_all_lem n (suc shard) s' h' (omega arith)
            (flush_rest-EmptyBelow shard s h below (omega arith)) in
        (h'', held'' ∙ held', slots'' ∙ slots', λ i lt. below'' i (omega arith))

    -- The destructor writes out all that the cache holds.
    pub destroy_lem :
        (n : ℕ) (s : RecordCache) → IsValid cfg n s → tallies k c (destroy cfg s).files ≡ held k c s
    unfolding destroy held
    destroy_lem n s h =
        let t = drain_slots cfg s.slots s in
        let (a, b, d) = drain_slots_lem n s.slots s h.shaped h.fits in
        let (a', b', d', e') =
          flush_all_lem (2 ^ cfg.shard_bits) 0 t a (omega arith) (λ i lt. elim lt [ ]) in
        let z =
          tallies_of_empty k c (flush_all cfg (2 ^ cfg.shard_bits) 0 t).buffers
            (λ i lt. e' i (omega (arith, a'.buffers))) in
        let u = ap (tally k c) (d' ∙ d) in omega arith

    -- For every key but those of the Zobrist key 0, and for each of the three counters: the spill
    -- files that a worker leaves behind hold exactly the tally of the moves that it was given, if
    -- those are fewer than 2 ^ 32.
    pub destroy-add_all :
        (gs : List Played)
        → length gs < u32
        → All (λ g. g.zobrist < 2 ^ 64) gs
        → tallies k c (destroy cfg (add_all cfg gs (init cfg))).files ≡ tally k c (map record_of gs)
    destroy-add_all gs small all =
        let (h, e) = add_all_lem 0 gs (init cfg) init-IsValid (omega arith) all in
        destroy_lem (0 + length gs) _ h ∙ e ∙ omega (arith, init-held)
