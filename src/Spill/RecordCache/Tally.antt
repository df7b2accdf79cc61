-- ===== src/Spill/RecordCache/Tally.antt =====
-- RecordCache.cpp: lemmas on what a cache and its files hold of the moves that `add` was told.
use out_of_book.Prelude.{
  ℕ, zero, suc, ◌+◌, ◌%◌, ◌^◌, ◌≤◌, ◌<◌, ◌≡◌, ◌∙◌, ◌≢◌, List, [], ◌∷◌, ◌++◌, true, ◌==◌, ltb,
  if◌then◌else◌, get_or, set, length, All, All-get_or, length-set, arith, mod_pow-lt, shr-lt,
  Bool-cases, inl, inr,
}
use out_of_book.Spill.{SpillRecord, Key, Counter, weight, tally, tallies, tally-append, u32}
use out_of_book.Spill.RecordCache.{
  RecordCache, Config, Probe, stored, full, empty_slot, same_key, bump, shard_of, probe_loop,
  flush_buffer, copy_record, flush_full, append_buffer, evict,
}

pub tally-set :
    (k : Key) (c : Counter) (xs : List SpillRecord) (i : ℕ) (v d : SpillRecord)
    → i < length xs
    → tally k c (set xs i v) + weight k c (get_or xs i d) ≡ tally k c xs + weight k c v
unfolding tally
tally-set k c [] i v d h = absurd (omega arith)
tally-set k c (x ∷ xs) zero v d h = omega arith
tally-set k c (x ∷ xs) (suc i) v d h = omega (arith, tally-set k c xs i v d (omega arith))

pub tallies-set :
    (k : Key) (c : Counter) (xss : List (List SpillRecord)) (i : ℕ) (v : List SpillRecord)
    → i < length xss
    → tallies k c (set xss i v) + tally k c (get_or xss i []) ≡ tallies k c xss + tally k c v
unfolding tallies
tallies-set k c [] i v h = absurd (omega arith)
tallies-set k c (x ∷ xs) zero v h = omega arith
tallies-set k c (x ∷ xs) (suc i) v h = omega (arith, tallies-set k c xs i v (omega arith))

-- What the cache holds of a key, wherever it lies.
unfoldable pub held : Key → Counter → RecordCache → ℕ
held k c s = tally k c s.slots + tallies k c s.buffers + tallies k c s.files

-- The constants make sense: a shard number is the top bits of a 64-bit key.
pub record IsConfig (cfg : Config) : Type 0 where
  pub shards : cfg.shard_bits ≤ 64

pub record IsShaped (cfg : Config) (s : RecordCache) : Type 0 where
  pub slots : length s.slots ≡ 2 ^ cfg.slot_bits
  pub buffers : length s.buffers ≡ 2 ^ cfg.shard_bits
  pub files : length s.files ≡ 2 ^ cfg.shard_bits

-- A record of at most `n` games, under a 64-bit key.
abbrev pub Fits : ℕ → SpillRecord → Type 0
Fits n r = (r.zobrist < 2 ^ 64) × (r.count ≤ n) × (r.white_wins ≤ n) × (r.draws ≤ n)

module _ (cfg : Config) where
  pub flush-IsShaped :
      (shard : ℕ) (s : RecordCache) → IsShaped cfg s → IsShaped cfg (flush_buffer cfg shard s)
  unfolding flush_buffer
  flush-IsShaped shard s h = record {
    slots = h.slots;
    buffers = omega (arith, h.buffers, length-set s.buffers shard []);
    files = omega (arith, h.files, length-set {0} s.files shard);
  }

  copy-IsShaped :
      (r : SpillRecord) (s : RecordCache) → IsShaped cfg s → IsShaped cfg (copy_record cfg r s)
  unfolding copy_record
  copy-IsShaped r s h =
      let shard = shard_of cfg r.zobrist in
      record {
        slots = h.slots;
        buffers =
            omega
              (arith, h.buffers, length-set s.buffers shard (get_or s.buffers shard [] ++ r ∷ []));
        files = h.files;
      }

  pub append_buffer-IsShaped :
      (r : SpillRecord) (s : RecordCache) → IsShaped cfg s → IsShaped cfg (append_buffer cfg r s)
  unfolding append_buffer flush_full
  append_buffer-IsShaped r s h =
      let t = copy_record cfg r s in
      let ht = copy-IsShaped r s h in
      elim (Bool-cases
        (length (get_or t.buffers (shard_of cfg r.zobrist) []) == cfg.buffer_records)) [
          | inl e ↦ rw e (flush-IsShaped (shard_of cfg r.zobrist) t ht)
          | inr e ↦ rw e ht
        ]

  pub set-IsShaped :
      (p : ℕ) (r : SpillRecord) (s : RecordCache)
      → IsShaped cfg s
      → IsShaped cfg (record s { slots = set s.slots p r })
  set-IsShaped p r s h = record {
    slots = omega (arith, h.slots, length-set s.slots p r);
    buffers = h.buffers;
    files = h.files;
  }

  pub evict-IsShaped :
      (p : ℕ) (r : SpillRecord) (s : RecordCache) → IsShaped cfg s → IsShaped cfg (evict cfg p r s)
  unfolding evict
  evict-IsShaped p r s h =
      append_buffer-IsShaped (get_or s.slots p empty_slot) (record s { slots = set s.slots p r })
        (set-IsShaped p r s h)

  module _ (k : Key) (c : Counter) where
    pub held-flush :
        (shard : ℕ) (s : RecordCache)
        → IsShaped cfg s
        → shard < 2 ^ cfg.shard_bits
        → held k c (flush_buffer cfg shard s) ≡ held k c s
    unfolding flush_buffer held tally
    held-flush shard s h lt = omega (
      arith,
      h.buffers,
      h.files,
      tallies-set k c s.buffers shard [],
      tallies-set k c s.files shard (get_or s.files shard [] ++ get_or s.buffers shard []),
      tally-append k c (get_or s.files shard []) (get_or s.buffers shard []),
    )

    held-copy :
        (r : SpillRecord) (s : RecordCache)
        → IsShaped cfg s
        → shard_of cfg r.zobrist < 2 ^ cfg.shard_bits
        → held k c (copy_record cfg r s) ≡ held k c s + weight k c r
    unfolding copy_record held tally
    held-copy r s h lt =
        let shard = shard_of cfg r.zobrist in
        omega (
          arith,
          h.buffers,
          tallies-set k c s.buffers shard (get_or s.buffers shard [] ++ r ∷ []),
          tally-append k c (get_or s.buffers shard []) (r ∷ []),
        )

    module _ (ok : IsConfig cfg) where
      pub held-append_buffer :
          (r : SpillRecord) (s : RecordCache)
          → IsShaped cfg s
          → r.zobrist < 2 ^ 64
          → held k c (append_buffer cfg r s) ≡ held k c s + weight k c r
      unfolding append_buffer flush_full
      held-append_buffer r s h lt =
          let shard = shard_of cfg r.zobrist in
          let t = copy_record cfg r s in
          let ht = copy-IsShaped r s h in
          let small = shr-lt r.zobrist 64 cfg.shard_bits ok.shards lt in
          elim (Bool-cases (length (get_or t.buffers shard []) == cfg.buffer_records)) [
            | inl e ↦ rw e (held-flush shard t ht small ∙ held-copy r s h small)
            | inr e ↦ rw e (held-copy r s h small)
          ]

      pub held-evict :
          (p : ℕ) (r : SpillRecord) (s : RecordCache)
          → IsShaped cfg s
          → p < 2 ^ cfg.slot_bits
          → (get_or s.slots p empty_slot).zobrist < 2 ^ 64
          → held k c (evict cfg p r s) ≡ held k c s + weight k c r
      unfolding evict held
      held-evict p r s h lt lt' =
          let s' = record s { slots = set s.slots p r } in
          omega (
            arith,
            h.slots,
            tally-set k c s.slots p r empty_slot,
            held-append_buffer (get_or s.slots p empty_slot) s' (set-IsShaped p r s h) lt',
          )

    -- What the probe loop decides adds the incoming record to the tally, one slot for another.
    abbrev pub Settles : ℕ → List SpillRecord → SpillRecord → Probe → Type 0
    Settles n slots r (stored p v) =
        (p < 2 ^ cfg.slot_bits)
        × (weight k c v ≡ weight k c (get_or slots p empty_slot) + weight k c r)
        × Fits (suc n) v
    Settles n slots r (full p) = p < 2 ^ cfg.slot_bits

    bump-weight :
        (n : ℕ) (slot r : SpillRecord)
        → suc n < u32
        → Fits n slot
        → Fits 1 r
        → r.count ≡ 1
        → same_key slot r ≡ true
        → (weight k c (bump slot r) ≡ weight k c slot + weight k c r) × Fits (suc n) (bump slot r)
    bump-weight n slot r small h h1 one same = ground arith

    pub probe_loop-Settles :
        (rounds n : ℕ) (slots : List SpillRecord) (r : SpillRecord) (pos p least : ℕ)
        → k.zobrist ≢ 0
        → suc n < u32
        → All (Fits n) slots
        → Fits 1 r
        → r.count ≡ 1
        → pos < 2 ^ cfg.slot_bits
        → p < 2 ^ cfg.slot_bits
        → Settles n slots r (probe_loop cfg rounds slots r pos p least)
    unfolding probe_loop
    probe_loop-Settles zero n slots r pos p least nz small all h1 one lt lt' = lt'
    probe_loop-Settles (suc rounds) n slots r pos p least nz small all h1 one lt lt' =
        let slot = get_or slots pos empty_slot in
        let fits = All-get_or (Fits n) slots pos empty_slot all (omega arith) in
        elim (Bool-cases (slot.zobrist == 0)) [
          | inl e ↦ rw e (lt, ground arith, omega arith)
          | inr e ↦ rw e (elim (Bool-cases (same_key slot r)) [
            | inl same ↦
                rw same (let b = bump-weight n slot r small fits h1 one same in (lt, b.0, b.1))
            | inr other ↦ rw other (
                probe_loop-Settles rounds n slots r ((pos + 1) % 2 ^ cfg.slot_bits)
                  (if ltb slot.count least then pos else p)
                  (if ltb slot.count least then slot.count else least) nz small all h1 one
                  (mod_pow-lt (pos + 1) cfg.slot_bits) (ground arith))
          ])
        ]
