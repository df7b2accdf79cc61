-- ===== src/Spill/RecordCache.antt =====
-- apps/db_to_spills/RecordCache.{h,cpp}: the worker's open-addressing cache of `SpillRecord`s, its
-- write buffers, one for each shard, and the spill files behind them. The program opens
-- the files to append; here they are new.
use out_of_book.Prelude.{
  ℕ, zero, suc, ◌+◌, ◌-◌, ◌*◌, ◌/◌, ◌%◌, ◌^◌, ◌≡◌, List, [], ◌∷◌, ◌++◌, Bool, true, false, ◌&&◌,
  ◌==◌, ltb, if◌then◌else◌, get_or, set, length, replicate, refl,
}
use out_of_book.Spill.{SpillRecord, u32}
pub mod Tally
pub mod Totals

-- `SLOTS`, `MAX_RUN`, `SHARD_BITS` and the records that `WRITE_BUFFER_SIZE` bytes hold.
pub record Config : Type 0 where
  pub slot_bits : ℕ
  pub max_run : ℕ
  pub shard_bits : ℕ
  pub buffer_records : ℕ

-- 67108864 slots, runs of 16, 64 shards, 999984 bytes at 24 bytes a record
abbrev pub source_config : Config
source_config = record { slot_bits = 26; max_run = 16; shard_bits = 6; buffer_records = 41666 }

pub data GameResult : Type 0 where
  white_win draw black_win : GameResult

-- `map`, the filled part of each write buffer, the records written to each spill file, and the
-- metric `BYTES_WRITTEN`.
pub record RecordCache : Type 0 where
  pub slots : List SpillRecord
  pub buffers : List (List SpillRecord)
  pub files : List (List SpillRecord)
  pub bytes_written : ℕ

abbrev pub empty_slot : SpillRecord
empty_slot = record { zobrist = 0; move = 0; bucket = 0; count = 0; white_wins = 0; draws = 0 }

abbrev pub is_win : GameResult → ℕ
is_win GameResult.white_win = 1
is_win _ = 0

abbrev pub is_draw : GameResult → ℕ
is_draw GameResult.draw = 1
is_draw _ = 0

abbrev pub incoming_of : ℕ → ℕ → ℕ → GameResult → SpillRecord
incoming_of zobrist move bucket result = record {
  zobrist = zobrist;
  move = move;
  bucket = bucket;
  count = 1;
  white_wins = is_win result;
  draws = is_draw result;
}

-- "identical key"
abbrev pub same_key : SpillRecord → SpillRecord → Bool
same_key slot incoming =
    (slot.zobrist == incoming.zobrist)
    && ((slot.move == incoming.move) && (slot.bucket == incoming.bucket))

-- `slot.count++; slot.white_wins += ...; slot.draws += ...`
abbrev pub bump : SpillRecord → SpillRecord → SpillRecord
bump slot incoming = record slot {
  count = (slot.count + 1) % u32;
  white_wins = (slot.white_wins + incoming.white_wins) % u32;
  draws = (slot.draws + incoming.draws) % u32;
}

-- The probe loop either writes a slot and returns, or ends with `smallestPos`.
pub data Probe : Type 0 where
  stored : ℕ → SpillRecord → Probe
  full : ℕ → Probe

module _ (cfg : Config) where
  -- `zobrist & (SLOTS - 1)`
  abbrev pub home_of : ℕ → ℕ
  home_of zobrist = zobrist % 2 ^ cfg.slot_bits

  -- `zobrist >> (64 - SHARD_BITS)` of a 64-bit key
  abbrev pub shard_of : ℕ → ℕ
  shard_of zobrist = zobrist / 2 ^ (64 - cfg.shard_bits)

  unfoldable pub init : RecordCache
  init = record {
    slots = replicate (2 ^ cfg.slot_bits) empty_slot;
    buffers = replicate (2 ^ cfg.shard_bits) [];
    files = replicate (2 ^ cfg.shard_bits) [];
    bytes_written = 0;
  }

  -- `for (probe = 0; probe < MAX_RUN; probe++)`, with the rounds left
  unfoldable pub probe_loop : ℕ → List SpillRecord → SpillRecord → ℕ → ℕ → ℕ → Probe
  probe_loop zero slots incoming pos smallest_pos smallest_count = full smallest_pos
  probe_loop (suc n) slots incoming pos smallest_pos smallest_count =
      let slot = get_or slots pos empty_slot in
      let least = ltb slot.count smallest_count in
      let rest =
        probe_loop n slots incoming ((pos + 1) % 2 ^ cfg.slot_bits)
          (if least then pos else smallest_pos) (if least then slot.count else smallest_count) in
      if slot.zobrist == 0
      then stored pos incoming
      else if same_key slot incoming
      then stored pos (bump slot incoming)
      else rest

  unfoldable pub flush_buffer : ℕ → RecordCache → RecordCache
  flush_buffer shard c =
      let pending = get_or c.buffers shard [] in
      record c {
        bytes_written = c.bytes_written + 24 * length pending;
        files = set c.files shard (get_or c.files shard [] ++ pending);
        buffers = set c.buffers shard [];
      }

  -- The `memcpy` to the end of the shard's buffer, which moves `writePos[shard]` on.
  unfoldable pub copy_record : SpillRecord → RecordCache → RecordCache
  copy_record r c =
      let shard = shard_of r.zobrist in
      record c { buffers = set c.buffers shard (get_or c.buffers shard [] ++ r ∷ []) }

  -- `if (writePos[shard] == WRITE_BUFFER_SIZE) flushBuffer(shard)`
  unfoldable pub flush_full : ℕ → RecordCache → RecordCache
  flush_full shard c =
      if length (get_or c.buffers shard []) == cfg.buffer_records then flush_buffer shard c else c

  unfoldable pub append_buffer : SpillRecord → RecordCache → RecordCache
  append_buffer r c = flush_full (shard_of r.zobrist) (copy_record r c)

  -- "Evict least-frequent entry in the run."
  unfoldable pub evict : ℕ → SpillRecord → RecordCache → RecordCache
  evict smallest_pos incoming c =
      append_buffer (get_or c.slots smallest_pos empty_slot)
        (record c { slots = set c.slots smallest_pos incoming })

  unfoldable pub settle : Probe → SpillRecord → RecordCache → RecordCache
  settle (stored pos slot) incoming c = record c { slots = set c.slots pos slot }
  settle (full smallest_pos) incoming c = evict smallest_pos incoming c

  unfoldable pub add : ℕ → ℕ → ℕ → GameResult → RecordCache → RecordCache
  add zobrist move bucket result c =
      let incoming = incoming_of zobrist move bucket result in
      let pos = home_of zobrist in
      settle (probe_loop cfg.max_run c.slots incoming pos pos 0xffff_ffff) incoming c

  -- The body of the destructor's first loop: an empty slot is skipped.
  unfoldable pub drain_slot : SpillRecord → RecordCache → RecordCache
  drain_slot r c = if r.zobrist == 0 then c else append_buffer r c

  -- That loop, over `map[i]`.
  unfoldable pub drain_slots : List SpillRecord → RecordCache → RecordCache
  drain_slots [] c = c
  drain_slots (r ∷ rs) c = drain_slots rs (drain_slot r c)

  unfoldable pub flush_rest : ℕ → RecordCache → RecordCache
  flush_rest shard c = if length (get_or c.buffers shard []) == 0 then c else flush_buffer shard c

  -- Its second loop, over the shards left.
  unfoldable pub flush_all : ℕ → ℕ → RecordCache → RecordCache
  flush_all zero shard c = c
  flush_all (suc n) shard c = flush_all n (suc shard) (flush_rest shard c)

  -- `~RecordCache()`: what it leaves behind are the files.
  unfoldable pub destroy : RecordCache → RecordCache
  destroy c = flush_all (2 ^ cfg.shard_bits) 0 (drain_slots c.slots c)

-- One call of `add`, as db_to_spills.cpp makes it for every move of every game.
pub record Played : Type 0 where
  pub zobrist : ℕ
  pub move : ℕ
  pub bucket : ℕ
  pub result : GameResult

abbrev pub record_of : Played → SpillRecord
record_of g = incoming_of g.zobrist g.move g.bucket g.result

unfoldable pub add_all : Config → List Played → RecordCache → RecordCache
add_all cfg [] c = c
add_all cfg (g ∷ gs) c = add_all cfg gs (add cfg g.zobrist g.move g.bucket g.result c)
