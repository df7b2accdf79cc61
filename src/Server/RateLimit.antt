-- ===== src/Server/RateLimit.antt =====
-- web/server/RateLimit.{h,cpp}: the token buckets. A time is a count of clock ticks; a `double` and
-- what is computed with it is a parameter.
use out_of_book.Prelude.{
  ℕ, zero, suc, ◌+◌, ◌-◌, ◌%◌, ◌≤◌, ◌<◌, ◌≡◌, List, [], ◌∷◌, Bool, true, false, not, ltb, leb,
  if◌then◌else◌, Option, none, some, length, get_or, map,
}
use out_of_book.Spill.{u64}
use out_of_book.Text.{bytes_eq}
pub mod Table
pub mod Check

-- The operations on `double` that `check` uses, and `duration<double>(now - seen).count()`.
pub record Double : Type 1 where
  pub Real : Type 0
  pub one : Real
  pub zero_point_zero : Real
  pub add : Real → Real → Real
  pub sub : Real → Real → Real
  pub mul : Real → Real → Real
  pub div : Real → Real → Real
  pub min : Real → Real → Real
  pub at_least : Real → Real → Bool
  pub seconds_between : ℕ → ℕ → Real

module _ (d : Double) where
  open d use {Real, one, zero_point_zero, add, sub, mul, div, at_least, seconds_between}

  pub record Config : Type 0 where
    pub rate_per_second : Real
    pub burst : Real
    pub idle_timeout : ℕ
    pub sweep_interval : ℕ
    pub max_clients : ℕ

  pub record Bucket : Type 0 where
    pub tokens : Real
    pub seen : ℕ

  pub record Decision : Type 0 where
    pub allowed : Bool
    pub retry_after_seconds : Real

  -- `buckets_`, `lastSweep_` and `refused_`. The order of the table says nothing.
  pub record RateLimiter : Type 0 where
    pub buckets : List (List ℕ × Bucket)
    pub last_sweep : ℕ
    pub refused : ℕ

  unfoldable pub init : ℕ → RateLimiter
  init now = record { buckets = []; last_sweep = now; refused = 0 }

  unfoldable pub find : List ℕ → List (List ℕ × Bucket) → Option Bucket
  find client [] = none
  find client ((k, b) ∷ t) = if bytes_eq k client then some b else find client t

  -- A write through the iterator that `find` returned.
  unfoldable pub write : List ℕ → Bucket → List (List ℕ × Bucket) → List (List ℕ × Bucket)
  write client b [] = []
  write client b ((k, b') ∷ t) =
      if bytes_eq k client then (k, b) ∷ t else (k, b') ∷ write client b t

  -- The loops that erase: what stays is what the test keeps.
  unfoldable pub keep : (Bucket → Bool) → List (List ℕ × Bucket) → List (List ℕ × Bucket)
  keep p [] = []
  keep p ((k, b) ∷ t) = if p b then (k, b) ∷ keep p t else keep p t

  unfoldable pub insert_time : ℕ → List ℕ → List ℕ
  insert_time x [] = x ∷ []
  insert_time x (y ∷ ys) = if leb x y then x ∷ y ∷ ys else y ∷ insert_time x ys

  unfoldable pub sort_times : List ℕ → List ℕ
  sort_times [] = []
  sort_times (x ∷ xs) = insert_time x (sort_times xs)

  -- `std::nth_element` puts the element there that a sort would.
  unfoldable pub evict_oldest : ℕ → RateLimiter → RateLimiter
  evict_oldest target s =
      let seen = map (λ e. e.1.seen) s.buckets in
      let threshold = get_or (sort_times seen) (length seen - target) 0 in
      record s { buckets = keep (λ b. not (ltb b.seen threshold)) s.buckets }

  module _ (cfg : Config) where
    -- `now - seen > idleTimeout` erases.
    unfoldable pub drop_idle : ℕ → RateLimiter → RateLimiter
    drop_idle now s = record {
      buckets = keep (λ b. not (ltb (b.seen + cfg.idle_timeout) now)) s.buckets;
      last_sweep = now;
      refused = s.refused;
    }

    unfoldable pub sweep : ℕ → RateLimiter → RateLimiter
    sweep now s =
        let s' = drop_idle now s in
        if ltb cfg.max_clients (length s'.buckets) then evict_oldest cfg.max_clients s' else s'

    abbrev pub allow : Decision
    allow = record { allowed = true; retry_after_seconds = zero_point_zero }

    unfoldable pub admit : ℕ → List ℕ → RateLimiter → RateLimiter × Decision
    admit now client s =
        let fresh : Bucket = record { tokens = sub cfg.burst one; seen = now } in
        (record s { buckets = (client, fresh) ∷ s.buckets }, allow)

    -- The branch for a client that is not in the table.
    unfoldable pub first_seen : ℕ → List ℕ → RateLimiter → RateLimiter × Decision
    first_seen now client s =
        let s' = sweep now s in
        if leb cfg.max_clients (length s.buckets)
        then (if leb cfg.max_clients (length s'.buckets) then (s', allow) else admit now client s')
        else admit now client s

    abbrev pub refill : ℕ → Bucket → Real
    refill now b =
        Double.min d cfg.burst (add b.tokens (mul (seconds_between now b.seen) cfg.rate_per_second))

    -- The branch for a client that is.
    unfoldable pub spend : ℕ → List ℕ → Bucket → RateLimiter → RateLimiter × Decision
    spend now client b s =
        let tokens = refill now b in
        if at_least tokens one
        then (
          record s {
            buckets = write client (record { tokens = sub tokens one; seen = now }) s.buckets;
          },
          allow,
        )
        else (
          record s {
            buckets = write client (record { tokens = tokens; seen = now }) s.buckets;
            refused = (s.refused + 1) % u64;
          },
          record {
            allowed = false;
            retry_after_seconds = div (sub one tokens) cfg.rate_per_second;
          },
        )

    unfoldable pub decide : ℕ → List ℕ → Option Bucket → RateLimiter → RateLimiter × Decision
    decide now client none s = first_seen now client s
    decide now client (some b) s = spend now client b s

    unfoldable pub due : ℕ → RateLimiter → RateLimiter
    due now s = if leb (s.last_sweep + cfg.sweep_interval) now then sweep now s else s

    unfoldable pub check : ℕ → List ℕ → RateLimiter → RateLimiter × Decision
    check now client s = let s' = due now s in decide now client (find client s'.buckets) s'
