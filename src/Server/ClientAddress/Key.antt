-- ===== src/Server/ClientAddress/Key.antt =====
-- web/server/RateLimitKey.cpp: the rate limiter's key for an address, a /64 prefix for IPv6. What
-- `inet_pton` reads as 16 bytes and what `inet_ntop` prints are parameters.
use out_of_book.Prelude.{
  ℕ, ◌≡◌, List, ◌++◌, Bool, true, ◌&&◌, ◌||◌, ◌==◌, ltb, if◌then◌else◌, Option, none, some, length,
  get_or, replicate, take, arith, refl,
}
use out_of_book.Text.{bytes, is_empty, all_of}
use out_of_book.Server.ClientAddress.{max_address}

-- The bytes 0 to 9 are zero, and 10 and 11 are 0xff.
unfoldable pub is_v4_mapped : List ℕ → Bool
is_v4_mapped addr =
    all_of (λ b. b == 0) (take 10 addr)
    && ((get_or addr 10 0 == 0xff) && (get_or addr 11 0 == 0xff))

-- `memset(addr.s6_addr + 8, 0, 8)`
unfoldable pub mask : List ℕ → List ℕ
mask addr = take 8 addr ++ replicate 8 0

module _ (pton : List ℕ → Option (List ℕ)) (ntop : List ℕ → Option (List ℕ)) where
  unfoldable pub prefix_key : List ℕ → Option (List ℕ) → List ℕ
  prefix_key address none = address
  prefix_key address (some printed) = printed ++ bytes "/64"

  unfoldable pub key_of : List ℕ → Option (List ℕ) → List ℕ
  key_of address none = address
  key_of address (some addr) =
      if is_v4_mapped addr then address else prefix_key address (ntop (mask addr))

  unfoldable pub group : List ℕ → List ℕ
  group address =
      if is_empty address || ltb max_address (length address)
      then address
      else key_of address (pton address)

  -- An IPv4 address, plain or mapped into IPv6, is its own key: no two of them share one.
  pub group_v4 :
      (a : List ℕ) → ((x : List ℕ) → pton a ≡ some x → is_v4_mapped x ≡ true) → group a ≡ a
  unfolding group key_of
  group_v4 a h = v4 (pton a) refl
    where
      v4 :
          (o : Option (List ℕ))
          → pton a ≡ o
          → (if is_empty a || ltb max_address (length a) then a else key_of a (pton a)) ≡ a
      v4 none e = ground arith
      v4 (some x) e = ground (arith, h x)
