-- ===== src/Server/ClientAddress.antt =====
-- web/server/ClientAddress.{h,cpp} and RateLimitKey.cpp: which address a request is counted under.
use out_of_book.Prelude.{
  ℕ, zero, suc, ◌+◌, ◌-◌, ◌≤◌, ◌<◌, ◌≡◌, ◌∙◌, List, [], ◌∷◌, ◌++◌, Bool, true, false, ◌&&◌, ◌||◌,
  not, ◌==◌, ltb, if◌then◌else◌, Option, none, some, length, get_or, map, replicate, take, drop,
  arith, refl, ap, Bool-cases, Option-cases, inl, inr, ◌⊎◌,
}
use out_of_book.Text.{bytes, bytes_eq, cut, is_empty, is_xdigit, all_of, trim_by}
pub mod Key
pub mod Laws

abbrev pub max_address : ℕ
max_address = 45

abbrev pub address_char : ℕ → Bool
address_char c = is_xdigit c || ((c == b'.') || ((c == b':') || (c == b'%')))

unfoldable pub plausible_address : List ℕ → Bool
plausible_address text =
    if is_empty text || ltb max_address (length text) then false else all_of address_char text

-- `header.substr(header.rfind(',') + 1)`, or the whole header.
unfoldable pub after_last_comma : List ℕ → List ℕ
after_last_comma [] = []
after_last_comma (c ∷ s) =
    let rest = after_last_comma s in
    if c == b',' then rest else elim (cut b',' s).1 [ none ↦ c ∷ s | some _ ↦ rest ]

abbrev pub is_blank : ℕ → Bool
is_blank c = (c == b' ') || (c == 9)

-- `last.back()`, 0 for none
abbrev pub back : List ℕ → ℕ
back s = get_or s (length s - 1) 0

-- "A proxy may bracket an IPv6 literal".
unfoldable pub unbracket : List ℕ → List ℕ
unbracket s =
    if not (ltb (length s) 2) && ((get_or s 0 0 == b'[') && (back s == b']'))
    then take (length s - 2) (drop 1 s)
    else s

unfoldable pub last_forwarded_for : List ℕ → List ℕ
last_forwarded_for header =
    let last = trim_by is_blank (after_last_comma header) in
    if is_empty last then [] else unbracket last

unfoldable pub contains : List (List ℕ) → List ℕ → Bool
contains [] a = false
contains (x ∷ xs) a = bytes_eq x a || contains xs a

-- `Resolver::of`, given the trusted peers, the peer of the connection and the header.
unfoldable pub resolve : List (List ℕ) → List ℕ → List ℕ → List ℕ
resolve trusted remote header =
    let forwarded = last_forwarded_for header in
    if not (contains trusted remote)
    then remote
    else if not (plausible_address forwarded)
    then remote
    else forwarded
