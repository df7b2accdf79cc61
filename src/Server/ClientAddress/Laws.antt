-- ===== src/Server/ClientAddress/Laws.antt =====
-- ClientAddress.cpp: what a client can and cannot make of its own address.
use out_of_book.Prelude.{
  ℕ, ◌≤◌, ◌<◌, ◌≡◌, ◌⊎◌, List, [], ◌∷◌, ◌++◌, true, false, not, ◌==◌, if◌then◌else◌, some, length,
  arith, refl, Bool-cases, inl, inr,
}
use out_of_book.Text.{cut, is_empty, all_of}
use out_of_book.Server.ClientAddress.{
  max_address, address_char, plausible_address, after_last_comma, last_forwarded_for, contains,
  resolve,
}

-- A peer that is not trusted is its own client, whatever header it sends.
pub resolve_untrusted :
    (trusted : List (List ℕ)) (remote header : List ℕ)
    → contains trusted remote ≡ false
    → resolve trusted remote header ≡ remote
unfolding resolve
resolve_untrusted trusted remote header h = rw h

-- The address is the peer's own, or a text of 1 to 45 address characters.
pub resolve-plausible :
    (trusted : List (List ℕ)) (remote header : List ℕ)
    → (resolve trusted remote header ≡ remote)
      ⊎ ((0 < length (resolve trusted remote header))
          × (length (resolve trusted remote header) ≤ max_address)
          × (all_of address_char (resolve trusted remote header) ≡ true))
unfolding resolve plausible_address
resolve-plausible trusted remote header = elim (Bool-cases (contains trusted remote)) [
  | inr e ↦ inl (rw e)
  | inl e ↦ rw e (plausible (last_forwarded_for header))
]
  where
    nonempty : (xs : List ℕ) → is_empty xs ≡ false → 0 < length xs
    nonempty [] h = cc
    nonempty (x ∷ xs) h = omega arith

    plausible :
        (f : List ℕ)
        → ((if not (plausible_address f) then remote else f) ≡ remote)
          ⊎ ((0 < length (if not (plausible_address f) then remote else f))
              × (length (if not (plausible_address f) then remote else f) ≤ max_address)
              × (all_of address_char (if not (plausible_address f) then remote else f) ≡ true))
    plausible f = elim (Bool-cases (plausible_address f)) [
      | inr e ↦ inl (rw e)
      | inl e ↦ rw e (inr (nonempty f (ground arith), ground arith, ground arith))
    ]

cut_comma : (s t : List ℕ) → (rest : List ℕ) × ((cut b',' (s ++ (b',' ∷ t))).1 ≡ some rest)
unfolding cut
cut_comma [] t = (t, refl)
cut_comma (c ∷ s) t = elim (Bool-cases (c == b',')) [
  | inl e ↦ (s ++ (b',' ∷ t), rw e)
  | inr e ↦ let (rest, h) = cut_comma s t in (rest, rw e h)
]

after_comma : (s t : List ℕ) → after_last_comma (s ++ (b',' ∷ t)) ≡ after_last_comma t
unfolding after_last_comma
after_comma [] t = refl
after_comma (c ∷ s) t = let (rest, h) = cut_comma s t in ground (arith, after_comma s t)

-- Only what the last proxy appended counts: everything up to a comma, whatever a client put there,
-- makes no difference to the address.
pub resolve_forged :
    (trusted : List (List ℕ)) (remote forged appended : List ℕ)
    → resolve trusted remote (forged ++ (b',' ∷ appended)) ≡ resolve trusted remote appended
unfolding resolve last_forwarded_for
resolve_forged trusted remote forged appended = rw after_comma
