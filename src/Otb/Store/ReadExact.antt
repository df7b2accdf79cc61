-- ===== src/Otb/Store/ReadExact.antt =====
-- OtbStore.cpp: `readExact` beside `read_at`, over the pieces that `pread` returns.
use out_of_book.Prelude.{
  ℕ, zero, suc, ◌+◌, ◌-◌, ◌≤◌, ◌<◌, ◌≡◌, List, [], ◌∷◌, ◌++◌, Bool, true, false, ◌==◌, some, length,
  take, drop, min, arith, refl, ap, length-take, length-drop,
}
use native.Mathlib.Nat.{add-zero, suc-add}
use out_of_book.Text.{is_empty}
use out_of_book.Otb.Store.{ok, Pread, interrupted, failed, delivers, read_exact}

take-nil {ℓ} : {A : Type ℓ} (n : ℕ) → take n [] ≡ (let e : List A = [] in e)
take-nil zero = refl
take-nil (suc n) = refl

take-split {ℓ} :
    {A : Type ℓ} (k n : ℕ) (xs : List A) → k ≤ n → take k xs ++ take (n - k) (drop k xs) ≡ take n xs
take-split zero n xs h = ap (λ m. take m xs) (sub-zero-of n)
  where
    sub-zero-of : (m : ℕ) → m - 0 ≡ m
    sub-zero-of m = omega arith
take-split (suc k) zero xs h = absurd (omega arith)
take-split (suc k) (suc n) [] h = take-nil (suc n - suc k)
take-split (suc k) (suc n) (x ∷ xs) h =
    let e : suc n - suc k ≡ n - k = omega arith in
    rw e (ap (◌∷◌ x) (take-split k n xs (omega arith)))

drop-drop {ℓ} : {A : Type ℓ} (m n : ℕ) (xs : List A) → drop n (drop m xs) ≡ drop (m + n) xs
drop-drop zero n xs = ap (λ m. drop m xs) (omega arith)
drop-drop (suc m) zero [] = rw add-zero refl
drop-drop (suc m) (suc n) [] = rw suc-add refl
drop-drop (suc m) n (x ∷ xs) = rw suc-add (drop-drop m n xs)

abbrev pub delivered : Pread → ℕ
delivered (delivers n) = 1
delivered _ = 0

-- The calls that deliver something.
unfoldable pub supply : List Pread → ℕ
supply [] = 0
supply (c ∷ cs) = delivered c + supply cs

unfoldable pub no_failure : List Pread → Bool
no_failure [] = true
no_failure (failed ∷ cs) = false
no_failure (interrupted ∷ cs) = no_failure cs
no_failure (delivers n ∷ cs) = no_failure cs

chunk_length :
    (n bytes offset : ℕ) (file : List ℕ)
    → offset + suc bytes ≤ length file
    → length (take (min (suc n) (suc bytes)) (drop offset file)) ≡ min (suc n) (suc bytes)
chunk_length n bytes offset file h = omega (
  arith,
  length-take {0} (min (suc n) (suc bytes)) (drop offset file),
  length-drop {0} offset file,
)

suc_ne : (n : ℕ) → (suc n == 0) ≡ false
suc_ne n = ground arith

not_empty : (xs : List ℕ) → 0 < length xs → is_empty xs ≡ false
not_empty [] h = elim h [ ]
not_empty (x ∷ xs) h = refl

supply_nil :
    (calls : List Pread) (file : List ℕ) (offset : ℕ)
    → read_exact calls file 0 offset ≡ some (ok [])
unfolding read_exact
supply_nil [] file offset = refl
supply_nil (interrupted ∷ calls) file offset = refl
supply_nil (failed ∷ calls) file offset = refl
supply_nil (delivers n ∷ calls) file offset = refl

-- If no call fails and as many deliver as there are bytes to read, then `readExact` returns exactly
-- the bytes of the range, however they were split and however often the calls were interrupted.
pub read_exact-enough :
    (calls : List Pread) (file : List ℕ) (bytes offset : ℕ)
    → no_failure calls ≡ true
    → bytes ≤ supply calls
    → offset + bytes ≤ length file
    → read_exact calls file bytes offset ≡ some (ok (take bytes (drop offset file)))
unfolding read_exact supply no_failure
read_exact-enough calls file zero offset ok_calls many fits = supply_nil calls file offset
read_exact-enough [] file (suc bytes) offset ok_calls many fits = absurd (omega arith)
read_exact-enough (interrupted ∷ calls) file (suc bytes) offset ok_calls many fits =
    rw (suc_ne bytes) (read_exact-enough calls file (suc bytes) offset ok_calls (omega arith) fits)
read_exact-enough (failed ∷ calls) file (suc bytes) offset ok_calls many fits = absurd (cc)
read_exact-enough (delivers n ∷ calls) file (suc bytes) offset ok_calls many fits =
    let k = min (suc n) (suc bytes) in
    let len = chunk_length n bytes offset file fits in
    let ih =
      read_exact-enough calls file (suc bytes - k) (offset + k) ok_calls (omega arith)
        (omega arith) in
    rw (
      suc_ne bytes,
      not_empty (take k (drop offset file)) (omega arith),
      len,
      ih,
      ← drop-drop offset k file,
      take-split k (suc bytes) (drop offset file) (omega arith),
    )
