-- ===== src/Otb/Store/Index.antt =====
-- OtbStore.cpp: `loadIndex`, chunk by chunk, on an index as generate_otb.cpp writes it.
use out_of_book.Prelude.{
  All-take, All-drop, ℕ, zero, suc, ◌+◌, ◌-◌, ◌*◌, ◌%◌, ◌≤◌, ◌<◌, ◌≡◌, ◌∙◌, List, [], ◌∷◌, ◌++◌,
  ltb, length, take, drop, arith, refl, ap, sym, All, Bool-cases, inl, inr, length-append,
  take_exact, length-take, length-drop, take-append-drop, min,
}
use mathlib.Core.List.{append_assoc}
use out_of_book.Spill.{u64}
use out_of_book.Otb.Bytes.{to_le}
use out_of_book.Otb.Format.{IndexEntry, put_index_entry, put_index, get_index, entry_size}
use out_of_book.Otb.RoundTrip.{IndexFits, get_index-put_index, length-put_index}
use out_of_book.Otb.Store.{ok, read_at, append_entries, load_loop}
use out_of_book.Otb.Store.Blob.{read_at-append}

min_zero : (k : ℕ) → min 0 k ≡ 0
min_zero k = omega arith

min_suc : (c k : ℕ) → min (suc c) (suc k) ≡ suc (min c k)
min_suc c k = omega arith

zero_plus : (m : ℕ) → zero + m ≡ m
zero_plus m = omega arith

suc_add : (n m : ℕ) → suc n + m ≡ suc (n + m)
suc_add n m = omega arith

module _ {ℓ} {A : Type ℓ} where
  take_nil : (n : ℕ) → take {A = A} n [] ≡ []
  take_nil zero = refl
  take_nil (suc n) = refl

  drop_nil : (n : ℕ) → drop {A = A} n [] ≡ []
  drop_nil zero = refl
  drop_nil (suc n) = refl

  take-min : (c : ℕ) (xs : List A) → take (min c (length xs)) xs ≡ take c xs
  take-min zero xs = ap (λ n. take n xs) (min_zero (length xs))
  take-min (suc c) [] = take_nil (min (suc c) 0)
  take-min (suc c) (x ∷ xs) =
      ap (λ n. take n (x ∷ xs)) (min_suc c (length xs)) ∙ ap (◌∷◌ x) (take-min c xs)

  drop-drop : (n m : ℕ) (xs : List A) → drop m (drop n xs) ≡ drop (n + m) xs
  drop-drop zero m xs = ap (λ n. drop n xs) (sym (zero_plus m))
  drop-drop (suc n) m [] = drop_nil m ∙ sym (drop_nil (suc n + m))
  drop-drop (suc n) m (x ∷ xs) = drop-drop n m xs ∙ ap (λ k. drop k (x ∷ xs)) (sym (suc_add n m))

  drop-all : (n : ℕ) (xs : List A) → length xs ≤ n → drop n xs ≡ []
  drop-all zero [] h = refl
  drop-all zero (x ∷ xs) h = absurd (omega arith)
  drop-all (suc n) [] h = refl
  drop-all (suc n) (x ∷ xs) h = drop-all n xs (omega arith)

put_index-append :
    (xs ys : List IndexEntry) (rest : List ℕ)
    → put_index (xs ++ ys) rest ≡ put_index xs [] ++ put_index ys rest
unfolding put_index put_index_entry to_le
put_index-append [] ys rest = refl
put_index-append (x ∷ xs) ys rest = rw (put_index-append xs ys rest)

-- The index splits at any of its entries.
put_index-split :
    (n : ℕ) (es : List IndexEntry)
    → put_index es [] ≡ put_index (take n es) [] ++ put_index (drop n es) []
put_index-split n es =
    ap (λ xs. put_index xs []) (sym (take-append-drop n es))
    ∙ put_index-append (take n es) (drop n es) []

length-part :
    (n : ℕ) (es : List IndexEntry) → n ≤ length es → length (put_index (take n es) []) ≡ n * 16
length-part n es h = omega (arith, length-put_index (take n es) [], length-take {0} n es)

module _ (pre : List ℕ) (es : List IndexEntry) (fits : All IndexFits es)
    (small : length pre + length es * 16 < u64) where
  layout :
      (start : ℕ)
      → pre ++ put_index es []
        ≡ (pre ++ put_index (take start es) []) ++ put_index (drop start es) []
  layout start =
      ap (λ bs. pre ++ bs) (put_index-split start es)
      ∙ sym (append_assoc pre (put_index (take start es) []) (put_index (drop start es) []))

  offset_lem :
      (start : ℕ)
      → start ≤ length es
      → (length pre + start * entry_size) % u64 ≡ length (pre ++ put_index (take start es) [])
  offset_lem start h =
      omega (arith, length-append pre (put_index (take start es) []), length-part start es h)

  -- The bytes of the `m` entries from `start` on.
  pub read_chunk :
      (start m : ℕ)
      → start + m ≤ length es
      → read_at (pre ++ put_index es []) (m * entry_size) ((length pre + start * entry_size) % u64)
        ≡ ok (put_index (take m (drop start es)) [])
  read_chunk start m h =
      let todo = drop start es in
      ap (λ f. read_at f (m * entry_size) ((length pre + start * entry_size) % u64)) (layout start)
      ∙ read_at-append (pre ++ put_index (take start es) []) (put_index todo []) (m * entry_size)
          ((length pre + start * entry_size) % u64) (offset_lem start (omega arith))
          (omega (arith, length-put_index todo [], length-drop {0} start es))
      ∙ ap (λ bs. ok (take (m * entry_size) bs)) (put_index-split m todo)
      ∙ ap ok (
          take_exact (m * entry_size) (put_index (take m todo) []) (put_index (drop m todo) [])
            (length-part m todo (omega (arith, length-drop {0} start es))))

  length-chunk : (start m : ℕ) → start + m ≤ length es → length (take m (drop start es)) ≡ m
  length-chunk start m h =
      omega (arith, length-take {0} m (drop start es), length-drop {0} start es)

  chunk_of :
      (start m : ℕ)
      → start + m ≤ length es
      → (get_index m (put_index (take m (drop start es)) [])).0 ≡ take m (drop start es)
  chunk_of start m h =
      let todo = take m (drop start es) in
      let fits' = All-take IndexFits m (drop start es) (All-drop IndexFits start es fits) in
      ap (λ n. (get_index n (put_index todo [])).0) (sym (length-chunk start m h))
      ∙ ap (λ p. p.0) (get_index-put_index todo [] fits')

  -- A chunk and what is behind it.
  join_chunks :
      (start chunk : ℕ)
      → take (min chunk (length es - start)) (drop start es) ++ drop (start + chunk) es
        ≡ drop start es
  join_chunks start chunk =
      let todo = drop start es in
      ap (λ k. take (min chunk k) todo ++ drop (start + chunk) es) (sym (length-drop start es))
      ∙ ap (λ xs. xs ++ drop (start + chunk) es) (take-min chunk todo)
      ∙ ap (λ xs. take chunk todo ++ xs) (sym (drop-drop start chunk es))
      ∙ take-append-drop chunk todo

  pub load_loop_lem :
      (fuel chunk start : ℕ)
      → 0 < chunk
      → length es < start + fuel
      → load_loop fuel chunk (pre ++ put_index es []) (length es) (length pre) start
        ≡ ok (drop start es)
  unfolding load_loop append_entries
  load_loop_lem zero chunk start c h = ap ok (sym (drop-all start es (omega arith)))
  load_loop_lem (suc fuel) chunk start c h = elim (Bool-cases (ltb start (length es))) [
    | inr past ↦ rw past (ap ok (sym (drop-all start es (ground arith))))
    | inl more ↦
        let m = min chunk (length es - start) in
        let inside : start + m ≤ length es = ground arith in
        rw
          (
            more,
            read_chunk start m inside,
            load_loop_lem fuel chunk (start + chunk) c (omega arith),
            chunk_of start m inside,
          )
          (ap ok (join_chunks start chunk))
  ]
