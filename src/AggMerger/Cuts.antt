-- ===== src/AggMerger/Cuts.antt =====
-- agg_merger.cpp, `splitWork`: the ends of the workers' ranges in a file.
use out_of_book.Prelude.{
  drop-drop, ℕ, zero, suc, ◌+◌, ◌-◌, ◌≤◌, ◌<◌, ◌≡◌, ap, ◌∙◌, List, [], ◌∷◌, arith, refl, map,
  length, take, drop, All, All-map, All-take, All-drop, take_none,
}
use mathlib.Core.Path.{subst}
use out_of_book.Spill.{SpillRecord}
use out_of_book.AggMerger.Ranges.{FileRange, lower_bound, ranges}
use out_of_book.AggMerger.Sums.{sums_of, IsAscending}
use out_of_book.AggMerger.Slices.{
  lower_bound-le-length, take-lower_bound, drop-lower_bound, lower_bound_mono, sum_of-slice,
  slice-All,
}
use out_of_book.AggMerger.Shares.{AreRanges, nil, cons, slices}

-- A place in each file from which a worker may go on, with boundaries `bs` left.
pub data AreBegins (bs : List ℕ) : List ℕ → List (List SpillRecord) → Type 0 where
  none_left : AreBegins bs [] []
  begin :
      {x : ℕ} {f : List SpillRecord} {xs : List ℕ} {fs : List (List SpillRecord)}
      → All (λ b. x ≤ lower_bound b f) bs
      → x ≤ length f
      → AreBegins bs xs fs
      → AreBegins bs (x ∷ xs) (f ∷ fs)

-- What lies behind the places.
abbrev pub tails : List ℕ → List (List SpillRecord) → List (List SpillRecord)
tails [] fs = []
tails (x ∷ xs) [] = []
tails (x ∷ xs) (f ∷ fs) = drop x f ∷ tails xs fs

-- The worker up to boundary `b` reads what lies before it, and leaves the rest to the next one.
pub record Cut (b : ℕ) (bs xs : List ℕ) (fs : List (List SpillRecord)) : Type 1 where
  pub held :
      (P : SpillRecord → Type 0)
      → All (All P) (tails xs fs)
      → All (All P) (slices (ranges xs (map (lower_bound b) fs)) fs)
        × All (All P) (tails (map (lower_bound b) fs) fs)
  pub inside : AreRanges (ranges xs (map (lower_bound b) fs)) fs
  pub next : AreBegins bs (map (lower_bound b) fs) fs
  pub before : All (All (λ r. r.zobrist < b)) (slices (ranges xs (map (lower_bound b) fs)) fs)
  pub after : All (All (λ r. b ≤ r.zobrist)) (tails (map (lower_bound b) fs) fs)
  pub sums :
      (w : SpillRecord → ℕ)
      → sums_of w (tails xs fs)
        ≡ sums_of w (slices (ranges xs (map (lower_bound b) fs)) fs)
          + sums_of w (tails (map (lower_bound b) fs) fs)

pub cut :
    (b : ℕ) (bs xs : List ℕ) (fs : List (List SpillRecord))
    → All (λ b'. b ≤ b') bs
    → AreBegins (b ∷ bs) xs fs
    → All IsAscending fs
    → Cut b bs xs fs
unfolding ranges sums_of
cut b bs [] [] le none_left up = record {
  held = λ P h. (tt, tt);
  inside = nil;
  next = none_left;
  before = tt;
  after = tt;
  sums = λ w. omega arith;
}
cut b bs [] (f ∷ fs) le a up = elim a [ ]
cut b bs (x ∷ xs) [] le a up = elim a [ ]
cut b bs (x ∷ xs) (f ∷ fs) le (begin at inside more) up =
    let c = cut b bs xs fs le more up.1 in
    let r : FileRange = record { begin = x; end = lower_bound b f } in
    let rejoin : x + (lower_bound b f - x) ≡ lower_bound b f = omega (arith, at.0) in
    record {
      held = λ P h.
          let (here, there) = c.held P h.1 in
          (
            (All-take P (lower_bound b f - x) (drop x f) h.0, here),
            (
              subst (All P) (drop-drop (lower_bound b f - x) x f ∙ ap (λ n. drop n f) rejoin)
                  (All-drop P (lower_bound b f - x) (drop x f) h.0),
              there,
            ),
          );
      inside = cons at.0 (lower_bound-le-length b f) c.inside;
      next =
          begin
            (All-map (λ b'. b ≤ b') (λ b'. lower_bound b f ≤ lower_bound b' f) bs
              (λ b' l. lower_bound_mono b b' f l) le)
            (lower_bound-le-length b f) c.next;
      before =
          (slice-All (λ r. r.zobrist < b) f x (lower_bound b f) (take-lower_bound b f), c.before);
      after = (drop-lower_bound b f up.0, c.after);
      sums = λ w. omega (arith, sum_of-slice w f r at.0, c.sums w);
    }

-- The last worker reads all that is left.
pub record Last (xs : List ℕ) (fs : List (List SpillRecord)) : Type 0 where
  pub inside : AreRanges (ranges xs (map length fs)) fs
  pub all : slices (ranges xs (map length fs)) fs ≡ tails xs fs

take_whole {ℓ} : {A : Type ℓ} (f : List A) → take (length f) f ≡ f
take_whole [] = refl
take_whole (x ∷ f) = ap (◌∷◌ x) (take_whole f)

take_all {ℓ} : {A : Type ℓ} (n : ℕ) (f : List A) → take (length f - n) (drop n f) ≡ drop n f
take_all zero [] = take_none (0 - 0) [] (omega arith)
take_all zero (x ∷ f) =
    let e : suc (length f) - 0 ≡ suc (length f) = omega arith in rw e (ap (◌∷◌ x) (take_whole f))
take_all (suc n) [] = take_none (0 - suc n) [] (omega arith)
take_all (suc n) (x ∷ f) =
    let e : suc (length f) - suc n ≡ length f - n = omega arith in rw e (take_all n f)

pub last : (xs : List ℕ) (fs : List (List SpillRecord)) → AreBegins [] xs fs → Last xs fs
unfolding ranges
last [] [] none_left = record { inside = nil; all = refl }
last [] (f ∷ fs) a = elim a [ ]
last (x ∷ xs) [] a = elim a [ ]
last (x ∷ xs) (f ∷ fs) (begin at inside more) =
    let l = last xs fs more in
    record { inside = cons inside (omega arith) l.inside; all = λ i. take_all x f i ∷ l.all i }
