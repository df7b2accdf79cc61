-- ===== src/AggMerger/Totals.antt =====
-- agg_merger.cpp: the whole merge, from the ranges of the workers to the joined output.
use out_of_book.Prelude.{
  ℕ, zero, suc, ◌+◌, ◌*◌, ◌/◌, ◌≤◌, ◌<◌, ◌≡◌, ap, sym, ◌∙◌, List, [], ◌∷◌, ◌++◌, some, true, false,
  ◌==◌, ltb, if◌then◌else◌, arith, refl, map, inl, inr, Bool-cases, length, get_elem?, All,
  All-append, drop-get_elem?, All-get_elem?,
}
use mathlib.Core.Path.{subst}
use mathlib.Core.List.{append-nil}
use mathlib.Core.Option.{some_inj}
use out_of_book.Spill.{SpillRecord, Key, Counter, weight, tally, tallies, tally-append, u32, u64}
use out_of_book.AggSpills.Order.{IsSorted}
use out_of_book.AggMerger.Ranges.{
  FileRange, ok, lower_bound, boundary_at, boundaries, ranges, split_loop, split_work,
}
use out_of_book.AggMerger.Join.{join, merge_files}
use out_of_book.AggMerger.Sums.{
  sums_of, games_at, position_total, IsLocal, weight-IsLocal, games_at-IsLocal, sum_of_zero,
  tallies-sums_of, IsAscending, AtMost, AtMost-zobrist,
}
use out_of_book.AggMerger.Written.{IsSorted-append}
use out_of_book.AggMerger.Slices.{IsOrdered}
use out_of_book.AggMerger.Shares.{slices, Wrote, HasRoom, merge_worker_lem}
use out_of_book.AggMerger.Cuts.{AreBegins, none_left, begin, tails, cut, last}

sums_of_zero :
    (z : ℕ) (w : SpillRecord → ℕ) (P : SpillRecord → Type 0)
    → IsLocal z w
    → ((r : SpillRecord) → P r → (r.zobrist == z) ≡ false)
    → (fs : List (List SpillRecord)) → All (All P) fs
    → sums_of w fs ≡ 0
unfolding sums_of
sums_of_zero z w P local away [] h = refl
sums_of_zero z w P local away (f ∷ fs) h =
    omega (
      arith,
      sum_of_zero w P (λ r p. local r (away r p)) f h.0,
      sums_of_zero z w P local away fs h.1,
    )

-- The sums to write of `here` and `there` are those to write of both, if they share no position.
kept-both :
    (b : ℕ) (k : Key) (c : Counter) (here there all : List (List SpillRecord))
    → All (All (λ r. r.zobrist < b)) here
    → All (All (λ r. b ≤ r.zobrist)) there
    → ((w : SpillRecord → ℕ) → sums_of w all ≡ sums_of w here + sums_of w there)
    → (if ltb (sums_of (games_at k.zobrist) all) 5 then 0 else sums_of (weight k c) all)
      ≡ (if ltb (sums_of (games_at k.zobrist) here) 5 then 0 else sums_of (weight k c) here)
        + (if ltb (sums_of (games_at k.zobrist) there) 5 then 0 else sums_of (weight k c) there)
kept-both b k c here there all lt le sums =
    let z = k.zobrist in
    let games = sums (games_at z) in
    let tallied = sums (weight k c) in
    elim (Bool-cases (ltb z b)) [
      | inl e ↦
          let away = λ (r : SpillRecord) (p : b ≤ r.zobrist). far z b r e p in
          let none_there =
            sums_of_zero z (weight k c) (λ r. b ≤ r.zobrist) (weight-IsLocal k c) away there le in
          let no_games =
            sums_of_zero z (games_at z) (λ r. b ≤ r.zobrist) (games_at-IsLocal z) away there le in
          ground (arith, games, tallied, none_there, no_games)
      | inr e ↦
          let away = λ (r : SpillRecord) (p : r.zobrist < b). near z b r e p in
          let none_here =
            sums_of_zero z (weight k c) (λ r. r.zobrist < b) (weight-IsLocal k c) away here lt in
          let no_games =
            sums_of_zero z (games_at z) (λ r. r.zobrist < b) (games_at-IsLocal z) away here lt in
          ground (arith, games, tallied, none_here, no_games)
    ]
  where
    far : (z b : ℕ) (r : SpillRecord) → ltb z b ≡ true → b ≤ r.zobrist → (r.zobrist == z) ≡ false
    far z b r e p = ground arith

    near : (z b : ℕ) (r : SpillRecord) → ltb z b ≡ false → r.zobrist < b → (r.zobrist == z) ≡ false
    near z b r e p = ground arith

module _ (files : List (List SpillRecord)) (up : All IsAscending files) where
  join_lem :
      (bs xs : List ℕ)
      → IsOrdered bs
      → AreBegins bs xs files
      → HasRoom (tails xs files)
      → (out : List SpillRecord) × (join (split_loop bs xs files) files ≡ some out)
        × Wrote (tails xs files) out
  unfolding split_loop join
  join_lem [] xs o a room =
      let l = last xs files a in
      let (out, e, w) =
        merge_worker_lem files (ranges xs (map length files)) l.inside up
          (subst HasRoom (sym l.all) room) in
      (out, rw (e, join) (ap some (append-nil out)), subst (λ p. Wrote p out) l.all w)
  join_lem (b ∷ bs) xs o a room =
      let ends = map (lower_bound b) files in
      let c = cut b bs xs files o.0 a up in
      let here : HasRoom (slices (ranges xs ends) files) = record {
        sums = λ k d. omega (arith, room.sums k d, c.sums (weight k d));
        games = λ z. omega (arith, room.games z, c.sums (games_at z));
      } in
      let there : HasRoom (tails ends files) = record {
        sums = λ k d. omega (arith, room.sums k d, c.sums (weight k d));
        games = λ z. omega (arith, room.games z, c.sums (games_at z));
      } in
      let (part, e, w) = merge_worker_lem files (ranges xs ends) c.inside up here in
      let (parts, e', w') = join_lem bs ends o.1 c.next there in
      (
        part ++ parts,
        rw (e, join) (rw e' refl),
        record {
          sums = λ k d. omega (
            arith,
            tally-append k d part parts,
            w.sums k d,
            w'.sums k d,
            kept-both b k d (slices (ranges xs ends) files) (tails ends files) (tails xs files)
                c.before c.after c.sums,
          );
          sorted =
              IsSorted-append b part parts (w.below b c.before) (w'.above b c.after) w.sorted
                w'.sorted;
          above = λ lo h.
              let (h', h'') = c.held (λ r. lo ≤ r.zobrist) h in
              All-append (λ r. lo ≤ r.zobrist) part parts (w.above lo h') (w'.above lo h'');
          below = λ hi h.
              let (h', h'') = c.held (λ r. r.zobrist < hi) h in
              All-append (λ r. r.zobrist < hi) part parts (w.below hi h') (w'.below hi h'');
        },
      )

-- A later record of a file in order has no smaller key.
get_elem?-mono :
    (f : List SpillRecord) (i j : ℕ) (x y : SpillRecord)
    → IsAscending f
    → i ≤ j
    → get_elem? f i ≡ some x
    → get_elem? f j ≡ some y
    → x.zobrist ≤ y.zobrist
get_elem?-mono [] i j x y up le e e' = absurd (cc)
get_elem?-mono (r ∷ f) zero zero x y up le e e' = let p : x ≡ y = cc in rw p (omega arith)
get_elem?-mono (r ∷ f) zero (suc j) x y up le e e' =
    subst (λ t. t.zobrist ≤ y.zobrist) (some_inj.0 e)
      (AtMost-zobrist r y (All-get_elem? (AtMost r) f j y up.0 e'))
get_elem?-mono (r ∷ f) (suc i) zero x y up le e e' = absurd (omega arith)
get_elem?-mono (r ∷ f) (suc i) (suc j) x y up le e e' =
    get_elem?-mono f i j x y up.1 (omega arith) e e'

-- The three boundaries of a file in order that is not empty.
boundaries_lem :
    (f : List SpillRecord)
    → IsAscending f
    → 0 < length f
    → (bs : List ℕ) × (boundaries f 3 0 ≡ some bs) × IsOrdered bs
unfolding boundaries boundary_at
boundaries_lem f up lt =
    let (x, e, _) = drop-get_elem? ((length f * 1) / 4) f (omega arith) in
    let (y, e', _) = drop-get_elem? ((length f * 2) / 4) f (omega arith) in
    let (z, e'', _) = drop-get_elem? ((length f * 3) / 4) f (omega arith) in
    let xy = get_elem?-mono f ((length f * 1) / 4) ((length f * 2) / 4) x y up (omega arith) e e' in
    let yz =
      get_elem?-mono f ((length f * 2) / 4) ((length f * 3) / 4) y z up (omega arith) e' e'' in
    (
      x.zobrist ∷ y.zobrist ∷ z.zobrist ∷ [],
      ground (arith, e, e', e''),
      ((xy, (omega arith, tt)), ((yz, tt), (tt, tt))),
    )

AreBegins-zero : (bs : List ℕ) (fs : List (List SpillRecord)) → AreBegins bs (map (λ _. 0) fs) fs
AreBegins-zero bs [] = none_left
AreBegins-zero bs (f ∷ fs) = begin (all bs f) (omega arith) (AreBegins-zero bs fs)
  where
    all : (bs : List ℕ) (f : List SpillRecord) → All (λ b. 0 ≤ lower_bound b f) bs
    all [] f = tt
    all (b ∷ bs) f = (omega arith, all bs f)

tails_zero : (fs : List (List SpillRecord)) → tails (map (λ _. 0) fs) fs ≡ fs
tails_zero [] = refl
tails_zero (f ∷ fs) = ap (◌∷◌ f) (tails_zero fs)

split_work_lem :
    (reference : List SpillRecord) (more : List (List SpillRecord)) (bs : List ℕ)
    → 0 < length reference
    → boundaries reference 3 0 ≡ some bs
    → split_work (reference ∷ more)
      ≡ ok (split_loop bs (map (λ _. 0) (reference ∷ more)) (reference ∷ more))
unfolding split_work
split_work_lem reference more bs full e = ground (arith, e)

merge_files_lem :
    (files : List (List SpillRecord)) {splits : List (List FileRange)} {out : List SpillRecord}
    → split_work files ≡ ok splits
    → join splits files ≡ some out
    → merge_files files ≡ ok out
unfolding merge_files
merge_files_lem files e e' = ground (arith, e, e')

module _ (reference : List SpillRecord) (more : List (List SpillRecord))
    (up : All IsAscending (reference ∷ more)) (full : 0 < length reference)
    (sums : (k : Key) (c : Counter) → tallies k c (reference ∷ more) < u32)
    (games : (z : ℕ) → position_total z (reference ∷ more) < u64) where
  merge_files-Wrote :
      (out : List SpillRecord) × (merge_files (reference ∷ more) ≡ ok out)
      × Wrote (reference ∷ more) out
  merge_files-Wrote =
      let files = reference ∷ more in
      let (bs, e, o) = boundaries_lem reference up.0 full in
      let room : HasRoom files = record {
        sums = λ k c. omega (arith, sums k c, tallies-sums_of k c files);
        games = games;
      } in
      let (out, e', w) =
        join_lem files up bs (map (λ _. 0) files) o (AreBegins-zero bs files)
          (subst HasRoom (sym (tails_zero files)) room) in
      (
        out,
        merge_files_lem files (split_work_lem reference more bs full e) e',
        subst (λ p. Wrote p out) (tails_zero files) w,
      )

  -- If the aggregates are each in order, the first is not empty, and no sum outgrows its type, then
  -- the merge ends with an output, and that has for every key and counter the sum over all
  -- aggregates, or nothing if the key's position has fewer than five games in all of them.
  pub merge_files-tally :
      (out : List SpillRecord) × (merge_files (reference ∷ more) ≡ ok out)
      × ((k : Key) (c : Counter)
          → tally k c out ≡ (
              if ltb (position_total k.zobrist (reference ∷ more)) 5
              then 0
              else tallies k c (reference ∷ more)))
  merge_files-tally =
      let (out, e, w) = merge_files-Wrote in
      (out, e, λ k c. w.sums k c ∙ rw (tallies-sums_of k c (reference ∷ more)) refl)

  -- If the aggregates are each in order, the first is not empty, and no sum outgrows its type, then
  -- the merged output is in strict key order: sorted over all workers, and no key twice.
  pub merge_files-IsSorted :
      (out : List SpillRecord) → merge_files (reference ∷ more) ≡ ok out → IsSorted out
  merge_files-IsSorted out e =
      let (out', e', w) = merge_files-Wrote in
      let same : out' ≡ out = cc in subst IsSorted same w.sorted
