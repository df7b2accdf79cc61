-- ===== src/Pgn/Database/Shares.antt =====
-- db_to_spills.cpp, the worker threads: the blobs that they share out and the spill files.
use out_of_book.Prelude.{
  ℕ, zero, suc, ◌+◌, ◌^◌, ◌≤◌, ◌<◌, ◌≡◌, ◌≢◌, ◌∙◌, List, [], ◌∷◌, ◌++◌, Option, none, some, false,
  ◌==◌, if◌then◌else◌, arith, refl, ap, sym, length, length-append, map, All, All-append,
  Bool-cases, Option-cases, inl, inr,
}
use mathlib.Core.Path.{subst}
use mathlib.Core.Option.{some_inj}
use mathlib.Core.List.{map-append}
use out_of_book.Spill.{SpillRecord, Key, Counter, tally, tallies, tally-append, tallies-append, u32}
use out_of_book.Spill.RecordCache.{Config, Played, record_of, init, add_all, destroy}
use out_of_book.Spill.RecordCache.Tally.{IsConfig}
use out_of_book.Spill.RecordCache.Totals.{destroy-add_all}
use out_of_book.Pgn.Database.{
  PgnBlob, produce, share, blob_calls, worker_calls, run_worker, run_workers, worker_threads,
  process_db,
}

abbrev IsKeyed : Played → Type 0
IsKeyed g = g.zobrist < 2 ^ 64

module _ (Position : Type 0) (key : Position → ℕ) (do_move : Position → ℕ → Position)
    (get_move : List ℕ → Position → Option ℕ) (start : Position) (k : Key) (c : Counter) where
  abbrev played : List Played → ℕ
  played gs = tally k c (map record_of gs)

  abbrev calls_of : List PgnBlob → Option (List Played)
  calls_of blobs = worker_calls Position key do_move get_move start blobs

  played-append : (xs ys : List Played) → played (xs ++ ys) ≡ played xs + played ys
  played-append xs ys =
      rw (map-append record_of xs ys) (tally-append k c (map record_of xs) (map record_of ys))

  abbrev or_none : Option (List Played) → ℕ
  or_none none = 0
  or_none (some gs) = played gs

  abbrev blob_tally : PgnBlob → ℕ
  blob_tally b = or_none (blob_calls Position key do_move get_move start b)

  share_tally : ℕ → List ℕ → List PgnBlob → ℕ
  share_tally w [] blobs = 0
  share_tally w (t ∷ tags) [] = 0
  share_tally w (t ∷ tags) (b ∷ blobs) =
      (if t == w then blob_tally b else 0) + share_tally w tags blobs

  -- The calls of a list of blobs that do not fail are those of the first and of the rest.
  worker_calls-cons :
      (b : PgnBlob) (blobs : List PgnBlob) (gs : List Played)
      → calls_of (b ∷ blobs) ≡ some gs
      → (xs : List Played) × (ys : List Played) × (blob_calls Position key do_move get_move start b
          ≡ some xs)
        × (calls_of blobs ≡ some ys)
        × (xs ++ ys ≡ gs)
  unfolding worker_calls
  worker_calls-cons b blobs gs e =
      elim (Option-cases (blob_calls Position key do_move get_move start b)) [
        | inl e' ↦ absurd (ground (arith, e, e'))
        | inr (xs, e') ↦ elim (Option-cases (calls_of blobs)) [
          | inl e'' ↦ absurd (ground (arith, e, e', e''))
          | inr (ys, e'') ↦ (xs, ys, e', e'', ground (arith, e, e', e''))
        ]
      ]

  worker_calls_of :
      (b : PgnBlob) (blobs : List PgnBlob) (xs ys : List Played)
      → blob_calls Position key do_move get_move start b ≡ some xs
      → calls_of blobs ≡ some ys
      → calls_of (b ∷ blobs) ≡ some (xs ++ ys)
  unfolding worker_calls
  worker_calls_of b blobs xs ys e e' = ground (arith, e, e')

  -- What one worker is given, of calls that are few and well keyed.
  record Share (w : ℕ) (tags : List ℕ) (blobs : List PgnBlob) (gs mine : List Played) : Type 0 where
    calls : calls_of (share w tags blobs) ≡ some mine
    fewer : length mine ≤ length gs
    keyed : All IsKeyed mine
    counted : played mine ≡ share_tally w tags blobs

  All-split : (xs ys : List Played) → All IsKeyed (xs ++ ys) → All IsKeyed xs × All IsKeyed ys
  All-split [] ys h = (tt, h)
  All-split (x ∷ xs) ys h = let (a, b) = All-split xs ys h.1 in ((h.0, a), b)

  share_lem :
      (w : ℕ) (tags : List ℕ) (blobs : List PgnBlob) (gs : List Played)
      → calls_of blobs ≡ some gs
      → All IsKeyed gs
      → (mine : List Played) × Share w tags blobs gs mine
  unfolding share share_tally worker_calls tally
  share_lem w [] blobs gs e h =
      ([], record { calls = refl; fewer = omega arith; keyed = tt; counted = refl })
  share_lem w (t ∷ tags) [] gs e h =
      ([], record { calls = refl; fewer = omega arith; keyed = tt; counted = refl })
  share_lem w (t ∷ tags) (b ∷ blobs) gs e h =
      let (xs, ys, e', e'', joined) = worker_calls-cons b blobs gs e in
      let (hx, hy) = All-split xs ys (subst (All IsKeyed) (sym joined) h) in
      let (mine, s) = share_lem w tags blobs ys e'' hy in
      let sizes : length xs + length ys ≡ length gs =
        sym (length-append xs ys) ∙ ap length joined in
      elim (Bool-cases (t == w)) [
        | inl own ↦ (
          xs ++ mine,
          record {
            calls = rw own (worker_calls_of b (share w tags blobs) xs mine e' s.calls);
            fewer = omega (arith, length-append {0} xs mine, s.fewer);
            keyed = All-append IsKeyed xs mine hx s.keyed;
            counted = played-append xs mine ∙ (λ i. played xs + s.counted i) ∙ rw (own, e') refl;
          },
        )
        | inr other ↦ (
          mine,
          record {
            calls = rw other s.calls;
            fewer = omega (arith, s.fewer);
            keyed = s.keyed;
            counted = rw other (omega (arith, s.counted));
          },
        )
      ]

  -- The workers from number `w` on, by their shares; a blob is with one of them, or with none.
  workers_tally : ℕ → ℕ → List ℕ → List PgnBlob → ℕ
  workers_tally zero w tags blobs = 0
  workers_tally (suc n) w tags blobs = share_tally w tags blobs + workers_tally n (suc w) tags blobs

  workers_tally-before :
      (n w t : ℕ) (b : PgnBlob) (tags : List ℕ) (blobs : List PgnBlob)
      → t < w
      → workers_tally n w (t ∷ tags) (b ∷ blobs) ≡ workers_tally n w tags blobs
  unfolding workers_tally share_tally
  workers_tally-before zero w t b tags blobs lt = refl
  workers_tally-before (suc n) w t b tags blobs lt =
      let other : (t == w) ≡ false = ground arith in
      rw other (omega (arith, workers_tally-before n (suc w) t b tags blobs (omega arith)))

  workers_tally-cons :
      (n w t : ℕ) (b : PgnBlob) (tags : List ℕ) (blobs : List PgnBlob)
      → w ≤ t
      → t < w + n
      → workers_tally n w (t ∷ tags) (b ∷ blobs) ≡ blob_tally b + workers_tally n w tags blobs
  unfolding workers_tally share_tally
  workers_tally-cons zero w t b tags blobs le lt = absurd (omega arith)
  workers_tally-cons (suc n) w t b tags blobs le lt = elim (Bool-cases (t == w)) [
    | inl own ↦
        let here : t < suc w = ground arith in
        rw own (omega (arith, workers_tally-before n (suc w) t b tags blobs here))
    | inr other ↦
        let later : suc w ≤ t = ground arith in
        rw other (omega (arith, workers_tally-cons n (suc w) t b tags blobs later (omega arith)))
  ]

  workers_tally-none : (n w : ℕ) → workers_tally n w [] [] ≡ 0
  unfolding workers_tally share_tally
  workers_tally-none zero w = refl
  workers_tally-none (suc n) w = omega (arith, workers_tally-none n (suc w))

  -- If every blob has a worker, the shares make up the whole.
  workers_tally_all :
      (n : ℕ) (tags : List ℕ) (blobs : List PgnBlob) (gs : List Played)
      → length tags ≡ length blobs
      → All (λ t. t < n) tags
      → calls_of blobs ≡ some gs
      → workers_tally n 0 tags blobs ≡ played gs
  unfolding tally worker_calls
  workers_tally_all n [] [] gs l own e = workers_tally-none n 0 ∙ ap played (some_inj.0 e)
  workers_tally_all n [] (b ∷ blobs) gs l own e = absurd (omega arith)
  workers_tally_all n (t ∷ tags) [] gs l own e = absurd (omega arith)
  workers_tally_all n (t ∷ tags) (b ∷ blobs) gs l own e =
      let (xs, ys, e', e'', joined) = worker_calls-cons b blobs gs e in
      let head : blob_tally b ≡ played xs = ap or_none e' in
      omega (
        arith,
        workers_tally-cons n 0 t b tags blobs (omega arith) (omega (arith, own.0)),
        workers_tally_all n tags blobs ys (omega arith) own.1 e'',
        head,
        played-append xs ys,
        ap played joined,
      )

  module _ (cfg : Config) (ok : IsConfig cfg) (nz : k.zobrist ≢ 0) where
    run_worker_lem :
        (blobs : List PgnBlob) (mine : List Played)
        → calls_of blobs ≡ some mine
        → length mine < u32
        → All IsKeyed mine
        → (files : List (List SpillRecord)) × (run_worker Position key do_move get_move start cfg
              blobs
            ≡ some files)
          × (tallies k c files ≡ played mine)
    unfolding run_worker
    run_worker_lem blobs mine e few keyed = (
      (destroy cfg (add_all cfg mine (init cfg))).files,
      rw (e, run_worker) refl,
      destroy-add_all cfg k c ok nz mine few keyed,
    )

    run_workers-step :
        (n w : ℕ) (tags : List ℕ) (blobs : List PgnBlob) {files more : List (List SpillRecord)}
        → run_worker Position key do_move get_move start cfg (share w tags blobs) ≡ some files
        → run_workers Position key do_move get_move start cfg n (suc w) tags blobs ≡ some more
        → run_workers Position key do_move get_move start cfg (suc n) w tags blobs
          ≡ some (files ++ more)
    unfolding run_workers
    run_workers-step n w tags blobs e e' = ground (arith, e, e')

    module _ (tags : List ℕ) (blobs : List PgnBlob) (gs : List Played)
        (calls : calls_of blobs ≡ some gs) (few : length gs < u32) (keyed : All IsKeyed gs) where
      run_workers_lem :
          (n w : ℕ)
          → (files : List (List SpillRecord)) × (run_workers Position key do_move get_move start cfg
                n w tags blobs
              ≡ some files)
            × (tallies k c files ≡ workers_tally n w tags blobs)
      unfolding workers_tally run_workers tallies
      run_workers_lem zero w = ([], refl, refl)
      run_workers_lem (suc n) w =
          let (mine, s) = share_lem w tags blobs gs calls keyed in
          let (files, e, t) =
            run_worker_lem (share w tags blobs) mine s.calls (omega (arith, s.fewer)) s.keyed in
          let (more, e', t') = run_workers_lem n (suc w) in
          (
            files ++ more,
            run_workers-step n w tags blobs e e',
            omega (arith, tallies-append k c files more, t, t', s.counted),
          )

    -- If none of the games that the producer's pairs of chunks hold fails (those that begin in the last
    -- chunk are not among them), then however the pairs are shared out among the five workers, the run
    -- ends, and the spill files that they leave hold for every key but those of the Zobrist key 0,
    -- and for each counter, the tally of the moves that these games count, if those are fewer than
    -- 2 ^ 32.
    pub process_db-tally :
        (chunks : List (List ℕ)) (tags : List ℕ) (gs : List Played)
        → length tags ≡ length (produce none chunks)
        → All (λ t. t < worker_threads) tags
        → worker_calls Position key do_move get_move start (produce none chunks) ≡ some gs
        → length gs < u32
        → All (λ g. g.zobrist < 2 ^ 64) gs
        → (files : List (List SpillRecord)) × (process_db Position key do_move get_move start cfg
              chunks tags
            ≡ some files)
          × (tallies k c files ≡ tally k c (map record_of gs))
    unfolding process_db
    process_db-tally chunks tags gs every own calls few keyed =
        let (files, e, t) =
          run_workers_lem tags (produce none chunks) gs calls few keyed worker_threads 0 in
        (
          files,
          e,
          t ∙ workers_tally_all worker_threads tags (produce none chunks) gs every own calls,
        )
