-- ===== src/Server/RateLimit/Table.antt =====
-- RateLimit.cpp: lemmas on the table of buckets, its size and its keys.
use out_of_book.Prelude.{
  ℕ, ◌+◌, ◌≤◌, ◌<◌, ◌≡◌, ◌∙◌, List, [], ◌∷◌, Bool, true, false, not, ltb, leb, if◌then◌else◌,
  Option, none, some, length, arith, refl, ap, sym, Bool-cases, Option-cases, inl, inr, All, ◌⊎◌,
}
use out_of_book.Text.{bytes_eq, bytes_eq_sound, bytes_eq_refl}
use out_of_book.Server.RateLimit.{
  Double, Config, Bucket, RateLimiter, find, write, keep, drop_idle, sweep, admit, due,
}

module _ (d : Double) where
  abbrev pub Buckets : Type 0
  Buckets = List (List ℕ × Bucket d)

  abbrev pub Other : List ℕ → List ℕ × Bucket d → Type 0
  Other k e = bytes_eq k e.0 ≡ false

  -- No client has two buckets.
  abbrev pub Distinct : List (List ℕ × Bucket d) → Type 0
  Distinct [] = Unit
  Distinct (e ∷ t) = All (Other e.0) t × Distinct t

  length-keep : (p : Bucket d → Bool) (t : Buckets) → length (keep d p t) ≤ length t
  unfolding keep
  length-keep p [] = omega arith
  length-keep p ((k, b) ∷ t) = ground (arith, length-keep p t)

  pub length-write : (c : List ℕ) (b : Bucket d) (t : Buckets) → length (write d c b t) ≡ length t
  unfolding write
  length-write c b [] = refl
  length-write c b ((k, b') ∷ t) = ground (arith, length-write c b t)

  keep-Other :
      (k : List ℕ) (p : Bucket d → Bool) (t : Buckets)
      → All (Other k) t
      → All (Other k) (keep d p t)
  unfolding keep
  keep-Other k p [] h = tt
  keep-Other k p ((k', b) ∷ t) h = elim (Bool-cases (p b)) [
    | inl e ↦ rw e (h.0, keep-Other k p t h.1)
    | inr e ↦ rw e (keep-Other k p t h.1)
  ]

  keep-Distinct : (p : Bucket d → Bool) (t : Buckets) → Distinct t → Distinct (keep d p t)
  unfolding keep
  keep-Distinct p [] h = tt
  keep-Distinct p ((k, b) ∷ t) h = elim (Bool-cases (p b)) [
    | inl e ↦ rw e (keep-Other k p t h.0, keep-Distinct p t h.1)
    | inr e ↦ rw e (keep-Distinct p t h.1)
  ]

  write-Other :
      (k c : List ℕ) (b : Bucket d) (t : Buckets) → All (Other k) t → All (Other k) (write d c b t)
  unfolding write
  write-Other k c b [] h = tt
  write-Other k c b ((k', b') ∷ t) h = elim (Bool-cases (bytes_eq k' c)) [
    | inl e ↦ rw e h
    | inr e ↦ rw e (h.0, write-Other k c b t h.1)
  ]

  pub write-Distinct :
      (c : List ℕ) (b : Bucket d) (t : Buckets) → Distinct t → Distinct (write d c b t)
  unfolding write
  write-Distinct c b [] h = tt
  write-Distinct c b ((k, b') ∷ t) h = elim (Bool-cases (bytes_eq k c)) [
    | inl e ↦ rw e h
    | inr e ↦ rw e (write-Other k c b t h.0, write-Distinct c b t h.1)
  ]

  find-none_of_Other :
      (k c : List ℕ) (t : Buckets) → bytes_eq k c ≡ true → All (Other k) t → find d c t ≡ none
  unfolding find
  find-none_of_Other k c [] e h = refl
  find-none_of_Other k c ((k', b) ∷ t) e h =
      let other : bytes_eq k' c ≡ false = differ in rw other (find-none_of_Other k c t e h.1)
    where
      differ : bytes_eq k' c ≡ false
      differ = elim (Bool-cases (bytes_eq k' c)) [
        | inr f ↦ f
        | inl f ↦
            let kk : k ≡ k' = bytes_eq_sound k c e ∙ sym (bytes_eq_sound k' c f) in
            absurd (cc (sym h.0 ∙ ap (bytes_eq k) (sym kk) ∙ bytes_eq_refl k))
      ]

  abbrev kept : (Bucket d → Bool) → Option (Bucket d) → Option (Bucket d)
  kept p none = none
  kept p (some b) = if p b then some b else none

  find-keep :
      (c : List ℕ) (p : Bucket d → Bool) (t : Buckets)
      → Distinct t
      → find d c (keep d p t) ≡ kept p (find d c t)
  unfolding find keep
  find-keep c p [] h = refl
  find-keep c p ((k, b) ∷ t) h =
      ground (arith, find-keep c p t h.1, find-none_of_Other k c (keep d p t), keep-Other k p t h.0)

  pub find-write_ne :
      (q c : List ℕ) (b : Bucket d) (t : Buckets)
      → bytes_eq c q ≡ false
      → find d q (write d c b t) ≡ find d q t
  unfolding find write
  find-write_ne q c b [] h = refl
  find-write_ne q c b ((k, b') ∷ t) h = elim (Bool-cases (bytes_eq k c)) [
    | inl e ↦ let other : bytes_eq k q ≡ false = rw (bytes_eq_sound k c e) h in rw (e, other)
    | inr e ↦ rw e (ground (arith, find-write_ne q c b t h))
  ]

  bytes_ne_sym : (a b : List ℕ) → bytes_eq a b ≡ false → bytes_eq b a ≡ false
  bytes_ne_sym a b h = elim (Bool-cases (bytes_eq b a)) [
    | inr f ↦ f
    | inl f ↦
        let e = bytes_eq_sound b a f in absurd (cc (sym h ∙ ap (bytes_eq a) e ∙ bytes_eq_refl a))
  ]

  Other-of_none : (c : List ℕ) (t : Buckets) → find d c t ≡ none → All (Other c) t
  unfolding find
  Other-of_none c [] h = tt
  Other-of_none c ((k, b) ∷ t) h = elim (Bool-cases (bytes_eq k c)) [
    | inl e ↦ absurd (ground arith)
    | inr e ↦ (bytes_ne_sym k c e, Other-of_none c t (ground arith))
  ]

  module _ (cfg : Config d) where
    pub record IsValid (s : RateLimiter d) : Type 0 where
      pub bounded : length s.buckets ≤ cfg.max_clients
      pub distinct : Distinct s.buckets

    drop_idle-IsValid : (now : ℕ) (s : RateLimiter d) → IsValid s → IsValid (drop_idle d cfg now s)
    unfolding drop_idle
    drop_idle-IsValid now s h = record {
      bounded = omega (
        arith,
        h.bounded,
        length-keep (λ b. not (ltb (b.seen + cfg.idle_timeout) now)) s.buckets,
      );
      distinct =
          keep-Distinct (λ b. not (ltb (b.seen + cfg.idle_timeout) now)) s.buckets h.distinct;
    }

    -- Below its ceiling the table never needs an eviction: a sweep drops idle clients only.
    pub sweep-drop_idle :
        (now : ℕ) (s : RateLimiter d) → IsValid s → sweep d cfg now s ≡ drop_idle d cfg now s
    unfolding sweep
    sweep-drop_idle now s h = let b = (drop_idle-IsValid now s h).bounded in ground arith

    pub sweep-IsValid : (now : ℕ) (s : RateLimiter d) → IsValid s → IsValid (sweep d cfg now s)
    sweep-IsValid now s h = rw (sweep-drop_idle now s h) (drop_idle-IsValid now s h)

    pub due-IsValid : (now : ℕ) (s : RateLimiter d) → IsValid s → IsValid (due d cfg now s)
    unfolding due
    due-IsValid now s h = elim (Bool-cases (leb (s.last_sweep + cfg.sweep_interval) now)) [
      | inl e ↦ rw e (sweep-IsValid now s h)
      | inr e ↦ rw e h
    ]

    pub admit-IsValid :
        (now : ℕ) (c : List ℕ) (s : RateLimiter d)
        → IsValid s
        → find d c s.buckets ≡ none
        → length s.buckets < cfg.max_clients
        → IsValid (admit d cfg now c s).0
    unfolding admit
    admit-IsValid now c s h e lt = record {
      bounded = omega arith;
      distinct = (Other-of_none c s.buckets e, h.distinct);
    }

    -- What another client finds: its bucket as it was, or none where it was idle for too long.
    abbrev pub Kept : ℕ → List ℕ → RateLimiter d → RateLimiter d → Type 0
    Kept now q s s' =
        (find d q s'.buckets ≡ find d q s.buckets)
        ⊎ ((b : Bucket d) × (find d q s.buckets ≡ some b)
            × (b.seen + cfg.idle_timeout < now)
            × (find d q s'.buckets ≡ none))

    pub Kept-trans :
        (now : ℕ) (q : List ℕ) (s t u : RateLimiter d)
        → Kept now q s t
        → Kept now q t u
        → Kept now q s u
    Kept-trans now q s t u (inl e) (inl f) = inl (f ∙ e)
    Kept-trans now q s t u (inl e) (inr (b, f, idle, z)) = inr (b, sym e ∙ f, idle, z)
    Kept-trans now q s t u (inr (b, f, idle, z)) (inl e) = inr (b, f, idle, e ∙ z)
    Kept-trans now q s t u (inr (b, f, idle, z)) (inr (b', f', idle', z')) = inr (b, f, idle, z')

    pub drop_idle-Kept :
        (now : ℕ) (q : List ℕ) (s : RateLimiter d)
        → IsValid s
        → Kept now q s (drop_idle d cfg now s)
    unfolding drop_idle
    drop_idle-Kept now q s h =
        let k = find-keep q (λ b. not (ltb (b.seen + cfg.idle_timeout) now)) s.buckets h.distinct in
        elim (Option-cases (find d q s.buckets)) [
          | inl e ↦ inl (ground arith)
          | inr (b, e) ↦ elim (Bool-cases (ltb (b.seen + cfg.idle_timeout) now)) [
            | inl idle ↦ inr (b, e, ground arith, ground arith)
            | inr live ↦ inl (ground arith)
          ]
        ]

    pub sweep-Kept :
        (now : ℕ) (q : List ℕ) (s : RateLimiter d) → IsValid s → Kept now q s (sweep d cfg now s)
    sweep-Kept now q s h = rw (sweep-drop_idle now s h) (drop_idle-Kept now q s h)

    pub due-Kept :
        (now : ℕ) (q : List ℕ) (s : RateLimiter d) → IsValid s → Kept now q s (due d cfg now s)
    unfolding due
    due-Kept now q s h = elim (Bool-cases (leb (s.last_sweep + cfg.sweep_interval) now)) [
      | inl e ↦ rw e (sweep-Kept now q s h)
      | inr e ↦ rw e (inl refl)
    ]

    pub find-none_after :
        (now : ℕ) (q : List ℕ) (s t : RateLimiter d)
        → Kept now q s t
        → find d q s.buckets ≡ none
        → find d q t.buckets ≡ none
    find-none_after now q s t (inl e) h = e ∙ h
    find-none_after now q s t (inr (b, _, _, z)) h = z
