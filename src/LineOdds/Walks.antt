-- ===== src/LineOdds/Walks.antt =====
-- TargetGraph.cpp: what is known of a pass that ended, or of one that read out of range.
use out_of_book.Prelude.{◌≡◌, ap, Option, none, some, ◌⊎◌, inl, inr, refl}
use out_of_book.LineOdds.Forward.{Walk, ended, throws, strayed, wrapped, ◌>>=◌, or_strayed}

value : {A : Type 0} → A → Walk A → A
value d (ended a) = a
value d (throws l) = d
value d strayed = d
value d wrapped = d

pub ended_inj : {A : Type 0} {a b : A} → ended a ≡ ended b → a ≡ b
unfolding value
ended_inj {a} e = ap (value a) e

module _ {A B : Type 0} where
  pub bind-ended :
      (w : Walk A) (f : A → Walk B) (b : B)
      → (w >>= f) ≡ ended b
      → (a : A) × (w ≡ ended a) × (f a ≡ ended b)
  unfolding ◌>>=◌
  bind-ended (ended a) f b e = (a, refl, e)
  bind-ended (throws l) f b e = absurd (cc)
  bind-ended strayed f b e = absurd (cc)
  bind-ended wrapped f b e = absurd (cc)

  pub bind-strayed :
      (w : Walk A) (f : A → Walk B)
      → (w >>= f) ≡ strayed
      → (w ≡ strayed) ⊎ ((a : A) × (w ≡ ended a) × (f a ≡ strayed))
  unfolding ◌>>=◌
  bind-strayed (ended a) f e = inr (a, refl, e)
  bind-strayed (throws l) f e = absurd (cc)
  bind-strayed strayed f e = inl refl
  bind-strayed wrapped f e = absurd (cc)

pub or_strayed-ended : {A : Type 0} (o : Option A) (a : A) → or_strayed o ≡ ended a → o ≡ some a
unfolding or_strayed
or_strayed-ended none a e = absurd (cc)
or_strayed-ended (some b) a e = ap some (ended_inj e)
