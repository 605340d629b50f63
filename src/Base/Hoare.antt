-- ===== src/Base/Hoare.antt =====
-- Triples: from a state with `P`, a return of 0 ends with `Q`, and any other end with `E`.
use mathlib.Core.Path.{◌≡◌, refl}
use mathlib.Core.Bool.{Bool, true, false}
use alonzo_bootloader_zephyr.Base.Tests.{if◌then◌else◌}
use alonzo_bootloader_zephyr.Base.Outcome.{
  Errno, Result, ok, err, no_return, Exec, pure, raise, modify, continue, settle, clean_up, finish,
  on_error, finally, ⊤, ◌>>=◌, ◌>>◌,
}

module _ {S A : Type 0} where
  abbrev pub Post : (A → S → Type 0) → (S → Type 0) → Result A × S → Type 0
  Post Q E (ok a, s) = Q a s
  Post Q E (err e, s) = E s
  Post Q E (no_return, s) = E s

  pub record Triple (P : S → Type 0) (m : Exec S A) (Q : A → S → Type 0) (E : S → Type 0)
      : Type 0 where
    pub at : (s : S) → P s → Post Q E (m s)

  -- The invariant holds again after the call, however it ends.
  abbrev pub Keeps : (S → Type 0) → Exec S A → Type 0
  Keeps P m = Triple P m (λ _. P) P

  -- A test on the state, before the branches are run on it.
  pub Post-if :
      (Q : A → S → Type 0) (E : S → Type 0) (b : Bool) (r r' : Result A × S)
      → (b ≡ true → Post Q E r)
      → (b ≡ false → Post Q E r')
      → Post Q E (if b then r else r')
  Post-if Q E true r r' h h' = h refl
  Post-if Q E false r r' h h' = h' refl

  module _ {P : S → Type 0} {Q : A → S → Type 0} {E : S → Type 0} where
    pub Triple-pure : (a : A) → ((s : S) → P s → Q a s) → Triple P (pure a) Q E
    Triple-pure a h = record { at = h }

    pub Triple-raise : (e : Errno) → ((s : S) → P s → E s) → Triple P (raise e) Q E
    Triple-raise e h = record { at = h }

    pub Triple-if :
        (b : Bool) (m n : Exec S A)
        → (b ≡ true → Triple P m Q E)
        → (b ≡ false → Triple P n Q E)
        → Triple P (if b then m else n) Q E
    Triple-if true m n hm hn = hm refl
    Triple-if false m n hm hn = hn refl

module _ {S A B : Type 0} {R : A → S → Type 0} {Q : B → S → Type 0} {E : S → Type 0} where
  Post-continue :
      (f : A → Exec S B)
      → ((a : A) → Triple (R a) (f a) Q E)
      → (r : Result A) (s : S) → Post R E (r, s)
      → Post Q E (continue r f s)
  Post-continue f hf (ok a) s h = (hf a).at s h
  Post-continue f hf (err e) s h = h
  Post-continue f hf no_return s h = h

  pub Triple-bind :
      {P : S → Type 0} (m : Exec S A) (f : A → Exec S B)
      → Triple P m R E
      → ((a : A) → Triple (R a) (f a) Q E)
      → Triple P (m >>= f) Q E
  Triple-bind m f hm hf = record {
    at = λ s p. let (r, s') = m s in Post-continue f hf r s' (hm.at s p);
  }

module _ {S B : Type 0} {P R : S → Type 0} {Q : B → S → Type 0} {E : S → Type 0} where
  -- A step that cannot fail, and what follows it.
  pub Triple-modify :
      (g : S → S) (n : Exec S B)
      → ((s : S) → P s → R (g s))
      → Triple R n Q E
      → Triple P (modify g >> n) Q E
  Triple-modify g n hg hn = record { at = λ s p. hn.at (g s) (hg s p) }

module _ {S A : Type 0} {Q : A → S → Type 0} {E : S → Type 0} where
  pub Post-mono :
      {Q' : A → S → Type 0} {E' : S → Type 0} (r : Result A) (s : S)
      → ((a : A) (s : S) → Q a s → Q' a s)
      → ((s : S) → E s → E' s)
      → Post Q E (r, s)
      → Post Q' E' (r, s)
  Post-mono (ok a) s hq he h = hq a s h
  Post-mono (err e) s hq he h = he s h
  Post-mono no_return s hq he h = he s h

  -- A weaker outcome from a stronger start.
  pub Triple-mono :
      {P P' : S → Type 0} {Q' : A → S → Type 0} {E' : S → Type 0} (m : Exec S A)
      → Triple P m Q E
      → ((s : S) → P' s → P s)
      → ((a : A) (s : S) → Q a s → Q' a s)
      → ((s : S) → E s → E' s)
      → Triple P' m Q' E'
  Triple-mono m h hp hq he = record {
    at = λ s p. let (r, s') = m s in Post-mono r s' hq he (h.at s (hp s p));
  }

pub Post-same :
    {S A : Type 0} (P : S → Type 0) (r : Result A) (s : S) → P s → Post (λ _. P) P (r, s)
Post-same P (ok a) s h = h
Post-same P (err e) s h = h
Post-same P no_return s h = h

pub Post-any : {S A : Type 0} (P : S → Type 0) (r : Result A) (s : S) → Post (λ _. P) P (r, s) → P s
Post-any P (ok a) s h = h
Post-any P (err e) s h = h
Post-any P no_return s h = h

-- Clean-up that keeps the invariant.
module _ {S A : Type 0} (P : S → Type 0) (c : Exec S ⊤) (keeps : Keeps P c) where
  settled :
      (r : Result A) (r' : Result ⊤) (s : S)
      → Post (λ _. P) P (r', s)
      → Post (λ _. P) P (settle r (r', s))
  settled r (ok _) s h = Post-same P r s h
  settled r (err e) s h = Post-same P r s h
  settled r no_return s h = h

  after_clean_up :
      (r : Result A) (s : S) → Post (λ _. P) P (r, s) → Post (λ _. P) P (clean_up c r s)
  after_clean_up (ok a) s h = h
  after_clean_up (err e) s h = settled (err e) (c s).0 (c s).1 (keeps.at s h)
  after_clean_up no_return s h = h

  after_finish : (r : Result A) (s : S) → Post (λ _. P) P (r, s) → Post (λ _. P) P (finish c r s)
  after_finish (ok a) s h = settled (ok a) (c s).0 (c s).1 (keeps.at s h)
  after_finish (err e) s h = settled (err e) (c s).0 (c s).1 (keeps.at s h)
  after_finish no_return s h = h

  pub Keeps-on_error : (m : Exec S A) → Keeps P m → Keeps P (on_error c m)
  Keeps-on_error m h = record { at = λ s p. after_clean_up (m s).0 (m s).1 (h.at s p) }

  pub Keeps-finally : (m : Exec S A) → Keeps P m → Keeps P (finally c m)
  Keeps-finally m h = record { at = λ s p. after_finish (m s).0 (m s).1 (h.at s p) }
