-- ===== src/Base/Total.antt =====
-- Total correctness: from a state with `P` the call returns, and a return of 0 ends with `Q`.
use mathlib.Core.Path.{◌≡◌, refl}
use mathlib.Core.Bool.{Bool, true, false}
use alonzo_bootloader_zephyr.Base.Tests.{if◌then◌else◌}
use alonzo_bootloader_zephyr.Base.Outcome.{
  Errno, Result, ok, err, no_return, Exec, pure, raise, modify, continue, settle, clean_up, finish,
  on_error, finally, ⊤, ◌>>=◌, ◌>>◌,
}

module _ {S A : Type 0} where
  abbrev pub Landing : (A → S → Type 0) → Result A × S → Type 0
  Landing Q (ok a, s) = Q a s
  Landing Q (err e, s) = Unit
  Landing Q (no_return, s) = ⊥

  pub Landing-if :
      (Q : A → S → Type 0) (b : Bool) (x y : Result A × S)
      → Landing Q x
      → Landing Q y
      → Landing Q (if b then x else y)
  Landing-if Q true x y hx hy = hx
  Landing-if Q false x y hx hy = hy

  pub record Total (P : S → Type 0) (m : Exec S A) (Q : A → S → Type 0) : Type 0 where
    pub at : (s : S) → P s → Landing Q (m s)

  module _ {P : S → Type 0} {Q : A → S → Type 0} where
    pub Total-pure : (a : A) → ((s : S) → P s → Q a s) → Total P (pure a) Q
    Total-pure a h = record { at = h }

    pub Total-raise : (e : Errno) → Total P (raise e) Q
    Total-raise e = record { at = λ s p. tt }

    pub Total-if :
        (b : Bool) (m n : Exec S A)
        → (b ≡ true → Total P m Q)
        → (b ≡ false → Total P n Q)
        → Total P (if b then m else n) Q
    Total-if true m n hm hn = hm refl
    Total-if false m n hm hn = hn refl

module _ {S A B : Type 0} {R : A → S → Type 0} {Q : B → S → Type 0} where
  Landing-continue :
      (f : A → Exec S B)
      → ((a : A) → Total (R a) (f a) Q)
      → (r : Result A) (s : S) → Landing R (r, s)
      → Landing Q (continue r f s)
  Landing-continue f hf (ok a) s h = (hf a).at s h
  Landing-continue f hf (err e) s h = tt
  Landing-continue f hf no_return s h = elim h [ ]

  pub Total-bind :
      {P : S → Type 0} (m : Exec S A) (f : A → Exec S B)
      → Total P m R
      → ((a : A) → Total (R a) (f a) Q)
      → Total P (m >>= f) Q
  Total-bind m f hm hf = record {
    at = λ s p. let (r, s') = m s in Landing-continue f hf r s' (hm.at s p);
  }

module _ {S B : Type 0} {P R : S → Type 0} {Q : B → S → Type 0} where
  pub Total-modify :
      (g : S → S) (n : Exec S B)
      → ((s : S) → P s → R (g s))
      → Total R n Q
      → Total P (modify g >> n) Q
  Total-modify g n hg hn = record { at = λ s p. hn.at (g s) (hg s p) }

module _ {S A : Type 0} (Q : A → S → Type 0) where
  Landing-forget : (r : Result A) (s : S) → Landing Q (r, s) → Landing (λ _ (_ : S). Unit) (r, s)
  Landing-forget (ok a) s h = tt
  Landing-forget (err e) s h = tt
  Landing-forget no_return s h = h

-- Only that the call returns.
pub Total-forget :
    {S A : Type 0} {P : S → Type 0} {Q : A → S → Type 0} (m : Exec S A)
    → Total P m Q
    → Total P m (λ _ _. Unit)
Total-forget {Q} m h = record { at = λ s p. Landing-forget Q (m s).0 (m s).1 (h.at s p) }

-- A call that returns from every state.
abbrev pub Returning : {S A : Type 0} → Exec S A → Type 0
Returning m = Total (λ _. Unit) m (λ _ _. Unit)

pub pure-Returning : {S A : Type 0} (a : A) → Returning {S = S} (pure a)
pure-Returning a = Total-pure a (λ s p. tt)

pub raise-Returning : {S A : Type 0} (e : Errno) → Returning {S = S} {A = A} (raise e)
raise-Returning e = Total-raise e

pub Returning-bind :
    {S A B : Type 0} (m : Exec S A) (f : A → Exec S B)
    → Returning m
    → ((a : A) → Returning (f a))
    → Returning (m >>= f)
Returning-bind m f hm hf = Total-bind m f hm hf

-- Clean-up that returns.
module _ {S A : Type 0} (c : Exec S ⊤) (returns : Returning c) where
  settled_err :
      (Q : A → S → Type 0) (e : Errno) (r : Result ⊤) (s : S)
      → Landing (λ _ _. Unit) (r, s)
      → Landing Q (settle (err e) (r, s))
  settled_err Q e (ok _) s h = tt
  settled_err Q e (err _) s h = tt
  settled_err Q e no_return s h = h

  settled_ok :
      (V : A → Type 0) (a : A) (r : Result ⊤) (s : S)
      → V a
      → Landing (λ _ _. Unit) (r, s)
      → Landing (λ a (_ : S). V a) (settle (ok a) (r, s))
  settled_ok V a (ok _) s v h = v
  settled_ok V a (err _) s v h = v
  settled_ok V a no_return s v h = h

  after_clean_up :
      (Q : A → S → Type 0) (r : Result A) (s : S) → Landing Q (r, s) → Landing Q (clean_up c r s)
  after_clean_up Q (ok a) s h = h
  after_clean_up Q (err e) s h = settled_err Q e (c s).0 (c s).1 (returns.at s tt)
  after_clean_up Q no_return s h = h

  after_finish :
      (V : A → Type 0) (r : Result A) (s : S)
      → Landing (λ a _. V a) (r, s)
      → Landing (λ a _. V a) (finish c r s)
  after_finish V (ok a) s h = settled_ok V a (c s).0 (c s).1 h (returns.at s tt)
  after_finish V (err e) s h = settled_err (λ a _. V a) e (c s).0 (c s).1 (returns.at s tt)
  after_finish V no_return s h = h

  pub Total-on_error :
      {P : S → Type 0} {Q : A → S → Type 0} (m : Exec S A) → Total P m Q → Total P (on_error c m) Q
  Total-on_error {Q} m h = record { at = λ s p. after_clean_up Q (m s).0 (m s).1 (h.at s p) }

  -- What holds of the result holds after the clean-up.
  pub Total-finally :
      {P : S → Type 0} (V : A → Type 0) (m : Exec S A)
      → Total P m (λ a _. V a)
      → Total P (finally c m) (λ a _. V a)
  Total-finally V m h = record { at = λ s p. after_finish V (m s).0 (m s).1 (h.at s p) }
