-- ===== src/Base/Works.antt =====
-- Total correctness with success: from a state with `P` the call returns 0, and ends with `Q`.
use mathlib.Core.Path.{◌≡◌, refl}
use mathlib.Core.Bool.{Bool, true, false}
use alonzo_bootloader_zephyr.Base.Tests.{if◌then◌else◌}
use alonzo_bootloader_zephyr.Base.Outcome.{
  Result, ok, err, no_return, Exec, pure, modify, continue, ◌>>=◌, ◌>>◌,
}

module _ {S A : Type 0} where
  abbrev pub Success : (A → S → Type 0) → Result A × S → Type 0
  Success Q (ok a, s) = Q a s
  Success Q (err e, s) = ⊥
  Success Q (no_return, s) = ⊥

  pub record Works (P : S → Type 0) (m : Exec S A) (Q : A → S → Type 0) : Type 0 where
    pub at : (s : S) → P s → Success Q (m s)

  pub Success-mono :
      {Q Q' : A → S → Type 0} (r : Result A) (s : S)
      → ((a : A) (s : S) → Q a s → Q' a s)
      → Success Q (r, s)
      → Success Q' (r, s)
  Success-mono (ok a) s h q = h a s q
  Success-mono (err e) s h q = absurd q
  Success-mono no_return s h q = absurd q

  module _ {P : S → Type 0} {Q : A → S → Type 0} where
    pub Works-pure : (a : A) → ((s : S) → P s → Q a s) → Works P (pure a) Q
    Works-pure a h = record { at = h }

    pub Works-if :
        (b : Bool) (m n : Exec S A)
        → (b ≡ true → Works P m Q)
        → (b ≡ false → Works P n Q)
        → Works P (if b then m else n) Q
    Works-if true m n hm hn = hm refl
    Works-if false m n hm hn = hn refl

module _ {S A B : Type 0} {R : A → S → Type 0} {Q : B → S → Type 0} where
  Success-continue :
      (f : A → Exec S B)
      → ((a : A) → Works (R a) (f a) Q)
      → (r : Result A) (s : S) → Success R (r, s)
      → Success Q (continue r f s)
  Success-continue f hf (ok a) s h = (hf a).at s h
  Success-continue f hf (err e) s h = absurd h
  Success-continue f hf no_return s h = absurd h

  pub Works-bind :
      {P : S → Type 0} (m : Exec S A) (f : A → Exec S B)
      → Works P m R
      → ((a : A) → Works (R a) (f a) Q)
      → Works P (m >>= f) Q
  Works-bind m f hm hf = record {
    at = λ s p. let (r, s') = m s in Success-continue f hf r s' (hm.at s p);
  }

pub Works-modify :
    {S B : Type 0} {P R : S → Type 0} {Q : B → S → Type 0} (g : S → S) (n : Exec S B)
    → ((s : S) → P s → R (g s))
    → Works R n Q
    → Works P (modify g >> n) Q
Works-modify g n hg hn = record { at = λ s p. hn.at (g s) (hg s p) }
