-- ===== src/Base/Yields.antt =====
-- What holds of the value of a computation, if it has one.
use mathlib.Core.Path.{◌≡◌, refl}
use mathlib.Core.Bool.{Bool, true, false}
use alonzo_bootloader_zephyr.Base.Tests.{if◌then◌else◌}
use alonzo_bootloader_zephyr.Base.Outcome.{Result, ok, err, no_return}
use alonzo_bootloader_zephyr.Base.Bytes.{◌>>=◌}

module _ {A : Type 0} where
  pub record Yields (Q : A → Type 0) (m : Result A) : Type 0 where
    pub at : (a : A) → m ≡ ok a → Q a

  pub Yields-ok : (Q : A → Type 0) (a : A) → Q a → Yields Q (ok a)
  Yields-ok Q a q = record { at = λ b e. cast b e }
    where
      cast : (b : A) → ok a ≡ ok b → Q b
      cast b e = let same : a ≡ b = cc in rw (← same) q

  pub Yields-any : (m : Result A) → Yields (λ _. Unit {0}) m
  Yields-any m = record { at = λ a e. tt }

  pub Yields-if :
      (Q : A → Type 0) (b : Bool) (m n : Result A)
      → (b ≡ true → Yields Q m)
      → (b ≡ false → Yields Q n)
      → Yields Q (if b then m else n)
  Yields-if Q true m n hm hn = hm refl
  Yields-if Q false m n hm hn = hn refl

pub Yields-bind :
    {A B : Type 0} {R : A → Type 0} {Q : B → Type 0} (m : Result A) (f : A → Result B)
    → Yields R m
    → ((a : A) → R a → Yields Q (f a))
    → Yields Q (m >>= f)
Yields-bind (ok a) f hm hf = hf a (hm.at a refl)
Yields-bind (err e) f hm hf = record { at = λ b h. absurd (cc) }
Yields-bind no_return f hm hf = record { at = λ b h. absurd (cc) }
