-- ===== src/Base/Outcome.antt =====
-- Fallible stateful code. A C function that returns 0 or `-errno` is an `Exec`: it takes the state
-- and gives back the outcome and the state, which keeps what was done before an error.
use mathlib.Core.Bool.{Bool, true, false}
use Prim.Native.Nat.{ℕ}

-- The codes that the source returns itself; `other` is any further code of a driver.
pub data Errno : Type 0 where
  eagain ebadmsg efbig einval eio enodev enoent enospc enotsup enxio eproto etimedout : Errno
  other : ℕ → Errno

-- `ok` is a return of 0 with what the function stores through its output parameters.
-- `no_return` is no return at all: a loop was still running when the model's fuel ended, or the
-- code did what C leaves undefined (a read or write outside its buffer, a division by zero).
pub data Result (A : Type 0) : Type 0 where
  ok : A → Result A
  err : Errno → Result A
  no_return : Result A

abbrev pub ⊤ : Type 0
⊤ = Unit

abbrev pub Exec : Type 0 → Type 0 → Type 0
Exec S A = S → Result A × S

module _ {S A : Type 0} where
  abbrev pub pure : A → Exec S A
  pure a s = (ok a, s)

  abbrev pub raise : Errno → Exec S A
  raise e s = (err e, s)

  abbrev pub run_out : Exec S A
  run_out s = (no_return, s)

  -- Undefined behaviour.
  abbrev pub fault : Exec S A
  fault s = (no_return, s)

  -- A computation that touches no state.
  abbrev pub lift : Result A → Exec S A
  lift r s = (r, s)

-- A call that cannot fail.
abbrev pub modify : {S : Type 0} → (S → S) → Exec S ⊤
modify f s = (ok tt, f s)

module _ {S A B : Type 0} where
  abbrev pub continue : Result A → (A → Exec S B) → Exec S B
  continue (ok a) f s = f a s
  continue (err e) f s = (err e, s)
  continue no_return f s = (no_return, s)

  infixl 5 ◌>>=◌ ◌>>◌
  abbrev pub ◌>>=◌ : Exec S A → (A → Exec S B) → Exec S B
  ◌>>=◌ m f s = let (r, s') = m s in continue r f s'

  abbrev pub ◌>>◌ : Exec S A → Exec S B → Exec S B
  m >> n = m >>= λ _. n

module _ {S A : Type 0} where
  -- The result before a clean-up whose outcome is dropped, `(void)f();`, if that returns.
  abbrev pub settle : Result A → Result ⊤ × S → Result A × S
  settle r (ok _, s) = (r, s)
  settle r (err e, s) = (r, s)
  settle r (no_return, s) = (no_return, s)

  -- Clean-up after an error only, or in any case.
  abbrev pub clean_up : Exec S ⊤ → Result A → S → Result A × S
  clean_up c (ok a) s = (ok a, s)
  clean_up c (err e) s = settle (err e) (c s)
  clean_up c no_return s = (no_return, s)

  abbrev pub finish : Exec S ⊤ → Result A → S → Result A × S
  finish c (ok a) s = settle (ok a) (c s)
  finish c (err e) s = settle (err e) (c s)
  finish c no_return s = (no_return, s)

  abbrev pub on_error : Exec S ⊤ → Exec S A → Exec S A
  on_error c m s = let (r, s') = m s in clean_up c r s'

  abbrev pub finally : Exec S ⊤ → Exec S A → Exec S A
  finally c m s = let (r, s') = m s in finish c r s'

abbrev pub is_ok : {A : Type 0} → Result A → Bool
is_ok (ok a) = true
is_ok (err e) = false
is_ok no_return = false
