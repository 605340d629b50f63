-- ===== src/Base/Bytes.antt =====
-- Reads from a buffer of bytes. A read outside it is undefined behaviour.
use Prim.Native.Nat.{ℕ, zero, suc, ◌+◌, bit_or}
use Prim.Native.Char.{code}
use Prim.Native.String.{String}
use mathlib.Core.Bool.{Bool, false}
use mathlib.Core.List.{List, [], ◌∷◌}
use alonzo_bootloader_zephyr.Base.Tests.{◌==◌, if◌then◌else◌}
use alonzo_bootloader_zephyr.Base.Word.{◌<<<◌}
use alonzo_bootloader_zephyr.Base.Outcome.{Result, ok, err, no_return}

-- A chain of results, where `Exec` would carry no state.
module _ {A B : Type 0} where
  infixl 5 ◌>>=◌
  abbrev pub ◌>>=◌ : Result A → (A → Result B) → Result B
  ok a >>= f = f a
  err e >>= f = err e
  no_return >>= f = no_return

abbrev pub drop {ℓ} : {A : Type ℓ} → ℕ → List A → List A
drop zero xs = xs
drop (suc n) [] = []
drop (suc n) (x ∷ xs) = drop n xs

abbrev pub get_byte : List ℕ → ℕ → Result ℕ
get_byte [] i = no_return
get_byte (x ∷ xs) zero = ok x
get_byte (x ∷ xs) (suc i) = get_byte xs i

-- `p[0] | p[1] << 8`, and the same of four bytes: on the little-endian STM32 also what `memcpy`
-- puts into a word.
unfoldable pub read16 : List ℕ → ℕ → Result ℕ
read16 bytes i = do b0 ← get_byte bytes i; b1 ← get_byte bytes (i + 1); ok (bit_or b0 (b1 <<< 8))

unfoldable pub read32 : List ℕ → ℕ → Result ℕ
read32 bytes i = do
  b0 ← get_byte bytes i
  b1 ← get_byte bytes (i + 1)
  b2 ← get_byte bytes (i + 2)
  b3 ← get_byte bytes (i + 3)
  ok (bit_or (bit_or (bit_or b0 (b1 <<< 8)) (b2 <<< 16)) (b3 <<< 24))

-- `strcmp(p + i, text) == 0`, which reads up to the first difference; the text ends with a zero.
abbrev pub is_text : List ℕ → List ℕ → ℕ → Result Bool
is_text [] bytes i = do c ← get_byte bytes i; ok (c == 0)
is_text (x ∷ xs) bytes i =
    let rest = is_text xs bytes (i + 1) in
    do c ← get_byte bytes i; if c == x then rest else ok false

-- The codes of a text.
abbrev pub codes : String → List ℕ
codes String.[] = []
codes (String.◌∷◌ c s) = code c ∷ codes s
