-- ===== src/Base/Safely.antt =====
-- Computations without a state that come back, and reads inside a buffer.
use mathlib.Core.Path.{◌≡◌, refl, sym, ◌∙◌, ap}
use mathlib.Core.Bool.{Bool, true, false}
use Prim.Native.Nat.{ℕ, zero, suc, ◌+◌}
use mathlib.Core.List.{List, [], ◌∷◌}
use alonzo_bootloader_zephyr.Base.{
  ◌≤◌, ◌<◌, ◌≢◌, arith, length, ltb, Bool-cases, inl, inr, All, Errno, Result, ok, err, no_return,
  ◌==◌, if◌then◌else◌,
}
use alonzo_bootloader_zephyr.Base.Bytes.{◌>>=◌, get_byte, is_text, read16, read32}

module _ {A : Type 0} where
  abbrev pub Lands : (A → Type 0) → Result A → Type 0
  Lands Q (ok a) = Q a
  Lands Q (err e) = Unit
  Lands Q no_return = ⊥

  -- The computation comes back, and its value has the property.
  pub record Safe (Q : A → Type 0) (m : Result A) : Type 0 where
    pub at : Lands Q m

  pub Safe-ok : {Q : A → Type 0} (a : A) → Q a → Safe Q (ok a)
  Safe-ok a q = record { at = q }

  pub Safe-err : {Q : A → Type 0} (e : Errno) → Safe Q (err e)
  Safe-err e = record { at = tt }

  pub Safe-if :
      {Q : A → Type 0} (b : Bool) (m n : Result A)
      → (b ≡ true → Safe Q m)
      → (b ≡ false → Safe Q n)
      → Safe Q (if b then m else n)
  Safe-if true m n hm hn = hm refl
  Safe-if false m n hm hn = hn refl

  pub Safe-returns : {Q : A → Type 0} (m : Result A) → Safe Q m → m ≢ no_return
  Safe-returns (ok a) h e = cc
  Safe-returns (err a) h e = cc
  Safe-returns no_return h e = h.at

pub Safe-bind :
    {A B : Type 0} {R : A → Type 0} {Q : B → Type 0} (m : Result A) (f : A → Result B)
    → Safe R m
    → ((a : A) → m ≡ ok a → R a → Safe Q (f a))
    → Safe Q (m >>= f)
Safe-bind (ok a) f hm hf = hf a refl hm.at
Safe-bind (err e) f hm hf = record { at = tt }
Safe-bind no_return f hm hf = absurd (hm.at)

pub get_byte-Safe :
    (bytes : List ℕ) (i : ℕ) → i < length bytes → Safe (λ _. Unit {0}) (get_byte bytes i)
get_byte-Safe [] i inside = absurd (omega arith)
get_byte-Safe (x ∷ xs) zero inside = Safe-ok x tt
get_byte-Safe (x ∷ xs) (suc i) inside = get_byte-Safe xs i (omega arith)

pub read16-Safe :
    (bytes : List ℕ) (i : ℕ) → i + 2 ≤ length bytes → Safe (λ _. Unit {0}) (read16 bytes i)
unfolding read16
read16-Safe bytes i inside =
    Safe-bind (get_byte bytes i) _ (get_byte-Safe bytes i (omega arith)) λ _ _ _.
      Safe-bind (get_byte bytes (i + 1)) _ (get_byte-Safe bytes (i + 1) (omega arith))
        λ _ _ _. Safe-ok _ tt

pub read32-Safe :
    (bytes : List ℕ) (i : ℕ) → i + 4 ≤ length bytes → Safe (λ _. Unit {0}) (read32 bytes i)
unfolding read32
read32-Safe bytes i inside =
    Safe-bind (get_byte bytes i) _ (get_byte-Safe bytes i (omega arith)) λ _ _ _.
      Safe-bind (get_byte bytes (i + 1)) _ (get_byte-Safe bytes (i + 1) (omega arith)) λ _ _ _.
        Safe-bind (get_byte bytes (i + 2)) _ (get_byte-Safe bytes (i + 2) (omega arith)) λ _ _ _.
          Safe-bind (get_byte bytes (i + 3)) _ (get_byte-Safe bytes (i + 3) (omega arith))
            λ _ _ _. Safe-ok _ tt

-- A comparison with a text does not run over a zero behind its start.
pub is_text-Safe :
    (want bytes : List ℕ) (i last : ℕ)
    → All (λ c. 1 ≤ c) want
    → i ≤ last
    → last < length bytes
    → get_byte bytes last ≡ ok 0
    → Safe (λ _. Unit {0}) (is_text want bytes i)
is_text-Safe [] bytes i last text before inside zero_there =
    Safe-bind (get_byte bytes i) _ (get_byte-Safe bytes i (omega arith)) λ _ _ _. Safe-ok _ tt
is_text-Safe (x ∷ xs) bytes i last text before inside zero_there =
    Safe-bind (get_byte bytes i) _ (get_byte-Safe bytes i (omega arith)) λ c here _.
      Safe-if (c == x) _ _
        (λ same.
          let here_last : i ≡ last → ◌≡◌ {A = Result ℕ} (ok c) (ok 0) =
            λ e. sym here ∙ (ap (get_byte bytes) e ∙ zero_there) in
          is_text-Safe xs bytes (i + 1) last text.1 (further c same here_last) inside zero_there)
        (λ _. Safe-ok _ tt)
  where
    further :
        (c : ℕ) → (c == x) ≡ true → (i ≡ last → ◌≡◌ {A = Result ℕ} (ok c) (ok 0)) → i + 1 ≤ last
    further c same h = elim (Bool-cases (ltb i last)) [
      | inl f ↦ ground arith
      | inr f ↦
          let at_last : i ≡ last = ground arith in
          let both : ◌≡◌ {A = Result ℕ} (ok c) (ok 0) = h at_last in
          let is_zero : c ≡ 0 = cc in
          let is_x : c ≡ x = ground arith in absurd (omega (arith, text.0))
    ]
