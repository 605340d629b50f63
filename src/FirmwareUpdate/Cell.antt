-- ===== src/FirmwareUpdate/Cell.antt =====
-- The flash as the recorded driver calls leave it, byte by byte, and the bytes read from the file.
use alonzo_bootloader_zephyr.Base.{
  ℕ, suc, ◌+◌, ◌≤◌, ◌<◌, ◌≡◌, refl, arith, Bool, true, ◌&&◌, ltb, leb, ◌==◌, List, [], ◌∷◌, ◌++◌,
  length, length-append, Option, none, some, if◌then◌else◌, inl, inr, Bool-cases,
}
use alonzo_bootloader_zephyr.Board.{Trace, flash_erased, flash_written}

-- A byte of the flash: programming is only defined on an erased byte.
pub data Cell : Type 0 where
  untouched erased spoiled : Cell
  holds : ℕ → Cell

abbrev pub program : Bool → Cell → Option ℕ → Cell
program done c none = c
program true erased (some x) = holds x
program done c (some x) = spoiled

-- The byte that a write of `bytes` at offset `off` has for offset `a`.
abbrev pub byte_at : List ℕ → ℕ → ℕ → Option ℕ
byte_at [] off a = none
byte_at (x ∷ xs) off a = if a == off then some x else byte_at xs (off + 1) a

abbrev pub cell : Trace → ℕ → Cell
cell [] a = untouched
cell (flash_erased off size done ∷ t) a =
    if leb off a && ltb a (off + size) then (if done then erased else spoiled) else cell t a
cell (flash_written off bytes done ∷ t) a = program done (cell t a) (byte_at bytes off a)
cell (_ ∷ t) a = cell t a

-- From `a` on, `f` has the given bytes.
abbrev pub Spells : {V : Type 0} → (ℕ → V) → (ℕ → V) → ℕ → List ℕ → Type 0
Spells f tag a [] = Unit
Spells f tag a (x ∷ xs) = (f a ≡ tag x) × Spells f tag (a + 1) xs

pub Spells-map :
    {V W : Type 0} (f : ℕ → V) (tag : ℕ → V) (g : ℕ → W) (tag' : ℕ → W) (a : ℕ) (xs : List ℕ)
    → ((y x : ℕ) → a ≤ y → y < a + length xs → f y ≡ tag x → g y ≡ tag' x)
    → Spells f tag a xs
    → Spells g tag' a xs
Spells-map f tag g tag' a [] h s = tt
Spells-map f tag g tag' a (x ∷ xs) h s = (
  h a x (omega arith) (omega arith) s.0,
  Spells-map f tag g tag' (a + 1) xs (λ y z lo hi e. h y z (omega arith) (omega arith) e) s.1,
)

pub Spells-append :
    {V : Type 0} (f : ℕ → V) (tag : ℕ → V) (a : ℕ) (xs ys : List ℕ)
    → Spells f tag a xs
    → Spells f tag (a + length xs) ys
    → Spells f tag a (xs ++ ys)
Spells-append f tag a [] ys s s' = let e : a + 0 ≡ a = omega arith in rw e at s'
Spells-append f tag a (x ∷ xs) ys s s' =
    let e : a + suc (length xs) ≡ a + 1 + length xs = omega arith in
    (s.0, Spells-append f tag (a + 1) xs ys s.1 (rw e at s'))

byte_at-Spells : (xs : List ℕ) (off : ℕ) → Spells (byte_at xs off) some off xs
byte_at-Spells [] off = tt
byte_at-Spells (x ∷ xs) off = (
  ground arith,
  Spells-map (byte_at xs (off + 1)) some (byte_at (x ∷ xs) off) some (off + 1) xs
      (λ y z lo hi e. ground arith) (byte_at-Spells xs (off + 1)),
)

byte_at-below : (xs : List ℕ) (off a : ℕ) → a < off → byte_at xs off a ≡ none
byte_at-below [] off a h = refl
byte_at-below (x ∷ xs) off a h = ground (arith, byte_at-below xs (off + 1) a (omega arith))

byte_at-above : (xs : List ℕ) (off a : ℕ) → off + length xs ≤ a → byte_at xs off a ≡ none
byte_at-above [] off a h = refl
byte_at-above (x ∷ xs) off a h = ground (arith, byte_at-above xs (off + 1) a (omega arith))

-- Every byte of the range is erased.
abbrev pub Fresh : Trace → ℕ → ℕ → Type 0
Fresh t from to = (a : ℕ) → from ≤ a → a < to → cell t a ≡ erased

-- The bytes of `xs` stand at `low`, and the rest up to `high` is erased.
pub record Burnt (low high : ℕ) (xs : List ℕ) (t : Trace) : Type 0 where
  pub image : Spells (cell t) holds low xs
  pub margin : Fresh t (low + length xs) high

pub erase-Fresh :
    (t : Trace) (low off start size : ℕ)
    → start ≤ off
    → Fresh t low off
    → Fresh (flash_erased start size true ∷ t) low (start + size)
erase-Fresh t low off start size le fresh a lo hi = elim (Bool-cases (ltb a off)) [
  | inl below ↦ let e = fresh a lo (ground arith) in ground arith
  | inr above ↦ ground arith
]

-- A write behind the image, inside the erased rest, extends the image.
pub write-Burnt :
    (low high : ℕ) (xs bytes : List ℕ) (t : Trace)
    → low + length xs + length bytes ≤ high
    → Burnt low high xs t
    → Burnt low high (xs ++ bytes) (flash_written (low + length xs) bytes true ∷ t)
write-Burnt low high xs bytes t fits b =
    let off : ℕ = low + length xs in
    let t' : Trace = flash_written off bytes true ∷ t in
    record {
      image =
          Spells-append (cell t') holds low xs bytes
            (Spells-map (cell t) holds (cell t') holds low xs
              (λ y x lo hi e. let none_there = byte_at-below bytes off y hi in ground arith)
              b.image)
            (Spells-map (byte_at bytes off) some (cell t') holds off bytes
              (λ y x lo hi e. let blank = b.margin y lo (omega arith) in ground arith)
              (byte_at-Spells bytes off));
      margin = λ a lo hi.
          let len = length-append xs bytes in
          let none_there = byte_at-above bytes off a (omega arith) in
          let blank = b.margin a (omega arith) hi in ground arith;
    }
