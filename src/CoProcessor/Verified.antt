-- ===== src/CoProcessor/Verified.antt =====
-- The bytes of a file against the bytes of a memory of words.
use alonzo_bootloader_zephyr.Base.{
  ℕ, zero, suc, ◌+◌, ◌-◌, ◌*◌, ◌/◌, ◌%◌, ◌≤◌, ◌<◌, ◌≡◌, refl, sym, ◌∙◌, arith, inl, inr, Bool-cases,
  List, [], ◌∷◌, ◌++◌, length, replicate, ok, u32, ltb,
}
use alonzo_bootloader_zephyr.Base.Bytes.{get_byte}
use alonzo_bootloader_zephyr.FirmwareUpdate.Cell.{Spells}
use alonzo_bootloader_zephyr.CoProcessor.{page_buf_size, smaller, padded}
use alonzo_bootloader_zephyr.CoProcessor.ReadBack.{Shows, Reflects, IsBytes}

-- The byte of a word with the given number, the lowest first.
abbrev pub nth_byte : ℕ → ℕ → ℕ
nth_byte zero x = x % 256
nth_byte (suc j) x = nth_byte j (x / 256)

-- Byte `k` of the memory from `base` on.
abbrev pub byte_of : (ℕ → ℕ) → ℕ → ℕ → ℕ
byte_of m base k = nth_byte (k % 4) (m (u32 (base + k / 4 * 4)))

Shows-nth :
    (n x : ℕ) (bytes : List ℕ) (i j : ℕ)
    → j < n
    → Shows n x bytes i
    → get_byte bytes (i + j) ≡ ok (nth_byte j x)
Shows-nth zero x bytes i j below s = absurd (omega arith)
Shows-nth (suc n) x bytes i zero below s = let e : i + 0 ≡ i = omega arith in rw e s.0
Shows-nth (suc n) x bytes i (suc j) below s =
    let e : i + suc j ≡ i + 1 + j = omega arith in
    rw e (Shows-nth n (x / 256) bytes (i + 1) j (omega arith) s.1)

Reflects-at :
    (m : ℕ → ℕ) (left i : ℕ) (bytes : List ℕ) (chunk base j : ℕ)
    → i % 4 ≡ 0
    → i ≤ j
    → j < chunk
    → j < i + 4 * left
    → Reflects m left i bytes chunk base
    → get_byte bytes j ≡ ok (byte_of m base j)
Reflects-at m zero i bytes chunk base j aligned le below inside r = absurd (omega arith)
Reflects-at m (suc left) i bytes chunk base j aligned le below inside r =
    elim (Bool-cases (ltb j (i + 4))) [
      | inl now ↦
          let near : j < i + 4 = ground arith in
          let at : j / 4 * 4 ≡ i = omega arith in
          let place : i + j % 4 ≡ j = omega arith in
          let n : ℕ = smaller (chunk - i) 4 in
          let short : j % 4 < n = ground arith in
          let shown = Shows-nth n (m (u32 (base + i))) bytes i (j % 4) short r.0 in
          rw at (rw place at shown)
      | inr later ↦
          let far : i + 4 ≤ j = ground arith in
          Reflects-at m left (i + 4) bytes chunk base j (omega arith) far below (omega arith) r.1
    ]

pub get_byte-append :
    (xs ys : List ℕ) (j : ℕ) → j < length xs → get_byte (xs ++ ys) j ≡ get_byte xs j
get_byte-append [] ys j below = absurd (omega arith)
get_byte-append (x ∷ xs) ys zero below = refl
get_byte-append (x ∷ xs) ys (suc j) below = get_byte-append xs ys j (omega arith)

pub get_byte-behind : (xs ys : List ℕ) (j : ℕ) → get_byte (xs ++ ys) (length xs + j) ≡ get_byte ys j
get_byte-behind [] ys j = let e : 0 + j ≡ j = omega arith in rw e refl
get_byte-behind (x ∷ xs) ys j =
    let e : suc (length xs) + j ≡ suc (length xs + j) = omega arith in
    rw e (get_byte-behind xs ys j)

-- Byte for byte.
pub get_byte-Spells :
    (f : ℕ → ℕ) (k : ℕ) (xs : List ℕ)
    → ((j : ℕ) → j < length xs → get_byte xs j ≡ ok (f (k + j)))
    → Spells f (λ x. x) k xs
get_byte-Spells f k [] h = tt
get_byte-Spells f k (x ∷ xs) h =
    let e : k + 0 ≡ k = omega arith in
    let first : ok x ≡ ok (f (k + 0)) = h zero (omega arith) in
    let first' = rw e at first in
    (
      cc,
      get_byte-Spells f (k + 1) xs (λ j below.
          let e' : k + 1 + j ≡ k + suc j = omega arith in rw e' (h (suc j) (omega arith))),
    )

-- A page that is reflected, at an offset that is a multiple of 4.
pub Reflects-Spells :
    (m : ℕ → ℕ) (bytes : List ℕ) (base offset : ℕ)
    → offset % 4 ≡ 0
    → Reflects m ((length bytes + 3) / 4) 0 (padded bytes) (length bytes) (base + offset)
    → Spells (byte_of m base) (λ x. x) offset bytes
Reflects-Spells m bytes base offset aligned r =
    get_byte-Spells (byte_of m base) offset bytes λ j below.
      let rest : (offset + j) % 4 ≡ j % 4 = omega arith in
      let at : base + (offset + j) / 4 * 4 ≡ base + offset + j / 4 * 4 = omega arith in
      let read =
        Reflects-at m ((length bytes + 3) / 4) 0 (padded bytes) (length bytes) (base + offset) j
          refl (omega arith) below (omega arith) r in
      rw (rest, at)
        (sym (get_byte-append bytes (replicate (page_buf_size - length bytes) 0) j below) ∙ read)

pub IsBytes-split : (xs ys : List ℕ) → IsBytes (xs ++ ys) → IsBytes xs × IsBytes ys
IsBytes-split [] ys h = (tt, h)
IsBytes-split (x ∷ xs) ys h = let (hx, hy) = IsBytes-split xs ys h.1 in ((h.0, hx), hy)

zeros-IsBytes : (n : ℕ) → IsBytes (replicate n 0)
zeros-IsBytes zero = tt
zeros-IsBytes (suc n) = (omega arith, zeros-IsBytes n)

IsBytes-append : (xs ys : List ℕ) → IsBytes xs → IsBytes ys → IsBytes (xs ++ ys)
IsBytes-append [] ys h h' = h'
IsBytes-append (x ∷ xs) ys h h' = (h.0, IsBytes-append xs ys h.1 h')

pub padded-IsBytes : (bytes : List ℕ) → IsBytes bytes → IsBytes (padded bytes)
padded-IsBytes bytes h = IsBytes-append bytes _ h (zeros-IsBytes (page_buf_size - length bytes))
