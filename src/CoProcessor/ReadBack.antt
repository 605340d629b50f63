-- ===== src/CoProcessor/ReadBack.antt =====
-- What a successful verification says of the co-processor's memory.
use native.Mathlib.Nat.{pow-succ'}
use alonzo_bootloader_zephyr.Base.{
  ℕ, zero, suc, ◌+◌, ◌-◌, ◌*◌, ◌/◌, ◌%◌, ◌^◌, ◌≤◌, ◌<◌, ◌≡◌, refl, sym, ◌∙◌, ap, arith, List, [],
  ◌∷◌, All, Result, ok, err, no_return, eio, bit_and, u32, lift, ◌==◌,
}
use alonzo_bootloader_zephyr.Base.Hoare.{
  Post, Triple-pure, Triple-raise, Triple-if, Triple-bind, Triple-mono,
}
use alonzo_bootloader_zephyr.Base.Bytes.{get_byte}
use alonzo_bootloader_zephyr.Base.Yields.{Yields, Yields-ok, Yields-bind}
use alonzo_bootloader_zephyr.Bits.{mod_byte, bit_and-mask}
use alonzo_bootloader_zephyr.Board.{Board, Platform, on_target}
use alonzo_bootloader_zephyr.Swd.Port.{SwdPort}
use alonzo_bootloader_zephyr.Dap.Port.{DebugPort}
use alonzo_bootloader_zephyr.Dap.Memory.{Done}
use alonzo_bootloader_zephyr.Flm.{on_core}
use alonzo_bootloader_zephyr.Flm.Format.{Session}
use alonzo_bootloader_zephyr.Flm.Memory.{IsMemory}
use alonzo_bootloader_zephyr.CoProcessor.{word_of, tail_mask, smaller, verify_word, verify_words}

-- The low bytes of `w` are those of the buffer from `i` on.
abbrev Spelled : ℕ → ℕ → List ℕ → ℕ → Type 0
Spelled zero w bytes i = w ≡ 0
Spelled (suc n) w bytes i =
    (b : ℕ) × (w' : ℕ) × (get_byte bytes i ≡ ok b) × (w ≡ b + 256 * w') × Spelled n w' bytes (i + 1)

-- The same of the `n` low bytes of a word of memory, which may have more.
abbrev pub Shows : ℕ → ℕ → List ℕ → ℕ → Type 0
Shows zero x bytes i = Unit
Shows (suc n) x bytes i = (get_byte bytes i ≡ ok (x % 256)) × Shows n (x / 256) bytes (i + 1)

abbrev pub IsBytes : List ℕ → Type 0
IsBytes = All (λ b. b < 256)

pub get_byte-lt : (bytes : List ℕ) (i b : ℕ) → IsBytes bytes → get_byte bytes i ≡ ok b → b < 256
get_byte-lt [] i b h e = absurd (cc)
get_byte-lt (x ∷ xs) zero b h e = let same : x ≡ b = cc in rw (← same) h.0
get_byte-lt (x ∷ xs) (suc i) b h e = get_byte-lt xs i b h.1 e

byte-Yields : (bytes : List ℕ) (i : ℕ) → Yields (λ b. get_byte bytes i ≡ ok b) (get_byte bytes i)
byte-Yields bytes i = record { at = λ b e. e }

word_of-Spelled :
    (n : ℕ) (bytes : List ℕ) (i : ℕ) → Yields (λ w. Spelled n w bytes i) (word_of n bytes i)
unfolding word_of
word_of-Spelled zero bytes i = Yields-ok (λ w. w ≡ 0) 0 refl
word_of-Spelled (suc n) bytes i = Yields-bind (get_byte bytes i) _ (byte-Yields bytes i) λ b e.
    Yields-bind (word_of n bytes (i + 1)) _ (word_of-Spelled n bytes (i + 1))
      λ w' s. Yields-ok (λ w. Spelled (suc n) w bytes i) (b + 256 * w') (b, w', e, refl, s)

pub pow-pos : (n : ℕ) → 1 ≤ 256 ^ n
pow-pos zero = omega arith
pow-pos (suc n) = omega (arith, pow-succ' 256 n, pow-pos n)

-- Words that agree in their low bytes show the same bytes.
Spelled-Shows :
    (n x w : ℕ) (bytes : List ℕ) (i : ℕ)
    → IsBytes bytes
    → Spelled n w bytes i
    → x % 256 ^ n ≡ w % 256 ^ n
    → Shows n x bytes i
Spelled-Shows zero x w bytes i small s e = tt
Spelled-Shows (suc n) x w bytes i small (b, w', eb, ew, s) e =
    let m : ℕ = 256 ^ n in
    let pow : 256 ^ suc n ≡ 256 * m = omega (arith, pow-succ' 256 n) in
    let below : b < 256 = get_byte-lt bytes i b small eb in
    let quotient : w / 256 ≡ w' = omega arith in
    let both = rw pow at e in
    let digits_x = mod_byte m x (pow-pos n) in
    let digits_w = mod_byte m w (pow-pos n) in
    let low : b ≡ x % 256 = omega arith in
    let high : x / 256 % m ≡ w / 256 % m = omega arith in
    (
      eb ∙ ap ok low,
      Spelled-Shows n (x / 256) w' bytes (i + 1) small s (high ∙ ap (λ q. q % m) quotient),
    )

pub tail_mask-mod : (n x : ℕ) → n ≤ 4 → bit_and x (tail_mask n) ≡ x % 256 ^ n
tail_mask-mod zero x h = bit_and-mask 0 x
tail_mask-mod (suc zero) x h = bit_and-mask 8 x
tail_mask-mod (suc (suc zero)) x h = bit_and-mask 16 x
tail_mask-mod (suc (suc (suc zero))) x h = bit_and-mask 24 x
tail_mask-mod (suc (suc (suc (suc zero)))) x h = bit_and-mask 32 x
tail_mask-mod (suc (suc (suc (suc (suc n))))) x h = absurd (omega arith)

-- The bytes of a page from index `i` on, word by word, are those of the memory at `base + i`.
abbrev pub Reflects : (ℕ → ℕ) → ℕ → ℕ → List ℕ → ℕ → ℕ → Type 0
Reflects m zero i bytes chunk base = Unit
Reflects m (suc left) i bytes chunk base =
    Shows (smaller (chunk - i) 4) (m (u32 (base + i))) bytes i
    × Reflects m left (i + 4) bytes chunk base

module _ {S : Type 0} (p : Platform) (swd : SwdPort S) (port : DebugPort S) (memory : S → ℕ → ℕ)
    (top : ℕ) (law : IsMemory port memory top) (m : ℕ → ℕ) (P : Board (Session S) → Type 0)
    (untouched : (b : Board (Session S)) (t : Session S) → P b → P (record b { target = t })) where
  -- The memory is `m`, and `P` holds, which is about the STM32's side only.
  abbrev pub At : Board (Session S) → Type 0
  At b = P b × (memory b.target.core ≡ m)

  moved :
      {A : Type 0} (Q : A → Type 0) (r : Result A) (core : S) (b : Board (Session S))
      → P b
      → Post (λ v s. Q v × (memory s ≡ m)) (λ _. Unit) (r, core)
      → Post
          (λ v b'. Q v × At b')
          (λ _. Unit)
          (r, record b { target = record (b.target) { core = core } })
  moved Q (ok v) core b pre h = (h.0, (untouched b _ pre, h.1))
  moved Q (err e) core b pre h = tt
  moved Q no_return core b pre h = tt

  read_word :
      (addr : ℕ)
      → addr < top
      → Done At (on_target (on_core (port.mem_read32 addr))) (λ v b. (v ≡ m addr) × At b)
  read_word addr below = record {
    at = λ b h.
        let (r, core) = port.mem_read32 addr b.target.core in
        moved (λ v. v ≡ m addr) r core b h.0 ((law.reads m addr below).at b.target.core h.1);
  }

  verify_word-mod :
      (n addr expected : ℕ)
      → n ≤ 4
      → addr < top
      → Done At
          (verify_word p swd port n addr expected)
          (λ _ b. (m addr % 256 ^ n ≡ expected % 256 ^ n) × At b)
  unfolding verify_word
  verify_word-mod n addr expected le below = Triple-bind _ _ (read_word addr below) λ actual.
      Triple-if (bit_and actual (tail_mask n) == bit_and expected (tail_mask n)) _ _
        (λ e.
          let same : bit_and actual (tail_mask n) ≡ bit_and expected (tail_mask n) = ground arith in
          Triple-pure tt λ b h. (
            ap (λ v. v % 256 ^ n) (sym h.0)
                ∙ (sym (tail_mask-mod n actual le) ∙ (same ∙ tail_mask-mod n expected le)),
            h.1,
          ))
        (λ _. Triple-raise eio (λ b h. tt))

  fetched :
      (n : ℕ) (bytes : List ℕ) (i : ℕ) (r : Result ℕ) (b : Board (Session S))
      → ((w : ℕ) → r ≡ ok w → Spelled n w bytes i)
      → At b
      → Post (λ w b. Spelled n w bytes i × At b) (λ _. Unit) (r, b)
  fetched n bytes i (ok w) b s h = (s w refl, h)
  fetched n bytes i (err e) b s h = tt
  fetched n bytes i no_return b s h = tt

  -- If the words of a page below the limit `top` of the memory are verified, they show the bytes of
  -- the page, and the memory is as it was.
  pub verify_words-Reflects :
      (left i : ℕ) (bytes : List ℕ) (chunk base : ℕ)
      → IsBytes bytes
      → base + i + 4 * left ≤ top
      → top ≤ 2 ^ 32
      → Done At
          (verify_words p swd port left i bytes chunk base)
          (λ _ b. Reflects m left i bytes chunk base × At b)
  unfolding verify_words
  verify_words-Reflects zero i bytes chunk base small fits low = Triple-pure tt (λ b h. (tt, h))
  verify_words-Reflects (suc left) i bytes chunk base small fits low =
      let n : ℕ = smaller (chunk - i) 4 in
      let le : n ≤ 4 = ground arith in
      let x : ℕ = m (u32 (base + i)) in
      Triple-bind (lift (word_of n bytes i)) _
        (record {
          at = λ b h. fetched n bytes i (word_of n bytes i) b (word_of-Spelled n bytes i).at h;
        })
        λ w. record {
          at = λ b h.
              (Triple-bind _ _ (verify_word-mod n (u32 (base + i)) w le (omega arith)) λ _. record {
                at = λ b' h'.
                    let shown = Spelled-Shows n x w bytes i small h.0 h'.0 in
                    (Triple-mono _
                        (verify_words-Reflects left (i + 4) bytes chunk base small (omega arith)
                          low)
                        (λ _ q. q) (λ _ b'' q. ((shown, q.0), q.1)) (λ _ u. u)).at
                      b' h'.1;
              }).at
                b h.1;
        }
