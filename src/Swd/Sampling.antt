-- ===== src/Swd/Sampling.antt =====
-- Reading bits: the word that `read_bits` assembles, and what reading leaves on the wire.
use alonzo_bootloader_zephyr.Base.{
  ℕ, zero, suc, ◌+◌, ◌*◌, ◌/◌, ◌^◌, ◌≤◌, ◌<◌, ◌≡◌, refl, ◌∙◌, ap, arith, Bool, true, false, List,
  [], ◌∷◌, ok, to_int, bit_or, u32,
}
use native.Mathlib.Nat.{add-zero, pow-succ', pow-le-pow_right}
use native.Mathlib.Numerals.{add-one}
use alonzo_bootloader_zephyr.Base.Hoare.{Triple}
use alonzo_bootloader_zephyr.Bits.{bit_or_above}
use alonzo_bootloader_zephyr.Swd.{is_high, set_bit, sample_cycle, read_bits_from, read_bits}
use alonzo_bootloader_zephyr.Swd.Wire.{swdio, get_raw, Trace, Gpio, Link}
use alonzo_bootloader_zephyr.Swd.Waveform.{IsIdle, Has, bits_of}

-- The number of times that SWDIO was read.
abbrev pub samples : Trace → ℕ
samples [] = 0
samples (get_raw swdio ∷ t) = suc (samples t)
samples (_ ∷ t) = samples t

-- The word whose bits, the lowest first, are given.
unfoldable pub from_bits : List ℕ → ℕ
from_bits [] = 0
from_bits (b ∷ bs) = b + 2 * from_bits bs

-- The window of `count` answers of the target that begins at answer `k`.
unfoldable pub window : (ℕ → Bool) → ℕ → ℕ → List ℕ
window stream k zero = []
window stream k (suc count) = to_int (stream k) ∷ window stream (k + 1) count

pub from_bits-bits_of : (count v : ℕ) → v < 2 ^ count → from_bits (bits_of v count) ≡ v
unfolding from_bits bits_of
from_bits-bits_of zero v h = omega arith
from_bits-bits_of (suc count) v h =
    omega (arith, from_bits-bits_of count (v / 2) (omega (arith, pow-succ' 2 count)))

-- The target answers by its bit stream, one bit for each time that SWDIO is read.
abbrev pub Answers : Gpio → (ℕ → Bool) → Type 0
Answers gpio stream = (t : Trace) → gpio.reads t swdio ≡ ok (to_int (stream (samples t)))

two-pow-lt : (i : ℕ) → i < 32 → 2 ^ i < 2 ^ 32
two-pow-lt i h =
    omega (arith, pow-le-pow_right {n = 2} (omega arith) {i = i} {j = 31} (omega arith))

set_bit-eq :
    (high : Bool) (i value : ℕ)
    → i < 32
    → value < 2 ^ i
    → set_bit high i value ≡ value + 2 ^ i * to_int high
unfolding set_bit
set_bit-eq true i value fits small =
    omega (arith, two-pow-lt i fits, bit_or_above i 1 value small, ap (bit_or value) wrap)
  where
    wrap : u32 (1 * 2 ^ i) ≡ 1 * 2 ^ i
    wrap = omega (arith, two-pow-lt i fits)
set_bit-eq false i value fits small = omega arith

set_bit-lt :
    (high : Bool) (i value : ℕ) → i < 32 → value < 2 ^ i → set_bit high i value < 2 ^ (i + 1)
set_bit-lt true i value fits small =
    omega (arith, set_bit-eq true i value fits small, pow-succ' 2 i, ap (λ n. 2 ^ n) (add-one i))
set_bit-lt false i value fits small =
    omega (arith, set_bit-eq false i value fits small, pow-succ' 2 i, ap (λ n. 2 ^ n) (add-one i))

is_high-to_int : (b : Bool) → is_high (ok (to_int b)) ≡ b
unfolding is_high
is_high-to_int true = refl
is_high-to_int false = refl

module _ (gpio : Gpio) where
  sample_cycle-Has :
      (n : ℕ) (bits : List ℕ) (l : Link)
      → Has false n bits l
      → Has false (n + 1) bits (sample_cycle gpio l).1
  unfolding sample_cycle
  sample_cycle-Has n bits l h = ground arith

  sample_cycle-samples : (l : Link) → samples (sample_cycle gpio l).1.trace ≡ samples l.trace + 1
  unfolding sample_cycle
  sample_cycle-samples l = ground arith

  read_bits_from-Has :
      (count i value n : ℕ) (bits : List ℕ) (l : Link)
      → Has false n bits l
      → Has false (n + count) bits (read_bits_from gpio count i value l).1
  unfolding read_bits_from
  read_bits_from-Has zero i value n bits l h = rw add-zero h
  read_bits_from-Has (suc count) i value n bits l h =
      let (high, l') = sample_cycle gpio l in
      let e : n + 1 + count ≡ n + suc count = omega arith in
      rw e at (
        read_bits_from-Has count (i + 1) (set_bit high i value) (n + 1) bits l'
          (sample_cycle-Has n bits l h))

  -- Reading leaves the driven bits alone, and takes one clock cycle for each bit.
  pub read_bits-Has :
      (count n : ℕ) (bits : List ℕ)
      → Triple (Has false n bits) (read_bits gpio count) (λ _. Has false (n + count) bits) IsIdle
  unfolding read_bits
  read_bits-Has count n bits = record { at = λ l h. read_bits_from-Has count 0 0 n bits l h }

  module _ (stream : ℕ → Bool) (answers : Answers gpio stream) where
    sample_cycle-answer : (l : Link) → (sample_cycle gpio l).0 ≡ stream (samples l.trace)
    unfolding sample_cycle
    sample_cycle-answer l = rw answers (is_high-to_int (stream (samples l.trace)))

    -- With `i` bits in place.
    read_bits_from-window :
        (count i value k : ℕ) (l : Link)
        → i + count ≤ 32
        → value < 2 ^ i
        → samples l.trace ≡ k
        → (read_bits_from gpio count i value l).0
          ≡ value + 2 ^ i * from_bits (window stream k count)
    unfolding read_bits_from from_bits window
    read_bits_from-window zero i value k l fits small at_k = omega arith
    read_bits_from-window (suc count) i value k l fits small at_k =
        let (high, l') = sample_cycle gpio l in
        let value' = set_bit high i value in
        let rest = from_bits (window stream (k + 1) count) in
        let heard : to_int high ≡ to_int (stream k) =
          ap to_int (rw at_k at (sample_cycle-answer l)) in
        let set : value' ≡ value + 2 ^ i * to_int high =
          set_bit-eq high i value (omega arith) small in
        let double : 2 ^ (i + 1) ≡ 2 * 2 ^ i = simp add-one (pow-succ' 2 i) in
        omega (
          arith,
          set,
          ap (λ (t : ℕ). 2 ^ i * t) heard,
          ap (λ (t : ℕ). t * rest) double,
          read_bits_from-window count (i + 1) value' (k + 1) l' (omega arith)
              (set_bit-lt high i value (omega arith) small)
              (sample_cycle-samples l ∙ ap (λ (t : ℕ). t + 1) at_k),
        )

    -- Up to 32 bits, the word is the one whose bits the target answers, the lowest first.
    pub read_bits-window :
        (count k : ℕ) (l : Link)
        → count ≤ 32
        → samples l.trace ≡ k
        → (read_bits gpio count l).0 ≡ ok (from_bits (window stream k count))
    unfolding read_bits
    read_bits-window count k l fits at_k =
        let word : ℕ = (read_bits_from gpio count 0 0 l).0 in
        let e = read_bits_from-window count 0 0 k l (omega arith) (omega arith) at_k in
        ap ok (omega (arith, e))

    -- If the answers from answer `k` on are the lowest bits of a word that fits in them, the lowest
    -- first, then that word is what is read.
    pub read_bits-roundtrip :
        (count v : ℕ) (l : Link)
        → count ≤ 32
        → v < 2 ^ count
        → window stream (samples l.trace) count ≡ bits_of v count
        → (read_bits gpio count l).0 ≡ ok v
    read_bits-roundtrip count v l fits small sent =
        read_bits-window count (samples l.trace) l fits refl
        ∙ ap ok (ap from_bits sent ∙ from_bits-bits_of count v small)
