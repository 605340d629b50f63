-- ===== src/Swd/Waveform.antt =====
-- The calls of the SWD master as a waveform: the levels of the two lines, and the bits that a target
-- sees the host drive at the rising edges of SWCLK.
use alonzo_bootloader_zephyr.Base.{
  ℕ, zero, suc, ◌+◌, ◌/◌, ◌%◌, ◌^◌, ◌≡◌, arith, Bool, true, false, List, [], ◌∷◌, ◌==◌,
  if◌then◌else◌, bit_and,
}
use mathlib.Core.Path.{subst}
use mathlib.Core.List.{reverse_aux}
use native.Mathlib.Nat.{add-zero, pow-suc, div-div-eq-div-mul}
use native.Mathlib.Numerals.{add-one}
use alonzo_bootloader_zephyr.Bits.{bit_and-one}
use alonzo_bootloader_zephyr.Swd.{swclk_cycle, swdio_set, write_bits_from, write_bits}
use alonzo_bootloader_zephyr.Swd.Wire.{
  swclk, swdio, output_low, input_pull_up, configure, set_raw, Trace, Link,
}

abbrev pub clock_level : Trace → ℕ
clock_level [] = 0
clock_level (set_raw swclk level ∷ t) = level
clock_level (configure swclk output_low true ∷ t) = 0
clock_level (_ ∷ t) = clock_level t

-- While SWDIO is released its pull-up holds it high.
abbrev pub data_level : Trace → ℕ
data_level [] = 1
data_level (set_raw swdio level ∷ t) = level
data_level (configure swdio output_low true ∷ t) = 0
data_level (configure swdio input_pull_up true ∷ t) = 1
data_level (_ ∷ t) = data_level t

-- Whether the last configuration of SWDIO that the driver accepted made it an output.
abbrev pub is_driven : Trace → Bool
is_driven [] = false
is_driven (configure swdio output_low true ∷ t) = true
is_driven (configure swdio input_pull_up true ∷ t) = false
is_driven (_ ∷ t) = is_driven t

-- The bits that the host drove at the rising edges, the latest first.
abbrev pub driven_bits : Trace → List ℕ
driven_bits [] = []
driven_bits (set_raw swclk (suc level) ∷ t) =
    if is_driven t
    then (if clock_level t == 0 then data_level t ∷ driven_bits t else driven_bits t)
    else driven_bits t
driven_bits (_ ∷ t) = driven_bits t

-- The number of rising edges of SWCLK.
abbrev pub edges : Trace → ℕ
edges [] = 0
edges (set_raw swclk (suc level) ∷ t) = (if clock_level t == 0 then 1 else 0) + edges t
edges (_ ∷ t) = edges t

-- The clock is low, and the module's flag agrees with the pin.
pub record IsIdle (l : Link) : Type 0 where
  pub clock_low : clock_level l.trace ≡ 0
  pub direction : is_driven l.trace ≡ l.swdio_is_output

-- The `n` lowest bits of a word, in the order of transmission.
unfoldable pub bits_of : ℕ → ℕ → List ℕ
bits_of v zero = []
bits_of v (suc n) = v % 2 ∷ bits_of (v / 2) n

-- `l` is idle in the given direction, after the given clock edges and driven bits.
pub record Has (output : Bool) (clocks : ℕ) (bits : List ℕ) (l : Link) : Type 0 where
  pub idle : IsIdle l
  pub direction : l.swdio_is_output ≡ output
  pub clock_edges : edges l.trace ≡ clocks
  pub driven : driven_bits l.trace ≡ bits

-- A clock cycle in output mode hands the level of SWDIO to the target.
pub swclk_cycle-Has :
    (n : ℕ) (bits : List ℕ) (l : Link)
    → Has true n bits l
    → Has true (n + 1) (data_level l.trace ∷ bits) (swclk_cycle l)
unfolding swclk_cycle
swclk_cycle-Has n bits l h = ground arith

-- One in input mode does not.
pub swclk_cycle-released :
    (n : ℕ) (bits : List ℕ) (l : Link) → Has false n bits l → Has false (n + 1) bits (swclk_cycle l)
unfolding swclk_cycle
swclk_cycle-released n bits l h = ground arith

pub swdio_set-Has :
    (n : ℕ) (bits : List ℕ) (level : ℕ) (l : Link)
    → Has true n bits l
    → Has true n bits (swdio_set level l)
unfolding swdio_set
swdio_set-Has n bits level l h = ground arith

drive_bit-Has :
    (n : ℕ) (bits : List ℕ) (level : ℕ) (l : Link)
    → Has true n bits l
    → Has true (n + 1) (level ∷ bits) (swclk_cycle (swdio_set level l))
unfolding swdio_set
drive_bit-Has n bits level l h =
    swclk_cycle-Has n bits (swdio_set level l) (swdio_set-Has n bits level l h)

shift-suc : (v i : ℕ) → v / 2 ^ (i + 1) ≡ v / 2 ^ i / 2
shift-suc v i = rw (div-div-eq-div-mul, ← pow-suc, add-one)

write_bits_from-Has :
    (value count i n : ℕ) (bits : List ℕ) (l : Link)
    → Has true n bits l
    → Has true
        (n + count)
        (reverse_aux (bits_of (value / 2 ^ i) count) bits)
        (write_bits_from value count i l)
unfolding write_bits_from bits_of
write_bits_from-Has value zero i n bits l h = rw add-zero h
write_bits_from-Has value (suc count) i n bits l h =
    let level = bit_and (value / 2 ^ i) 1 in
    let sent : Has true (n + 1) (value / 2 ^ i % 2 ∷ bits) (swclk_cycle (swdio_set level l)) =
      subst (λ b. Has true (n + 1) (b ∷ bits) (swclk_cycle (swdio_set level l)))
        (bit_and-one (value / 2 ^ i)) (drive_bit-Has n bits level l h) in
    let e : n + 1 + count ≡ n + suc count = omega arith in
    rw (shift-suc value i, e) at
      (write_bits_from-Has value count (i + 1) (n + 1) _ (swclk_cycle (swdio_set level l)) sent)

-- The target sees the lowest bits of the word, the lowest first.
pub write_bits-Has :
    (value count n : ℕ) (bits : List ℕ) (l : Link)
    → Has true n bits l
    → Has true (n + count) (reverse_aux (bits_of value count) bits) (write_bits value count l)
unfolding write_bits
write_bits-Has value count n bits l h =
    let e : value / 2 ^ 0 ≡ value = omega arith in
    rw e at (write_bits_from-Has value count 0 n bits l h)
