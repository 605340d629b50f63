-- ===== src/Swd/Request.antt =====
-- The words that the SWD master computes: the parity of a data word, and the request byte.
use alonzo_bootloader_zephyr.Base.{
  ℕ, zero, suc, ◌/◌, ◌%◌, ◌≤◌, ◌≡◌, arith, Bool, true, false, bit_xor, to_int,
}
use alonzo_bootloader_zephyr.Bits.{bit_and-one, count_ones, count_ones-fold}
use alonzo_bootloader_zephyr.Swd.{parity32, assemble_request, build_request}

count_ones-one : (v : ℕ) → count_ones 1 v ≡ v % 2
unfolding count_ones
count_ones-one v = omega arith

-- The folding by halves computes the number of ones among the 32 bits, modulo 2.
pub parity32-eq-count_ones : (v : ℕ) → parity32 v ≡ count_ones 32 v % 2
unfolding parity32
parity32-eq-count_ones v0 =
    let v1 = bit_xor v0 (v0 / 65536) in
    let v2 = bit_xor v1 (v1 / 256) in
    let v3 = bit_xor v2 (v2 / 16) in
    let v4 = bit_xor v3 (v3 / 4) in
    let v5 = bit_xor v4 (v4 / 2) in
    omega (
      arith,
      bit_and-one v5,
      count_ones-one v5,
      count_ones-fold 1 v4,
      count_ones-fold 2 v3,
      count_ones-fold 4 v2,
      count_ones-fold 8 v1,
      count_ones-fold 16 v0,
    )

-- What a target decodes from a request byte.
abbrev pub Decodes : ℕ → ℕ → ℕ → ℕ → ℕ → Type 0
Decodes request apndp rnw a2 a3 =
    (request % 2 ≡ 1)
    × (request / 2 % 2 ≡ apndp)
    × (request / 4 % 2 ≡ rnw)
    × (request / 8 % 2 ≡ a2)
    × (request / 16 % 2 ≡ a3)
    × (count_ones 5 (request / 2) % 2 ≡ 1)
    × (request / 64 % 2 ≡ 0)
    × (request / 128 ≡ 1)

assemble_request-Decodes :
    (apndp rnw : Bool) (a2 a3 : ℕ)
    → a2 ≤ 1
    → a3 ≤ 1
    → let request = assemble_request (to_int apndp) (to_int rnw) a2 a3 in
      Decodes request (to_int apndp) (to_int rnw) a2 a3
unfolding assemble_request count_ones
assemble_request-Decodes p q (suc (suc n)) a3 h k = absurd (omega arith)
assemble_request-Decodes p q zero (suc (suc n)) h k = absurd (omega arith)
assemble_request-Decodes p q (suc zero) (suc (suc n)) h k = absurd (omega arith)
assemble_request-Decodes true true zero zero h k = omega arith
assemble_request-Decodes true true zero (suc zero) h k = omega arith
assemble_request-Decodes true true (suc zero) zero h k = omega arith
assemble_request-Decodes true true (suc zero) (suc zero) h k = omega arith
assemble_request-Decodes true false zero zero h k = omega arith
assemble_request-Decodes true false zero (suc zero) h k = omega arith
assemble_request-Decodes true false (suc zero) zero h k = omega arith
assemble_request-Decodes true false (suc zero) (suc zero) h k = omega arith
assemble_request-Decodes false true zero zero h k = omega arith
assemble_request-Decodes false true zero (suc zero) h k = omega arith
assemble_request-Decodes false true (suc zero) zero h k = omega arith
assemble_request-Decodes false true (suc zero) (suc zero) h k = omega arith
assemble_request-Decodes false false zero zero h k = omega arith
assemble_request-Decodes false false zero (suc zero) h k = omega arith
assemble_request-Decodes false false (suc zero) zero h k = omega arith
assemble_request-Decodes false false (suc zero) (suc zero) h k = omega arith

-- Every request byte has its start bit 1, stop bit 0 and park bit 1, and carries APnDP, RnW and the
-- address bits A2 and A3 in their places; the five bits from APnDP to the parity bit hold an odd
-- number of ones.
pub build_request-Decodes :
    (apndp rnw : Bool) (addr : ℕ)
    → Decodes
        (build_request apndp rnw addr)
        (to_int apndp)
        (to_int rnw)
        (addr / 4 % 2)
        (addr / 8 % 2)
unfolding build_request
build_request-Decodes apndp rnw addr =
    rw (bit_and-one (addr / 4), bit_and-one (addr / 8))
      (assemble_request-Decodes apndp rnw (addr / 4 % 2) (addr / 8 % 2) (omega arith) (omega arith))
