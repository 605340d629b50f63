-- ===== src/Bits.antt =====
-- Laws of `&`, `|` and `^` at variables, from the recursion on binary digits that they stand for:
-- the low bit, a bit set above the others, and the parity of an exclusive or.
pub mod Digits
use Digits.{zero-or, and_digit, or_digit, xor_digit}
use Prim.Native.Nat.add
use native.Mathlib.Nat.{
  mod-lt, mod-add-div, mul-add-mod_self_left, mod-eq_of_lt, mul_assoc, pow-succ',
  div-div-eq-div-mul,
}
use alonzo_bootloader_zephyr.Base.{
  ◌∙◌, ℕ, zero, suc, ◌+◌, ◌-◌, ◌*◌, ◌/◌, ◌%◌, ◌^◌, ◌≤◌, ◌<◌, ◌≡◌, refl, ap, arith, bit_and, bit_or,
  bit_xor,
}

and-zero_below : (n a : ℕ) → a ≤ n → bit_and a 0 ≡ 0
and-zero_below n zero h = refl
and-zero_below zero (suc a) h = absurd (omega arith)
and-zero_below (suc n) (suc a) h =
    omega (arith, and_digit (suc a) 0, and-zero_below n (suc a / 2) (omega arith))

pub or-zero_below : (n a : ℕ) → a ≤ n → bit_or a 0 ≡ a
or-zero_below n zero h = refl
or-zero_below zero (suc a) h = absurd (omega arith)
or-zero_below (suc n) (suc a) h =
    omega (arith, or_digit (suc a) 0, or-zero_below n (suc a / 2) (omega arith))

pow-pos : (k : ℕ) → 1 ≤ 2 ^ k
pow-pos zero = omega arith
pow-pos (suc k) = omega (arith, pow-succ' 2 k, pow-pos k)

-- `a & 1` is the lowest bit.
pub bit_and-one : (a : ℕ) → bit_and a 1 ≡ a % 2
bit_and-one a = omega (arith, and_digit a 1, and-zero_below (a / 2) (a / 2) (omega arith))

-- A mask of ones keeps a number that fits in it.
pub bit_and-ones : (k a : ℕ) → a < 2 ^ k → bit_and a (2 ^ k - 1) ≡ a
bit_and-ones zero a h = let e : a ≡ 0 = omega arith in rw e refl
bit_and-ones (suc k) a h =
    let half : (2 ^ suc k - 1) / 2 ≡ 2 ^ k - 1 = omega (arith, pow-succ' 2 k, pow-pos k) in
    ground (
      arith,
      and_digit a (2 ^ suc k - 1),
      pow-succ' 2 k,
      pow-pos k,
      ap (bit_and (a / 2)) half,
      bit_and-ones k (a / 2) (omega (arith, pow-succ' 2 k)),
    )

-- One binary digit of a remainder, and one digit to the base 256.
mod_digit : (m a : ℕ) → 1 ≤ m → a % (2 * m) ≡ a / 2 % m * 2 + a % 2
mod_digit m a h =
    let r : ℕ = a / 2 % m in
    let below : r < m = mod-lt (a / 2) (omega arith) in
    let e : a ≡ 2 * m * (a / 2 / m) + (r * 2 + a % 2) =
      omega (arith, mod-add-div (a / 2) m, mul_assoc 2 m (a / 2 / m)) in
    ap (λ x. x % (2 * m)) e
    ∙ (mul-add-mod_self_left (2 * m) (a / 2 / m) (r * 2 + a % 2) ∙ mod-eq_of_lt (omega arith))

pub mod_byte : (m a : ℕ) → 1 ≤ m → a % (256 * m) ≡ a / 256 % m * 256 + a % 256
mod_byte m a h =
    let r : ℕ = a / 256 % m in
    let below : r < m = mod-lt (a / 256) (omega arith) in
    let e : a ≡ 256 * m * (a / 256 / m) + (r * 256 + a % 256) =
      omega (arith, mod-add-div (a / 256) m, mul_assoc 256 m (a / 256 / m)) in
    ap (λ x. x % (256 * m)) e
    ∙ (mul-add-mod_self_left (256 * m) (a / 256 / m) (r * 256 + a % 256)
        ∙ mod-eq_of_lt (omega arith))

-- A mask of ones takes the remainder.
pub bit_and-mask : (k a : ℕ) → bit_and a (2 ^ k - 1) ≡ a % 2 ^ k
bit_and-mask zero a = omega (arith, and-zero_below a a (omega arith))
bit_and-mask (suc k) a =
    let half : (2 ^ suc k - 1) / 2 ≡ 2 ^ k - 1 = omega (arith, pow-succ' 2 k, pow-pos k) in
    let e : 2 ^ suc k ≡ 2 * 2 ^ k = omega (arith, pow-succ' 2 k) in
    ground (
      arith,
      and_digit a (2 ^ suc k - 1),
      e,
      pow-pos k,
      ap (bit_and (a / 2)) half,
      bit_and-mask k (a / 2),
      mod_digit (2 ^ k) a (pow-pos k),
      ap (λ x. a % x) e,
    )

-- The two lowest bits are cleared.
pub bit_and-clear_two : (a : ℕ) → a < 2 ^ 32 → bit_and a 0xffff_fffc ≡ a / 4 * 4
bit_and-clear_two a h = omega (
  arith,
  and_digit a 0xffff_fffc,
  and_digit (a / 2) 0x7fff_fffe,
  bit_and-ones 30 (a / 2 / 2) (omega arith),
)

-- `r | (q << k)` is a sum when `r` fits in the `k` bits below.
pub bit_or_above : (k q r : ℕ) → r < 2 ^ k → bit_or r (q * 2 ^ k) ≡ q * 2 ^ k + r
bit_or_above zero q r fits =
    let e : r ≡ 0 = omega arith in ground (arith, e, or_digit 0 q, zero-or q)
bit_or_above (suc k) q r fits = ground (
  arith,
  or_digit r (q * 2 ^ suc k),
  ap (λ (t : ℕ). q * t) (pow-succ' 2 k),
  pow-succ' 2 k,
  bit_or_above k q (r / 2) (omega (arith, pow-succ' 2 k)),
)

-- The number of ones among the `k` lowest bits.
unfoldable pub count_ones : ℕ → ℕ → ℕ
count_ones zero v = 0
count_ones (suc k) v = v % 2 + count_ones k (v / 2)

pub count_ones-xor :
    (k a b : ℕ) → count_ones k (bit_xor a b) % 2 ≡ (count_ones k a + count_ones k b) % 2
unfolding count_ones
count_ones-xor zero a b = refl
count_ones-xor (suc k) a b =
    let half : bit_xor a b / 2 ≡ bit_xor (a / 2) (b / 2) = omega (arith, xor_digit a b) in
    omega (arith, xor_digit a b, count_ones-xor k (a / 2) (b / 2), ap (count_ones k) half)

pub count_ones-add : (j k v : ℕ) → count_ones (j + k) v ≡ count_ones j v + count_ones k (v / 2 ^ j)
unfolding count_ones
count_ones-add zero k v = ground (arith, add.zero k)
count_ones-add (suc j) k v =
    let e : suc j + k ≡ suc (j + k) = omega arith in
    let f : v / 2 / 2 ^ j ≡ v / 2 ^ suc j = rw pow-succ' (div-div-eq-div-mul v 2 (2 ^ j)) in
    omega (arith, ap (λ n. count_ones n v) e, count_ones-add j k (v / 2), ap (count_ones k) f)

-- Folding the upper half of `2 k` bits onto the lower half keeps the parity.
pub count_ones-fold :
    (k v : ℕ) → count_ones k (bit_xor v (v / 2 ^ k)) % 2 ≡ count_ones (k + k) v % 2
count_ones-fold k v = omega (arith, count_ones-xor k v (v / 2 ^ k), count_ones-add k k v)
