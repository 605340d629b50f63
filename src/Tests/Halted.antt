-- ===== src/Tests/Halted.antt =====
-- A halted core, and instances of the theorems about its registers.
use alonzo_bootloader_zephyr.Base.{
  ℕ, false, ◌+◌, ◌*◌, ◌/◌, ◌-◌, zero, suc, ◌^◌, ◌≤◌, ◌<◌, ◌≡◌, refl, ap, arith, true, ok, pure,
  bit_or, ◌==◌, ltb, if◌then◌else◌,
}
use native.Mathlib.Nat.{pow-succ'}
use alonzo_bootloader_zephyr.Bits.Digits.{or_digit}
use alonzo_bootloader_zephyr.Dap.Port.{DebugPort}
use alonzo_bootloader_zephyr.CortexM
use alonzo_bootloader_zephyr.CortexM.Register.{
  dhcsr, dcrsr, dcrdr, s_halt, s_regrdy, regwnr, regsel_mask,
}
use alonzo_bootloader_zephyr.CortexM.Core.{Core, idle, to_register, from_register, complete}
use alonzo_bootloader_zephyr.Flm
use alonzo_bootloader_zephyr.Flm.Format.{Loaded}
use alonzo_bootloader_zephyr.Tests.Elf.{parsed_image}
use alonzo_bootloader_zephyr.Tests.Target.{layout}

-- A halted core, whose transfers are made at the next read of DHCSR.
abbrev pub asked : ℕ → Core → Core
asked v w = record w { request = if ltb v 65536 then from_register v else to_register (v - 65536) }

abbrev halted_core : DebugPort Core
halted_core = record {
  init = pure tt;
  clear_errors = pure tt;
  mem_read32 =
      λ addr w. if addr == dhcsr then (ok (s_halt + s_regrdy), complete w) else (ok w.transfer, w);
  mem_write32 = λ addr v w. (
    ok tt,
    if addr == dcrdr then record w { transfer = v } else if addr == dcrsr then asked v w else w,
  );
  selftest = pure tt;
  wait = λ us w. w;
}

-- The request bit of a word written to DCRSR beside the selector in its low bits.
request_bit : (k n : ℕ) → n < 2 ^ k → bit_or (512 * 2 ^ k) n ≡ 512 * 2 ^ k + n
request_bit zero n h = let e : n ≡ 0 = omega arith in rw e refl
request_bit (suc k) n h = ground (
  arith,
  or_digit (512 * 2 ^ suc k) n,
  ap (λ (t : ℕ). 512 * t) (pow-succ' 2 k),
  pow-succ' 2 k,
  request_bit k (n / 2) (omega (arith, pow-succ' 2 k)),
)

pub asked_to :
    (n : ℕ) (w : Core)
    → n ≤ regsel_mask
    → asked (bit_or regwnr n) w ≡ record w { request = to_register n }
asked_to n w h =
    let e : bit_or regwnr n ≡ 65536 + n = request_bit 7 n (omega arith) in
    let big : ltb (65536 + n) 65536 ≡ false = ground arith in
    let rest : 65536 + n - 65536 ≡ n = omega arith in rw e (rw big (rw rest refl))

pub asked_from :
    (n : ℕ) (w : Core) → n ≤ regsel_mask → asked n w ≡ record w { request = from_register n }
asked_from n w h = let small : ltb n 65536 ≡ true = ground arith in rw small refl

abbrev at_rest : Core
at_rest = record { registers = λ n. n; transfer = 0; request = idle }

abbrev running : Loaded
running = record { image = parsed_image; rt = layout.rt; bkpt = 0x2000_0008 }
