-- ===== src/Flm/Placing.antt =====
-- What a load leaves in the target's memory.
use alonzo_bootloader_zephyr.Base.{
  ℕ, zero, suc, ◌+◌, ◌*◌, ◌/◌, ◌^◌, ◌≤◌, ◌<◌, ◌≡◌, refl, sym, ◌∙◌, ap, arith, inl, inr, not, ◌||◌,
  List, ok, bit_and, bit_or, einval, etimedout, ◌==◌,
}
use alonzo_bootloader_zephyr.Base.Hoare.{
  Triple-pure, Triple-raise, Triple-if, Triple-bind, Triple-modify, Triple-mono,
}
use alonzo_bootloader_zephyr.Dap.Port.{DebugPort}
use alonzo_bootloader_zephyr.Dap.Memory.{Done, store}
use alonzo_bootloader_zephyr.CortexM.{poll_us, halt_retries, wait_dhcsr, halt}
use alonzo_bootloader_zephyr.CortexM.Register.{dhcsr, dbgkey, c_debugen, c_halt, s_halt}
use alonzo_bootloader_zephyr.Flm.{bkpt_word, copy_words, copy_to_ram, place}
use alonzo_bootloader_zephyr.Flm.Format.{Image, Runtime}
use alonzo_bootloader_zephyr.Flm.Memory.{IsMemory, Holds, SameOutside, copy_words-Holds}

-- What a load does beside the copies leaves the memory alone: the power-up of the debug port, the
-- write that halts the core, the reads of its status, and waiting.
pub record LeavesMemory {S : Type 0} (port : DebugPort S) (memory : S → ℕ → ℕ) : Type 0 where
  pub init : (m : ℕ → ℕ) → Done (λ s. memory s ≡ m) port.init (λ _ s. memory s ≡ m)
  pub halts :
      (m : ℕ → ℕ)
      → Done
          (λ s. memory s ≡ m)
          (port.mem_write32 dhcsr (bit_or (bit_or dbgkey c_debugen) c_halt))
          (λ _ s. memory s ≡ m)
  pub polls : (m : ℕ → ℕ) → Done (λ s. memory s ≡ m) (port.mem_read32 dhcsr) (λ _ s. memory s ≡ m)
  pub waits : (us : ℕ) (s : S) → memory (port.wait us s) ≡ memory s

-- The words of a range stand in any memory that agrees on the range.
Holds-same :
    (m m' : ℕ → ℕ) (src : List ℕ) (dst i left : ℕ)
    → ((a : ℕ) → dst + i ≤ a → a < dst + i + 4 * left → m' a ≡ m a)
    → Holds m src dst i left
    → Holds m' src dst i left
Holds-same m m' src dst i zero same h = tt
Holds-same m m' src dst i (suc left) same h = (
  h.0 ∙ ap ok (sym (same (dst + i) (omega arith) (omega arith))),
  Holds-same m m' src dst (i + 4) left (λ a lo hi. same a (omega arith) (omega arith)) h.1,
)

-- The code, the data and the BKPT stub stand in the memory `m'`, and no word before them or behind
-- them differs from `m`.
pub record Placed (img : Image) (code section_data : List ℕ) (rt : Runtime) (bkpt : ℕ)
    (m m' : ℕ → ℕ) : Type 0 where
  pub code_there : Holds m' code rt.code_base 0 (img.code_size / 4)
  pub data_there : Holds m' section_data rt.data_base 0 (img.data_size / 4)
  pub stub_there : m' bkpt ≡ bkpt_word
  pub same_before : (a : ℕ) → a < rt.code_base → m' a ≡ m a
  pub same_behind : (a : ℕ) → bkpt < a → m' a ≡ m a

module _ {S : Type 0} (port : DebugPort S) (memory : S → ℕ → ℕ) (top : ℕ)
    (law : IsMemory port memory top) (quiet : LeavesMemory port memory) (low : top ≤ 2 ^ 32) where
  wait_dhcsr-same :
      (mask want left : ℕ) (m : ℕ → ℕ)
      → Done (λ s. memory s ≡ m) (wait_dhcsr port mask want left) (λ _ s. memory s ≡ m)
  unfolding wait_dhcsr
  wait_dhcsr-same mask want zero m = Triple-raise etimedout (λ s e. tt)
  wait_dhcsr-same mask want (suc left) m =
      Triple-bind (port.mem_read32 dhcsr) _ (quiet.polls m) λ value.
        Triple-if (bit_and value mask == want) _ _ (λ _. Triple-pure tt (λ s e. e))
          (λ _.
            Triple-modify (port.wait poll_us) _ (λ s e. quiet.waits poll_us s ∙ e)
              (wait_dhcsr-same mask want left m))

  halt-same : (m : ℕ → ℕ) → Done (λ s. memory s ≡ m) (halt port) (λ _ s. memory s ≡ m)
  unfolding halt
  halt-same m =
      Triple-bind (port.mem_write32 _ _) _ (quiet.halts m)
        λ _. wait_dhcsr-same s_halt s_halt halt_retries m

  copy_to_ram-Holds :
      (dst : ℕ) (src : List ℕ) (len : ℕ) (m : ℕ → ℕ)
      → dst + len ≤ top
      → Done
          (λ s. memory s ≡ m)
          (copy_to_ram port dst src len)
          (λ _ s. Holds (memory s) src dst 0 (len / 4) × SameOutside m (memory s) dst (dst + len))
  unfolding copy_to_ram
  copy_to_ram-Holds dst src len m fits =
      Triple-if (not (bit_and dst 3 == 0) || not (bit_and len 3 == 0)) _ _
        (λ _. Triple-raise einval (λ s e. tt))
        (λ _.
          Triple-mono (copy_words port (len / 4) 0 dst src)
            (copy_words-Holds port memory top law (len / 4) 0 dst src m (omega arith) low)
            (λ _ e. e)
            (λ _ s h. (
              h.0,
              λ a out.
                  h.1 a
                    (elim out [ inl below ↦ inl (omega arith) | inr above ↦ inr (omega arith) ]),
            ))
            (λ _ u. u))

  module _ (img : Image) (code section_data : List ℕ) (rt : Runtime) (bkpt : ℕ) where
    module _ (code_fits : rt.code_base + img.code_size ≤ rt.data_base)
        (data_fits : rt.data_base + img.data_size ≤ bkpt) (stub_fits : bkpt < top) where
      placed :
          (m m1 m2 : ℕ → ℕ)
          → Holds m1 code rt.code_base 0 (img.code_size / 4)
          → SameOutside m m1 rt.code_base (rt.code_base + img.code_size)
          → Holds m2 section_data rt.data_base 0 (img.data_size / 4)
          → SameOutside m1 m2 rt.data_base (rt.data_base + img.data_size)
          → Placed img code section_data rt bkpt m (store m2 bkpt bkpt_word)
      placed m m1 m2 code_held same1 data_held same2 = record {
        code_there =
            Holds-same m1 (store m2 bkpt bkpt_word) code rt.code_base 0 (img.code_size / 4)
              (λ a lo hi.
                let kept : m2 a ≡ m1 a = same2 a (inl (omega arith)) in
                let other : store m2 bkpt bkpt_word a ≡ m2 a = ground arith in other ∙ kept)
              code_held;
        data_there =
            Holds-same m2 (store m2 bkpt bkpt_word) section_data rt.data_base 0 (img.data_size / 4)
              (λ a lo hi. ground arith) data_held;
        stub_there = ground arith;
        same_before = λ a below.
            let kept : m2 a ≡ m1 a = same2 a (inl (omega arith)) in
            let kept' : m1 a ≡ m a = same1 a (inl below) in
            let other : store m2 bkpt bkpt_word a ≡ m2 a = ground arith in other ∙ (kept ∙ kept');
        same_behind = λ a above.
            let kept : m2 a ≡ m1 a = same2 a (inr (omega arith)) in
            let kept' : m1 a ≡ m a = same1 a (inr (omega arith)) in
            let other : store m2 bkpt bkpt_word a ≡ m2 a = ground arith in other ∙ (kept ∙ kept');
      }

      pub place-Placed :
          (m : ℕ → ℕ)
          → Done
              (λ s. memory s ≡ m)
              (place port img code section_data rt bkpt)
              (λ _ s. Placed img code section_data rt bkpt m (memory s))
      unfolding place
      place-Placed m = Triple-bind port.init _ (quiet.init m) λ _.
          Triple-bind (copy_to_ram port rt.code_base code img.code_size) _
            (copy_to_ram-Holds rt.code_base code img.code_size m (omega arith))
            λ _. record {
              at = λ s h.
                  (Triple-bind (copy_to_ram port rt.data_base section_data img.data_size) _
                      (copy_to_ram-Holds rt.data_base section_data img.data_size (memory s)
                        (omega arith))
                      λ _. record {
                        at = λ s' h'.
                            let m2 = memory s' in
                            (Triple-bind (port.mem_write32 bkpt bkpt_word) _
                                (law.writes m2 bkpt bkpt_word stub_fits)
                                λ _.
                                  Triple-mono (halt port) (halt-same (store m2 bkpt bkpt_word))
                                    (λ _ e. e)
                                    (λ _ s'' e.
                                      rw (sym e) at (placed m (memory s) m2 h.0 h.1 h'.0 h'.1))
                                    (λ _ u. u)).at
                              s' refl;
                      }).at
                    s refl;
            }
