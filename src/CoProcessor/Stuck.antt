-- ===== src/CoProcessor/Stuck.antt =====
-- Programming with a page size of 0, which the parser lets through.
use alonzo_bootloader_zephyr.Base.{ℕ, zero, suc, ◌+◌, ◌-◌, ◌<◌, ◌≡◌, arith, u32, Exec, ltb}
use alonzo_bootloader_zephyr.Base.Hoare.{Post-same, Triple, Triple-if, Triple-bind}
use alonzo_bootloader_zephyr.Board.{Board, Platform, on_target}
use alonzo_bootloader_zephyr.Swd.Port.{SwdPort}
use alonzo_bootloader_zephyr.Dap.Port.{DebugPort}
use alonzo_bootloader_zephyr.Flm
use alonzo_bootloader_zephyr.Flm.Format.{Image, Session}
use alonzo_bootloader_zephyr.CoProcessor.{smaller, padded, read_chunk, copy_to_ram, program}

module _ {S : Type 0} (p : Platform) (swd : SwdPort S) (port : DebugPort S) where
  anything :
      {A : Type 0} (m : Exec (Board (Session S)) A) → Triple (λ _. Unit) m (λ _ _. Unit) (λ _. Unit)
  anything m = record { at = λ s h. let (r, s') = m s in Post-same (λ _. Unit) r s' tt }

  -- With a page size of 0 and a byte left to program, programming never succeeds, however long it
  -- runs: no round of the loop makes progress.
  pub program-stuck :
      (fuel : ℕ) (img : Image) (flash_base image_size page_buf offset : ℕ)
      → img.page_size ≡ 0
      → offset < image_size
      → Triple
          (λ (_ : Board (Session S)). Unit)
          (program p swd port fuel img flash_base image_size page_buf offset)
          (λ _ _. ⊥)
          (λ _. Unit)
  unfolding program
  program-stuck zero img flash_base image_size page_buf offset e below = record { at = λ s h. tt }
  program-stuck (suc fuel) img flash_base image_size page_buf offset e below =
      let chunk : ℕ = smaller (image_size - offset) img.page_size in
      let none : chunk ≡ 0 = ground arith in
      Triple-if (ltb offset image_size) _ _
        (λ _. Triple-bind (read_chunk p swd port chunk) _ (anything _) λ bytes.
          Triple-bind (copy_to_ram p swd port page_buf (padded bytes) chunk) _ (anything _) λ _.
            Triple-bind
              (on_target (Flm.program_page port (u32 (flash_base + offset)) chunk page_buf)) _
              (anything _)
              λ _.
                program-stuck fuel img flash_base image_size page_buf (offset + chunk) e
                  (omega arith))
        (λ f. absurd (ground arith))
