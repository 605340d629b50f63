-- ===== src/CoProcessor/Loaded.antt =====
-- A load into a work area that was found: the flash algorithm as it stands in the memory.
use alonzo_bootloader_zephyr.Base.{
  ℕ, ◌+◌, ◌^◌, ◌≤◌, ◌<◌, ◌≡◌, arith, ◌&&◌, List, Result, ok, err, no_return, u32, einval, Exec,
}
use alonzo_bootloader_zephyr.Base.Hoare.{Post, Triple-raise, Triple-if, Triple-bind}
use alonzo_bootloader_zephyr.Dap.Port.{DebugPort}
use alonzo_bootloader_zephyr.Dap.Memory.{Done}
use alonzo_bootloader_zephyr.Flm.{align4, is_image, has_room, on_core, place, load}
use alonzo_bootloader_zephyr.Flm.Format.{Image, Session}
use alonzo_bootloader_zephyr.Flm.Memory.{IsMemory}
use alonzo_bootloader_zephyr.Flm.Placing.{LeavesMemory, Placed, place-Placed}
use alonzo_bootloader_zephyr.CoProcessor.{Work, work_layout}
use alonzo_bootloader_zephyr.CoProcessor.Layout.{work_layout-IsDisjoint}

module _ {S : Type 0} (port : DebugPort S) (memory : S → ℕ → ℕ) (top : ℕ)
    (law : IsMemory port memory top) (quiet : LeavesMemory port memory) (low : top ≤ 2 ^ 32) where
  on_core-Done :
      {A : Type 0} (m : Exec S A) (P : S → Type 0) (Q : A → S → Type 0)
      → Done P m Q
      → Done (λ (s : Session S). P s.core) (on_core m) (λ v s. Q v s.core)
  on_core-Done m P Q h = record {
    at = λ s p. let (r, core) = m s.core in moved r core s (h.at s.core p);
  }
    where
      moved :
          (r : Result _) (core : S) (s : Session S)
          → Post Q (λ _. Unit) (r, core)
          → Post (λ v (s : Session S). Q v s.core) (λ _. Unit) (r, record s { core = core })
      moved (ok a) core s q = q
      moved (err e) core s q = tt
      moved no_return core s q = tt

  -- Over a port to a memory that a load otherwise leaves alone: if a load into a work area that was
  -- found succeeds, the words of the code stand at the start of the window, those of the data and
  -- the BKPT stub behind them, each where the layout says, and no word before the window or behind
  -- the stub has changed. The sizes lie in the 32-bit address space, and the window below the limit
  -- `top` of the memory, which lies there too.
  pub load-Placed :
      (ram_base ram_size : ℕ) (img : Image) (code section_data : List ℕ) (w : Work) (m : ℕ → ℕ)
      → ram_base + img.code_size + img.data_size + 512 < 2 ^ 32
      → ram_base + ram_size ≤ top
      → ram_base + ram_size < 2 ^ 32
      → work_layout ram_base ram_size img ≡ ok w
      → Done
          (λ (s : Session S). memory s.core ≡ m)
          (load port img code section_data w.rt)
          (λ _ s.
            Placed img code section_data w.rt
              (align4 (u32 (w.rt.data_base + img.data_size)))
              m
              (memory s.core))
  unfolding load
  load-Placed ram_base ram_size img code section_data w m small fits window e =
      let d = work_layout-IsDisjoint ram_base ram_size img small window w e in
      let code_fits = d.code_fits in
      let data_fits = d.data_fits in
      let stub : align4 (u32 (w.rt.data_base + img.data_size)) < top =
        omega (arith, d.stub_fits, d.page_fits, d.stack_at) in
      let bkpt : ℕ = align4 (u32 (w.rt.data_base + img.data_size)) in
      Triple-if (is_image img && has_room img w.rt bkpt) _ _
        (λ _.
          Triple-bind (on_core (place port img code section_data w.rt bkpt)) _
            (on_core-Done (place port img code section_data w.rt bkpt) (λ s. memory s ≡ m) _
              (place-Placed port memory top law quiet low img code section_data w.rt bkpt code_fits
                data_fits stub m))
            λ _. record { at = λ s h. h })
        (λ _. Triple-raise einval (λ s h. tt))
