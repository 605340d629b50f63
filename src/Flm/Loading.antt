-- ===== src/Flm/Loading.antt =====
-- What a load leaves in the static variables.
use alonzo_bootloader_zephyr.Base.{
  ℕ, ◌+◌, ◌≡◌, refl, arith, true, ◌&&◌, List, Option, some, einval, u32, Exec,
}
use alonzo_bootloader_zephyr.Base.Hoare.{
  Keeps, Post-same, Triple, Triple-if, Triple-bind, Triple-raise,
}
use alonzo_bootloader_zephyr.Dap.Port.{DebugPort}
use alonzo_bootloader_zephyr.Flm.{align4, is_image, has_room, on_core, place, load}
use alonzo_bootloader_zephyr.Flm.Format.{Image, Runtime, Loaded, Session}

module _ {S : Type 0} (port : DebugPort S) where
  -- A step of the port leaves the static variables alone.
  on_core-loaded :
      {A : Type 0} (old : Option Loaded) (m : Exec S A)
      → Keeps (λ (s : Session S). s.loaded ≡ old) (on_core m)
  on_core-loaded old m = record {
    at = λ s e.
        let (r, core) = m s.core in
        Post-same (λ (s : Session S). s.loaded ≡ old) r (record s { core = core }) e;
  }

  -- A load that succeeds has an image that passes the tests and a layout with room for it, and
  -- notes the image, the layout and the address of the BKPT stub behind the data; one that does not
  -- succeed keeps what was noted before.
  pub load-loaded :
      (img : Image) (code data_bytes : List ℕ) (rt : Runtime) (old : Option Loaded)
      → let bkpt = align4 (u32 (rt.data_base + img.data_size)) in
        Triple
          (λ (s : Session S). s.loaded ≡ old)
          (load port img code data_bytes rt)
          (λ _ s.
            (is_image img ≡ true)
            × (has_room img rt bkpt ≡ true)
            × (s.loaded ≡ some (record { image = img; rt = rt; bkpt = bkpt })))
          (λ s. s.loaded ≡ old)
  unfolding load
  load-loaded img code data_bytes rt old =
      let bkpt : ℕ = align4 (u32 (rt.data_base + img.data_size)) in
      Triple-if (is_image img && has_room img rt bkpt) _ _
        (λ e.
          Triple-bind (on_core (place port img code data_bytes rt bkpt)) _ (on_core-loaded old _)
            λ _. record { at = λ s h. (ground arith, ground arith, refl) })
        (λ _. Triple-raise einval (λ s e. e))
