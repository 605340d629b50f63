-- ===== src/CoProcessor/Finishing.antt =====
-- The update of the co-processor comes to an end once its flash algorithm has been parsed.
use alonzo_bootloader_zephyr.Base.{
  ℕ, zero, suc, ◌+◌, ◌-◌, ◌*◌, ◌/◌, ◌≤◌, ◌<◌, ◌≡◌, ◌≢◌, arith, not, ◌||◌, List, length, no_return,
  is_ok, u32, sub32, bit_and, efbig, einval, Exec, lift, on_error, ◌==◌, ltb,
}
use alonzo_bootloader_zephyr.Base.Total.{
  Total, Returning, Returning-bind, pure-Returning, raise-Returning, Total-if, Total-bind,
  Total-modify, Total-on_error, Total-finally,
}
use alonzo_bootloader_zephyr.Board.{
  Board, FilePath, Trace, Platform, on_target, stated, opened, closed,
}
use alonzo_bootloader_zephyr.Board.Calls.{Total-call}
use alonzo_bootloader_zephyr.Board.Drivers.{file_size, file_open, file_close}
use alonzo_bootloader_zephyr.Led.{led_red, led_toggle}
use alonzo_bootloader_zephyr.Swd.Port.{SwdPort}
use alonzo_bootloader_zephyr.Dap.Port.{DebugPort}
use alonzo_bootloader_zephyr.CortexM
use alonzo_bootloader_zephyr.CortexM.Returning.{
  Answers, halt-Returning, reset-Returning, run-Returning,
}
use alonzo_bootloader_zephyr.Flm
use alonzo_bootloader_zephyr.Flm.{align4, on_core, copy_words}
use alonzo_bootloader_zephyr.Flm.Format.{Image, Session}
use alonzo_bootloader_zephyr.Flm.Returning.{
  copy_words-Returning, on_core-Returning, load-Returning, init-Returning, uninit-Returning,
  erase_sector-Returning, program_page-Returning, lift-Returning,
}
use alonzo_bootloader_zephyr.FirmwareUpdate.Image.{Returns}
use alonzo_bootloader_zephyr.CoProcessor.{
  page_buf_size, Work, work_layout, attach, smaller, padded, copy_to_ram, erase_sectors, erase,
  read_chunk, program, burn, update_opened, update_attached,
}
use alonzo_bootloader_zephyr.CoProcessor.Layout.{align4_lem}
use alonzo_bootloader_zephyr.CoProcessor.Ending.{
  ReadsBounded, on_target-Returning, padded_room, read_chunk-Ends, verify-Ends,
}

-- An image that can be programmed: its code and its data are there, its pages fit into the page
-- buffer, and neither its pages nor its sectors are empty.
pub record IsUsable (img : Image) (code section_data : List ℕ) : Type 0 where
  pub code_fits : img.code_size ≤ length code
  pub data_fits : img.data_size ≤ length section_data
  pub page_least : 1 ≤ img.page_size
  pub page_most : img.page_size ≤ page_buf_size
  pub sector_least : 1 ≤ img.sector_size

work_layout_returns :
    (ram_base ram_size : ℕ) (img : Image) → work_layout ram_base ram_size img ≢ no_return
unfolding work_layout
work_layout_returns ram_base ram_size img = ground arith

module _ {S : Type 0} (p : Platform) (swd : SwdPort S) (port : DebugPort S) (returns : Returns p)
    (bounded : ReadsBounded p) (answers : Answers port) (seeks : (t : Trace) → p.seek t ≢ no_return)
    (resets : Returning swd.line_reset) where
  abbrev Ends : {A : Type 0} → Exec (Board (Session S)) A → Type 0
  Ends m = Returning m

  attach-Ends : Ends (attach p swd port)
  unfolding attach
  attach-Ends = on_target-Returning _ (
      on_core-Returning _ (
        Returning-bind swd.line_reset _ resets
          λ _. Returning-bind port.init _ answers.init λ _. halt-Returning port answers))

  copy_to_ram-Ends :
      (dst : ℕ) (src : List ℕ) (len : ℕ)
      → len ≤ page_buf_size
      → page_buf_size ≤ length src
      → Ends (copy_to_ram p swd port dst src len)
  unfolding copy_to_ram
  copy_to_ram-Ends dst src len small room =
      let even : align4 len ≡ (len + 3) / 4 * 4 = align4_lem len (omega arith) in
      Total-if (not (bit_and dst 3 == 0)) _ _ (λ _. raise-Returning einval)
        (λ _. on_target-Returning _ (
          on_core-Returning _
            (copy_words-Returning port answers (align4 len / 4) 0 dst src (omega arith))))

  erase_sectors-Ends : (left i sector base : ℕ) → Ends (erase_sectors p swd port left i sector base)
  unfolding erase_sectors
  erase_sectors-Ends zero i sector base = pure-Returning tt
  erase_sectors-Ends (suc left) i sector base =
      Returning-bind (on_target (Flm.erase_sector port (u32 (base + i * sector)))) _
        (on_target-Returning _ (erase_sector-Returning port answers _))
        λ _.
          Total-modify (led_toggle p led_red) _ (λ s h. h)
            (erase_sectors-Ends left (i + 1) sector base)

  erase-Ends :
      (img : Image) (base size : ℕ) → 1 ≤ img.sector_size → Ends (erase p swd port img base size)
  unfolding erase
  erase-Ends img base size least =
      Total-if (img.sector_size == 0) _ _ (λ e. absurd (ground arith))
        (λ _.
          erase_sectors-Ends (sub32 (size + img.sector_size) 1 / img.sector_size) 0 img.sector_size
            base)

  program-Ends :
      (fuel : ℕ) (img : Image) (base size page_buf offset : ℕ)
      → 1 ≤ img.page_size
      → img.page_size ≤ page_buf_size
      → offset ≤ size
      → size < offset + fuel
      → Ends (program p swd port fuel img base size page_buf offset)
  unfolding program
  program-Ends zero img base size page_buf offset least most inside enough = absurd (omega arith)
  program-Ends (suc fuel) img base size page_buf offset least most inside enough =
      let chunk : ℕ = smaller (size - offset) img.page_size in
      Total-if (ltb offset size) _ _
        (λ e.
          let below : offset < size = ground arith in
          let small : chunk ≤ page_buf_size = ground arith in
          let some : 1 ≤ chunk = ground arith in
          let left : chunk ≤ size - offset = ground arith in
          Total-bind (read_chunk p swd port chunk) _
            (read_chunk-Ends p swd port returns bounded answers chunk small)
            λ bytes. record {
              at = λ b h.
                  (Returning-bind (copy_to_ram p swd port page_buf (padded bytes) chunk) _
                      (copy_to_ram-Ends page_buf (padded bytes) chunk small (padded_room bytes))
                      λ _.
                        Returning-bind
                          (on_target (Flm.program_page port (u32 (base + offset)) chunk page_buf)) _
                          (on_target-Returning _ (program_page-Returning port answers _ _ _))
                          λ _.
                            program-Ends fuel img base size page_buf (offset + chunk) least most
                              (omega arith) (omega arith)).at
                    b tt;
            })
        (λ _. pure-Returning tt)

  module _ (ram_base ram_size fuel : ℕ) (img : Image) (code section_data : List ℕ)
      (usable : IsUsable img code section_data) (enough : img.flash_size < fuel) where
    burn-Ends :
        (work : Work) (size : ℕ)
        → size ≤ img.flash_size
        → Ends (burn p swd port ram_base ram_size fuel img work size)
    unfolding burn
    burn-Ends work size fits =
        Returning-bind (erase p swd port img img.flash_base size) _
          (erase-Ends img img.flash_base size usable.sector_least)
          λ _.
            Returning-bind (program p swd port fuel img img.flash_base size work.page_buf 0) _
              (program-Ends fuel img img.flash_base size work.page_buf 0 usable.page_least
                usable.page_most (omega arith) (omega arith))
              λ _.
                verify-Ends p swd port returns bounded answers fuel img.flash_base size
                  (omega arith) seeks

    uninit-Ends : Ends (on_target (Flm.uninit port))
    uninit-Ends = on_target-Returning _ (uninit-Returning port answers)

    update_opened-Ends :
        (path : FilePath) (work : Work)
        → Ends (update_opened p swd port ram_base ram_size fuel path img work)
    unfolding update_opened file_size
    update_opened-Ends path work =
        Returning-bind (file_size p path) _
          (Total-call _ (λ _. stated path) (returns.stats path) (λ b a h e. tt))
          λ size.
            Total-if (size == 0 || ltb img.flash_size size) _ _ (λ _. raise-Returning efbig)
              (λ e.
                let fits : size ≤ img.flash_size = ground arith in
                Returning-bind (on_target (Flm.init port)) _
                  (on_target-Returning _ (init-Returning port answers))
                  λ _.
                    Returning-bind
                      (on_error (on_target (Flm.uninit port))
                        (burn p swd port ram_base ram_size fuel img work size))
                      _ (Total-on_error _ uninit-Ends _ (burn-Ends work size fits))
                      λ _. Returning-bind (on_target (Flm.uninit port)) _ uninit-Ends λ _.
                        Returning-bind (on_target (on_core (CortexM.reset port))) _
                          (on_target-Returning _
                            (on_core-Returning _ (reset-Returning port answers)))
                          λ _.
                            on_target-Returning _
                              (on_core-Returning _ (run-Returning port answers)))

    file_close-Ends : Ends (file_close p)
    unfolding file_close
    file_close-Ends = Total-call _ (λ _. closed) returns.closes (λ b a h e. tt)

    -- From the attachment of the co-processor to the start of its new firmware, and through every
    -- clean-up before USART2 is restored, an update returns, if the driver calls and the calls of
    -- the SWD and debug port return, reads of files give no more than was asked for, the image's
    -- code and data are there, its page size is between 1 and the size of the page buffer and its
    -- sector size is not 0, and the fuel exceeds the size of the co-processor's flash.
    pub update_attached-Ends :
        (path : FilePath)
        → Total
            (λ (_ : Board (Session S)). Unit)
            (update_attached p swd port ram_base ram_size fuel path img code section_data)
            (λ _ _. Unit)
    unfolding update_attached file_open
    update_attached-Ends path = Returning-bind (attach p swd port) _ attach-Ends λ _.
        Returning-bind (lift (work_layout ram_base ram_size img)) _
          (lift-Returning _ (work_layout_returns ram_base ram_size img))
          λ work.
            Returning-bind (on_target (Flm.load port img code section_data work.rt)) _
              (on_target-Returning _ (
                load-Returning port answers img code section_data work.rt usable.code_fits
                  usable.data_fits))
              λ _.
                Returning-bind (file_open p path) _
                  (Total-call _ (λ r. opened path (is_ok r)) (returns.opens path) (λ b a h e. tt))
                  λ _.
                    Total-finally (file_close p) file_close-Ends (λ _. Unit) _
                      (update_opened-Ends path work)
