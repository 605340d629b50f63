-- ===== src/CoProcessor/Phases.antt =====
-- The phases of an update of the co-processor make permitted calls only, on every path.
use alonzo_bootloader_zephyr.Base.{
  ℕ, suc, zero, ◌+◌, ◌-◌, ◌*◌, ◌/◌, u32, sub32, bit_and, ◌||◌, not, List, length, efbig, einval,
  eio, pure, raise, Exec, ◌>>◌, ◌==◌, ltb,
}
use alonzo_bootloader_zephyr.Base.Hoare.{
  Keeps, Triple-pure, Triple-raise, Triple-if, Triple-bind, Triple-modify, Keeps-on_error,
  Keeps-finally,
}
use alonzo_bootloader_zephyr.Board.{Trace, Board, FilePath, Platform, on_target}
use alonzo_bootloader_zephyr.Board.Drivers.{file_close}
use alonzo_bootloader_zephyr.Swd.Port.{SwdPort}
use alonzo_bootloader_zephyr.Dap.Port.{DebugPort}
use alonzo_bootloader_zephyr.CortexM
use alonzo_bootloader_zephyr.Flm
use alonzo_bootloader_zephyr.Flm.{align4, copy_words, on_core}
use alonzo_bootloader_zephyr.Flm.Format.{Image, Session}
use alonzo_bootloader_zephyr.CoProcessor.{
  page_buf_size, Work, word_of, smaller, padded, work_layout, attach, copy_to_ram, erase_sectors,
  erase, read_chunk, program, verify_word, verify_words, verify_from, verify, burn, update_opened,
  update_attached,
}
use alonzo_bootloader_zephyr.CoProcessor.Recorded.{
  Permits, lift-Kept, stop-Kept, on_target-Kept, file_size-Kept, file_open-Kept, file_close-Kept,
  file_seek_start-Kept, led_toggle-Kept, read_into-Kept,
}
use alonzo_bootloader_zephyr.Board.Calls.{Kept}

module _ {S : Type 0} (P : Trace → Type 0) (permits : Permits P) (p : Platform) (swd : SwdPort S)
    (port : DebugPort S) where
  abbrev Steady : {A : Type 0} → Exec (Board (Session S)) A → Type 0
  Steady m = Keeps (Kept {T = Session S} P) m

  on_target-Steady : {A : Type 0} (m : Exec (Session S) A) → Steady (on_target m)
  on_target-Steady m = on_target-Kept P permits p swd port m

  copy_to_ram-Steady :
      (dst : ℕ) (src : List ℕ) (len : ℕ) → Steady (copy_to_ram p swd port dst src len)
  unfolding copy_to_ram
  copy_to_ram-Steady dst src len =
      Triple-if (not (bit_and dst 3 == 0)) (raise einval) _ (λ _. Triple-raise einval (λ b h. h))
        (λ _. on_target-Steady _)

  erase_sectors-Steady :
      (left i sector base : ℕ) → Steady (erase_sectors p swd port left i sector base)
  unfolding erase_sectors
  erase_sectors-Steady zero i sector base = Triple-pure tt (λ b h. h)
  erase_sectors-Steady (suc left) i sector base =
      Triple-bind _ _ (on_target-Steady (Flm.erase_sector port (u32 (base + i * sector)))) λ _.
        Triple-modify _ _ (led_toggle-Kept P permits p swd port)
          (erase_sectors-Steady left (i + 1) sector base)

  erase-Steady : (img : Image) (base size : ℕ) → Steady (erase p swd port img base size)
  unfolding erase
  erase-Steady img base size =
      Triple-if (img.sector_size == 0) _ _ (λ _. stop-Kept P permits p swd port)
        (λ _.
          erase_sectors-Steady (sub32 (size + img.sector_size) 1 / img.sector_size) 0
            img.sector_size base)

  read_chunk-Steady : (chunk : ℕ) → Steady (read_chunk p swd port chunk)
  unfolding read_chunk
  read_chunk-Steady chunk =
      Triple-bind _ _ (read_into-Kept P permits p swd port page_buf_size chunk) λ bytes.
        Triple-if (length bytes == chunk) (pure bytes) (raise eio)
          (λ _. Triple-pure bytes (λ b h. h)) (λ _. Triple-raise eio (λ b h. h))

  program-Steady :
      (fuel : ℕ) (img : Image) (base size page_buf offset : ℕ)
      → Steady (program p swd port fuel img base size page_buf offset)
  unfolding program
  program-Steady zero img base size page_buf offset = stop-Kept P permits p swd port
  program-Steady (suc fuel) img base size page_buf offset =
      let chunk = smaller (size - offset) img.page_size in
      Triple-if (ltb offset size) _ (pure tt)
        (λ _. Triple-bind _ _ (read_chunk-Steady chunk) λ bytes.
          Triple-bind _ _ (copy_to_ram-Steady page_buf (padded bytes) chunk) λ _.
            Triple-bind _ _
              (on_target-Steady (Flm.program_page port (u32 (base + offset)) chunk page_buf))
              λ _. program-Steady fuel img base size page_buf (offset + chunk))
        (λ _. Triple-pure tt (λ b h. h))

  verify_word-Steady : (n addr expected : ℕ) → Steady (verify_word p swd port n addr expected)
  unfolding verify_word
  verify_word-Steady n addr expected =
      Triple-bind _ _ (on_target-Steady (on_core (port.mem_read32 addr))) λ actual.
        Triple-if _ (pure tt) (raise eio) (λ _. Triple-pure tt (λ b h. h))
          (λ _. Triple-raise eio (λ b h. h))

  verify_words-Steady :
      (left i : ℕ) (bytes : List ℕ) (chunk base : ℕ)
      → Steady (verify_words p swd port left i bytes chunk base)
  unfolding verify_words
  verify_words-Steady zero i bytes chunk base = Triple-pure tt (λ b h. h)
  verify_words-Steady (suc left) i bytes chunk base =
      Triple-bind _ _ (lift-Kept P permits p swd port (word_of (smaller (chunk - i) 4) bytes i))
        λ expected.
          Triple-bind _ _ (verify_word-Steady (smaller (chunk - i) 4) (u32 (base + i)) expected)
            λ _. verify_words-Steady left (i + 4) bytes chunk base

  verify_from-Steady :
      (fuel base size offset : ℕ) → Steady (verify_from p swd port fuel base size offset)
  unfolding verify_from
  verify_from-Steady zero base size offset = stop-Kept P permits p swd port
  verify_from-Steady (suc fuel) base size offset =
      let chunk = smaller (size - offset) page_buf_size in
      Triple-if (ltb offset size) _ (pure tt)
        (λ _. Triple-bind _ _ (read_chunk-Steady chunk) λ bytes.
          Triple-bind _ _
            (verify_words-Steady ((chunk + 3) / 4) 0 (padded bytes) chunk (base + offset))
            λ _. verify_from-Steady fuel base size (offset + chunk))
        (λ _. Triple-pure tt (λ b h. h))

  module _ (ram_base ram_size fuel : ℕ) where
    burn-Steady :
        (img : Image) (work : Work) (size : ℕ)
        → Steady (burn p swd port ram_base ram_size fuel img work size)
    unfolding burn verify
    burn-Steady img work size = Triple-bind _ _ (erase-Steady img img.flash_base size) λ _.
        Triple-bind _ _ (program-Steady fuel img img.flash_base size work.page_buf 0) λ _.
          Triple-bind _ _ (file_seek_start-Kept P permits p swd port)
            λ _. verify_from-Steady fuel img.flash_base size 0

    update_opened-Steady :
        (path : FilePath) (img : Image) (work : Work)
        → Steady (update_opened p swd port ram_base ram_size fuel path img work)
    unfolding update_opened
    update_opened-Steady path img work =
        Triple-bind _ _ (file_size-Kept P permits p swd port path) λ size.
          Triple-if (size == 0 || ltb img.flash_size size) (raise efbig) _
            (λ _. Triple-raise efbig (λ b h. h))
            (λ _. Triple-bind _ _ (on_target-Steady (Flm.init port)) λ _.
              Triple-bind _ _
                (Keeps-on_error (Kept {T = Session S} P) _ (on_target-Steady (Flm.uninit port)) _
                  (burn-Steady img work size))
                λ _. Triple-bind _ _ (on_target-Steady (Flm.uninit port)) λ _.
                  Triple-bind _ _ (on_target-Steady (on_core (CortexM.reset port)))
                    λ _. on_target-Steady (on_core (CortexM.run port)))

    attach-Steady : Steady (attach p swd port)
    unfolding attach
    attach-Steady = on_target-Steady (on_core (do swd.line_reset; port.init; CortexM.halt port))

    pub update_attached-Steady :
        (path : FilePath) (img : Image) (code section_data : List ℕ)
        → Steady (update_attached p swd port ram_base ram_size fuel path img code section_data)
    unfolding update_attached
    update_attached-Steady path img code section_data = Triple-bind _ _ attach-Steady λ _.
        Triple-bind _ _ (lift-Kept P permits p swd port (work_layout ram_base ram_size img)) λ work.
          Triple-bind _ _ (on_target-Steady (Flm.load port img code section_data work.rt)) λ _.
            Triple-bind _ _ (file_open-Kept P permits p swd port path) λ _.
              Keeps-finally (Kept {T = Session S} P) (file_close p)
                (file_close-Kept P permits p swd port) _ (update_opened-Steady path img work)
