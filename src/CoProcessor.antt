-- ===== src/CoProcessor.antt =====
-- src/fr8016/fr8016.c: the update of the FR8016HA over SWD, with the flash algorithm of a .FLM file.
-- Printing is left out. `ram_base` and `ram_size` are CONFIG_ALONZO_FR8016_RAM_BASE and _SIZE. The
-- loops over files run on fuel. The board has USART2 enabled.
pub mod Area
pub mod Recorded
pub mod Phases
pub mod ReadBack
pub mod Verified
pub mod Reread
mod Opening
pub mod Burned
pub mod Ending
pub mod Finishing
pub mod Fetching
pub mod Completion
pub mod Layout
pub mod Loaded
pub mod Deletion
pub mod Safety
pub mod Restoring
pub mod Stuck
use alonzo_bootloader_zephyr.Base.{
  ℕ, zero, suc, ◌+◌, ◌-◌, ◌*◌, ◌/◌, ◌^◌, bit_and, u32, sub32, Bool, true, ◌||◌, not, List, [], ◌++◌,
  length, replicate, ⊤, efbig, einval, eio, enospc, Result, ok, err, no_return, Exec, pure, raise,
  run_out, fault, lift, modify, on_error, finally, ◌>>=◌, ◌>>◌, ◌==◌, ltb, if◌then◌else◌,
}
use alonzo_bootloader_zephyr.Base.Bytes
use alonzo_bootloader_zephyr.Base.Bytes.{drop, get_byte}
use alonzo_bootloader_zephyr.Board.{Board, FilePath, Platform, on_target}
use alonzo_bootloader_zephyr.Board.Drivers.{
  file_open, file_size, file_read, file_close, file_unlink, file_seek_start, restore_usart2,
}
use alonzo_bootloader_zephyr.Led.{led_red, led_toggle}
use alonzo_bootloader_zephyr.Tf.{tf_file_exists}
use alonzo_bootloader_zephyr.Swd.Port.{SwdPort}
use alonzo_bootloader_zephyr.Dap.Port.{DebugPort}
use alonzo_bootloader_zephyr.CortexM
use alonzo_bootloader_zephyr.Flm
use alonzo_bootloader_zephyr.Flm.{align4, copy_words, on_core}
use alonzo_bootloader_zephyr.Flm.Format.{Image, Runtime, Session}
use alonzo_bootloader_zephyr.FlmElf.{flm_elf_parse}
use alonzo_bootloader_zephyr.Update.{Fr8016}
pub use Area.{page_buf_size, flm_max_size, Work, tail_mask, smaller, padded}
unfoldable pub use Area.{work_layout, word_of}

module _ {S : Type 0} (p : Platform) (swd : SwdPort S) (port : DebugPort S) where
  abbrev Update : Type 0 → Type 0
  Update = Exec (Board (Session S))

  abbrev on_port : {A : Type 0} → Exec S A → Update A
  on_port m = on_target (on_core m)

  unfoldable pub enter_swd : Update ⊤
  enter_swd = on_port swd.init

  pub attach : Update ⊤
  attach = on_port (do swd.line_reset; port.init; CortexM.halt port)

  pub copy_to_ram : ℕ → List ℕ → ℕ → Update ⊤
  copy_to_ram dst src len =
      if not (bit_and dst 3 == 0)
      then raise einval
      else on_port (copy_words port (align4 len / 4) 0 dst src)

  -- A read for a buffer of `room` bytes that returns more bytes than that writes behind it.
  pub read_into : ℕ → ℕ → Update (List ℕ)
  read_into room count = do
    bytes ← file_read p count
    if ltb room (length bytes) then fault else pure bytes

  -- The loop of `fr_read_file`, with what has been read.
  read_rest : ℕ → ℕ → ℕ → List ℕ → Update (List ℕ)
  unfolding read_into
  read_rest zero cap want done = run_out
  read_rest (suc fuel) cap want done =
      if ltb (length done) want
      then (do
        bytes ← read_into (cap - length done) (want - length done)
        if length bytes == 0 then raise eio else read_rest fuel cap want (done ++ bytes))
      else pure done

  read_file : ℕ → FilePath → ℕ → Update (List ℕ)
  unfolding read_rest
  read_file fuel path cap = do
    size ← file_size p path
    if size == 0 || ltb cap size
        then raise efbig
        else (do file_open p path; finally (file_close p) (read_rest fuel cap size []))

  -- The image, its code and its data, up to the end of the file.
  unfoldable pub load_flm : ℕ → FilePath → Update (Image × List ℕ × List ℕ)
  unfolding read_file
  load_flm fuel path = do
    elf ← read_file fuel path flm_max_size
    (img, code, section_data) ← lift (flm_elf_parse elf)
    pure (img, drop code elf, drop section_data elf)

  -- The rounds of the loop that are left, and its index.
  pub erase_sectors : ℕ → ℕ → ℕ → ℕ → Update ⊤
  erase_sectors zero i sector flash_base = pure tt
  erase_sectors (suc left) i sector flash_base = do
    on_target (Flm.erase_sector port (u32 (flash_base + i * sector)))
    modify (led_toggle p led_red)
    erase_sectors left (i + 1) sector flash_base

  pub erase : Image → ℕ → ℕ → Update ⊤
  unfolding erase_sectors
  erase img flash_base image_size =
      let sector = img.sector_size in
      if sector == 0
      then fault
      else erase_sectors (sub32 (image_size + sector) 1 / sector) 0 sector flash_base

  -- A read that must give `chunk` bytes for the page buffer.
  pub read_chunk : ℕ → Update (List ℕ)
  unfolding read_into
  read_chunk chunk = do
    bytes ← read_into page_buf_size chunk
    if length bytes == chunk then pure bytes else raise eio

  -- The loop of `fr_program`, from `offset` on.
  pub program : ℕ → Image → ℕ → ℕ → ℕ → ℕ → Update ⊤
  unfolding read_chunk copy_to_ram
  program zero img flash_base image_size page_buf offset = run_out
  program (suc fuel) img flash_base image_size page_buf offset =
      let chunk = smaller (image_size - offset) img.page_size in
      if ltb offset image_size
      then (do
        bytes ← read_chunk chunk
        copy_to_ram page_buf (padded bytes) chunk
        on_target (Flm.program_page port (u32 (flash_base + offset)) chunk page_buf)
        program fuel img flash_base image_size page_buf (offset + chunk))
      else pure tt

  -- One word of a page is read back from `addr` and compared in its `n` low bytes.
  pub verify_word : ℕ → ℕ → ℕ → Update ⊤
  verify_word n addr expected = do
    actual ← on_port (port.mem_read32 addr)
    if bit_and actual (tail_mask n) == bit_and expected (tail_mask n) then pure tt else raise eio

  -- The words of a page, with the rounds that are left and the index.
  pub verify_words : ℕ → ℕ → List ℕ → ℕ → ℕ → Update ⊤
  unfolding verify_word
  verify_words zero i bytes chunk base = pure tt
  verify_words (suc left) i bytes chunk base = do
    expected ← lift (word_of (smaller (chunk - i) 4) bytes i)
    verify_word (smaller (chunk - i) 4) (u32 (base + i)) expected
    verify_words left (i + 4) bytes chunk base

  -- The loop of `fr_verify`, from `offset` on.
  pub verify_from : ℕ → ℕ → ℕ → ℕ → Update ⊤
  unfolding read_chunk verify_words
  verify_from zero flash_base image_size offset = run_out
  verify_from (suc fuel) flash_base image_size offset =
      let chunk = smaller (image_size - offset) page_buf_size in
      if ltb offset image_size
      then (do
        bytes ← read_chunk chunk
        verify_words ((chunk + 3) / 4) 0 (padded bytes) chunk (flash_base + offset)
        verify_from fuel flash_base image_size (offset + chunk))
      else pure tt

  pub verify : ℕ → ℕ → ℕ → Update ⊤
  unfolding verify_from
  verify fuel flash_base image_size = do file_seek_start p; verify_from fuel flash_base image_size 0

  module _ (ram_base ram_size fuel : ℕ) where
    -- From the erase to the verification.
    unfoldable pub burn : Image → Work → ℕ → Update ⊤
    unfolding erase program verify
    burn img work image_size = do
      erase img img.flash_base image_size
      program fuel img img.flash_base image_size work.page_buf 0
      verify fuel img.flash_base image_size

    -- With the image file open: up to the start of the new firmware.
    pub update_opened : FilePath → Image → Work → Update ⊤
    unfolding burn
    update_opened ble_path img work = do
      size ← file_size p ble_path
      if size == 0 || ltb img.flash_size size then raise efbig else (do
        on_target (Flm.init port)
        on_error (on_target (Flm.uninit port)) (burn img work size)
        on_target (Flm.uninit port)
        on_port (CortexM.reset port)
        on_port (CortexM.run port))

    -- With the pins taken from USART2.
    pub update_attached : FilePath → Image → List ℕ → List ℕ → Update ⊤
    unfolding update_opened attach
    update_attached ble_path img code section_data = do
      attach
      work ← lift (work_layout ram_base ram_size img)
      on_target (Flm.load port img code section_data work.rt)
      file_open p ble_path
      finally (file_close p) (update_opened ble_path img work)

    unfoldable pub update : FilePath → FilePath → Update ⊤
    unfolding load_flm enter_swd update_attached
    update ble_path flm_path = do
      (img, code, section_data) ← load_flm fuel flm_path
      enter_swd
      finally (restore_usart2 p) (update_attached ble_path img code section_data)
      file_unlink p ble_path
      file_unlink p flm_path

    unfoldable pub flm_selftest : FilePath → Update ⊤
    unfolding load_flm
    flm_selftest flm_path b =
        let (found, b') = tf_file_exists p flm_path b in
        (if found
            then (do (img, _, _) ← load_flm fuel flm_path; lift (Flm.selftest img))
            else pure tt)
          b'

    -- What the rest of the bootloader uses of the module.
    abbrev pub co_processor : Fr8016 (Session S)
    co_processor = record {
      update = update;
      cm_selftest = on_port (CortexM.selftest port);
      flm_selftest = flm_selftest;
    }
