-- ===== src/CoProcessor/Opening.antt =====
-- Erasing and programming leave the image file open.
use alonzo_bootloader_zephyr.Base.{
  ℕ, zero, suc, ◌+◌, ◌-◌, ◌*◌, ◌/◌, List, ◌∷◌, length, Result, ok, err, no_return, u32, bit_and,
  sub32, not, einval, eio, Exec, ◌==◌, ltb,
}
use alonzo_bootloader_zephyr.Base.Hoare.{
  Post, Triple-pure, Triple-raise, Triple-if, Triple-bind, Triple-modify, Triple-mono,
}
use alonzo_bootloader_zephyr.Board.{Board, FilePath, Platform, on_target}
use alonzo_bootloader_zephyr.Board.Reading.{IsOpen}
use alonzo_bootloader_zephyr.Led.{led_red, led_toggle}
use alonzo_bootloader_zephyr.Flm
use alonzo_bootloader_zephyr.Board.Calls.{Keeps-on_target, led_toggle_rule}
use alonzo_bootloader_zephyr.Board.Drivers.{read_event, file_read}
use alonzo_bootloader_zephyr.Swd.Port.{SwdPort}
use alonzo_bootloader_zephyr.Dap.Port.{DebugPort}
use alonzo_bootloader_zephyr.Dap.Memory.{Done}
use alonzo_bootloader_zephyr.Flm.{on_core}
use alonzo_bootloader_zephyr.Flm.Format.{Image, Session}
use alonzo_bootloader_zephyr.CoProcessor.{
  page_buf_size, smaller, padded, read_into, read_chunk, erase_sectors, erase, copy_to_ram, program,
}

module _ {S : Type 0} (p : Platform) (swd : SwdPort S) (port : DebugPort S) (path : FilePath) where
  abbrev Open : Board (Session S) → Type 0
  Open b = IsOpen path b.trace

  abbrev Opening : {A : Type 0} → Exec (Board (Session S)) A → Type 0
  Opening m = Done Open m (λ _. Open)

  on_target-Opening : {A : Type 0} (m : Exec (Session S) A) → Opening (on_target m)
  on_target-Opening m =
      Triple-mono (on_target m) (Keeps-on_target (IsOpen path) m) (λ _ x. x) (λ _ _ x. x)
        (λ _ _. tt)

  erase_sectors-Opening :
      (left i sector base : ℕ) → Opening (erase_sectors p swd port left i sector base)
  unfolding erase_sectors
  erase_sectors-Opening zero i sector base = Triple-pure tt (λ b h. h)
  erase_sectors-Opening (suc left) i sector base =
      Triple-bind _ _ (on_target-Opening (Flm.erase_sector port (u32 (base + i * sector)))) λ _.
        Triple-modify (led_toggle p led_red) _ (λ b h. led_toggle_rule p Open led_red b h h)
          (erase_sectors-Opening left (i + 1) sector base)

  pub erase-Opening : (img : Image) (base size : ℕ) → Opening (erase p swd port img base size)
  unfolding erase
  erase-Opening img base size =
      Triple-if (img.sector_size == 0) _ _ (λ _. record { at = λ b h. tt })
        (λ _.
          erase_sectors-Opening (sub32 (size + img.sector_size) 1 / img.sector_size) 0
            img.sector_size base)

  copy_to_ram-Opening :
      (dst : ℕ) (src : List ℕ) (len : ℕ) → Opening (copy_to_ram p swd port dst src len)
  unfolding copy_to_ram
  copy_to_ram-Opening dst src len =
      Triple-if (not (bit_and dst 3 == 0)) _ _ (λ _. Triple-raise einval (λ b h. tt))
        (λ _. on_target-Opening _)

  read_chunk-Opening : (chunk : ℕ) → Opening (read_chunk p swd port chunk)
  unfolding read_chunk read_into file_read read_event
  read_chunk-Opening chunk =
      Triple-bind {R = λ _. Open} (read_into p swd port page_buf_size chunk) _
        (Triple-bind {R = λ _. Open} (file_read p chunk) _
          (record { at = λ b h. still (p.read b.trace chunk) b h })
          λ bytes.
            Triple-if (ltb page_buf_size (length bytes)) _ _ (λ _. record { at = λ b h. tt })
              (λ _. Triple-pure bytes (λ b h. h)))
        λ bytes.
          Triple-if (length bytes == chunk) _ _ (λ _. Triple-pure bytes (λ b h. h))
            (λ _. Triple-raise eio (λ b h. tt))
    where
      still :
          (r : Result (List ℕ)) (b : Board (Session S))
          → Open b
          → Post (λ _. Open) (λ _. Unit) (r, record b { trace = read_event r ∷ b.trace })
      still (ok bytes) b h = h
      still (err _) b h = tt
      still no_return b h = tt

  pub program-Opening :
      (fuel : ℕ) (img : Image) (base size page_buf offset : ℕ)
      → Opening (program p swd port fuel img base size page_buf offset)
  unfolding program
  program-Opening zero img base size page_buf offset = record { at = λ b h. tt }
  program-Opening (suc fuel) img base size page_buf offset =
      let chunk : ℕ = smaller (size - offset) img.page_size in
      Triple-if (ltb offset size) _ _
        (λ _. Triple-bind (read_chunk p swd port chunk) _ (read_chunk-Opening chunk) λ bytes.
          Triple-bind (copy_to_ram p swd port page_buf (padded bytes) chunk) _
            (copy_to_ram-Opening page_buf (padded bytes) chunk)
            λ _.
              Triple-bind (on_target (Flm.program_page port (u32 (base + offset)) chunk page_buf)) _
                (on_target-Opening _)
                λ _. program-Opening fuel img base size page_buf (offset + chunk))
        (λ _. Triple-pure tt (λ b h. h))
