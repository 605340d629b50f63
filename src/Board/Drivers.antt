-- ===== src/Board/Drivers.antt =====
-- One function for each driver call of the STM32 side: its answer, and its entry in the record.
use alonzo_bootloader_zephyr.Base.{ℕ, List, ⊤, Result, ok, err, no_return, is_ok, Exec}
use alonzo_bootloader_zephyr.Board.{
  Board, FilePath, FlashPage, Platform, Event, call, opened, unlinked, stated, bytes_read,
  read_failed, closed, uptime_read, flash_erased, flash_written, sought, pins_restored,
}

unfoldable pub read_event : Result (List ℕ) → Event
read_event (ok bytes) = bytes_read bytes
read_event (err e) = read_failed
read_event no_return = read_failed

module _ {T : Type 0} (p : Platform) where
  unfoldable pub file_open : FilePath → Exec (Board T) ⊤
  file_open path = call (λ t. p.open_file t path) (λ r. opened path (is_ok r))

  unfoldable pub file_size : FilePath → Exec (Board T) ℕ
  file_size path = call (λ t. p.stat t path) (λ _. stated path)

  unfoldable pub file_read : ℕ → Exec (Board T) (List ℕ)
  unfolding read_event
  file_read count = call (λ t. p.read t count) read_event

  unfoldable pub file_close : Exec (Board T) ⊤
  file_close = call p.close (λ _. closed)

  unfoldable pub file_unlink : FilePath → Exec (Board T) ⊤
  file_unlink path = call (λ t. p.unlink t path) (λ r. unlinked path (is_ok r))

  unfoldable pub uptime : Exec (Board T) ℕ
  uptime = call (λ t. ok (p.uptime t)) (λ _. uptime_read)

  unfoldable pub flash_erase : ℕ → ℕ → Exec (Board T) ⊤
  flash_erase off size = call (λ t. p.erase t off size) (λ r. flash_erased off size (is_ok r))

  unfoldable pub flash_write : ℕ → List ℕ → Exec (Board T) ⊤
  flash_write off bytes = call (λ t. p.write t off bytes) (λ r. flash_written off bytes (is_ok r))

  unfoldable pub page_info : ℕ → Exec (Board T) FlashPage
  page_info off b = (p.page_info off, b)

  unfoldable pub file_seek_start : Exec (Board T) ⊤
  file_seek_start = call p.seek (λ r. sought (is_ok r))

  unfoldable pub restore_usart2 : Exec (Board T) ⊤
  restore_usart2 = call p.restore_pins (λ r. pins_restored (is_ok r))
