-- ===== src/CoProcessor/Recorded.antt =====
-- Which driver calls of the STM32 side an update of the co-processor makes: reads of the card, the
-- red LED, and the pins of USART2; and at its end it deletes the two files.
use alonzo_bootloader_zephyr.Base.{
  ℕ, suc, zero, ◌-◌, Bool, ◌||◌, List, [], ◌∷◌, ◌++◌, length, Result, is_ok, efbig, eio, Exec, pure,
  raise, fault, lift, ◌==◌, ltb,
}
use alonzo_bootloader_zephyr.Base.Hoare.{
  Keeps, Post-same, Triple-pure, Triple-raise, Triple-if, Triple-bind, Keeps-finally,
}
use alonzo_bootloader_zephyr.Board.{
  Trace, Board, FilePath, Platform, on_target, opened, stated, closed, sought, pins_restored,
  led_toggled,
}
use alonzo_bootloader_zephyr.Board.Calls.{Kept, Keeps-call, Keeps-on_target, led_toggle_rule}
use alonzo_bootloader_zephyr.Board.Drivers.{
  read_event, file_open, file_size, file_read, file_close, file_seek_start, restore_usart2,
}
use alonzo_bootloader_zephyr.Led.{led_red, led_toggle}
use alonzo_bootloader_zephyr.Swd.Port.{SwdPort}
use alonzo_bootloader_zephyr.Dap.Port.{DebugPort}
use alonzo_bootloader_zephyr.Flm.Format.{Session}
use alonzo_bootloader_zephyr.FlmElf.{flm_elf_parse}
use alonzo_bootloader_zephyr.CoProcessor.{flm_max_size, read_into, read_rest, read_file, load_flm}

-- A property that the calls of an update before it deletes the files keep.
pub record Permits (P : Trace → Type 0) : Type 0 where
  pub stats : (path : FilePath) (t : Trace) → P t → P (stated path ∷ t)
  pub opens : (path : FilePath) (done : Bool) (t : Trace) → P t → P (opened path done ∷ t)
  pub reads : (r : Result (List ℕ)) (t : Trace) → P t → P (read_event r ∷ t)
  pub closes : (t : Trace) → P t → P (closed ∷ t)
  pub seeks : (done : Bool) (t : Trace) → P t → P (sought done ∷ t)
  pub restores : (done : Bool) (t : Trace) → P t → P (pins_restored done ∷ t)
  pub toggles : (id : ℕ) (t : Trace) → P t → P (led_toggled id ∷ t)

module _ {S : Type 0} (P : Trace → Type 0) (permits : Permits P) (p : Platform) (swd : SwdPort S)
    (port : DebugPort S) where
  pub lift-Kept : {A : Type 0} (r : Result A) → Keeps (Kept {T = Session S} P) (lift r)
  lift-Kept r = record { at = λ b h. Post-same (Kept {T = Session S} P) r b h }

  pub stop-Kept : {A : Type 0} → Keeps (Kept {T = Session S} P) (fault {A = A})
  stop-Kept = record { at = λ b h. h }

  pub on_target-Kept :
      {A : Type 0} (m : Exec (Session S) A) → Keeps (Kept {T = Session S} P) (on_target m)
  on_target-Kept m = Keeps-on_target P m

  pub file_size-Kept : (path : FilePath) → Keeps (Kept {T = Session S} P) (file_size p path)
  unfolding file_size
  file_size-Kept path = Keeps-call _ (λ _. stated path) (λ b r h. permits.stats path b.trace h)

  pub file_open-Kept : (path : FilePath) → Keeps (Kept {T = Session S} P) (file_open p path)
  unfolding file_open
  file_open-Kept path =
      Keeps-call _ (λ r. opened path (is_ok r)) (λ b r h. permits.opens path (is_ok r) b.trace h)

  file_read-Kept : (count : ℕ) → Keeps (Kept {T = Session S} P) (file_read p count)
  unfolding file_read
  file_read-Kept count = Keeps-call _ read_event (λ b r h. permits.reads r b.trace h)

  pub file_close-Kept : Keeps (Kept {T = Session S} P) (file_close p)
  unfolding file_close
  file_close-Kept = Keeps-call _ (λ _. closed) (λ b r h. permits.closes b.trace h)

  pub file_seek_start-Kept : Keeps (Kept {T = Session S} P) (file_seek_start p)
  unfolding file_seek_start
  file_seek_start-Kept =
      Keeps-call _ (λ r. sought (is_ok r)) (λ b r h. permits.seeks (is_ok r) b.trace h)

  pub restore_usart2-Kept : Keeps (Kept {T = Session S} P) (restore_usart2 p)
  unfolding restore_usart2
  restore_usart2-Kept =
      Keeps-call _ (λ r. pins_restored (is_ok r)) (λ b r h. permits.restores (is_ok r) b.trace h)

  pub led_toggle-Kept : (b : Board (Session S)) → Kept P b → Kept P (led_toggle p led_red b)
  led_toggle-Kept b h =
      led_toggle_rule p (Kept {T = Session S} P) led_red b h (permits.toggles led_red b.trace h)

  pub read_into-Kept :
      (room count : ℕ) → Keeps (Kept {T = Session S} P) (read_into p swd port room count)
  unfolding read_into
  read_into-Kept room count = Triple-bind (file_read p count) _ (file_read-Kept count) λ bytes.
      Triple-if (ltb room (length bytes)) _ _ (λ _. stop-Kept) (λ _. Triple-pure bytes (λ b h. h))

  read_rest-Kept :
      (fuel cap want : ℕ) (done : List ℕ)
      → Keeps (Kept {T = Session S} P) (read_rest p swd port fuel cap want done)
  unfolding read_rest
  read_rest-Kept zero cap want done = stop-Kept
  read_rest-Kept (suc fuel) cap want done =
      Triple-if (ltb (length done) want) _ (pure done)
        (λ _. Triple-bind _ _ (read_into-Kept (cap - length done) (want - length done)) λ bytes.
          Triple-if (length bytes == 0) (raise eio) _ (λ _. Triple-raise eio (λ b h. h))
            (λ _. read_rest-Kept fuel cap want (done ++ bytes)))
        (λ _. Triple-pure done (λ b h. h))

  read_file-Kept :
      (fuel : ℕ) (path : FilePath) (cap : ℕ)
      → Keeps (Kept {T = Session S} P) (read_file p swd port fuel path cap)
  unfolding read_file
  read_file-Kept fuel path cap = Triple-bind (file_size p path) _ (file_size-Kept path) λ size.
      Triple-if (size == 0 || ltb cap size) (raise efbig) _ (λ _. Triple-raise efbig (λ b h. h))
        (λ _. Triple-bind (file_open p path) _ (file_open-Kept path) λ _.
          Keeps-finally (Kept {T = Session S} P) (file_close p) file_close-Kept _
            (read_rest-Kept fuel cap size []))

  pub load_flm-Kept :
      (fuel : ℕ) (path : FilePath) → Keeps (Kept {T = Session S} P) (load_flm p swd port fuel path)
  unfolding load_flm
  load_flm-Kept fuel path =
      Triple-bind (read_file p swd port fuel path flm_max_size) _
        (read_file-Kept fuel path flm_max_size)
        λ elf.
          Triple-bind _ _ (lift-Kept (flm_elf_parse elf))
            λ (img, code, section_data). Triple-pure _ (λ b h. h)
