-- ===== src/Board.antt =====
-- The hardware and the Zephyr drivers that the bootloader calls, and the record of its calls. What the
-- drivers answer is a parameter: any functions of the calls made so far. `T` is the state of the BLE
-- co-processor and of the modules that talk to it.
pub mod Calls
pub mod Drivers
pub mod Reading
pub mod Deleting
use alonzo_bootloader_zephyr.Base.{ℕ, Bool, List, ◌∷◌, Result, Exec, ⊤}

-- ALONZO_FW_PATH, ALONZO_BLE_PATH and ALONZO_FLM_PATH (include/tf.h).
pub data FilePath : Type 0 where
  firmware_bin ble_bin flm : FilePath

-- The calls; a `Bool` says whether the driver returned 0. A read holds the bytes that it returned.
pub data Event : Type 0 where
  led_configured : ℕ → Event
  led_written : ℕ → Bool → Event
  led_toggled : ℕ → Event
  mounted unmounted : Bool → Event
  opened unlinked : FilePath → Bool → Event
  stated : FilePath → Event
  bytes_read : List ℕ → Event
  read_failed : Event
  closed : Event
  uptime_read : Event
  flash_erased : ℕ → ℕ → Bool → Event
  flash_written : ℕ → List ℕ → Bool → Event
  pins_restored sought : Bool → Event
  irq_disabled systick_cleared pending_cleared : Event
  irq_lines_disabled : ℕ → Event
  vector_table_set stack_pointer_set entered : ℕ → Event

-- The latest call stands first.
abbrev pub Trace : Type 0
Trace = List Event

pub record Board (T : Type 0) : Type 0 where
  pub trace : Trace
  pub target : T

-- `struct flash_pages_info`.
pub record FlashPage : Type 0 where
  pub start_offset : ℕ
  pub size : ℕ

-- `restore_pins` is `pinctrl_apply_state` for USART2, and `seek` goes back to the start of the file.
-- `word_at` reads a word of memory; `interrupt_lines` is the INTLINESNUM field of ICTR.
pub record Platform : Type 0 where
  pub led_ready : ℕ → Bool
  pub mount : Trace → Result ⊤
  pub unmount : Trace → Result ⊤
  pub stat : Trace → FilePath → Result ℕ
  pub open_file : Trace → FilePath → Result ⊤
  pub read : Trace → ℕ → Result (List ℕ)
  pub close : Trace → Result ⊤
  pub unlink : Trace → FilePath → Result ⊤
  pub seek : Trace → Result ⊤
  pub restore_pins : Trace → Result ⊤
  pub uptime : Trace → ℕ
  pub flash_ready : Bool
  pub page_info : ℕ → Result FlashPage
  pub erase : Trace → ℕ → ℕ → Result ⊤
  pub write : Trace → ℕ → List ℕ → Result ⊤
  pub word_at : Trace → ℕ → ℕ
  pub interrupt_lines : ℕ

module _ {T : Type 0} where
  abbrev pub emit : Event → Board T → Board T
  emit e b = record b { trace = e ∷ b.trace }

  -- A driver call: its answer, and its entry in the record.
  abbrev pub call : {A : Type 0} → (Trace → Result A) → (Result A → Event) → Exec (Board T) A
  call answer event b = let r = answer b.trace in (r, emit (event r) b)

-- A step of the modules that talk to the co-processor.
abbrev pub on_target : {T A : Type 0} → Exec T A → Exec (Board T) A
on_target m b = let (r, t) = m b.target in (r, record b { target = t })
