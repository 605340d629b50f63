-- ===== src/Flm.antt =====
-- src/fr8016/flm.c: loading a flash algorithm into the target's memory and calling its routines.
-- Pointer arguments are values here, so the tests for NULL are left out but that of `flm_img`, and
-- so is printing.
pub mod Format
pub mod Memory
pub mod Placing
pub mod Calling
pub mod Loading
pub mod Returning
use Format.{image_magic, image_version, Image, Runtime, Loaded, Session}
use alonzo_bootloader_zephyr.Base.{
  ℕ, zero, suc, ◌+◌, ◌*◌, ◌/◌, bit_and, bit_or, and_not, u32, Bool, true, ◌||◌, ◌&&◌, not, Option,
  none, some, List, [], ◌∷◌, ⊤, einval, eio, enxio, etimedout, Result, ok, err, Exec, pure, raise,
  lift, modify, ◌>>=◌, ◌>>◌, ◌==◌, ltb, leb, if◌then◌else◌,
}
use alonzo_bootloader_zephyr.Base.Bytes.{read32}
use alonzo_bootloader_zephyr.CortexM.{
  halt, resume, is_halted, read_reg, write_reg, write_pc, write_sp,
}
use alonzo_bootloader_zephyr.CortexM.Register.{r9, lr}
use alonzo_bootloader_zephyr.Dap.Port.{DebugPort}

-- FLM_BKPT_WORD, FLM_CALL_TIMEOUT_MS and FLM_CALL_POLL_US.
abbrev pub bkpt_word : ℕ
bkpt_word = 0x0000_be00

abbrev pub call_timeout_ms : ℕ
call_timeout_ms = 20000

abbrev pub call_poll_us : ℕ
call_poll_us = 1000

abbrev pub call_polls : ℕ
call_polls = call_timeout_ms * 1000 / call_poll_us

unfoldable pub align4 : ℕ → ℕ
align4 a = and_not (u32 (a + 3)) 3

-- The magic, the version and the sizes, which `flm_load` and `flm_selftest` test alike.
abbrev pub is_image : Image → Bool
is_image img =
    (img.magic == image_magic)
    && (img.version == image_version)
    && not (img.code_size == 0 || img.data_size == 0)

-- The addresses do not overlap: code, data, the BKPT stub at `bkpt`, and the stack.
abbrev pub has_room : Image → Runtime → ℕ → Bool
has_room img rt bkpt =
    leb (u32 (rt.code_base + img.code_size)) rt.data_base
    && leb (u32 (bkpt + 4 + img.required_stack_size)) rt.stack_top

-- A step of the debug port.
abbrev pub on_core : {S A : Type 0} → Exec S A → Exec (Session S) A
on_core m s = let (r, core) = m s.core in (r, record s { core = core })

module _ {S : Type 0} (port : DebugPort S) where
  open port use {mem_write32}

  -- The rounds of the loop that are left, and the index of the next word.
  unfoldable pub copy_words : ℕ → ℕ → ℕ → List ℕ → Exec S ⊤
  copy_words zero i dst src = pure tt
  copy_words (suc left) i dst src = do
    word ← lift (read32 src i)
    mem_write32 (u32 (dst + i)) word
    copy_words left (i + 4) dst src

  unfoldable pub copy_to_ram : ℕ → List ℕ → ℕ → Exec S ⊤
  copy_to_ram dst src len =
      if not (bit_and dst 3 == 0) || not (bit_and len 3 == 0)
      then raise einval
      else copy_words (len / 4) 0 dst src

  -- What is put into the target's memory, and the halt.
  unfoldable pub place : Image → List ℕ → List ℕ → Runtime → ℕ → Exec S ⊤
  unfolding copy_to_ram
  place img code data_bytes rt bkpt = do
    port.init
    copy_to_ram rt.code_base code img.code_size
    copy_to_ram rt.data_base data_bytes img.data_size
    mem_write32 bkpt bkpt_word
    halt port

  unfoldable pub load : Image → List ℕ → List ℕ → Runtime → Exec (Session S) ⊤
  unfolding place align4
  load img code data_bytes rt =
      let bkpt = align4 (u32 (rt.data_base + img.data_size)) in
      if is_image img && has_room img rt bkpt
      then (do
        on_core (place img code data_bytes rt bkpt)
        modify (λ s. record s { loaded = some (record { image = img; rt = rt; bkpt = bkpt }) }))
      else raise einval

  -- The registers of a call: the static base, the stack, the return address and the arguments.
  pub set_up_call : Loaded → ℕ → ℕ → ℕ → ℕ → ℕ → Exec S ⊤
  set_up_call l entry a0 a1 a2 a3 = do
    write_reg port r9 l.rt.data_base
    write_sp port l.rt.stack_top
    write_reg port lr (bit_or l.bkpt 1)
    write_reg port 0 a0
    write_reg port 1 a1
    write_reg port 2 a2
    write_reg port 3 a3
    write_pc port (u32 (l.rt.code_base + and_not entry 1))

  -- The loop that waits for the routine, with the polls that are left.
  pub await_return : ℕ → Exec S ℕ
  await_return zero = raise etimedout
  await_return (suc left) = do
    halted ← is_halted port
    if halted then read_reg port 0 else (do modify (port.wait call_poll_us); await_return left)

  pub call_loaded : Loaded → ℕ → ℕ → ℕ → ℕ → ℕ → Exec S ℕ
  unfolding set_up_call await_return
  call_loaded l entry a0 a1 a2 a3 = do
    set_up_call l entry a0 a1 a2 a3
    resume port
    await_return call_polls

  -- `flm_call` stores the routine's result, since its only caller passes a pointer for it.
  call : ℕ → ℕ → ℕ → ℕ → ℕ → Exec (Session S) ℕ
  unfolding call_loaded
  call entry a0 a1 a2 a3 s = elim s.loaded [
    | none ↦ raise enxio s
    | some l ↦ on_core (call_loaded l entry a0 a1 a2 a3) s
  ]

  unfoldable pub run : ℕ → ℕ → ℕ → ℕ → ℕ → Exec (Session S) ⊤
  unfolding call
  run entry a0 a1 a2 a3 = do ret ← call entry a0 a1 a2 a3; if ret == 0 then pure tt else raise eio

  -- An entry of the loaded image.
  with_entry : (Image → ℕ) → (ℕ → Exec (Session S) ⊤) → Exec (Session S) ⊤
  with_entry offset k s = elim s.loaded [ none ↦ raise enxio s | some l ↦ k (offset l.image) s ]

  unfoldable pub init : Exec (Session S) ⊤
  unfolding run with_entry
  init = with_entry (λ img. img.code_entry_offset) (λ entry. run entry 0 0 0 0)

  unfoldable pub uninit : Exec (Session S) ⊤
  unfolding run with_entry
  uninit = with_entry (λ img. img.uninit_entry_offset) (λ entry. run entry 0 0 0 0)

  unfoldable pub erase_sector : ℕ → Exec (Session S) ⊤
  unfolding run with_entry
  erase_sector addr =
      with_entry (λ img. img.erase_sector_entry_offset) (λ entry. run entry addr 0 0 0)

  unfoldable pub program_page : ℕ → ℕ → ℕ → Exec (Session S) ⊤
  unfolding run with_entry
  program_page addr size buffer =
      with_entry (λ img. img.program_page_entry_offset) (λ entry. run entry addr size buffer 0)

-- The loop of `flm_selftest` over the entries.
entries_within : ℕ → List ℕ → Bool
entries_within size [] = true
entries_within size (entry ∷ rest) = ltb (and_not entry 1) size && entries_within size rest

unfoldable pub selftest : Image → Result ⊤
unfolding entries_within
selftest img =
    if is_image img
      && entries_within img.code_size (
          img.code_entry_offset ∷ img.uninit_entry_offset ∷ img.erase_chip_entry_offset
          ∷ img.erase_sector_entry_offset ∷ img.program_page_entry_offset ∷ [])
    then ok tt
    else err einval
