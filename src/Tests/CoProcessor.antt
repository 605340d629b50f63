-- ===== src/Tests/CoProcessor.antt =====
-- A run of the co-processor's update, and instances of the theorems about it.
use alonzo_bootloader_zephyr.Base.{
  ◌≡◌, ◌⊎◌, refl, arith, true, false, length, none, some, ok, err, raise, eio,
}
use alonzo_bootloader_zephyr.Board.{Board, ble_bin, flm}
use alonzo_bootloader_zephyr.Board.Drivers
use alonzo_bootloader_zephyr.FlmElf.{flm_elf_parse}
use alonzo_bootloader_zephyr.Base.Bytes.{read16, read32, drop}
use alonzo_bootloader_zephyr.Flm
use alonzo_bootloader_zephyr.Flm.{copy_words, align4, has_room, is_image}
use alonzo_bootloader_zephyr.CortexM
use alonzo_bootloader_zephyr.CortexM.{
  halt, wait_dhcsr, write_reg, read_reg, write_sp, write_pc, resume, run, is_halted, clear_errors,
  wait_halted,
}
use alonzo_bootloader_zephyr.Led.{led_toggle}
use alonzo_bootloader_zephyr.Dap.Port.{over, DebugPort}
use alonzo_bootloader_zephyr.Dap.Memory.{View, Done}
use alonzo_bootloader_zephyr.Flm.Format.{Session}
use alonzo_bootloader_zephyr.CoProcessor.{
  word_of, work_layout, update, program, co_processor, load_flm, enter_swd, verify, update_attached,
}
use alonzo_bootloader_zephyr.Base.Hoare.{Triple}
use alonzo_bootloader_zephyr.Base.Yields.{Yields}
use alonzo_bootloader_zephyr.Flm.Memory.{IsMemory, over-IsMemory}
use alonzo_bootloader_zephyr.Flm.Loading.{load-loaded}
use alonzo_bootloader_zephyr.FlmElf.Sound.{IsSound, flm_elf_parse-IsSound}
use alonzo_bootloader_zephyr.Board.Deleting.{AllThere}
use alonzo_bootloader_zephyr.CoProcessor.Deletion.{BothDeleted, OneDeleted, update-deletes}
use alonzo_bootloader_zephyr.CoProcessor.Layout.{
  IsDisjoint, work_layout-IsDisjoint, work_layout-has_room,
}
use alonzo_bootloader_zephyr.CoProcessor.Restoring.{Restored, AtEnd, update-Restored}
use alonzo_bootloader_zephyr.CoProcessor.Stuck.{program-stuck}
use alonzo_bootloader_zephyr.FirmwareUpdate.Region.{IsPaged, AllAbove}
use alonzo_bootloader_zephyr.Boot.{main}
use alonzo_bootloader_zephyr.Boot.System.{system-AllAbove}
use alonzo_bootloader_zephyr.Tests.Fixtures.{platform-IsPaged}
use alonzo_bootloader_zephyr.Base.Total.{Total}
use alonzo_bootloader_zephyr.FirmwareUpdate.Cell.{Spells}
use alonzo_bootloader_zephyr.CoProcessor.Verified.{byte_of}
use alonzo_bootloader_zephyr.CoProcessor.Reread.{verify-Compared}
use alonzo_bootloader_zephyr.Board.Reading.{since_open}
use alonzo_bootloader_zephyr.CoProcessor.Finishing.{IsUsable, update_attached-Ends}
use alonzo_bootloader_zephyr.Tests.Dap.{memory_port, memory_port-IsMemAp}
use alonzo_bootloader_zephyr.Tests.Elf.{flm_file, parsed_image}
use alonzo_bootloader_zephyr.Tests.Target.{
  card, Core, wired, core, unloaded, small_card, small_card-ReadsBytes, small_card-ReadsBounded,
  small_card-Returns, core-Answers, layout, lays_out, two_words,
}

-- The update succeeds, and deletes both files at its end.
updates : (update card wired core 0x2000_0000 0x4000 20 ble_bin flm unloaded).0 ≡ ok tt
unfolding update Drivers.file_size Drivers.file_open Drivers.file_read Drivers.file_close
    Drivers.file_unlink Drivers.file_seek_start Drivers.restore_usart2 flm_elf_parse read16 read32
    led_toggle word_of halt wait_dhcsr write_reg read_reg write_sp write_pc resume run is_halted
    CortexM.reset clear_errors wait_halted work_layout Flm.load copy_words Flm.init Flm.uninit
    Flm.erase_sector Flm.program_page
updates = refl

update-deletes_example :
    Triple
      (λ (b : Board (Session Core)). AllThere b.trace)
      (update card wired core 0x2000_0000 0x4000 20 ble_bin flm)
      (λ _ b. BothDeleted ble_bin flm b.trace)
      (λ b. AllThere b.trace ⊎ OneDeleted ble_bin flm b.trace)
update-deletes_example = update-deletes card wired core 0x2000_0000 0x4000 20 ble_bin flm

card-IsPaged : IsPaged card 0x20000
card-IsPaged =
    let paged = platform-IsPaged 0x0802_0100 in
    record { contains = paged.contains; aligned = paged.aligned }

system-AllAbove_example :
    AllAbove 0x20000
      (main card (co_processor card wired core 0x2000_0000 0x4000 20) false 20 0x20000 unloaded).1
system-AllAbove_example =
    system-AllAbove card wired core 0x2000_0000 0x4000 20 false 20 0x20000 unloaded card-IsPaged tt

work_layout-IsDisjoint_example : IsDisjoint 0x2000_0000 0x4000 parsed_image layout
work_layout-IsDisjoint_example =
    work_layout-IsDisjoint 0x2000_0000 0x4000 parsed_image (omega arith) (omega arith) layout
      lays_out

work_layout-has_room_example : has_room parsed_image layout.rt (align4 0x2000_0008) ≡ true
work_layout-has_room_example =
    work_layout-has_room 0x2000_0000 0x4000 parsed_image (omega arith) (omega arith) layout lays_out

flm_elf_parse-IsSound_example :
    Yields (λ (img, code, part). IsSound flm_file img code part) (flm_elf_parse flm_file)
flm_elf_parse-IsSound_example = flm_elf_parse-IsSound flm_file

memory_port-IsMemory : IsMemory (over memory_port) (λ s. s.memory) 0xe000_0000
memory_port-IsMemory = over-IsMemory memory_port (λ s. s) 0xe000_0000 memory_port-IsMemAp

load-loaded_example :
    Triple
      (λ (s : Session Core). s.loaded ≡ none)
      (Flm.load core parsed_image two_words two_words layout.rt)
      (λ _ s.
        (is_image parsed_image ≡ true)
        × (has_room parsed_image layout.rt (align4 0x2000_0008) ≡ true)
        × (s.loaded
            ≡ some (record { image = parsed_image; rt = layout.rt; bkpt = align4 0x2000_0008 })))
      (λ s. s.loaded ≡ none)
load-loaded_example = load-loaded core parsed_image two_words two_words layout.rt none

program-stuck_example :
    Triple
      (λ (_ : Board (Session Core)). Unit)
      (program card wired core 20
        (record parsed_image { page_size = 0 })
        0x0100_0000
        3
        0x2000_000c
        0)
      (λ _ _. ⊥)
      (λ _. Unit)
program-stuck_example =
    program-stuck card wired core 20 (record parsed_image { page_size = 0 }) 0x0100_0000 3
      0x2000_000c 0 refl (omega arith)

verify-Compared_example :
    Done
      (λ (b : Board (Session View)). b.target.core.memory ≡ λ a. a)
      (verify small_card memory_port (over memory_port) 4 0x0100_0000 3)
      (λ _ b.
        (Spells (byte_of (λ a. a) 0x0100_0000) (λ x. x) 0 (since_open b.trace)
          × (length (since_open b.trace) ≡ 3))
        × (b.target.core.memory ≡ λ a. a))
verify-Compared_example =
    verify-Compared small_card memory_port (over memory_port) (λ s. s.memory) 0xe000_0000
      memory_port-IsMemory (λ a. a) small_card-ReadsBytes 0x0100_0000 3 (omega arith) (omega arith)
      4

parsed-IsUsable : IsUsable parsed_image two_words two_words
parsed-IsUsable = record {
  code_fits = omega arith;
  data_fits = omega arith;
  page_least = omega arith;
  page_most = omega arith;
  sector_least = omega arith;
}

update_attached-Ends_example :
    Total
      (λ (_ : Board (Session Core)). Unit)
      (update_attached small_card wired core 0x2000_0000 0x4000 0x8_0001 ble_bin parsed_image
        two_words two_words)
      (λ _ _. Unit)
update_attached-Ends_example =
    update_attached-Ends small_card wired core small_card-Returns small_card-ReadsBounded
      core-Answers (λ t e. cc) (record { at = λ s u. tt }) 0x2000_0000 0x4000 0x8_0001 parsed_image
      two_words two_words parsed-IsUsable (omega arith) ble_bin

-- A debug port that does not power up.
abbrev dead : DebugPort Core
dead = record core { init = raise eio }

not_attached : (update card wired dead 0x2000_0000 0x4000 20 ble_bin flm unloaded).0 ≡ err eio
unfolding update Drivers.file_size Drivers.file_open Drivers.file_read Drivers.file_close
    Drivers.restore_usart2 flm_elf_parse read16 read32
not_attached = refl

flm_loads :
    (load_flm card wired dead 20 flm unloaded).0
    ≡ ok (parsed_image, drop 52 flm_file, drop 56 flm_file)
unfolding load_flm Drivers.file_size Drivers.file_open Drivers.file_read Drivers.file_close
    flm_elf_parse read16 read32
flm_loads = refl

swd_entered : (enter_swd card wired dead (load_flm card wired dead 20 flm unloaded).1).0 ≡ ok tt
unfolding enter_swd
swd_entered = refl

update-Restored_example :
    AtEnd
      (λ (b : Board (Session Core)). Restored b.trace)
      (update card wired dead 0x2000_0000 0x4000 20 ble_bin flm unloaded)
update-Restored_example =
    update-Restored card wired dead 0x2000_0000 0x4000 20 ble_bin flm unloaded
      (parsed_image, drop 52 flm_file, drop 56 flm_file) flm_loads swd_entered
