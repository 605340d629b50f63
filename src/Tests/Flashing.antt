-- ===== src/Tests/Flashing.antt =====
-- A memory behind a core that is always halted, and instances of the theorems about the load and
-- the burn.
use alonzo_bootloader_zephyr.Base.{
  ℕ, ◌∷◌, ◌+◌, ◌<◌, ◌≡◌, refl, sym, ◌∙◌, ap, arith, true, List, [], ok, some, none, pure, ◌==◌, ltb,
  if◌then◌else◌,
}
use alonzo_bootloader_zephyr.Base.Bytes.{read32}
use alonzo_bootloader_zephyr.Board.{Board, Platform, ble_bin, opened}
use alonzo_bootloader_zephyr.Board.Drivers
use alonzo_bootloader_zephyr.Board.Reading.{since_open, IsOpen, Offers}
use alonzo_bootloader_zephyr.Led.{led_toggle}
use alonzo_bootloader_zephyr.Swd.Port.{SwdPort}
use alonzo_bootloader_zephyr.Dap.Port.{DebugPort}
use alonzo_bootloader_zephyr.Dap.Memory.{Done, store}
use alonzo_bootloader_zephyr.CortexM
use alonzo_bootloader_zephyr.CortexM.Register.{dhcsr, s_halt, s_regrdy}
use alonzo_bootloader_zephyr.Flm
use alonzo_bootloader_zephyr.Flm.Format.{Session}
use alonzo_bootloader_zephyr.Flm.Memory.{IsMemory}
use alonzo_bootloader_zephyr.Flm.Placing.{LeavesMemory, Placed}
use alonzo_bootloader_zephyr.FirmwareUpdate.Cell.{Spells}
use alonzo_bootloader_zephyr.CoProcessor.{burn, word_of}
use alonzo_bootloader_zephyr.CoProcessor.Verified.{byte_of}
use alonzo_bootloader_zephyr.CoProcessor.Loaded.{load-Placed}
use alonzo_bootloader_zephyr.CoProcessor.ReadBack.{IsBytes}
use alonzo_bootloader_zephyr.CoProcessor.Reread.{ReadsBytes}
use alonzo_bootloader_zephyr.CoProcessor.Burned.{burn-Holds}
use alonzo_bootloader_zephyr.Tests.Elf.{parsed_image}
use alonzo_bootloader_zephyr.Tests.Fixtures.{
  platform, three, read_three, read_three-next, read_three-end,
}
use alonzo_bootloader_zephyr.Tests.Target.{three-IsBytes, layout, lays_out, two_words}

abbrev wired_ram : SwdPort (ℕ → ℕ)
wired_ram = record {
  init = pure tt;
  line_reset = pure tt;
  read_dp = λ reg. pure 0;
  write_dp = λ reg v. pure tt;
  read_ap = λ reg. pure 0;
  write_ap = λ reg v. pure tt;
  read_idcode = pure 0;
  wait = λ us m. m;
}

-- The memory of a core that is always halted and whose registers hold 0.
abbrev ram : DebugPort (ℕ → ℕ)
ram = record {
  init = pure tt;
  clear_errors = pure tt;
  mem_read32 = λ addr m. (
    ok (if ltb addr 0xe000_0000 then m addr else if addr == dhcsr then s_halt + s_regrdy else 0),
    m,
  );
  mem_write32 = λ addr v m. (ok tt, if ltb addr 0xe000_0000 then store m addr v else m);
  selftest = pure tt;
  wait = λ us m. m;
}

below :
    {X : Type 0} (addr : ℕ) (x y : X)
    → addr < 0xe000_0000
    → (if ltb addr 0xe000_0000 then x else y) ≡ x
below addr x y h = ground arith

ram-IsMemory : IsMemory ram (λ m. m) 0xe000_0000
ram-IsMemory = record {
  reads = λ m addr h. record {
    at = λ s e. (below addr (s addr) _ h ∙ ap (λ (f : ℕ → ℕ). f addr) e, e);
  };
  writes = λ m addr value h. record {
    at = λ s e. below addr (store s addr value) s h ∙ ap (λ f. store f addr value) e;
  };
}

ram-LeavesMemory : LeavesMemory ram (λ m. m)
ram-LeavesMemory = record {
  init = λ m. record { at = λ s e. e };
  halts = λ m. record { at = λ s e. e };
  polls = λ m. record { at = λ s e. e };
  waits = λ us s. refl;
}

-- The bytes 1, 2 and 3 stand at the start of the flash.
abbrev flashed : ℕ → ℕ
flashed addr = if addr == 0x0100_0000 then 0xff03_0201 else 0

loads :
    (Flm.load ram parsed_image two_words two_words layout.rt
      (record { core = flashed; loaded = none })).0
    ≡ ok tt
unfolding Flm.load Flm.copy_words Flm.align4 CortexM.halt CortexM.wait_dhcsr word_of read32
loads = refl

load-Placed_example :
    Done
      (λ (s : Session (ℕ → ℕ)). s.core ≡ flashed)
      (Flm.load ram parsed_image two_words two_words layout.rt)
      (λ _ s. Placed parsed_image two_words two_words layout.rt 0x2000_0008 flashed s.core)
unfolding Flm.align4
load-Placed_example =
    load-Placed ram (λ m. m) 0xe000_0000 ram-IsMemory ram-LeavesMemory (omega arith) 0x2000_0000
      0x4000 parsed_image two_words two_words layout flashed (omega arith) (omega arith)
      (omega arith) lays_out

-- A card whose files have the bytes 1, 2 and 3.
abbrev ble_card : Platform
ble_card = record (platform 0x0802_0100) { stat = λ _ _. ok 3 }

ble_card-Offers : Offers ble_card ble_bin three
ble_card-Offers = record {
  size = λ t n e. let same : 3 ≡ n = cc in sym same;
  next = λ t count rest bytes _ h e. read_three-next (since_open t) rest bytes h e;
  last = λ t count rest _ _ h e. read_three-end (since_open t) rest h e;
}

read_three-IsBytes : (c bytes : List ℕ) → read_three c ≡ ok bytes → IsBytes bytes
read_three-IsBytes [] bytes e = let all : three ≡ bytes = cc in rw (← all) three-IsBytes
read_three-IsBytes (a ∷ []) bytes e = absurd cc
read_three-IsBytes (a ∷ b ∷ []) bytes e = absurd cc
read_three-IsBytes (a ∷ b ∷ c ∷ d) bytes e = let empty : [] ≡ bytes = cc in rw (← empty) tt

ble_card-ReadsBytes : ReadsBytes ble_card
ble_card-ReadsBytes t count bytes e = read_three-IsBytes (since_open t) bytes e

-- The image is open, and the flash algorithm is loaded.
abbrev ready : Board (Session (ℕ → ℕ))
ready = record {
  trace = opened ble_bin true ∷ [];
  target = record {
    core = flashed;
    loaded = some (record { image = parsed_image; rt = layout.rt; bkpt = 0x2000_0008 });
  };
}

burns : (burn ble_card wired_ram ram 0x2000_0000 0x4000 4 parsed_image layout 3 ready).0 ≡ ok tt
unfolding burn Drivers.file_read Drivers.file_seek_start led_toggle word_of CortexM.halt
    CortexM.wait_dhcsr CortexM.write_reg CortexM.read_reg CortexM.write_sp CortexM.write_pc
    CortexM.resume Flm.run CortexM.is_halted CortexM.wait_halted Flm.erase_sector Flm.program_page
    Flm.copy_words Flm.align4 read32
burns = refl

burn-Holds_example :
    Done
      (λ (b : Board (Session (ℕ → ℕ))). IsOpen ble_bin b.trace)
      (burn ble_card wired_ram ram 0x2000_0000 0x4000 4 parsed_image layout 3)
      (λ _ b. Spells (byte_of b.target.core 0x0100_0000) (λ x. x) 0 three)
burn-Holds_example =
    burn-Holds ble_card wired_ram ram ble_bin three ble_card-Offers (λ m. m) 0xe000_0000
      ram-IsMemory (omega arith) ble_card-ReadsBytes 0x2000_0000 0x4000 4 parsed_image layout
      (omega arith)
