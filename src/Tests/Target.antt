-- ===== src/Tests/Target.antt =====
-- Cards with an update of the co-processor, and a core that answers.
use alonzo_bootloader_zephyr.Base.{
  ℕ, ◌+◌, ◌≡◌, arith, [], length, none, ok, err, enoent, pure, ◌==◌, ◌&&◌, if◌then◌else◌,
  Bool-cases, inl, inr, no_return, ◌≢◌, ◌≤◌, List, ◌∷◌, refl,
}
use alonzo_bootloader_zephyr.Board.{Board, Platform, firmware_bin, ble_bin, flm}
use alonzo_bootloader_zephyr.Swd.Port.{SwdPort}
use alonzo_bootloader_zephyr.Dap.Port.{DebugPort}
use alonzo_bootloader_zephyr.CortexM.Register.{dhcsr, aircr, dbgkey, c_debugen, s_halt, s_regrdy}
use alonzo_bootloader_zephyr.Flm.Format.{Session}
use alonzo_bootloader_zephyr.CoProcessor.ReadBack.{IsBytes}
use alonzo_bootloader_zephyr.Tests.Fixtures.{platform, three, platform-Returns}
use alonzo_bootloader_zephyr.CortexM.Returning.{Answers}
use alonzo_bootloader_zephyr.FirmwareUpdate.Image.{Returns}
use alonzo_bootloader_zephyr.CoProcessor.Reread.{ReadsBytes}
use alonzo_bootloader_zephyr.CoProcessor.Ending.{ReadsBounded}
use alonzo_bootloader_zephyr.Tests.Elf.{flm_file, parsed_image}
use alonzo_bootloader_zephyr.CoProcessor.{Work, work_layout}
use alonzo_bootloader_zephyr.Flm.{align4}

-- A card with a .FLM file and a ble.bin of three bytes, whose reads give as many bytes as asked.
abbrev pub card : Platform
card = record (platform 0x0802_0100) {
  stat = λ _ path. elim path [
    | firmware_bin ↦ err enoent
    | ble_bin ↦ ok 3
    | flm ↦ ok (length flm_file)
  ];
  read = λ _ count. if count == 3 then ok three else ok flm_file;
}

-- What the core does: it is under the debugger, has been reset, or runs the new firmware.
pub data Core : Type 0 where
  debugged : Core
  reset : Core
  free : Core

-- A routine that is resumed halts at once; after a reset the core runs when it is resumed.
abbrev pub resumed : Core → Core
resumed debugged = debugged
resumed reset = free
resumed free = free

abbrev pub status : Core → ℕ
status free = s_regrdy
status _ = s_halt + s_regrdy

abbrev pub wired : SwdPort Core
wired = record {
  init = pure tt;
  line_reset = pure tt;
  read_dp = λ reg. pure 0;
  write_dp = λ reg v. pure tt;
  read_ap = λ reg. pure 0;
  write_ap = λ reg v. pure tt;
  read_idcode = pure 0;
  wait = λ us s. s;
}

-- The bytes 1, 2 and 3 stand at the start of the flash, and the registers hold 0.
abbrev pub core : DebugPort Core
core = record {
  init = pure tt;
  clear_errors = pure tt;
  mem_read32 = λ addr s.
      (ok (if addr == dhcsr then status s else if addr == 0x0100_0000 then 0xff03_0201 else 0), s);
  mem_write32 = λ addr v s. (
    ok tt,
    if addr == aircr
        then reset
        else if addr == dhcsr && v == dbgkey + c_debugen
        then resumed s
        else s,
  );
  selftest = pure tt;
  wait = λ us s. s;
}

abbrev pub unloaded : Board (Session Core)
unloaded = record { trace = []; target = record { core = debugged; loaded = none } }

pub three-IsBytes : IsBytes three
three-IsBytes = (omega arith, (omega arith, (omega arith, tt)))

-- A card whose files have three bytes.
abbrev pub small_card : Platform
small_card = record (platform 0x0802_0100) {
  stat = λ _ _. ok 3;
  read = λ _ count. if count == 3 then ok three else ok [];
}

pub small_card-ReadsBytes : ReadsBytes small_card
small_card-ReadsBytes t count bytes e = elim (Bool-cases (count == 3)) [
  | inl f ↦ let e' = rw f at e in let same : three ≡ bytes = cc in rw (← same) three-IsBytes
  | inr f ↦ let e' = rw f at e in let same : [] ≡ bytes = cc in rw (← same) tt
]

pub small_card-ReadsBounded : ReadsBounded small_card
small_card-ReadsBounded t count bytes e = elim (Bool-cases (count == 3)) [
  | inl f ↦
      let e' = rw f at e in
      let same : three ≡ bytes = cc in
      let three_asked : 3 ≤ count = ground arith in rw (← same) three_asked
  | inr f ↦ let e' = rw f at e in let same : [] ≡ bytes = cc in rw (← same) (omega arith)
]

small_card_reads : (count : ℕ) → (if count == 3 then ok three else ok []) ≢ no_return
small_card_reads count = ground arith

pub small_card-Returns : Returns small_card
small_card-Returns =
    let returns = platform-Returns 0x0802_0100 in
    record {
      stats = λ path t e. cc;
      opens = returns.opens;
      reads = λ count t. small_card_reads count;
      closes = returns.closes;
      unlinks = returns.unlinks;
      pages = returns.pages;
      erases = returns.erases;
      writes = returns.writes;
    }

pub core-Answers : Answers core
core-Answers = record {
  init = record { at = λ s u. tt };
  reads = λ addr. record { at = λ s u. tt };
  writes = λ addr value. record { at = λ s u. tt };
}

-- The layout for the image of the tests.
abbrev pub layout : Work
layout = record {
  rt = record { code_base = 0x2000_0000; data_base = 0x2000_0004; stack_top = 0x2000_4000 };
  page_buf = 0x2000_000c;
}

pub lays_out : work_layout 0x2000_0000 0x4000 parsed_image ≡ ok layout
unfolding work_layout align4
lays_out = refl

-- Eight bytes, to be copied as two words.
abbrev pub two_words : List ℕ
two_words = 1 ∷ 2 ∷ 3 ∷ 4 ∷ 5 ∷ 6 ∷ 7 ∷ 8 ∷ []
