-- ===== src/Tests/Fixtures.antt =====
-- A target that acknowledges every request, and a card with a three-byte firmware.bin.
use alonzo_bootloader_zephyr.Base.{
  ◌++◌, ◌≢◌, sym, ap, length, length-append, nil_of_length, eio, no_return, List, ℕ, suc, ◌+◌, ◌*◌,
  ◌/◌, ◌≤◌, ◌<◌, ◌≡◌, refl, arith, Bool, true, false, [], ◌∷◌, ◌==◌, ltb, to_int, if◌then◌else◌, ⊤,
  einval, enoent, Result, ok, err, pure,
}
use alonzo_bootloader_zephyr.Swd.Wire.{Pin, swclk, swdio, Gpio, Link}
use alonzo_bootloader_zephyr.Swd.Wire
use alonzo_bootloader_zephyr.Swd.Sampling.{samples, Answers}
use alonzo_bootloader_zephyr.Board.{
  Board, FilePath, firmware_bin, ble_bin, flm, FlashPage, Platform,
}
use alonzo_bootloader_zephyr.Update.{Fr8016}
use alonzo_bootloader_zephyr.FirmwareUpdate.Region.{IsPaged}
use alonzo_bootloader_zephyr.Board.Reading.{since_open, Offers}
use alonzo_bootloader_zephyr.FirmwareUpdate.Image.{Returns}

-- The acknowledge OK and then zeros.
abbrev pub ok_stream : ℕ → Bool
ok_stream n = n == 0

abbrev pub target : (ℕ → Bool) → Gpio
target stream = record {
  is_ready = λ _. true;
  configures = λ _ _ _. ok tt;
  reads = λ t _. ok (to_int (stream (samples t)));
}

pub target-Answers : (stream : ℕ → Bool) → Answers (target stream) stream
target-Answers stream t = refl

abbrev pub released : Link
released = record { has_port = true; swdio_is_output = false; trace = [] }

-- The answers since SWDIO was last configured.
abbrev pub answers : Wire.Trace → ℕ
answers [] = 0
answers (Wire.configure _ _ _ ∷ t) = 0
answers (Wire.get_raw _ ∷ t) = suc (answers t)
answers (_ ∷ t) = answers t

-- A target that answers WAIT to every request.
abbrev pub busy_target : Gpio
busy_target = record {
  is_ready = λ _. true;
  configures = λ _ _ _. ok tt;
  reads = λ t _. ok (to_int (answers t == 1));
}

-- A file of the bytes 1, 2 and 3, which is read as one chunk; `c` is what has been read.
abbrev pub three : List ℕ
three = 1 ∷ 2 ∷ 3 ∷ []

abbrev pub read_three : List ℕ → Result (List ℕ)
read_three [] = ok three
read_three (a ∷ b ∷ c ∷ rest) = ok []
read_three _ = err eio

pub read_three-next :
    (c rest bytes : List ℕ)
    → c ++ rest ≡ three
    → read_three c ≡ ok bytes
    → (later : List ℕ) × (rest ≡ bytes ++ later)
read_three-next [] rest bytes h e = let all : three ≡ bytes = cc in ([], rw (sym all) h)
read_three-next (a ∷ []) rest bytes h e = absurd cc
read_three-next (a ∷ b ∷ []) rest bytes h e = absurd cc
read_three-next (a ∷ b ∷ c ∷ d) rest bytes h e =
    let empty : bytes ≡ [] = cc in (rest, rw empty refl)

pub read_three-end : (c rest : List ℕ) → c ++ rest ≡ three → read_three c ≡ ok [] → rest ≡ []
read_three-end [] rest h e = absurd cc
read_three-end (a ∷ []) rest h e = absurd cc
read_three-end (a ∷ b ∷ []) rest h e = absurd cc
read_three-end (a ∷ b ∷ c ∷ d) rest h e =
    nil_of_length rest (omega (arith, ap length h, length-append d rest))

abbrev pub stat_of : FilePath → Result ℕ
stat_of firmware_bin = ok 3
stat_of _ = err enoent

-- The sectors of the STM32F411.
unfoldable pub sector_of : ℕ → Result FlashPage
sector_of off =
    if ltb off 0x10000
    then ok (record { start_offset = off / 0x4000 * 0x4000; size = 0x4000 })
    else if ltb off 0x20000
    then ok (record { start_offset = 0x10000; size = 0x10000 })
    else if ltb off 0x80000
    then ok (record { start_offset = off / 0x20000 * 0x20000; size = 0x20000 })
    else err einval

-- Every call succeeds; the vector table has the given reset handler.
abbrev pub platform : ℕ → Platform
platform reset = record {
  led_ready = λ _. true;
  mount = λ _. ok tt;
  unmount = λ _. ok tt;
  stat = λ _ path. stat_of path;
  open_file = λ _ _. ok tt;
  read = λ t _. read_three (since_open t);
  close = λ _. ok tt;
  unlink = λ _ _. ok tt;
  seek = λ _. ok tt;
  restore_pins = λ _. ok tt;
  uptime = λ _. 0;
  flash_ready = true;
  page_info = sector_of;
  erase = λ _ _ _. ok tt;
  write = λ _ _ _. ok tt;
  word_at = λ _ addr. if addr == 0x0802_0000 then 0x2001_0000 else reset;
  interrupt_lines = 2;
}

sector_of-contains :
    (off : ℕ) (page : FlashPage)
    → sector_of off ≡ ok page
    → (page.start_offset ≤ off) × (off < page.start_offset + page.size)
unfolding sector_of
sector_of-contains off page e = ground arith

sector_of-aligned :
    (off : ℕ) (page : FlashPage)
    → sector_of off ≡ ok page
    → 0x20000 ≤ off
    → 0x20000 ≤ page.start_offset
unfolding sector_of
sector_of-aligned off page e le = ground arith

pub platform-IsPaged : (reset : ℕ) → IsPaged (platform reset) 0x20000
platform-IsPaged reset = record { contains = sector_of-contains; aligned = sector_of-aligned }

stat_of-length : (path : FilePath) (n : ℕ) → path ≡ firmware_bin → stat_of path ≡ ok n → n ≡ 3
stat_of-length firmware_bin n _ e = cc
stat_of-length ble_bin n _ e = cc
stat_of-length flm n _ e = cc

pub platform-Serves : (reset : ℕ) → Offers (platform reset) firmware_bin three
platform-Serves reset = record {
  size = λ t n e. stat_of-length firmware_bin n refl e;
  next = λ t count rest bytes _ h e. read_three-next (since_open t) rest bytes h e;
  last = λ t count rest _ _ h e. read_three-end (since_open t) rest h e;
}

stat_of_returns : (path : FilePath) → stat_of path ≢ no_return
stat_of_returns firmware_bin e = cc
stat_of_returns ble_bin e = cc
stat_of_returns flm e = cc

read_three_returns : (c : List ℕ) → read_three c ≢ no_return
read_three_returns [] e = cc
read_three_returns (a ∷ []) e = cc
read_three_returns (a ∷ b ∷ []) e = cc
read_three_returns (a ∷ b ∷ c ∷ d) e = cc

sector_of_returns : (off : ℕ) → sector_of off ≢ no_return
unfolding sector_of
sector_of_returns off = ground arith

pub platform-Returns : (reset : ℕ) → Returns (platform reset)
platform-Returns reset = record {
  stats = λ path t. stat_of_returns path;
  opens = λ path t e. cc;
  reads = λ count t. read_three_returns (since_open t);
  closes = λ t e. cc;
  unlinks = λ path t e. cc;
  pages = sector_of_returns;
  erases = λ off size t e. cc;
  writes = λ off bytes t e. cc;
}

abbrev pub powered : Board ⊤
powered = record { trace = []; target = tt }

abbrev pub no_target : Fr8016 ⊤
no_target = record { update = λ _ _. pure tt; cm_selftest = pure tt; flm_selftest = λ _. pure tt }
