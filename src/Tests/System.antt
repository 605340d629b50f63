-- ===== src/Tests/System.antt =====
-- A card whose files all have the bytes of the .FLM file, and the whole bootloader on it.
use alonzo_bootloader_zephyr.Base.{
  ℕ, zero, suc, ◌≤◌, ◌<◌, ◌≡◌, ◌≢◌, refl, sym, ◌∙◌, ap, arith, true, List, [], ◌∷◌, ◌++◌, length,
  ok, none, Result,
}
use alonzo_bootloader_zephyr.Base.Bytes.{drop}
use alonzo_bootloader_zephyr.Board.{Board, FilePath, Platform}
use alonzo_bootloader_zephyr.Board.Reading.{since_open, Offers}
use alonzo_bootloader_zephyr.Swd.Wire.{Link}
use alonzo_bootloader_zephyr.Swd.Port.{bit_banged}
use alonzo_bootloader_zephyr.Dap.Port.{over}
use alonzo_bootloader_zephyr.Flm.Format.{Image, Session}
use alonzo_bootloader_zephyr.FlmElf.{flm_elf_parse}
use alonzo_bootloader_zephyr.FirmwareUpdate.Image.{Returns}
use alonzo_bootloader_zephyr.CoProcessor.{co_processor}
use alonzo_bootloader_zephyr.CoProcessor.Ending.{ReadsBounded}
use alonzo_bootloader_zephyr.CoProcessor.Finishing.{IsUsable}
use alonzo_bootloader_zephyr.CoProcessor.Completion.{IsAlgorithm}
use alonzo_bootloader_zephyr.Boot.{updating, main}
use alonzo_bootloader_zephyr.Boot.System.{Cooperates, system-ends}
use alonzo_bootloader_zephyr.Tests.Elf.{flm_file, parsed_image, parses}
use alonzo_bootloader_zephyr.Tests.Fixtures.{
  platform, platform-IsPaged, platform-Returns, target, ok_stream, released,
}

abbrev take {ℓ} : {A : Type ℓ} → ℕ → List A → List A
take zero xs = []
take (suc n) [] = []
take (suc n) (x ∷ xs) = x ∷ take n xs

append-take-drop {ℓ} : {A : Type ℓ} (n : ℕ) (xs : List A) → xs ≡ take n xs ++ drop n xs
append-take-drop zero xs = refl
append-take-drop (suc n) [] = refl
append-take-drop (suc n) (x ∷ xs) = ap (λ ys. x ∷ ys) (append-take-drop n xs)

length-take {ℓ} : {A : Type ℓ} (n : ℕ) (xs : List A) → length (take n xs) ≤ n
length-take zero xs = omega arith
length-take (suc n) [] = omega arith
length-take (suc n) (x ∷ xs) = omega (arith, length-take n xs)

take-empty {ℓ} : {A : Type ℓ} (n : ℕ) (xs : List A) → 1 ≤ n → take n xs ≡ [] → xs ≡ []
take-empty zero xs some e = absurd (omega arith)
take-empty (suc n) [] some e = refl
take-empty (suc n) (x ∷ xs) some e = absurd cc

drop-append {ℓ} : {A : Type ℓ} (xs ys : List A) → drop (length xs) (xs ++ ys) ≡ ys
drop-append [] ys = refl
drop-append (x ∷ xs) ys = drop-append xs ys

-- A read gives the next bytes of the file.
abbrev served : List ℕ → List ℕ → ℕ → List ℕ
served file done count = take count (drop (length done) file)

served-take :
    (file done rest bytes : List ℕ) (count : ℕ)
    → done ++ rest ≡ file
    → ok (served file done count) ≡ ok bytes
    → take count rest ≡ bytes
served-take file done rest bytes count whole e =
    let same : served file done count ≡ bytes = cc in
    ap (take count) (sym (drop-append done rest) ∙ ap (drop (length done)) whole) ∙ same

abbrev full_card : Platform
full_card = record (platform 0x0802_0100) {
  stat = λ _ _. ok (length flm_file);
  read = λ t count. ok (served flm_file (since_open t) count);
}

full_card-Offers : (path : FilePath) → Offers full_card path flm_file
full_card-Offers path = record {
  size = λ t n e. let same : length flm_file ≡ n = cc in sym same;
  next = λ t count rest bytes _ whole e.
      let same = served-take flm_file (since_open t) rest bytes count whole e in
      (drop count rest, append-take-drop count rest ∙ ap (λ xs. xs ++ drop count rest) same);
  last = λ t count rest some _ whole e.
      take-empty count rest some (served-take flm_file (since_open t) rest [] count whole e);
}

full_card-ReadsBounded : ReadsBounded full_card
full_card-ReadsBounded t count bytes e =
    let rest = drop (length (since_open t)) flm_file in
    let same : take count rest ≡ bytes = cc in omega (arith, length-take count rest, ap length same)

full_card-Returns : Returns full_card
full_card-Returns =
    let returns = platform-Returns 0x0802_0100 in
    record {
      stats = λ path t e. cc;
      opens = returns.opens;
      reads = λ count t e. cc;
      closes = returns.closes;
      unlinks = returns.unlinks;
      pages = returns.pages;
      erases = returns.erases;
      writes = returns.writes;
    }

flm_file-IsUsable :
    (img : Image) (c d : ℕ)
    → flm_elf_parse flm_file ≡ ok (img, c, d)
    → IsUsable img (drop c flm_file) (drop d flm_file) × (img.flash_size < 0x8_0001)
flm_file-IsUsable img c d e =
    let all : ◌≡◌ {A = Result (Image × ℕ × ℕ)} (ok (parsed_image, 52, 56)) (ok (img, c, d)) =
      sym parses ∙ e in
    let image : parsed_image ≡ img = cc in
    let code_at : 52 ≡ c = cc in
    let data_at : 56 ≡ d = cc in
    rw (← image, ← code_at, ← data_at)
      ((
        record {
          code_fits = omega arith;
          data_fits = omega arith;
          page_least = omega arith;
          page_most = omega arith;
          sector_least = omega arith;
        },
        omega arith,
      ))

flm_file-IsAlgorithm : IsAlgorithm 0x8_0001 flm_file
flm_file-IsAlgorithm = record {
  ends = λ e. let clash = sym parses ∙ e in cc;
  usable = flm_file-IsUsable;
}

full_card-Cooperates :
    Cooperates full_card (target ok_stream) flm_file flm_file 0x8_0001 0x70000 0x20000
full_card-Cooperates =
    let paged = platform-IsPaged 0x0802_0100 in
    record {
      mounts = λ t e. cc;
      returns = full_card-Returns;
      seeks = λ t e. cc;
      restores = λ t e. cc;
      configures = λ t pin mode e. cc;
      bounded = full_card-ReadsBounded;
      paged = record { contains = paged.contains; aligned = paged.aligned };
      firmware_there = full_card-Offers _;
      algorithm_there = full_card-Offers _;
      usable = flm_file-IsAlgorithm;
      update_enough = omega arith;
      enough = omega arith;
    }

abbrev started : Board (Session Link)
started = record { trace = []; target = record { core = released; loaded = none } }

system-ends_example :
    (main full_card
      (co_processor full_card
        (bit_banged (target ok_stream))
        (over (bit_banged (target ok_stream)))
        0x2000_0000
        0x4000
        0x8_0001)
      true
      0x70000
      0x20000
      started).0
    ≢ updating
system-ends_example =
    system-ends full_card (target ok_stream) flm_file flm_file 0x2000_0000 0x4000 0x8_0001 0x70000
      0x20000 true full_card-Cooperates started
