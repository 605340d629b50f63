-- ===== src/Tests/Elf.antt =====
-- A .FLM file of six sections and five symbols, and runs of the parser on it.
use alonzo_bootloader_zephyr.Base.{ℕ, ◌/◌, ◌%◌, ◌≡◌, refl, List, [], ◌∷◌, ◌++◌, replicate, ok}
use alonzo_bootloader_zephyr.Base.Bytes.{codes, read16, read32}
use alonzo_bootloader_zephyr.Flm.Format.{Image}
use alonzo_bootloader_zephyr.Flm.{selftest}
use alonzo_bootloader_zephyr.FlmElf.{flm_elf_parse}

abbrev le16 : ℕ → List ℕ
le16 n = n % 256 ∷ (n / 256) % 256 ∷ []

abbrev le32 : ℕ → List ℕ
le32 n = le16 (n % 65536) ++ le16 (n / 65536)

abbrev text : List ℕ → List ℕ
text cs = cs ++ 0 ∷ []

-- The name, the address, the offset and the size.
abbrev section_header : ℕ → ℕ → ℕ → ℕ → List ℕ
section_header name addr offset size =
    le32 name ++ (replicate 8 0 ++ (le32 addr ++ (le32 offset ++ (le32 size ++ replicate 16 0))))

abbrev symbol : ℕ → ℕ → List ℕ
symbol name value = le32 name ++ (le32 value ++ (replicate 4 0 ++ (0x12 ∷ 0 ∷ 0 ∷ 0 ∷ [])))

abbrev elf_header : List ℕ
elf_header =
    (0x7f ∷ b'E' ∷ b'L' ∷ b'F' ∷ 1 ∷ 1 ∷ [])
    ++ (replicate 26 0 ++ (le32 396 ++ (replicate 10 0 ++ (le16 40 ++ (le16 6 ++ le16 5)))))

-- 4 KB sectors, 256-byte pages, 512 KB of flash at 0x01000000.
abbrev device : List ℕ
device =
    replicate 132 0
    ++ (le32 0x0100_0000
        ++ (le32 0x8_0000
            ++ (le32 256
                ++ (replicate 4 0 ++ (le32 0xff ++ (replicate 8 0 ++ (le32 4096 ++ le32 0)))))))

abbrev symbols : List ℕ
symbols = symbol 1 1 ++ (symbol 6 3 ++ (symbol 13 1 ++ (symbol 23 3 ++ symbol 35 1)))

abbrev symbol_names : List ℕ
symbol_names =
    0
    ∷ (text (codes "Init")
        ++ (text (codes "UnInit")
            ++ (text (codes "EraseChip")
                ++ (text (codes "EraseSector") ++ text (codes "ProgramPage")))))

abbrev section_names : List ℕ
section_names =
    0
    ∷ (text (codes "PrgCode")
        ++ (text (codes "PrgData")
            ++ (text (codes "DevDscr") ++ (text (codes ".symtab") ++ text (codes ".strtab")))))

-- The header of PrgCode is an argument.
abbrev file_with : List ℕ → List ℕ
file_with code_header =
    elf_header
    ++ ((0x70 ∷ 0x47 ∷ 0x70 ∷ 0x47 ∷ [])
        ++ (replicate 4 0
            ++ (device
                ++ (symbols
                    ++ (symbol_names
                        ++ (section_names
                            ++ (code_header
                                ++ (section_header 9 4 56 4
                                    ++ (section_header 17 8 60 168
                                        ++ (section_header 25 0 228 80
                                            ++ (section_header 33 0 308 47
                                                ++ section_header 0 0 355 41)))))))))))

abbrev pub flm_file : List ℕ
flm_file = file_with (section_header 1 0 52 4)

abbrev pub parsed_image : Image
parsed_image = record {
  magic = 0x314d4c46;
  version = 1;
  code_size = 4;
  data_size = 4;
  code_entry_offset = 1;
  uninit_entry_offset = 3;
  erase_chip_entry_offset = 1;
  erase_sector_entry_offset = 3;
  program_page_entry_offset = 1;
  required_stack_size = 512;
  flash_base = 0x0100_0000;
  flash_size = 0x8_0000;
  sector_size = 4096;
  page_size = 256;
  erase_value = 0xff;
}

pub parses : flm_elf_parse flm_file ≡ ok (parsed_image, 52, 56)
unfolding flm_elf_parse read16 read32
parses = refl

-- An offset and a size whose sum wraps pass the check, and the code lies outside the file.
wraps :
    flm_elf_parse (file_with (section_header 1 0 0xffff_fff0 32))
    ≡ ok (record parsed_image { code_size = 32 }, 0xffff_fff0, 56)
unfolding flm_elf_parse read16 read32
wraps = refl

selftest_passes : selftest parsed_image ≡ ok tt
unfolding selftest
selftest_passes = refl
