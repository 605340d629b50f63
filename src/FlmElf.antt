-- ===== src/FlmElf.antt =====
-- src/fr8016/flm_elf.c: the parser of a .FLM file, an ELF32 with a flash algorithm. A pointer into
-- the file is an offset, and a read behind the file's end is undefined behaviour. The arguments are
-- never NULL.
pub mod Named
pub mod Sound
pub mod Located
pub mod InBounds
use alonzo_bootloader_zephyr.Base.{
  ℕ, zero, suc, ◌+◌, ◌*◌, ◌/◌, bit_and, ◌>>>◌, u32, sub32, Bool, true, false, ◌||◌, ◌&&◌, not, List,
  [], ◌∷◌, length, einval, enoent, enotsup, Result, ok, err, no_return, ◌==◌, ltb, leb,
  if◌then◌else◌,
}
use alonzo_bootloader_zephyr.Base.Bytes.{◌>>=◌, codes, drop, get_byte, is_text, read16, read32}
use alonzo_bootloader_zephyr.Flm.Format.{image_magic, image_version, required_stack, Image}

abbrev pub ehdr_class : ℕ
ehdr_class = 4

abbrev pub ehdr_data : ℕ
ehdr_data = 5

abbrev pub ehdr_shoff : ℕ
ehdr_shoff = 0x20

abbrev pub ehdr_shentsize : ℕ
ehdr_shentsize = 0x2e

abbrev pub ehdr_shnum : ℕ
ehdr_shnum = 0x30

abbrev pub ehdr_shstrndx : ℕ
ehdr_shstrndx = 0x32

abbrev pub ehdr_size : ℕ
ehdr_size = 52

abbrev pub shdr_name : ℕ
shdr_name = 0x00

abbrev pub shdr_addr : ℕ
shdr_addr = 0x0c

abbrev pub shdr_offset : ℕ
shdr_offset = 0x10

abbrev pub shdr_size : ℕ
shdr_size = 0x14

abbrev pub shdr_bytes : ℕ
shdr_bytes = 40

abbrev pub sym_name : ℕ
sym_name = 0x00

abbrev pub sym_val : ℕ
sym_val = 0x04

abbrev pub sym_info : ℕ
sym_info = 0x0c

abbrev pub sym_bytes : ℕ
sym_bytes = 16

abbrev pub stb_global : ℕ
stb_global = 1

abbrev pub dev_addr_off : ℕ
dev_addr_off = 0x84

abbrev pub dev_size_off : ℕ
dev_size_off = 0x88

abbrev pub dev_page_off : ℕ
dev_page_off = 0x8c

abbrev pub dev_empty_off : ℕ
dev_empty_off = 0x94

abbrev pub dev_sector_off : ℕ
dev_sector_off = 0xa0

abbrev pub dev_sectaddr_off : ℕ
dev_sectaddr_off = 0xa4

-- `struct flm_sec`.
pub record Section : Type 0 where
  pub offset : ℕ
  pub size : ℕ
  pub addr : ℕ

-- The header's fields that locate the section headers.
pub record Header : Type 0 where
  pub shoff : ℕ
  pub shnum : ℕ
  pub shstrndx : ℕ

-- The fields that come from the sections of the code and of the data, and from the symbols.
abbrev pub filled : Image → Section → Section → ℕ → ℕ → ℕ → ℕ → ℕ → Image
filled img code section_data init uninit erase_chip erase_sector program_page = record img {
  code_size = code.size;
  data_size = section_data.size;
  code_entry_offset = sub32 init code.addr;
  uninit_entry_offset = sub32 uninit code.addr;
  erase_chip_entry_offset = sub32 erase_chip code.addr;
  erase_sector_entry_offset = sub32 erase_sector code.addr;
  program_page_entry_offset = sub32 program_page code.addr;
}

abbrev pub check : Bool → Result (Unit {0})
check true = ok tt
check false = err einval

module _ (elf : List ℕ) where
  -- Both sums wrap, as in the source.
  abbrev pub in_file : ℕ → ℕ → Bool
  in_file offset size = leb (u32 (offset + size)) (length elf)

  -- The section header at `sh`.
  section_at : ℕ → Result Section
  section_at sh = do
    offset ← read32 elf (sh + shdr_offset)
    size ← read32 elf (sh + shdr_size)
    addr ← read32 elf (sh + shdr_addr)
    _ ← check (in_file offset size)
    ok (record { offset = offset; size = size; addr = addr })

  -- The loop over the section headers, with the rounds that are left and the next header.
  pub find_section : ℕ → ℕ → ℕ → ℕ → List ℕ → Result Section
  unfolding section_at
  find_section zero sh shstr_off shstr_size want = err enoent
  find_section (suc left) sh shstr_off shstr_size want =
      let rest = find_section left (sh + shdr_bytes) shstr_off shstr_size want in
      do
        name_off ← read32 elf (sh + shdr_name)
        if leb shstr_size name_off then rest else (do
          found ← is_text want elf (shstr_off + name_off)
          if found then section_at sh else rest)

  unfoldable pub sec_get : Header → List ℕ → Result Section
  unfolding find_section
  sec_get h want = do
    _ ← check (ltb h.shstrndx h.shnum)
    let sh = h.shoff + h.shstrndx * shdr_bytes
    shstr_off ← read32 elf (sh + shdr_offset)
    shstr_size ← read32 elf (sh + shdr_size)
    _ ← check (in_file shstr_off shstr_size)
    find_section h.shnum h.shoff shstr_off shstr_size want

  -- The loop over the symbols, with the rounds that are left and the next symbol.
  find_symbol : ℕ → ℕ → Section → List ℕ → Result ℕ
  find_symbol zero sym strtab want = err enoent
  find_symbol (suc left) sym strtab want =
      let rest = find_symbol left (sym + sym_bytes) strtab want in
      do
        name_off ← read32 elf (sym + sym_name)
        info ← get_byte elf (sym + sym_info)
        if not (info >>> 4 == stb_global) || leb strtab.size name_off then rest else (do
          found ← is_text want elf (strtab.offset + name_off)
          if found then read32 elf (sym + sym_val) else rest)

  pub sym_value : Section → Section → List ℕ → Result ℕ
  unfolding find_symbol
  sym_value symtab strtab want = find_symbol (symtab.size / sym_bytes) symtab.offset strtab want

  -- One round of the loop over the five names: a routine's address has the Thumb bit set.
  pub entry_symbol : Section → Section → List ℕ → Result ℕ
  unfolding sym_value
  entry_symbol symtab strtab want = do
    value ← sym_value symtab strtab want
    _ ← check (not (bit_and value 1 == 0))
    ok value

  -- The tests on the ELF header.
  unfoldable pub read_header : Result Header
  read_header = do
    _ ← check (leb ehdr_size (length elf))
    m0 ← get_byte elf 0
    m1 ← get_byte elf 1
    m2 ← get_byte elf 2
    m3 ← get_byte elf 3
    _ ← check (m0 == 0x7f && m1 == b'E' && m2 == b'L' && m3 == b'F')
    class ← get_byte elf ehdr_class
    encoding ← get_byte elf ehdr_data
    _ ← check (class == 1 && encoding == 1)
    shoff ← read32 elf ehdr_shoff
    shentsize ← read16 elf ehdr_shentsize
    shnum ← read16 elf ehdr_shnum
    shstrndx ← read16 elf ehdr_shstrndx
    _ ← check (shentsize == shdr_bytes && not (shnum == 0) && in_file shoff (shnum * shentsize))
    ok (record { shoff = shoff; shnum = shnum; shstrndx = shstrndx })

  -- The geometry from the FlashDevice descriptor, as fields of the image.
  read_device : Section → Result Image
  read_device devdscr = do
    devadr ← read32 elf (devdscr.offset + dev_addr_off)
    szdev ← read32 elf (devdscr.offset + dev_size_off)
    szpage ← read32 elf (devdscr.offset + dev_page_off)
    valempty ← get_byte elf (devdscr.offset + dev_empty_off)
    szsector ← read32 elf (devdscr.offset + dev_sector_off)
    sectaddr ← read32 elf (devdscr.offset + dev_sectaddr_off)
    if not (sectaddr == 0)
        then err enotsup
        else ok (record {
          magic = image_magic;
          version = image_version;
          code_size = 0;
          data_size = 0;
          code_entry_offset = 0;
          uninit_entry_offset = 0;
          erase_chip_entry_offset = 0;
          erase_sector_entry_offset = 0;
          program_page_entry_offset = 0;
          required_stack_size = required_stack;
          flash_base = devadr;
          flash_size = szdev;
          sector_size = szsector;
          page_size = szpage;
          erase_value = valempty;
        })

  -- The image, with the offsets of its code and of its data in the file.
  unfoldable pub flm_elf_parse : Result (Image × ℕ × ℕ)
  unfolding read_header sec_get entry_symbol read_device
  flm_elf_parse = do
    h ← read_header
    code ← sec_get h (codes "PrgCode")
    section_data ← sec_get h (codes "PrgData")
    devdscr ← sec_get h (codes "DevDscr")
    _ ← check (leb (dev_sectaddr_off + 4) devdscr.size)
    symtab ← sec_get h (codes ".symtab")
    strtab ← sec_get h (codes ".strtab")
    init ← entry_symbol symtab strtab (codes "Init")
    uninit ← entry_symbol symtab strtab (codes "UnInit")
    erase_chip ← entry_symbol symtab strtab (codes "EraseChip")
    erase_sector ← entry_symbol symtab strtab (codes "EraseSector")
    program_page ← entry_symbol symtab strtab (codes "ProgramPage")
    img ← read_device devdscr
    _ ← check (not (code.size == 0 || section_data.size == 0))
    ok (
      filled img code section_data init uninit erase_chip erase_sector program_page,
      code.offset,
      section_data.offset,
    )
