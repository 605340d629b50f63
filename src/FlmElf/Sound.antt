-- ===== src/FlmElf/Sound.antt =====
-- What a .FLM file that the parser accepts gives.
use alonzo_bootloader_zephyr.Base.{
  ℕ, ◌+◌, ◌≤◌, ◌≡◌, refl, arith, leb→le, u32, sub32, true, ◌||◌, not, List, length, ok, ◌==◌, leb,
}
use alonzo_bootloader_zephyr.Base.Bytes.{codes, get_byte, read32}
use alonzo_bootloader_zephyr.Base.Yields.{Yields, Yields-ok, Yields-any, Yields-if, Yields-bind}
use alonzo_bootloader_zephyr.Flm.{is_image}
use alonzo_bootloader_zephyr.Flm.Format.{image_magic, image_version, required_stack, Image}
use alonzo_bootloader_zephyr.FlmElf.{
  dev_addr_off, dev_size_off, dev_page_off, dev_empty_off, dev_sector_off, dev_sectaddr_off,
  Section, Header, filled, check, sec_get, read_header, read_device, flm_elf_parse,
}
use alonzo_bootloader_zephyr.FlmElf.Named.{
  check-Yields, Yields-same, IsSection, sec_get-IsSection, IsRoutine, entry_symbol-IsRoutine,
}

module _ (elf : List ℕ) where
  -- The geometry of the descriptor at `at`, for sectors that begin at 0.
  pub record IsGeometry (at : ℕ) (img : Image) : Type 0 where
    pub flash_base : read32 elf (at + dev_addr_off) ≡ ok img.flash_base
    pub flash_size : read32 elf (at + dev_size_off) ≡ ok img.flash_size
    pub page_size : read32 elf (at + dev_page_off) ≡ ok img.page_size
    pub erase_value : get_byte elf (at + dev_empty_off) ≡ ok img.erase_value
    pub sector_size : read32 elf (at + dev_sector_off) ≡ ok img.sector_size
    pub sector_start : read32 elf (at + dev_sectaddr_off) ≡ ok 0

  pub record IsDescribed (at : ℕ) (img : Image) : Type 0 where
    pub magic : img.magic ≡ image_magic
    pub version : img.version ≡ image_version
    pub stack : img.required_stack_size ≡ required_stack
    pub geometry : IsGeometry at img

  read_device-IsDescribed :
      (device : Section) → Yields (IsDescribed device.offset) (read_device elf device)
  unfolding read_device
  read_device-IsDescribed device =
      let Q = IsDescribed device.offset in
      Yields-bind (read32 elf (device.offset + dev_addr_off)) _ (Yields-same _) λ devadr e0.
        Yields-bind (read32 elf (device.offset + dev_size_off)) _ (Yields-same _) λ szdev e1.
          Yields-bind (read32 elf (device.offset + dev_page_off)) _ (Yields-same _) λ szpage e2.
            Yields-bind (get_byte elf (device.offset + dev_empty_off)) _ (Yields-same _)
              λ valempty e3.
                Yields-bind (read32 elf (device.offset + dev_sector_off)) _ (Yields-same _)
                  λ szsector e4.
                    Yields-bind (read32 elf (device.offset + dev_sectaddr_off)) _ (Yields-same _)
                      λ sectaddr e5.
                        Yields-if Q (not (sectaddr == 0)) _ _
                          (λ _. record { at = λ a e. absurd (cc) })
                          (λ zero_start.
                            let start : sectaddr ≡ 0 = ground arith in
                            Yields-ok Q _ (record {
                              magic = refl;
                              version = refl;
                              stack = refl;
                              geometry = record {
                                flash_base = e0;
                                flash_size = e1;
                                page_size = e2;
                                erase_value = e3;
                                sector_size = e4;
                                sector_start = rw start at e5;
                              };
                            }))

  -- An entry: where the routine of that name stands from the start of the code.
  abbrev pub IsEntry : Section → Section → Section → List ℕ → ℕ → Type 0
  IsEntry code symtab strtab name offset =
      (v : ℕ) × IsRoutine elf symtab strtab name v × (offset ≡ sub32 v code.addr)

  pub record HasEntries (code symtab strtab : Section) (img : Image) : Type 0 where
    pub init : IsEntry code symtab strtab (codes "Init") img.code_entry_offset
    pub uninit : IsEntry code symtab strtab (codes "UnInit") img.uninit_entry_offset
    pub erase_chip : IsEntry code symtab strtab (codes "EraseChip") img.erase_chip_entry_offset
    pub erase_sector :
        IsEntry code symtab strtab (codes "EraseSector") img.erase_sector_entry_offset
    pub program_page :
        IsEntry code symtab strtab (codes "ProgramPage") img.program_page_entry_offset

  -- The image that the loader takes for one, as the file describes it by the names of its sections
  -- and symbols; its code and its data lie in the file as far as the wrapping sums tell.
  pub record IsSound (img : Image) (code_at data_at : ℕ) : Type 0 where
    pub header : Header
    pub code : Section
    pub section_data : Section
    pub device : Section
    pub symtab : Section
    pub strtab : Section
    pub at_header : read_header elf ≡ ok header
    pub is_code : IsSection elf header (codes "PrgCode") code
    pub is_data : IsSection elf header (codes "PrgData") section_data
    pub is_device : IsSection elf header (codes "DevDscr") device
    pub is_symtab : IsSection elf header (codes ".symtab") symtab
    pub is_strtab : IsSection elf header (codes ".strtab") strtab
    pub code_offset : code_at ≡ code.offset
    pub code_size : img.code_size ≡ code.size
    pub data_offset : data_at ≡ section_data.offset
    pub data_size : img.data_size ≡ section_data.size
    pub code_in : u32 (code_at + img.code_size) ≤ length elf
    pub data_in : u32 (data_at + img.data_size) ≤ length elf
    pub entries : HasEntries code symtab strtab img
    pub geometry : IsGeometry device.offset img
    pub stack : img.required_stack_size ≡ required_stack
    pub image : is_image img ≡ true

-- If a file is parsed, its image is the one that the sections and the symbols with the names of the
-- interface describe: the code and the data are PrgCode and PrgData; each of the five entries is the
-- value of the global symbol with the routine's name, which is odd, less the address of PrgCode; the
-- geometry is that of DevDscr, with sectors that begin at 0. The loader takes it for an image, and
-- the code and the data end in the file as far as the wrapping sums tell.
pub flm_elf_parse-IsSound :
    (elf : List ℕ)
    → Yields (λ (img, code, section_data). IsSound elf img code section_data) (flm_elf_parse elf)
unfolding flm_elf_parse
flm_elf_parse-IsSound elf = Yields-bind (read_header elf) _ (Yields-same _) λ h at_header.
    let named = sec_get-IsSection elf h in
    Yields-bind (sec_get elf h (codes "PrgCode")) _ (named _) λ code is_code.
      Yields-bind (sec_get elf h (codes "PrgData")) _ (named _) λ part is_data.
        Yields-bind (sec_get elf h (codes "DevDscr")) _ (named _) λ device is_device.
          Yields-bind (check (leb (dev_sectaddr_off + 4) device.size)) _ (Yields-any _) λ _ _.
            Yields-bind (sec_get elf h (codes ".symtab")) _ (named _) λ symtab is_symtab.
              Yields-bind (sec_get elf h (codes ".strtab")) _ (named _) λ strtab is_strtab.
                let entry = entry_symbol-IsRoutine elf symtab strtab in
                Yields-bind _ _ (entry (codes "Init")) λ init e0.
                  Yields-bind _ _ (entry (codes "UnInit")) λ uninit e1.
                    Yields-bind _ _ (entry (codes "EraseChip")) λ erase_chip e2.
                      Yields-bind _ _ (entry (codes "EraseSector")) λ erase_sector e3.
                        Yields-bind _ _ (entry (codes "ProgramPage")) λ program_page e4.
                          Yields-bind (read_device elf device) _
                            (read_device-IsDescribed elf device)
                            λ img described.
                              Yields-bind (check (not (code.size == 0 || part.size == 0))) _
                                (check-Yields _)
                                λ _ nonempty.
                                  Yields-ok (λ (i, c, d). IsSound elf i c d)
                                    (
                                      filled img code part init uninit erase_chip erase_sector
                                          program_page,
                                      code.offset,
                                      part.offset,
                                    )
                                    (record {
                                      header = h;
                                      code = code;
                                      section_data = part;
                                      device = device;
                                      symtab = symtab;
                                      strtab = strtab;
                                      at_header = at_header;
                                      is_code = is_code;
                                      is_data = is_data;
                                      is_device = is_device;
                                      is_symtab = is_symtab;
                                      is_strtab = is_strtab;
                                      code_offset = refl;
                                      code_size = refl;
                                      data_offset = refl;
                                      data_size = refl;
                                      code_in = leb→le _ _ is_code.is_section.inside;
                                      data_in = leb→le _ _ is_data.is_section.inside;
                                      entries = record {
                                        init = (init, e0, refl);
                                        uninit = (uninit, e1, refl);
                                        erase_chip = (erase_chip, e2, refl);
                                        erase_sector = (erase_sector, e3, refl);
                                        program_page = (program_page, e4, refl);
                                      };
                                      geometry = record {
                                        flash_base = described.geometry.flash_base;
                                        flash_size = described.geometry.flash_size;
                                        page_size = described.geometry.page_size;
                                        erase_value = described.geometry.erase_value;
                                        sector_size = described.geometry.sector_size;
                                        sector_start = described.geometry.sector_start;
                                      };
                                      stack = described.stack;
                                      image =
                                          ground
                                            (arith, described.magic, described.version, nonempty);
                                    })
