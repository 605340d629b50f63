-- ===== src/FlmElf/InBounds.antt =====
-- The parser reads nothing outside a well-formed file.
use alonzo_bootloader_zephyr.Base.{
  ℕ, zero, suc, ◌+◌, ◌*◌, ◌/◌, ◌≤◌, ◌<◌, ◌≡◌, ◌≢◌, refl, arith, Bool, true, false, ◌||◌, ◌&&◌, not,
  List, length, Result, ok, no_return, enoent, enotsup, ◌==◌, leb, ltb, All, ◌>>>◌,
}
use alonzo_bootloader_zephyr.Base.Bytes.{◌>>=◌, codes, get_byte, is_text, read16, read32}
use alonzo_bootloader_zephyr.Base.Safely.{
  Safe, Safe-ok, Safe-err, Safe-if, Safe-bind, Safe-returns, get_byte-Safe, read16-Safe,
  read32-Safe,
}
use alonzo_bootloader_zephyr.Flm.Format.{Image}
use alonzo_bootloader_zephyr.FlmElf.{
  ehdr_class, ehdr_data, ehdr_shoff, ehdr_shentsize, ehdr_shnum, ehdr_shstrndx, ehdr_size,
  shdr_bytes, shdr_offset, shdr_size, sym_bytes, sym_name, sym_val, sym_info, stb_global,
  dev_addr_off, dev_size_off, dev_page_off, dev_empty_off, dev_sector_off, dev_sectaddr_off,
  Section, Header, check, in_file, sec_get, find_symbol, sym_value, entry_symbol, read_header,
  read_device, flm_elf_parse,
}
use alonzo_bootloader_zephyr.FlmElf.Located.{
  check-Safe, Terminated, IsWellFormed, Inside, in_file-inside, name-Safe, find_section-Inside,
}

module _ (elf : List ℕ) (well_formed : IsWellFormed elf) where
  -- Every section header lies inside the file.
  abbrev TableInside : Header → Type 0
  TableInside h = h.shoff + h.shnum * shdr_bytes ≤ length elf

  sec_get-Inside :
      (h : Header) (want : List ℕ)
      → read_header elf ≡ ok h
      → TableInside h
      → All (λ c. 1 ≤ c) want
      → Safe (Inside elf) (sec_get elf h want)
  unfolding sec_get
  sec_get-Inside h want e inside text =
      let sh : ℕ = h.shoff + h.shstrndx * shdr_bytes in
      Safe-bind (check (ltb h.shstrndx h.shnum)) _ (check-Safe _) λ _ _ below.
        let index : h.shstrndx < h.shnum = ground arith in
        let room : sh + shdr_bytes ≤ length elf = omega arith in
        Safe-bind (read32 elf (sh + shdr_offset)) _ (read32-Safe elf _ (omega arith))
          λ offset at_offset _.
            Safe-bind (read32 elf (sh + shdr_size)) _ (read32-Safe elf _ (omega arith))
              λ size at_size _.
                Safe-bind (check (in_file elf offset size)) _ (check-Safe _) λ _ _ found.
                  find_section-Inside elf offset size
                    (in_file-inside elf offset size found
                      (well_formed.sections h h.shstrndx e index offset size at_offset at_size))
                    (well_formed.section_names h offset size e at_offset at_size) want text h.shnum
                    h.shoff inside (λ i less. well_formed.sections h i e less)

  find_symbol-Safe :
      (strtab : Section) (want : List ℕ)
      → Inside elf strtab
      → Terminated elf strtab.offset strtab.size
      → All (λ c. 1 ≤ c) want
      → (left sym : ℕ) → sym + left * sym_bytes ≤ length elf
      → Safe (λ _. Unit {0}) (find_symbol elf left sym strtab want)
  unfolding find_symbol
  find_symbol-Safe strtab want inside terminated text zero sym room = Safe-err enoent
  find_symbol-Safe strtab want inside terminated text (suc left) sym room =
      let rest =
        find_symbol-Safe strtab want inside terminated text left (sym + sym_bytes) (omega arith) in
      Safe-bind (read32 elf (sym + sym_name)) _ (read32-Safe elf _ (omega arith)) λ name_off _ _.
        Safe-bind (get_byte elf (sym + sym_info)) _ (get_byte-Safe elf _ (omega arith)) λ info _ _.
          Safe-if (not (info >>> 4 == stb_global) || leb strtab.size name_off) _ _ (λ _. rest)
            (λ guard.
              Safe-bind (is_text want elf (strtab.offset + name_off)) _
                (name-Safe elf want strtab.offset strtab.size name_off text inside terminated
                  (ground arith))
                λ found _ _.
                  Safe-if found _ _ (λ _. read32-Safe elf (sym + sym_val) (omega arith))
                    (λ _. rest))

  entry_symbol-Safe :
      (symtab strtab : Section) (want : List ℕ)
      → Inside elf symtab
      → Inside elf strtab
      → Terminated elf strtab.offset strtab.size
      → All (λ c. 1 ≤ c) want
      → Safe (λ _. Unit {0}) (entry_symbol elf symtab strtab want)
  unfolding entry_symbol sym_value
  entry_symbol-Safe symtab strtab want symbols inside terminated text =
      Safe-bind (sym_value elf symtab strtab want) _
        (find_symbol-Safe strtab want inside terminated text (symtab.size / sym_bytes) symtab.offset
          (omega arith))
        λ value _ _. Safe-bind (check _) _ (check-Safe _) λ _ _ _. Safe-ok value tt

  both_true : (a b c : Bool) → (a && b && c) ≡ true → (a ≡ true) × (c ≡ true)
  both_true true true true e = (refl, refl)
  both_true true true false e = absurd cc
  both_true true false c e = absurd cc
  both_true false b c e = absurd cc

  table_checked :
      (shoff shentsize shnum : ℕ)
      → (shentsize == shdr_bytes && not (shnum == 0) && in_file elf shoff (shnum * shentsize))
        ≡ true
      → in_file elf shoff (shnum * shdr_bytes) ≡ true
  table_checked shoff shentsize shnum all =
      let (entry, fits) =
        both_true (shentsize == shdr_bytes) (not (shnum == 0))
          (in_file elf shoff (shnum * shentsize)) all in
      let e : shentsize ≡ shdr_bytes = ground arith in rw e at fits

  -- The table of section headers, as far as its check tells.
  read_header-checked :
      Safe (λ h. in_file elf h.shoff (h.shnum * shdr_bytes) ≡ true) (read_header elf)
  unfolding read_header
  read_header-checked = Safe-bind (check (leb ehdr_size (length elf))) _ (check-Safe _) λ _ _ long.
      let room : ehdr_size ≤ length elf = ground arith in
      Safe-bind (get_byte elf 0) _ (get_byte-Safe elf 0 (omega arith)) λ m0 _ _.
        Safe-bind (get_byte elf 1) _ (get_byte-Safe elf 1 (omega arith)) λ m1 _ _.
          Safe-bind (get_byte elf 2) _ (get_byte-Safe elf 2 (omega arith)) λ m2 _ _.
            Safe-bind (get_byte elf 3) _ (get_byte-Safe elf 3 (omega arith)) λ m3 _ _.
              Safe-bind (check (m0 == 0x7f && m1 == b'E' && m2 == b'L' && m3 == b'F')) _
                (check-Safe _)
                λ _ _ _.
                  Safe-bind (get_byte elf ehdr_class) _ (get_byte-Safe elf _ (omega arith))
                    λ class _ _.
                      Safe-bind (get_byte elf ehdr_data) _ (get_byte-Safe elf _ (omega arith))
                        λ encoding _ _.
                          Safe-bind (check (class == 1 && encoding == 1)) _ (check-Safe _) λ _ _ _.
                            Safe-bind (read32 elf ehdr_shoff) _ (read32-Safe elf _ (omega arith))
                              λ shoff _ _.
                                Safe-bind (read16 elf ehdr_shentsize) _
                                  (read16-Safe elf _ (omega arith))
                                  λ shentsize _ _.
                                    Safe-bind (read16 elf ehdr_shnum) _
                                      (read16-Safe elf _ (omega arith))
                                      λ shnum _ _.
                                        Safe-bind (read16 elf ehdr_shstrndx) _
                                          (read16-Safe elf _ (omega arith))
                                          λ shstrndx _ _.
                                            Safe-bind
                                              (check (
                                                shentsize == shdr_bytes
                                                && not (shnum == 0)
                                                && in_file elf shoff (shnum * shentsize)))
                                              _ (check-Safe _)
                                              λ _ _ all.
                                                Safe-ok _ (table_checked shoff shentsize shnum all)

  read_device-Safe :
      (s : Section)
      → Inside elf s
      → dev_sectaddr_off + 4 ≤ s.size
      → Safe (λ _. Unit {0}) (read_device elf s)
  unfolding read_device
  read_device-Safe s inside room =
      Safe-bind (read32 elf (s.offset + dev_addr_off)) _ (read32-Safe elf _ (omega arith)) λ _ _ _.
        Safe-bind (read32 elf (s.offset + dev_size_off)) _ (read32-Safe elf _ (omega arith))
          λ _ _ _.
            Safe-bind (read32 elf (s.offset + dev_page_off)) _ (read32-Safe elf _ (omega arith))
              λ _ _ _.
                Safe-bind (get_byte elf (s.offset + dev_empty_off)) _
                  (get_byte-Safe elf _ (omega arith))
                  λ _ _ _.
                    Safe-bind (read32 elf (s.offset + dev_sector_off)) _
                      (read32-Safe elf _ (omega arith))
                      λ _ _ _.
                        Safe-bind (read32 elf (s.offset + dev_sectaddr_off)) _
                          (read32-Safe elf _ (omega arith))
                          λ sectaddr _ _.
                            Safe-if (not (sectaddr == 0)) _ _ (λ _. Safe-err enotsup)
                              (λ _. Safe-ok _ tt)

  -- The five routines of the flash algorithm.
  symbols-Safe :
      (symtab strtab : Section)
      → Inside elf symtab
      → Inside elf strtab
      → Terminated elf strtab.offset strtab.size
      → (rest : ℕ → ℕ → ℕ → ℕ → ℕ → Result (Image × ℕ × ℕ))
      → ((a b c d e : ℕ) → Safe (λ _. Unit {0}) (rest a b c d e))
      → Safe
          (λ _. Unit {0})
          (do
            init ← entry_symbol elf symtab strtab (codes "Init")
            uninit ← entry_symbol elf symtab strtab (codes "UnInit")
            erase_chip ← entry_symbol elf symtab strtab (codes "EraseChip")
            erase_sector ← entry_symbol elf symtab strtab (codes "EraseSector")
            program_page ← entry_symbol elf symtab strtab (codes "ProgramPage")
            rest init uninit erase_chip erase_sector program_page)
  symbols-Safe symtab strtab symbols inside terminated rest h =
      let entry = λ (want : List ℕ) (text : All (λ c. 1 ≤ c) want).
        entry_symbol-Safe symtab strtab want symbols inside terminated text in
      Safe-bind _ _ (entry (codes "Init") (ground arith)) λ a _ _.
        Safe-bind _ _ (entry (codes "UnInit") (ground arith)) λ b _ _.
          Safe-bind _ _ (entry (codes "EraseChip") (ground arith)) λ c _ _.
            Safe-bind _ _ (entry (codes "EraseSector") (ground arith)) λ d _ _.
              Safe-bind _ _ (entry (codes "ProgramPage") (ground arith)) λ e _ _. h a b c d e

  parse-Safe : Safe (λ _. Unit {0}) (flm_elf_parse elf)
  unfolding flm_elf_parse
  parse-Safe = Safe-bind (read_header elf) _ read_header-checked λ h e found.
      let inside : TableInside h =
        in_file-inside elf h.shoff (h.shnum * shdr_bytes) found (well_formed.table h e) in
      let section =
        λ (want : List ℕ) (text : All (λ c. 1 ≤ c) want). sec_get-Inside h want e inside text in
      Safe-bind _ _ (section (codes "PrgCode") (ground arith)) λ code _ _.
        Safe-bind _ _ (section (codes "PrgData") (ground arith)) λ section_data _ _.
          Safe-bind _ _ (section (codes "DevDscr") (ground arith)) λ devdscr _ there.
            Safe-bind (check (leb (dev_sectaddr_off + 4) devdscr.size)) _ (check-Safe _) λ _ _ long.
              Safe-bind _ _ (section (codes ".symtab") (ground arith)) λ symtab _ symbols.
                Safe-bind _ _ (section (codes ".strtab") (ground arith)) λ strtab at_strtab names.
                  symbols-Safe symtab strtab symbols names
                    (well_formed.symbol_names h strtab e at_strtab) _
                    λ a b c d f.
                      Safe-bind (read_device elf devdscr) _
                        (read_device-Safe devdscr there (ground arith))
                        λ img _ _.
                          Safe-bind (check (not (code.size == 0 || section_data.size == 0))) _
                            (check-Safe _) λ _ _ _. Safe-ok _ tt

  -- The parser of a well-formed file reads nothing outside the file, and comes back.
  pub flm_elf_parse_returns : flm_elf_parse elf ≢ no_return
  flm_elf_parse_returns = Safe-returns (flm_elf_parse elf) parse-Safe
