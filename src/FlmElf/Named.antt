-- ===== src/FlmElf/Named.antt =====
-- What a .FLM file says, by the names of its sections and symbols, and that the loops of the parser
-- find it.
use alonzo_bootloader_zephyr.Base.{
  ℕ, zero, suc, ◌+◌, ◌*◌, ◌/◌, ◌<◌, ◌≡◌, refl, arith, bit_and, ◌>>>◌, Bool, true, false, ◌||◌, not,
  List, Result, ok, ◌==◌, leb,
}
use alonzo_bootloader_zephyr.Base.Bytes.{get_byte, is_text, read32}
use alonzo_bootloader_zephyr.Base.Yields.{Yields, Yields-ok, Yields-if, Yields-bind}
use alonzo_bootloader_zephyr.FlmElf.{
  shdr_bytes, shdr_name, shdr_offset, shdr_size, shdr_addr, sym_bytes, sym_name, sym_info, sym_val,
  stb_global, Section, Header, check, in_file, section_at, find_section, sec_get, find_symbol,
  sym_value, entry_symbol,
}

pub check-Yields : (b : Bool) → Yields (λ _. b ≡ true) (check b)
check-Yields true = record { at = λ a e. refl }
check-Yields false = record { at = λ a e. absurd (cc) }

-- A result that is what it is.
pub Yields-same : {A : Type 0} (r : Result A) → Yields (λ a. r ≡ ok a) r
Yields-same r = record { at = λ a e. e }

module _ (elf : List ℕ) where
  -- The name at an offset into a string table.
  pub record IsNamed (table size at : ℕ) (name : List ℕ) : Type 0 where
    pub name_off : ℕ
    pub at_name : read32 elf at ≡ ok name_off
    pub in_table : name_off < size
    pub spelled : is_text name elf (table + name_off) ≡ ok true

  -- The section header at `sh` has that name, and says what the section is; the section ends inside
  -- the file, as far as the wrapping sum tells.
  pub record IsSectionAt (table size sh : ℕ) (name : List ℕ) (s : Section) : Type 0 where
    pub named : IsNamed table size (sh + shdr_name) name
    pub offset : read32 elf (sh + shdr_offset) ≡ ok s.offset
    pub size_field : read32 elf (sh + shdr_size) ≡ ok s.size
    pub addr : read32 elf (sh + shdr_addr) ≡ ok s.addr
    pub inside : in_file elf s.offset s.size ≡ true

  -- A section of the file, whose names stand in the section that the header names.
  pub record IsSection (h : Header) (name : List ℕ) (s : Section) : Type 0 where
    pub index : ℕ
    pub below : index < h.shnum
    pub table : ℕ
    pub size : ℕ
    pub at_table : read32 elf (h.shoff + h.shstrndx * shdr_bytes + shdr_offset) ≡ ok table
    pub at_size : read32 elf (h.shoff + h.shstrndx * shdr_bytes + shdr_size) ≡ ok size
    pub is_section : IsSectionAt table size (h.shoff + index * shdr_bytes) name s

  -- A global symbol with that name, and its value.
  pub record IsSymbolAt (strtab : Section) (sym : ℕ) (name : List ℕ) (v : ℕ) : Type 0 where
    pub named : IsNamed strtab.offset strtab.size (sym + sym_name) name
    pub info : ℕ
    pub at_info : get_byte elf (sym + sym_info) ≡ ok info
    pub global : info >>> 4 ≡ stb_global
    pub value : read32 elf (sym + sym_val) ≡ ok v

  -- A symbol of the file.
  pub record IsSymbol (symtab strtab : Section) (name : List ℕ) (v : ℕ) : Type 0 where
    pub index : ℕ
    pub below : index < symtab.size / sym_bytes
    pub is_symbol : IsSymbolAt strtab (symtab.offset + index * sym_bytes) name v

  section_at-IsSectionAt :
      (table size sh : ℕ) (name : List ℕ)
      → IsNamed table size (sh + shdr_name) name
      → Yields (IsSectionAt table size sh name) (section_at elf sh)
  unfolding section_at
  section_at-IsSectionAt table size sh name named =
      Yields-bind (read32 elf (sh + shdr_offset)) _ (Yields-same _) λ offset e0.
        Yields-bind (read32 elf (sh + shdr_size)) _ (Yields-same _) λ length e1.
          Yields-bind (read32 elf (sh + shdr_addr)) _ (Yields-same _) λ addr e2.
            Yields-bind (check (in_file elf offset length)) _ (check-Yields _) λ _ inside.
              Yields-ok (IsSectionAt table size sh name) _
                (record { named = named; offset = e0; size_field = e1; addr = e2; inside = inside })

  abbrev AmongSections : ℕ → ℕ → ℕ → ℕ → List ℕ → Section → Type 0
  AmongSections left sh table size name s =
      (i : ℕ) × (i < left) × IsSectionAt table size (sh + i * shdr_bytes) name s

  find_section-IsSectionAt :
      (left sh table size : ℕ) (name : List ℕ)
      → Yields (AmongSections left sh table size name) (find_section elf left sh table size name)
  unfolding find_section
  find_section-IsSectionAt zero sh table size name = record { at = λ a e. absurd (cc) }
  find_section-IsSectionAt (suc left) sh table size name =
      let All = AmongSections (suc left) sh table size name in
      let rest : Yields All (find_section elf left (sh + shdr_bytes) table size name) = record {
        at = λ s e.
            let (i, below, found) =
              (find_section-IsSectionAt left (sh + shdr_bytes) table size name).at s e in
            let at : sh + shdr_bytes + i * shdr_bytes ≡ sh + suc i * shdr_bytes = omega arith in
            (suc i, omega arith, rw at at found);
      } in
      Yields-bind (read32 elf (sh + shdr_name)) _ (Yields-same _) λ name_off e.
        Yields-if All (leb size name_off) _ _ (λ _. rest)
          (λ inside.
            Yields-bind (is_text name elf (table + name_off)) _ (Yields-same _) λ found text.
              Yields-if All found _ _
                (λ yes. record {
                  at = λ s e'.
                      let at : sh ≡ sh + 0 * shdr_bytes = omega arith in
                      let named : IsNamed table size (sh + shdr_name) name = record {
                        name_off = name_off;
                        at_name = e;
                        in_table = ground arith;
                        spelled = cc;
                      } in
                      let here = (section_at-IsSectionAt table size sh name named).at s e' in
                      (0, omega arith, rw at at here);
                })
                (λ _. rest))

  pub sec_get-IsSection :
      (h : Header) (name : List ℕ) → Yields (IsSection h name) (sec_get elf h name)
  unfolding sec_get
  sec_get-IsSection h name =
      let sh : ℕ = h.shoff + h.shstrndx * shdr_bytes in
      Yields-bind (check _) _ (check-Yields _) λ _ _.
        Yields-bind (read32 elf (sh + shdr_offset)) _ (Yields-same _) λ table e0.
          Yields-bind (read32 elf (sh + shdr_size)) _ (Yields-same _) λ size e1.
            Yields-bind (check (in_file elf table size)) _ (check-Yields _) λ _ _. record {
              at = λ s e.
                  let (i, below, found) =
                    (find_section-IsSectionAt h.shnum h.shoff table size name).at s e in
                  record {
                    index = i;
                    below = below;
                    table = table;
                    size = size;
                    at_table = e0;
                    at_size = e1;
                    is_section = found;
                  };
            }

  abbrev AmongSymbols : ℕ → ℕ → Section → List ℕ → ℕ → Type 0
  AmongSymbols left sym strtab name v =
      (i : ℕ) × (i < left) × IsSymbolAt strtab (sym + i * sym_bytes) name v

  find_symbol-IsSymbolAt :
      (left sym : ℕ) (strtab : Section) (name : List ℕ)
      → Yields (AmongSymbols left sym strtab name) (find_symbol elf left sym strtab name)
  unfolding find_symbol
  find_symbol-IsSymbolAt zero sym strtab name = record { at = λ a e. absurd (cc) }
  find_symbol-IsSymbolAt (suc left) sym strtab name =
      let All = AmongSymbols (suc left) sym strtab name in
      let rest : Yields All (find_symbol elf left (sym + sym_bytes) strtab name) = record {
        at = λ v e.
            let (i, below, found) =
              (find_symbol-IsSymbolAt left (sym + sym_bytes) strtab name).at v e in
            let at : sym + sym_bytes + i * sym_bytes ≡ sym + suc i * sym_bytes = omega arith in
            (suc i, omega arith, rw at at found);
      } in
      Yields-bind (read32 elf (sym + sym_name)) _ (Yields-same _) λ name_off e.
        Yields-bind (get_byte elf (sym + sym_info)) _ (Yields-same _) λ info at_info.
          Yields-if All (not (info >>> 4 == stb_global) || leb strtab.size name_off) _ _ (λ _. rest)
            (λ inside.
              Yields-bind (is_text name elf (strtab.offset + name_off)) _ (Yields-same _)
                λ found text.
                  Yields-if All found _ _
                    (λ yes. record {
                      at = λ v e'.
                          let at : sym ≡ sym + 0 * sym_bytes = omega arith in
                          let here : IsSymbolAt strtab sym name v = record {
                            named = record {
                              name_off = name_off;
                              at_name = e;
                              in_table = ground arith;
                              spelled = cc;
                            };
                            info = info;
                            at_info = at_info;
                            global = ground arith;
                            value = e';
                          } in
                          (0, omega arith, rw at at here);
                    })
                    (λ _. rest))

  -- A routine's address is odd.
  abbrev pub IsRoutine : Section → Section → List ℕ → ℕ → Type 0
  IsRoutine symtab strtab name v = IsSymbol symtab strtab name v × (not (bit_and v 1 == 0) ≡ true)

  pub entry_symbol-IsRoutine :
      (symtab strtab : Section) (name : List ℕ)
      → Yields (IsRoutine symtab strtab name) (entry_symbol elf symtab strtab name)
  unfolding entry_symbol sym_value
  entry_symbol-IsRoutine symtab strtab name =
      Yields-bind {R = IsSymbol symtab strtab name} (sym_value elf symtab strtab name) _
        (record {
          at = λ v e.
              let (i, below, found) =
                (find_symbol-IsSymbolAt (symtab.size / sym_bytes) symtab.offset strtab name).at v
                  e in
              record { index = i; below = below; is_symbol = found };
        })
        λ value here.
          Yields-bind (check (not (bit_and value 1 == 0))) _ (check-Yields _)
            λ _ odd. Yields-ok (IsRoutine symtab strtab name) value (here, odd)
