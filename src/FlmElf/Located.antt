-- ===== src/FlmElf/Located.antt =====
-- Files whose sections can be located without a read outside the file.
use alonzo_bootloader_zephyr.Base.{
  ℕ, zero, suc, ◌+◌, ◌-◌, ◌*◌, ◌^◌, ◌≤◌, ◌<◌, ◌≡◌, refl, arith, Bool, true, false, List, length, ok,
  einval, enoent, leb, All,
}
use alonzo_bootloader_zephyr.Base.Bytes.{codes, get_byte, is_text, read32}
use alonzo_bootloader_zephyr.Base.Safely.{
  Safe, Safe-ok, Safe-err, Safe-if, Safe-bind, read32-Safe, is_text-Safe,
}
use alonzo_bootloader_zephyr.FlmElf.{
  shdr_bytes, shdr_name, shdr_offset, shdr_size, shdr_addr, Section, Header, check, in_file,
  section_at, find_section, sec_get, read_header,
}

pub check-Safe : (b : Bool) → Safe (λ _. b ≡ true) (check b)
check-Safe true = Safe-ok tt refl
check-Safe false = Safe-err einval

module _ (elf : List ℕ) where
  -- A part of the file is empty or ends with a zero byte.
  abbrev pub Terminated : ℕ → ℕ → Type 0
  Terminated offset size = 1 ≤ size → get_byte elf (offset + size - 1) ≡ ok 0

  -- The offset and the size in the section header at `sh` have a sum of 32 bits.
  abbrev pub NoWrap : ℕ → Type 0
  NoWrap sh =
      (offset size : ℕ)
      → read32 elf (sh + shdr_offset) ≡ ok offset
      → read32 elf (sh + shdr_size) ≡ ok size
      → offset + size < 2 ^ 32

  -- No sum of the parser's bounds checks wraps, and the two string tables are terminated.
  pub record IsWellFormed : Type 0 where
    pub table : (h : Header) → read_header elf ≡ ok h → h.shoff + h.shnum * shdr_bytes < 2 ^ 32
    pub sections :
        (h : Header) (i : ℕ)
        → read_header elf ≡ ok h
        → i < h.shnum
        → NoWrap (h.shoff + i * shdr_bytes)
    pub section_names :
        (h : Header) (offset size : ℕ)
        → read_header elf ≡ ok h
        → read32 elf (h.shoff + h.shstrndx * shdr_bytes + shdr_offset) ≡ ok offset
        → read32 elf (h.shoff + h.shstrndx * shdr_bytes + shdr_size) ≡ ok size
        → Terminated offset size
    pub symbol_names :
        (h : Header) (s : Section)
        → read_header elf ≡ ok h
        → sec_get elf h (codes ".strtab") ≡ ok s
        → Terminated s.offset s.size

  abbrev pub Inside : Section → Type 0
  Inside s = s.offset + s.size ≤ length elf

  pub in_file-inside :
      (offset size : ℕ)
      → in_file elf offset size ≡ true
      → offset + size < 2 ^ 32
      → offset + size ≤ length elf
  in_file-inside offset size found small = ground arith

  -- A name in a terminated table that lies inside the file.
  pub name-Safe :
      (want : List ℕ) (offset size name_off : ℕ)
      → All (λ c. 1 ≤ c) want
      → offset + size ≤ length elf
      → Terminated offset size
      → name_off < size
      → Safe (λ _. Unit {0}) (is_text want elf (offset + name_off))
  name-Safe want offset size name_off text inside terminated below =
      is_text-Safe want elf (offset + name_off) (offset + size - 1) text (omega arith) (omega arith)
        (terminated (omega arith))

  section_at-Inside :
      (sh : ℕ) → sh + shdr_bytes ≤ length elf → NoWrap sh → Safe Inside (section_at elf sh)
  unfolding section_at
  section_at-Inside sh room small =
      Safe-bind (read32 elf (sh + shdr_offset)) _ (read32-Safe elf _ (omega arith))
        λ offset at_offset _.
          Safe-bind (read32 elf (sh + shdr_size)) _ (read32-Safe elf _ (omega arith))
            λ size at_size _.
              Safe-bind (read32 elf (sh + shdr_addr)) _ (read32-Safe elf _ (omega arith))
                λ addr _ _.
                  Safe-bind (check (in_file elf offset size)) _ (check-Safe _) λ _ _ found.
                    Safe-ok _
                      (in_file-inside offset size found (small offset size at_offset at_size))

  module _ (shstr_off shstr_size : ℕ) (inside : shstr_off + shstr_size ≤ length elf)
      (terminated : Terminated shstr_off shstr_size) (want : List ℕ)
      (text : All (λ c. 1 ≤ c) want) where
    pub find_section-Inside :
        (left sh : ℕ)
        → sh + left * shdr_bytes ≤ length elf
        → ((i : ℕ) → i < left → NoWrap (sh + i * shdr_bytes))
        → Safe Inside (find_section elf left sh shstr_off shstr_size want)
    unfolding find_section
    find_section-Inside zero sh room small = Safe-err enoent
    find_section-Inside (suc left) sh room small =
        let later : (i : ℕ) → i < left → NoWrap (sh + shdr_bytes + i * shdr_bytes) = λ i below.
          let e : sh + suc i * shdr_bytes ≡ sh + shdr_bytes + i * shdr_bytes = omega arith in
          rw e at (small (suc i) (omega arith)) in
        let first : NoWrap sh =
          let e : sh + 0 * shdr_bytes ≡ sh = omega arith in rw e at (small 0 (omega arith)) in
        let rest = find_section-Inside left (sh + shdr_bytes) (omega arith) later in
        Safe-bind (read32 elf (sh + shdr_name)) _ (read32-Safe elf _ (omega arith)) λ name_off _ _.
          Safe-if (leb shstr_size name_off) _ _ (λ _. rest)
            (λ below.
              Safe-bind (is_text want elf (shstr_off + name_off)) _
                (name-Safe want shstr_off shstr_size name_off text inside terminated (ground arith))
                λ found _ _.
                  Safe-if found _ _ (λ _. section_at-Inside sh (omega arith) first) (λ _. rest))
