-- ===== src/Tests/Parsing.antt =====
-- The .FLM file of the tests is well-formed.
use alonzo_bootloader_zephyr.Base.{
  ℕ, zero, suc, ◌+◌, ◌*◌, ◌<◌, ◌≡◌, ◌≢◌, refl, sym, ◌∙◌, arith, Result, ok, no_return,
}
use alonzo_bootloader_zephyr.Base.Bytes.{codes, read16, read32}
use alonzo_bootloader_zephyr.FlmElf.{Section, Header, read_header, sec_get, flm_elf_parse}
use alonzo_bootloader_zephyr.FlmElf.Located.{Terminated, NoWrap, IsWellFormed}
use alonzo_bootloader_zephyr.FlmElf.InBounds.{flm_elf_parse_returns}
use alonzo_bootloader_zephyr.Tests.Elf.{flm_file}

abbrev header : Header
header = record { shoff = 396; shnum = 6; shstrndx = 5 }

header_read : read_header flm_file ≡ ok header
unfolding read_header read16 read32
header_read = refl

same_header : (h : Header) → read_header flm_file ≡ ok h → header ≡ h
same_header h e = let both : ok header ≡ ok h = sym header_read ∙ e in cc

small_sums :
    (sh offset' size' : ℕ)
    → read32 flm_file (sh + 0x10) ≡ ok offset'
    → read32 flm_file (sh + 0x14) ≡ ok size'
    → offset' + size' < 1000
    → NoWrap flm_file sh
small_sums sh offset' size' e e' small offset size h h' =
    let same : offset' ≡ offset =
      let both : ◌≡◌ {A = Result ℕ} (ok offset') (ok offset) = sym e ∙ h in cc in
    let same' : size' ≡ size =
      let both : ◌≡◌ {A = Result ℕ} (ok size') (ok size) = sym e' ∙ h' in cc in
    omega arith

sections_small : (i : ℕ) → i < 6 → NoWrap flm_file (396 + i * 40)
unfolding read32
sections_small zero below = small_sums 396 52 4 refl refl (omega arith)
sections_small (suc zero) below = small_sums 436 56 4 refl refl (omega arith)
sections_small (suc (suc zero)) below = small_sums 476 60 168 refl refl (omega arith)
sections_small (suc (suc (suc zero))) below = small_sums 516 228 80 refl refl (omega arith)
sections_small (suc (suc (suc (suc zero)))) below = small_sums 556 308 47 refl refl (omega arith)
sections_small (suc (suc (suc (suc (suc zero))))) below =
    small_sums 596 355 41 refl refl (omega arith)
sections_small (suc (suc (suc (suc (suc (suc i)))))) below = absurd (omega arith)

names_end :
    (offset size : ℕ)
    → read32 flm_file (596 + 0x10) ≡ ok offset
    → read32 flm_file (596 + 0x14) ≡ ok size
    → Terminated flm_file offset size
unfolding read32
names_end offset size h h' =
    let same : 355 ≡ offset = let both : ◌≡◌ {A = Result ℕ} (ok 355) (ok offset) = h in cc in
    let same' : 41 ≡ size = let both : ◌≡◌ {A = Result ℕ} (ok 41) (ok size) = h' in cc in
    rw (← same, ← same') (λ _. refl)

strtab_found :
    sec_get flm_file header (codes ".strtab") ≡ ok (record { offset = 308; size = 47; addr = 0 })
unfolding sec_get read32
strtab_found = refl

symbol_names_end :
    (s : Section)
    → sec_get flm_file header (codes ".strtab") ≡ ok s
    → Terminated flm_file s.offset s.size
symbol_names_end s e =
    let same : ◌≡◌ {A = Section} (record { offset = 308; size = 47; addr = 0 }) s =
      let both : ◌≡◌ {A = Result Section} (ok (record { offset = 308; size = 47; addr = 0 }))
          (ok s) =
        sym strtab_found ∙ e in
      cc in
    rw (← same) (λ _. refl)

flm_file-IsWellFormed : IsWellFormed flm_file
flm_file-IsWellFormed = record {
  table = λ h e. rw (← same_header h e) (omega arith);
  sections =
      λ h i e below. rw (← same_header h e) (sections_small i (rw (← same_header h e) at below));
  section_names = λ h offset size e a b.
      names_end offset size (rw (← same_header h e) at a) (rw (← same_header h e) at b);
  symbol_names = λ h s e a. symbol_names_end s (rw (← same_header h e) at a);
}

flm_elf_parse_returns_example : flm_elf_parse flm_file ≢ no_return
flm_elf_parse_returns_example = flm_elf_parse_returns flm_file flm_file-IsWellFormed
