-- ===== src/Flm/Format.antt =====
-- The image of a flash algorithm and where it is put in the target's memory (src/fr8016/flm.h).
use alonzo_bootloader_zephyr.Base.{ℕ, Option}

abbrev pub image_magic : ℕ
image_magic = 0x314d4c46

abbrev pub image_version : ℕ
image_version = 1

abbrev pub required_stack : ℕ
required_stack = 512

-- `struct flm_image`, without its reserved word.
pub record Image : Type 0 where
  pub magic : ℕ
  pub version : ℕ
  pub code_size : ℕ
  pub data_size : ℕ
  pub code_entry_offset : ℕ
  pub uninit_entry_offset : ℕ
  pub erase_chip_entry_offset : ℕ
  pub erase_sector_entry_offset : ℕ
  pub program_page_entry_offset : ℕ
  pub required_stack_size : ℕ
  pub flash_base : ℕ
  pub flash_size : ℕ
  pub sector_size : ℕ
  pub page_size : ℕ
  pub erase_value : ℕ

-- `struct flm_runtime`.
pub record Runtime : Type 0 where
  pub code_base : ℕ
  pub data_base : ℕ
  pub stack_top : ℕ

-- `flm_img`, `flm_rt` and `flm_bkpt`, once they are filled.
pub record Loaded : Type 0 where
  pub image : Image
  pub rt : Runtime
  pub bkpt : ℕ

-- The static variables of flm.c over the state `S` of the debug port; `none` is `flm_img == NULL`.
pub record Session (S : Type 0) : Type 0 where
  pub core : S
  pub loaded : Option Loaded
