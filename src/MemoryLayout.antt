-- ===== src/MemoryLayout.antt =====
-- include/memory_layout.h: the flash and SRAM maps, for a configured bootloader size.
use alonzo_bootloader_zephyr.Base.{ℕ, ◌+◌, ◌-◌, ◌*◌, Bool, ◌||◌, ◌==◌, ltb, ◌&&◌}

abbrev pub flash_base : ℕ
flash_base = 0x0800_0000

abbrev pub flash_size : ℕ
flash_size = 512 * 1024

abbrev pub flash_end : ℕ
flash_end = flash_base + flash_size

abbrev pub sram_base : ℕ
sram_base = 0x2000_0000

abbrev pub sram_end : ℕ
sram_end = sram_base + 128 * 1024

-- `_ALONZO_IS_SECTOR_ALIGNED`.
unfoldable pub is_sector_aligned : ℕ → Bool
is_sector_aligned sz =
    sz == 0x04000
    || sz == 0x08000
    || sz == 0x0c000
    || sz == 0x10000
    || sz == 0x20000
    || sz == 0x40000
    || sz == 0x60000
    || sz == 0x80000

-- The first two build assertions on `CONFIG_ALONZO_BOOTLOADER_SIZE`.
unfoldable pub builds : ℕ → Bool
unfolding is_sector_aligned
builds bootloader_size = is_sector_aligned bootloader_size && ltb bootloader_size flash_size

module _ (bootloader_size : ℕ) where
  abbrev pub app_start : ℕ
  app_start = flash_base + bootloader_size

  abbrev pub app_size : ℕ
  app_size = flash_size - bootloader_size

  abbrev pub app_offset : ℕ
  app_offset = app_start - flash_base
