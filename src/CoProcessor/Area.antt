-- ===== src/CoProcessor/Area.antt =====
-- The work area in the co-processor's memory, and the words and buffers of src/fr8016/fr8016.c.
use alonzo_bootloader_zephyr.Base.{
  ℕ, zero, suc, ◌+◌, ◌-◌, ◌*◌, ◌^◌, u32, sub32, List, ◌++◌, length, replicate, enospc, Result, ok,
  err, ◌==◌, ltb, if◌then◌else◌,
}
use alonzo_bootloader_zephyr.Base.Bytes
use alonzo_bootloader_zephyr.Base.Bytes.{get_byte}
use alonzo_bootloader_zephyr.Flm.{align4}
use alonzo_bootloader_zephyr.Flm.Format.{Image, Runtime}

-- FR_PAGE_BUF_SIZE and FR_FLM_MAX_SIZE.
abbrev pub page_buf_size : ℕ
page_buf_size = 256

abbrev pub flm_max_size : ℕ
flm_max_size = 65536

-- `struct fr_work`.
pub record Work : Type 0 where
  pub rt : Runtime
  pub page_buf : ℕ

module _ (ram_base ram_size : ℕ) where
  unfoldable pub work_layout : Image → Result Work
  unfolding align4
  work_layout img =
      let data_base = align4 (u32 (ram_base + img.code_size)) in
      let page_buf = align4 (u32 (data_base + img.data_size + 4)) in
      let stack_top = u32 (ram_base + ram_size) in
      if ltb ram_size img.required_stack_size
      then err enospc
      else if ltb (sub32 stack_top img.required_stack_size) (u32 (page_buf + page_buf_size))
      then err enospc
      else ok (record {
        rt = record { code_base = ram_base; data_base = data_base; stack_top = stack_top };
        page_buf = page_buf;
      })

-- The `n` bytes at `i` as the low bytes of a word.
unfoldable pub word_of : ℕ → List ℕ → ℕ → Result ℕ
word_of zero bytes i = ok 0
word_of (suc n) bytes i =
    Bytes.◌>>=◌ (get_byte bytes i) λ b. Bytes.◌>>=◌ (word_of n bytes (i + 1)) λ w. ok (b + 256 * w)

abbrev pub tail_mask : ℕ → ℕ
tail_mask n = if n == 4 then 0xffff_ffff else 2 ^ (8 * n) - 1

abbrev pub smaller : ℕ → ℕ → ℕ
smaller a b = if ltb b a then b else a

-- The page buffer after a read and the `memset` of the rest.
abbrev pub padded : List ℕ → List ℕ
padded bytes = bytes ++ replicate (page_buf_size - length bytes) 0
