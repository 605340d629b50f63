-- ===== src/CoProcessor/Layout.antt =====
-- The work area in the co-processor's memory: nothing overlaps, and the loader accepts it.
use alonzo_bootloader_zephyr.Base.{ℕ, ◌+◌, ◌*◌, ◌/◌, ◌%◌, ◌^◌, ◌≤◌, ◌<◌, ◌≡◌, arith, true, ok, u32}
use alonzo_bootloader_zephyr.Bits.{bit_and-clear_two}
use alonzo_bootloader_zephyr.Flm.{align4, has_room}
use alonzo_bootloader_zephyr.Flm.Format.{Image}
use alonzo_bootloader_zephyr.CoProcessor.{page_buf_size, Work, work_layout}

-- Up to the next multiple of 4.
pub align4_lem : (a : ℕ) → a + 3 < 2 ^ 32 → align4 a ≡ (a + 3) / 4 * 4
unfolding align4
align4_lem a h = let e : u32 (a + 3) ≡ a + 3 = omega arith in rw e (bit_and-clear_two (a + 3) h)

-- The parts in their order: code, data, the BKPT stub, the page buffer and the stack, from the start
-- of the window to its end, with words at addresses that are multiples of 4.
pub record IsDisjoint (ram_base ram_size : ℕ) (img : Image) (w : Work) : Type 0 where
  pub code_at : w.rt.code_base ≡ ram_base
  pub code_fits : w.rt.code_base + img.code_size ≤ w.rt.data_base
  pub data_fits : w.rt.data_base + img.data_size ≤ align4 (u32 (w.rt.data_base + img.data_size))
  pub stub_fits : align4 (u32 (w.rt.data_base + img.data_size)) + 4 ≤ w.page_buf
  pub page_fits : w.page_buf + page_buf_size + img.required_stack_size ≤ w.rt.stack_top
  pub stack_at : w.rt.stack_top ≡ ram_base + ram_size
  pub data_aligned : w.rt.data_base % 4 ≡ 0
  pub page_aligned : w.page_buf % 4 ≡ 0

module _ (ram_base ram_size : ℕ) (img : Image)
    (small : ram_base + img.code_size + img.data_size + 512 < 2 ^ 32)
    (window : ram_base + ram_size < 2 ^ 32) where
  data_base_lem : align4 (u32 (ram_base + img.code_size)) ≡ (ram_base + img.code_size + 3) / 4 * 4
  data_base_lem =
      let e : u32 (ram_base + img.code_size) ≡ ram_base + img.code_size = omega arith in
      rw e (align4_lem (ram_base + img.code_size) (omega arith))

  -- The two addresses behind the data.
  after_data_lem :
      (at more : ℕ)
      → at ≤ ram_base + img.code_size + 3
      → more ≤ 4
      → align4 (u32 (at + img.data_size + more)) ≡ (at + img.data_size + more + 3) / 4 * 4
  after_data_lem at more le few =
      let e : u32 (at + img.data_size + more) ≡ at + img.data_size + more = omega arith in
      rw e (align4_lem (at + img.data_size + more) (omega arith))

  fields_lem :
      (w : Work)
      → work_layout ram_base ram_size img ≡ ok w
      → (w.rt.code_base ≡ ram_base)
        × (w.rt.data_base ≡ (ram_base + img.code_size + 3) / 4 * 4)
        × (w.page_buf ≡ (w.rt.data_base + img.data_size + 4 + 3) / 4 * 4)
        × (w.rt.stack_top ≡ ram_base + ram_size)
        × (w.page_buf + page_buf_size + img.required_stack_size ≤ w.rt.stack_top)
  unfolding work_layout
  fields_lem w e =
      let at : ℕ = (ram_base + img.code_size + 3) / 4 * 4 in
      ground (arith, data_base_lem, after_data_lem at 4 (omega arith) (omega arith))

  -- A layout that is found, for sizes and a window inside the 32-bit address space, has its parts
  -- one behind the other.
  pub work_layout-IsDisjoint :
      (w : Work) → work_layout ram_base ram_size img ≡ ok w → IsDisjoint ram_base ram_size img w
  work_layout-IsDisjoint w e =
      let (code_at, data_at, page_at, stack_at, page_fits) = fields_lem w e in
      let stub : align4 (u32 (w.rt.data_base + img.data_size + 0))
          ≡ (w.rt.data_base + img.data_size + 0 + 3) / 4 * 4 =
        after_data_lem w.rt.data_base 0 (omega arith) (omega arith) in
      let same : w.rt.data_base + img.data_size + 0 ≡ w.rt.data_base + img.data_size =
        omega arith in
      let stub' = rw same at stub in
      record {
        code_at = code_at;
        code_fits = omega arith;
        data_fits = omega arith;
        stub_fits = omega arith;
        page_fits = page_fits;
        stack_at = stack_at;
        data_aligned = omega arith;
        page_aligned = omega arith;
      }

  -- For sizes and a window inside the 32-bit address space, the loader's tests for overlaps accept a
  -- layout that is found.
  pub work_layout-has_room :
      (w : Work)
      → work_layout ram_base ram_size img ≡ ok w
      → has_room img w.rt (align4 (u32 (w.rt.data_base + img.data_size))) ≡ true
  work_layout-has_room w e =
      let d = work_layout-IsDisjoint w e in
      let f = fields_lem w e in
      ground (arith, d.code_at, d.code_fits, d.stub_fits, d.page_fits, d.stack_at, f.0, f.1)
