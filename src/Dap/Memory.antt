-- ===== src/Dap/Memory.antt =====
-- The memory accesses of dap.c, against the documented behaviour of a MEM-AP.
use alonzo_bootloader_zephyr.Base.{ℕ, ◌<◌, ◌≡◌, refl, ap, Exec, ◌==◌, if◌then◌else◌}
use alonzo_bootloader_zephyr.Base.Hoare.{Triple, Triple-bind, Triple-mono}
use alonzo_bootloader_zephyr.Swd.Dp
use alonzo_bootloader_zephyr.Swd.Port.{SwdPort}
use alonzo_bootloader_zephyr.Dap.Register.{ap_csw, ap_tar, ap_drw, csw_word}
use alonzo_bootloader_zephyr.Dap.{mem_ap_sel, select, mem_ap_setup, mem_read32, mem_write32}

-- The registers of the target that the accesses go through, and its memory.
pub record View : Type 0 where
  pub selected : ℕ
  pub csw : ℕ
  pub tar : ℕ
  pub posted : ℕ
  pub memory : ℕ → ℕ

abbrev pub store : (ℕ → ℕ) → ℕ → ℕ → ℕ → ℕ
store memory addr value a = if a == addr then value else memory a

-- Nothing is said of a transfer that fails.
abbrev pub Done : {S A : Type 0} → (S → Type 0) → Exec S A → (A → S → Type 0) → Type 0
Done P m Q = Triple P m Q (λ _. Unit)

-- What the ADIv5 architecture says of a transfer that is acknowledged, with `view` the target's
-- registers and memory behind the port. The address register may change with an access to DRW. The
-- words below `top` are memory; those above may be registers, of which nothing is said.
pub record IsMemAp {S : Type 0} (swd : SwdPort S) (view : S → View) (top : ℕ) : Type 0 where
  pub write_select :
      (w : View) (v : ℕ)
      → Done
          (λ s. view s ≡ w)
          (swd.write_dp Dp.select v)
          (λ _ s. view s ≡ record w { selected = v })
  pub write_csw :
      (w : View) (v : ℕ)
      → w.selected ≡ 0
      → Done (λ s. view s ≡ w) (swd.write_ap ap_csw v) (λ _ s. view s ≡ record w { csw = v })
  pub write_tar :
      (w : View) (v : ℕ)
      → w.selected ≡ 0
      → Done (λ s. view s ≡ w) (swd.write_ap ap_tar v) (λ _ s. view s ≡ record w { tar = v })
  pub write_drw :
      (w : View) (v : ℕ)
      → w.selected ≡ 0
      → w.csw ≡ csw_word
      → w.tar < top
      → Done
          (λ s. view s ≡ w)
          (swd.write_ap ap_drw v)
          (λ _ s. (n : ℕ) × (view s ≡ record w { memory = store w.memory w.tar v; tar = n }))
  pub read_drw :
      (w : View)
      → w.selected ≡ 0
      → w.csw ≡ csw_word
      → w.tar < top
      → Done
          (λ s. view s ≡ w)
          (swd.read_ap ap_drw)
          (λ _ s. (n : ℕ) × (view s ≡ record w { posted = w.memory w.tar; tar = n }))
  pub read_rdbuff :
      (w : View)
      → Done (λ s. view s ≡ w) (swd.read_dp Dp.rdbuff) (λ v s. (v ≡ w.posted) × (view s ≡ w))

module _ {S : Type 0} (swd : SwdPort S) (view : S → View) (top : ℕ)
    (mem_ap : IsMemAp swd view top) where
  mem_ap_setup-at :
      (w : View) (addr : ℕ)
      → Done
          (λ s. view s ≡ w)
          (mem_ap_setup swd addr)
          (λ _ s. view s ≡ record w { selected = 0; csw = csw_word; tar = addr })
  unfolding mem_ap_setup select
  mem_ap_setup-at w addr = Triple-bind (select swd mem_ap_sel 0) _ (mem_ap.write_select w 0) λ _.
      Triple-bind (swd.write_ap ap_csw csw_word) _
        (mem_ap.write_csw (record w { selected = 0 }) csw_word refl)
        λ _. mem_ap.write_tar (record w { selected = 0; csw = csw_word }) addr refl

  -- Below `top`, an acknowledged read gives the word at the address and leaves the memory as it was.
  pub mem_read32-memory :
      (addr : ℕ) (w : View)
      → addr < top
      → Done
          (λ s. view s ≡ w)
          (mem_read32 swd addr)
          (λ v s. (v ≡ w.memory addr) × ((view s).memory ≡ w.memory))
  unfolding mem_read32
  mem_read32-memory addr w below =
      let ready = record w { selected = 0; csw = csw_word; tar = addr } in
      Triple-bind (mem_ap_setup swd addr) _ (mem_ap_setup-at w addr) λ _.
        Triple-bind (swd.read_ap ap_drw) _ (mem_ap.read_drw ready refl refl below) λ _. record {
          at = λ s h.
              (Triple-mono (swd.read_dp Dp.rdbuff)
                  (mem_ap.read_rdbuff (record ready { posted = w.memory addr; tar = h.0 }))
                  (λ _ e. e) (λ v s' g. (g.0, ap (λ (x : View). x.memory) g.1)) (λ _ u. u)).at
                s h.1;
        }

  -- Below `top`, an acknowledged write changes the word at its address and no other.
  pub mem_write32-memory :
      (addr value : ℕ) (w : View)
      → addr < top
      → Done
          (λ s. view s ≡ w)
          (mem_write32 swd addr value)
          (λ _ s. (view s).memory ≡ store w.memory addr value)
  unfolding mem_write32
  mem_write32-memory addr value w below =
      let ready = record w { selected = 0; csw = csw_word; tar = addr } in
      Triple-bind (mem_ap_setup swd addr) _ (mem_ap_setup-at w addr) λ _.
        Triple-mono (swd.write_ap ap_drw value) (mem_ap.write_drw ready value refl refl below)
          (λ _ e. e) (λ _ s g. ap (λ (x : View). x.memory) g.1) (λ _ u. u)
