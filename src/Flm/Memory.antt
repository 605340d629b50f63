-- ===== src/Flm/Memory.antt =====
-- Copying to the target's memory, against a port whose acknowledged accesses read and write it.
use alonzo_bootloader_zephyr.Base.{
  ℕ, zero, suc, ◌+◌, ◌*◌, ◌^◌, ◌≤◌, ◌<◌, ◌≡◌, refl, sym, ◌∙◌, ap, arith, ◌⊎◌, inl, inr, List,
  Result, ok, err, no_return, u32, lift,
}
use alonzo_bootloader_zephyr.Base.Hoare.{Post, Triple-pure, Triple-bind, Triple-mono}
use alonzo_bootloader_zephyr.Base.Bytes.{read32}
use alonzo_bootloader_zephyr.Swd.Port.{SwdPort}
use alonzo_bootloader_zephyr.Dap.Port.{DebugPort, over}
use alonzo_bootloader_zephyr.Dap.Memory.{
  View, Done, store, IsMemAp, mem_read32-memory, mem_write32-memory,
}
use alonzo_bootloader_zephyr.Flm.{copy_words}

-- `memory` is the target's, in words, below `top`.
pub record IsMemory {S : Type 0} (port : DebugPort S) (memory : S → ℕ → ℕ) (top : ℕ) : Type 0 where
  pub reads :
      (m : ℕ → ℕ) (addr : ℕ)
      → addr < top
      → Done (λ s. memory s ≡ m) (port.mem_read32 addr) (λ v s. (v ≡ m addr) × (memory s ≡ m))
  pub writes :
      (m : ℕ → ℕ) (addr value : ℕ)
      → addr < top
      → Done
          (λ s. memory s ≡ m)
          (port.mem_write32 addr value)
          (λ _ s. memory s ≡ store m addr value)

-- The accesses of dap.c over a MEM-AP are such a port.
pub over-IsMemory :
    {S : Type 0} (swd : SwdPort S) (view : S → View) (top : ℕ)
    → IsMemAp swd view top
    → IsMemory (over swd) (λ s. (view s).memory) top
over-IsMemory swd view top mem_ap = record {
  reads = λ m addr below. record {
    at = λ s e.
        (Triple-mono _ (mem_read32-memory swd view top mem_ap addr (view s) below) (λ _ h. h)
            (λ v s' h. (h.0 ∙ ap (λ (f : ℕ → ℕ). f addr) e, h.1 ∙ e)) (λ _ u. u)).at
          s refl;
  };
  writes = λ m addr value below. record {
    at = λ s e.
        (Triple-mono _ (mem_write32-memory swd view top mem_ap addr value (view s) below) (λ _ h. h)
            (λ _ s' h. h ∙ ap (λ (f : ℕ → ℕ). store f addr value) e) (λ _ u. u)).at
          s refl;
  };
}

-- The words of `src` from index `i` on stand in `m` from `dst + i` on.
abbrev pub Holds : (ℕ → ℕ) → List ℕ → ℕ → ℕ → ℕ → Type 0
Holds m src dst i zero = Unit
Holds m src dst i (suc left) = (read32 src i ≡ ok (m (dst + i))) × Holds m src dst (i + 4) left

-- No word outside the range differs.
abbrev pub SameOutside : (ℕ → ℕ) → (ℕ → ℕ) → ℕ → ℕ → Type 0
SameOutside m m' from to = (a : ℕ) → (a < from) ⊎ (to ≤ a) → m' a ≡ m a

module _ {S : Type 0} (port : DebugPort S) (memory : S → ℕ → ℕ) (top : ℕ)
    (law : IsMemory port memory top) where
  abbrev Copied : (ℕ → ℕ) → List ℕ → ℕ → ℕ → ℕ → S → Type 0
  Copied m src dst i left s =
      Holds (memory s) src dst i left × SameOutside m (memory s) (dst + i) (dst + i + 4 * left)

  -- The first word is written, and the later ones leave it alone.
  first_word :
      (m : ℕ → ℕ) (src : List ℕ) (dst i left word : ℕ) (s : S)
      → read32 src i ≡ ok word
      → Copied (store m (dst + i) word) src dst (i + 4) left s
      → Copied m src dst i (suc left) s
  first_word m src dst i left word s e h =
      ((e ∙ ap ok (sym (h.1 (dst + i) (inl (omega arith)) ∙ stored)), h.0), outside)
    where
      stored : store m (dst + i) word (dst + i) ≡ word
      stored = ground arith

      outside : SameOutside m (memory s) (dst + i) (dst + i + 4 * suc left)
      outside a (inl below) = h.1 a (inl (omega arith)) ∙ ground arith
      outside a (inr above) = h.1 a (inr (omega arith)) ∙ ground arith

  fetched :
      (src : List ℕ) (i : ℕ) (m : ℕ → ℕ) (r : Result ℕ)
      → read32 src i ≡ r
      → (s : S) → memory s ≡ m
      → Post (λ word s. (read32 src i ≡ ok word) × (memory s ≡ m)) (λ _. Unit) (r, s)
  fetched src i m (ok word) e s h = (e, h)
  fetched src i m (err _) e s h = tt
  fetched src i m no_return e s h = tt

  write_at :
      (m : ℕ → ℕ) (addr addr' value : ℕ)
      → addr' ≡ addr
      → addr < top
      → Done
          (λ s. memory s ≡ m)
          (port.mem_write32 addr' value)
          (λ _ s. memory s ≡ store m addr value)
  write_at m addr addr' value e below = rw e (law.writes m addr value below)

  -- In a range below the limit `top` of the memory, which lies in the 32-bit address space, a copy
  -- that is acknowledged throughout puts the words of the source, and changes no other word.
  pub copy_words-Holds :
      (left i dst : ℕ) (src : List ℕ) (m : ℕ → ℕ)
      → dst + i + 4 * left ≤ top
      → top ≤ 2 ^ 32
      → Done
          (λ s. memory s ≡ m)
          (copy_words port left i dst src)
          (λ _ s.
            Holds (memory s) src dst i left
            × SameOutside m (memory s) (dst + i) (dst + i + 4 * left))
  unfolding copy_words
  copy_words-Holds zero i dst src m fits low =
      Triple-pure tt (λ s e. (tt, λ a out. ap (λ (f : ℕ → ℕ). f a) e))
  copy_words-Holds (suc left) i dst src m fits low =
      let wrap : u32 (dst + i) ≡ dst + i = omega arith in
      Triple-bind (lift (read32 src i)) _
        (record { at = λ s e. fetched src i m (read32 src i) refl s e })
        λ word. record {
          at = λ s h.
              (Triple-bind (port.mem_write32 (u32 (dst + i)) word) _
                  (write_at m (dst + i) (u32 (dst + i)) word wrap (omega arith))
                  λ _.
                    Triple-mono _
                      (copy_words-Holds left (i + 4) dst src (store m (dst + i) word) (omega arith)
                        low)
                      (λ _ x. x) (λ _ s' c. first_word m src dst i left word s' h.0 c)
                      (λ _ u. u)).at
                s h.1;
        }
