-- ===== src/Flm/Returning.antt =====
-- Loading and calling a flash algorithm comes to an end: the wait for a routine polls a bounded
-- number of times.
use alonzo_bootloader_zephyr.Base.{
  ℕ, zero, suc, ◌+◌, ◌*◌, ◌/◌, ◌≤◌, ◌<◌, ◌≡◌, ◌≢◌, refl, arith, not, ◌||◌, ◌&&◌, List, [], ◌∷◌,
  length, Option, none, some, ⊤, Result, ok, err, no_return, Exec, raise, lift, bit_and, bit_or,
  ◌<<<◌, u32, enxio, eio, einval, ◌==◌,
}
use alonzo_bootloader_zephyr.Base.Total.{
  Landing, Returning, Returning-bind, pure-Returning, raise-Returning, Total-if, Total-modify,
}
use alonzo_bootloader_zephyr.Base.Bytes.{get_byte, read32}
use alonzo_bootloader_zephyr.Dap.Port.{DebugPort}
use alonzo_bootloader_zephyr.CortexM.{resume, is_halted, write_reg, write_sp}
use alonzo_bootloader_zephyr.CortexM.Returning.{
  Answers, halt-Returning, resume-Returning, is_halted-Returning, read_reg-Returning,
  write_reg-Returning, write_sp-Returning, write_pc-Returning,
}
use alonzo_bootloader_zephyr.CortexM.Register.{r9, lr}
use alonzo_bootloader_zephyr.Flm.Format.{Image, Runtime, Loaded, Session}
use alonzo_bootloader_zephyr.Flm.{
  bkpt_word, call_poll_us, call_polls, align4, is_image, has_room, on_core, copy_words, copy_to_ram,
  place, load, set_up_call, await_return, call_loaded, call, run, with_entry, init, uninit,
  erase_sector, program_page,
}

pub get_byte_inside :
    (bytes : List ℕ) (i : ℕ) → i < length bytes → (b : ℕ) × (get_byte bytes i ≡ ok b)
get_byte_inside [] i below = absurd (omega arith)
get_byte_inside (x ∷ xs) zero below = (x, refl)
get_byte_inside (x ∷ xs) (suc i) below = get_byte_inside xs i (omega arith)

pub read32_inside :
    (bytes : List ℕ) (i : ℕ) → i + 4 ≤ length bytes → (w : ℕ) × (read32 bytes i ≡ ok w)
unfolding read32
read32_inside bytes i fits =
    let (b0, e0) = get_byte_inside bytes i (omega arith) in
    let (b1, e1) = get_byte_inside bytes (i + 1) (omega arith) in
    let (b2, e2) = get_byte_inside bytes (i + 2) (omega arith) in
    let (b3, e3) = get_byte_inside bytes (i + 3) (omega arith) in
    (bit_or (bit_or (bit_or b0 (b1 <<< 8)) (b2 <<< 16)) (b3 <<< 24), rw (e0, e1, e2, e3) refl)

-- A result that is there.
pub lift-Returning : {S A : Type 0} (r : Result A) → r ≢ no_return → Returning {S = S} (lift r)
lift-Returning {S} {A} r h = record { at = λ s p. landed r s h }
  where
    landed : (r : Result A) (s : S) → r ≢ no_return → Landing (λ _ _. Unit) (r, s)
    landed (ok a) s h = tt
    landed (err e) s h = tt
    landed no_return s h = h refl

pub returned : {A : Type 0} (r : Result A) (a : A) → r ≡ ok a → r ≢ no_return
returned r a e lost = cc

pub on_core-Returning :
    {S A : Type 0} (m : Exec S A) → Returning m → Returning {S = Session S} (on_core m)
on_core-Returning {S} {A} m h = record {
  at = λ s p. let (r, core) = m s.core in moved r core (record s { core = core }) (h.at s.core tt);
}
  where
    moved :
        (r : Result A) (core : S) (s : Session S)
        → Landing (λ _ _. Unit) (r, core)
        → Landing (λ _ _. Unit) (r, s)
    moved (ok a) core s l = tt
    moved (err e) core s l = tt
    moved no_return core s l = l

module _ {S : Type 0} (port : DebugPort S) (answers : Answers port) where
  pub copy_words-Returning :
      (left i dst : ℕ) (src : List ℕ)
      → i + 4 * left ≤ length src
      → Returning (copy_words port left i dst src)
  unfolding copy_words
  copy_words-Returning zero i dst src fits = pure-Returning tt
  copy_words-Returning (suc left) i dst src fits =
      let (w, e) = read32_inside src i (omega arith) in
      Returning-bind (lift (read32 src i)) _
        (lift-Returning (read32 src i) (returned (read32 src i) w e))
        λ word.
          Returning-bind (port.mem_write32 (u32 (dst + i)) word) _ (answers.writes _ _)
            λ _. copy_words-Returning left (i + 4) dst src (omega arith)

  copy_to_ram-Returning :
      (dst : ℕ) (src : List ℕ) (len : ℕ)
      → len ≤ length src
      → Returning (copy_to_ram port dst src len)
  unfolding copy_to_ram
  copy_to_ram-Returning dst src len fits =
      Total-if (not (bit_and dst 3 == 0) || not (bit_and len 3 == 0)) _ _
        (λ _. raise-Returning einval) (λ _. copy_words-Returning (len / 4) 0 dst src (omega arith))

  module _ (img : Image) (code section_data : List ℕ) (rt : Runtime)
      (code_fits : img.code_size ≤ length code)
      (data_fits : img.data_size ≤ length section_data) where
    place-Returning : (bkpt : ℕ) → Returning (place port img code section_data rt bkpt)
    unfolding place
    place-Returning bkpt = Returning-bind port.init _ answers.init λ _.
        Returning-bind (copy_to_ram port rt.code_base code img.code_size) _
          (copy_to_ram-Returning rt.code_base code img.code_size code_fits)
          λ _.
            Returning-bind (copy_to_ram port rt.data_base section_data img.data_size) _
              (copy_to_ram-Returning rt.data_base section_data img.data_size data_fits)
              λ _.
                Returning-bind (port.mem_write32 bkpt bkpt_word) _ (answers.writes bkpt bkpt_word)
                  λ _. halt-Returning port answers

    pub load-Returning : Returning (load port img code section_data rt)
    unfolding load
    load-Returning =
        let bkpt : ℕ = align4 (u32 (rt.data_base + img.data_size)) in
        Total-if (is_image img && has_room img rt bkpt) _ _
          (λ _.
            Returning-bind (on_core (place port img code section_data rt bkpt)) _
              (on_core-Returning _ (place-Returning bkpt)) λ _. record { at = λ s p. tt })
          (λ _. raise-Returning einval)

  set_up_call-Returning :
      (l : Loaded) (entry a0 a1 a2 a3 : ℕ) → Returning (set_up_call port l entry a0 a1 a2 a3)
  unfolding set_up_call
  set_up_call-Returning l entry a0 a1 a2 a3 =
      let writes = write_reg-Returning port answers in
      Returning-bind (write_reg port r9 l.rt.data_base) _ (writes _ _) λ _.
        Returning-bind (write_sp port l.rt.stack_top) _ (write_sp-Returning port answers _) λ _.
          Returning-bind (write_reg port lr (bit_or l.bkpt 1)) _ (writes _ _) λ _.
            Returning-bind (write_reg port 0 a0) _ (writes 0 a0) λ _.
              Returning-bind (write_reg port 1 a1) _ (writes 1 a1) λ _.
                Returning-bind (write_reg port 2 a2) _ (writes 2 a2) λ _.
                  Returning-bind (write_reg port 3 a3) _ (writes 3 a3)
                    λ _. write_pc-Returning port answers _

  await_return-Returning : (left : ℕ) → Returning (await_return port left)
  unfolding await_return
  await_return-Returning zero = raise-Returning _
  await_return-Returning (suc left) =
      Returning-bind (is_halted port) _ (is_halted-Returning port answers) λ halted.
        Total-if halted _ _ (λ _. read_reg-Returning port answers 0)
          (λ _. Total-modify (port.wait call_poll_us) _ (λ s h. h) (await_return-Returning left))

  call-Returning : (entry a0 a1 a2 a3 : ℕ) → Returning (call port entry a0 a1 a2 a3)
  unfolding call call_loaded
  call-Returning entry a0 a1 a2 a3 = record { at = λ s p. called s.loaded s }
    where
      called :
          (l : Option Loaded) (s : Session S)
          → Landing {S = Session S} {A = ℕ}
              (λ _ _. Unit)
              (elim l [
                | none ↦ raise enxio s
                | some l ↦ on_core (call_loaded port l entry a0 a1 a2 a3) s
              ])
      called none s = tt
      called (some l) s =
          (on_core-Returning (call_loaded port l entry a0 a1 a2 a3) (
              Returning-bind (set_up_call port l entry a0 a1 a2 a3) _
                (set_up_call-Returning l entry a0 a1 a2 a3)
                λ _.
                  Returning-bind (resume port) _ (resume-Returning port answers)
                    λ _. await_return-Returning call_polls)).at
            s tt

  run-Returning : (entry a0 a1 a2 a3 : ℕ) → Returning (run port entry a0 a1 a2 a3)
  unfolding run
  run-Returning entry a0 a1 a2 a3 =
      Returning-bind (call port entry a0 a1 a2 a3) _ (call-Returning entry a0 a1 a2 a3)
        λ ret. Total-if (ret == 0) _ _ (λ _. pure-Returning tt) (λ _. raise-Returning eio)

  with_entry-Returning :
      (offset : Image → ℕ) (k : ℕ → Exec (Session S) ⊤)
      → ((entry : ℕ) → Returning (k entry))
      → Returning (with_entry port offset k)
  unfolding with_entry
  with_entry-Returning offset k h = record { at = λ s p. entered s.loaded s }
    where
      entered :
          (l : Option Loaded) (s : Session S)
          → Landing {S = Session S} {A = ⊤}
              (λ _ _. Unit)
              (elim l [ none ↦ raise enxio s | some l ↦ k (offset l.image) s ])
      entered none s = tt
      entered (some l) s = (h (offset l.image)).at s tt

  pub init-Returning : Returning (init port)
  unfolding init
  init-Returning = with_entry-Returning _ _ (λ entry. run-Returning entry 0 0 0 0)

  pub uninit-Returning : Returning (uninit port)
  unfolding uninit
  uninit-Returning = with_entry-Returning _ _ (λ entry. run-Returning entry 0 0 0 0)

  pub erase_sector-Returning : (addr : ℕ) → Returning (erase_sector port addr)
  unfolding erase_sector
  erase_sector-Returning addr = with_entry-Returning _ _ (λ entry. run-Returning entry addr 0 0 0)

  pub program_page-Returning :
      (addr size buffer : ℕ) → Returning (program_page port addr size buffer)
  unfolding program_page
  program_page-Returning addr size buffer =
      with_entry-Returning _ _ (λ entry. run-Returning entry addr size buffer 0)
