-- ===== src/CoProcessor/Burned.antt =====
-- A burn that succeeds leaves the image file in the co-processor's flash.
use mathlib.Core.List.{append_assoc}
use alonzo_bootloader_zephyr.Base.{
  ℕ, zero, suc, ◌+◌, ◌-◌, ◌/◌, ◌^◌, ◌≤◌, ◌≡◌, refl, sym, ◌∙◌, ap, List, ◌∷◌, ◌++◌, length,
  whole_of_length, ⊤, Result, ok, err, no_return, is_ok, u32, bit_and, eio, Exec, lift, ◌==◌, ltb,
}
use alonzo_bootloader_zephyr.Base.Hoare.{
  Keeps, Post, Post-same, Triple-pure, Triple-raise, Triple-if, Triple-bind, Triple-mono,
}
use alonzo_bootloader_zephyr.Board.{Board, Trace, FilePath, Platform, on_target, sought}
use alonzo_bootloader_zephyr.Board.Reading.{since_open, IsOpen, Offers}
use alonzo_bootloader_zephyr.Board.Calls.{Keeps-on_target}
use alonzo_bootloader_zephyr.Board.Drivers.{read_event, file_read, file_seek_start}
use alonzo_bootloader_zephyr.Swd.Port.{SwdPort}
use alonzo_bootloader_zephyr.Dap.Port.{DebugPort}
use alonzo_bootloader_zephyr.Dap.Memory.{Done}
use alonzo_bootloader_zephyr.Flm.{on_core}
use alonzo_bootloader_zephyr.Flm.Format.{Image, Session}
use alonzo_bootloader_zephyr.Flm.Memory.{IsMemory}
use alonzo_bootloader_zephyr.FirmwareUpdate.Cell.{Spells}
use alonzo_bootloader_zephyr.CoProcessor.{
  page_buf_size, Work, smaller, tail_mask, padded, word_of, read_into, read_chunk, verify_word,
  verify_words, verify_from, verify, erase, program, burn,
}
use alonzo_bootloader_zephyr.CoProcessor.Verified.{byte_of}
use alonzo_bootloader_zephyr.CoProcessor.Opening.{erase-Opening, program-Opening}
use alonzo_bootloader_zephyr.CoProcessor.Reread.{ReadsBytes, verify-Compared}

-- The file is open, and what has been read of it is its start.
abbrev IsStart : FilePath → List ℕ → Trace → Type 0
IsStart path file t = IsOpen path t × ((rest : List ℕ) × (since_open t ++ rest ≡ file))

module _ {S A : Type 0} (Q Q' : A → S → Type 0) where
  Post-both :
      (r : Result A) (s : S)
      → Post Q (λ _. Unit) (r, s)
      → Post Q' (λ _. Unit) (r, s)
      → Post (λ a s. Q a s × Q' a s) (λ _. Unit) (r, s)
  Post-both (ok a) s h h' = (h, h')
  Post-both (err e) s h h' = tt
  Post-both no_return s h h' = tt

  -- What two statements say of one call.
  Done-both :
      {P P' : S → Type 0} (m : Exec S A)
      → Done P m Q
      → Done P' m Q'
      → Done (λ s. P s × P' s) m (λ a s. Q a s × Q' a s)
  Done-both m h h' = record { at = λ s q. Post-both (m s).0 (m s).1 (h.at s q.0) (h'.at s q.1) }

module _ {S : Type 0} (p : Platform) (swd : SwdPort S) (port : DebugPort S) (path : FilePath)
    (file : List ℕ) (offers : Offers p path file) where
  abbrev Here : Board (Session S) → Type 0
  Here b = IsStart path file b.trace

  abbrev Keeping : {A : Type 0} → Exec (Board (Session S)) A → Type 0
  Keeping m = Done Here m (λ _. Here)

  forget : {A : Type 0} (m : Exec (Board (Session S)) A) → Keeps Here m → Keeping m
  forget m h = Triple-mono m h (λ _ x. x) (λ _ _ x. x) (λ _ _. tt)

  read_chunk-Keeping : (chunk : ℕ) → Keeping (read_chunk p swd port chunk)
  unfolding read_chunk read_into file_read read_event
  read_chunk-Keeping chunk =
      Triple-bind {R = λ _. Here} (read_into p swd port page_buf_size chunk) _
        (Triple-bind {R = λ _. Here} (file_read p chunk) _
          (record { at = λ b h. advanced (p.read b.trace chunk) b refl h })
          λ bytes.
            Triple-if (ltb page_buf_size (length bytes)) _ _ (λ _. record { at = λ b h. tt })
              (λ _. Triple-pure bytes (λ b h. h)))
        λ bytes.
          Triple-if (length bytes == chunk) _ _ (λ _. Triple-pure bytes (λ b h. h))
            (λ _. Triple-raise eio (λ b h. tt))
    where
      advanced :
          (r : Result (List ℕ)) (b : Board (Session S))
          → p.read b.trace chunk ≡ r
          → Here b
          → Post (λ _. Here) (λ _. Unit) (r, record b { trace = read_event r ∷ b.trace })
      advanced (ok bytes) b e (open_file, (rest, whole)) =
          let (later, split) = offers.next b.trace chunk rest bytes open_file whole e in
          (
            open_file,
            (
              later,
              append_assoc (since_open b.trace) bytes later
                  ∙ (ap (λ xs. since_open b.trace ++ xs) (sym split) ∙ whole),
            ),
          )
      advanced (err _) b e h = tt
      advanced no_return b e h = tt

  verify_words-Keeping :
      (left i : ℕ) (bytes : List ℕ) (chunk base : ℕ)
      → Keeping (verify_words p swd port left i bytes chunk base)
  unfolding verify_words verify_word
  verify_words-Keeping zero i bytes chunk base = Triple-pure tt (λ b h. h)
  verify_words-Keeping (suc left) i bytes chunk base =
      let n : ℕ = smaller (chunk - i) 4 in
      Triple-bind {R = λ _. Here} (lift (word_of n bytes i)) _
        (forget _ (record { at = λ b h. Post-same Here (word_of n bytes i) b h }))
        λ expected.
          Triple-bind {R = λ _. Here} (verify_word p swd port n (u32 (base + i)) expected) _
            (Triple-bind {R = λ _. Here} (on_target (on_core (port.mem_read32 (u32 (base + i))))) _
              (forget _ (Keeps-on_target (IsStart path file) _))
              λ actual.
                Triple-if (bit_and actual (tail_mask n) == bit_and expected (tail_mask n)) _ _
                  (λ _. Triple-pure tt (λ b h. h)) (λ _. Triple-raise eio (λ b h. tt)))
            λ _. verify_words-Keeping left (i + 4) bytes chunk base

  verify_from-Keeping :
      (fuel base size offset : ℕ) → Keeping (verify_from p swd port fuel base size offset)
  unfolding verify_from
  verify_from-Keeping zero base size offset = record { at = λ b h. tt }
  verify_from-Keeping (suc fuel) base size offset =
      let chunk : ℕ = smaller (size - offset) page_buf_size in
      Triple-if (ltb offset size) _ _
        (λ _. Triple-bind (read_chunk p swd port chunk) _ (read_chunk-Keeping chunk) λ bytes.
          Triple-bind
            (verify_words p swd port ((chunk + 3) / 4) 0 (padded bytes) chunk (base + offset)) _
            (verify_words-Keeping ((chunk + 3) / 4) 0 (padded bytes) chunk (base + offset))
            λ _. verify_from-Keeping fuel base size (offset + chunk))
        (λ _. Triple-pure tt (λ b h. h))

  verify-Keeping :
      (fuel base size : ℕ)
      → Done
          (λ (b : Board (Session S)). IsOpen path b.trace)
          (verify p swd port fuel base size)
          (λ _. Here)
  unfolding verify file_seek_start
  verify-Keeping fuel base size =
      Triple-bind (file_seek_start p) _ (record { at = λ b h. rewound (p.seek b.trace) b h })
        λ _. verify_from-Keeping fuel base size 0
    where
      rewound :
          (r : Result ⊤) (b : Board (Session S))
          → IsOpen path b.trace
          → Post (λ _. Here) (λ _. Unit) (r, record b { trace = sought (is_ok r) ∷ b.trace })
      rewound (ok _) b h = ((refl, h), (file, refl))
      rewound (err _) b h = tt
      rewound no_return b h = tt

  module _ (memory : S → ℕ → ℕ) (top : ℕ) (law : IsMemory port memory top) (low : top ≤ 2 ^ 32)
      (reads : ReadsBytes p) where
    -- Over a port to a memory, where the file system serves the bytes `file` of the image that is
    -- open, reads give bytes, and the image with its last word lies below the limit `top` of the
    -- memory, which lies in the 32-bit address space: a burn that succeeds, whatever the flash
    -- algorithm does, leaves the bytes of the file in the memory, from the flash base on.
    pub burn-Holds :
        (ram_base ram_size fuel : ℕ) (img : Image) (work : Work)
        → img.flash_base + length file + 3 ≤ top
        → Done
            (λ (b : Board (Session S)). IsOpen path b.trace)
            (burn p swd port ram_base ram_size fuel img work (length file))
            (λ _ b. Spells (byte_of (memory b.target.core) img.flash_base) (λ x. x) 0 file)
    unfolding burn
    burn-Holds ram_base ram_size fuel img work fits =
        let base = img.flash_base in
        let size = length file in
        Triple-bind (erase p swd port img base size) _ (erase-Opening p swd port path img base size)
          λ _.
            Triple-bind (program p swd port fuel img base size work.page_buf 0) _
              (program-Opening p swd port path fuel img base size work.page_buf 0)
              λ _. record {
                at = λ b h.
                    let m = memory b.target.core in
                    (Triple-mono (verify p swd port fuel base size)
                        (Done-both _ _ (verify p swd port fuel base size)
                          (verify-Compared p swd port memory top law m reads base size fits low
                            fuel)
                          (verify-Keeping fuel base size))
                        (λ _ q. q)
                        (λ _ b' q.
                          let all : since_open b'.trace ≡ file =
                            whole_of_length (since_open b'.trace) q.1.1.0 file q.1.1.1 q.0.0.1 in
                          rw q.0.1 (rw all at q.0.0.0))
                        (λ _ u. u)).at
                      b (refl, h);
              }
