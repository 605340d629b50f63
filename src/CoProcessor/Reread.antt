-- ===== src/CoProcessor/Reread.antt =====
-- A verification that succeeds has compared the whole file with the co-processor's memory.
use alonzo_bootloader_zephyr.Base.{
  ℕ, zero, suc, ◌+◌, ◌-◌, ◌*◌, ◌/◌, ◌%◌, ◌^◌, ◌≤◌, ◌<◌, ◌≡◌, refl, sym, arith, ◌⊎◌, inl, inr,
  Bool-cases, List, ◌∷◌, ◌++◌, length, length-append, ⊤, Result, ok, err, no_return, is_ok, eio,
  ◌==◌, ltb,
}
use alonzo_bootloader_zephyr.Base.Hoare.{
  Post, Triple-pure, Triple-raise, Triple-if, Triple-bind, Triple-mono,
}
use alonzo_bootloader_zephyr.Board.{Board, Trace, Platform, sought}
use alonzo_bootloader_zephyr.Board.Reading.{since_open}
use alonzo_bootloader_zephyr.Board.Drivers.{read_event, file_read, file_seek_start}
use alonzo_bootloader_zephyr.Swd.Port.{SwdPort}
use alonzo_bootloader_zephyr.Dap.Port.{DebugPort}
use alonzo_bootloader_zephyr.Dap.Memory.{Done}
use alonzo_bootloader_zephyr.Flm.Format.{Session}
use alonzo_bootloader_zephyr.Flm.Memory.{IsMemory}
use alonzo_bootloader_zephyr.FirmwareUpdate.Cell.{Spells, Spells-append}
use alonzo_bootloader_zephyr.CoProcessor.{
  page_buf_size, smaller, padded, read_into, read_chunk, verify_words, verify_from, verify,
}
use alonzo_bootloader_zephyr.CoProcessor.ReadBack.{IsBytes, Reflects, verify_words-Reflects}
use alonzo_bootloader_zephyr.CoProcessor.Verified.{byte_of, Reflects-Spells, padded-IsBytes}

-- A read gives bytes.
abbrev pub ReadsBytes : Platform → Type 0
ReadsBytes p = (t : Trace) (count : ℕ) (bytes : List ℕ) → p.read t count ≡ ok bytes → IsBytes bytes

module _ {S : Type 0} (p : Platform) (swd : SwdPort S) (port : DebugPort S) (memory : S → ℕ → ℕ)
    (top : ℕ) (law : IsMemory port memory top) (m : ℕ → ℕ) (reads : ReadsBytes p) (base size : ℕ)
    (fits : base + size + 3 ≤ top) (low : top ≤ 2 ^ 32) where
  -- The first `offset` bytes have been read, and they are those of the memory from `base` on.
  abbrev pub Compared : ℕ → Trace → Type 0
  Compared offset t =
      Spells (byte_of m base) (λ x. x) 0 (since_open t) × (length (since_open t) ≡ offset)

  -- The same of what was read before the latest read.
  abbrev Fetched : ℕ → List ℕ → Trace → Type 0
  Fetched offset bytes t =
      (prev : List ℕ) × (since_open t ≡ prev ++ bytes)
      × Spells (byte_of m base) (λ x. x) 0 prev
      × (length prev ≡ offset)

  read_chunk-Fetched :
      (offset chunk : ℕ)
      → Done
          (λ (b : Board (Session S)). Compared offset b.trace × (memory b.target.core ≡ m))
          (read_chunk p swd port chunk)
          (λ bytes b.
            (IsBytes bytes × (length bytes ≡ chunk))
            × (Fetched offset bytes b.trace × (memory b.target.core ≡ m)))
  unfolding read_chunk read_into file_read read_event
  read_chunk-Fetched offset chunk =
      Triple-bind
        {R = λ bytes b. IsBytes bytes × (Fetched offset bytes b.trace × (memory b.target.core ≡ m))}
        (read_into p swd port page_buf_size chunk) _
        (Triple-bind
          {R = λ bytes b.
            IsBytes bytes × (Fetched offset bytes b.trace × (memory b.target.core ≡ m))}
          (file_read p chunk) _ (record { at = λ b h. fetched (p.read b.trace chunk) b refl h })
          λ bytes.
            Triple-if (ltb page_buf_size (length bytes)) _ _ (λ _. record { at = λ b h. tt })
              (λ _. Triple-pure bytes (λ b h. h)))
        λ bytes.
          Triple-if (length bytes == chunk) _ _
            (λ e.
              let same : length bytes ≡ chunk = ground arith in
              Triple-pure bytes (λ b h. ((h.0, same), h.1)))
            (λ _. Triple-raise eio (λ b h. tt))
    where
      fetched :
          (r : Result (List ℕ)) (b : Board (Session S))
          → p.read b.trace chunk ≡ r
          → Compared offset b.trace × (memory b.target.core ≡ m)
          → Post
              (λ bytes b.
                IsBytes bytes × (Fetched offset bytes b.trace × (memory b.target.core ≡ m)))
              (λ _. Unit)
              (r, record b { trace = read_event r ∷ b.trace })
      fetched (ok bytes) b e h =
          (reads b.trace chunk bytes e, ((since_open b.trace, refl, h.0.0, h.0.1), h.1))
      fetched (err _) b e h = tt
      fetched no_return b e h = tt

  -- A page that was read is compared.
  compared :
      (offset chunk : ℕ) (bytes : List ℕ) (t : Trace)
      → offset % 4 ≡ 0
      → length bytes ≡ chunk
      → Reflects m ((chunk + 3) / 4) 0 (padded bytes) chunk (base + offset)
      → Fetched offset bytes t
      → Compared (offset + chunk) t
  compared offset chunk bytes t aligned full r (prev, e, s, l) =
      let page = Reflects-Spells m bytes base offset aligned (rw (sym full) at r) in
      let at : offset ≡ 0 + length prev = omega (arith, l) in
      let page' = rw at at page in
      rw e (
        Spells-append (byte_of m base) (λ x. x) 0 prev bytes s page',
        omega (arith, length-append prev bytes, l, full),
      )

  -- Every page but the last has 256 bytes.
  abbrev Stands : ℕ → Type 0
  Stands offset = (offset ≤ size) × ((offset % 256 ≡ 0) ⊎ (size ≤ offset))

  next-Stands :
      (offset : ℕ)
      → offset < size
      → Stands offset
      → (offset % 256 ≡ 0) × Stands (offset + smaller (size - offset) page_buf_size)
  next-Stands offset below h =
      let aligned : offset % 256 ≡ 0 = ground arith in
      elim (Bool-cases (ltb page_buf_size (size - offset))) [
        | inl full ↦ rw full (aligned, (ground arith, inl (omega arith)))
        | inr last ↦ rw last (aligned, (omega arith, inr (omega arith)))
      ]

  chunk_fits :
      (offset : ℕ)
      → offset < size
      → base + offset + 0 + 4 * ((smaller (size - offset) page_buf_size + 3) / 4) ≤ top
  chunk_fits offset below =
      let le : smaller (size - offset) page_buf_size ≤ size - offset = ground arith in omega arith

  verify_from-Compared :
      (fuel offset : ℕ)
      → Stands offset
      → Done
          (λ (b : Board (Session S)). Compared offset b.trace × (memory b.target.core ≡ m))
          (verify_from p swd port fuel base size offset)
          (λ _ b. Compared size b.trace × (memory b.target.core ≡ m))
  unfolding verify_from
  verify_from-Compared zero offset stands = record { at = λ b h. tt }
  verify_from-Compared (suc fuel) offset stands =
      let chunk : ℕ = smaller (size - offset) page_buf_size in
      Triple-if (ltb offset size) _ _
        (λ e.
          let below : offset < size = ground arith in
          let next = next-Stands offset below stands in
          Triple-bind (read_chunk p swd port chunk) _ (read_chunk-Fetched offset chunk) λ bytes.
            record {
              at = λ b h.
                  (Triple-bind
                      (verify_words p swd port ((chunk + 3) / 4) 0 (padded bytes) chunk
                        (base + offset))
                      _
                      (verify_words-Reflects p swd port memory top law m
                        (λ b. Fetched offset bytes b.trace) (λ b t h. h) ((chunk + 3) / 4) 0
                        (padded bytes) chunk (base + offset) (padded-IsBytes bytes h.0.0)
                        (chunk_fits offset below) low)
                      λ _.
                        Triple-mono (verify_from p swd port fuel base size (offset + chunk))
                          (verify_from-Compared fuel (offset + chunk) next.1)
                          (λ b' q. (
                            compared offset chunk bytes b'.trace (omega arith) h.0.1 q.0 q.1.0,
                            q.1.1,
                          ))
                          (λ _ _ q. q) (λ _ u. u)).at
                    b h.1;
            })
        (λ e. let end : offset ≡ size = ground arith in Triple-pure tt (λ b h. rw end at h))

  rewound :
      (r : Result ⊤) (b : Board (Session S))
      → memory b.target.core ≡ m
      → Post
          (λ _ b. Compared 0 b.trace × (memory b.target.core ≡ m))
          (λ _. Unit)
          (r, record b { trace = sought (is_ok r) ∷ b.trace })
  rewound (ok _) b h = ((tt, refl), h)
  rewound (err _) b h = tt
  rewound no_return b h = tt

  -- Over a port to a memory, where reads of the file give bytes and the image with its last word
  -- lies below the limit `top` of the memory, which lies in the 32-bit address space: if a
  -- verification succeeds, the bytes that it has read since it rewound the file are as many as the
  -- image has and are the bytes of the memory from the flash base on, and the memory is as it was.
  pub verify-Compared :
      (fuel : ℕ)
      → Done
          (λ (b : Board (Session S)). memory b.target.core ≡ m)
          (verify p swd port fuel base size)
          (λ _ b.
            (Spells (byte_of m base) (λ x. x) 0 (since_open b.trace)
              × (length (since_open b.trace) ≡ size))
            × (memory b.target.core ≡ m))
  unfolding verify file_seek_start
  verify-Compared fuel =
      Triple-bind (file_seek_start p) _ (record { at = λ b h. rewound (p.seek b.trace) b h })
        λ _. verify_from-Compared fuel 0 (omega arith, inl refl)
