-- ===== src/CoProcessor/Ending.antt =====
-- The verification comes to an end.
use alonzo_bootloader_zephyr.Base.{
  ℕ, zero, suc, ◌+◌, ◌-◌, ◌*◌, ◌/◌, ◌≤◌, ◌<◌, ◌≡◌, ◌≢◌, refl, ap, arith, List, length,
  length-append, replicate, Result, ok, err, no_return, is_ok, eio, u32, bit_and, Exec, lift, ◌==◌,
  ltb,
}
use alonzo_bootloader_zephyr.Base.Total.{
  Landing, Returning, Total, Total-pure, Total-raise, Total-if, Total-bind,
}
use alonzo_bootloader_zephyr.Board.{Board, Trace, Platform, on_target, sought}
use alonzo_bootloader_zephyr.Board.Drivers.{file_read, file_seek_start}
use alonzo_bootloader_zephyr.Swd.Port.{SwdPort}
use alonzo_bootloader_zephyr.Dap.Port.{DebugPort}
use alonzo_bootloader_zephyr.Flm.{on_core}
use alonzo_bootloader_zephyr.Flm.Returning.{
  get_byte_inside, lift-Returning, returned, on_core-Returning,
}
use alonzo_bootloader_zephyr.CortexM.Returning.{Answers}
use alonzo_bootloader_zephyr.FirmwareUpdate.Image.{Returns}
use alonzo_bootloader_zephyr.Board.Calls.{Total-call}
use alonzo_bootloader_zephyr.Flm.Format.{Session}
use alonzo_bootloader_zephyr.CoProcessor.{
  page_buf_size, smaller, tail_mask, word_of, padded, read_into, read_chunk, verify_word,
  verify_words, verify_from, verify,
}

-- What the file system documents of reads: they give no more than was asked for.
abbrev pub ReadsBounded : Platform → Type 0
ReadsBounded p =
    (t : Trace) (count : ℕ) (bytes : List ℕ) → p.read t count ≡ ok bytes → length bytes ≤ count

pub on_target-Returning :
    {T A : Type 0} (m : Exec T A) → Returning m → Returning {S = Board T} (on_target m)
on_target-Returning {T} {A} m h = record {
  at = λ b u. let (r, t) = m b.target in moved r t (record b { target = t }) (h.at b.target tt);
}
  where
    moved :
        (r : Result A) (t : T) (b : Board T)
        → Landing (λ _ _. Unit) (r, t)
        → Landing (λ _ _. Unit) (r, b)
    moved (ok a) t b l = tt
    moved (err e) t b l = tt
    moved no_return t b l = l

pub word_of_inside :
    (n : ℕ) (bytes : List ℕ) (i : ℕ) → i + n ≤ length bytes → (w : ℕ) × (word_of n bytes i ≡ ok w)
unfolding word_of
word_of_inside zero bytes i fits = (0, refl)
word_of_inside (suc n) bytes i fits =
    let (b, e) = get_byte_inside bytes i (omega arith) in
    let (w, e') = word_of_inside n bytes (i + 1) (omega arith) in (b + 256 * w, rw (e, e') refl)

length-padded : (bytes : List ℕ) → length bytes ≤ length (padded bytes)
length-padded bytes =
    omega (arith, length-append bytes (replicate (page_buf_size - length bytes) 0))

length-replicate : (n x : ℕ) → length (replicate n x) ≡ n
length-replicate zero x = refl
length-replicate (suc n) x = ap suc (length-replicate n x)

pub padded_room : (bytes : List ℕ) → page_buf_size ≤ length (padded bytes)
padded_room bytes = omega (
  arith,
  length-append bytes (replicate (page_buf_size - length bytes) 0),
  length-replicate (page_buf_size - length bytes),
)

module _ {S : Type 0} (p : Platform) (swd : SwdPort S) (port : DebugPort S) (returns : Returns p)
    (bounded : ReadsBounded p) (answers : Answers port) where
  abbrev pub Ends : {A : Type 0} → Exec (Board (Session S)) A → Type 0
  Ends m = Returning m

  verify_word-Ends : (n addr expected : ℕ) → Ends (verify_word p swd port n addr expected)
  unfolding verify_word
  verify_word-Ends n addr expected =
      Total-bind (on_target (on_core (port.mem_read32 addr))) _
        (on_target-Returning _ (on_core-Returning _ (answers.reads addr)))
        λ actual.
          Total-if (bit_and actual (tail_mask n) == bit_and expected (tail_mask n)) _ _
            (λ _. Total-pure tt (λ b h. tt)) (λ _. Total-raise eio)

  verify_words-Ends :
      (left i : ℕ) (bytes : List ℕ) (chunk base : ℕ)
      → chunk ≤ length bytes
      → i + 4 * left < chunk + 4
      → Ends (verify_words p swd port left i bytes chunk base)
  unfolding verify_words
  verify_words-Ends zero i bytes chunk base room inside = Total-pure tt (λ b h. tt)
  verify_words-Ends (suc left) i bytes chunk base room inside =
      let n : ℕ = smaller (chunk - i) 4 in
      let short : n ≤ chunk - i = ground arith in
      let (w, e) = word_of_inside n bytes i (omega arith) in
      Total-bind (lift (word_of n bytes i)) _
        (lift-Returning (word_of n bytes i) (returned (word_of n bytes i) w e))
        λ expected.
          Total-bind _ _ (verify_word-Ends n (u32 (base + i)) expected)
            λ _. verify_words-Ends left (i + 4) bytes chunk base room (omega arith)

  pub read_chunk-Ends :
      (chunk : ℕ)
      → chunk ≤ page_buf_size
      → Total
          (λ (_ : Board (Session S)). Unit)
          (read_chunk p swd port chunk)
          (λ bytes _. length bytes ≡ chunk)
  unfolding read_chunk read_into file_read
  read_chunk-Ends chunk small =
      Total-bind {R = λ _ _. Unit} (read_into p swd port page_buf_size chunk) _
        (Total-bind {R = λ bytes _. length bytes ≤ chunk} (file_read p chunk) _
          (record { at = λ b h. counted (p.read b.trace chunk) b _ refl })
          λ bytes.
            Total-if (ltb page_buf_size (length bytes)) _ _
              (λ over. record { at = λ b le. absurd (ground arith) })
              (λ _. Total-pure bytes (λ b h. tt)))
        λ bytes.
          Total-if (length bytes == chunk) _ _ (λ e. Total-pure bytes (λ b h. ground arith))
            (λ _. Total-raise eio)
    where
      counted :
          (r : Result (List ℕ)) (b b' : Board (Session S))
          → p.read b.trace chunk ≡ r
          → Landing (λ bytes _. length bytes ≤ chunk) (r, b')
      counted (ok bytes) b b' e = bounded b.trace chunk bytes e
      counted (err _) b b' e = tt
      counted no_return b b' e = returns.reads chunk b.trace e

  verify_from-Ends :
      (fuel base size offset : ℕ)
      → offset ≤ size
      → size < offset + fuel
      → Ends (verify_from p swd port fuel base size offset)
  unfolding verify_from
  verify_from-Ends zero base size offset inside enough = absurd (omega arith)
  verify_from-Ends (suc fuel) base size offset inside enough =
      let chunk : ℕ = smaller (size - offset) page_buf_size in
      Total-if (ltb offset size) _ _
        (λ e.
          let below : offset < size = ground arith in
          let small : chunk ≤ page_buf_size = ground arith in
          let some : 1 ≤ chunk = ground arith in
          let left : chunk ≤ size - offset = ground arith in
          Total-bind (read_chunk p swd port chunk) _ (read_chunk-Ends chunk small) λ bytes. record {
            at = λ b h.
                let room = length-padded bytes in
                (Total-bind _ _
                    (verify_words-Ends ((chunk + 3) / 4) 0 (padded bytes) chunk (base + offset)
                      (omega arith) (omega arith))
                    λ _.
                      verify_from-Ends fuel base size (offset + chunk) (omega arith)
                        (omega arith)).at
                  b tt;
          })
        (λ _. Total-pure tt (λ b h. tt))

  -- The verification of an image returns, in a state of the board in whatever way it was reached,
  -- if the driver calls return, a read gives no more than was asked for, the
  -- reads of the co-processor's memory return, and the fuel exceeds the size of the image.
  pub verify-Ends :
      (fuel base size : ℕ)
      → size < fuel
      → ((t : Trace) → p.seek t ≢ no_return)
      → Total (λ (_ : Board (Session S)). Unit) (verify p swd port fuel base size) (λ _ _. Unit)
  unfolding verify file_seek_start
  verify-Ends fuel base size enough seeks =
      Total-bind (file_seek_start p) _ (Total-call _ (λ r. sought (is_ok r)) seeks (λ b a h e. tt))
        λ _. verify_from-Ends fuel base size 0 (omega arith) (omega arith)
