-- ===== src/CoProcessor/Fetching.antt =====
-- Reading the .FLM file: the whole update comes to an end.
use mathlib.Core.List.{append_assoc}
use alonzo_bootloader_zephyr.Base.{
  ℕ, zero, suc, ◌+◌, ◌-◌, ◌≤◌, ◌<◌, ◌≡◌, ◌≢◌, refl, sym, ◌∙◌, ap, arith, ◌||◌, List, [], ◌++◌,
  length, length-append, whole_of_length, Result, ok, err, no_return, is_ok, efbig, eio, pure, lift,
  finally, ◌>>=◌, ◌==◌, ltb,
}
use alonzo_bootloader_zephyr.Base.Total.{
  Landing, Total, Returning, Total-pure, Total-raise, Total-if, Total-bind, Total-finally,
}
use alonzo_bootloader_zephyr.Base.Bytes.{drop}
use alonzo_bootloader_zephyr.Board.{Board, FilePath, Platform, opened, closed, stated}
use alonzo_bootloader_zephyr.Board.Reading.{since_open, ReadTo, Offers}
use alonzo_bootloader_zephyr.Board.Calls.{Total-call}
use alonzo_bootloader_zephyr.Board.Drivers.{read_event, file_size, file_open, file_read, file_close}
use alonzo_bootloader_zephyr.Swd.Port.{SwdPort}
use alonzo_bootloader_zephyr.Dap.Port.{DebugPort}
use alonzo_bootloader_zephyr.Flm.Format.{Image, Session}
use alonzo_bootloader_zephyr.FlmElf.{flm_elf_parse}
use alonzo_bootloader_zephyr.FirmwareUpdate.Image.{Returns}
use alonzo_bootloader_zephyr.CoProcessor.{flm_max_size, read_into, read_rest, read_file, load_flm}
use alonzo_bootloader_zephyr.CoProcessor.Ending.{ReadsBounded}

module _ {S : Type 0} (p : Platform) (swd : SwdPort S) (port : DebugPort S) (returns : Returns p)
    (bounded : ReadsBounded p) (path : FilePath) (file : List ℕ) (offers : Offers p path file) where
  -- The bytes `done` of the file have been read.
  abbrev ReadUpTo : List ℕ → Board (Session S) → Type 0
  ReadUpTo done b = ReadTo path done b.trace

  read_into-next :
      (done rest : List ℕ) (cap : ℕ)
      → done ++ rest ≡ file
      → length file ≤ cap
      → Total
          (ReadUpTo done)
          (read_into p swd port (cap - length done) (length file - length done))
          (λ bytes b. ReadUpTo (done ++ bytes) b × ((later : List ℕ) × (rest ≡ bytes ++ later)))
  unfolding read_into file_read read_event
  read_into-next done rest cap whole room =
      let count : ℕ = length file - length done in
      Total-bind
        {R = λ bytes b.
          (ReadUpTo (done ++ bytes) b × ((later : List ℕ) × (rest ≡ bytes ++ later)))
          × (length bytes ≤ count)}
        (file_read p count) _
        (Total-call _ read_event (returns.reads count) (λ b bytes h e.
          let so_far : since_open b.trace ++ rest ≡ file = rw h.1 whole in
          (
            ((h.0, ap (λ xs. xs ++ bytes) h.1), offers.next b.trace count rest bytes h.0 so_far e),
            bounded b.trace count bytes e,
          )))
        λ bytes.
          Total-if (ltb (cap - length done) (length bytes)) _ _
            (λ over. record { at = λ b h. absurd (ground (arith, h.1)) })
            (λ _. Total-pure bytes (λ b h. h.0))

  -- Every read gives a byte or more, or ends the loop.
  read_rest-whole :
      (fuel cap : ℕ) (done rest : List ℕ)
      → done ++ rest ≡ file
      → length file ≤ cap
      → length rest < fuel
      → Total
          (ReadUpTo done)
          (read_rest p swd port fuel cap (length file) done)
          (λ elf _. elf ≡ file)
  unfolding read_rest
  read_rest-whole zero cap done rest whole room enough = absurd (omega arith)
  read_rest-whole (suc fuel) cap done rest whole room enough =
      let sizes : length (done ++ rest) ≡ length file = ap length whole in
      let split : length (done ++ rest) ≡ length done + length rest = length-append done rest in
      Total-if (ltb (length done) (length file)) _ _
        (λ _.
          Total-bind (read_into p swd port (cap - length done) (length file - length done)) _
            (read_into-next done rest cap whole room)
            λ bytes.
              Total-if (length bytes == 0) _ _ (λ _. Total-raise eio)
                (λ some_bytes.
                  let some : 1 ≤ length bytes = ground arith in
                  record {
                    at = λ b h.
                        let (later, e) = h.1 in
                        let whole' : (done ++ bytes) ++ later ≡ file =
                          append_assoc done bytes later ∙ (ap (λ xs. done ++ xs) (sym e) ∙ whole) in
                        let size_rest = ap length e in
                        (read_rest-whole fuel cap (done ++ bytes) later whole' room
                            (omega (arith, size_rest, length-append bytes later))).at
                          b h.0;
                  }))
        (λ full.
          let most : length file ≤ length done = ground arith in
          let all : length done ≡ length file = omega arith in
          Total-pure done (λ b h. whole_of_length done rest file whole all))

  module _ (fuel : ℕ) (enough : length file < fuel) where
    opened_file : Total {S = Board (Session S)} (λ _. Unit) (file_open p path) (λ _. ReadUpTo [])
    unfolding file_open
    opened_file =
        Total-call _ (λ r. opened path (is_ok r)) (returns.opens path)
          (λ b a h e. ((refl, refl), refl))

    file_close-Returning : Returning {S = Board (Session S)} (file_close p)
    unfolding file_close
    file_close-Returning = Total-call _ (λ _. closed) returns.closes (λ b a h e. tt)

    read_file-whole :
        Total {S = Board (Session S)}
          (λ _. Unit)
          (read_file p swd port fuel path flm_max_size)
          (λ elf _. elf ≡ file)
    unfolding read_file file_size
    read_file-whole =
        Total-bind {R = λ size _. size ≡ length file} (file_size p path) _
          (Total-call _ (λ _. stated path) (returns.stats path)
            (λ b n h e. offers.size b.trace n e))
          λ size.
            Total-if (size == 0 || ltb flm_max_size size) _ _ (λ _. Total-raise efbig)
              (λ guard.
                let fits : size ≤ flm_max_size = ground arith in
                record {
                  at = λ b e.
                      let room : length file ≤ flm_max_size = rw e at fits in
                      let rest : Total (ReadUpTo [])
                          (finally (file_close p) (read_rest p swd port fuel flm_max_size size []))
                          (λ elf _. elf ≡ file) =
                        rw e (
                          Total-finally (file_close p) file_close-Returning (λ elf. elf ≡ file) _
                            (read_rest-whole fuel flm_max_size [] file refl room enough)) in
                      (Total-bind (file_open p path) _ opened_file λ _. rest).at b tt;
                })

    -- The parser runs on the whole file.
    pub load_flm-parses :
        flm_elf_parse file ≢ no_return
        → Total {S = Board (Session S)}
            (λ _. Unit)
            (load_flm p swd port fuel path)
            (λ (img, code, section_data) _.
              (c : ℕ) × (d : ℕ) × (flm_elf_parse file ≡ ok (img, c, d))
              × (code ≡ drop c file)
              × (section_data ≡ drop d file))
    unfolding load_flm
    load_flm-parses ends =
        Total-bind (read_file p swd port fuel path flm_max_size) _ read_file-whole
          λ elf. record { at = λ b e. rw e (parsed (flm_elf_parse file) refl b) }
      where
        Parsed : Image × List ℕ × List ℕ → Type 0
        Parsed (img, code, section_data) =
            (c : ℕ) × (d : ℕ) × (flm_elf_parse file ≡ ok (img, c, d))
            × (code ≡ drop c file)
            × (section_data ≡ drop d file)

        parsed :
            (r : Result (Image × ℕ × ℕ))
            → flm_elf_parse file ≡ r
            → (b : Board (Session S))
            → Landing
                (λ v _. Parsed v)
                ((do (img, c, d) ← lift r; pure (img, drop c file, drop d file)) b)
        parsed (ok (img, c, d)) e b = (c, d, e, refl, refl)
        parsed (err _) e b = tt
        parsed no_return e b = ends e
