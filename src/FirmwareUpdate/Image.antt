-- ===== src/FirmwareUpdate/Image.antt =====
-- A self-update comes to an end, and a successful one leaves the file's bytes in the flash.
use mathlib.Core.Path.{subst}
use mathlib.Core.List.{append-nil, append_assoc}
use alonzo_bootloader_zephyr.Base.{
  ℕ, zero, suc, ◌+◌, ◌-◌, ◌≤◌, ◌<◌, ◌≡◌, ◌≢◌, refl, sym, ◌∙◌, ap, arith, ◌==◌, ltb, leb, List, [],
  ◌++◌, length, length-append, nil_of_length, pure, modify, ◌>>◌, Result, ok, err, no_return, is_ok,
}
use alonzo_bootloader_zephyr.Base.Total.{
  Landing, Total, Total-pure, Total-if, Total-bind, Total-modify,
}
use alonzo_bootloader_zephyr.Board.{
  Trace, Board, FilePath, firmware_bin, FlashPage, Platform, flash_erased, flash_written,
}
use alonzo_bootloader_zephyr.Board.Reading.{since_open, ReadTo, Offers}
use alonzo_bootloader_zephyr.Board.Calls.{Total-call, led_toggle_rule}
use alonzo_bootloader_zephyr.Led.{led_red, led_toggle}
use alonzo_bootloader_zephyr.FirmwareUpdate.{
  blink_period_ms, chunk_size, burn_blink, erase_loop, write_loop,
}
use alonzo_bootloader_zephyr.Board.Drivers.{
  read_event, file_read, uptime, flash_erase, flash_write, page_info,
}
use alonzo_bootloader_zephyr.FirmwareUpdate.Region.{IsPaged}
use alonzo_bootloader_zephyr.FirmwareUpdate.Cell.{Fresh, Burnt, erase-Fresh, write-Burnt}

-- The driver calls return.
pub record Returns (p : Platform) : Type 0 where
  pub stats : (path : FilePath) (t : Trace) → p.stat t path ≢ no_return
  pub opens : (path : FilePath) (t : Trace) → p.open_file t path ≢ no_return
  pub reads : (count : ℕ) (t : Trace) → p.read t count ≢ no_return
  pub closes : (t : Trace) → p.close t ≢ no_return
  pub unlinks : (path : FilePath) (t : Trace) → p.unlink t path ≢ no_return
  pub pages : (off : ℕ) → p.page_info off ≢ no_return
  pub erases : (off size : ℕ) (t : Trace) → p.erase t off size ≢ no_return
  pub writes : (off : ℕ) (bytes : List ℕ) (t : Trace) → p.write t off bytes ≢ no_return

module _ {T : Type 0} (p : Platform) (returns : Returns p) (low : ℕ) where
  -- The flash is erased up to `off`, and nothing is read yet.
  abbrev pub Blank : ℕ → Board T → Type 0
  Blank off b = Fresh b.trace low off × ReadTo firmware_bin [] b.trace

  flash_erase-Blank :
      (start size off : ℕ)
      → start ≤ off
      → Total (Blank off) (flash_erase p start size) (λ _. Blank (start + size))
  unfolding flash_erase
  flash_erase-Blank start size off le =
      Total-call _ (λ r. flash_erased start size (is_ok r)) (returns.erases start size)
        (λ b a h e. (erase-Fresh b.trace low off start size le h.0, h.1))

  module _ (paged : IsPaged p low) where
    found :
        (off : ℕ) (r : Result FlashPage)
        → p.page_info off ≡ r
        → (b : Board T) → Blank off b
        → Landing
            (λ info b.
              Blank off b × (info.start_offset ≤ off) × (off < info.start_offset + info.size))
            (r, b)
    found off (ok info) e b h = (h, (paged.contains off info e).0, (paged.contains off info e).1)
    found off (err _) e b h = tt
    found off no_return e b h = returns.pages off e

    erase_page :
        (fuel off end : ℕ) (info : FlashPage)
        → (off < info.start_offset + info.size
            → Total
                (Blank (info.start_offset + info.size))
                (erase_loop p fuel (info.start_offset + info.size) end)
                (λ _. Blank end))
        → Total
            (λ b. Blank off b × (info.start_offset ≤ off) × (off < info.start_offset + info.size))
            (flash_erase p info.start_offset info.size
              >> (modify (led_toggle p led_red)
                  >> erase_loop p fuel (info.start_offset + info.size) end))
            (λ _. Blank end)
    erase_page fuel off end info rest = record {
      at = λ b h.
          (Total-bind (flash_erase p info.start_offset info.size) _
              (flash_erase-Blank info.start_offset info.size off h.1)
              λ _.
                Total-modify _ _
                  (λ b' h'.
                    led_toggle_rule p (Blank (info.start_offset + info.size)) led_red b' h' h')
                  (rest h.2)).at
            b h.0;
    }

    -- A round erases at least one further byte.
    pub erase_loop-Blank :
        (fuel off end : ℕ)
        → 0 < fuel
        → end < off + fuel
        → Total (Blank off) (erase_loop p fuel off end) (λ _. Blank end)
    unfolding erase_loop page_info
    erase_loop-Blank zero off end some_fuel enough = absurd (omega arith)
    erase_loop-Blank (suc fuel) off end some_fuel enough =
        Total-if (ltb off end) _ (pure tt)
          (λ lt.
            let inside : off < end = ground arith in
            Total-bind (page_info p off) _
              (record { at = λ b h. found off (p.page_info off) refl b h })
              λ info. erase_page fuel off end info (λ further.
                erase_loop-Blank fuel (info.start_offset + info.size) end (omega arith)
                  (omega arith)))
          (λ ge.
            let past : end ≤ off = ground arith in
            Total-pure tt (λ b h. ((λ a lo hi. h.0 a lo (omega arith)), h.1)))

module _ {T : Type 0} (p : Platform) (returns : Returns p) (file : List ℕ)
    (serves : Offers p firmware_bin file) (low high : ℕ) where
  -- The bytes `done` have been read and stand in the flash.
  abbrev pub Copied : List ℕ → Board T → Type 0
  Copied done b = Burnt low high done b.trace × ReadTo firmware_bin done b.trace

  -- Some of `rest` has been read after `done`, and nothing only at the end of the file.
  record Fetched (done rest bytes : List ℕ) (b : Board T) : Type 0 where
    burnt : Burnt low high done b.trace
    now : ReadTo firmware_bin (done ++ bytes) b.trace
    next : (later : List ℕ) × (rest ≡ bytes ++ later)
    last : length bytes ≡ 0 → rest ≡ []

  file_read-Fetched :
      (done rest : List ℕ)
      → done ++ rest ≡ file
      → Total (Copied done) (file_read p chunk_size) (Fetched done rest)
  unfolding file_read read_event
  file_read-Fetched done rest whole =
      Total-call _ read_event (returns.reads chunk_size) (λ b bytes h e.
        let so_far : since_open b.trace ++ rest ≡ file = rw h.1.1 whole in
        record {
          burnt = record { image = h.0.image; margin = h.0.margin };
          now = (h.1.0, ap (λ xs. xs ++ bytes) h.1.1);
          next = serves.next b.trace chunk_size rest bytes h.1.0 so_far e;
          last = λ none_left.
              serves.last b.trace chunk_size rest (omega arith) h.1.0 so_far
                (rw (sym (nil_of_length bytes none_left)) e);
        })

  uptime-Copied : (done : List ℕ) → Total (Copied done) (uptime p) (λ _. Copied done)
  unfolding uptime
  uptime-Copied done = record {
    at = λ b h. (record { image = h.0.image; margin = h.0.margin }, h.1);
  }

  led_toggle-Copied :
      (done : List ℕ) (b : Board T) → Copied done b → Copied done (led_toggle p led_red b)
  led_toggle-Copied done b h =
      led_toggle_rule p (Copied done) led_red b h
        (record { image = h.0.image; margin = h.0.margin }, h.1)

  burn_blink-Copied :
      (done : List ℕ) (last : ℕ) → Total (Copied done) (burn_blink p last) (λ _. Copied done)
  unfolding burn_blink
  burn_blink-Copied done last = Total-bind (uptime p) _ (uptime-Copied done) λ now.
      Total-if (leb blink_period_ms (now - last)) (modify (led_toggle p led_red) >> pure now)
        (pure last) (λ _. Total-modify _ _ (led_toggle-Copied done) (Total-pure now (λ b h. h)))
        (λ _. Total-pure last (λ b h. h))

  flash_write-Copied :
      (done bytes : List ℕ) (off : ℕ)
      → off ≡ low + length done
      → off + length bytes ≤ high
      → Total
          (λ b. Burnt low high done b.trace × ReadTo firmware_bin (done ++ bytes) b.trace)
          (flash_write p off bytes)
          (λ _. Copied (done ++ bytes))
  unfolding flash_write
  flash_write-Copied done bytes off e fits =
      Total-call _ (λ r. flash_written off bytes (is_ok r)) (returns.writes off bytes)
        (λ b a h _. (rw e (write-Burnt low high done bytes b.trace (omega arith) h.0), h.1))

  module _ (within : low + length file ≤ high) where
    -- Every chunk is at least one byte of the file.
    pub write_loop-Burnt :
        (fuel off last : ℕ) (done rest : List ℕ)
        → done ++ rest ≡ file
        → off ≡ low + length done
        → length rest < fuel
        → Total (Copied done) (write_loop p fuel off last) (λ _ b. Burnt low high file b.trace)
    unfolding write_loop
    write_loop-Burnt zero off last done rest whole e enough = absurd (omega arith)
    write_loop-Burnt (suc fuel) off last done rest whole e enough =
        Total-bind (file_read p chunk_size) _ (file_read-Fetched done rest whole) λ bytes. record {
          at = λ b h.
              let (later, split) = h.next in
              let whole' : (done ++ bytes) ++ later ≡ file =
                append_assoc done bytes later ∙ ap (λ xs. done ++ xs) (sym split) ∙ whole in
              let size = ap length whole in
              let size_rest = ap length split in
              let sizes = length-append done rest in
              let sizes_rest = length-append bytes later in
              let sizes_done = length-append done bytes in
              (Total-if (length bytes == 0) (pure tt) _
                  (λ empty.
                    let at_end : rest ≡ [] = h.last (ground arith) in
                    let all : done ≡ file =
                      sym (append-nil done) ∙ ap (λ xs. done ++ xs) (sym at_end) ∙ whole in
                    Total-pure tt (λ b' h'. subst (λ xs. Burnt low high xs b'.trace) all h'.0))
                  (λ some_bytes.
                    let nonempty : 0 < length bytes = ground arith in
                    Total-bind (flash_write p off bytes) _
                      (flash_write-Copied done bytes off e (omega arith))
                      λ _.
                        Total-bind (burn_blink p last) _ (burn_blink-Copied (done ++ bytes) last)
                          λ last'.
                            write_loop-Burnt fuel (off + length bytes) last' (done ++ bytes) later
                              whole' (omega arith) (omega arith))).at
                b (h.burnt, h.now);
        }
