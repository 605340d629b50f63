-- ===== src/FirmwareUpdate/Recorded.antt =====
-- The calls of a self-update up to the deletion of the file.
use alonzo_bootloader_zephyr.Base.{
  All, ℕ, zero, suc, ◌+◌, ◌-◌, ◌≤◌, ◌≡◌, refl, arith, Bool, true, ◌||◌, ◌==◌, ltb, leb, List,
  length, Exec, efbig, pure, raise, modify, ◌>>◌, Result, ok, err, no_return, is_ok,
}
use alonzo_bootloader_zephyr.Base.Hoare.{
  Post, Triple, Keeps, Triple-pure, Triple-raise, Triple-if, Triple-bind, Triple-modify,
}
use alonzo_bootloader_zephyr.MemoryLayout.{app_offset, app_size}
use alonzo_bootloader_zephyr.Board.{
  Board, Event, FilePath, firmware_bin, FlashPage, Platform, opened, stated, closed, uptime_read,
  led_written, led_toggled, flash_erased, flash_written,
}
use alonzo_bootloader_zephyr.Board.Calls.{Kept, Keeps-call, led_toggle_rule, led_set_rule}
use alonzo_bootloader_zephyr.Led.{led_red, led_set, led_toggle}
use alonzo_bootloader_zephyr.FirmwareUpdate.{
  blink_period_ms, chunk_size, burn_blink, erase_loop, erase_app_region, write_loop, burn,
}
use alonzo_bootloader_zephyr.Board.Drivers.{
  read_event, file_open, file_size, file_read, file_close, uptime, flash_erase, flash_write,
  page_info,
}

-- The calls that a self-update makes before it deletes the file, where those to the flash are at or
-- behind the offset `low`.
pub record Permits (Allowed : Event → Type 0) (low : ℕ) : Type 0 where
  pub stats : (path : FilePath) → Allowed (stated path)
  pub opens : (path : FilePath) (done : Bool) → Allowed (opened path done)
  pub reads : (r : Result (List ℕ)) → Allowed (read_event r)
  pub closes : Allowed closed
  pub uptimes : Allowed uptime_read
  pub sets : (id : ℕ) (on : Bool) → Allowed (led_written id on)
  pub toggles : (id : ℕ) → Allowed (led_toggled id)
  pub erases : (off size : ℕ) (done : Bool) → low ≤ off → Allowed (flash_erased off size done)
  pub writes :
      (off : ℕ) (bytes : List ℕ) (done : Bool) → low ≤ off → Allowed (flash_written off bytes done)

-- No flash page straddles the offset `low`.
abbrev pub IsAligned : Platform → ℕ → Type 0
IsAligned p low =
    (off : ℕ) (page : FlashPage) → p.page_info off ≡ ok page → low ≤ off → low ≤ page.start_offset

module _ {T : Type 0} (Allowed : Event → Type 0) (low : ℕ) (permits : Permits Allowed low)
    (p : Platform) where
  abbrev Here : Board T → Type 0
  Here = Kept (All Allowed)

  abbrev Steady : {A : Type 0} → Exec (Board T) A → Type 0
  Steady m = Keeps Here m

  led_toggle-Kept : (id : ℕ) (b : Board T) → Here b → Here (led_toggle p id b)
  led_toggle-Kept id b h = led_toggle_rule p Here id b h (permits.toggles id, h)

  uptime-Kept : Steady (uptime p)
  unfolding uptime
  uptime-Kept = Keeps-call _ (λ _. uptime_read) (λ b r h. (permits.uptimes, h))

  pub file_open-Kept : (path : FilePath) → Steady (file_open p path)
  unfolding file_open
  file_open-Kept path =
      Keeps-call _ (λ r. opened path (is_ok r)) (λ b r h. (permits.opens path (is_ok r), h))

  file_size-Kept : (path : FilePath) → Steady (file_size p path)
  unfolding file_size
  file_size-Kept path = Keeps-call _ (λ _. stated path) (λ b r h. (permits.stats path, h))

  file_read-Kept : (count : ℕ) → Steady (file_read p count)
  unfolding file_read
  file_read-Kept count = Keeps-call _ read_event (λ b r h. (permits.reads r, h))

  pub file_close-Kept : Steady (file_close p)
  unfolding file_close
  file_close-Kept = Keeps-call _ (λ _. closed) (λ b r h. (permits.closes, h))

  flash_erase-Kept : (off size : ℕ) → low ≤ off → Steady (flash_erase p off size)
  unfolding flash_erase
  flash_erase-Kept off size le =
      Keeps-call _ (λ r. flash_erased off size (is_ok r))
        (λ b r h. (permits.erases off size (is_ok r) le, h))

  flash_write-Kept : (off : ℕ) (bytes : List ℕ) → low ≤ off → Steady (flash_write p off bytes)
  unfolding flash_write
  flash_write-Kept off bytes le =
      Keeps-call _ (λ r. flash_written off bytes (is_ok r))
        (λ b r h. (permits.writes off bytes (is_ok r) le, h))

  burn_blink-Kept : (last : ℕ) → Steady (burn_blink p last)
  unfolding burn_blink
  burn_blink-Kept last = Triple-bind (uptime p) _ uptime-Kept λ now.
      Triple-if (leb blink_period_ms (now - last)) (modify (led_toggle p led_red) >> pure now)
        (pure last) (λ _. Triple-modify _ _ (led_toggle-Kept led_red) (Triple-pure now (λ b h. h)))
        (λ _. Triple-pure last (λ b h. h))

  module _ (aligned : IsAligned p low) where
    found :
        (off : ℕ) (r : Result FlashPage)
        → low ≤ off
        → p.page_info off ≡ r
        → (b : Board T) → Here b
        → Post (λ info b. Here b × (low ≤ info.start_offset)) Here (r, b)
    found off (ok info) le e b h = (h, aligned off info e le)
    found off (err _) le e b h = h
    found off no_return le e b h = h

    page_info-Kept :
        (off : ℕ)
        → low ≤ off
        → Triple Here (page_info p off) (λ info b. Here b × (low ≤ info.start_offset)) Here
    unfolding page_info
    page_info-Kept off le = record { at = λ b h. found off (p.page_info off) le refl b h }

    -- A page is erased from its start, and the next round begins behind it.
    erase_page :
        (fuel off end : ℕ) (info : FlashPage)
        → (low ≤ info.start_offset + info.size
            → Steady (erase_loop p fuel (info.start_offset + info.size) end))
        → Triple
            (λ b. Here b × (low ≤ info.start_offset))
            (flash_erase p info.start_offset info.size
              >> (modify (led_toggle p led_red)
                  >> erase_loop p fuel (info.start_offset + info.size) end))
            (λ _. Here)
            Here
    erase_page fuel off end info rest = record {
      at = λ b h.
          (Triple-bind _ _ (flash_erase-Kept info.start_offset info.size h.1)
              λ _. Triple-modify _ _ (led_toggle-Kept led_red) (rest (omega arith))).at
            b h.0;
    }

    erase_loop-Kept : (fuel off end : ℕ) → low ≤ off → Steady (erase_loop p fuel off end)
    unfolding erase_loop
    erase_loop-Kept zero off end le = record { at = λ b h. h }
    erase_loop-Kept (suc fuel) off end le =
        Triple-if (ltb off end) _ (pure tt)
          (λ _. Triple-bind (page_info p off) _ (page_info-Kept off le) λ info.
            erase_page fuel off end info
              (λ le'. erase_loop-Kept fuel (info.start_offset + info.size) end le'))
          (λ _. Triple-pure tt (λ b h. h))

  write_loop-Kept : (fuel off last : ℕ) → low ≤ off → Steady (write_loop p fuel off last)
  unfolding write_loop
  write_loop-Kept zero off last le = record { at = λ b h. h }
  write_loop-Kept (suc fuel) off last le =
      Triple-bind (file_read p chunk_size) _ (file_read-Kept chunk_size) λ bytes.
        Triple-if (length bytes == 0) (pure tt) _ (λ _. Triple-pure tt (λ b h. h))
          λ _. Triple-bind (flash_write p off bytes) _ (flash_write-Kept off bytes le) λ _.
            Triple-bind (burn_blink p last) _ (burn_blink-Kept last)
              λ last'. write_loop-Kept fuel (off + length bytes) last' (omega arith)

module _ {T : Type 0} (Allowed : Event → Type 0) (low : ℕ) (permits : Permits Allowed low)
    (p : Platform) (aligned : IsAligned p low) (fuel bootloader_size : ℕ)
    (above : low ≤ app_offset bootloader_size) where
  pub burn-Kept : Keeps (Kept {T = T} (All Allowed)) (burn {T = T} p fuel bootloader_size)
  unfolding burn erase_app_region
  burn-Kept =
      let start = app_offset bootloader_size in
      Triple-bind (file_size p firmware_bin) _ (file_size-Kept Allowed low permits p firmware_bin)
        λ size.
          Triple-if (size == 0 || ltb (app_size bootloader_size) size) (raise efbig) _
            (λ _. Triple-raise efbig (λ b h. h))
            λ _.
              Triple-modify (led_set p led_red true) _
                (λ b h.
                  led_set_rule p (Kept {T = T} (All Allowed)) led_red true b h
                    (permits.sets led_red true, h))
                (Triple-bind (erase_app_region p fuel start (app_size bootloader_size)) _
                  (erase_loop-Kept Allowed low permits p aligned fuel start
                    (start + app_size bootloader_size) above)
                  λ _.
                    Triple-bind (uptime p) _ (uptime-Kept Allowed low permits p)
                      λ last. write_loop-Kept Allowed low permits p fuel start last above)
