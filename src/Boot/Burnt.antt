-- ===== src/Boot/Burnt.antt =====
-- The boot that finds firmware.bin, from the card to the application.
use alonzo_bootloader_zephyr.Base.{
  ℕ, ◌<◌, ◌≡◌, Bool, true, List, ◌∷◌, ⊤, Result, ok, err, no_return, is_ok, pure, Exec,
  if◌then◌else◌,
}
use alonzo_bootloader_zephyr.Base.Hoare.{
  Post, Triple-if, Triple-bind, Triple-mono, Triple-pure, Keeps,
}
use alonzo_bootloader_zephyr.Base.Total.{Landing, Total}
use alonzo_bootloader_zephyr.Board.{Trace, Board, Platform, firmware_bin, ble_bin}
use alonzo_bootloader_zephyr.Board.Reading.{Offers}
use alonzo_bootloader_zephyr.Board.Calls.{Kept}
use alonzo_bootloader_zephyr.MemoryLayout.{app_offset, app_size}
use alonzo_bootloader_zephyr.Led.{led_init, led_all_off}
use alonzo_bootloader_zephyr.Board.Drivers.{read_event}
use alonzo_bootloader_zephyr.Tf.{tf_mount, tf_file_exists}
use alonzo_bootloader_zephyr.Swd.Port.{SwdPort}
use alonzo_bootloader_zephyr.Dap.Port.{DebugPort}
use alonzo_bootloader_zephyr.Dap.Memory.{Done}
use alonzo_bootloader_zephyr.Flm.Format.{Session}
use alonzo_bootloader_zephyr.FirmwareUpdate.{firmware_update}
use alonzo_bootloader_zephyr.FirmwareUpdate.Cell.{Burnt}
use alonzo_bootloader_zephyr.FirmwareUpdate.Image.{Returns}
use alonzo_bootloader_zephyr.FirmwareUpdate.Burning.{region_end, firmware_update-Burnt}
use alonzo_bootloader_zephyr.FirmwareUpdate.Region.{IsPaged}
use alonzo_bootloader_zephyr.Update.{Fr8016, exists, ble_update, update_apply}
use alonzo_bootloader_zephyr.Update.Order.{Maintains, exists-Kept, ble_update-Kept}
use alonzo_bootloader_zephyr.CoProcessor.{co_processor}
use alonzo_bootloader_zephyr.CoProcessor.Safety.{Tolerates, co_processor-Maintains}
use alonzo_bootloader_zephyr.Boot.Starting.{Idle, conclude-Kept}
use alonzo_bootloader_zephyr.Boot.{
  in_application, conclude, error_loop, update_if_mounted, try_update, main,
}

-- The contents of the flash, under calls to other drivers.
module _ (low high : ℕ) (file : List ℕ) where
  abbrev Image : Trace → Type 0
  Image t = Burnt low high file t

  Burnt-Idle : Idle Image
  Burnt-Idle = record {
    configures = λ id t h. record { image = h.image; margin = h.margin };
    sets = λ id on t h. record { image = h.image; margin = h.margin };
    irqs = λ t h. record { image = h.image; margin = h.margin };
    systick = λ t h. record { image = h.image; margin = h.margin };
    pending = λ t h. record { image = h.image; margin = h.margin };
    lines = λ i t h. record { image = h.image; margin = h.margin };
    table = λ a t h. record { image = h.image; margin = h.margin };
    stack = λ a t h. record { image = h.image; margin = h.margin };
    enters = λ a t h. record { image = h.image; margin = h.margin };
  }

  Burnt-reads : (r : Result (List ℕ)) (t : Trace) → Image t → Image (read_event r ∷ t)
  unfolding read_event
  Burnt-reads (ok bytes) t h = record { image = h.image; margin = h.margin }
  Burnt-reads (err e) t h = record { image = h.image; margin = h.margin }
  Burnt-reads no_return t h = record { image = h.image; margin = h.margin }

  Burnt-Tolerates : Tolerates Image
  Burnt-Tolerates = record {
    before = record {
      stats = λ path t h. record { image = h.image; margin = h.margin };
      opens = λ path done t h. record { image = h.image; margin = h.margin };
      reads = Burnt-reads;
      closes = λ t h. record { image = h.image; margin = h.margin };
      seeks = λ done t h. record { image = h.image; margin = h.margin };
      restores = λ done t h. record { image = h.image; margin = h.margin };
      toggles = λ id t h. record { image = h.image; margin = h.margin };
    };
    unlinks = λ path done t h. record { image = h.image; margin = h.margin };
  }

module _ {S A : Type 0} (Q : A → S → Type 0) where
  landed : (r : Result A) (s : S) → Landing Q (r, s) → Post Q (λ _. Unit) (r, s)
  landed (ok a) s q = q
  landed (err e) s q = tt
  landed no_return s q = absurd q

  -- A call that returns, and has a property when it succeeds.
  from_total : {P : S → Type 0} (m : Exec S A) → Total P m Q → Done P m Q
  from_total m h = record { at = λ s p. landed (m s).0 (m s).1 (h.at s p) }

module _ {T : Type 0} (p : Platform) (fr8016 : Fr8016 T) (selftest : Bool) (fuel size : ℕ)
    (returns : Returns p) (file : List ℕ) (offers : Offers p firmware_bin file)
    (paged : IsPaged p (app_offset size)) (enough : app_size size < fuel)
    (maintains : Maintains (Burnt (app_offset size) (region_end size) file) fr8016) where
  abbrev There : Trace → Type 0
  There t = Burnt (app_offset size) (region_end size) file t

  keeping :
      {A : Type 0} (m : Exec (Board T) A)
      → Keeps (Kept There) m
      → Done (Kept There) m (λ _. Kept There)
  keeping m h = Triple-mono m h (λ _ x. x) (λ _ _ x. x) (λ _ _. tt)

  first_update : (R : Board T → Type 0) → Done R (firmware_update p fuel size) (λ _. Kept There)
  first_update R =
      Triple-mono (firmware_update p fuel size)
        (from_total _ (firmware_update p fuel size)
          (firmware_update-Burnt p returns file offers fuel size paged enough))
        (λ _ _. tt) (λ _ _ h. h.0) (λ _ u. u)

  update_apply-Burnt :
      Done
        (λ (b : Board T). is_ok (p.stat b.trace firmware_bin) ≡ true)
        (update_apply p fr8016 selftest fuel size)
        (λ _. Kept There)
  unfolding update_apply exists tf_file_exists
  update_apply-Burnt =
      let stats = (Burnt-Tolerates (app_offset size) (region_end size) file).before.stats in
      Triple-bind {R = λ found _. found ≡ true} (exists p fr8016 firmware_bin) _
        (record { at = λ b h. h })
        λ found.
          Triple-bind {R = λ _. Kept There} (if found then firmware_update p fuel size else pure tt)
            _
            (Triple-if found (firmware_update p fuel size) (pure tt) (λ _. first_update _)
              (λ absent. record { at = λ b there. absurd cc }))
            λ _.
              Triple-bind {R = λ _. Kept There} (exists p fr8016 ble_bin) _
                (keeping _ (exists-Kept There stats p fr8016 ble_bin))
                λ found'.
                  Triple-if found' (ble_update p fr8016 selftest) (pure tt)
                    (λ _. keeping _ (ble_update-Kept There stats p fr8016 selftest maintains))
                    (λ _. Triple-pure tt (λ b h. h))

  concluded :
      (rc : Result ⊤) (b : Board T)
      → Post (λ _. Kept There) (λ _. Unit) (rc, b)
      → (conclude p size rc b).0 ≡ in_application
      → There (conclude p size rc b).1.trace
  unfolding conclude error_loop
  concluded (ok tt) b h e =
      conclude-Kept There (Burnt-Idle (app_offset size) (region_end size) file) p size (ok tt) b h
  concluded (err e) b h e' = cc
  concluded no_return b h e = cc

  main-Burnt :
      (b : Board T)
      → (tf_mount p (led_all_off p (led_init p b))).0 ≡ ok tt
      → is_ok (p.stat (tf_mount p (led_all_off p (led_init p b))).1.trace firmware_bin) ≡ true
      → (main p fr8016 selftest fuel size b).0 ≡ in_application
      → There (main p fr8016 selftest fuel size b).1.trace
  unfolding main try_update update_if_mounted
  main-Burnt b is_mounted found enters =
      let carded = (tf_mount p (led_all_off p (led_init p b))).1 in
      let (rc, updated) = update_apply p fr8016 selftest fuel size carded in
      rw is_mounted
        (concluded rc updated (update_apply-Burnt.at carded found) (rw is_mounted at enters))

module _ {S : Type 0} (p : Platform) (swd : SwdPort S) (port : DebugPort S)
    (ram_base ram_size update_fuel : ℕ) (selftest : Bool) (fuel bootloader_size : ℕ) where
  -- With the co-processor update of the repository, over any SWD and debug port: if the driver calls
  -- return, no flash page straddles the end of the bootloader, the file system serves firmware.bin,
  -- the fuel exceeds the size of the application region, the card is mounted, and firmware.bin is
  -- found on it, then a boot that enters the application leaves the bytes of the file at the start
  -- of the application region, each programmed once on an erased byte, and the rest of it erased.
  pub system-Burnt :
      (file : List ℕ) (b : Board (Session S))
      → Returns p
      → Offers p firmware_bin file
      → IsPaged p (app_offset bootloader_size)
      → app_size bootloader_size < fuel
      → (tf_mount p (led_all_off p (led_init p b))).0 ≡ ok tt
      → is_ok (p.stat (tf_mount p (led_all_off p (led_init p b))).1.trace firmware_bin) ≡ true
      → (main p
          (co_processor p swd port ram_base ram_size update_fuel)
          selftest
          fuel
          bootloader_size
          b).0
        ≡ in_application
      → Burnt
          (app_offset bootloader_size)
          (region_end bootloader_size)
          file
          (main p
            (co_processor p swd port ram_base ram_size update_fuel)
            selftest
            fuel
            bootloader_size
            b).1.trace
  system-Burnt file b returns offers paged enough is_mounted found enters =
      let low : ℕ = app_offset bootloader_size in
      let high : ℕ = region_end bootloader_size in
      main-Burnt p (co_processor p swd port ram_base ram_size update_fuel) selftest fuel
        bootloader_size returns file offers paged enough
        (co_processor-Maintains p swd port ram_base ram_size update_fuel (Burnt low high file)
          (Burnt-Tolerates low high file))
        b is_mounted found enters
