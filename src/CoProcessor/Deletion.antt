-- ===== src/CoProcessor/Deletion.antt =====
-- When an update of the co-processor deletes the two files.
use alonzo_bootloader_zephyr.Base.{
  ℕ, ◌≡◌, refl, ◌⊎◌, inl, inr, Bool, true, false, ◌∷◌, ⊤, Result, ok, err, no_return, is_ok, Errno,
  Exec, settle, finish, finally,
}
use alonzo_bootloader_zephyr.Base.Hoare.{Keeps, Post, Triple, Triple-bind, Triple-mono}
use alonzo_bootloader_zephyr.Board.{
  Board, Trace, FilePath, Platform, unlinked, pins_restored, on_target,
}
use alonzo_bootloader_zephyr.Board.Deleting.{AllThere, read_event-Spares}
use alonzo_bootloader_zephyr.Board.Drivers.{file_unlink, restore_usart2}
use alonzo_bootloader_zephyr.Swd.Port.{SwdPort}
use alonzo_bootloader_zephyr.Dap.Port.{DebugPort}
use alonzo_bootloader_zephyr.Flm.{on_core}
use alonzo_bootloader_zephyr.Flm.Format.{Session}
use alonzo_bootloader_zephyr.CoProcessor.{load_flm, enter_swd, update_attached, update}
use alonzo_bootloader_zephyr.CoProcessor.Recorded.{Permits, on_target-Kept, load_flm-Kept}
use alonzo_bootloader_zephyr.CoProcessor.Phases.{update_attached-Steady}

-- The two files have been deleted, after USART2 got its pins back.
abbrev pub BothDeleted : FilePath → FilePath → Trace → Type 0
BothDeleted ble_path flm_path t =
    (done : Bool) × (before : Trace) × (t
      ≡ unlinked flm_path true ∷ unlinked ble_path true ∷ pins_restored done ∷ before)
    × AllThere before

-- Only the image has been deleted: the deletion of the flash algorithm failed.
abbrev pub OneDeleted : FilePath → FilePath → Trace → Type 0
OneDeleted ble_path flm_path t =
    (before : Trace) × (t ≡ unlinked flm_path false ∷ unlinked ble_path true ∷ before)
    × AllThere before

Spares-Permits : Permits AllThere
Spares-Permits = record {
  stats = λ path t h. (tt, h);
  opens = λ path done t h. (tt, h);
  reads = λ r t h. (read_event-Spares r, h);
  closes = λ t h. (tt, h);
  seeks = λ done t h. (tt, h);
  restores = λ done t h. (tt, h);
  toggles = λ id t h. (tt, h);
}

-- The latest call gave USART2 its pins back, and no file has been deleted.
abbrev Restored : Trace → Type 0
Restored t = (done : Bool) × (before : Trace) × (t ≡ pins_restored done ∷ before) × AllThere before

module _ {S : Type 0} (p : Platform) (swd : SwdPort S) (port : DebugPort S)
    (ram_base ram_size fuel : ℕ) (ble_path flm_path : FilePath) where
  abbrev Failed : Board (Session S) → Type 0
  Failed b = AllThere b.trace ⊎ OneDeleted ble_path flm_path b.trace

  abbrev Here : Board (Session S) → Type 0
  Here b = AllThere b.trace

  keeping :
      {A : Type 0} (m : Exec (Board (Session S)) A)
      → Keeps Here m
      → Triple Here m (λ _. Here) Failed
  keeping m h = Triple-mono m h (λ _ x. x) (λ _ _ x. x) (λ _ x. inl x)

  settled :
      (done : Result ⊤) (b : Board (Session S))
      → Here b
      → Post
          (λ (_ : ⊤) b'. Restored b'.trace)
          Failed
          (settle (ok tt) (done, record b { trace = pins_restored (is_ok done) ∷ b.trace }))
  settled (ok _) b h = (true, b.trace, refl, h)
  settled (err e) b h = (false, b.trace, refl, h)
  settled no_return b h = inl (tt, h)

  stopped :
      (e : Errno) (done : Result ⊤) (b : Board (Session S))
      → Here b
      → Post
          (λ (_ : ⊤) b'. Restored b'.trace)
          Failed
          (settle (err e) (done, record b { trace = pins_restored (is_ok done) ∷ b.trace }))
  stopped e (ok _) b h = inl (tt, h)
  stopped e (err _) b h = inl (tt, h)
  stopped e no_return b h = inl (tt, h)

  -- After the clean-up the pins are restored.
  restored :
      (r : Result ⊤) (b : Board (Session S))
      → Post (λ _. Here) Here (r, b)
      → Post (λ _ b'. Restored b'.trace) Failed (finish (restore_usart2 p) r b)
  unfolding restore_usart2
  restored (ok _) b h = settled (p.restore_pins b.trace) b h
  restored (err e) b h = stopped e (p.restore_pins b.trace) b h
  restored no_return b h = inl h

  unlink_image :
      (r : Result ⊤) (b : Board (Session S))
      → Restored b.trace
      → Post
          (λ _ b'.
            (before : Trace) × (b'.trace ≡ unlinked ble_path true ∷ before) × Restored before)
          Failed
          (r, record b { trace = unlinked ble_path (is_ok r) ∷ b.trace })
  unlink_image (ok _) b h = (b.trace, refl, h)
  unlink_image (err e) b (done, before, e', h) = inl (rw e' (tt, (tt, h)))
  unlink_image no_return b (done, before, e', h) = inl (rw e' (tt, (tt, h)))

  unlink_algorithm :
      (r : Result ⊤) (b : Board (Session S))
      → (before : Trace) × (b.trace ≡ unlinked ble_path true ∷ before) × Restored before
      → Post
          (λ _ b'. BothDeleted ble_path flm_path b'.trace)
          Failed
          (r, record b { trace = unlinked flm_path (is_ok r) ∷ b.trace })
  unlink_algorithm (ok _) b (t, e, (done, before, e', h)) = (done, before, rw e (rw e' refl), h)
  unlink_algorithm (err _) b (t, e, (done, before, e', h)) = inr (t, rw e refl, rw e' (tt, h))
  unlink_algorithm no_return b (t, e, (done, before, e', h)) = inr (t, rw e refl, rw e' (tt, h))

  -- If no file was deleted before: an update that succeeds has deleted both files at its end, the
  -- image first, and after USART2 got its pins back; one that does not succeed has deleted neither,
  -- or the image only, where the deletion of the flash algorithm is what failed.
  pub update-deletes :
      Triple
        (λ (b : Board (Session S)). AllThere b.trace)
        (update p swd port ram_base ram_size fuel ble_path flm_path)
        (λ _ b. BothDeleted ble_path flm_path b.trace)
        (λ b. AllThere b.trace ⊎ OneDeleted ble_path flm_path b.trace)
  unfolding update enter_swd file_unlink
  update-deletes =
      Triple-bind (load_flm p swd port fuel flm_path) _
        (keeping _ (load_flm-Kept AllThere Spares-Permits p swd port fuel flm_path))
        λ (img, code, section_data).
          Triple-bind (on_target (on_core swd.init)) _
            (keeping _ (on_target-Kept AllThere Spares-Permits p swd port (on_core swd.init)))
            λ _.
              Triple-bind
                (finally (restore_usart2 p) (
                  update_attached p swd port ram_base ram_size fuel ble_path img code section_data))
                _
                (record {
                  at = λ b h.
                      let (r, b') =
                        update_attached p swd port ram_base ram_size fuel ble_path img code
                          section_data b in
                      restored r b' (
                        (update_attached-Steady AllThere Spares-Permits p swd port ram_base ram_size
                            fuel ble_path img code section_data).at
                          b h);
                })
                λ _.
                  Triple-bind (file_unlink p ble_path) _
                    (record { at = λ b h. unlink_image (p.unlink b.trace ble_path) b h })
                    λ _. record { at = λ b h. unlink_algorithm (p.unlink b.trace flm_path) b h }
