-- ===== src/CoProcessor/Restoring.antt =====
-- USART2 gets its pins back, however an update of the co-processor ends.
use alonzo_bootloader_zephyr.Base.{
  ℕ, ◌≡◌, List, ◌∷◌, ⊤, Result, ok, err, no_return, is_ok, Exec, continue, settle, finish, finally,
  ◌>>◌,
}
use alonzo_bootloader_zephyr.Board.{Board, Trace, FilePath, Platform, unlinked, pins_restored}
use alonzo_bootloader_zephyr.Board.Drivers.{file_unlink, restore_usart2}
use alonzo_bootloader_zephyr.Swd.Port.{SwdPort}
use alonzo_bootloader_zephyr.Dap.Port.{DebugPort}
use alonzo_bootloader_zephyr.Flm.Format.{Image, Session}
use alonzo_bootloader_zephyr.CoProcessor.{load_flm, enter_swd, update_attached, update}

-- The pins were given back to USART2, and since then only files were deleted.
abbrev pub Restored : Trace → Type 0
Restored (pins_restored done ∷ t) = Unit
Restored (unlinked path done ∷ t) = Restored t
Restored _ = ⊥

-- What holds of the state if the call comes back, with a result or with an error.
abbrev pub AtEnd : {S A : Type 0} → (S → Type 0) → Result A × S → Type 0
AtEnd P (ok a, s) = P s
AtEnd P (err e, s) = P s
AtEnd P (no_return, s) = Unit

module _ {S : Type 0} (p : Platform) where
  abbrev Here : Board S → Type 0
  Here b = Restored b.trace

  settled :
      {A : Type 0} (r : Result A) (r' : Result ⊤) (b : Board S)
      → AtEnd Here (r, record b { trace = pins_restored (is_ok r') ∷ b.trace })
      → AtEnd Here (settle r (r', record b { trace = pins_restored (is_ok r') ∷ b.trace }))
  settled r (ok _) b h = h
  settled r (err e) b h = h
  settled r no_return b h = tt

  finished : {A : Type 0} (r : Result A) (b : Board S) → AtEnd Here (finish (restore_usart2 p) r b)
  unfolding restore_usart2
  finished (ok a) b = settled (ok a) (p.restore_pins b.trace) b tt
  finished (err e) b = settled (err e) (p.restore_pins b.trace) b tt
  finished no_return b = tt

  restored :
      {A : Type 0} (m : Exec (Board S) A) (b : Board S)
      → AtEnd Here (finally (restore_usart2 p) m b)
  restored m b = finished (m b).0 (m b).1

  next :
      {A B : Type 0} (f : A → Exec (Board S) B) (r : Result A) (b : Board S)
      → ((a : A) (b : Board S) → Here b → AtEnd Here (f a b))
      → AtEnd Here (r, b)
      → AtEnd Here (continue r f b)
  next f (ok a) b hf h = hf a b h
  next f (err e) b hf h = h
  next f no_return b hf h = tt

  came_back : {A : Type 0} (r : Result A) (b : Board S) → Here b → AtEnd Here (r, b)
  came_back (ok a) b h = h
  came_back (err e) b h = h
  came_back no_return b h = tt

  unlinking : (path : FilePath) (b : Board S) → Here b → AtEnd Here (file_unlink p path b)
  unfolding file_unlink
  unlinking path b h = came_back (p.unlink b.trace path) _ h

  cleaned_up :
      (m : Exec (Board S) ⊤) (ble_path flm_path : FilePath) (b : Board S)
      → AtEnd Here
          ((finally (restore_usart2 p) m >> (file_unlink p ble_path >> file_unlink p flm_path)) b)
  cleaned_up m ble_path flm_path b =
      let (r, b') = finally (restore_usart2 p) m b in
      next (λ _. file_unlink p ble_path >> file_unlink p flm_path) r b'
        (λ _ b1 h.
          let (r1, b2) = file_unlink p ble_path b1 in
          next (λ _. file_unlink p flm_path) r1 b2 (λ _. unlinking flm_path)
            (unlinking ble_path b1 h))
        (restored m b)

module _ {S : Type 0} (p : Platform) (swd : SwdPort S) (port : DebugPort S)
    (ram_base ram_size fuel : ℕ) where
  -- If the .FLM file has been read and the SWD link entered: when an update of the co-processor comes
  -- back, with success or with any error, the driver was told to give USART2 its pins back, and after
  -- that the board did nothing but delete files.
  pub update-Restored :
      (ble_path flm_path : FilePath) (b : Board (Session S)) (v : Image × List ℕ × List ℕ)
      → (load_flm p swd port fuel flm_path b).0 ≡ ok v
      → (enter_swd p swd port (load_flm p swd port fuel flm_path b).1).0 ≡ ok tt
      → AtEnd
          (λ (b : Board (Session S)). Restored b.trace)
          (update p swd port ram_base ram_size fuel ble_path flm_path b)
  unfolding update
  update-Restored ble_path flm_path b (img, code, section_data) loads enters =
      let b1 = (load_flm p swd port fuel flm_path b).1 in
      rw loads (
        rw enters (
          cleaned_up p
            (update_attached p swd port ram_base ram_size fuel ble_path img code section_data)
            ble_path flm_path (enter_swd p swd port b1).1))
