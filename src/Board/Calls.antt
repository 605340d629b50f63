-- ===== src/Board/Calls.antt =====
-- Rules for driver calls and for the LED helpers.
use alonzo_bootloader_zephyr.Base.{
  ℕ, Bool, true, false, Result, ok, err, no_return, ltb, if◌then◌else◌, ◌≡◌, ◌≢◌, refl, Exec,
}
use alonzo_bootloader_zephyr.Base.Hoare.{Post-same, Keeps}
use alonzo_bootloader_zephyr.Base.Total.{Landing, Total}
use alonzo_bootloader_zephyr.Board.{
  Trace, Board, Event, Platform, emit, call, on_target, led_written, led_toggled,
}
use alonzo_bootloader_zephyr.Led.{led_set, led_toggle}

-- The record of the calls has the property.
abbrev pub Kept : {T : Type 0} → (Trace → Type 0) → Board T → Type 0
Kept P b = P b.trace

module _ {T : Type 0} where
  pub Keeps-call :
      {A : Type 0} {P : Board T → Type 0} (answer : Trace → Result A) (event : Result A → Event)
      → ((b : Board T) (r : Result A) → P b → P (emit (event r) b))
      → Keeps P (call answer event)
  Keeps-call {P} answer event h = record {
    at = λ b pre. Post-same P (answer b.trace) _ (h b (answer b.trace) pre);
  }

  -- A LED helper adds its call, or does nothing.
  pub led_toggle_rule :
      (p : Platform) (P : Board T → Type 0) (id : ℕ) (b : Board T)
      → P b
      → P (emit (led_toggled id) b)
      → P (led_toggle p id b)
  unfolding led_toggle
  led_toggle_rule p P id b same toggled = choose (ltb id 2) (p.led_ready id)
    where
      choose :
          (in_range ready : Bool)
          → P (if in_range then (if ready then emit (led_toggled id) b else b) else b)
      choose true true = toggled
      choose true false = same
      choose false ready = same

  pub led_set_rule :
      (p : Platform) (P : Board T → Type 0) (id : ℕ) (on : Bool) (b : Board T)
      → P b
      → P (emit (led_written id on) b)
      → P (led_set p id on b)
  unfolding led_set
  led_set_rule p P id on b same written = choose (ltb id 2) (p.led_ready id)
    where
      choose :
          (in_range ready : Bool)
          → P (if in_range then (if ready then emit (led_written id on) b else b) else b)
      choose true true = written
      choose true false = same
      choose false ready = same

  Landing-returned :
      {A : Type 0} (Q : A → Board T → Type 0) (r : Result A) (event : Result A → Event)
      (b : Board T)
      → r ≢ no_return
      → ((a : A) → r ≡ ok a → Q a (emit (event (ok a)) b))
      → Landing Q (r, emit (event r) b)
  Landing-returned Q (ok a) event b returns h = h a refl
  Landing-returned Q (err e) event b returns h = tt
  Landing-returned Q no_return event b returns h = absurd (returns refl)

  -- A driver call that returns.
  pub Total-call :
      {A : Type 0} {P : Board T → Type 0} {Q : A → Board T → Type 0} (answer : Trace → Result A)
      (event : Result A → Event)
      → ((t : Trace) → answer t ≢ no_return)
      → ((b : Board T) (a : A) → P b → answer b.trace ≡ ok a → Q a (emit (event (ok a)) b))
      → Total P (call answer event) Q
  Total-call {Q} answer event returns h = record {
    at =
        λ b pre. Landing-returned Q (answer b.trace) event b (returns b.trace) (λ a e. h b a pre e);
  }

  -- A step of the co-processor's side makes no call that is recorded here.
  pub Keeps-on_target :
      {A : Type 0} (P : Trace → Type 0) (m : Exec T A) → Keeps (λ b. P b.trace) (on_target m)
  Keeps-on_target P m = record {
    at = λ b pre. Post-same (λ (b : Board T). P b.trace) (m b.target).0 (on_target m b).1 pre;
  }
