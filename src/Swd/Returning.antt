-- ===== src/Swd/Returning.antt =====
-- The SWD master comes to an end: its loops are bounded, over a GPIO driver that returns.
use alonzo_bootloader_zephyr.Base.{
  ℕ, zero, suc, ◌≢◌, refl, Bool, true, false, ◌==◌, ⊤, Result, ok, err, no_return, eagain, eio,
  eproto, ebadmsg, enodev, bit_and, Exec, pure, raise, modify, ◌>>◌,
}
use alonzo_bootloader_zephyr.Base.Total.{
  Landing, Landing-if, Returning, Returning-bind, pure-Returning, raise-Returning, Total-if,
  Total-modify,
}
use alonzo_bootloader_zephyr.Swd.Ack
use alonzo_bootloader_zephyr.Swd.Wire.{
  Trace, Pin, Mode, Gpio, Link, swclk, swdio, output_low, input_pull_up,
}
use alonzo_bootloader_zephyr.Swd.{
  is_eagain, retry, max_retries, turnaround, write_bits, parity32, build_request, require_port,
  set_direction, check_ack, pin_configure, dir_output, dir_input, read_bits, receive, send, request,
  transaction, init, line_reset, read_raw, write_raw, read_dp, write_dp, read_ap, write_ap,
  read_idcode,
}
use alonzo_bootloader_zephyr.Swd.Port.{SwdPort, bit_banged}

-- A step that cannot fail.
Returning-modify :
    {S A : Type 0} (f : S → S) (n : Exec S A) → Returning n → Returning (modify f >> n)
Returning-modify f n h = Total-modify f n (λ s u. u) h

modify-Returning : {S : Type 0} (f : S → S) → Returning (modify f)
modify-Returning f = record { at = λ s u. tt }

require_port-Returning : Returning require_port
unfolding require_port
require_port-Returning = record {
  at = λ l u. Landing-if (λ _ _. Unit) l.has_port (pure tt l) (raise enodev l) tt tt;
}

check_ack-Returning : (ack : ℕ) → Returning (check_ack ack)
unfolding check_ack
check_ack-Returning ack =
    Total-if (ack == Ack.good) _ _ (λ _. pure-Returning tt)
      (λ _.
        Total-if (ack == Ack.wait) _ _ (λ _. raise-Returning eagain)
          (λ _.
            Total-if (ack == Ack.fault) (raise eio) (raise eproto) (λ _. raise-Returning eio)
              (λ _. raise-Returning eproto)))

module _ {S A : Type 0} where
  retry-Returning : (left : ℕ) (m : Exec S A) → Returning m → Returning (retry left m)
  unfolding retry
  retry-Returning zero m h = record { at = λ l u. tt }
  retry-Returning (suc left) m h = record {
    at = λ l u.
        let (r, l') = m l in
        Landing-if (λ _ _. Unit) (is_eagain r) (retry left m l') (r, l')
          ((retry-Returning left m h).at l' tt) (h.at l tt);
  }

module _ (gpio : Gpio)
    (configures : (t : Trace) (pin : Pin) (mode : Mode)
      → gpio.configures t pin mode ≢ no_return) where
  pin_configure-Returning : (pin : Pin) (mode : Mode) → Returning (pin_configure gpio pin mode)
  unfolding pin_configure
  pin_configure-Returning pin mode = record {
    at = λ l u. landed (gpio.configures l.trace pin mode) _ (configures l.trace pin mode);
  }
    where
      landed : (r : Result ⊤) (l : Link) → r ≢ no_return → Landing (λ _ _. Unit) (r, l)
      landed (ok a) l h = tt
      landed (err e) l h = tt
      landed no_return l h = h refl

  configured :
      (pin : Pin) (mode : Mode) (output : Bool)
      → Returning (pin_configure gpio pin mode >> set_direction output)
  unfolding set_direction
  configured pin mode output =
      Returning-bind (pin_configure gpio pin mode) _ (pin_configure-Returning pin mode)
        λ _. modify-Returning _

  dir_output-Returning : Returning (dir_output gpio)
  unfolding dir_output
  dir_output-Returning = record {
    at = λ l u.
        Landing-if (λ _ _. Unit) l.swdio_is_output (pure tt l) _ tt
          ((configured swdio output_low true).at l tt);
  }

  dir_input-Returning : Returning (dir_input gpio)
  unfolding dir_input
  dir_input-Returning = record {
    at = λ l u.
        Landing-if (λ _ _. Unit) l.swdio_is_output _ (pure tt l)
          ((configured swdio input_pull_up false).at l tt) tt;
  }

  read_bits-Returning : (count : ℕ) → Returning (read_bits gpio count)
  unfolding read_bits
  read_bits-Returning count = record { at = λ l u. tt }

  receive-Returning : Returning (receive gpio)
  unfolding receive
  receive-Returning = Returning-modify turnaround _ (
      Returning-bind (read_bits gpio 32) _ (read_bits-Returning 32) λ word.
        Returning-bind (read_bits gpio 1) _ (read_bits-Returning 1) λ parity.
          Returning-bind (dir_output gpio) _ dir_output-Returning λ _.
            Returning-modify turnaround _ (
              Total-if (parity32 word == bit_and parity 1) _ _ (λ _. pure-Returning word)
                (λ _. raise-Returning ebadmsg)))

  send-Returning : (word : ℕ) → Returning (send gpio word)
  unfolding send
  send-Returning word =
      Returning-bind (dir_output gpio) _ dir_output-Returning λ _. record { at = λ l u. tt }

  request-Returning :
      (apndp rnw : Bool) (addr : ℕ) (data_phase : Exec Link ℕ)
      → Returning data_phase
      → Returning (request gpio apndp rnw addr data_phase)
  unfolding request
  request-Returning apndp rnw addr data_phase h =
      Returning-bind require_port _ require_port-Returning λ _.
        Returning-bind (dir_output gpio) _ dir_output-Returning λ _.
          Returning-modify (write_bits (build_request apndp rnw addr) 8) _ (
            Returning-bind (dir_input gpio) _ dir_input-Returning λ _.
              Returning-modify turnaround _ (
                Returning-bind (read_bits gpio 3) _ (read_bits-Returning 3)
                  λ ack. Returning-bind (check_ack ack) _ (check_ack-Returning ack) λ _. h))

  read_raw-Returning : (apndp : Bool) (addr : ℕ) → Returning (read_raw gpio apndp addr)
  unfolding read_raw transaction
  read_raw-Returning apndp addr =
      retry-Returning max_retries _
        (request-Returning apndp true addr (receive gpio) receive-Returning)

  write_raw-Returning :
      (apndp : Bool) (addr value : ℕ) → Returning (write_raw gpio apndp addr value)
  unfolding write_raw transaction
  write_raw-Returning apndp addr value =
      Returning-bind (retry max_retries (request gpio apndp false addr (send gpio value))) _
        (retry-Returning max_retries _
          (request-Returning apndp false addr (send gpio value) (send-Returning value)))
        λ _. pure-Returning tt

  init-Returning : Returning (init gpio)
  unfolding init
  init-Returning = record {
    at = λ l u.
        let l' = record l { has_port = true } in
        Landing-if (λ _ _. Unit) (gpio.is_ready l'.trace) _ (raise enodev l')
          ((Returning-bind (pin_configure gpio swclk output_low) _
              (pin_configure-Returning swclk output_low)
              λ _. configured swdio input_pull_up false).at
            l' tt)
          tt;
  }

  line_reset-Returning : Returning (line_reset gpio)
  unfolding line_reset
  line_reset-Returning =
      Returning-bind require_port _ require_port-Returning
        λ _. Returning-bind (dir_output gpio) _ dir_output-Returning λ _. record { at = λ l u. tt }

-- The calls of a port that return.
pub record PortReturns {S : Type 0} (swd : SwdPort S) : Type 0 where
  pub init : Returning swd.init
  pub line_reset : Returning swd.line_reset
  pub read_dp : (addr : ℕ) → Returning (swd.read_dp addr)
  pub write_dp : (addr value : ℕ) → Returning (swd.write_dp addr value)
  pub read_ap : (addr : ℕ) → Returning (swd.read_ap addr)
  pub write_ap : (addr value : ℕ) → Returning (swd.write_ap addr value)
  pub read_idcode : Returning swd.read_idcode

-- Over a GPIO driver that returns, the module's calls return.
pub bit_banged-PortReturns :
    (gpio : Gpio)
    → ((t : Trace) (pin : Pin) (mode : Mode) → gpio.configures t pin mode ≢ no_return)
    → PortReturns (bit_banged gpio)
unfolding read_dp write_dp read_ap write_ap read_idcode
bit_banged-PortReturns gpio configures = record {
  init = init-Returning gpio configures;
  line_reset = line_reset-Returning gpio configures;
  read_dp = read_raw-Returning gpio configures false;
  write_dp = write_raw-Returning gpio configures false;
  read_ap = read_raw-Returning gpio configures true;
  write_ap = write_raw-Returning gpio configures true;
  read_idcode = read_raw-Returning gpio configures false _;
}
