-- ===== src/Swd.antt =====
-- src/fr8016/swd.c: the bit-banged SWD master, call by call. Printing is left out.
pub mod Wire
pub mod Dp
pub mod Ack
pub mod Request
pub mod Waveform
pub mod Sampling
pub mod Transaction
pub mod Retry
pub mod Port
pub mod Returning
use Wire.{
  Pin, swclk, swdio, Mode, output_low, input_pull_up, Event, configure, set_raw, get_raw, busy_wait,
  Gpio, Link,
}
use alonzo_bootloader_zephyr.Base.{
  ℕ, zero, suc, ◌+◌, bit_and, bit_or, bit_xor, ◌<<<◌, ◌>>>◌, u32, Bool, true, false, ◌∷◌, ⊤, Errno,
  eagain, ebadmsg, eio, enodev, eproto, etimedout, Result, ok, err, no_return, is_ok, Exec, pure,
  raise, modify, ◌>>=◌, ◌>>◌, ◌==◌, if◌then◌else◌, to_int,
}

-- SWD_CLK_HALF_PERIOD_US, SWD_MAX_RETRIES and SWD_SWITCH_SEQUENCE.
abbrev pub clk_half_period_us : ℕ
clk_half_period_us = 1

abbrev pub max_retries : ℕ
max_retries = 64

abbrev pub switch_sequence : ℕ
switch_sequence = 0xe79e

abbrev pub emit : Event → Link → Link
emit e l = record l { trace = e ∷ l.trace }

pub delay : Link → Link
delay = emit (busy_wait clk_half_period_us)

pub swclk_set : ℕ → Link → Link
swclk_set level = emit (set_raw swclk level)

unfoldable pub swdio_set : ℕ → Link → Link
swdio_set level = emit (set_raw swdio level)

unfoldable pub swclk_cycle : Link → Link
unfolding swclk_set delay
swclk_cycle l = delay (swclk_set 0 (delay (swclk_set 1 l)))

unfoldable pub turnaround : Link → Link
unfolding swclk_cycle
turnaround = swclk_cycle

-- The rounds of the loop that are left, and its index.
write_bits_from : ℕ → ℕ → ℕ → Link → Link
write_bits_from value zero i l = l
write_bits_from value (suc left) i l =
    write_bits_from value left (i + 1) (swclk_cycle (swdio_set (bit_and (value >>> i) 1) l))

unfoldable pub write_bits : ℕ → ℕ → Link → Link
unfolding write_bits_from
write_bits value count = write_bits_from value count 0

-- 1 if the 32 bits hold an odd number of ones.
unfoldable pub parity32 : ℕ → ℕ
parity32 v0 =
    let v1 = bit_xor v0 (v0 >>> 16) in
    let v2 = bit_xor v1 (v1 >>> 8) in
    let v3 = bit_xor v2 (v2 >>> 4) in
    let v4 = bit_xor v3 (v3 >>> 2) in let v5 = bit_xor v4 (v4 >>> 1) in bit_and v5 1

-- The request is sent from its lowest bit: start, APnDP, RnW, A2, A3, parity, stop, park.
assemble_request : ℕ → ℕ → ℕ → ℕ → ℕ
assemble_request apndp rnw a2 a3 =
    let parity = bit_xor (bit_xor (bit_xor (bit_xor apndp rnw) a2) a3) 1 in
    let fields0 = bit_or (bit_or 1 (apndp <<< 1)) (rnw <<< 2) in
    let fields1 = bit_or (bit_or fields0 (a2 <<< 3)) (a3 <<< 4) in
    bit_or (bit_or (bit_or fields1 (parity <<< 5)) (0 <<< 6)) (1 <<< 7)

unfoldable pub build_request : Bool → Bool → ℕ → ℕ
unfolding assemble_request
build_request apndp rnw addr =
    assemble_request (to_int apndp) (to_int rnw) (bit_and (addr >>> 2) 1) (bit_and (addr >>> 3) 1)

-- `swd_port == NULL` ends with -ENODEV.
require_port : Exec Link ⊤
require_port l = if l.has_port then pure tt l else raise enodev l

set_direction : Bool → Exec Link ⊤
set_direction output = modify (λ l. record l { swdio_is_output = output })

-- A non-zero answer counts as high, a negative error code too.
is_high : Result ℕ → Bool
is_high (ok level) = if level == 0 then false else true
is_high (err e) = true
is_high no_return = true

-- The `switch` on the acknowledge bits.
unfoldable pub check_ack : ℕ → Exec Link ⊤
check_ack ack =
    if ack == Ack.good
    then pure tt
    else if ack == Ack.wait
    then raise eagain
    else if ack == Ack.fault
    then raise eio
    else raise eproto

-- `value |= 1u << i` for a high answer.
set_bit : Bool → ℕ → ℕ → ℕ
set_bit high i value = if high then bit_or value (u32 (1 <<< i)) else value

abbrev pub is_eagain : {A : Type 0} → Result A → Bool
is_eagain (err eagain) = true
is_eagain _ = false

-- The `for` loop of `swd_read_raw` and `swd_write_raw`: it goes on while the result is -EAGAIN.
unfoldable pub retry : {S A : Type 0} → ℕ → Exec S A → Exec S A
retry zero m l = (err etimedout, l)
retry (suc left) m l =
    let (r, l') = m l in let rest = retry left m l' in if is_eagain r then rest else (r, l')

module _ (gpio : Gpio) where
  pin_configure : Pin → Mode → Exec Link ⊤
  pin_configure pin mode l =
      let r = gpio.configures l.trace pin mode in (r, emit (configure pin mode (is_ok r)) l)

  pub swdio_get : Link → Bool × Link
  unfolding is_high
  swdio_get l = (is_high (gpio.reads l.trace swdio), emit (get_raw swdio) l)

  unfoldable pub dir_output : Exec Link ⊤
  unfolding pin_configure set_direction
  dir_output l =
      if l.swdio_is_output
      then pure tt l
      else (do pin_configure swdio output_low; set_direction true) l

  unfoldable pub dir_input : Exec Link ⊤
  unfolding pin_configure set_direction
  dir_input l =
      if l.swdio_is_output
      then (do pin_configure swdio input_pull_up; set_direction false) l
      else pure tt l

  -- One round of the loop: the answer is taken while the clock is high.
  sample_cycle : Link → Bool × Link
  unfolding swclk_set delay swdio_get
  sample_cycle l =
      let (high, l') = swdio_get (delay (swclk_set 1 l)) in (high, delay (swclk_set 0 l'))

  read_bits_from : ℕ → ℕ → ℕ → Link → ℕ × Link
  read_bits_from zero i value l = (value, l)
  read_bits_from (suc left) i value l =
      let (high, l') = sample_cycle l in read_bits_from left (i + 1) (set_bit high i value) l'

  unfoldable pub read_bits : ℕ → Exec Link ℕ
  unfolding read_bits_from sample_cycle set_bit
  read_bits count l = let (value, l') = read_bits_from count 0 0 l in (ok value, l')

  -- The data phase of a read, and of a write.
  unfoldable pub receive : Exec Link ℕ
  receive = do
    modify turnaround
    word ← read_bits 32
    parity ← read_bits 1
    dir_output
    modify turnaround
    if parity32 word == bit_and parity 1 then pure word else raise ebadmsg

  unfoldable pub send : ℕ → Exec Link ℕ
  send word = do
    dir_output
    modify turnaround
    modify (write_bits word 32)
    modify (write_bits (parity32 word) 1)
    modify (swdio_set 0)
    pure word

  -- The request and the acknowledge of a transaction, and then its data phase.
  request : Bool → Bool → ℕ → Exec Link ℕ → Exec Link ℕ
  unfolding require_port
  request apndp rnw addr data_phase = do
    require_port
    dir_output
    modify (write_bits (build_request apndp rnw addr) 8)
    dir_input
    modify turnaround
    ack ← read_bits 3
    check_ack ack
    data_phase

  -- The result is what `*data` holds after a return of 0.
  unfoldable pub transaction : Bool → Bool → ℕ → ℕ → Exec Link ℕ
  unfolding request
  transaction apndp rnw addr word = request apndp rnw addr (if rnw then receive else send word)

  unfoldable pub init : Exec Link ⊤
  unfolding pin_configure set_direction
  init l =
      let l' = record l { has_port = true } in
      if gpio.is_ready l'.trace
      then (do
        pin_configure swclk output_low
        pin_configure swdio input_pull_up
        set_direction false)
          l'
      else raise enodev l'

  cycles : ℕ → Link → Link
  cycles zero l = l
  cycles (suc n) l = cycles n (swclk_cycle l)

  unfoldable pub line_reset : Exec Link ⊤
  unfolding require_port cycles
  line_reset = do
    require_port
    dir_output
    modify (swdio_set 1)
    modify (cycles 51)
    modify (write_bits switch_sequence 16)
    modify (swdio_set 1)
    modify (cycles 51)
    modify (swdio_set 0)
    modify swclk_cycle
    modify swclk_cycle

  unfoldable pub read_raw : Bool → ℕ → Exec Link ℕ
  read_raw apndp addr = retry max_retries (transaction apndp true addr 0)

  unfoldable pub write_raw : Bool → ℕ → ℕ → Exec Link ⊤
  write_raw apndp addr value = do retry max_retries (transaction apndp false addr value); pure tt

  pub read_dp : ℕ → Exec Link ℕ
  read_dp addr = read_raw false addr

  pub write_dp : ℕ → ℕ → Exec Link ⊤
  write_dp addr value = write_raw false addr value

  pub read_ap : ℕ → Exec Link ℕ
  read_ap addr = read_raw true addr

  pub write_ap : ℕ → ℕ → Exec Link ⊤
  write_ap addr value = write_raw true addr value

  pub read_idcode : Exec Link ℕ
  read_idcode = read_dp Dp.dpidr

  pub selftest : Exec Link ⊤
  selftest = do init; line_reset; read_idcode; pure tt
