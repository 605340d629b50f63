-- ===== src/Swd/Transaction.antt =====
-- A whole SWD transaction on the wire: which bits the host drives, how many clock cycles it takes,
-- and what holds after an error.
use mathlib.Core.Path.{subst}
use mathlib.Core.Bool.{false≢true}
use mathlib.Core.List.{reverse_aux}
use alonzo_bootloader_zephyr.Base.{
  ℕ, ◌+◌, ◌≡◌, refl, sym, ◌∙◌, arith, Bool, true, false, List, ◌∷◌, ⊤, ◌==◌, eagain, ebadmsg, eio,
  eproto, Exec, Result, ok, err, no_return, is_ok, continue,
}
use alonzo_bootloader_zephyr.Base.Hoare.{
  Post, Post-if, Post-mono, Triple, Triple-pure, Triple-raise, Triple-if, Triple-bind,
  Triple-modify, Triple-mono,
}
use alonzo_bootloader_zephyr.Swd.{
  emit, swclk_cycle, parity32, build_request, require_port, set_direction, check_ack, pin_configure,
  dir_output, dir_input, turnaround, request, receive, send, transaction,
}
use alonzo_bootloader_zephyr.Swd.Ack
use alonzo_bootloader_zephyr.Swd.Wire.{swdio, output_low, input_pull_up, configure, Gpio, Link}
use alonzo_bootloader_zephyr.Swd.Waveform.{
  data_level, IsIdle, Has, bits_of, swclk_cycle-Has, swclk_cycle-released, swdio_set-Has,
  write_bits-Has,
}
use alonzo_bootloader_zephyr.Swd.Sampling.{read_bits-Has}

-- Idle, in whichever direction.
abbrev pub IsReady : ℕ → List ℕ → Link → Type 0
IsReady n bits l = Has l.swdio_is_output n bits l

-- In output mode, with SWDIO low.
record HasTaken (n : ℕ) (bits : List ℕ) (l : Link) : Type 0 where
  has : Has true n bits l
  low : data_level l.trace ≡ 0

after_output :
    (n : ℕ) (bits : List ℕ) (r : Result ⊤) (l : Link)
    → Has false n bits l
    → Post
        (λ _. HasTaken n bits)
        IsIdle
        (continue r (λ _. set_direction true) (emit (configure swdio output_low (is_ok r)) l))
unfolding set_direction
after_output n bits (ok _) l h = ground arith
after_output n bits (err e) l h = ground arith
after_output n bits no_return l h = ground arith

after_input :
    (n : ℕ) (bits : List ℕ) (r : Result ⊤) (l : Link)
    → Has true n bits l
    → Post
        (λ _. Has false n bits)
        IsIdle
        (continue r (λ _. set_direction false) (emit (configure swdio input_pull_up (is_ok r)) l))
unfolding set_direction
after_input n bits (ok _) l h = ground arith
after_input n bits (err e) l h = ground arith
after_input n bits no_return l h = ground arith

ready_at :
    {n : ℕ} {bits : List ℕ} (l : Link) (output : Bool)
    → l.swdio_is_output ≡ output
    → IsReady n bits l
    → Has output n bits l
ready_at l output e h = record {
  idle = h.idle;
  direction = e;
  clock_edges = h.clock_edges;
  driven = h.driven;
}

-- The turnaround after taking the line drives it low.
turnaround-HasTaken :
    (n : ℕ) (bits : List ℕ) (l : Link)
    → HasTaken n bits l
    → Has true (n + 1) (0 ∷ bits) (turnaround l)
unfolding turnaround
turnaround-HasTaken n bits l t =
    subst (λ b. Has true (n + 1) (b ∷ bits) (swclk_cycle l)) t.low (swclk_cycle-Has n bits l t.has)

module _ (gpio : Gpio) (n : ℕ) (bits : List ℕ) where
  dir_output-HasTaken : Triple (Has false n bits) (dir_output gpio) (λ _. HasTaken n bits) IsIdle
  unfolding dir_output pin_configure
  dir_output-HasTaken = record {
    at = λ l h.
        Post-if _ _ l.swdio_is_output _ _ (λ e. absurd (false≢true (sym h.direction ∙ e)))
          (λ _. after_output n bits (gpio.configures l.trace swdio output_low) l h);
  }

  dir_input-Has : Triple (Has true n bits) (dir_input gpio) (λ _. Has false n bits) IsIdle
  unfolding dir_input pin_configure
  dir_input-Has = record {
    at = λ l h.
        Post-if _ _ l.swdio_is_output _ _
          (λ _. after_input n bits (gpio.configures l.trace swdio input_pull_up) l h)
          (λ e. absurd (false≢true (sym e ∙ h.direction)));
  }

  dir_output-Has : Triple (IsReady n bits) (dir_output gpio) (λ _. Has true n bits) IsIdle
  unfolding dir_output pin_configure
  dir_output-Has = record {
    at = λ l h.
        Post-if _ _ l.swdio_is_output _ _ (λ e. ready_at l true e h)
          (λ e.
            Post-mono {Q = λ _. HasTaken n bits} {E = IsIdle} _ _ (λ _ _ t. t.has) (λ _ i. i)
              (after_output n bits (gpio.configures l.trace swdio output_low) l
                (ready_at l false e h)));
  }

abbrev pub word_bits : ℕ → List ℕ → List ℕ
word_bits word bits = reverse_aux (bits_of (parity32 word) 1) (reverse_aux (bits_of word 32) bits)

clocks46 : (n : ℕ) → n + 8 + 1 + 3 + 1 + 32 + 1 ≡ n + 46
clocks46 n = omega arith

clocks47 : (n : ℕ) → n + 8 + 1 + 3 + 1 + 32 + 1 + 1 ≡ n + 47
clocks47 n = omega arith

released :
    (n : ℕ) (bits : List ℕ) (l : Link) → Has false n bits l → Has false (n + 1) bits (turnaround l)
unfolding turnaround
released = swclk_cycle-released

module _ (gpio : Gpio) where
  send-Has :
      (word n : ℕ) (bits : List ℕ)
      → Triple
          (Has false n bits)
          (send gpio word)
          (λ r l. (r ≡ word) × Has true (n + 1 + 32 + 1) (word_bits word (0 ∷ bits)) l)
          IsIdle
  unfolding send
  send-Has word n bits = Triple-bind _ _ (dir_output-HasTaken gpio n bits) λ _.
      Triple-modify _ _ (λ l t. turnaround-HasTaken n bits l t)
        (Triple-modify _ _ (write_bits-Has word 32 (n + 1) (0 ∷ bits)) (
          Triple-modify _ _ (write_bits-Has (parity32 word) 1 (n + 1 + 32) _) (
            Triple-modify _ _ (swdio_set-Has (n + 1 + 32 + 1) _ 0)
              (Triple-pure word λ l h. (refl, h)))))

  receive-Has :
      (n : ℕ) (bits : List ℕ)
      → Triple
          (Has false n bits)
          (receive gpio)
          (λ _. Has true (n + 1 + 32 + 1 + 1) (0 ∷ bits))
          IsIdle
  unfolding receive
  receive-Has n bits = Triple-modify _ _ (released n bits) (
      Triple-bind _ _ (read_bits-Has gpio 32 (n + 1) bits) λ word.
        Triple-bind _ _ (read_bits-Has gpio 1 (n + 1 + 32) bits) λ parity.
          Triple-bind _ _ (dir_output-HasTaken gpio (n + 1 + 32 + 1) bits) λ _.
            Triple-modify _ _ (turnaround-HasTaken (n + 1 + 32 + 1) bits) (
              Triple-if _ _ _ (λ _. Triple-pure word (λ l h. h))
                (λ _. Triple-raise ebadmsg (λ l h. h.idle))))

  require_port-keeps :
      (n : ℕ) (bits : List ℕ) → Triple (IsReady n bits) require_port (λ _. IsReady n bits) IsIdle
  unfolding require_port
  require_port-keeps n bits = record {
    at = λ l h. Post-if (λ _. IsReady n bits) IsIdle l.has_port _ _ (λ _. h) (λ _. h.idle);
  }

  check_ack-keeps :
      (ack n : ℕ) (bits : List ℕ)
      → Triple (Has false n bits) (check_ack ack) (λ _. Has false n bits) IsIdle
  unfolding check_ack
  check_ack-keeps ack n bits =
      Triple-if (ack == Ack.good) _ _ (λ _. Triple-pure tt (λ l h. h))
        λ _.
          Triple-if (ack == Ack.wait) _ _ (λ _. Triple-raise eagain (λ l h. h.idle))
            λ _.
              Triple-if (ack == Ack.fault) _ _ (λ _. Triple-raise eio (λ l h. h.idle))
                λ _. Triple-raise eproto (λ l h. h.idle)

  -- The request and the acknowledge, before the data phase `rest`.
  request-Has :
      (apndp rnw : Bool) (addr n : ℕ) (bits : List ℕ) (rest : Exec Link ℕ) {Q : ℕ → Link → Type 0}
      → Triple
          (Has false (n + 8 + 1 + 3) (reverse_aux (bits_of (build_request apndp rnw addr) 8) bits))
          rest
          Q
          IsIdle
      → Triple (IsReady n bits) (request gpio apndp rnw addr rest) Q IsIdle
  unfolding request
  request-Has apndp rnw addr n bits rest h = Triple-bind _ _ (require_port-keeps n bits) λ _.
      Triple-bind _ _ (dir_output-Has gpio n bits) λ _.
        Triple-modify _ _ (write_bits-Has (build_request apndp rnw addr) 8 n bits) (
          Triple-bind _ _ (dir_input-Has gpio (n + 8) _) λ _.
            Triple-modify _ _ (released (n + 8) _) (
              Triple-bind _ _ (read_bits-Has gpio 3 (n + 8 + 1) _)
                λ ack. Triple-bind _ _ (check_ack-keeps ack (n + 8 + 1 + 3) _) λ _. h))

  -- From an idle link, a write that returns 0 has driven the eight bits of the request, one low bit
  -- for the turnaround, the 32 bits of the word and its parity bit, each field from its lowest bit
  -- and nothing else, in 46 clock cycles, and leaves the link idle in output mode; on an error the
  -- link is idle.
  pub write_transaction-Has :
      (apndp : Bool) (addr word n : ℕ) (bits : List ℕ)
      → Triple
          (IsReady n bits)
          (transaction gpio apndp false addr word)
          (λ r l.
            (r ≡ word)
            × Has true
                (n + 46)
                (word_bits word (0 ∷ reverse_aux (bits_of (build_request apndp false addr) 8) bits))
                l)
          IsIdle
  unfolding transaction
  write_transaction-Has apndp addr word n bits = request-Has apndp false addr n bits _ (
      Triple-mono _ (send-Has word (n + 8 + 1 + 3) _) (λ _ h. h)
        (λ r l h. (h.0, rw (clocks46 n) at h.1)) (λ _ i. i))

  -- From an idle link, a read that returns 0 has driven the eight bits of its request and one low
  -- bit for the last turnaround and nothing else, in 47 clock cycles, and leaves the link idle in
  -- output mode; on an error the link is idle.
  pub read_transaction-Has :
      (apndp : Bool) (addr word n : ℕ) (bits : List ℕ)
      → Triple
          (IsReady n bits)
          (transaction gpio apndp true addr word)
          (λ _.
            Has true (n + 47) (0 ∷ reverse_aux (bits_of (build_request apndp true addr) 8) bits))
          IsIdle
  unfolding transaction
  read_transaction-Has apndp addr word n bits = request-Has apndp true addr n bits _ (
      Triple-mono _ (receive-Has (n + 8 + 1 + 3) _) (λ _ h. h) (λ r l h. rw (clocks47 n) at h)
        (λ _ i. i))
