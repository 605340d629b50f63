-- ===== src/Tests/Swd.antt =====
-- Runs of the SWD master, and instances of its theorems.
use mathlib.Core.List.{reverse_aux}
use alonzo_bootloader_zephyr.Base.{
  ℕ, zero, suc, ◌%◌, ◌≡◌, refl, arith, true, false, [], ◌∷◌, ok, err, etimedout,
}
use alonzo_bootloader_zephyr.Base.Hoare.{Triple}
use alonzo_bootloader_zephyr.Bits.{count_ones}
use alonzo_bootloader_zephyr.Swd.{
  parity32, build_request, write_bits, read_bits, transaction, is_eagain, read_raw, write_raw, send,
  receive, check_ack, dir_output, dir_input, turnaround, swclk_cycle, swdio_set,
}
use alonzo_bootloader_zephyr.Swd.Wire.{swdio, output_low, configure, Trace, Link}
use alonzo_bootloader_zephyr.Swd.Request.{Decodes, parity32-eq-count_ones, build_request-Decodes}
use alonzo_bootloader_zephyr.Swd.Waveform.{IsIdle, Has, bits_of}
use alonzo_bootloader_zephyr.Swd.Sampling.{window, read_bits-roundtrip}
use alonzo_bootloader_zephyr.Swd.Transaction.{
  IsReady, word_bits, write_transaction-Has, read_transaction-Has,
}
use alonzo_bootloader_zephyr.Swd.Retry.{Waits, runs, read_raw-answered, write_raw-timeout}
use alonzo_bootloader_zephyr.Tests.Fixtures.{
  ok_stream, busy_target, target, target-Answers, released,
}

-- A write to CTRL/STAT that is acknowledged, and one that is not.
write_runs : (transaction (target ok_stream) false false 4 0x5000_0000 released).0 ≡ ok 0x5000_0000
unfolding transaction send write_bits read_bits check_ack dir_output dir_input turnaround
    swclk_cycle swdio_set parity32 build_request
write_runs = refl

-- The request for a read of DPIDR.
dpidr_request : build_request false true 0 ≡ 0x85
unfolding build_request
dpidr_request = refl

parity32-eq-count_ones_example : parity32 0x8000_0103 ≡ count_ones 32 0x8000_0103 % 2
parity32-eq-count_ones_example = parity32-eq-count_ones 0x8000_0103

build_request-Decodes_example : Decodes (build_request true false 0xc) 1 0 1 1
build_request-Decodes_example = build_request-Decodes true false 0xc

-- SWDIO has been made an output.
abbrev driving : Link
driving = record {
  has_port = true;
  swdio_is_output = true;
  trace = configure swdio output_low true ∷ [];
}

driving-Has : Has true 0 [] driving
driving-Has = ground arith

released-Has : Has false 0 [] released
released-Has = ground arith

read_bits-roundtrip_example : (read_bits (target ok_stream) 3 released).0 ≡ ok 1
unfolding window bits_of
read_bits-roundtrip_example =
    read_bits-roundtrip (target ok_stream) ok_stream (target-Answers ok_stream) 3 1 released
      (omega arith) (omega arith) refl

write_transaction-Has_example :
    Triple
      (IsReady 0 [])
      (transaction (target ok_stream) true false 4 7)
      (λ r l.
        (r ≡ 7)
        × Has true 46 (word_bits 7 (0 ∷ reverse_aux (bits_of (build_request true false 4) 8) [])) l)
      IsIdle
write_transaction-Has_example = write_transaction-Has (target ok_stream) true 4 7 0 []

read_transaction-Has_example :
    Triple
      (IsReady 0 [])
      (transaction (target ok_stream) false true 0 0)
      (λ _. Has true 47 (0 ∷ reverse_aux (bits_of (build_request false true 0) 8) []))
      IsIdle
read_transaction-Has_example = read_transaction-Has (target ok_stream) false 0 0 0 []

none_waits_lem : Waits 0 (transaction (target ok_stream) false true 0 0) released
none_waits_lem j h = elim h [ ]

read_raw-answered_example :
    read_raw (target ok_stream) false 0 released
    ≡ transaction (target ok_stream) false true 0 0 released
unfolding transaction receive write_bits read_bits check_ack dir_output dir_input turnaround
    swclk_cycle swdio_set parity32 build_request
read_raw-answered_example =
    read_raw-answered (target ok_stream) false 0 released 0 (omega arith) none_waits_lem refl

at_trace : Trace → Link
at_trace t = record { has_port = true; swdio_is_output = false; trace = t }

busy_waits :
    (j : ℕ) (t : Trace)
    → is_eagain
        (transaction busy_target false false 8 0
          (runs j (transaction busy_target false false 8 0) (at_trace t))).0
      ≡ true
unfolding transaction write_bits read_bits check_ack dir_output dir_input turnaround swclk_cycle
    swdio_set build_request at_trace
busy_waits zero t = refl
busy_waits (suc j) t = busy_waits j (transaction busy_target false false 8 0 (at_trace t)).1.trace

released-Waits : Waits 64 (transaction busy_target false false 8 0) released
unfolding at_trace
released-Waits j h = busy_waits j []

write_raw-timeout_example :
    write_raw busy_target false 8 0 released
    ≡ (err etimedout, runs 64 (transaction busy_target false false 8 0) released)
write_raw-timeout_example = write_raw-timeout busy_target false 8 released 0 released-Waits
