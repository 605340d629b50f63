-- ===== src/Tests/Dap.antt =====
-- A memory port that acknowledges everything, and instances of the theorems about memory accesses.
use alonzo_bootloader_zephyr.Base.{ℕ, ◌≡◌, arith, ap, ok, ◌==◌, if◌then◌else◌, pure}
use alonzo_bootloader_zephyr.Swd.Dp
use alonzo_bootloader_zephyr.Swd.Port.{SwdPort}
use alonzo_bootloader_zephyr.Dap.Register.{ap_csw, ap_tar}
use alonzo_bootloader_zephyr.Dap.{mem_read32, mem_write32}
use alonzo_bootloader_zephyr.Dap.Memory.{
  View, store, Done, IsMemAp, mem_read32-memory, mem_write32-memory,
}

abbrev word_written : ℕ → ℕ → View → View
word_written reg v s =
    if reg == ap_csw
    then record s { csw = v }
    else if reg == ap_tar
    then record s { tar = v }
    else record s { memory = store s.memory s.tar v }

abbrev pub memory_port : SwdPort View
memory_port = record {
  init = pure tt;
  line_reset = pure tt;
  read_dp = λ reg s. (ok s.posted, s);
  write_dp = λ reg v s. (ok tt, if reg == Dp.select then record s { selected = v } else s);
  read_ap = λ reg s. (ok s.posted, record s { posted = s.memory s.tar });
  write_ap = λ reg v s. (ok tt, word_written reg v s);
  read_idcode = pure 0;
  wait = λ us s. s;
}

pub memory_port-IsMemAp : IsMemAp memory_port (λ s. s) 0xe000_0000
memory_port-IsMemAp = record {
  write_select = λ w v. record { at = λ s e. ap (λ (x : View). record x { selected = v }) e };
  write_csw = λ w v _. record { at = λ s e. ap (λ (x : View). record x { csw = v }) e };
  write_tar = λ w v _. record { at = λ s e. ap (λ (x : View). record x { tar = v }) e };
  write_drw = λ w v _ _ _. record {
    at = λ s e. (w.tar, ap (λ (x : View). record x { memory = store x.memory x.tar v }) e);
  };
  read_drw = λ w _ _ _. record {
    at = λ s e. (w.tar, ap (λ (x : View). record x { posted = x.memory x.tar }) e);
  };
  read_rdbuff = λ w. record { at = λ s e. (ap (λ (x : View). x.posted) e, e) };
}

-- Word `a` of the memory is `a`.
abbrev pub counting : View
counting = record { selected = 1; csw = 0; tar = 0; posted = 0; memory = λ a. a }

mem_read32-memory_example :
    Done
      (λ s. s ≡ counting)
      (mem_read32 memory_port 0x20000000)
      (λ v s. (v ≡ 0x20000000) × (s.memory ≡ λ a. a))
mem_read32-memory_example =
    mem_read32-memory memory_port (λ s. s) 0xe000_0000 memory_port-IsMemAp 0x20000000 counting
      (omega arith)

mem_write32-memory_example :
    Done
      (λ s. s ≡ counting)
      (mem_write32 memory_port 0x20000000 7)
      (λ _ s. s.memory ≡ store (λ a. a) 0x20000000 7)
mem_write32-memory_example =
    mem_write32-memory memory_port (λ s. s) 0xe000_0000 memory_port-IsMemAp 0x20000000 7 counting
      (omega arith)
