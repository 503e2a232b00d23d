-- ===== src/Tests/Registers.antt =====
-- A card whose memory is bytes, and the start signal written to it.
use nfp_udp_echo.Base.{ℕ, ◌+◌, ◌/◌, ◌%◌, ◌^◌, ◌≤◌, ◌≡◌, ◌⊎◌, refl, sym, ap, ◌∙◌, arith}
use nfp_udp_echo.Base.Memory.{Mem, read_bytes, write_bytes, read-write_self, read-write_apart}
use nfp_udp_echo.Socket.Words.{to_le, of_le, length-to_le}
use nfp_udp_echo.Registers.{RteIo, IsRteIo, nn_readl, nn_readq}
use nfp_udp_echo.Registers.Halves.{Moment, state_at, nn_readq-nn_writeq, nn_writeq_untorn}

abbrev bytes_io : RteIo Mem
bytes_io = record {
  rte_read8 = λ addr s. s addr % 2 ^ 8;
  rte_write8 = λ val addr s. write_bytes s addr (to_le 1 val);
  rte_write16 = λ val addr s. write_bytes s addr (to_le 2 val);
  rte_read32 = λ addr s. of_le (read_bytes s addr 4) % 2 ^ 32;
  rte_write32 = λ val addr s. write_bytes s addr (to_le 4 val);
}

of_le-to_le_mod : (val : ℕ) → of_le (to_le 4 val) % 2 ^ 32 ≡ val % 2 ^ 32
unfolding of_le to_le
of_le-to_le_mod val = omega arith

bytes_io-IsRteIo : IsRteIo bytes_io
bytes_io-IsRteIo = record {
  read_bound = λ addr s. omega arith;
  read_same = λ val addr s.
      ap (λ bytes. of_le bytes % 2 ^ 32)
        (read-write_self s addr (to_le 4 val) 4 (sym (length-to_le 4 val)))
      ∙ of_le-to_le_mod val;
  read_other = λ val addr b s q.
      ap (λ bytes. of_le bytes % 2 ^ 32)
        (read-write_apart s addr (to_le 4 val) b 4 (ground (arith, length-to_le 4 val, q)));
}

abbrev zeros : Mem
zeros = λ a. 0

nn_readq-nn_writeq_example :
    (nn_readq bytes_io 40
        (state_at bytes_io bytes_io-IsRteIo 1 40 zeros Moment.after)
        (state_at bytes_io bytes_io-IsRteIo 1 40 zeros Moment.after)
      ≡ 1)
    × ((b : ℕ)
        → (40 + 8 ≤ b) ⊎ (b + 4 ≤ 40)
        → nn_readl bytes_io b (state_at bytes_io bytes_io-IsRteIo 1 40 zeros Moment.after)
          ≡ nn_readl bytes_io b zeros)
nn_readq-nn_writeq_example = nn_readq-nn_writeq bytes_io bytes_io-IsRteIo 1 40 zeros (omega arith)

signal_high : nn_readq bytes_io 40 zeros zeros / 2 ^ 32 ≡ 1 / 2 ^ 32
unfolding nn_readq of_le read_bytes
signal_high = refl

nn_writeq_untorn_example :
    (nn_readq bytes_io 40 zeros (state_at bytes_io bytes_io-IsRteIo 1 40 zeros Moment.between)
      ≡ nn_readq bytes_io 40 zeros zeros)
    ⊎ (nn_readq bytes_io 40 zeros (state_at bytes_io bytes_io-IsRteIo 1 40 zeros Moment.between)
        ≡ 1)
nn_writeq_untorn_example =
    nn_writeq_untorn bytes_io bytes_io-IsRteIo 1 40 zeros Moment.before Moment.between (omega arith)
      signal_high
