-- ===== src/Echo/Meta.antt =====
-- devcfg.h: the structure on the card through which host and firmware speak to each other; and what
-- is fixed before the program runs: user/config.h and the two memory zones.
use nfp_udp_echo.Base.{ℕ, ◌+◌, ◌*◌, ◌^◌, ◌≤◌, ◌<◌, ◌≡◌, ◌⊎◌}

-- `struct device_meta_t`
pub record DeviceMeta : Type 0 where
  pub rx_buffer_iova : ℕ
  pub tx_buffer_iova : ℕ
  pub buffer_size : ℕ
  pub packet_size : ℕ
  pub start_signal : ℕ
  pub rx_head : ℕ
  pub rx_tail : ℕ
  pub tx_head : ℕ
  pub tx_tail : ℕ

-- The card's memory starts zeroed.
abbrev pub no_meta : DeviceMeta
no_meta = record {
  rx_buffer_iova = 0;
  tx_buffer_iova = 0;
  buffer_size = 0;
  packet_size = 0;
  start_signal = 0;
  rx_head = 0;
  rx_tail = 0;
  tx_head = 0;
  tx_tail = 0;
}

-- What the worker uses of `struct memzone`.
pub record Zone : Type 0 where
  pub iova : ℕ
  pub addr : ℕ

-- `UDP_PACKET_SIZE` and `RING_BUFFER_SIZE`, the zones `buffer_rx` and `buffer_tx`, and the kernel's
-- translation of the host's virtual addresses.
pub record Setup : Type 0 where
  pub udp_packet_size : ℕ
  pub ring_buffer_size : ℕ
  pub buffer_rx : Zone
  pub buffer_tx : Zone
  pub phys : ℕ → ℕ

-- A zone of `len` bytes is physically contiguous, from its I/O address on.
pub record IsContiguous (phys : ℕ → ℕ) (len : ℕ) (z : Zone) : Type 0 where
  pub translated : (i : ℕ) → i < len → phys (z.addr + i) ≡ z.iova + i
  pub reachable : z.iova + len ≤ 2 ^ 64

-- A buffer holds `n` packets of `p` bytes, and the two zones are different memory.
pub record IsSetup (S : Setup) (n p : ℕ) : Type 0 where
  pub some_entries : 0 < n
  pub some_bytes : 0 < p
  pub short : p ≤ 4096
  pub fits : n * p < 2 ^ 32
  pub packet_eq : S.udp_packet_size ≡ p
  pub ring_eq : S.ring_buffer_size ≡ n * p
  pub zone_rx : IsContiguous S.phys (n * p) S.buffer_rx
  pub zone_tx : IsContiguous S.phys (n * p) S.buffer_tx
  pub zones_apart :
      (S.buffer_rx.iova + n * p ≤ S.buffer_tx.iova) ⊎ (S.buffer_tx.iova + n * p ≤ S.buffer_rx.iova)
