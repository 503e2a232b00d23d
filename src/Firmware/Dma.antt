-- ===== src/Firmware/Dma.antt =====
-- firmware/dma.c: DMA commands, and the transfer of a packet that lies in two buffers on the card,
-- the first 256 bytes in CTM and the rest in MU memory. A wait for signals has no counterpart: an
-- operation ends when the engine has signalled.
pub mod Contiguous
use Prim.Native.Nat.{bit_and, bit_or}
use nfp_udp_echo.Base.{ℕ, ◌+◌, ◌-◌, ◌*◌, ◌/◌, ◌%◌, ◌^◌, ltb, if◌then◌else◌}
use nfp_udp_echo.Base.Words.{u32, u64, sub32, add64}
use nfp_udp_echo.Firmware.Packet.{Pkt, PktInfo, pkt_nbi_offset, mac_prepend_bytes}
use nfp_udp_echo.Firmware.Platform.{Platform, DmaCmd, DmaQueue, Memories}

-- The micro-engine and context that run the code, and the number of the completion signal.
pub record Context : Type 0 where
  pub meid : ℕ
  pub ctx : ℕ
  pub signo : ℕ

-- `((meid & 0xF) << 13) | (((meid >> 4) & 0x3F) << 7) | ((ctx & 0x7) << 4) | signo`
unfoldable pub dma_mode : Context → ℕ
dma_mode t =
    bit_or
      (bit_or (bit_or (bit_and t.meid 0xf * 2 ^ 13) (bit_and (t.meid / 16) 0x3f * 2 ^ 7))
        (bit_and t.ctx 7 * 16))
      t.signo

unfoldable pub pcie_dma_desc_setup : Context → ℕ → ℕ → ℕ → DmaCmd
unfolding dma_mode
pcie_dma_desc_setup t len dev_addr_hi dev_addr_lo = record {
  mode = dma_mode t;
  cpp_token = 0;
  cpp_addr_hi = dev_addr_hi;
  cpp_addr_lo = dev_addr_lo;
  pcie_addr_hi = 0;
  pcie_addr_lo = 0;
  length = sub32 len 1;
}

unfoldable pub min : ℕ → ℕ → ℕ
min a b = if ltb a b then a else b

module _ (P : Platform) (t : Context) where
  unfoldable pub dma_op : DmaQueue → ℕ → ℕ → ℕ → Memories → Memories
  dma_op queue addr len pcie_addr m =
      let cmd = pcie_dma_desc_setup t len (u32 (addr / 2 ^ 32)) (u32 addr) in
      P.dma queue
        (record cmd { pcie_addr_hi = u32 (pcie_addr / 2 ^ 32); pcie_addr_lo = u32 pcie_addr }) m

  unfoldable pub dma_send : ℕ → ℕ → ℕ → Memories → Memories
  unfolding dma_op
  dma_send addr len pcie_addr m = dma_op DmaQueue.topci_hi addr len pcie_addr m

  unfoldable pub dma_recv : ℕ → ℕ → ℕ → Memories → Memories
  unfolding dma_op
  dma_recv addr len pcie_addr m = dma_op DmaQueue.frompci_hi addr len pcie_addr m

  -- `(muptr << 11) + 256`
  unfoldable pub mu_buffer : PktInfo → ℕ
  mu_buffer i = i.muptr * 2 ^ 11 % 2 ^ P.muptr_bits + 256

  -- The common end of `dma_packet_send` and `dma_packet_recv`.
  unfoldable pub transfer : DmaQueue → PktInfo → ℕ → ℕ → ℕ → Memories → Memories
  unfolding min
  transfer queue i offset len pcie_addr m =
      let ctm_transfer_len = min (256 - offset) len in
      let buf_transfer_len = sub32 len ctm_transfer_len in
      let m' = dma_op queue (P.pkt_ctm_ptr40 i.isl i.pnum offset) ctm_transfer_len pcie_addr m in
      if ltb 0 buf_transfer_len
      then dma_op queue (mu_buffer i) buf_transfer_len (add64 pcie_addr ctm_transfer_len) m'
      else m'

  unfoldable pub dma_packet_send : Pkt → ℕ → Memories → Memories
  unfolding transfer
  dma_packet_send pkt pcie_addr m =
      transfer DmaQueue.topci_hi pkt.nbi_meta.pkt_info (pkt_nbi_offset + 2 * mac_prepend_bytes)
        (sub32 pkt.nbi_meta.pkt_info.len (2 * mac_prepend_bytes)) pcie_addr m

  unfoldable pub dma_packet_recv : Pkt → ℕ → ℕ → Memories → Memories
  unfolding transfer
  dma_packet_recv pkt len pcie_addr m =
      transfer DmaQueue.frompci_hi pkt.nbi_meta.pkt_info (pkt_nbi_offset + mac_prepend_bytes) len
        pcie_addr m
