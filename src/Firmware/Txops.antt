-- ===== src/Firmware/Txops.antt =====
-- firmware/txops.c: allocating a packet and sending it. Both allocators of the library are called
-- until they succeed; `pkt_num` and `buf` are what they return then.
use nfp_udp_echo.Base.{ℕ, ◌+◌, ◌*◌, ◌^◌}
use nfp_udp_echo.Base.Memory.{Mem, write_bytes}
use nfp_udp_echo.Firmware.Packet.{Pkt, PktInfo, pkt_nbi_offset, mac_prepend_bytes}
use nfp_udp_echo.Firmware.Platform.{Platform}

-- firmware/config.h
abbrev pub port_to_channel : ℕ → ℕ
port_to_channel x = x * 2 ^ 3

-- What the library is told to send: the packet's buffers, the offset at which the MAC command and
-- the offset at which the modification script are written, the length, the queue and the sequence.
pub record NbiSend : Type 0 where
  pub isl : ℕ
  pub pnum : ℕ
  pub egress_cmd_at : ℕ
  pub msd_at : ℕ
  pub len : ℕ
  pub q_dst : ℕ
  pub seqr : ℕ
  pub seq : ℕ

module _ (P : Platform) (island : ℕ) where
  unfoldable pub allocate_packet : ℕ → ℕ → Pkt → Mem → Pkt × Mem
  allocate_packet pkt_num buf pkt card =
      let info = record (pkt.nbi_meta.pkt_info) {
        isl = island;
        pnum = pkt_num;
        bls = 0;
        muptr = buf;
        split = 1;
        len = 0;
      } in
      let meta = record (pkt.nbi_meta) { pkt_info = info } in
      (
        record pkt { nbi_meta = meta },
        write_bytes card (P.pkt_ctm_ptr40 island pkt_num 0) (P.nbi_meta_bytes meta),
      )

unfoldable pub send_packet : Pkt → NbiSend
send_packet pkt = record {
  isl = info.isl;
  pnum = info.pnum;
  egress_cmd_at = pkt_nbi_offset + mac_prepend_bytes;
  msd_at = pkt_nbi_offset;
  len = info.len;
  q_dst = port_to_channel 3;
  seqr = 0;
  seq = 0;
}
  where
    info : PktInfo
    info = pkt.nbi_meta.pkt_info
