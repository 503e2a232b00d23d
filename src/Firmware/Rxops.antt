-- ===== src/Firmware/Rxops.antt =====
-- firmware/rxops.c: receiving, filtering, rewriting and freeing a packet.
pub mod Laws
pub mod Headers
use nfp_udp_echo.Base.{ℕ, ◌*◌, Bool, not, List, [], ◌∷◌, ◌++◌, ◌==◌, ◌||◌, if◌then◌else◌}
use nfp_udp_echo.Base.Words.{sub32}
use nfp_udp_echo.Base.Memory.{Mem, read_bytes, write_bytes}
use nfp_udp_echo.Firmware.Packet.{Pkt, PktInfo, PktHdr, NbiMeta, pkt_nbi_offset, mac_prepend_bytes}
use nfp_udp_echo.Firmware.Platform.{Platform}

-- What `filter_packets` returns.
pub data Verdict : Type 0 where
  allow drop : Verdict

-- Calls of the card's library that give buffers back: `blm_buf_free(muptr, bls)`,
-- `pkt_ctm_free(isl, pnum)`, and `pkt_nbi_drop_seq` with the packet's place in the sequencer.
pub data Release : Type 0 where
  blm_buf_free : ℕ → ℕ → Release
  pkt_ctm_free : ℕ → ℕ → Release
  pkt_nbi_drop_seq : ℕ → ℕ → ℕ → ℕ → ℕ → Release

module _ (P : Platform) where
  -- The hardware hands over `xfer_pkt`; the result is the packet and its address in CTM.
  unfoldable pub receive_packet_with_hdrs : Pkt → Pkt × ℕ
  receive_packet_with_hdrs xfer_pkt = (xfer_pkt, P.pkt_ctm_ptr40 info.isl info.pnum pkt_nbi_offset)
    where
      info : PktInfo
      info = xfer_pkt.nbi_meta.pkt_info

  -- The same without the headers, which stay as they were in `pkt`.
  unfoldable pub receive_packet : NbiMeta → Pkt → Pkt × ℕ
  receive_packet nbi_meta pkt = (
    record pkt { nbi_meta = nbi_meta },
    P.pkt_ctm_ptr40 nbi_meta.pkt_info.isl nbi_meta.pkt_info.pnum pkt_nbi_offset,
  )

  -- `hdr_of` gives a `struct pkt_hdr_t`, of `hdr_size` bytes, by its bytes.
  unfoldable pub read_packet_header : (List ℕ → PktHdr) → ℕ → Pkt → Mem → Pkt
  read_packet_header hdr_of hdr_size pkt card =
      let at =
        P.pkt_ctm_ptr40 pkt.nbi_meta.pkt_info.isl pkt.nbi_meta.pkt_info.pnum pkt_nbi_offset in
      record pkt { hdr = hdr_of (read_bytes card at hdr_size) }

  unfoldable pub write_packet_header : Pkt → Mem → Mem
  write_packet_header pkt card =
      write_bytes card
        (P.pkt_ctm_ptr40 pkt.nbi_meta.pkt_info.isl pkt.nbi_meta.pkt_info.pnum pkt_nbi_offset)
        (P.hdr_bytes pkt.hdr)

  unfoldable pub filter_packets : ℕ → Pkt → Verdict
  filter_packets packet_size pkt =
      if not (pkt.hdr.eth.type == P.net_eth_type_ipv4)
      then drop
      else if not
          (pkt.hdr.ip.proto == P.net_ip_proto_udp || pkt.hdr.ip.proto == P.net_ip_proto_icmp)
      then drop
      else if not (sub32 pkt.nbi_meta.pkt_info.len (2 * mac_prepend_bytes) == packet_size)
      then drop
      else allow

  unfoldable pub swap_addresses : PktHdr → PktHdr
  swap_addresses h = record h {
    eth = record (h.eth) { dst = h.eth.src; src = h.eth.dst };
    ip = record (h.ip) { dst = h.ip.src; src = h.ip.dst };
  }

  unfoldable pub modify_packet_header : Pkt → Pkt
  unfolding swap_addresses
  modify_packet_header pkt =
      let hdr = swap_addresses pkt.hdr in
      record pkt {
        hdr =
            if hdr.ip.proto == P.net_ip_proto_icmp
            then record hdr { l4 = record (hdr.l4) { icmp_type = P.net_icmp_type_echo_reply } }
            else hdr;
      }

unfoldable pub free_packet : Pkt → List Release
free_packet pkt = blm_buf_free info.muptr info.bls ∷ pkt_ctm_free info.isl info.pnum ∷ []
  where
    info : PktInfo
    info = pkt.nbi_meta.pkt_info

unfoldable pub drop_packet : Pkt → List Release
unfolding free_packet
drop_packet pkt =
    free_packet pkt
    ++ (pkt_nbi_drop_seq info.isl info.pnum info.len pkt.nbi_meta.seqr pkt.nbi_meta.seq ∷ [])
  where
    info : PktInfo
    info = pkt.nbi_meta.pkt_info
