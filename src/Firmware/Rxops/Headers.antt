-- ===== src/Firmware/Rxops/Headers.antt =====
-- The packet's header in the card's memory: firmware/rxops.c.
use nfp_udp_echo.Base.{ℕ, ◌≡◌, sym, ap, ◌∙◌, List, length}
use nfp_udp_echo.Base.Memory.{Mem, read-write_self}
use nfp_udp_echo.Firmware.Packet.{Pkt, PktHdr, pkt_nbi_offset}
use nfp_udp_echo.Firmware.Platform.{Platform}
use nfp_udp_echo.Firmware.Rxops.{read_packet_header, write_packet_header}

-- A header that has been written is read back, whatever header the packet has by then, if a header
-- is given by its bytes.
pub read-write_packet_header :
    (P : Platform) (hdr_of : List ℕ → PktHdr) (hdr_size : ℕ) (pkt : Pkt) (hdr : PktHdr) (card : Mem)
    → length (P.hdr_bytes pkt.hdr) ≡ hdr_size
    → hdr_of (P.hdr_bytes pkt.hdr) ≡ pkt.hdr
    → read_packet_header P hdr_of hdr_size
        (record pkt { hdr = hdr })
        (write_packet_header P pkt card)
      ≡ pkt
unfolding read_packet_header write_packet_header
read-write_packet_header P hdr_of hdr_size pkt hdr card size back =
    let at = P.pkt_ctm_ptr40 pkt.nbi_meta.pkt_info.isl pkt.nbi_meta.pkt_info.pnum pkt_nbi_offset in
    ap (λ h. record pkt { hdr = h })
      (ap hdr_of (read-write_self card at (P.hdr_bytes pkt.hdr) hdr_size (sym size)) ∙ back)
