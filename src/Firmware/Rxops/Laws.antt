-- ===== src/Firmware/Rxops/Laws.antt =====
-- The filter and the header rewriting of firmware/rxops.c.
use nfp_udp_echo.Base.{ℕ, ◌+◌, ◌^◌, ◌<◌, ◌≡◌, ◌⊎◌, ◌↔◌, arith, ◌==◌, if◌then◌else◌}
use nfp_udp_echo.Firmware.Packet.{Pkt}
use nfp_udp_echo.Firmware.Platform.{Platform}
use nfp_udp_echo.Firmware.Rxops.{allow, filter_packets, modify_packet_header}

module _ (P : Platform) (packet_size : ℕ) (pkt : Pkt) where
  -- A packet passes the filter exactly if it is an IPv4 packet, carries UDP or ICMP, and has the
  -- configured size behind its 8 bytes of MAC prepend.
  pub filter_packets_iff :
      packet_size + 8 < 2 ^ 32
      → pkt.nbi_meta.pkt_info.len < 2 ^ 32
      → (filter_packets P packet_size pkt ≡ allow) ↔ (
          (pkt.hdr.eth.type ≡ P.net_eth_type_ipv4)
          × ((pkt.hdr.ip.proto ≡ P.net_ip_proto_udp) ⊎ (pkt.hdr.ip.proto ≡ P.net_ip_proto_icmp))
          × (pkt.nbi_meta.pkt_info.len ≡ packet_size + 8))
  unfolding filter_packets
  filter_packets_iff hp hl = ground arith

  -- The rewritten packet has the same verdict, length and buffers.
  pub filter-modify :
      filter_packets P packet_size (modify_packet_header P pkt) ≡ filter_packets P packet_size pkt
  unfolding filter_packets modify_packet_header
  filter-modify = ground arith

module _ (P : Platform) (pkt : Pkt) where
  -- Rewriting goes back and forth: the echo of the echo of a packet is the packet, but for the type
  -- of an ICMP packet, which is then "echo reply".
  pub modify-modify : modify_packet_header P (modify_packet_header P pkt) ≡ record pkt {
    hdr =
        if pkt.hdr.ip.proto == P.net_ip_proto_icmp
        then record (pkt.hdr) {
          l4 = record (pkt.hdr.l4) { icmp_type = P.net_icmp_type_echo_reply };
        }
        else pkt.hdr;
  }
  unfolding modify_packet_header
  modify-modify = ground arith
