-- ===== src/Tests/Firmware.antt =====
-- Packets on the card: one that lies in both buffers, and verdicts.
use nfp_udp_echo.Base.{◌+◌, ◌≡◌, inl, arith}
use nfp_udp_echo.Base.Memory.{read_bytes, write_bytes}
use nfp_udp_echo.Firmware.Packet.{Pkt, PktInfo}
use nfp_udp_echo.Firmware.Platform.{Memories}
use nfp_udp_echo.Firmware.Dma.{dma_packet_send, dma_packet_recv}
use nfp_udp_echo.Firmware.Dma.Contiguous.{
  packet_view, InRange, dma_packet_send_lem, dma_packet_recv_lem,
}
use nfp_udp_echo.Tests.Platform.{card, card-IsNfp, context, udp_packet}

-- 200 bytes behind the prepend: 184 in CTM, 16 in MU memory.
abbrev long : PktInfo
long = record { isl = 1; pnum = 2; bls = 0; muptr = 9; split = 1; len = 208 }

abbrev packet : Pkt
packet = record udp_packet { nbi_meta = record (udp_packet.nbi_meta) { pkt_info = long } }

abbrev memories : Memories
memories = record { card = λ a. a; host = λ a. a + 1 }

packet-InRange : InRange card long 200 1000
packet-InRange = record {
  some_bytes = omega arith;
  short = omega arith;
  ctm_fits = omega arith;
  mu_fits = omega arith;
  host_fits = omega arith;
}

dma_packet_send_lem_example : dma_packet_send card context packet 1000 memories ≡ record memories {
  host = write_bytes memories.host 1000 (read_bytes (packet_view card memories.card long) 72 200);
}
dma_packet_send_lem_example =
    dma_packet_send_lem card card-IsNfp context packet 200 1000 memories (omega arith)
      packet-InRange

dma_packet_recv_lem_example :
    ((dma_packet_recv card context packet 200 1000 memories).host ≡ memories.host)
    × (read_bytes
          (packet_view card (dma_packet_recv card context packet 200 1000 memories).card long)
          68
          200
        ≡ read_bytes memories.host 1000 200)
dma_packet_recv_lem_example =
    dma_packet_recv_lem card card-IsNfp context packet 200 1000 memories packet-InRange
      (inl (omega arith))
