-- ===== src/Tests/Platform.antt =====
-- A small card for the tests: packet number `k` has its CTM buffer at `4096 * k`, the DMA engine
-- copies as documented, and headers are laid out by their first fields.
use nfp_udp_echo.Base.{◌+◌, ◌*◌, refl, [], ◌∷◌, arith}
use nfp_udp_echo.Base.Memory.{read_bytes, write_bytes}
use nfp_udp_echo.Firmware.Packet.{Pkt, PktInfo, PktHdr}
use nfp_udp_echo.Firmware.Platform.{
  Platform, IsNfp, DmaQueue, topci_hi, frompci_hi, DmaCmd, Memories, cpp_addr, pcie_addr,
}
use nfp_udp_echo.Firmware.Dma.{Context}

abbrev copy : DmaQueue → DmaCmd → Memories → Memories
copy topci_hi c m = record m {
  host = write_bytes m.host (pcie_addr c) (read_bytes m.card (cpp_addr c) (c.length + 1));
}
copy frompci_hi c m = record m {
  card = write_bytes m.card (cpp_addr c) (read_bytes m.host (pcie_addr c) (c.length + 1));
}

abbrev pub card : Platform
card = record {
  pkt_ctm_ptr40 = λ island pnum offset. 4096 * pnum + offset;
  muptr_bits = 40;
  net_eth_type_ipv4 = 0x800;
  net_ip_proto_udp = 17;
  net_ip_proto_icmp = 1;
  net_icmp_type_echo_reply = 0;
  hdr_bytes = λ h. 0 ∷ 0 ∷ 0 ∷ 0 ∷ 0 ∷ 0 ∷ 0 ∷ 0 ∷ h.eth.dst ∷ h.eth.src ∷ h.ip.dst ∷ h.ip.src ∷ [];
  nbi_meta_bytes = λ m. m.pkt_info.pnum ∷ [];
  dma = copy;
}

pub card-IsNfp : IsNfp card
card-IsNfp = record {
  ctm_contiguous = λ i n o. omega arith;
  dma_topci = λ c m h. refl;
  dma_frompci = λ c m h. refl;
}

abbrev pub context : Context
context = record { meid = 5; ctx = 0; signo = 3 }

abbrev info : PktInfo
info = record { isl = 1; pnum = 2; bls = 0; muptr = 9; split = 0; len = 12 }

abbrev hdr : PktHdr
hdr = record {
  mac_timestamp = 0;
  mac_prepend = 0;
  eth = record { dst = 0xa1; src = 0xb2; type = 0x800 };
  ip = record { proto = 17; src = 0xc3; dst = 0xd4; others = [] };
  l4 = record { icmp_type = 8; others = [] };
  pad = [];
}

-- A UDP packet of 4 bytes behind its prepend, in buffers 2 and 9.
abbrev pub udp_packet : Pkt
udp_packet = record {
  nbi_meta = record { pkt_info = info; seqr = 0; seq = 7; others = [] };
  hdr = hdr;
}
