-- ===== src/Firmware/Platform.antt =====
-- What the firmware takes from the card's library and hardware, which the repository does not hold:
-- addresses of packet buffers, the DMA engine, the layout of the headers, protocol numbers.
use nfp_udp_echo.Base.{ℕ, ◌+◌, ◌*◌, ◌^◌, ◌≡◌, ◌<◌, List}
use nfp_udp_echo.Base.Memory.{Mem, read_bytes, write_bytes}
use nfp_udp_echo.Firmware.Packet.{PktHdr, NbiMeta}

-- `struct nfp_pcie_dma_cmd`, with the fields that dma.c fills.
pub record DmaCmd : Type 0 where
  pub mode : ℕ
  pub cpp_token : ℕ
  pub cpp_addr_hi : ℕ
  pub cpp_addr_lo : ℕ
  pub pcie_addr_hi : ℕ
  pub pcie_addr_lo : ℕ
  pub length : ℕ

-- The two queues that dma.c uses.
pub data DmaQueue : Type 0 where
  topci_hi frompci_hi : DmaQueue

-- Memory of the card, by 40-bit address, and of the host, by I/O address.
pub record Memories : Type 0 where
  pub card : Mem
  pub host : Mem

pub record Platform : Type 0 where
  -- `pkt_ctm_ptr40(island, packet number, offset)`
  pub pkt_ctm_ptr40 : ℕ → ℕ → ℕ → ℕ
  -- the width of the type of `pkt_info.muptr`, in which it is shifted
  pub muptr_bits : ℕ
  pub net_eth_type_ipv4 : ℕ
  pub net_ip_proto_udp : ℕ
  pub net_ip_proto_icmp : ℕ
  pub net_icmp_type_echo_reply : ℕ
  -- the bytes of `struct pkt_hdr_t` and of `struct nbi_meta_catamaran`
  pub hdr_bytes : PktHdr → List ℕ
  pub nbi_meta_bytes : NbiMeta → List ℕ
  -- what the DMA engine does with a command, once its signals have come
  pub dma : DmaQueue → DmaCmd → Memories → Memories

abbrev pub cpp_addr : DmaCmd → ℕ
cpp_addr c = c.cpp_addr_hi * 2 ^ 32 + c.cpp_addr_lo

abbrev pub pcie_addr : DmaCmd → ℕ
pcie_addr c = c.pcie_addr_hi * 2 ^ 32 + c.pcie_addr_lo

-- The documented behaviour: a CTM buffer is contiguous, and the engine moves `length + 1` bytes, at
-- most 4096 of them.
pub record IsNfp (P : Platform) : Type 0 where
  pub ctm_contiguous : (i n o : ℕ) → P.pkt_ctm_ptr40 i n o ≡ P.pkt_ctm_ptr40 i n 0 + o
  pub dma_topci :
      (c : DmaCmd) (m : Memories)
      → c.length < 4096
      → P.dma DmaQueue.topci_hi c m ≡ record m {
        host = write_bytes m.host (pcie_addr c) (read_bytes m.card (cpp_addr c) (c.length + 1));
      }
  pub dma_frompci :
      (c : DmaCmd) (m : Memories)
      → c.length < 4096
      → P.dma DmaQueue.frompci_hi c m ≡ record m {
        card = write_bytes m.card (cpp_addr c) (read_bytes m.host (pcie_addr c) (c.length + 1));
      }
