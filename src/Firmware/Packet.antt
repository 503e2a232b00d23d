-- ===== src/Firmware/Packet.antt =====
-- firmware/pktdef.h: what the firmware knows of a packet. The structures of the card's library
-- (`nbi_meta_catamaran`, `eth_hdr`, `ip4_hdr`, `icmp_hdr`) have the fields that the firmware names;
-- the others ride along in one field.
use nfp_udp_echo.Base.{ℕ, List}

-- `nbi_meta.pkt_info`: the buffers of a packet and its length
pub record PktInfo : Type 0 where
  pub isl : ℕ
  pub pnum : ℕ
  pub bls : ℕ
  pub muptr : ℕ
  pub split : ℕ
  pub len : ℕ

pub record NbiMeta : Type 0 where
  pub pkt_info : PktInfo
  pub seqr : ℕ
  pub seq : ℕ
  pub others : List ℕ

pub record EthHdr : Type 0 where
  pub dst : ℕ
  pub src : ℕ
  pub type : ℕ

pub record Ip4Hdr : Type 0 where
  pub proto : ℕ
  pub src : ℕ
  pub dst : ℕ
  pub others : List ℕ

-- The union of the UDP and the ICMP header, seen as an ICMP header.
pub record L4Hdr : Type 0 where
  pub icmp_type : ℕ
  pub others : List ℕ

pub record PktHdr : Type 0 where
  pub mac_timestamp : ℕ
  pub mac_prepend : ℕ
  pub eth : EthHdr
  pub ip : Ip4Hdr
  pub l4 : L4Hdr
  pub pad : List ℕ

pub record Pkt : Type 0 where
  pub nbi_meta : NbiMeta
  pub hdr : PktHdr

-- firmware/config.h
abbrev pub pkt_nbi_offset : ℕ
pkt_nbi_offset = 64

abbrev pub mac_prepend_bytes : ℕ
mac_prepend_bytes = 4
