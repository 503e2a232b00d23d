-- ===== src/Firmware/Dma/Contiguous.antt =====
-- `dma_packet_send` and `dma_packet_recv` of firmware/dma.c, against a packet as one block of bytes.
use nfp_udp_echo.Base.{
  ℕ, refl, ◌⊎◌, length, ◌+◌, ◌-◌, ◌*◌, ◌%◌, ◌^◌, ◌≤◌, ◌<◌, ◌≡◌, ap, ap₂, sym, ◌∙◌, arith, ltb,
  if◌then◌else◌, dec_lt, List, ◌++◌, lt→ltb, ltb-false,
}
use nfp_udp_echo.Base.Words.{sub32}
use nfp_udp_echo.Base.Memory.{
  Mem, read_bytes, write_bytes, read_bytes_eq, read_bytes_add, length-read_bytes,
  write_bytes-append, read-write_self, read-write_apart,
}
use nfp_udp_echo.Firmware.Packet.{Pkt, PktInfo}
use nfp_udp_echo.Firmware.Platform.{Platform, IsNfp, DmaQueue, Memories}
use nfp_udp_echo.Firmware.Dma.{
  Context, pcie_dma_desc_setup, min, dma_op, mu_buffer, transfer, dma_packet_send, dma_packet_recv,
}

-- The bytes of a packet by their offset in it, wherever they are stored.
abbrev pub packet_view : Platform → Mem → PktInfo → Mem
packet_view P card i o =
    if ltb o 256
    then card (P.pkt_ctm_ptr40 i.isl i.pnum 0 + o)
    else card (i.muptr * 2 ^ 11 % 2 ^ P.muptr_bits + o)

-- A packet whose buffers are addressable, and `len` bytes of the host that are.
pub record InRange (P : Platform) (i : PktInfo) (len pcie_addr : ℕ) : Type 0 where
  pub some_bytes : 0 < len
  pub short : len ≤ 4096
  pub ctm_fits : P.pkt_ctm_ptr40 i.isl i.pnum 0 + 256 ≤ 2 ^ 64
  pub mu_fits : i.muptr * 2 ^ 11 % 2 ^ P.muptr_bits + 256 < 2 ^ 64
  pub host_fits : pcie_addr + len ≤ 2 ^ 64

module _ (P : Platform) (i : PktInfo) (card : Mem) where
  view_low :
      (o k : ℕ)
      → o + k ≤ 256
      → read_bytes (packet_view P card i) o k
        ≡ read_bytes card (P.pkt_ctm_ptr40 i.isl i.pnum 0 + o) k
  view_low o k h =
      read_bytes_eq _ _ _ _ k (λ j q. rw (lt→ltb (o + j) 256 (omega arith)) (ap card (omega arith)))

  view_high :
      (o k : ℕ)
      → 256 ≤ o
      → read_bytes (packet_view P card i) o k
        ≡ read_bytes card (i.muptr * 2 ^ 11 % 2 ^ P.muptr_bits + o) k
  view_high o k h =
      read_bytes_eq _ _ _ _ k
        (λ j q. rw (ltb-false (o + j) 256 (omega arith)) (ap card (omega arith)))

  -- A block that goes past the first 256 bytes is a piece of either buffer.
  view_split :
      (o len : ℕ)
      → o < 256
      → 256 - o < len
      → read_bytes (packet_view P card i) o len
        ≡ read_bytes card (P.pkt_ctm_ptr40 i.isl i.pnum 0 + o) (256 - o)
          ++ read_bytes card (i.muptr * 2 ^ 11 % 2 ^ P.muptr_bits + 256) (len - (256 - o))
  view_split o len ho h =
      ap (read_bytes (packet_view P card i) o) (omega arith)
      ∙ read_bytes_add (packet_view P card i) o (256 - o) (len - (256 - o))
      ∙ ap₂ ◌++◌ (view_low o (256 - o) (omega arith)) (
          ap (λ a. read_bytes (packet_view P card i) a (len - (256 - o))) (omega arith)
          ∙ view_high 256 (len - (256 - o)) (omega arith))

min_low : {a b : ℕ} → a < b → min a b ≡ a
unfolding min
min_low h = ground arith

min_high : {a b : ℕ} → ¬ (a < b) → min a b ≡ b
unfolding min
min_high h = ground arith

module _ (P : Platform) (nfp : IsNfp P) (t : Context) where
  dma_op-send :
      (addr len pcie : ℕ) (m : Memories)
      → 0 < len
      → len ≤ 4096
      → addr < 2 ^ 64
      → pcie < 2 ^ 64
      → dma_op P t DmaQueue.topci_hi addr len pcie m
        ≡ record m { host = write_bytes m.host pcie (read_bytes m.card addr len) }
  unfolding dma_op pcie_dma_desc_setup
  dma_op-send addr len pcie m h l a p =
      nfp.dma_topci _ m (omega arith)
      ∙ ap (λ h'. record m { host = h' })
          (ap₂ (write_bytes m.host) (omega arith)
            (ap₂ (read_bytes m.card) (omega arith) (omega arith)))

  dma_op-recv :
      (addr len pcie : ℕ) (m : Memories)
      → 0 < len
      → len ≤ 4096
      → addr < 2 ^ 64
      → pcie < 2 ^ 64
      → dma_op P t DmaQueue.frompci_hi addr len pcie m
        ≡ record m { card = write_bytes m.card addr (read_bytes m.host pcie len) }
  unfolding dma_op pcie_dma_desc_setup
  dma_op-recv addr len pcie m h l a p =
      nfp.dma_frompci _ m (omega arith)
      ∙ ap (λ c. record m { card = c })
          (ap₂ (write_bytes m.card) (omega arith)
            (ap₂ (read_bytes m.host) (omega arith) (omega arith)))

  ctm_in :
      {len pcie : ℕ} (i : PktInfo) (o : ℕ)
      → o < 256
      → InRange P i len pcie
      → P.pkt_ctm_ptr40 i.isl i.pnum o < 2 ^ 64
  ctm_in i o h r = omega (arith, nfp.ctm_contiguous i.isl i.pnum o, r.ctm_fits)

  abbrev ctm_bytes : PktInfo → ℕ → Memories → ℕ → List ℕ
  ctm_bytes i o m n = read_bytes m.card (P.pkt_ctm_ptr40 i.isl i.pnum o) n

  abbrev mu_bytes : PktInfo → Memories → ℕ → List ℕ
  mu_bytes i m n = read_bytes m.card (i.muptr * 2 ^ 11 % 2 ^ P.muptr_bits + 256) n

  -- Sending `len` bytes from offset `o` of a packet is one write of these bytes.
  transfer-send :
      (i : PktInfo) (o len pcie : ℕ) (m : Memories)
      → o < 256
      → InRange P i len pcie
      → transfer P t DmaQueue.topci_hi i o len pcie m
        ≡ record m { host = write_bytes m.host pcie (read_bytes (packet_view P m.card i) o len) }
  unfolding transfer mu_buffer
  transfer-send i o len pcie m ho r = elim (dec_lt (256 - o) len) [
    | yes q ↦
        rw (min_low q, lt→ltb 0 (sub32 len (256 - o)) (omega arith))
          (ap (dma_op P t DmaQueue.topci_hi _ _ _)
              (dma_op-send _ _ _ m (omega arith) (omega arith) (ctm_in i o ho r) (omega arith))
            ∙ dma_op-send _ _ _ _ (omega arith) (omega arith) r.mu_fits (omega arith)
            ∙ ap (λ h. record m { host = h })
                (ap₂
                    (λ a n.
                      write_bytes (write_bytes m.host pcie (ctm_bytes i o m (256 - o))) a
                        (mu_bytes i m n))
                    (omega
                      (arith, length-read_bytes m.card (P.pkt_ctm_ptr40 i.isl i.pnum o) (256 - o)))
                    (omega arith)
                  ∙ write_bytes-append m.host pcie (ctm_bytes i o m (256 - o))
                      (mu_bytes i m (len - (256 - o)))
                  ∙ ap (write_bytes m.host pcie) (
                      ap (λ a. read_bytes m.card a (256 - o) ++ mu_bytes i m (len - (256 - o)))
                        (nfp.ctm_contiguous i.isl i.pnum o)
                      ∙ sym (view_split P i m.card o len ho q))))
    | no q ↦
        rw (min_high q, ltb-false 0 (sub32 len len) (omega arith))
          (dma_op-send _ _ _ m r.some_bytes r.short (ctm_in i o ho r) (omega arith)
            ∙ ap (λ h. record m { host = write_bytes m.host pcie h })
                (ap (λ a. read_bytes m.card a len) (nfp.ctm_contiguous i.isl i.pnum o)
                  ∙ sym (view_low P i m.card o len (omega arith))))
  ]

-- The two buffers of a packet do not overlap, as far as bytes `o` to `o + len` of it lie there.
abbrev pub BuffersApart : Platform → PktInfo → ℕ → ℕ → Type 0
BuffersApart P i o len =
    let ctm = P.pkt_ctm_ptr40 i.isl i.pnum 0 in
    let mu = i.muptr * 2 ^ 11 % 2 ^ P.muptr_bits in
    (ctm + 256 ≤ mu + 256) ⊎ (mu + o + len ≤ ctm + o)

module _ (P : Platform) (nfp : IsNfp P) (t : Context) where
  -- What arrives in the two buffers, read as a packet, is what the host had.
  split_view :
      (i : PktInfo) (o len : ℕ) (card : Mem) (xs ys : List ℕ)
      → o < 256
      → 256 - o < len
      → length xs ≡ 256 - o
      → length ys ≡ len - (256 - o)
      → BuffersApart P i o len
      → read_bytes
          (packet_view P
            (write_bytes
              (write_bytes card (P.pkt_ctm_ptr40 i.isl i.pnum 0 + o) xs)
              (i.muptr * 2 ^ 11 % 2 ^ P.muptr_bits + 256)
              ys)
            i)
          o
          len
        ≡ xs ++ ys
  split_view i o len card xs ys ho q ex ey ap' =
      view_split P i _ o len ho q
      ∙ ap₂ ◌++◌ (read-write_apart _ _ ys _ _ (ground arith) ∙ read-write_self card _ xs _ (sym ex))
          (read-write_self _ _ ys _ (sym ey))

  recv_split :
      (i : PktInfo) (o len pcie : ℕ) (m : Memories)
      → o < 256
      → InRange P i len pcie
      → 256 - o < len
      → transfer P t DmaQueue.frompci_hi i o len pcie m ≡ record m {
        card =
            write_bytes
              (write_bytes m.card
                (P.pkt_ctm_ptr40 i.isl i.pnum 0 + o)
                (read_bytes m.host pcie (256 - o)))
              (i.muptr * 2 ^ 11 % 2 ^ P.muptr_bits + 256)
              (read_bytes m.host (pcie + (256 - o)) (len - (256 - o)));
      }
  unfolding transfer mu_buffer
  recv_split i o len pcie m ho r q =
      rw (min_low q, lt→ltb 0 (sub32 len (256 - o)) (omega arith))
        (ap (dma_op P t DmaQueue.frompci_hi _ _ _) (
            dma_op-recv P nfp t _ _ _ m (omega arith) (omega arith) (ctm_in P nfp t i o ho r)
              (omega arith))
          ∙ dma_op-recv P nfp t _ _ _ _ (omega arith) (omega arith) r.mu_fits (omega arith)
          ∙ ap₂
              (λ a b. record m {
                card =
                    write_bytes (write_bytes m.card a (read_bytes m.host pcie (256 - o)))
                      (i.muptr * 2 ^ 11 % 2 ^ P.muptr_bits + 256) b;
              })
              (nfp.ctm_contiguous i.isl i.pnum o)
              (ap₂ (read_bytes m.host) (omega arith) (omega arith)))

  recv_one :
      (i : PktInfo) (o len pcie : ℕ) (m : Memories)
      → o < 256
      → InRange P i len pcie
      → ¬ (256 - o < len)
      → transfer P t DmaQueue.frompci_hi i o len pcie m ≡ record m {
        card = write_bytes m.card (P.pkt_ctm_ptr40 i.isl i.pnum 0 + o) (read_bytes m.host pcie len);
      }
  unfolding transfer
  recv_one i o len pcie m ho r q =
      rw (min_high q, ltb-false 0 (sub32 len len) (omega arith))
        (dma_op-recv P nfp t _ _ _ m r.some_bytes r.short (ctm_in P nfp t i o ho r) (omega arith)
          ∙ ap (λ a. record m { card = write_bytes m.card a (read_bytes m.host pcie len) })
              (nfp.ctm_contiguous i.isl i.pnum o))

  -- Receiving `len` bytes into offset `o` of a packet: the host keeps its memory, and the packet
  -- then reads as the host's bytes there.
  transfer-recv :
      (i : PktInfo) (o len pcie : ℕ) (m : Memories)
      → o < 256
      → InRange P i len pcie
      → BuffersApart P i o len
      → let m' = transfer P t DmaQueue.frompci_hi i o len pcie m in
        (m'.host ≡ m.host)
        × (read_bytes (packet_view P m'.card i) o len ≡ read_bytes m.host pcie len)
  transfer-recv i o len pcie m ho r apart = elim (dec_lt (256 - o) len) [
    | yes q ↦ rw (recv_split i o len pcie m ho r q) (
      refl,
      split_view i o len m.card (read_bytes m.host pcie (256 - o))
            (read_bytes m.host (pcie + (256 - o)) (len - (256 - o))) ho q
            (length-read_bytes m.host pcie (256 - o))
            (length-read_bytes m.host (pcie + (256 - o)) (len - (256 - o))) apart
          ∙ sym (read_bytes_add m.host pcie (256 - o) (len - (256 - o)))
          ∙ ap (read_bytes m.host pcie) (omega arith),
    )
    | no q ↦ rw (recv_one i o len pcie m ho r q) (
      refl,
      view_low P i _ o len (omega arith)
          ∙ read-write_self m.card _ _ len (sym (length-read_bytes m.host pcie len)),
    )
  ]

  -- `dma_packet_send` writes to the host, at `pcie_addr`, the bytes of the packet behind the MAC
  -- prepend (offset 72) as one block, and changes nothing else.
  pub dma_packet_send_lem :
      (pkt : Pkt) (len pcie_addr : ℕ) (m : Memories)
      → pkt.nbi_meta.pkt_info.len ≡ len + 8
      → InRange P pkt.nbi_meta.pkt_info len pcie_addr
      → dma_packet_send P t pkt pcie_addr m ≡ record m {
        host =
            write_bytes m.host pcie_addr
              (read_bytes (packet_view P m.card pkt.nbi_meta.pkt_info) 72 len);
      }
  unfolding dma_packet_send
  dma_packet_send_lem pkt len pcie m e r =
      ap (λ l. transfer P t DmaQueue.topci_hi pkt.nbi_meta.pkt_info 72 l pcie m) (omega arith)
      ∙ transfer-send P nfp t pkt.nbi_meta.pkt_info 72 len pcie m (omega arith) r

  -- After `dma_packet_recv` the packet holds, from offset 68 on, the host's bytes at `pcie_addr`, and
  -- the host's memory is as before.
  pub dma_packet_recv_lem :
      (pkt : Pkt) (len pcie_addr : ℕ) (m : Memories)
      → InRange P pkt.nbi_meta.pkt_info len pcie_addr
      → BuffersApart P pkt.nbi_meta.pkt_info 68 len
      → let m' = dma_packet_recv P t pkt len pcie_addr m in
        (m'.host ≡ m.host)
        × (read_bytes (packet_view P m'.card pkt.nbi_meta.pkt_info) 68 len
            ≡ read_bytes m.host pcie_addr len)
  unfolding dma_packet_recv
  dma_packet_recv_lem pkt len pcie m r a =
      transfer-recv pkt.nbi_meta.pkt_info 68 len pcie m (omega arith) r a
