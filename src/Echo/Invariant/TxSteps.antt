-- ===== src/Echo/Invariant/TxSteps.antt =====
-- Each step of the sending program keeps the invariant.
use mathlib.Core.List.{map-append}
use nfp_udp_echo.Base.{
  ℕ, suc, ◌+◌, ◌-◌, ◌<◌, ◌≡◌, ◌≢◌, refl, ap, ap₂, sym, ◌∙◌, subst, List, [], ◌∷◌, ◌++◌, some,
  get_elem?, take, take-suc, arith, inl, inr, Bool-cases, ◌==◌, ==_iff, ℕ_discrete,
}
use nfp_udp_echo.Base.Words.{add32, sub32, add64}
use nfp_udp_echo.Base.Memory.{Mem, read_bytes}
use nfp_udp_echo.Base.Slots.{pos, advance_at, pos-bound}
use nfp_udp_echo.Firmware.Packet.{Pkt}
use nfp_udp_echo.Firmware.Platform.{Platform, IsNfp, Memories}
use nfp_udp_echo.Firmware.Dma.{Context, dma_packet_recv}
use nfp_udp_echo.Firmware.Dma.Contiguous.{InRange, BuffersApart, dma_packet_recv_lem, packet_view}
use nfp_udp_echo.Firmware.Txops.{allocate_packet}
use nfp_udp_echo.Echo.Meta.{Setup, IsSetup}
use nfp_udp_echo.Echo.Tx.{
  TxState, TxPc, TxView, Sent, Allocation, boot, allocate, wait, transfer, publish, send, set_len,
  tx_at, tx_step, tx_allocate, wire_frame,
}
use nfp_udp_echo.Echo.System.{System, Event, step, OnCard, IsAllowed}
use nfp_udp_echo.Echo.Invariant.Defs.{Counters, TxIs, Inv}
use nfp_udp_echo.Echo.Invariant.Kept.{RxIs-mono, WorkerIs-Running, WorkerIs-firmware}

module _ (P : Platform) (nfp : IsNfp P) (t : Context) (island : ℕ) (S : Setup) (n p : ℕ)
    (setup : IsSetup S n p) where
  open setup use {some_entries, some_bytes, fits}

  abbrev view : System → TxView
  view s = record { tx = s.tx; meta = s.meta; mem = s.mem; sent = s.sent }

  abbrev after : System → TxView → System
  after s v = record s { tx = v.tx; meta = v.meta; mem = v.mem; sent = v.sent }

  abbrev Known : Counters → System → TxPc → Type 0
  Known c s pc = TxIs P t island S n p c.fetched c.offered s.meta s.accepted s.sent s.tx pc

  abbrev Kept : System → Allocation → TxPc → Type 0
  Kept s a pc = (c' : Counters) × Inv P t island S n p c' (after s (tx_at P t island pc a (view s)))

  -- A step that changes the sending program alone.
  local :
      (c : Counters) (s : System) (tx' : TxState) (sent' : List Sent)
      → Inv P t island S n p c s
      → TxIs P t island S n p c.fetched c.offered s.meta s.accepted sent' tx' tx'.pc
      → Inv P t island S n p c (record s { tx = tx'; sent = sent' })
  local c s tx' sent' inv k = record {
    order = inv.order;
    pointers = inv.pointers;
    worker = inv.worker;
    rx_stored = inv.rx_stored;
    tx_stored = inv.tx_stored;
    rx = inv.rx;
    tx = k;
  }

  boot-Inv :
      (c : Counters) (s : System) (a : Allocation)
      → Known c s boot
      → Inv P t island S n p c s
      → Kept s a boot
  unfolding tx_at
  boot-Inv c s a k inv = elim (Bool-cases (s.meta.start_signal == 0)) [
    | inl z ↦ rw z (c, inv)
    | inr z ↦
        let run =
          WorkerIs-Running P t island S n p c s.meta s.worker s.worker.pc
            (λ q. cc (sym z ∙ (==_iff _ 0).1 q)) inv.worker in
        rw z (
          c,
          local c s _ s.sent inv
              ((run.1.2, run.1.3, run), k.1 ∙ ap (λ i. take i s.accepted) (sym k.0)),
        )
  ]

  allocate-Inv :
      (c : Counters) (s : System) (a : Allocation)
      → Known c s allocate
      → IsAllowed P t island S (Event.tx a)
      → Inv P t island S n p c s
      → Kept s a allocate
  unfolding tx_at tx_allocate
  allocate-Inv c s a k ok inv = (
    c,
    local c s _ s.sent inv (
      k.0,
      k.1,
      advance_at n p c.fetched s.tx.packet_size s.tx.buffer_capacity s.meta.tx_head some_entries
          some_bytes fits k.0.1 k.0.0 inv.pointers.2,
      inv.pointers.2,
      record {
        on_card = ok.0;
        apart =
            subst
              (BuffersApart P
                (allocate_packet P island a.pkt_num a.buf a.pkt a.card).0.nbi_meta.pkt_info 68)
              setup.packet_eq ok.1;
      },
    ),
  )

  -- The test before the transfer is exact: another packet is there.
  pending :
      (c : Counters) (s : System) (head : ℕ)
      → head ≡ pos n p c.fetched
      → head ≢ s.meta.tx_tail
      → Inv P t island S n p c s
      → c.fetched < c.offered
  pending c s head e ne inv = elim (ℕ_discrete c.fetched c.offered) [
    | yes q ↦ absurd (ne (e ∙ ap (pos n p) q ∙ sym inv.pointers.3))
    | no q ↦ omega (arith, inv.order)
  ]

  wait-Inv :
      (c : Counters) (s : System) (a : Allocation) (pkt : Pkt) (card : Mem) (head updated : ℕ)
      → Known c s (wait pkt card head updated)
      → Inv P t island S n p c s
      → Kept s a (wait pkt card head updated)
  unfolding tx_at
  wait-Inv c s a pkt card head updated k inv = elim (Bool-cases (head == s.meta.tx_tail)) [
    | inl z ↦ rw z (c, inv)
    | inr z ↦ rw z (
      c,
      local c s _ s.sent inv
          (k.0, k.1, k.2, k.3, k.4, pending c s head k.3 (λ q. cc (sym z ∙ (==_iff _ _).1 q)) inv),
    )
  ]

  in_range :
      (c : Counters) (pkt : Pkt)
      → OnCard P t island S pkt.nbi_meta.pkt_info
      → InRange P pkt.nbi_meta.pkt_info p (S.buffer_tx.iova + pos n p c.fetched)
  in_range c pkt o = record {
    some_bytes = some_bytes;
    short = setup.short;
    ctm_fits = o.ctm_fits;
    mu_fits = o.mu_fits;
    host_fits = omega (arith, pos-bound n p c.fetched some_entries, setup.zone_tx.reachable);
  }

  -- What the DMA brings is the oldest packet of the send buffer.
  fetched_frame :
      (c : Counters) (s : System) (pkt : Pkt) (card : Mem) (head updated : ℕ)
      → Known c s (transfer pkt card head updated)
      → Inv P t island S n p c s
      → let m =
          dma_packet_recv P t pkt s.tx.packet_size
            (add64 s.meta.tx_buffer_iova head)
            (record { card = card; host = s.mem }) in
        (m.host ≡ s.mem)
        × (get_elem? s.accepted c.fetched
            ≡ some (wire_frame P t island m.card (set_len (add32 s.tx.packet_size 4) pkt)))
  unfolding wire_frame
  fetched_frame c s pkt card head updated k inv = (
    ap (λ m. m.host) at_entry ∙ got.0,
    inv.tx_stored c.fetched (omega arith) (omega (arith, inv.order))
        ∙ ap some (sym (same_view ∙ got.1)),
  )
    where
      m : Memories
      m = record { card = card; host = s.mem }

      at_entry :
          dma_packet_recv P t pkt s.tx.packet_size (add64 s.meta.tx_buffer_iova head) m
          ≡ dma_packet_recv P t pkt p (S.buffer_tx.iova + pos n p c.fetched) m
      at_entry =
          ap₂ (λ l a. dma_packet_recv P t pkt l a m) k.0.1
            (omega (arith, pos-bound n p c.fetched some_entries, setup.zone_tx.reachable))

      got :
          let m' = dma_packet_recv P t pkt p (S.buffer_tx.iova + pos n p c.fetched) m in
          (m'.host ≡ s.mem)
          × (read_bytes (packet_view P m'.card pkt.nbi_meta.pkt_info) 68 p
              ≡ read_bytes s.mem (S.buffer_tx.iova + pos n p c.fetched) p)
      got =
          dma_packet_recv_lem P nfp t pkt p (S.buffer_tx.iova + pos n p c.fetched) m
            (in_range c pkt k.4.on_card) k.4.apart

      same_view :
          read_bytes
            (packet_view P
              (dma_packet_recv P t pkt s.tx.packet_size (add64 s.meta.tx_buffer_iova head) m).card
              pkt.nbi_meta.pkt_info)
            68
            (sub32 (add32 s.tx.packet_size 4) 4)
          ≡ read_bytes
              (packet_view P
                (dma_packet_recv P t pkt p (S.buffer_tx.iova + pos n p c.fetched) m).card
                pkt.nbi_meta.pkt_info)
              68
              p
      same_view =
          ap₂ (λ x l. read_bytes (packet_view P (x).card pkt.nbi_meta.pkt_info) 68 l) at_entry
            (omega (arith, setup.short))

  transfer-Inv :
      (c : Counters) (s : System) (a : Allocation) (pkt : Pkt) (card : Mem) (head updated : ℕ)
      → Known c s (transfer pkt card head updated)
      → Inv P t island S n p c s
      → Kept s a (transfer pkt card head updated)
  unfolding tx_at
  transfer-Inv c s a pkt card head updated k inv =
      let f = fetched_frame c s pkt card head updated k inv in
      rw f.0 (c, local c s _ s.sent inv (k.0, k.1, k.2, f.1, k.5))

  publish-Inv :
      (c : Counters) (s : System) (a : Allocation) (pkt : Pkt) (card : Mem) (updated : ℕ)
      → Known c s (publish pkt card updated)
      → Inv P t island S n p c s
      → Kept s a (publish pkt card updated)
  unfolding tx_at
  publish-Inv c s a pkt card updated k inv = (
    record c { fetched = c.fetched + 1 },
    record {
      order = omega (arith, inv.order, k.4);
      pointers = (inv.pointers.0, inv.pointers.1, k.2, inv.pointers.3);
      worker =
          WorkerIs-firmware P t island S n p c c.published (c.fetched + 1) s.meta
            (record (s.meta) { tx_head = updated }) s.worker s.worker.pc k.0.2.0 (λ r. r)
            inv.worker;
      rx_stored = inv.rx_stored;
      tx_stored = λ j lo hi. inv.tx_stored j (omega arith) hi;
      rx =
          RxIs-mono P t island S n p c.published s.meta (record (s.meta) { tx_head = updated })
            s.mem s.mem s.accepted s.rx s.rx.pc (omega arith) (λ r. r) refl inv.rx;
      tx = (
        k.0,
        k.1 ∙ ap (λ i. take i s.accepted) (omega arith),
        ap (get_elem? s.accepted) (omega arith) ∙ k.3,
        omega arith,
      );
    },
  )

  send-Inv :
      (c : Counters) (s : System) (a : Allocation) (pkt : Pkt) (card : Mem)
      → Known c s (send pkt card)
      → Inv P t island S n p c s
      → Kept s a (send pkt card)
  unfolding tx_at
  send-Inv c s a pkt card k inv = (
    c,
    local c s _ _ inv (
      k.0,
      map-append (λ x. x.frame) s.sent _
          ∙ ap (λ l. l ++ (wire_frame P t island card pkt ∷ [])) k.1
          ∙ take-suc s.accepted (c.fetched - 1) (wire_frame P t island card pkt) k.2
          ∙ ap (λ i. take i s.accepted) {x = suc (c.fetched - 1)} (omega arith),
    ),
  )

  tx_at-Inv :
      (pc : TxPc) (c : Counters) (s : System) (a : Allocation)
      → Known c s pc
      → IsAllowed P t island S (Event.tx a)
      → Inv P t island S n p c s
      → Kept s a pc
  tx_at-Inv boot c s a k ok inv = boot-Inv c s a k inv
  tx_at-Inv allocate c s a k ok inv = allocate-Inv c s a k ok inv
  tx_at-Inv (wait x y u v) c s a k ok inv = wait-Inv c s a x y u v k inv
  tx_at-Inv (transfer x y u v) c s a k ok inv = transfer-Inv c s a x y u v k inv
  tx_at-Inv (publish x y v) c s a k ok inv = publish-Inv c s a x y v k inv
  tx_at-Inv (send x y) c s a k ok inv = send-Inv c s a x y k inv

  -- Each step of the sending program keeps the invariant.
  pub tx-Inv :
      (c : Counters) (s : System) (a : Allocation)
      → IsAllowed P t island S (Event.tx a)
      → Inv P t island S n p c s
      → (c' : Counters) × Inv P t island S n p c' (step P t island S (Event.tx a) s)
  unfolding step tx_step
  tx-Inv c s a ok inv = tx_at-Inv s.tx.pc c s a inv.tx ok inv
