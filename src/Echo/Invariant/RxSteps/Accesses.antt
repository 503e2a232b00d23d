-- ===== src/Echo/Invariant/RxSteps/Accesses.antt =====
-- The waits of the receiving program, its transfer and its publication keep the invariant.
use nfp_udp_echo.Base.{
  ℕ, ◌+◌, ◌<◌, ◌≡◌, ◌≢◌, ap, sym, ◌∙◌, some, get_elem?, arith, inl, inr, length, Bool-cases, ◌==◌,
  ==_iff, ℕ_discrete,
}
use nfp_udp_echo.Base.Words.{add64}
use nfp_udp_echo.Base.Memory.{Mem, read_bytes, write_bytes, length-read_bytes}
use nfp_udp_echo.Base.Slots.{pos, pos-bound, pos-add_self}
use nfp_udp_echo.Firmware.Packet.{Pkt}
use nfp_udp_echo.Firmware.Platform.{Platform, IsNfp}
use nfp_udp_echo.Firmware.Dma.{Context, dma_packet_send}
use nfp_udp_echo.Firmware.Dma.Contiguous.{InRange, dma_packet_send_lem}
use nfp_udp_echo.Echo.Meta.{Setup, IsSetup}
use nfp_udp_echo.Echo.Rx.{boot, wait, transfer, publish, rx_at, frame_of}
use nfp_udp_echo.Echo.System.{System, OnCard}
use nfp_udp_echo.Echo.Invariant.Defs.{Counters, Stored, Running, Inv}
use nfp_udp_echo.Echo.Invariant.Kept.{TxIs-mono, WorkerIs-Running, WorkerIs-firmware}
use nfp_udp_echo.Echo.Invariant.Copy.{Stored-write, tx_entry-write}
use nfp_udp_echo.Echo.Invariant.RxSteps.View.{Known, Kept}

module _ (P : Platform) (nfp : IsNfp P) (t : Context) (island : ℕ) (S : Setup) (n p : ℕ)
    (setup : IsSetup S n p) where
  open setup use {some_entries, some_bytes, fits}

  running :
      (c : Counters) (s : System)
      → Inv P t island S n p c s
      → s.meta.start_signal ≢ 0
      → Running S n p s.meta
  running c s inv ne = WorkerIs-Running P t island S n p c s.meta s.worker s.worker.pc ne inv.worker

  -- The test before the transfer is exact: the entry behind the next one is free.
  room :
      (c : Counters) (s : System) (updated : ℕ)
      → updated ≡ pos n p (c.published + 1)
      → updated ≢ s.meta.rx_head
      → Inv P t island S n p c s
      → c.published + 1 < c.acked + n
  room c s updated e ne inv = elim (ℕ_discrete (c.published + 1) (c.acked + n)) [
    | yes q ↦ absurd (ne (e ∙ ap (pos n p) q ∙ pos-add_self n p c.acked ∙ sym inv.pointers.0))
    | no q ↦ omega (arith, inv.order)
  ]

  pub boot-Inv :
      (c : Counters) (s : System) (pkt : Pkt) (card : Mem)
      → Known P t island S n p c s boot
      → Inv P t island S n p c s
      → Kept P t island S n p s pkt card boot
  unfolding rx_at
  boot-Inv c s pkt card k inv = elim (Bool-cases (s.meta.start_signal == 0)) [
    | inl z ↦ rw z (c, inv)
    | inr z ↦ rw z (
      c,
      record {
        order = inv.order;
        pointers = inv.pointers;
        worker = inv.worker;
        rx_stored = inv.rx_stored;
        tx_stored = inv.tx_stored;
        rx =
            let run = running c s inv (λ q. cc (sym z ∙ (==_iff _ 0).1 q)) in
            ((run.1.2, run.1.3, run), omega arith);
        tx = inv.tx;
      },
    )
  ]

  pub wait-Inv :
      (c : Counters) (s : System) (pkt : Pkt) (card : Mem) (pkt' : Pkt) (card' : Mem)
      (tail updated : ℕ)
      → Known P t island S n p c s (wait pkt card tail updated)
      → Inv P t island S n p c s
      → Kept P t island S n p s pkt' card' (wait pkt card tail updated)
  unfolding rx_at
  wait-Inv c s pkt card pkt' card' tail updated k inv =
      elim (Bool-cases (updated == s.meta.rx_head)) [
        | inl z ↦ rw z (c, inv)
        | inr z ↦ rw z (
          c,
          record {
            order = inv.order;
            pointers = inv.pointers;
            worker = inv.worker;
            rx_stored = inv.rx_stored;
            tx_stored = inv.tx_stored;
            rx = (
              k.0,
              k.1,
              k.2,
              k.3,
              k.4,
              room c s updated k.2 (λ q. cc (sym z ∙ (==_iff _ _).1 q)) inv,
            );
            tx = inv.tx;
          },
        )
      ]

  in_range :
      (c : Counters) (s : System) (pkt : Pkt)
      → OnCard P t island S pkt.nbi_meta.pkt_info
      → InRange P pkt.nbi_meta.pkt_info p (S.buffer_rx.iova + pos n p c.published)
  in_range c s pkt o = record {
    some_bytes = some_bytes;
    short = setup.short;
    ctm_fits = o.ctm_fits;
    mu_fits = o.mu_fits;
    host_fits = omega (arith, pos-bound n p c.published some_entries, setup.zone_rx.reachable);
  }

  -- The DMA writes the frame to the entry behind the published ones.
  transferred :
      (c : Counters) (s : System) (pkt : Pkt) (card : Mem) (tail updated : ℕ)
      → Known P t island S n p c s (transfer pkt card tail updated)
      → (dma_packet_send P t pkt
          (add64 s.meta.rx_buffer_iova tail)
          (record { card = card; host = s.mem })).host
        ≡ write_bytes s.mem (S.buffer_rx.iova + pos n p c.published) (frame_of P t p card pkt)
  unfolding frame_of
  transferred c s pkt card tail updated k =
      ap (λ a. (dma_packet_send P t pkt a (record { card = card; host = s.mem })).host)
        (omega (arith, pos-bound n p c.published some_entries, setup.zone_rx.reachable))
      ∙ ap (λ m. m.host)
          (dma_packet_send_lem P nfp t pkt p _ (record { card = card; host = s.mem }) k.4.len_eq
            (in_range c s pkt k.4.on_card))

  pub transfer-Inv :
      (c : Counters) (s : System) (pkt : Pkt) (card : Mem) (pkt' : Pkt) (card' : Mem)
      (tail updated : ℕ)
      → Known P t island S n p c s (transfer pkt card tail updated)
      → Inv P t island S n p c s
      → Kept P t island S n p s pkt' card' (transfer pkt card tail updated)
  unfolding rx_at
  transfer-Inv c s pkt card pkt' card' tail updated k inv =
      rw (transferred c s pkt card tail updated k) (
        c,
        record {
          order = inv.order;
          pointers = inv.pointers;
          worker = inv.worker;
          rx_stored = λ j lo hi. new j lo (omega arith);
          tx_stored = λ j lo hi.
              inv.tx_stored j lo hi
              ∙ ap some (sym (tx_entry-write S n p setup s.mem j c.published _ frame_length));
          rx = (k.0, k.1, k.2, new c.published (omega (arith, inv.order)) (omega arith), k.5);
          tx = inv.tx;
        },
      )
    where
      frame_length : length (frame_of P t p card pkt) ≡ p
      frame_length = unfold frame_of in length-read_bytes _ 72 p

      new :
          Stored S.buffer_rx.iova n p s.accepted
            (write_bytes s.mem (S.buffer_rx.iova + pos n p c.published) (frame_of P t p card pkt))
            c.acked
            (c.published + 1)
      new =
          Stored-write S n p setup S.buffer_rx.iova c.acked c.published s.accepted s.mem _
            frame_length (omega (arith, inv.order)) k.4.frame_eq inv.rx_stored

  pub publish-Inv :
      (c : Counters) (s : System) (pkt : Pkt) (pkt' : Pkt) (card' : Mem) (updated : ℕ)
      → Known P t island S n p c s (publish pkt updated)
      → Inv P t island S n p c s
      → Kept P t island S n p s pkt' card' (publish pkt updated)
  unfolding rx_at
  publish-Inv c s pkt pkt' card' updated k inv = (
    record c { published = c.published + 1 },
    record {
      order = omega (arith, inv.order, k.4);
      pointers = (inv.pointers.0, k.2, inv.pointers.2, inv.pointers.3);
      worker =
          WorkerIs-firmware P t island S n p c (c.published + 1) c.fetched s.meta
            (record (s.meta) { rx_tail = updated }) s.worker s.worker.pc k.0.2.0 (λ r. r)
            inv.worker;
      rx_stored = λ j lo hi. elim (ℕ_discrete j c.published) [
        | yes q ↦
            ap (get_elem? s.accepted) q
            ∙ k.3
            ∙ ap (λ i. some (read_bytes s.mem (S.buffer_rx.iova + pos n p i) p)) (sym q)
        | no q ↦ inv.rx_stored j lo (omega arith)
      ];
      tx_stored = inv.tx_stored;
      rx = (k.0, k.1);
      tx =
          TxIs-mono P t island S n p c.fetched s.meta (record (s.meta) { rx_tail = updated })
            s.accepted s.sent s.tx s.tx.pc (omega arith) (λ r. r) inv.tx;
    },
  )
