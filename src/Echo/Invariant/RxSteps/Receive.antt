-- ===== src/Echo/Invariant/RxSteps/Receive.antt =====
-- The reception of a packet keeps the invariant.
use nfp_udp_echo.Base.{
  ℕ, ◌+◌, ◌≡◌, ◌⊎◌, refl, ap, sym, ◌∙◌, List, [], ◌∷◌, ◌++◌, some, arith, inl, inr, length-append,
  get_elem?-append_last, get_elem?-append_left,
}
use nfp_udp_echo.Base.Memory.{Mem}
use nfp_udp_echo.Base.Slots.{advance, advance_at}
use nfp_udp_echo.Firmware.Packet.{Pkt}
use nfp_udp_echo.Firmware.Platform.{Platform, IsNfp}
use nfp_udp_echo.Firmware.Dma.{Context}
use nfp_udp_echo.Firmware.Rxops.{
  Verdict, allow, drop, filter_packets, modify_packet_header, write_packet_header, drop_packet,
}
use nfp_udp_echo.Firmware.Rxops.Laws.{filter_packets_iff}
use nfp_udp_echo.Echo.Meta.{Setup, IsSetup}
use nfp_udp_echo.Echo.Rx.{RxView, receive, wait, rx_at, rx_receive, frame_of}
use nfp_udp_echo.Echo.System.{System, Event, IsAllowed}
use nfp_udp_echo.Echo.Invariant.Defs.{Counters, Inv}
use nfp_udp_echo.Echo.Invariant.Kept.{TxIs-accepted}
use nfp_udp_echo.Echo.Invariant.RxSteps.View.{view, Known, Kept}

Verdict-cases : (v : Verdict) → (v ≡ allow) ⊎ (v ≡ drop)
Verdict-cases allow = inl refl
Verdict-cases drop = inr refl

-- The state that an accepted packet leaves.
abbrev accepting : Platform → Context → Pkt → Mem → RxView → RxView
accepting P t xfer card v =
    let pkt = modify_packet_header P xfer in
    let card' = write_packet_header P pkt card in
    record v {
      rx = record (v.rx) {
        pc =
            wait pkt card' v.meta.rx_tail
              (advance v.rx.packet_size v.rx.buffer_capacity v.meta.rx_tail);
      };
      accepted = v.accepted ++ (frame_of P t v.rx.packet_size card' pkt ∷ []);
    }

rx_receive_allow :
    (P : Platform) (t : Context) (pkt : Pkt) (card : Mem) (v : RxView)
    → filter_packets P v.rx.packet_size pkt ≡ allow
    → rx_receive P t pkt card v ≡ accepting P t pkt card v
unfolding rx_receive
rx_receive_allow P t pkt card v e = rw (e, rx_receive)

rx_receive-drop :
    (P : Platform) (t : Context) (pkt : Pkt) (card : Mem) (v : RxView)
    → filter_packets P v.rx.packet_size pkt ≡ drop
    → rx_receive P t pkt card v ≡ record v { released = v.released ++ drop_packet pkt }
unfolding rx_receive
rx_receive-drop P t pkt card v e = rw (e, rx_receive)

module _ (P : Platform) (nfp : IsNfp P) (t : Context) (island : ℕ) (S : Setup) (n p : ℕ)
    (setup : IsSetup S n p) where
  open setup use {some_entries, some_bytes, fits}

  -- A packet that passes the filter is logged, and its frame waits for the buffer.
  pub accept-Inv :
      (c : Counters) (s : System) (pkt : Pkt) (card : Mem)
      → Known P t island S n p c s receive
      → IsAllowed P t island S (Event.rx pkt card)
      → filter_packets P s.rx.packet_size pkt ≡ allow
      → Inv P t island S n p c s
      → Kept P t island S n p s pkt card receive
  unfolding rx_at
  accept-Inv c s pkt card k ok e inv = rw (rx_receive_allow P t pkt card (view s) e) (
    c,
    record {
      order = inv.order;
      pointers = inv.pointers;
      worker = inv.worker;
      rx_stored =
          λ j lo hi. get_elem?-append_left s.accepted _ j (omega arith) ∙ inv.rx_stored j lo hi;
      tx_stored = λ j lo hi.
          get_elem?-append_left s.accepted _ j (omega (arith, inv.order)) ∙ inv.tx_stored j lo hi;
      rx = (
        k.0,
        omega (arith, length-append {0} s.accepted (new_frame ∷ [])),
        advance_at n p c.published s.rx.packet_size s.rx.buffer_capacity s.meta.rx_tail some_entries
            some_bytes fits k.0.1 k.0.0 inv.pointers.1,
        inv.pointers.1,
        record {
          frame_eq =
              get_elem?-append_last s.accepted new_frame c.published (sym k.1)
              ∙ ap
                  (λ l. some (
                    frame_of P t l (write_packet_header P (modify_packet_header P pkt) card)
                      (modify_packet_header P pkt)))
                  k.0.1;
          len_eq = unfold modify_packet_header in passed;
          on_card = unfold modify_packet_header in ok.0;
        },
      );
      tx =
          TxIs-accepted P t island S n p c.fetched c.offered s.meta s.accepted _ s.sent s.tx s.tx.pc
            (omega (arith, inv.order)) (omega (arith, inv.order)) inv.tx;
    },
  )
    where
      new_frame : List ℕ
      new_frame =
          frame_of P t s.rx.packet_size (write_packet_header P (modify_packet_header P pkt) card)
            (modify_packet_header P pkt)

      passed : pkt.nbi_meta.pkt_info.len ≡ p + 8
      passed =
          ((filter_packets_iff P s.rx.packet_size pkt (omega (arith, setup.short)) ok.1).0 e).2
          ∙ ap (λ l. l + 8) k.0.1

  pub receive-Inv :
      (c : Counters) (s : System) (pkt : Pkt) (card : Mem)
      → Known P t island S n p c s receive
      → IsAllowed P t island S (Event.rx pkt card)
      → Inv P t island S n p c s
      → Kept P t island S n p s pkt card receive
  unfolding rx_at
  receive-Inv c s pkt card k ok inv = elim (Verdict-cases (filter_packets P s.rx.packet_size pkt)) [
    | inl e ↦ accept-Inv c s pkt card k ok e inv
    | inr e ↦ rw (rx_receive-drop P t pkt card (view s) e) (
      c,
      record {
        order = inv.order;
        pointers = inv.pointers;
        worker = inv.worker;
        rx_stored = inv.rx_stored;
        tx_stored = inv.tx_stored;
        rx = inv.rx;
        tx = inv.tx;
      },
    )
  ]
