-- ===== src/Echo/Invariant/RxSteps.antt =====
-- Each step of the receiving program keeps the invariant.
mod View
mod Accesses
mod Receive
use nfp_udp_echo.Base.{
  ℕ, ◌+◌, ◌<◌, ◌≡◌, ◌⊎◌, ◌≢◌, refl, ap, sym, ◌∙◌, List, [], ◌∷◌, ◌++◌, some, get_elem?, arith, inl,
  inr, length, Bool-cases, ◌==◌, ==_iff, length-append, get_elem?-append_last,
  get_elem?-append_left, ℕ_discrete,
}
use nfp_udp_echo.Base.Words.{add64}
use nfp_udp_echo.Base.Memory.{Mem, read_bytes, write_bytes, length-read_bytes}
use nfp_udp_echo.Base.Slots.{pos, advance, advance_at, pos-bound, pos-add_self}
use nfp_udp_echo.Firmware.Packet.{Pkt}
use nfp_udp_echo.Firmware.Platform.{Platform, IsNfp}
use nfp_udp_echo.Firmware.Dma.{Context, dma_packet_send}
use nfp_udp_echo.Firmware.Dma.Contiguous.{InRange, dma_packet_send_lem}
use nfp_udp_echo.Firmware.Rxops.{
  Verdict, allow, drop, filter_packets, modify_packet_header, write_packet_header, drop_packet,
}
use nfp_udp_echo.Firmware.Rxops.Laws.{filter_packets_iff}
use nfp_udp_echo.Echo.Meta.{Setup, IsSetup}
use nfp_udp_echo.Echo.Rx.{
  RxPc, RxView, boot, receive, wait, transfer, publish, rx_at, rx_step, rx_receive, frame_of,
}
use nfp_udp_echo.Echo.System.{System, Event, step, OnCard, IsAllowed}
use nfp_udp_echo.Echo.Invariant.Defs.{Counters, Stored, Running, RxIs, Inv}
use nfp_udp_echo.Echo.Invariant.Kept.{TxIs-mono, TxIs-accepted, WorkerIs-Running, WorkerIs-firmware}
use nfp_udp_echo.Echo.Invariant.Copy.{Stored-write, tx_entry-write}
use nfp_udp_echo.Echo.Invariant.RxSteps.View.{view, after, Known, Kept}
use nfp_udp_echo.Echo.Invariant.RxSteps.Accesses.{boot-Inv, wait-Inv, transfer-Inv, publish-Inv}
use nfp_udp_echo.Echo.Invariant.RxSteps.Receive.{receive-Inv}

module _ (P : Platform) (nfp : IsNfp P) (t : Context) (island : ℕ) (S : Setup) (n p : ℕ)
    (setup : IsSetup S n p) where
  open setup use {some_entries, some_bytes, fits}

  rx_at-Inv :
      (pc : RxPc) (c : Counters) (s : System) (pkt : Pkt) (card : Mem)
      → Known P t island S n p c s pc
      → IsAllowed P t island S (Event.rx pkt card)
      → Inv P t island S n p c s
      → Kept P t island S n p s pkt card pc
  rx_at-Inv boot c s pkt card k ok inv = boot-Inv P nfp t island S n p setup c s pkt card k inv
  rx_at-Inv receive c s pkt card k ok inv =
      receive-Inv P nfp t island S n p setup c s pkt card k ok inv
  rx_at-Inv (wait a b u v) c s pkt card k ok inv =
      wait-Inv P nfp t island S n p setup c s a b pkt card u v k inv
  rx_at-Inv (transfer a b u v) c s pkt card k ok inv =
      transfer-Inv P nfp t island S n p setup c s a b pkt card u v k inv
  rx_at-Inv (publish a v) c s pkt card k ok inv =
      publish-Inv P nfp t island S n p setup c s a pkt card v k inv

  -- Each step of the receiving program keeps the invariant.
  pub rx-Inv :
      (c : Counters) (s : System) (pkt : Pkt) (card : Mem)
      → IsAllowed P t island S (Event.rx pkt card)
      → Inv P t island S n p c s
      → (c' : Counters) × Inv P t island S n p c' (step P t island S (Event.rx pkt card) s)
  unfolding step rx_step
  rx-Inv c s pkt card ok inv = rx_at-Inv s.rx.pc c s pkt card inv.rx ok inv
