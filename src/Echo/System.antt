-- ===== src/Echo/System.antt =====
-- The three programs together: each event is one step of one of them, in any order.
use nfp_udp_echo.Base.{ℕ, ◌+◌, ◌*◌, ◌%◌, ◌^◌, ◌≤◌, ◌<◌, List, [], ◌∷◌}
use nfp_udp_echo.Base.Memory.{Mem}
use nfp_udp_echo.RingBuffer.{RingBuffer}
use nfp_udp_echo.Firmware.Packet.{Pkt, PktInfo}
use nfp_udp_echo.Firmware.Platform.{Platform}
use nfp_udp_echo.Firmware.Dma.{Context}
use nfp_udp_echo.Firmware.Dma.Contiguous.{BuffersApart}
use nfp_udp_echo.Firmware.Rxops.{Release}
use nfp_udp_echo.Firmware.Txops.{allocate_packet}
use nfp_udp_echo.Echo.Meta.{DeviceMeta, Setup, no_meta}
use nfp_udp_echo.Echo.Worker.{Worker, WorkerPc, worker_step}
use nfp_udp_echo.Echo.Rx.{RxState, RxPc, rx_step}
use nfp_udp_echo.Echo.Tx.{TxState, TxPc, Sent, Allocation, tx_step}

pub record System : Type 0 where
  pub meta : DeviceMeta
  pub mem : Mem
  pub worker : Worker
  pub rx : RxState
  pub tx : TxState
  pub released : List Release
  pub accepted : List (List ℕ)
  pub sent : List Sent

pub data Event : Type 0 where
  host : Event
  rx : (pkt : Pkt) (card : Mem) → Event
  tx : (a : Allocation) → Event

abbrev pub no_ring : RingBuffer
no_ring = record { base_addr = 0; entry_size = 0; capacity = 0; head = 0; tail = 0 }

-- All three programs at their start, the configuration zeroed.
abbrev pub init : Mem → System
init mem = record {
  meta = no_meta;
  mem = mem;
  worker = record { pc = WorkerPc.configure; ring_rx = no_ring; ring_tx = no_ring };
  rx = record { pc = RxPc.boot; buffer_capacity = 0; packet_size = 0 };
  tx = record { pc = TxPc.boot; buffer_capacity = 0; packet_size = 0 };
  released = [];
  accepted = [];
  sent = [];
}

module _ (P : Platform) (t : Context) (island : ℕ) (S : Setup) where
  unfoldable pub step : Event → System → System
  step host s =
      let s' = worker_step S (record { worker = s.worker; meta = s.meta; mem = s.mem }) in
      record s { worker = s'.worker; meta = s'.meta; mem = s'.mem }
  step (rx pkt card) s =
      let s' = rx_step P t pkt card (record {
        rx = s.rx;
        meta = s.meta;
        mem = s.mem;
        released = s.released;
        accepted = s.accepted;
      }) in
      record s {
        rx = s'.rx;
        meta = s'.meta;
        mem = s'.mem;
        released = s'.released;
        accepted = s'.accepted;
      }
  step (tx a) s =
      let s' =
        tx_step P t island a (record { tx = s.tx; meta = s.meta; mem = s.mem; sent = s.sent }) in
      record s { tx = s'.tx; meta = s'.meta; mem = s'.mem; sent = s'.sent }

  -- The buffers of a packet are where the card can reach them.
  pub record OnCard (i : PktInfo) : Type 0 where
    pub ctm_fits : P.pkt_ctm_ptr40 i.isl i.pnum 0 + 256 ≤ 2 ^ 64
    pub mu_fits : i.muptr * 2 ^ 11 % 2 ^ P.muptr_bits + 256 < 2 ^ 64

  -- What the hardware hands to the firmware: packets with buffers on the card and a length that its
  -- field can hold, and for sending, two buffers that do not overlap.
  abbrev pub IsAllowed : Event → Type 0
  IsAllowed host = Unit
  IsAllowed (rx pkt card) = OnCard pkt.nbi_meta.pkt_info × (pkt.nbi_meta.pkt_info.len < 2 ^ 32)
  IsAllowed (tx a) =
      let i = (allocate_packet P island a.pkt_num a.buf a.pkt a.card).0.nbi_meta.pkt_info in
      OnCard i × BuffersApart P i 68 S.udp_packet_size

  pub data Reach (mem : Mem) : System → Type 0 where
    start : Reach mem (init mem)
    next : {s : System} (e : Event) → Reach mem s → IsAllowed e → Reach mem (step e s)

  -- The state after a list of events, the first one first.
  unfoldable pub run : List Event → System → System
  run [] s = s
  run (e ∷ es) s = run es (step e s)

  abbrev pub AllAllowed : List Event → Type 0
  AllAllowed [] = Unit
  AllAllowed (e ∷ es) = IsAllowed e × AllAllowed es

  -- Any list of allowed events leads to a reachable state.
  pub run-Reach :
      (mem : Mem) (es : List Event) (s : System)
      → AllAllowed es
      → Reach mem s
      → Reach mem (run es s)
  unfolding run
  run-Reach mem [] s ok r = r
  run-Reach mem (e ∷ es) s ok r = run-Reach mem es (step e s) ok.1 (next e r ok.0)
