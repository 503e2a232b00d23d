-- ===== src/Echo/Invariant/Defs.antt =====
-- What relates the state of the echo system to counters of packets.
use mathlib.Core.List.{map}
use nfp_udp_echo.Base.{ℕ, ◌+◌, ◌-◌, ◌*◌, ◌≤◌, ◌<◌, ◌≡◌, List, some, get_elem?, length, take}
use nfp_udp_echo.Base.Memory.{Mem, read_bytes}
use nfp_udp_echo.Base.Slots.{pos}
use nfp_udp_echo.RingBuffer.{RingBuffer}
use nfp_udp_echo.RingBuffer.Counters.{Counts}
use nfp_udp_echo.Firmware.Packet.{Pkt}
use nfp_udp_echo.Firmware.Platform.{Platform}
use nfp_udp_echo.Firmware.Dma.{Context}
use nfp_udp_echo.Firmware.Dma.Contiguous.{BuffersApart}
use nfp_udp_echo.Echo.Meta.{DeviceMeta, Setup}
use nfp_udp_echo.Echo.Worker.{Worker, WorkerPc}
use nfp_udp_echo.Echo.Rx.{RxState, RxPc, frame_of}
use nfp_udp_echo.Echo.Tx.{TxState, TxPc, Sent, wire_frame}
use nfp_udp_echo.Echo.System.{System, OnCard}

-- Packets so far: written to the host and published by rx; seen, copied, acknowledged and offered
-- by the worker; fetched by tx and acknowledged.
pub record Counters : Type 0 where
  pub published : ℕ
  pub seen_rx : ℕ
  pub forwarded : ℕ
  pub acked : ℕ
  pub offered : ℕ
  pub fetched : ℕ
  pub seen_tx : ℕ

pub record Order (n : ℕ) (c : Counters) : Type 0 where
  pub acked_le : c.acked ≤ c.forwarded
  pub forwarded_le : c.forwarded ≤ c.seen_rx
  pub seen_rx_le : c.seen_rx ≤ c.published
  pub room_rx : c.published < c.acked + n
  pub seen_tx_le : c.seen_tx ≤ c.fetched
  pub fetched_le : c.fetched ≤ c.offered
  pub offered_le : c.offered ≤ c.forwarded
  pub room_tx : c.forwarded < c.seen_tx + n

abbrev pub Pointers : ℕ → ℕ → Counters → DeviceMeta → Type 0
Pointers n p c meta =
    (meta.rx_head ≡ pos n p c.acked)
    × (meta.rx_tail ≡ pos n p c.published)
    × (meta.tx_head ≡ pos n p c.fetched)
    × (meta.tx_tail ≡ pos n p c.offered)

-- Packets `lo` up to `hi` lie in the buffer at `base`, each in its entry.
abbrev pub Stored : ℕ → ℕ → ℕ → List (List ℕ) → Mem → ℕ → ℕ → Type 0
Stored base n p accepted mem lo hi =
    (k : ℕ) → lo ≤ k → k < hi → get_elem? accepted k ≡ some (read_bytes mem (base + pos n p k) p)

abbrev pub Configured : Setup → ℕ → ℕ → DeviceMeta → Type 0
Configured S n p meta =
    (meta.rx_buffer_iova ≡ S.buffer_rx.iova)
    × (meta.tx_buffer_iova ≡ S.buffer_tx.iova)
    × (meta.buffer_size ≡ n * p)
    × (meta.packet_size ≡ p)

abbrev pub Running : Setup → ℕ → ℕ → DeviceMeta → Type 0
Running S n p meta = (meta.start_signal ≡ 1) × Configured S n p meta

pub record Rings (S : Setup) (n p : ℕ) (c : Counters) (rx tx : RingBuffer) : Type 0 where
  pub rx_base : rx.base_addr ≡ S.buffer_rx.addr
  pub tx_base : tx.base_addr ≡ S.buffer_tx.addr
  pub rx_counts : Counts n p c.forwarded c.seen_rx rx
  pub tx_counts : Counts n p c.seen_tx c.forwarded tx

abbrev pub Zeroed : Worker → Type 0
Zeroed w = (w.ring_rx.head ≡ 0) × (w.ring_rx.tail ≡ 0) × (w.ring_tx.head ≡ 0) × (w.ring_tx.tail ≡ 0)

-- Before the start nothing has been counted.
abbrev pub Fresh : Counters → DeviceMeta → Type 0
Fresh c meta = (c.published ≡ 0) × (c.forwarded ≡ 0) × (c.fetched ≡ 0) × (meta.start_signal ≡ 0)

abbrev pub WorkerIs : Setup → ℕ → ℕ → Counters → DeviceMeta → Worker → WorkerPc → Type 0
WorkerIs S n p c meta w WorkerPc.configure = Fresh c meta × Zeroed w
WorkerIs S n p c meta w WorkerPc.start =
    Fresh c meta × Configured S n p meta × Rings S n p c w.ring_rx w.ring_tx
WorkerIs S n p c meta w WorkerPc.write_tail =
    (c.acked + 1 ≡ c.forwarded)
    × (c.offered + 1 ≡ c.forwarded)
    × Running S n p meta
    × Rings S n p c w.ring_rx w.ring_tx
WorkerIs S n p c meta w WorkerPc.write_head =
    (c.acked + 1 ≡ c.forwarded)
    × (c.offered ≡ c.forwarded)
    × Running S n p meta
    × Rings S n p c w.ring_rx w.ring_tx
WorkerIs S n p c meta w WorkerPc.aborted = ⊥
WorkerIs S n p c meta w _ =
    (c.acked ≡ c.forwarded)
    × (c.offered ≡ c.forwarded)
    × Running S n p meta
    × Rings S n p c w.ring_rx w.ring_tx

-- The first `k` accepted frames have been sent, in order.
abbrev pub SentFirst : ℕ → List (List ℕ) → List Sent → Type 0
SentFirst k accepted sent = map (λ x. x.frame) sent ≡ take k accepted

module _ (P : Platform) (t : Context) (island : ℕ) (S : Setup) (n p : ℕ) where
  -- A program that has started has taken over the configuration.
  abbrev pub RxRuns : RxState → DeviceMeta → Type 0
  RxRuns rx meta = (rx.buffer_capacity ≡ n * p) × (rx.packet_size ≡ p) × Running S n p meta

  pub record RxCarries (published : ℕ) (accepted : List (List ℕ)) (pkt : Pkt) (card : Mem)
      : Type 0 where
    pub frame_eq : get_elem? accepted published ≡ some (frame_of P t p card pkt)
    pub len_eq : pkt.nbi_meta.pkt_info.len ≡ p + 8
    pub on_card : OnCard P t island S pkt.nbi_meta.pkt_info

  abbrev pub RxIs : ℕ → ℕ → DeviceMeta → Mem → List (List ℕ) → RxState → RxPc → Type 0
  RxIs published acked meta mem accepted rx RxPc.boot = (published ≡ 0) × (length accepted ≡ 0)
  RxIs published acked meta mem accepted rx RxPc.receive =
      RxRuns rx meta × (length accepted ≡ published)
  RxIs published acked meta mem accepted rx (RxPc.wait pkt card tail updated) =
      RxRuns rx meta
      × (length accepted ≡ published + 1)
      × (updated ≡ pos n p (published + 1))
      × (tail ≡ pos n p published)
      × RxCarries published accepted pkt card
  RxIs published acked meta mem accepted rx (RxPc.transfer pkt card tail updated) =
      RxRuns rx meta
      × (length accepted ≡ published + 1)
      × (updated ≡ pos n p (published + 1))
      × (tail ≡ pos n p published)
      × RxCarries published accepted pkt card
      × (published + 1 < acked + n)
  RxIs published acked meta mem accepted rx (RxPc.publish pkt updated) =
      RxRuns rx meta
      × (length accepted ≡ published + 1)
      × (updated ≡ pos n p (published + 1))
      × (get_elem? accepted published
          ≡ some (read_bytes mem (S.buffer_rx.iova + pos n p published) p))
      × (published + 1 < acked + n)

  abbrev pub TxRuns : TxState → DeviceMeta → Type 0
  TxRuns tx meta = (tx.buffer_capacity ≡ n * p) × (tx.packet_size ≡ p) × Running S n p meta

  pub record TxCarries (pkt : Pkt) : Type 0 where
    pub on_card : OnCard P t island S pkt.nbi_meta.pkt_info
    pub apart : BuffersApart P pkt.nbi_meta.pkt_info 68 p

  abbrev pub TxIs : ℕ → ℕ → DeviceMeta → List (List ℕ) → List Sent → TxState → TxPc → Type 0
  TxIs fetched offered meta accepted sent tx TxPc.boot = (fetched ≡ 0) × SentFirst 0 accepted sent
  TxIs fetched offered meta accepted sent tx TxPc.allocate =
      TxRuns tx meta × SentFirst fetched accepted sent
  TxIs fetched offered meta accepted sent tx (TxPc.wait pkt card head updated) =
      TxRuns tx meta
      × SentFirst fetched accepted sent
      × (updated ≡ pos n p (fetched + 1))
      × (head ≡ pos n p fetched)
      × TxCarries pkt
  TxIs fetched offered meta accepted sent tx (TxPc.transfer pkt card head updated) =
      TxRuns tx meta
      × SentFirst fetched accepted sent
      × (updated ≡ pos n p (fetched + 1))
      × (head ≡ pos n p fetched)
      × TxCarries pkt
      × (fetched < offered)
  TxIs fetched offered meta accepted sent tx (TxPc.publish pkt card updated) =
      TxRuns tx meta
      × SentFirst fetched accepted sent
      × (updated ≡ pos n p (fetched + 1))
      × (get_elem? accepted fetched ≡ some (wire_frame P t island card pkt))
      × (fetched < offered)
  TxIs fetched offered meta accepted sent tx (TxPc.send pkt card) =
      TxRuns tx meta
      × SentFirst (fetched - 1) accepted sent
      × (get_elem? accepted (fetched - 1) ≡ some (wire_frame P t island card pkt))
      × (0 < fetched)

  pub record Inv (c : Counters) (s : System) : Type 0 where
    pub order : Order n c
    pub pointers : Pointers n p c s.meta
    pub worker : WorkerIs S n p c s.meta s.worker s.worker.pc
    pub rx_stored : Stored S.buffer_rx.iova n p s.accepted s.mem c.acked c.published
    pub tx_stored : Stored S.buffer_tx.iova n p s.accepted s.mem c.fetched c.forwarded
    pub rx : RxIs c.published c.acked s.meta s.mem s.accepted s.rx s.rx.pc
    pub tx : TxIs c.fetched c.offered s.meta s.accepted s.sent s.tx s.tx.pc
