-- ===== src/Contexts.antt =====
-- firmware/multi_rx.c: the receiving program on several contexts of one microengine. A context is
-- swapped out only at an access to memory outside the engine, so a step runs to the next of these.
pub mod Count
pub mod Order
pub mod Steps
pub mod Tx
use nfp_udp_echo.Base.{
  ℕ, ◌+◌, ◌*◌, ◌^◌, ◌<◌, ◌≡◌, ◌≢◌, Bool, true, false, List, [], ◌∷◌, ◌++◌, ◌==◌, if◌then◌else◌,
}
use nfp_udp_echo.Base.Words.{add64}
use nfp_udp_echo.Base.Slots.{advance}
use nfp_udp_echo.Base.Memory.{Mem}
use nfp_udp_echo.Firmware.Packet.{Pkt}
use nfp_udp_echo.Firmware.Platform.{Platform}
use nfp_udp_echo.Firmware.Dma.{Context, dma_packet_send}
use nfp_udp_echo.Firmware.Rxops.{
  allow, drop, Release, filter_packets, modify_packet_header, write_packet_header, drop_packet,
}
use nfp_udp_echo.Echo.Meta.{DeviceMeta, no_meta}

-- Where a context stands in `main` and `rx_process`.
pub data MultiPc : Type 0 where
  boot : MultiPc  -- waiting for `start_signal`, or for `init`
  receive : MultiPc  -- the head of `rx_process`
  wait : (pkt : Pkt) (card : Mem) → MultiPc  -- before the read of `rx_head`
  claim : (pkt : Pkt) (card : Mem) (head : ℕ) → MultiPc  -- back with the head that was read
  transfer : (pkt : Pkt) (card : Mem) (tail updated_tail : ℕ) → MultiPc  -- before the DMA
  order : (pkt : Pkt) (tail updated_tail : ℕ) → MultiPc  -- before the read of `rx_tail`
  publish : (pkt : Pkt) (tail updated_tail : ℕ) → MultiPc  -- before the write of `rx_tail`

-- The contexts, and what they share.
pub record MultiRx : Type 0 where
  pub contexts : ℕ → MultiPc
  pub shadow_tail : ℕ
  pub init : Bool
  pub buffer_capacity : ℕ
  pub packet_size : ℕ
  pub meta : DeviceMeta
  pub mem : Mem
  pub released : List Release

abbrev pub set_pc {ℓ} : {A : Type ℓ} → ℕ → A → (ℕ → A) → ℕ → A
set_pc i pc contexts j = if i == j then pc else contexts j

abbrev pub go : ℕ → MultiPc → MultiRx → MultiRx
go i pc s = record s { contexts = set_pc i pc s.contexts }

module _ (P : Platform) (t : Context) where
  -- Steps 1 to 5 of `rx_process`.
  unfoldable pub multi_receive : ℕ → Pkt → Mem → MultiRx → MultiRx
  multi_receive i xfer card s = elim (filter_packets P s.packet_size xfer) [
    | drop ↦ record s { released = s.released ++ drop_packet xfer }
    | allow ↦
        let pkt = modify_packet_header P xfer in go i (wait pkt (write_packet_header P pkt card)) s
  ]

  -- `pkt` and `card` are the packet that the hardware delivers, if the context receives one.
  unfoldable pub multi_rx_at : ℕ → MultiPc → Pkt → Mem → MultiRx → MultiRx
  unfolding multi_receive
  multi_rx_at i boot _ _ s =
      if i == 0
      then if s.meta.start_signal == 0 then s else record s {
        contexts = set_pc i receive s.contexts;
        init = true;
        buffer_capacity = s.meta.buffer_size;
        packet_size = s.meta.packet_size;
      }
      else if s.init
      then go i receive s
      else s
  multi_rx_at i receive pkt card s = multi_receive i pkt card s
  multi_rx_at i (wait pkt card) _ _ s = go i (claim pkt card s.meta.rx_head) s
  multi_rx_at i (claim pkt card head) _ _ s =
      let updated_tail = advance s.packet_size s.buffer_capacity s.shadow_tail in
      if updated_tail == head then go i (wait pkt card) s else record s {
        contexts = set_pc i (transfer pkt card s.shadow_tail updated_tail) s.contexts;
        shadow_tail = updated_tail;
      }
  multi_rx_at i (transfer pkt card tail updated_tail) _ _ s = record s {
    contexts = set_pc i (order pkt tail updated_tail) s.contexts;
    mem =
        (dma_packet_send P t pkt (add64 s.meta.rx_buffer_iova tail)
          (record { card = card; host = s.mem })).host;
  }
  multi_rx_at i (order pkt tail updated_tail) _ _ s =
      if s.meta.rx_tail == tail then go i (publish pkt tail updated_tail) s else s
  multi_rx_at i (publish pkt tail updated_tail) _ _ s = record s {
    contexts = set_pc i receive s.contexts;
    meta = record (s.meta) { rx_tail = updated_tail };
    released = s.released ++ drop_packet pkt;
  }

  unfoldable pub multi_rx_step : ℕ → Pkt → Mem → MultiRx → MultiRx
  unfolding multi_rx_at
  multi_rx_step i pkt card s = multi_rx_at i (s.contexts i) pkt card s

  abbrev pub start_state : Mem → MultiRx
  start_state mem = record {
    contexts = λ i. boot;
    shadow_tail = 0;
    init = false;
    buffer_capacity = 0;
    packet_size = 0;
    meta = no_meta;
    mem = mem;
    released = [];
  }

  -- What the host may do to the structure on the card: anything but write `rx_tail`, and what it
  -- announces by `start_signal` are `n` entries of `p` bytes.
  abbrev pub HostWrites : (n p : ℕ) → DeviceMeta → DeviceMeta → Type 0
  HostWrites n p meta meta' =
      (meta'.rx_tail ≡ meta.rx_tail)
      × (meta'.start_signal ≢ 0 → (meta'.buffer_size ≡ n * p) × (meta'.packet_size ≡ p))

  -- What `contexts` contexts can reach while the host does as it likes.
  pub data MultiReach (contexts n p : ℕ) (mem : Mem) : MultiRx → Type 0 where
    start : MultiReach contexts n p mem (start_state mem)
    next :
        {s : MultiRx} (i : ℕ) (pkt : Pkt) (card : Mem)
        → MultiReach contexts n p mem s
        → i < contexts
        → MultiReach contexts n p mem (multi_rx_step i pkt card s)
    host :
        {s : MultiRx} (meta : DeviceMeta) (mem' : Mem)
        → MultiReach contexts n p mem s
        → HostWrites n p s.meta meta
        → MultiReach contexts n p mem (record s { meta = meta; mem = mem' })
