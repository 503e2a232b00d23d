-- ===== src/Contexts/Tx.antt =====
-- firmware/multi_tx.c: the sending program on several contexts of one microengine. A context is
-- swapped out only at an access to memory outside the engine, so a step runs to the next of these.
pub mod Steps
use nfp_udp_echo.Base.{
  ℕ, ◌+◌, ◌*◌, ◌^◌, ◌<◌, ◌≡◌, ◌≢◌, Bool, true, false, List, [], ◌∷◌, ◌++◌, ◌==◌, if◌then◌else◌,
}
use nfp_udp_echo.Base.Words.{add32, add64}
use nfp_udp_echo.Base.Slots.{advance}
use nfp_udp_echo.Base.Memory.{Mem}
use nfp_udp_echo.Firmware.Packet.{Pkt, mac_prepend_bytes}
use nfp_udp_echo.Firmware.Platform.{Platform}
use nfp_udp_echo.Firmware.Dma.{Context, dma_packet_recv}
use nfp_udp_echo.Firmware.Txops.{allocate_packet, send_packet}
use nfp_udp_echo.Echo.Meta.{DeviceMeta, no_meta}
use nfp_udp_echo.Echo.Tx.{Allocation, Sent, set_len, wire_frame}
use nfp_udp_echo.Contexts.{set_pc}

-- Where a context stands in `main` and `tx_process`.
pub data MultiTxPc : Type 0 where
  boot : MultiTxPc  -- waiting for `start_signal`, or for `init`
  allocate : MultiTxPc  -- the head of `tx_process`
  wait : (pkt : Pkt) (card : Mem) → MultiTxPc  -- before the read of `tx_tail`
  claim : (pkt : Pkt) (card : Mem) (tail : ℕ) → MultiTxPc  -- back with the tail that was read
  transfer : (pkt : Pkt) (card : Mem) (head updated_head : ℕ) → MultiTxPc  -- before the DMA
  order : (pkt : Pkt) (card : Mem) (head updated_head : ℕ) → MultiTxPc  -- before reading `tx_head`
  publish : (pkt : Pkt) (card : Mem) (head updated_head : ℕ) → MultiTxPc  -- before writing `tx_head`
  send : (pkt : Pkt) (card : Mem) → MultiTxPc  -- before `send_packet`

-- The contexts, and what they share.
pub record MultiTx : Type 0 where
  pub contexts : ℕ → MultiTxPc
  pub shadow_head : ℕ
  pub init : Bool
  pub buffer_capacity : ℕ
  pub packet_size : ℕ
  pub meta : DeviceMeta
  pub mem : Mem
  pub sent : List Sent

abbrev pub go : ℕ → MultiTxPc → MultiTx → MultiTx
go i pc s = record s { contexts = set_pc i pc s.contexts }

module _ (P : Platform) (t : Context) (island : ℕ) where
  -- `a` is what the allocators return, if the context allocates a packet.
  unfoldable pub multi_tx_at : ℕ → MultiTxPc → Allocation → MultiTx → MultiTx
  multi_tx_at i boot _ s =
      if i == 0
      then if s.meta.start_signal == 0 then s else record s {
        contexts = set_pc i allocate s.contexts;
        init = true;
        buffer_capacity = s.meta.buffer_size;
        packet_size = s.meta.packet_size;
      }
      else if s.init
      then go i allocate s
      else s
  multi_tx_at i allocate a s =
      let (pkt, card) = allocate_packet P island a.pkt_num a.buf a.pkt a.card in
      go i (wait pkt card) s
  multi_tx_at i (wait pkt card) _ s = go i (claim pkt card s.meta.tx_tail) s
  multi_tx_at i (claim pkt card tail) _ s =
      let updated_head = advance s.packet_size s.buffer_capacity s.shadow_head in
      if s.shadow_head == tail then go i (wait pkt card) s else record s {
        contexts = set_pc i (transfer pkt card s.shadow_head updated_head) s.contexts;
        shadow_head = updated_head;
      }
  multi_tx_at i (transfer pkt card head updated_head) _ s =
      let m =
        dma_packet_recv P t pkt s.packet_size (add64 s.meta.tx_buffer_iova head)
          (record { card = card; host = s.mem }) in
      let pkt' = set_len (add32 s.packet_size mac_prepend_bytes) pkt in
      record s {
        contexts = set_pc i (order pkt' m.card head updated_head) s.contexts;
        mem = m.host;
      }
  multi_tx_at i (order pkt card head updated_head) _ s =
      if s.meta.tx_head == head then go i (publish pkt card head updated_head) s else s
  multi_tx_at i (publish pkt card head updated_head) _ s = record s {
    contexts = set_pc i (send pkt card) s.contexts;
    meta = record (s.meta) { tx_head = updated_head };
  }
  multi_tx_at i (send pkt card) _ s = record s {
    contexts = set_pc i allocate s.contexts;
    sent =
        s.sent ++ (record { order = send_packet pkt; frame = wire_frame P t island card pkt } ∷ []);
  }

  unfoldable pub multi_tx_step : ℕ → Allocation → MultiTx → MultiTx
  unfolding multi_tx_at
  multi_tx_step i a s = multi_tx_at i (s.contexts i) a s

  abbrev pub start_state : Mem → MultiTx
  start_state mem = record {
    contexts = λ i. boot;
    shadow_head = 0;
    init = false;
    buffer_capacity = 0;
    packet_size = 0;
    meta = no_meta;
    mem = mem;
    sent = [];
  }

  -- What the host may do to the structure on the card: anything but write `tx_head`, and what it
  -- announces by `start_signal` are `n` entries of `p` bytes.
  abbrev pub HostWrites : (n p : ℕ) → DeviceMeta → DeviceMeta → Type 0
  HostWrites n p meta meta' =
      (meta'.tx_head ≡ meta.tx_head)
      × (meta'.start_signal ≢ 0 → (meta'.buffer_size ≡ n * p) × (meta'.packet_size ≡ p))

  -- What `contexts` contexts can reach while the host does as it likes.
  pub data MultiTxReach (contexts n p : ℕ) (mem : Mem) : MultiTx → Type 0 where
    start : MultiTxReach contexts n p mem (start_state mem)
    next :
        {s : MultiTx} (i : ℕ) (a : Allocation)
        → MultiTxReach contexts n p mem s
        → i < contexts
        → MultiTxReach contexts n p mem (multi_tx_step i a s)
    host :
        {s : MultiTx} (meta : DeviceMeta) (mem' : Mem)
        → MultiTxReach contexts n p mem s
        → HostWrites n p s.meta meta
        → MultiTxReach contexts n p mem (record s { meta = meta; mem = mem' })
