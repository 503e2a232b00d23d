-- ===== src/Echo/Tx.antt =====
-- firmware/tx.c: the program that moves packets from the host to the network, one access to shared
-- memory at a time.
use nfp_udp_echo.Base.{ℕ, List, [], ◌∷◌, ◌++◌, ◌==◌, if◌then◌else◌}
use nfp_udp_echo.Base.Words.{add32, sub32, add64}
use nfp_udp_echo.Base.Slots.{advance}
use nfp_udp_echo.Base.Memory.{Mem, read_bytes}
use nfp_udp_echo.Firmware.Packet.{Pkt, mac_prepend_bytes}
use nfp_udp_echo.Firmware.Platform.{Platform}
use nfp_udp_echo.Firmware.Dma.{Context, dma_packet_recv}
use nfp_udp_echo.Firmware.Dma.Contiguous.{packet_view}
use nfp_udp_echo.Firmware.Txops.{NbiSend, allocate_packet, send_packet}
use nfp_udp_echo.Echo.Meta.{DeviceMeta}

pub data TxPc : Type 0 where
  boot : TxPc  -- waiting for `start_signal`
  allocate : TxPc  -- the head of `tx_process`
  wait : (pkt : Pkt) (card : Mem) (head updated_head : ℕ) → TxPc  -- before the read of `tx_tail`
  transfer : (pkt : Pkt) (card : Mem) (head updated_head : ℕ) → TxPc  -- before the DMA
  publish : (pkt : Pkt) (card : Mem) (updated_head : ℕ) → TxPc  -- before the write of `tx_head`
  send : (pkt : Pkt) (card : Mem) → TxPc  -- before `send_packet`

pub record TxState : Type 0 where
  pub pc : TxPc
  pub buffer_capacity : ℕ
  pub packet_size : ℕ

-- A frame on the network: what the library was told, and the bytes that it found in the packet.
pub record Sent : Type 0 where
  pub order : NbiSend
  pub frame : List ℕ

pub record TxView : Type 0 where
  pub tx : TxState
  pub meta : DeviceMeta
  pub mem : Mem
  pub sent : List Sent

-- What the two allocators return, and the uninitialised packet and the card's memory then.
pub record Allocation : Type 0 where
  pub pkt_num : ℕ
  pub buf : ℕ
  pub pkt : Pkt
  pub card : Mem

-- `pkt.nbi_meta.pkt_info.len = len`
abbrev pub set_len : ℕ → Pkt → Pkt
set_len len pkt = record pkt {
  nbi_meta = record (pkt.nbi_meta) { pkt_info = record (pkt.nbi_meta.pkt_info) { len = len } };
}

module _ (P : Platform) (t : Context) (island : ℕ) where
  -- Step 1 of `tx_process`, and the read of `tx_head` of step 2.
  unfoldable pub tx_allocate : Allocation → TxView → TxView
  tx_allocate a v =
      let (pkt, card) = allocate_packet P island a.pkt_num a.buf a.pkt a.card in
      record v {
        tx = record (v.tx) {
          pc =
              wait pkt card v.meta.tx_head
                (advance v.tx.packet_size v.tx.buffer_capacity v.meta.tx_head);
        };
      }

  -- The bytes that leave the card: those behind the MAC prepend.
  unfoldable pub wire_frame : Mem → Pkt → List ℕ
  wire_frame card pkt =
      read_bytes (packet_view P card pkt.nbi_meta.pkt_info) 68
        (sub32 pkt.nbi_meta.pkt_info.len mac_prepend_bytes)

  unfoldable pub tx_at : TxPc → Allocation → TxView → TxView
  tx_at boot a v = if v.meta.start_signal == 0 then v else record v {
    tx = record {
      pc = allocate;
      buffer_capacity = v.meta.buffer_size;
      packet_size = v.meta.packet_size;
    };
  }
  tx_at allocate a v = tx_allocate a v
  tx_at (wait pkt card head updated_head) _ v =
      if head == v.meta.tx_tail
      then v
      else record v { tx = record (v.tx) { pc = transfer pkt card head updated_head } }
  tx_at (transfer pkt card head updated_head) _ v =
      let m =
        dma_packet_recv P t pkt v.tx.packet_size (add64 v.meta.tx_buffer_iova head)
          (record { card = card; host = v.mem }) in
      record v {
        tx = record (v.tx) {
          pc = publish (set_len (add32 v.tx.packet_size mac_prepend_bytes) pkt) m.card updated_head;
        };
        mem = m.host;
      }
  tx_at (publish pkt card updated_head) _ v = record v {
    tx = record (v.tx) { pc = send pkt card };
    meta = record (v.meta) { tx_head = updated_head };
  }
  tx_at (send pkt card) _ v = record v {
    tx = record (v.tx) { pc = allocate };
    sent = v.sent ++ (record { order = send_packet pkt; frame = wire_frame card pkt } ∷ []);
  }

  unfoldable pub tx_step : Allocation → TxView → TxView
  unfolding tx_at
  tx_step a v = tx_at v.tx.pc a v
