-- ===== src/Echo/Rx.antt =====
-- firmware/rx.c: the program that moves packets from the network to the host, one access to shared
-- memory at a time.
use nfp_udp_echo.Base.{ℕ, List, [], ◌∷◌, ◌++◌, ◌==◌, if◌then◌else◌}
use nfp_udp_echo.Base.Words.{add64}
use nfp_udp_echo.Base.Slots.{advance}
use nfp_udp_echo.Base.Memory.{Mem, read_bytes}
use nfp_udp_echo.Firmware.Packet.{Pkt}
use nfp_udp_echo.Firmware.Platform.{Platform}
use nfp_udp_echo.Firmware.Dma.{Context, dma_packet_send}
use nfp_udp_echo.Firmware.Dma.Contiguous.{packet_view}
use nfp_udp_echo.Firmware.Rxops.{
  allow, drop, Release, filter_packets, modify_packet_header, write_packet_header, drop_packet,
}
use nfp_udp_echo.Echo.Meta.{DeviceMeta}

-- Where the program stands in `main` and `rx_process`. A packet comes with the card's memory.
pub data RxPc : Type 0 where
  boot : RxPc  -- waiting for `start_signal`
  receive : RxPc  -- the head of `rx_process`
  wait : (pkt : Pkt) (card : Mem) (tail updated_tail : ℕ) → RxPc  -- before the read of `rx_head`
  transfer : (pkt : Pkt) (card : Mem) (tail updated_tail : ℕ) → RxPc  -- before the DMA
  publish : (pkt : Pkt) (updated_tail : ℕ) → RxPc  -- before the write of `rx_tail`

-- `buffer_capacity` and `packet_size` are the program's copies of the configuration.
pub record RxState : Type 0 where
  pub pc : RxPc
  pub buffer_capacity : ℕ
  pub packet_size : ℕ

-- The program, the card's structure, the host's memory; the buffers given back so far, and the
-- frames that passed the filter so far, as they were then to be sent to the host.
pub record RxView : Type 0 where
  pub rx : RxState
  pub meta : DeviceMeta
  pub mem : Mem
  pub released : List Release
  pub accepted : List (List ℕ)

module _ (P : Platform) (t : Context) where
  -- The frame that the host is to see of a packet: what stands behind the MAC prepend.
  unfoldable pub frame_of : ℕ → Mem → Pkt → List ℕ
  frame_of packet_size card pkt =
      read_bytes (packet_view P card pkt.nbi_meta.pkt_info) 72 packet_size

  -- Steps 1 to 5 of `rx_process`, and the read of `rx_tail` of step 6.
  unfoldable pub rx_receive : Pkt → Mem → RxView → RxView
  unfolding frame_of
  rx_receive xfer card v = elim (filter_packets P v.rx.packet_size xfer) [
    | drop ↦ record v { released = v.released ++ drop_packet xfer }
    | allow ↦
        let pkt = modify_packet_header P xfer in
        let card' = write_packet_header P pkt card in
        record v {
          rx = record (v.rx) {
            pc =
                wait pkt card' v.meta.rx_tail
                  (advance v.rx.packet_size v.rx.buffer_capacity v.meta.rx_tail);
          };
          accepted = v.accepted ++ (frame_of v.rx.packet_size card' pkt ∷ []);
        }
  ]

  -- `pkt` and `card` are the packet that the hardware delivers, if the program receives one.
  unfoldable pub rx_at : RxPc → Pkt → Mem → RxView → RxView
  rx_at boot pkt card v = if v.meta.start_signal == 0 then v else record v {
    rx = record {
      pc = receive;
      buffer_capacity = v.meta.buffer_size;
      packet_size = v.meta.packet_size;
    };
  }
  rx_at receive pkt card v = rx_receive pkt card v
  rx_at (wait pkt card tail updated_tail) _ _ v =
      if updated_tail == v.meta.rx_head
      then v
      else record v { rx = record (v.rx) { pc = transfer pkt card tail updated_tail } }
  rx_at (transfer pkt card tail updated_tail) _ _ v = record v {
    rx = record (v.rx) { pc = publish pkt updated_tail };
    mem =
        (dma_packet_send P t pkt (add64 v.meta.rx_buffer_iova tail)
          (record { card = card; host = v.mem })).host;
  }
  rx_at (publish pkt updated_tail) _ _ v = record v {
    rx = record (v.rx) { pc = receive };
    meta = record (v.meta) { rx_tail = updated_tail };
    released = v.released ++ drop_packet pkt;
  }

  unfoldable pub rx_step : Pkt → Mem → RxView → RxView
  unfolding rx_at
  rx_step pkt card v = rx_at v.rx.pc pkt card v
