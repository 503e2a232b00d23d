-- ===== src/Tests/Echo.antt =====
-- One packet from the network to the network.
use nfp_udp_echo.Base.{◌+◌, ◌*◌, ◌≤◌, ◌≡◌, ◌≢◌, refl, List, [], ◌∷◌, length, take, arith, inl}
use nfp_udp_echo.Base.Memory.{Mem}
use nfp_udp_echo.Base.Memory.{read_bytes, write_bytes}
use nfp_udp_echo.Base.Slots.{advance}
use nfp_udp_echo.RingBuffer.{
  ringbuffer_empty, ringbuffer_full, ringbuffer_pop, ringbuffer_push, ringbuffer_front,
  ringbuffer_back,
}
use nfp_udp_echo.Firmware.Dma.{
  dma_packet_send, dma_packet_recv, transfer, min, mu_buffer, dma_op, pcie_dma_desc_setup,
}
use nfp_udp_echo.Firmware.Rxops.{
  filter_packets, modify_packet_header, write_packet_header, swap_addresses,
}
use nfp_udp_echo.Firmware.Txops.{allocate_packet}
use nfp_udp_echo.Echo.Worker.{
  worker_step, worker_at, configure_device, attach, forward, pop_push, copy_packet,
}
use nfp_udp_echo.Echo.Rx.{rx_step, rx_at, rx_receive, frame_of}
use nfp_udp_echo.Echo.Tx.{tx_step, tx_at, tx_allocate, wire_frame}
use nfp_udp_echo.Echo.System.{step}
use nfp_udp_echo.Echo.Meta.{Setup, IsSetup}
use nfp_udp_echo.Echo.Worker.{WorkerPc}
use nfp_udp_echo.Echo.System.{System, Event, init, run, run-Reach, Reach, start, AllAllowed}
use nfp_udp_echo.Echo.Fifo.{frames, echo_fifo, worker_never_aborts, pointers_in_bounds}
use nfp_udp_echo.Tests.Platform.{card, card-IsNfp, context, udp_packet}

-- Two entries of 4 bytes; virtual addresses are I/O addresses.
abbrev setup : Setup
setup = record {
  udp_packet_size = 4;
  ring_buffer_size = 8;
  buffer_rx = record { iova = 1000; addr = 1000 };
  buffer_tx = record { iova = 2000; addr = 2000 };
  phys = λ v. v;
}

setup-IsSetup : IsSetup setup 2 4
setup-IsSetup = record {
  some_entries = omega arith;
  some_bytes = omega arith;
  short = omega arith;
  fits = omega arith;
  packet_eq = refl;
  ring_eq = refl;
  zone_rx = record { translated = λ i h. refl; reachable = omega arith };
  zone_tx = record { translated = λ i h. refl; reachable = omega arith };
  zones_apart = inl (omega arith);
}

abbrev pub zeros : Mem
zeros = λ _. 0

abbrev pub receive : Event
receive = Event.rx udp_packet zeros

abbrev pub allocate : Event
allocate = Event.tx (record { pkt_num = 3; buf = 10; pkt = udp_packet; card = zeros })

-- The host configures, both programs boot, a packet goes through, and two more steps of the host.
abbrev pub schedule : List Event
schedule =
    Event.host ∷ Event.host ∷ receive ∷ receive ∷ receive ∷ receive ∷ receive ∷ allocate
    ∷ Event.host ∷ Event.host ∷ Event.host ∷ allocate ∷ Event.host ∷ Event.host ∷ allocate
    ∷ allocate ∷ allocate ∷ allocate ∷ []

abbrev final : System
final = run card context 1 setup schedule (init zeros)

schedule-AllAllowed : AllAllowed card context 1 setup schedule
unfolding allocate_packet
schedule-AllAllowed = omega arith

final-Reach : Reach card context 1 setup zeros final
final-Reach = run-Reach card context 1 setup zeros schedule (init zeros) schedule-AllAllowed start

-- The echo of the packet leaves with its addresses exchanged.
final-frames : frames final ≡ (0xb2 ∷ 0xa1 ∷ 0xc3 ∷ 0xd4 ∷ []) ∷ []
unfolding run step worker_step worker_at configure_device attach forward pop_push copy_packet
    rx_step rx_at rx_receive frame_of tx_step tx_at tx_allocate wire_frame filter_packets
    modify_packet_header write_packet_header swap_addresses advance allocate_packet ringbuffer_empty
    ringbuffer_full ringbuffer_pop ringbuffer_push ringbuffer_front ringbuffer_back dma_packet_send
    dma_packet_recv transfer min mu_buffer dma_op pcie_dma_desc_setup read_bytes write_bytes
final-frames = refl

echo_fifo_example :
    (frames final ≡ take (length final.sent) final.accepted)
    × (length final.sent ≤ length final.accepted)
    × (length final.accepted ≤ length final.sent + 2 * 2)
echo_fifo_example =
    echo_fifo card card-IsNfp context 1 setup 2 4 setup-IsSetup zeros final final-Reach

worker_never_aborts_example : final.worker.pc ≢ WorkerPc.aborted
worker_never_aborts_example =
    worker_never_aborts card card-IsNfp context 1 setup 2 4 setup-IsSetup zeros final final-Reach

pointers_in_bounds_example :
    (final.meta.rx_head + 4 ≤ 2 * 4)
    × (final.meta.rx_tail + 4 ≤ 2 * 4)
    × (final.meta.tx_head + 4 ≤ 2 * 4)
    × (final.meta.tx_tail + 4 ≤ 2 * 4)
pointers_in_bounds_example =
    pointers_in_bounds card card-IsNfp context 1 setup 2 4 setup-IsSetup zeros final final-Reach
