-- ===== src/Echo/Worker.antt =====
-- `udp_worker` and `configure_device` of user/app_main.c, one access to shared memory at a time.
-- The tests and the copy of a packet are one step.
use nfp_udp_echo.Base.{ℕ, not, ◌&&◌, none, some, if◌then◌else◌}
use nfp_udp_echo.Base.Memory.{Mem, read_bytes, write_bytes}
use nfp_udp_echo.RingBuffer.{
  RingBuffer, ringbuffer_empty, ringbuffer_full, ringbuffer_front, ringbuffer_back, ringbuffer_push,
  ringbuffer_pop,
}
use nfp_udp_echo.Echo.Meta.{DeviceMeta, Setup}

-- Where the worker stands.
pub data WorkerPc : Type 0 where
  configure : WorkerPc  -- before `configure_device`
  start : WorkerPc  -- before the write of `start_signal`
  poll_rx : WorkerPc  -- before the read of `rx_tail`, the head of the loop
  poll_tx : WorkerPc  -- before the read of `tx_head`
  check : WorkerPc  -- before the tests and the copy
  write_tail : WorkerPc  -- before the write of `tx_tail`
  write_head : WorkerPc  -- before the write of `rx_head`
  aborted : WorkerPc  -- an `assert` has failed

-- The worker with `ring_rx` and `ring_tx`, static variables of the file, zero at first.
pub record Worker : Type 0 where
  pub pc : WorkerPc
  pub ring_rx : RingBuffer
  pub ring_tx : RingBuffer

-- The worker, the card's structure and the host's memory.
pub record Shared : Type 0 where
  pub worker : Worker
  pub meta : DeviceMeta
  pub mem : Mem

module _ (S : Setup) where
  -- All of `configure_device` up to the barrier.
  unfoldable pub configure_device : DeviceMeta → DeviceMeta
  configure_device meta = record meta {
    packet_size = S.udp_packet_size;
    buffer_size = S.ring_buffer_size;
    rx_buffer_iova = S.buffer_rx.iova;
    tx_buffer_iova = S.buffer_tx.iova;
    rx_head = 0;
    rx_tail = 0;
    tx_head = 0;
    tx_tail = 0;
  }

  unfoldable pub attach : ℕ → RingBuffer → RingBuffer
  attach addr ring = record ring {
    base_addr = addr;
    capacity = S.ring_buffer_size;
    entry_size = S.udp_packet_size;
  }

  -- `memcpy(writeptr, readptr, UDP_PACKET_SIZE)`
  unfoldable pub copy_packet : ℕ → ℕ → Mem → Mem
  copy_packet writeptr readptr mem =
      write_bytes mem (S.phys writeptr) (read_bytes mem (S.phys readptr) S.udp_packet_size)

  -- The pop of `ring_rx` and the push of `ring_tx`, either of which may abort.
  unfoldable pub pop_push : Worker → Worker
  pop_push w = elim (ringbuffer_pop w.ring_rx) [
    | none ↦ record w { pc = aborted }
    | some rx ↦ elim (ringbuffer_push w.ring_tx) [
      | none ↦ record w { pc = aborted; ring_rx = rx }
      | some tx ↦ record w { pc = write_tail; ring_rx = rx; ring_tx = tx }
    ]
  ]

  -- The body of the `if` of the loop, or the next round.
  unfoldable pub forward : Shared → Shared
  unfolding copy_packet
  forward s =
      let w = s.worker in
      if not (ringbuffer_empty w.ring_rx) && not (ringbuffer_full w.ring_tx)
      then record s {
        mem = copy_packet (ringbuffer_back w.ring_tx) (ringbuffer_front w.ring_rx) s.mem;
        worker = pop_push w;
      }
      else record s { worker = record w { pc = poll_rx } }

  -- The structure on the card is there: the return of `udp_worker` where `nfp_rtsym_map` does not
  -- find it is left out.
  unfoldable pub worker_at : WorkerPc → Shared → Shared
  unfolding configure_device attach forward
  worker_at configure s = record s {
    worker = record {
      pc = start;
      ring_rx = attach S.buffer_rx.addr s.worker.ring_rx;
      ring_tx = attach S.buffer_tx.addr s.worker.ring_tx;
    };
    meta = configure_device s.meta;
  }
  worker_at start s = record s {
    worker = record (s.worker) { pc = poll_rx };
    meta = record (s.meta) { start_signal = 1 };
  }
  worker_at poll_rx s = record s {
    worker = record (s.worker) {
      pc = poll_tx;
      ring_rx = record (s.worker.ring_rx) { tail = s.meta.rx_tail };
    };
  }
  worker_at poll_tx s = record s {
    worker = record (s.worker) {
      pc = check;
      ring_tx = record (s.worker.ring_tx) { head = s.meta.tx_head };
    };
  }
  worker_at check s = forward s
  worker_at write_tail s = record s {
    worker = record (s.worker) { pc = write_head };
    meta = record (s.meta) { tx_tail = s.worker.ring_tx.tail };
  }
  worker_at write_head s = record s {
    worker = record (s.worker) { pc = poll_rx };
    meta = record (s.meta) { rx_head = s.worker.ring_rx.head };
  }
  worker_at aborted s = s

  unfoldable pub worker_step : Shared → Shared
  unfolding worker_at
  worker_step s = worker_at s.worker.pc s
