-- ===== src/Echo/Invariant/WorkerSteps.antt =====
-- Each step of the worker keeps the invariant.
mod View
mod Accesses
mod Forward
use nfp_udp_echo.Base.{
  ℕ, ◌+◌, ◌≡◌, refl, ap, sym, ◌∙◌, some, arith, inl, inr, ◌⊎◌, ◌≢◌, true, false, Bool-cases,
}
use nfp_udp_echo.Base.Memory.{read_bytes}
use nfp_udp_echo.Base.Slots.{pos}
use nfp_udp_echo.RingBuffer.{
  RingBuffer, ringbuffer_empty, ringbuffer_full, ringbuffer_pop, ringbuffer_push, ringbuffer_front,
  ringbuffer_back,
}
use nfp_udp_echo.RingBuffer.Counters.{Counts, empty_iff, full_iff, push_lem, pop_lem}
use nfp_udp_echo.Firmware.Platform.{Platform}
use nfp_udp_echo.Firmware.Dma.{Context}
use nfp_udp_echo.Echo.Meta.{Setup, IsSetup}
use nfp_udp_echo.Echo.Worker.{
  WorkerPc, Shared, configure, start, poll_rx, poll_tx, check, write_tail, write_head, aborted,
  worker_at, worker_step, forward, pop_push, copy_packet,
}
use nfp_udp_echo.Echo.System.{System, Event, step}
use nfp_udp_echo.Echo.Invariant.Defs.{Counters, Order, Stored, Rings, WorkerIs, Inv}
use nfp_udp_echo.Echo.Invariant.Kept.{at_zero, rx_kept, tx_kept, RxIs-mono}
use nfp_udp_echo.Echo.Invariant.Copy.{copied}
use nfp_udp_echo.Echo.Invariant.WorkerSteps.View.{view, after, Kept}
use nfp_udp_echo.Echo.Invariant.WorkerSteps.Accesses.{
  configure-Inv, start-Inv, poll_rx-Inv, poll_tx-Inv, write_tail-Inv, write_head-Inv,
}
use nfp_udp_echo.Echo.Invariant.WorkerSteps.Forward.{check-Inv}

module _ (P : Platform) (t : Context) (island : ℕ) (S : Setup) (n p : ℕ)
    (setup : IsSetup S n p) where
  worker_at-Inv :
      (pc : WorkerPc) (c : Counters) (s : System)
      → WorkerIs S n p c s.meta s.worker pc
      → Inv P t island S n p c s
      → Kept P t island S n p s pc
  worker_at-Inv configure = configure-Inv P t island S n p setup
  worker_at-Inv start = start-Inv P t island S n p setup
  worker_at-Inv poll_rx = poll_rx-Inv P t island S n p setup
  worker_at-Inv poll_tx = poll_tx-Inv P t island S n p setup
  worker_at-Inv check = check-Inv P t island S n p setup
  worker_at-Inv write_tail = write_tail-Inv P t island S n p setup
  worker_at-Inv write_head = write_head-Inv P t island S n p setup
  worker_at-Inv aborted = λ c s w inv. absurd w

  -- Each step of the worker keeps the invariant.
  pub worker-Inv :
      (c : Counters) (s : System)
      → Inv P t island S n p c s
      → (c' : Counters) × Inv P t island S n p c' (step P t island S Event.host s)
  unfolding step worker_step
  worker-Inv c s inv = worker_at-Inv s.worker.pc c s inv.worker inv
