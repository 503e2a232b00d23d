-- ===== src/Echo/Invariant/WorkerSteps/Forward.antt =====
-- The worker's tests and its copy of a packet keep the invariant.
use nfp_udp_echo.Base.{
  ℕ, ◌+◌, ◌≡◌, ap, sym, ◌∙◌, some, arith, inl, inr, ◌⊎◌, ◌≢◌, true, false, Bool-cases,
}
use nfp_udp_echo.Base.Memory.{read_bytes}
use nfp_udp_echo.Base.Slots.{pos}
use nfp_udp_echo.RingBuffer.{
  RingBuffer, ringbuffer_empty, ringbuffer_full, ringbuffer_pop, ringbuffer_push, ringbuffer_front,
  ringbuffer_back,
}
use nfp_udp_echo.RingBuffer.Counters.{Counts, empty_iff, full_iff, push_lem, pop_lem}
use nfp_udp_echo.Firmware.Platform.{Platform}
use nfp_udp_echo.Firmware.Dma.{Context}
use nfp_udp_echo.Echo.Meta.{Setup, IsSetup}
use nfp_udp_echo.Echo.Worker.{
  Shared, poll_rx, check, write_tail, worker_at, forward, pop_push, copy_packet,
}
use nfp_udp_echo.Echo.System.{System}
use nfp_udp_echo.Echo.Invariant.Defs.{Counters, Stored, WorkerIs, Inv}
use nfp_udp_echo.Echo.Invariant.Kept.{RxIs-mono}
use nfp_udp_echo.Echo.Invariant.Copy.{copied}
use nfp_udp_echo.Echo.Invariant.WorkerSteps.View.{view, Kept}

forward_idle :
    (S : Setup) (v : Shared)
    → ((ringbuffer_empty v.worker.ring_rx ≡ true) ⊎ (ringbuffer_full v.worker.ring_tx ≡ true))
    → forward S v ≡ record v { worker = record (v.worker) { pc = poll_rx } }
unfolding forward
forward_idle S v h = ground arith

forward_copy :
    (S : Setup) (v : Shared) (rx tx : RingBuffer)
    → ringbuffer_empty v.worker.ring_rx ≡ false
    → ringbuffer_full v.worker.ring_tx ≡ false
    → ringbuffer_pop v.worker.ring_rx ≡ some rx
    → ringbuffer_push v.worker.ring_tx ≡ some tx
    → forward S v ≡ record v {
      mem =
          copy_packet S
            (ringbuffer_back v.worker.ring_tx)
            (ringbuffer_front v.worker.ring_rx)
            v.mem;
      worker = record { pc = write_tail; ring_rx = rx; ring_tx = tx };
    }
unfolding forward pop_push
forward_copy S v rx tx e f q r =
    rw (e, f)
      (ap
        (λ w. record v {
          mem =
              copy_packet S (ringbuffer_back v.worker.ring_tx) (ringbuffer_front v.worker.ring_rx)
                v.mem;
          worker = w;
        })
        (ground arith))

module _ (P : Platform) (t : Context) (island : ℕ) (S : Setup) (n p : ℕ)
    (setup : IsSetup S n p) where
  pub check_idle-Inv :
      (c : Counters) (s : System)
      → WorkerIs S n p c s.meta s.worker check
      → Inv P t island S n p c s
      → ((ringbuffer_empty s.worker.ring_rx ≡ true) ⊎ (ringbuffer_full s.worker.ring_tx ≡ true))
      → Kept P t island S n p s check
  unfolding worker_at
  check_idle-Inv c s w inv h = rw (forward_idle S (view s) h) (
    c,
    record {
      order = inv.order;
      pointers = inv.pointers;
      worker = w;
      rx_stored = inv.rx_stored;
      tx_stored = inv.tx_stored;
      rx = inv.rx;
      tx = inv.tx;
    },
  )

  pub check_copy-Inv :
      (c : Counters) (s : System)
      → WorkerIs S n p c s.meta s.worker check
      → Inv P t island S n p c s
      → ringbuffer_empty s.worker.ring_rx ≡ false
      → ringbuffer_full s.worker.ring_tx ≡ false
      → Kept P t island S n p s check
  unfolding worker_at
  check_copy-Inv c s w inv e f =
      rw (forward_copy S (view s) popped.0 pushed.0 e f popped.1 pushed.1) (
        record c { forwarded = c.forwarded + 1 },
        record {
          order = omega (arith, inv.order, popped.2, pushed.2);
          pointers = inv.pointers;
          worker = (
            omega (arith, w),
            omega (arith, w),
            w.2,
            record {
              rx_base = popped.3 ∙ w.3.rx_base;
              tx_base = pushed.3 ∙ w.3.tx_base;
              rx_counts = popped.2;
              tx_counts = pushed.2;
            },
          );
          rx_stored = new.0;
          tx_stored = new.1;
          rx =
              RxIs-mono P t island S n p c.published s.meta s.meta s.mem _ s.accepted s.rx s.rx.pc
                (omega arith) (λ r. r) (new.2 c.published) inv.rx;
          tx = inv.tx;
        },
      )
    where
      not_empty : c.forwarded ≢ c.seen_rx
      not_empty q = cc (sym e ∙ (empty_iff w.3.rx_counts).1 q)

      not_full : c.forwarded + 1 ≢ c.seen_tx + n
      not_full q = cc (sym f ∙ (full_iff w.3.tx_counts).1 q)

      popped :
          (rb' : RingBuffer) × (ringbuffer_pop s.worker.ring_rx ≡ some rb')
          × Counts n p (c.forwarded + 1) c.seen_rx rb'
          × (rb'.base_addr ≡ s.worker.ring_rx.base_addr)
      popped = pop_lem w.3.rx_counts not_empty

      pushed :
          (rb' : RingBuffer) × (ringbuffer_push s.worker.ring_tx ≡ some rb')
          × Counts n p c.seen_tx (c.forwarded + 1) rb'
          × (rb'.base_addr ≡ s.worker.ring_tx.base_addr)
      pushed = push_lem w.3.tx_counts not_full

      new :
          let mem' =
            copy_packet S
              (ringbuffer_back s.worker.ring_tx)
              (ringbuffer_front s.worker.ring_rx)
              s.mem in
          Stored S.buffer_rx.iova n p s.accepted mem' c.acked c.published
          × Stored S.buffer_tx.iova n p s.accepted mem' c.fetched (c.forwarded + 1)
          × ((j : ℕ)
              → read_bytes mem' (S.buffer_rx.iova + pos n p j) p
                ≡ read_bytes s.mem (S.buffer_rx.iova + pos n p j) p)
      new =
          copied S n p setup c _ _ s.mem s.accepted inv.order (omega (arith, inv.order, not_empty))
            w.3 inv.rx_stored inv.tx_stored

  pub check-Inv :
      (c : Counters) (s : System)
      → WorkerIs S n p c s.meta s.worker check
      → Inv P t island S n p c s
      → Kept P t island S n p s check
  check-Inv c s w inv = elim (Bool-cases (ringbuffer_empty s.worker.ring_rx)) [
    | inl e ↦ check_idle-Inv c s w inv (inl e)
    | inr e ↦ elim (Bool-cases (ringbuffer_full s.worker.ring_tx)) [
      | inl f ↦ check_idle-Inv c s w inv (inr f)
      | inr f ↦ check_copy-Inv c s w inv e f
    ]
  ]
