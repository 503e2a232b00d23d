-- ===== src/Echo/Invariant/WorkerSteps/Accesses.antt =====
-- The worker's accesses to shared memory keep the invariant.
use nfp_udp_echo.Base.{ℕ, refl, arith}
use nfp_udp_echo.Firmware.Platform.{Platform}
use nfp_udp_echo.Firmware.Dma.{Context}
use nfp_udp_echo.Echo.Meta.{Setup, IsSetup}
use nfp_udp_echo.Echo.Worker.{configure, start, poll_rx, poll_tx, write_tail, write_head, worker_at}
use nfp_udp_echo.Echo.System.{System}
use nfp_udp_echo.Echo.Invariant.Defs.{Counters, Order, Rings, WorkerIs, Inv}
use nfp_udp_echo.Echo.Invariant.Kept.{at_zero, rx_kept, tx_kept}
use nfp_udp_echo.Echo.Invariant.WorkerSteps.View.{view, Kept}

module _ (P : Platform) (t : Context) (island : ℕ) (S : Setup) (n p : ℕ)
    (setup : IsSetup S n p) where
  attached :
      (c : Counters) (s : System)
      → Order n c
      → WorkerIs S n p c s.meta s.worker configure
      → let w = (worker_at S configure (view s)).worker in Rings S n p c w.ring_rx w.ring_tx
  unfolding worker_at
  attached c s o w = record {
    rx_base = refl;
    tx_base = refl;
    rx_counts = omega (
      arith,
      setup,
      w,
      at_zero P t island S n p c.forwarded,
      at_zero P t island S n p c.seen_rx,
      o,
    );
    tx_counts = omega (
      arith,
      setup,
      w,
      at_zero P t island S n p c.forwarded,
      at_zero P t island S n p c.seen_tx,
      o,
    );
  }

  pub configure-Inv :
      (c : Counters) (s : System)
      → WorkerIs S n p c s.meta s.worker configure
      → Inv P t island S n p c s
      → Kept P t island S n p s configure
  unfolding worker_at
  configure-Inv c s w inv = (
    c,
    record {
      order = inv.order;
      pointers = omega (
        arith,
        at_zero P t island S n p c.acked,
        at_zero P t island S n p c.published,
        at_zero P t island S n p c.fetched,
        at_zero P t island S n p c.offered,
      );
      worker = (w.0, omega (arith, setup), attached c s inv.order w);
      rx_stored = inv.rx_stored;
      tx_stored = inv.tx_stored;
      rx =
          rx_kept P t island S n p c s c.acked (worker_at S configure (view s)).meta inv
            (omega arith) (λ r. absurd (omega arith));
      tx =
          tx_kept P t island S n p c s c.offered (worker_at S configure (view s)).meta inv
            (omega arith) (λ r. absurd (omega arith));
    },
  )

  pub start-Inv :
      (c : Counters) (s : System)
      → WorkerIs S n p c s.meta s.worker start
      → Inv P t island S n p c s
      → Kept P t island S n p s start
  unfolding worker_at
  start-Inv c s w inv = (
    c,
    record {
      order = inv.order;
      pointers = inv.pointers;
      worker = (omega arith, omega arith, (refl, w.1), w.2);
      rx_stored = inv.rx_stored;
      tx_stored = inv.tx_stored;
      rx =
          rx_kept P t island S n p c s c.acked (worker_at S start (view s)).meta inv (omega arith)
            (λ r. absurd (omega arith));
      tx =
          tx_kept P t island S n p c s c.offered (worker_at S start (view s)).meta inv (omega arith)
            (λ r. absurd (omega arith));
    },
  )

  pub poll_rx-Inv :
      (c : Counters) (s : System)
      → WorkerIs S n p c s.meta s.worker poll_rx
      → Inv P t island S n p c s
      → Kept P t island S n p s poll_rx
  unfolding worker_at
  poll_rx-Inv c s w inv = (
    record c { seen_rx = c.published },
    record {
      order = omega (arith, inv.order);
      pointers = inv.pointers;
      worker = (
        w.0,
        w.1,
        w.2,
        record {
          rx_base = w.3.rx_base;
          tx_base = w.3.tx_base;
          tx_counts = w.3.tx_counts;
          rx_counts = omega (arith, w.3.rx_counts, inv.order, inv.pointers);
        },
      );
      rx_stored = inv.rx_stored;
      tx_stored = inv.tx_stored;
      rx = inv.rx;
      tx = inv.tx;
    },
  )

  pub poll_tx-Inv :
      (c : Counters) (s : System)
      → WorkerIs S n p c s.meta s.worker poll_tx
      → Inv P t island S n p c s
      → Kept P t island S n p s poll_tx
  unfolding worker_at
  poll_tx-Inv c s w inv = (
    record c { seen_tx = c.fetched },
    record {
      order = omega (arith, inv.order);
      pointers = inv.pointers;
      worker = (
        w.0,
        w.1,
        w.2,
        record {
          rx_base = w.3.rx_base;
          tx_base = w.3.tx_base;
          rx_counts = w.3.rx_counts;
          tx_counts = omega (arith, w.3.tx_counts, inv.order, inv.pointers);
        },
      );
      rx_stored = inv.rx_stored;
      tx_stored = inv.tx_stored;
      rx = inv.rx;
      tx = inv.tx;
    },
  )

  pub write_tail-Inv :
      (c : Counters) (s : System)
      → WorkerIs S n p c s.meta s.worker write_tail
      → Inv P t island S n p c s
      → Kept P t island S n p s write_tail
  unfolding worker_at
  write_tail-Inv c s w inv = (
    record c { offered = c.forwarded },
    record {
      order = omega (arith, inv.order);
      pointers = omega (arith, w.3.tx_counts, inv.pointers);
      worker = (
        w.0,
        refl,
        w.2,
        record {
          rx_base = w.3.rx_base;
          tx_base = w.3.tx_base;
          rx_counts = w.3.rx_counts;
          tx_counts = w.3.tx_counts;
        },
      );
      rx_stored = inv.rx_stored;
      tx_stored = inv.tx_stored;
      rx =
          rx_kept P t island S n p c s c.acked (worker_at S write_tail (view s)).meta inv
            (omega arith) (λ r. r);
      tx =
          tx_kept P t island S n p c s c.forwarded (worker_at S write_tail (view s)).meta inv
            (omega arith) (λ r. r);
    },
  )

  pub write_head-Inv :
      (c : Counters) (s : System)
      → WorkerIs S n p c s.meta s.worker write_head
      → Inv P t island S n p c s
      → Kept P t island S n p s write_head
  unfolding worker_at
  write_head-Inv c s w inv = (
    record c { acked = c.forwarded },
    record {
      order = omega (arith, inv.order);
      pointers = omega (arith, w.3.rx_counts, inv.pointers);
      worker = (
        refl,
        w.1,
        w.2,
        record {
          rx_base = w.3.rx_base;
          tx_base = w.3.tx_base;
          rx_counts = w.3.rx_counts;
          tx_counts = w.3.tx_counts;
        },
      );
      rx_stored = λ k lo hi. inv.rx_stored k (omega arith) hi;
      tx_stored = inv.tx_stored;
      rx =
          rx_kept P t island S n p c s c.forwarded (worker_at S write_head (view s)).meta inv
            (omega arith) (λ r. r);
      tx =
          tx_kept P t island S n p c s c.offered (worker_at S write_head (view s)).meta inv
            (omega arith) (λ r. r);
    },
  )
