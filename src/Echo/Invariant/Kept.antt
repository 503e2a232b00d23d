-- ===== src/Echo/Invariant/Kept.antt =====
-- What a step that leaves a program and its packets alone keeps of the invariant.
use nfp_udp_echo.Base.{
  ℕ, ◌+◌, ◌-◌, ◌≤◌, ◌≡◌, refl, ap, sym, ◌∙◌, List, some, arith, length, take, ◌++◌,
  take-append_left, get_elem?-append_left, ◌≢◌,
}
use nfp_udp_echo.Base.Memory.{Mem, read_bytes}
use nfp_udp_echo.Base.Slots.{pos, pos-zero}
use nfp_udp_echo.RingBuffer.{RingBuffer}
use nfp_udp_echo.Firmware.Platform.{Platform}
use nfp_udp_echo.Firmware.Dma.{Context}
use nfp_udp_echo.Echo.Meta.{DeviceMeta, Setup}
use nfp_udp_echo.Echo.Worker.{Worker, WorkerPc}
use nfp_udp_echo.Echo.Rx.{RxState, RxPc}
use nfp_udp_echo.Echo.Tx.{TxState, TxPc, Sent}
use nfp_udp_echo.Echo.System.{System}
use nfp_udp_echo.Echo.Invariant.Defs.{
  Counters, Rings, WorkerIs, RxRuns, RxIs, TxRuns, TxIs, Inv, Running,
}

still :
    (accepted new : List (List ℕ)) (k : ℕ)
    → k ≤ length accepted
    → take k accepted ≡ take k (accepted ++ new)
still accepted new k h = sym (take-append_left accepted new k h)

module _ (P : Platform) (t : Context) (island : ℕ) (S : Setup) (n p : ℕ) where
  pub RxIs-mono :
      (published : ℕ) {acked acked' : ℕ} (meta meta' : DeviceMeta) (mem mem' : Mem)
      (accepted : List (List ℕ)) (rx : RxState) (pc : RxPc)
      → acked ≤ acked'
      → (RxRuns P t island S n p rx meta → RxRuns P t island S n p rx meta')
      → read_bytes mem' (S.buffer_rx.iova + pos n p published) p
        ≡ read_bytes mem (S.buffer_rx.iova + pos n p published) p
      → RxIs P t island S n p published acked meta mem accepted rx pc
      → RxIs P t island S n p published acked' meta' mem' accepted rx pc
  RxIs-mono published meta meta' mem mem' accepted rx RxPc.boot le f e h = h
  RxIs-mono published meta meta' mem mem' accepted rx RxPc.receive le f e h = (f h.0, h.1)
  RxIs-mono published meta meta' mem mem' accepted rx (RxPc.wait _ _ _ _) le f e h =
      (f h.0, h.1, h.2, h.3, h.4)
  RxIs-mono published meta meta' mem mem' accepted rx (RxPc.transfer _ _ _ _) le f e h =
      (f h.0, h.1, h.2, h.3, h.4, omega arith)
  RxIs-mono published meta meta' mem mem' accepted rx (RxPc.publish _ _) le f e h =
      (f h.0, h.1, h.2, h.3 ∙ ap some (sym e), omega arith)

  pub TxIs-mono :
      (fetched : ℕ) {offered offered' : ℕ} (meta meta' : DeviceMeta) (accepted : List (List ℕ))
      (sent : List Sent) (tx : TxState) (pc : TxPc)
      → offered ≤ offered'
      → (TxRuns P t island S n p tx meta → TxRuns P t island S n p tx meta')
      → TxIs P t island S n p fetched offered meta accepted sent tx pc
      → TxIs P t island S n p fetched offered' meta' accepted sent tx pc
  TxIs-mono fetched meta meta' accepted sent tx TxPc.boot le f h = h
  TxIs-mono fetched meta meta' accepted sent tx TxPc.allocate le f h = (f h.0, h.1)
  TxIs-mono fetched meta meta' accepted sent tx (TxPc.wait _ _ _ _) le f h =
      (f h.0, h.1, h.2, h.3, h.4)
  TxIs-mono fetched meta meta' accepted sent tx (TxPc.transfer _ _ _ _) le f h =
      (f h.0, h.1, h.2, h.3, h.4, omega arith)
  TxIs-mono fetched meta meta' accepted sent tx (TxPc.publish _ _ _) le f h =
      (f h.0, h.1, h.2, h.3, omega arith)
  TxIs-mono fetched meta meta' accepted sent tx (TxPc.send _ _) le f h = (f h.0, h.1, h.2, h.3)

  pub at_zero : (k : ℕ) → k ≡ 0 → pos n p k ≡ 0
  at_zero k e = ap (pos n p) e ∙ pos-zero n p

  -- A step that only moves the worker's pointers on leaves the firmware's part.
  pub rx_kept :
      (c : Counters) (s : System) (acked' : ℕ) (meta' : DeviceMeta)
      → Inv P t island S n p c s
      → c.acked ≤ acked'
      → (RxRuns P t island S n p s.rx s.meta → RxRuns P t island S n p s.rx meta')
      → RxIs P t island S n p c.published acked' meta' s.mem s.accepted s.rx s.rx.pc
  rx_kept c s acked' meta' inv le f =
      RxIs-mono c.published s.meta meta' s.mem s.mem s.accepted s.rx s.rx.pc le f refl inv.rx

  pub tx_kept :
      (c : Counters) (s : System) (offered' : ℕ) (meta' : DeviceMeta)
      → Inv P t island S n p c s
      → c.offered ≤ offered'
      → (TxRuns P t island S n p s.tx s.meta → TxRuns P t island S n p s.tx meta')
      → TxIs P t island S n p c.fetched offered' meta' s.accepted s.sent s.tx s.tx.pc
  tx_kept c s offered' meta' inv le f =
      TxIs-mono c.fetched s.meta meta' s.accepted s.sent s.tx s.tx.pc le f inv.tx

  -- More accepted packets leave what has been sent.
  pub TxIs-accepted :
      (fetched offered : ℕ) (meta : DeviceMeta) (accepted new : List (List ℕ)) (sent : List Sent)
      (tx : TxState) (pc : TxPc)
      → fetched ≤ offered
      → offered ≤ length accepted
      → TxIs P t island S n p fetched offered meta accepted sent tx pc
      → TxIs P t island S n p fetched offered meta (accepted ++ new) sent tx pc
  TxIs-accepted fetched offered meta accepted new sent tx TxPc.boot l m h = h
  TxIs-accepted fetched offered meta accepted new sent tx TxPc.allocate l m h =
      (h.0, h.1 ∙ still accepted new fetched (omega arith))
  TxIs-accepted fetched offered meta accepted new sent tx (TxPc.wait _ _ _ _) l m h =
      (h.0, h.1 ∙ still accepted new fetched (omega arith), h.2, h.3, h.4)
  TxIs-accepted fetched offered meta accepted new sent tx (TxPc.transfer _ _ _ _) l m h =
      (h.0, h.1 ∙ still accepted new fetched (omega arith), h.2, h.3, h.4, h.5)
  TxIs-accepted fetched offered meta accepted new sent tx (TxPc.publish _ _ _) l m h = (
    h.0,
    h.1 ∙ still accepted new fetched (omega arith),
    h.2,
    get_elem?-append_left accepted new fetched (omega arith) ∙ h.3,
    h.4,
  )
  TxIs-accepted fetched offered meta accepted new sent tx (TxPc.send _ _) l m h = (
    h.0,
    h.1 ∙ still accepted new (fetched - 1) (omega arith),
    get_elem?-append_left accepted new (fetched - 1) (omega arith) ∙ h.2,
    h.3,
  )

  -- At most one accepted packet is on its way to the receive buffer.
  pub accepted_le :
      (published acked : ℕ) (meta : DeviceMeta) (mem : Mem) (accepted : List (List ℕ))
      (rx : RxState) (pc : RxPc)
      → RxIs P t island S n p published acked meta mem accepted rx pc
      → (published ≤ length accepted) × (length accepted ≤ published + 1)
  accepted_le published acked meta mem accepted rx RxPc.boot h = omega arith
  accepted_le published acked meta mem accepted rx RxPc.receive h = omega arith
  accepted_le published acked meta mem accepted rx (RxPc.wait _ _ _ _) h = omega arith
  accepted_le published acked meta mem accepted rx (RxPc.transfer _ _ _ _) h = omega arith
  accepted_le published acked meta mem accepted rx (RxPc.publish _ _) h = omega arith

  -- Where the start signal is set, the configuration is complete.
  pub WorkerIs-Running :
      (c : Counters) (meta : DeviceMeta) (w : Worker) (pc : WorkerPc)
      → meta.start_signal ≢ 0
      → WorkerIs S n p c meta w pc
      → Running S n p meta
  WorkerIs-Running c meta w WorkerPc.configure ne h = absurd (omega arith)
  WorkerIs-Running c meta w WorkerPc.start ne h = absurd (omega arith)
  WorkerIs-Running c meta w WorkerPc.poll_rx ne h = h.2
  WorkerIs-Running c meta w WorkerPc.poll_tx ne h = h.2
  WorkerIs-Running c meta w WorkerPc.check ne h = h.2
  WorkerIs-Running c meta w WorkerPc.write_tail ne h = h.2
  WorkerIs-Running c meta w WorkerPc.write_head ne h = h.2
  WorkerIs-Running c meta w WorkerPc.aborted ne h = absurd h

  Rings-kept :
      (c : Counters) (published' fetched' : ℕ) (rx tx : RingBuffer)
      → Rings S n p c rx tx
      → Rings S n p (record c { published = published'; fetched = fetched' }) rx tx
  Rings-kept c published' fetched' rx tx r = record {
    rx_base = r.rx_base;
    tx_base = r.tx_base;
    rx_counts = r.rx_counts;
    tx_counts = r.tx_counts;
  }

  -- What the firmware does while it runs leaves the worker's part.
  pub WorkerIs-firmware :
      (c : Counters) (published' fetched' : ℕ) (meta meta' : DeviceMeta) (w : Worker)
      (pc : WorkerPc)
      → meta.start_signal ≡ 1
      → (Running S n p meta → Running S n p meta')
      → WorkerIs S n p c meta w pc
      → WorkerIs S n p (record c { published = published'; fetched = fetched' }) meta' w pc
  WorkerIs-firmware c u v meta meta' w WorkerPc.configure e f h = absurd (omega arith)
  WorkerIs-firmware c u v meta meta' w WorkerPc.start e f h = absurd (omega arith)
  WorkerIs-firmware c u v meta meta' w WorkerPc.poll_rx e f h =
      (h.0, h.1, f h.2, Rings-kept c u v _ _ h.3)
  WorkerIs-firmware c u v meta meta' w WorkerPc.poll_tx e f h =
      (h.0, h.1, f h.2, Rings-kept c u v _ _ h.3)
  WorkerIs-firmware c u v meta meta' w WorkerPc.check e f h =
      (h.0, h.1, f h.2, Rings-kept c u v _ _ h.3)
  WorkerIs-firmware c u v meta meta' w WorkerPc.write_tail e f h =
      (h.0, h.1, f h.2, Rings-kept c u v _ _ h.3)
  WorkerIs-firmware c u v meta meta' w WorkerPc.write_head e f h =
      (h.0, h.1, f h.2, Rings-kept c u v _ _ h.3)
  WorkerIs-firmware c u v meta meta' w WorkerPc.aborted e f h = absurd h
