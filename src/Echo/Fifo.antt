-- ===== src/Echo/Fifo.antt =====
-- What the echo system promises in every reachable state.
use mathlib.Core.List.{map}
use nfp_udp_echo.Base.{
  ℕ, zero, suc, ◌+◌, ◌-◌, ◌*◌, ◌≤◌, ◌≡◌, ◌≢◌, refl, ap, sym, ◌∙◌, subst, List, [], ◌∷◌, length,
  take, arith,
}
use nfp_udp_echo.Base.Memory.{Mem}
use nfp_udp_echo.Base.Slots.{pos-bound}
use nfp_udp_echo.Firmware.Platform.{Platform, IsNfp}
use nfp_udp_echo.Firmware.Dma.{Context}
use nfp_udp_echo.Echo.Meta.{DeviceMeta, Setup, IsSetup}
use nfp_udp_echo.Echo.Worker.{WorkerPc}
use nfp_udp_echo.Echo.Tx.{TxState, TxPc, Sent}
use nfp_udp_echo.Echo.System.{System, Reach}
use nfp_udp_echo.Echo.Invariant.{Reach-Inv}
use nfp_udp_echo.Echo.Invariant.Defs.{SentFirst, WorkerIs, TxIs}
use nfp_udp_echo.Echo.Invariant.Kept.{accepted_le}

abbrev pub frames : System → List (List ℕ)
frames s = map (λ x. x.frame) s.sent

length-take_le {ℓ} : {A : Type ℓ} (k : ℕ) (xs : List A) → k ≤ length xs → length (take k xs) ≡ k
length-take_le zero xs h = refl
length-take_le (suc k) [] h = absurd (omega arith)
length-take_le (suc k) (x ∷ xs) h = ap suc (length-take_le k xs (omega arith))

length-frames : (xs : List Sent) → length (map (λ x. x.frame) xs) ≡ length xs
length-frames [] = refl
length-frames (x ∷ xs) = ap suc (length-frames xs)

-- How many frames have been sent, by where the program stands.
sent_count :
    (P : Platform) (t : Context) (island : ℕ) (S : Setup) (n p fetched offered : ℕ)
    (meta : DeviceMeta) (accepted : List (List ℕ)) (sent : List Sent) (tx : TxState) (pc : TxPc)
    → TxIs P t island S n p fetched offered meta accepted sent tx pc
    → (k : ℕ) × (k ≤ fetched) × (fetched ≤ k + 1) × SentFirst k accepted sent
sent_count P t island S n p f o meta accepted sent tx TxPc.boot h =
    (0, omega arith, omega arith, h.1)
sent_count P t island S n p f o meta accepted sent tx TxPc.allocate h =
    (f, omega arith, omega arith, h.1)
sent_count P t island S n p f o meta accepted sent tx (TxPc.wait _ _ _ _) h =
    (f, omega arith, omega arith, h.1)
sent_count P t island S n p f o meta accepted sent tx (TxPc.transfer _ _ _ _) h =
    (f, omega arith, omega arith, h.1)
sent_count P t island S n p f o meta accepted sent tx (TxPc.publish _ _ _) h =
    (f, omega arith, omega arith, h.1)
sent_count P t island S n p f o meta accepted sent tx (TxPc.send _ _) h =
    (f - 1, omega arith, omega arith, h.1)

module _ (P : Platform) (nfp : IsNfp P) (t : Context) (island : ℕ) (S : Setup) (n p : ℕ)
    (setup : IsSetup S n p) where
  -- In every reachable state, whatever the interleaving, the frames sent to the network are the
  -- first frames accepted from it, byte for byte, in order, none lost, doubled or made up; and at
  -- most `2 * n` accepted frames are still to be sent, for buffers of `n` entries.
  pub echo_fifo :
      (mem : Mem) (s : System)
      → Reach P t island S mem s
      → (frames s ≡ take (length s.sent) s.accepted)
        × (length s.sent ≤ length s.accepted)
        × (length s.accepted ≤ length s.sent + 2 * n)
  echo_fifo mem s r =
      let (c, inv) = Reach-Inv P nfp t island S n p setup mem s r in
      let (k, le, ge, e) =
        sent_count P t island S n p c.fetched c.offered s.meta s.accepted s.sent s.tx s.tx.pc
          inv.tx in
      let all =
        accepted_le P t island S n p c.published c.acked s.meta s.mem s.accepted s.rx s.rx.pc
          inv.rx in
      let count : length s.sent ≡ k =
        sym (length-frames s.sent)
        ∙ ap length e
        ∙ length-take_le k s.accepted (omega (arith, inv.order)) in
      (
        e ∙ ap (λ i. take i s.accepted) (sym count),
        omega (arith, inv.order),
        omega (arith, inv.order),
      )

  -- In no reachable state has an assertion of the worker's rings failed.
  pub worker_never_aborts :
      (mem : Mem) (s : System) → Reach P t island S mem s → s.worker.pc ≢ WorkerPc.aborted
  worker_never_aborts mem s r e =
      let (c, inv) = Reach-Inv P nfp t island S n p setup mem s r in
      subst (WorkerIs S n p c s.meta s.worker) e inv.worker

  -- In every reachable state the four pointers that host and card share name whole entries inside
  -- the buffers.
  pub pointers_in_bounds :
      (mem : Mem) (s : System)
      → Reach P t island S mem s
      → (s.meta.rx_head + p ≤ n * p)
        × (s.meta.rx_tail + p ≤ n * p)
        × (s.meta.tx_head + p ≤ n * p)
        × (s.meta.tx_tail + p ≤ n * p)
  pointers_in_bounds mem s r =
      let (c, inv) = Reach-Inv P nfp t island S n p setup mem s r in
      omega (
        arith,
        inv.pointers,
        pos-bound n p c.acked some_entries,
        pos-bound n p c.published some_entries,
        pos-bound n p c.fetched some_entries,
        pos-bound n p c.offered some_entries,
      )
    where
      open setup use {some_entries}
