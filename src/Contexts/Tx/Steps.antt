-- ===== src/Contexts/Tx/Steps.antt =====
-- firmware/multi_tx.c: each step keeps the entries in order.
use nfp_udp_echo.Base.{
  ℕ, ◌+◌, ◌*◌, ◌^◌, ◌<◌, ◌≤◌, ◌≡◌, ◌≢◌, refl, sym, ap, ◌∙◌, subst, ◌⊎◌, ◌==◌, some, arith, on_if,
}
use nfp_udp_echo.Base.Slots.{advance}
use nfp_udp_echo.Base.Memory.{Mem}
use nfp_udp_echo.Base.Words.{add32, add64}
use nfp_udp_echo.Firmware.Packet.{Pkt, mac_prepend_bytes}
use nfp_udp_echo.Firmware.Platform.{Platform}
use nfp_udp_echo.Firmware.Dma.{Context, dma_packet_recv}
use nfp_udp_echo.Firmware.Txops.{allocate_packet}
use nfp_udp_echo.Echo.Tx.{Allocation, set_len}
use nfp_udp_echo.Contexts.Tx.{
  MultiTxPc, boot, allocate, wait, claim, transfer, order, publish, send, MultiTx, go, multi_tx_at,
  multi_tx_step, MultiTxReach, start, next, host,
}
use nfp_udp_echo.Contexts.Count.{
  Phase, asleep, idle, holding, publishing, Shared, entry_of, holds, here, there,
}
use nfp_udp_echo.Contexts.Order.{Held, RingSize}
use nfp_udp_echo.Contexts.Order.Moves.{
  Kept, quiet, take_entry, take_turn, publish_entry, at_start, configured_anew, publishing_lem,
  entries_lem,
}

abbrev pub phase_of : MultiTxPc → Phase
phase_of boot = asleep
phase_of allocate = idle
phase_of (wait pkt card) = idle
phase_of (claim pkt card tail) = idle
phase_of (transfer pkt card head updated_head) = holding head updated_head
phase_of (order pkt card head updated_head) = holding head updated_head
phase_of (publish pkt card head updated_head) = publishing head updated_head
phase_of (send pkt card) = idle

abbrev pub phases_of : MultiTx → ℕ → Phase
phases_of s i = phase_of (s.contexts i)

abbrev pub shared_of : MultiTx → Shared
shared_of s = record {
  start_signal = s.meta.start_signal;
  buffer_size = s.meta.buffer_size;
  entry_size = s.meta.packet_size;
  init = s.init;
  capacity = s.buffer_capacity;
  size = s.packet_size;
  shadow = s.shadow_head;
  pointer = s.meta.tx_head;
}

module _ (P : Platform) (t : Context) (island : ℕ) {m n p : ℕ} (R : RingSize m n p) where
  abbrev IsKept : MultiTx → Type 0
  IsKept s = Kept R (shared_of s) (phases_of s)

  -- A context that goes on in the same phase.
  go_on :
      (s : MultiTx) (i : ℕ) (was pc : MultiTxPc)
      → i < m
      → IsKept s
      → s.contexts i ≡ was
      → phase_of was ≡ phase_of pc
      → IsKept (go i pc s)
  go_on s i was pc l K e same =
      quiet R i (phase_of was) (phase_of pc) l K (there phase_of i pc s.contexts) (ap phase_of e)
        (here phase_of i pc s.contexts) (λ U T c. c) (λ h. h) (ap holds (sym same))
        (λ U T k h. subst (Held m n p U T k s.init) same h)

  step_at :
      (s : MultiTx) (i : ℕ) (pc : MultiTxPc) (a : Allocation)
      → i < m
      → IsKept s
      → s.contexts i ≡ pc
      → IsKept (multi_tx_at P t island i pc a s)
  unfolding multi_tx_at
  step_at s i boot a l K e =
      on_if IsKept (i == 0) _ _
        (λ _.
          on_if IsKept (s.meta.start_signal == 0) _ _ (λ _. K)
            (λ z.
              quiet R i asleep idle l K (there phase_of i allocate s.contexts) (ap phase_of e)
                (here phase_of i allocate s.contexts)
                (λ U T c. record {
                  config = c.config;
                  ready = λ _. c.config (ground arith);
                  shadow = c.shadow;
                  pointer = c.pointer;
                })
                (λ h. refl) refl (λ U T k h. refl)))
        (λ _.
          on_if IsKept s.init _ _
            (λ is.
              quiet R i asleep idle l K (there phase_of i allocate s.contexts) (ap phase_of e)
                (here phase_of i allocate s.contexts) (λ U T c. c) (λ h. h) refl (λ U T k h. is))
            (λ _. K))
  step_at s i allocate a l K e =
      let (pkt, card) = allocate_packet P island a.pkt_num a.buf a.pkt a.card in
      go_on s i allocate (wait pkt card) l K e refl
  step_at s i (wait pkt card) a l K e =
      go_on s i (wait pkt card) (claim pkt card s.meta.tx_tail) l K e refl
  step_at s i (claim pkt card tail) a l K e =
      let updated_head = advance s.packet_size s.buffer_capacity s.shadow_head in
      let pc = transfer pkt card s.shadow_head updated_head in
      on_if IsKept (s.shadow_head == tail) _ _
        (λ _. go_on s i (claim pkt card tail) (wait pkt card) l K e refl)
        (λ _.
          take_entry R i l K (there phase_of i pc s.contexts) (ap phase_of e)
            (here phase_of i pc s.contexts))
  step_at s i (transfer pkt card x y) a l K e =
      let m =
        dma_packet_recv P t pkt s.packet_size (add64 s.meta.tx_buffer_iova x)
          (record { card = card; host = s.mem }) in
      let pkt' = set_len (add32 s.packet_size mac_prepend_bytes) pkt in
      go_on s i (transfer pkt card x y) (order pkt' m.card x y) l K e refl
  step_at s i (order pkt card x y) a l K e =
      let pc = publish pkt card x y in
      on_if IsKept (s.meta.tx_head == x) _ _
        (λ q.
          take_turn R i x y l K (there phase_of i pc s.contexts) (ap phase_of e) (ground (arith, q))
            (here phase_of i pc s.contexts))
        (λ _. K)
  step_at s i (publish pkt card x y) a l K e =
      let pc = send pkt card in
      publish_entry R i x y l K (there phase_of i pc s.contexts) (ap phase_of e)
        (here phase_of i pc s.contexts)
  step_at s i (send pkt card) a l K e = go_on s i (send pkt card) allocate l K e refl

  reach-IsKept : (mem : Mem) (s : MultiTx) → MultiTxReach P t island m n p mem s → IsKept s
  unfolding multi_tx_step
  reach-IsKept mem s start = at_start R _ refl refl refl refl
  reach-IsKept mem s (next {s = s'} i a r l) =
      step_at s' i (s'.contexts i) a l (reach-IsKept mem s' r) refl
  reach-IsKept mem s (host {s = s'} meta mem' r (tail_eq, says)) =
      configured_anew R (reach-IsKept mem s' r)
        (λ U T c. record {
          config = says;
          ready = c.ready;
          shadow = c.shadow;
          pointer = tail_eq ∙ c.pointer;
        })
        refl

module _ (P : Platform) (t : Context) (island : ℕ) (m n p : ℕ) (some_entries : 0 < n) (few : m ≤ n)
    (some_bytes : 0 < p) (fits : n * p < 2 ^ 32) where
  size : RingSize m n p
  size = record { some_entries = some_entries; few = few; some_bytes = some_bytes; fits = fits }

  -- In every reachable state, a context that is about to write `tx_head` finds it at the entry that
  -- it took itself, and writes the entry behind it: whatever the order in which the contexts run,
  -- entries are given back to the host one by one, in the order in which they were taken.
  pub freed_in_order :
      (mem : Mem) (s : MultiTx)
      → MultiTxReach P t island m n p mem s
      → (i : ℕ) (pkt : Pkt) (card : Mem) (head updated_head : ℕ) → i < m
      → s.contexts i ≡ publish pkt card head updated_head
      → (s.meta.tx_head ≡ head) × (updated_head ≡ advance p (n * p) head)
  freed_in_order mem s r i pkt card x y l e =
      publishing_lem size i x y l (reach-IsKept P t island size mem s r) (ap phase_of e)

  -- In every reachable state, the entries that two contexts have taken and not yet given back lie
  -- inside the buffer and do not overlap.
  pub reads_apart :
      (mem : Mem) (s : MultiTx)
      → MultiTxReach P t island m n p mem s
      → (i j x y : ℕ) → i < m
      → j < m
      → i ≢ j
      → entry_of (phases_of s i) ≡ some x
      → entry_of (phases_of s j) ≡ some y
      → (x + p ≤ n * p) × (y + p ≤ n * p) × ((x + p ≤ y) ⊎ (y + p ≤ x))
  reads_apart mem s r i j x y l q ne ex ey =
      entries_lem size i j x y l q ne (reach-IsKept P t island size mem s r) ex ey
