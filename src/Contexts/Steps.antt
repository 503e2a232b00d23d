-- ===== src/Contexts/Steps.antt =====
-- firmware/multi_rx.c: each step keeps the entries in order.
use nfp_udp_echo.Base.{
  ℕ, ◌+◌, ◌*◌, ◌^◌, ◌<◌, ◌≤◌, ◌≡◌, ◌≢◌, refl, sym, ap, ◌∙◌, subst, ◌⊎◌, inl, inr, ◌==◌, some, ◌++◌,
  arith, on_if,
}
use nfp_udp_echo.Base.Slots.{advance}
use nfp_udp_echo.Base.Memory.{Mem}
use nfp_udp_echo.Firmware.Packet.{Pkt}
use nfp_udp_echo.Firmware.Platform.{Platform}
use nfp_udp_echo.Firmware.Dma.{Context}
use nfp_udp_echo.Firmware.Rxops.{
  Verdict, allow, drop, filter_packets, modify_packet_header, write_packet_header, drop_packet,
}
use nfp_udp_echo.Contexts.{
  MultiPc, boot, receive, wait, claim, transfer, order, publish, MultiRx, go, multi_receive,
  multi_rx_at, multi_rx_step, MultiReach, start, next, host,
}
use nfp_udp_echo.Contexts.Count.{
  Phase, asleep, idle, holding, publishing, Shared, entry_of, holds, here, there,
}
use nfp_udp_echo.Contexts.Order.{Held, RingSize}
use nfp_udp_echo.Contexts.Order.Moves.{
  Kept, quiet, take_entry, take_turn, publish_entry, at_start, configured_anew, publishing_lem,
  entries_lem,
}

Verdict-cases : (v : Verdict) → (v ≡ allow) ⊎ (v ≡ drop)
Verdict-cases allow = inl refl
Verdict-cases drop = inr refl

abbrev pub phase_of : MultiPc → Phase
phase_of boot = asleep
phase_of receive = idle
phase_of (wait pkt card) = idle
phase_of (claim pkt card head) = idle
phase_of (transfer pkt card tail updated_tail) = holding tail updated_tail
phase_of (order pkt tail updated_tail) = holding tail updated_tail
phase_of (publish pkt tail updated_tail) = publishing tail updated_tail

abbrev pub phases_of : MultiRx → ℕ → Phase
phases_of s i = phase_of (s.contexts i)

abbrev pub shared_of : MultiRx → Shared
shared_of s = record {
  start_signal = s.meta.start_signal;
  buffer_size = s.meta.buffer_size;
  entry_size = s.meta.packet_size;
  init = s.init;
  capacity = s.buffer_capacity;
  size = s.packet_size;
  shadow = s.shadow_tail;
  pointer = s.meta.rx_tail;
}

module _ (P : Platform) (t : Context) {m n p : ℕ} (R : RingSize m n p) where
  abbrev IsKept : MultiRx → Type 0
  IsKept s = Kept R (shared_of s) (phases_of s)

  -- A context that goes on in the same phase.
  go_on :
      (s : MultiRx) (i : ℕ) (was pc : MultiPc)
      → i < m
      → IsKept s
      → s.contexts i ≡ was
      → phase_of was ≡ phase_of pc
      → IsKept (go i pc s)
  go_on s i was pc l K e same =
      quiet R i (phase_of was) (phase_of pc) l K (there phase_of i pc s.contexts) (ap phase_of e)
        (here phase_of i pc s.contexts) (λ U T c. c) (λ h. h) (ap holds (sym same))
        (λ U T k h. subst (Held m n p U T k s.init) same h)

  receive-IsKept :
      (s : MultiRx) (i : ℕ) (pkt : Pkt) (card : Mem)
      → i < m
      → IsKept s
      → s.contexts i ≡ receive
      → IsKept (multi_receive P t i pkt card s)
  unfolding multi_receive
  receive-IsKept s i pkt card l K e = elim (Verdict-cases (filter_packets P s.packet_size pkt)) [
    | inl v ↦
        let xfer = modify_packet_header P pkt in
        let pc = wait xfer (write_packet_header P xfer card) in
        let eq : multi_receive P t i pkt card s ≡ go i pc s = rw (multi_receive, v) refl in
        subst IsKept (sym eq) (go_on s i receive pc l K e refl)
    | inr v ↦
        let eq : multi_receive P t i pkt card s
            ≡ record s { released = s.released ++ drop_packet pkt } =
          rw (multi_receive, v) refl in
        subst IsKept (sym eq) K
  ]

  step_at :
      (s : MultiRx) (i : ℕ) (pc : MultiPc) (pkt : Pkt) (card : Mem)
      → i < m
      → IsKept s
      → s.contexts i ≡ pc
      → IsKept (multi_rx_at P t i pc pkt card s)
  unfolding multi_rx_at
  step_at s i boot pkt card l K e =
      on_if IsKept (i == 0) _ _
        (λ _.
          on_if IsKept (s.meta.start_signal == 0) _ _ (λ _. K)
            (λ z.
              quiet R i asleep idle l K (there phase_of i receive s.contexts) (ap phase_of e)
                (here phase_of i receive s.contexts)
                (λ U T c. record {
                  config = c.config;
                  ready = λ _. c.config (ground arith);
                  shadow = c.shadow;
                  pointer = c.pointer;
                })
                (λ h. refl) refl (λ U T k h. refl)))
        (λ _.
          on_if IsKept s.init _ _
            (λ is.
              quiet R i asleep idle l K (there phase_of i receive s.contexts) (ap phase_of e)
                (here phase_of i receive s.contexts) (λ U T c. c) (λ h. h) refl (λ U T k h. is))
            (λ _. K))
  step_at s i receive pkt card l K e = receive-IsKept s i pkt card l K e
  step_at s i (wait pkt' card') pkt card l K e =
      go_on s i (wait pkt' card') (claim pkt' card' s.meta.rx_head) l K e refl
  step_at s i (claim pkt' card' head) pkt card l K e =
      let updated_tail = advance s.packet_size s.buffer_capacity s.shadow_tail in
      let pc = transfer pkt' card' s.shadow_tail updated_tail in
      on_if IsKept (updated_tail == head) _ _
        (λ _. go_on s i (claim pkt' card' head) (wait pkt' card') l K e refl)
        (λ _.
          take_entry R i l K (there phase_of i pc s.contexts) (ap phase_of e)
            (here phase_of i pc s.contexts))
  step_at s i (transfer pkt' card' x y) pkt card l K e =
      go_on s i (transfer pkt' card' x y) (order pkt' x y) l K e refl
  step_at s i (order pkt' x y) pkt card l K e =
      let pc = publish pkt' x y in
      on_if IsKept (s.meta.rx_tail == x) _ _
        (λ q.
          take_turn R i x y l K (there phase_of i pc s.contexts) (ap phase_of e) (ground (arith, q))
            (here phase_of i pc s.contexts))
        (λ _. K)
  step_at s i (publish pkt' x y) pkt card l K e =
      publish_entry R i x y l K (there phase_of i receive s.contexts) (ap phase_of e)
        (here phase_of i receive s.contexts)

  reach-IsKept : (mem : Mem) (s : MultiRx) → MultiReach P t m n p mem s → IsKept s
  unfolding multi_rx_step
  reach-IsKept mem s start = at_start R _ refl refl refl refl
  reach-IsKept mem s (next {s = s'} i pkt card r l) =
      step_at s' i (s'.contexts i) pkt card l (reach-IsKept mem s' r) refl
  reach-IsKept mem s (host {s = s'} meta mem' r (tail_eq, says)) =
      configured_anew R (reach-IsKept mem s' r)
        (λ U T c. record {
          config = says;
          ready = c.ready;
          shadow = c.shadow;
          pointer = tail_eq ∙ c.pointer;
        })
        refl

module _ (P : Platform) (t : Context) (m n p : ℕ) (some_entries : 0 < n) (few : m ≤ n)
    (some_bytes : 0 < p) (fits : n * p < 2 ^ 32) where
  size : RingSize m n p
  size = record { some_entries = some_entries; few = few; some_bytes = some_bytes; fits = fits }

  -- In every reachable state, a context that is about to write `rx_tail` finds it at the entry that
  -- it took itself, and writes the entry behind it: whatever the order in which the contexts run,
  -- entries are published one by one, in the order in which they were taken.
  pub published_in_order :
      (mem : Mem) (s : MultiRx)
      → MultiReach P t m n p mem s
      → (i : ℕ) (pkt : Pkt) (tail updated_tail : ℕ) → i < m
      → s.contexts i ≡ publish pkt tail updated_tail
      → (s.meta.rx_tail ≡ tail) × (updated_tail ≡ advance p (n * p) tail)
  published_in_order mem s r i pkt x y l e =
      publishing_lem size i x y l (reach-IsKept P t size mem s r) (ap phase_of e)

  -- In every reachable state, the entries that two contexts have taken and not yet published lie
  -- inside the buffer and do not overlap.
  pub entries_apart :
      (mem : Mem) (s : MultiRx)
      → MultiReach P t m n p mem s
      → (i j x y : ℕ) → i < m
      → j < m
      → i ≢ j
      → entry_of (phases_of s i) ≡ some x
      → entry_of (phases_of s j) ≡ some y
      → (x + p ≤ n * p) × (y + p ≤ n * p) × ((x + p ≤ y) ⊎ (y + p ≤ x))
  entries_apart mem s r i j x y l q ne ex ey =
      entries_lem size i j x y l q ne (reach-IsKept P t size mem s r) ex ey
