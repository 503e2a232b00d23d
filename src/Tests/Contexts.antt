-- ===== src/Tests/Contexts.antt =====
-- Two contexts of the receiving program with one packet each, and a ring of four entries.
use nfp_udp_echo.Base.{ℕ, ◌+◌, ◌*◌, ◌<◌, ◌≤◌, ◌≡◌, refl, ◌⊎◌, some, List, [], ◌∷◌, arith}
use nfp_udp_echo.Base.Memory.{Mem}
use nfp_udp_echo.Base.Slots.{advance}
use nfp_udp_echo.Firmware.Rxops.{filter_packets, modify_packet_header}
use nfp_udp_echo.Echo.Meta.{DeviceMeta, no_meta}
use nfp_udp_echo.Contexts.{
  MultiRx, publish, multi_rx_step, start_state, MultiReach, start, next, host,
}
use nfp_udp_echo.Contexts.Count.{entry_of}
use nfp_udp_echo.Contexts.Steps.{phases_of, published_in_order, entries_apart}
use nfp_udp_echo.Tests.Platform.{card, context, udp_packet}

abbrev zeros : Mem
zeros = λ _. 0

abbrev configured : DeviceMeta
configured = record no_meta {
  rx_buffer_iova = 1000;
  buffer_size = 16;
  packet_size = 4;
  start_signal = 1;
}

-- The contexts' steps, the first one first.
unfoldable play : List ℕ → MultiRx → MultiRx
play [] s = s
play (i ∷ steps) s = play steps (multi_rx_step card context i udp_packet zeros s)

abbrev AllBelow : List ℕ → Type 0
AllBelow [] = Unit
AllBelow (i ∷ steps) = (i < 2) × AllBelow steps

play-Reach :
    (steps : List ℕ) (s : MultiRx)
    → AllBelow steps
    → MultiReach card context 2 4 4 zeros s
    → MultiReach card context 2 4 4 zeros (play steps s)
unfolding play
play-Reach [] s ok r = r
play-Reach (i ∷ steps) s (l, ok) r =
    play-Reach steps (multi_rx_step card context i udp_packet zeros s) ok
      (next i udp_packet zeros r l)

-- Both contexts take an entry, and the first has written its own and seen its turn.
abbrev steps : List ℕ
steps = 0 ∷ 0 ∷ 0 ∷ 0 ∷ 1 ∷ 1 ∷ 1 ∷ 1 ∷ 0 ∷ 0 ∷ []

abbrev ready : MultiRx
ready = record (start_state card context zeros) { meta = configured; mem = zeros }

unfoldable state : MultiRx
unfolding play multi_rx_step
state = play steps ready

state-Reach : MultiReach card context 2 4 4 zeros state
unfolding state
state-Reach =
    play-Reach steps ready
      (
        omega arith,
        (
          omega arith,
          (
            omega arith,
            (
              omega arith,
              (
                omega arith,
                (omega arith, (omega arith, (omega arith, (omega arith, (omega arith, tt))))),
              ),
            ),
          ),
        ),
      )
      (host configured zeros start (refl, λ h. (refl, refl)))

first_publishes : state.contexts 0 ≡ publish (modify_packet_header card udp_packet) 0 4
unfolding state filter_packets advance
first_publishes = refl

published_in_order_example : (state.meta.rx_tail ≡ 0) × (4 ≡ advance 4 (4 * 4) 0)
published_in_order_example =
    published_in_order card context 2 4 4 (omega arith) (omega arith) (omega arith) (omega arith)
      zeros state state-Reach 0 (modify_packet_header card udp_packet) 0 4 (omega arith)
      first_publishes

second_waits : entry_of (phases_of state 1) ≡ some 4
unfolding state filter_packets advance
second_waits = refl

first_holds : entry_of (phases_of state 0) ≡ some 0
unfolding state filter_packets advance
first_holds = refl

entries_apart_example : (0 + 4 ≤ 4 * 4) × (4 + 4 ≤ 4 * 4) × ((0 + 4 ≤ 4) ⊎ (4 + 4 ≤ 0))
entries_apart_example =
    entries_apart card context 2 4 4 (omega arith) (omega arith) (omega arith) (omega arith) zeros
      state state-Reach 0 1 0 4 (omega arith) (omega arith) (omega arith) first_holds second_waits

-- A ring of two entries. The first context reads the head and is swapped out; the second sends a
-- packet, which the host takes, and fills the ring with another. When the first context goes on,
-- the old head lets it pass, and the ring with two packets looks empty to the host.
abbrev small : DeviceMeta
small = record configured { buffer_size = 8 }

unfoldable overrun : MultiRx
unfolding play multi_rx_step
overrun =
    let s = play (0 ∷ 0 ∷ 0 ∷ 1 ∷ 1 ∷ 1 ∷ 1 ∷ 1 ∷ 1 ∷ 1 ∷ []) (record ready { meta = small }) in
    let taken = record s { meta = record (s.meta) { rx_head = 4 } } in
    play (0 ∷ 0 ∷ 0 ∷ 0 ∷ []) (play (1 ∷ 1 ∷ 1 ∷ 1 ∷ 1 ∷ 1 ∷ []) taken)

stale_head : overrun.meta.rx_tail ≡ overrun.meta.rx_head
unfolding overrun filter_packets advance
stale_head = refl
