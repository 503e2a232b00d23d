-- ===== src/Tests/MultiTx.antt =====
-- Two contexts of the sending program, and a ring of four entries of which the host has filled two.
use nfp_udp_echo.Base.{ℕ, ◌+◌, ◌*◌, ◌<◌, ◌≤◌, ◌≡◌, refl, ◌⊎◌, some, List, [], ◌∷◌, length, arith}
use nfp_udp_echo.Base.Words.{add32, add64}
use nfp_udp_echo.Base.Memory.{Mem}
use nfp_udp_echo.Base.Slots.{advance}
use nfp_udp_echo.Firmware.Packet.{Pkt, mac_prepend_bytes}
use nfp_udp_echo.Firmware.Dma.{dma_packet_recv}
use nfp_udp_echo.Firmware.Txops.{allocate_packet}
use nfp_udp_echo.Echo.Meta.{DeviceMeta, no_meta}
use nfp_udp_echo.Echo.Tx.{Allocation, set_len}
use nfp_udp_echo.Contexts.Count.{entry_of}
use nfp_udp_echo.Contexts.Tx.{
  MultiTx, publish, multi_tx_step, start_state, MultiTxReach, start, next, host,
}
use nfp_udp_echo.Contexts.Tx.Steps.{phases_of, freed_in_order, reads_apart}
use nfp_udp_echo.Tests.Platform.{card, context, udp_packet}

abbrev zeros : Mem
zeros = λ _. 0

abbrev allocation : Allocation
allocation = record { pkt_num = 3; buf = 10; pkt = udp_packet; card = zeros }

abbrev configured : DeviceMeta
configured = record no_meta {
  tx_buffer_iova = 2000;
  buffer_size = 16;
  packet_size = 4;
  start_signal = 1;
  tx_tail = 8;
}

-- The contexts' steps, the first one first.
unfoldable play : List ℕ → MultiTx → MultiTx
play [] s = s
play (i ∷ steps) s = play steps (multi_tx_step card context 1 i allocation s)

abbrev AllBelow : List ℕ → Type 0
AllBelow [] = Unit
AllBelow (i ∷ steps) = (i < 2) × AllBelow steps

play-Reach :
    (steps : List ℕ) (s : MultiTx)
    → AllBelow steps
    → MultiTxReach card context 1 2 4 4 zeros s
    → MultiTxReach card context 1 2 4 4 zeros (play steps s)
unfolding play
play-Reach [] s ok r = r
play-Reach (i ∷ steps) s (l, ok) r =
    play-Reach steps (multi_tx_step card context 1 i allocation s) ok (next i allocation r l)

-- Both contexts take an entry, and the first has read its own and seen its turn.
abbrev steps : List ℕ
steps = 0 ∷ 0 ∷ 0 ∷ 0 ∷ 1 ∷ 1 ∷ 1 ∷ 1 ∷ 0 ∷ 0 ∷ []

abbrev ready : MultiTx
ready = record (start_state card context 1 zeros) { meta = configured; mem = zeros }

unfoldable state : MultiTx
unfolding play multi_tx_step
state = play steps ready

state-Reach : MultiTxReach card context 1 2 4 4 zeros state
unfolding state
state-Reach =
    play-Reach steps ready
      (
        omega arith,
        (
          omega arith,
          (
            omega arith,
            (
              omega arith,
              (
                omega arith,
                (omega arith, (omega arith, (omega arith, (omega arith, (omega arith, tt))))),
              ),
            ),
          ),
        ),
      )
      (host configured zeros start (refl, λ h. (refl, refl)))

-- The packet that the first context has allocated, and the card's memory with the entry.
abbrev allocated : Pkt × Mem
allocated = allocate_packet card 1 3 10 udp_packet zeros

abbrev pkt : Pkt
pkt = set_len (add32 4 mac_prepend_bytes) allocated.0

abbrev filled : Mem
filled =
    (dma_packet_recv card context allocated.0 4 (add64 2000 0)
      (record { card = allocated.1; host = zeros })).card

first_publishes : state.contexts 0 ≡ publish pkt filled 0 4
unfolding state advance
first_publishes = refl

freed_in_order_example : (state.meta.tx_head ≡ 0) × (4 ≡ advance 4 (4 * 4) 0)
freed_in_order_example =
    freed_in_order card context 1 2 4 4 (omega arith) (omega arith) (omega arith) (omega arith)
      zeros state state-Reach 0 pkt filled 0 4 (omega arith) first_publishes

second_waits : entry_of (phases_of state 1) ≡ some 4
unfolding state advance
second_waits = refl

first_holds : entry_of (phases_of state 0) ≡ some 0
unfolding state advance
first_holds = refl

reads_apart_example : (0 + 4 ≤ 4 * 4) × (4 + 4 ≤ 4 * 4) × ((0 + 4 ≤ 4) ⊎ (4 + 4 ≤ 0))
reads_apart_example =
    reads_apart card context 1 2 4 4 (omega arith) (omega arith) (omega arith) (omega arith) zeros
      state state-Reach 0 1 0 4 (omega arith) (omega arith) (omega arith) first_holds second_waits

-- A ring of two entries. The first context reads the tail and is swapped out; the second sends the
-- host's packet, and another that the host has put behind it. When the first context goes on, the
-- old tail lets it pass, and it sends the first packet once more.
unfoldable resent : MultiTx
unfolding play multi_tx_step
resent =
    let small = record configured { buffer_size = 8; tx_tail = 4 } in
    let s = play (0 ∷ 0 ∷ 0 ∷ 1 ∷ 1 ∷ 1 ∷ 1 ∷ 1 ∷ 1 ∷ 1 ∷ 1 ∷ []) (record ready { meta = small }) in
    let filled_again = record s { meta = record (s.meta) { tx_tail = 0 } } in
    play (0 ∷ 0 ∷ 0 ∷ 0 ∷ 0 ∷ []) (play (1 ∷ 1 ∷ 1 ∷ 1 ∷ 1 ∷ 1 ∷ 1 ∷ []) filled_again)

stale_tail : length resent.sent ≡ 3
unfolding resent advance
stale_tail = refl
