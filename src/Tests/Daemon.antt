-- ===== src/Tests/Daemon.antt =====
-- The daemon started on a card with one region, and rounds in which a client comes and goes.
use nfp_udp_echo.Base.{
  ℕ, zero, suc, ◌+◌, ◌^◌, ◌<◌, ◌≤◌, ◌≡◌, ◌≢◌, refl, true, false, none, some, List, [], ◌∷◌, ◌++◌,
  get_elem?, ◌==◌, arith, length,
}
use nfp_udp_echo.Driver.{MemResource}
use nfp_udp_echo.Cdev.Bars.{
  NfpBar, Enabled, csr_write, nfp_pci_bar_max, nfp_bar_resource_start, set_bars, nfp_enable_bars,
}
use nfp_udp_echo.Cdev.Bars.Windows.{Apart, AreMapped, IsInside, start_of, size_of}
use nfp_udp_echo.Cdev.Bars.Placed.{IsWindow, nfp_enable_bars_lem}
use nfp_udp_echo.Cdev.Connections.{
  Connections, accept_connection, serve_one, serve, compact, cleanup, poll_round,
}
use nfp_udp_echo.Cdev.Connections.Compact.{fds}
use nfp_udp_echo.Cdev.Connections.Descriptors.{times, taken_in, clients}
use nfp_udp_echo.Cdev.Start.{
  StartCalls, first_connections, nfp_cpp_dev_main, polled, Polled, start, round,
}
use nfp_udp_echo.Cdev.Start.Rounds.{InTable, polled_lem}

-- A region of 2^24 bytes, mapped at 2^40; no other.
abbrev resource : ℕ → MemResource
resource zero = record { phys_addr = 0xe0000000; len = 2 ^ 24; addr = some (2 ^ 40) }
resource (suc k) = record { phys_addr = 0; len = 0; addr = none }

abbrev bits : ℕ → ℕ
bits x = 21

resource-AreMapped : AreMapped resource
resource-AreMapped = record { mapped = mapped_at; apart = apart_at }
  where
    mapped_at :
        (k : ℕ)
        → (resource k).phys_addr ≢ 0
        → (8 ≤ (resource k).len) × (start_of (resource k) + (resource k).len < 2 ^ 64)
    mapped_at zero p = (omega arith, omega arith)
    mapped_at (suc k) p = absurd (p refl)

    apart_at :
        (k l : ℕ)
        → k ≢ l
        → (resource k).phys_addr ≢ 0
        → (resource l).phys_addr ≢ 0
        → Apart (start_of (resource k)) (resource k).len (start_of (resource l)) (resource l).len
    apart_at zero zero ne p q = absurd (ne refl)
    apart_at zero (suc l) ne p q = absurd (q refl)
    apart_at (suc k) l ne p q = absurd (p refl)

abbrev bars : List NfpBar
bars = set_bars bits resource nfp_pci_bar_max 0

eight_bars : length bars ≡ 8
unfolding set_bars
eight_bars = refl

abbrev behind : NfpBar
behind = record {
  barcfg = 0;
  base = 0;
  mask = 0;
  bitsize = 0;
  index = 0;
  iomem = 2 ^ 41;
  resource = resource 0;
}

unfoldable bars_enabled : Enabled
unfolding nfp_enable_bars
bars_enabled = elim (nfp_enable_bars bits (λ le l. l) (λ a. true) resource behind) [
  | none ↦ record { bar = []; csr = 0; writes = [] }
  | some e ↦ e
]

enabled : nfp_enable_bars bits (λ le l. l) (λ a. true) resource behind ≡ some bars_enabled
unfolding nfp_enable_bars bars_enabled
enabled = refl

nfp_enable_bars_lem_example :
    ((k : ℕ) (b : NfpBar)
      → get_elem? bars_enabled.bar k ≡ some b
      → IsWindow bits resource b × IsInside b)
    × ((k m : ℕ) (b c : NfpBar)
        → get_elem? bars_enabled.bar k ≡ some b
        → get_elem? bars_enabled.bar m ≡ some c
        → b.index ≢ c.index
        → Apart (nfp_bar_resource_start b) (size_of b) (nfp_bar_resource_start c) (size_of c))
nfp_enable_bars_lem_example =
    nfp_enable_bars_lem bits resource (λ le l. l) (λ a. true) behind bars_enabled
      (λ le l k b q. (k, q)) resource-AreMapped enabled

abbrev calls : StartCalls
calls = record { malloc = true; socket = some 9; bind = λ fd. true; listen = λ fd. true }

-- Both writes go to the registers of BAR 4 and 5.
writes_explicit :
    bars_enabled.writes
    ≡ csr_write (2 ^ 41 + 0x30010) 0x80000000 ∷ csr_write (2 ^ 41 + 0x30014) 0xa0000000 ∷ []
unfolding bars_enabled nfp_enable_bars
writes_explicit = refl

-- A client is accepted as 12, and hangs up while the next is accepted as 13.
abbrev begun : Connections
begun = first_connections (some 9)

abbrev came : Connections
came = polled (λ i. i == 0) (λ i. false) begun

unfoldable one_client : Connections
unfolding poll_round
one_client = (poll_round (some 12) (λ i. true) came).0

abbrev went : Connections
went = polled (λ i. i == 0) (λ i. i == 1) one_client

unfoldable another : Connections
unfolding poll_round
another = (poll_round (some 13) (λ i. true) went).0

two_rounds :
    Polled begun another (([] ++ taken_in (some 12) came) ++ taken_in (some 13) went) (
      ([] ++ (poll_round (some 12) (λ i. true) came).1)
      ++ (poll_round (some 13) (λ i. true) went).1)
unfolding another one_client
two_rounds =
    round (some 13) (λ i. true) (λ i. i == 0) (λ i. i == 1)
      (round (some 12) (λ i. true) (λ i. i == 0) (λ i. false) start)

begins : nfp_cpp_dev_main calls (some bars_enabled) ≡ some (begun, bars_enabled)
unfolding nfp_cpp_dev_main
begins = refl

stays : clients another ≡ some 13 ∷ []
unfolding another one_client polled poll_round fds accept_connection serve serve_one compact cleanup
    first_connections
stays = refl

polled_lem_example :
    InTable (some 9) another
    × ((x : ℕ)
        → times x (clients another)
            + times x (
                ([] ++ (poll_round (some 12) (λ i. true) came).1)
                ++ (poll_round (some 13) (λ i. true) went).1)
          ≡ times x (([] ++ taken_in (some 12) came) ++ taken_in (some 13) went))
polled_lem_example =
    polled_lem calls (some bars_enabled) begun bars_enabled another _ _ begins two_rounds
