-- ===== src/Cdev/Start/Rounds.antt =====
-- user/nfpcore/nfp_cpp_dev.c: the daemon's connections stay within their table, and no descriptor
-- of a client is lost or closed twice.
use nfp_udp_echo.Base.{
  ℕ, zero, suc, ◌+◌, ◌-◌, ◌≤◌, ◌≡◌, refl, sym, subst, ap, ap₂, ◌∙◌, Bool, true, false, not,
  if◌then◌else◌, Option, none, some, List, ◌∷◌, ltb, arith, on_if,
}
use mathlib.Core.Option.{some-injective}
use nfp_udp_echo.Cdev.Connections.{Connections, max_connections, poll_round}
use nfp_udp_echo.Cdev.Connections.Compact.{fds, poll_round_lem}
use nfp_udp_echo.Cdev.Connections.Descriptors.{
  times, times-append, taken_in, clients, poll_round-times,
}
use nfp_udp_echo.Cdev.Bars.{Enabled}
use nfp_udp_echo.Cdev.Start.{
  StartCalls, nfp_cpp_dev_main, first_connections, polled, Polled, start, round,
}

-- The flags do not change the descriptors.
fd-polled :
    (pollin pollhup : ℕ → Bool) (s : Connections) (i : ℕ)
    → ((polled pollin pollhup s).conn i).fd ≡ (s.conn i).fd
unfolding polled
fd-polled pollin pollhup s i =
    on_if (λ c. c.fd ≡ (s.conn i).fd) (ltb i s.count) _ (s.conn i) (λ _. refl) (λ _. refl)

fds-polled :
    (pollin pollhup : ℕ → Bool) (s : Connections) (i n : ℕ)
    → fds (polled pollin pollhup s).conn i n ≡ fds s.conn i n
unfolding fds
fds-polled pollin pollhup s i zero = refl
fds-polled pollin pollhup s i (suc n) =
    ap₂ ◌∷◌ (fd-polled pollin pollhup s i) (fds-polled pollin pollhup s (i + 1) n)

-- The number of connections is between 1 and 64, and the first is the listening socket.
abbrev pub InTable : Option ℕ → Connections → Type 0
InTable listen_fd s = (1 ≤ s.count) × (s.count ≤ max_connections) × ((s.conn 0).fd ≡ listen_fd)

-- What `nfp_cpp_dev_poll` is called with.
first_lem :
    (c : StartCalls) (enabled : Option Enabled) (s0 : Connections) (e : Enabled)
    → nfp_cpp_dev_main c enabled ≡ some (s0, e)
    → first_connections c.socket ≡ s0
unfolding nfp_cpp_dev_main
first_lem c enabled s0 e q = cases c.malloc (c.bind c.socket) (c.listen c.socket) enabled q
  where
    first : Connections
    first = first_connections c.socket

    with_bars : Option Enabled → Option (Connections × Enabled)
    with_bars none = none
    with_bars (some x) = some (first, x)

    cases :
        (m b l : Bool) (en : Option Enabled)
        → (if not m then none else if not b then none else if not l then none else with_bars en)
          ≡ some (s0, e)
        → first ≡ s0
    cases true true true (some x) h = ap (λ r. r.0) (some-injective _ _ h)
    cases true true true none h = absurd cc
    cases true true false en h = absurd cc
    cases true false l en h = absurd cc
    cases false b l en h = absurd cc

from_first :
    (fd : Option ℕ) (s : Connections) (accepted closed : List (Option ℕ))
    → Polled (first_connections fd) s accepted closed
    → InTable fd s × ((x : ℕ) → times x (clients s) + times x closed ≡ times x accepted)
unfolding first_connections polled times fds
from_first fd s accepted closed start = ((omega arith, omega arith, refl), λ x. refl)
from_first fd s accepted closed
      (round {s = s'} {accepted = before} {closed = gone} a handled pollin pollhup r) =
    let ((l, h, z), kept) = from_first fd s' before gone r in
    let s1 = polled pollin pollhup s' in
    let (l', h', z') = poll_round_lem a handled s1 l h in
    (
      (l', h', ap (λ c. c.fd) z' ∙ fd-polled pollin pollhup s' 0 ∙ z),
      λ x. omega (
        arith,
        poll_round-times x a handled s1 l h,
        kept x,
        times-append x before (taken_in a s1),
        times-append x gone (poll_round a handled s1).1,
        ap (times x) (fds-polled pollin pollhup s' 1 (s'.count - 1)),
      ),
    )

-- After `nfp_cpp_dev_main` and any rounds, the connections are between 1 and 64 and the first is the
-- listening socket; and each descriptor that `accept` has returned is a client's now or has been
-- closed, as often as it has been returned.
pub polled_lem :
    (c : StartCalls) (enabled : Option Enabled) (s0 : Connections) (e : Enabled) (s : Connections)
    (accepted closed : List (Option ℕ))
    → nfp_cpp_dev_main c enabled ≡ some (s0, e)
    → Polled s0 s accepted closed
    → InTable c.socket s × ((x : ℕ) → times x (clients s) + times x closed ≡ times x accepted)
polled_lem c enabled s0 e s accepted closed q r =
    from_first c.socket s accepted closed
      (subst (λ f. Polled f s accepted closed) (sym (first_lem c enabled s0 e q)) r)
