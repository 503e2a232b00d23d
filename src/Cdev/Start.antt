-- ===== src/Cdev/Start.antt =====
-- user/nfpcore/nfp_cpp_dev.c: `nfp_cpp_dev_main`, and the rounds of `nfp_cpp_dev_poll` after it.
pub mod Rounds
use nfp_udp_echo.Base.{
  ℕ, ◌+◌, Bool, true, false, not, Option, none, some, List, [], ◌++◌, ltb, ◌==◌, if◌then◌else◌,
}
use nfp_udp_echo.Driver.{MemResource}
use nfp_udp_echo.Cdev.Bars.{NfpBar, Enabled, nfp_enable_bars}
use nfp_udp_echo.Cdev.Connections.{Conn, Connections, quiet, poll_round}
use nfp_udp_echo.Cdev.Connections.Descriptors.{taken_in}

-- What the calls at the start return: the socket, and whether it can be bound and listened on.
pub record StartCalls : Type 0 where
  pub malloc : Bool
  pub socket : Option ℕ
  pub bind : Option ℕ → Bool
  pub listen : Option ℕ → Bool

-- `connections` are cleared, but for the first: a descriptor of 0.
unfoldable pub first_connections : Option ℕ → Connections
first_connections listen_fd = record {
  conn = λ i. if i == 0 then quiet listen_fd else quiet (some 0);
  count = 1;
}

-- What `nfp_cpp_dev_poll` is called with; `none` is a result of -1. `enabled` is the result of
-- `nfp_enable_bars`.
unfoldable pub nfp_cpp_dev_main : StartCalls → Option Enabled → Option (Connections × Enabled)
unfolding first_connections
nfp_cpp_dev_main c enabled =
    if not (c.malloc)
    then none
    else if not (c.bind (c.socket))
    then none
    else if not (c.listen (c.socket))
    then none
    else elim enabled [ none ↦ none | some e ↦ some (first_connections c.socket, e) ]

-- `poll` sets the flags of the connections in use.
unfoldable pub polled : (ℕ → Bool) → (ℕ → Bool) → Connections → Connections
polled pollin pollhup s = record s {
  conn = λ i.
      if ltb i s.count
      then record (s.conn i) { pollin = pollin i; pollhup = pollhup i }
      else s.conn i;
}

-- The daemon's connections some rounds after `s0`, with the descriptors that `accept` has returned and
-- those that have been closed.
pub data Polled (s0 : Connections)
    : Connections → (accepted closed : List (Option ℕ)) → Type 0 where
  start : Polled s0 s0 [] []
  round :
      {s : Connections} {accepted closed : List (Option ℕ)} (a : Option ℕ)
      (handled pollin pollhup : ℕ → Bool)
      → Polled s0 s accepted closed
      → Polled s0
          (poll_round a handled (polled pollin pollhup s)).0
          (accepted ++ taken_in a (polled pollin pollhup s))
          (closed ++ (poll_round a handled (polled pollin pollhup s)).1)
