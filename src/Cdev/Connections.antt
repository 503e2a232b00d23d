-- ===== src/Cdev/Connections.antt =====
-- user/nfpcore/nfp_cpp_dev.c: the connections of the daemon, one round of `nfp_cpp_dev_poll` after
-- `poll` has returned a positive number. What the calls of a round return is an argument.
pub mod Compact
pub mod Descriptors
use nfp_udp_echo.Base.{
  ℕ, zero, suc, ◌+◌, ◌-◌, Bool, true, false, ◌||◌, Option, none, some, List, [], ◌∷◌, ◌++◌, ltb,
  ◌==◌, if◌then◌else◌,
}

-- `struct pollfd` of a connection: `none` is the descriptor -1; the flags are those of `revents`.
-- `events` is always POLLIN.
pub record Conn : Type 0 where
  pub fd : Option ℕ
  pub pollin : Bool
  pub pollhup : Bool

-- `connections`, by index, and `count`.
pub record Connections : Type 0 where
  pub conn : ℕ → Conn
  pub count : ℕ

abbrev pub max_connections : ℕ
max_connections = 64

abbrev pub set_conn : (ℕ → Conn) → ℕ → Conn → ℕ → Conn
set_conn f i c j = if i == j then c else f j

abbrev pub is_open : Conn → Bool
is_open c = elim (c.fd) [ none ↦ false | some _ ↦ true ]

abbrev pub quiet : Option ℕ → Conn
quiet fd = record { fd = fd; pollin = false; pollhup = false }

-- `accepted` is the descriptor that `accept` returns.
unfoldable pub accept_connection : Option ℕ → Connections → Connections
accept_connection accepted s =
    if (s.conn 0).pollin
    then if ltb s.count max_connections
      then record { conn = set_conn s.conn s.count (quiet accepted); count = s.count + 1 }
      else s
    else s

-- The body of the loop that serves connection `i`; `handled` tells whether `nfp_cpp_dev_handle_cmd`
-- returns no error. The result has the descriptors closed and counted.
unfoldable pub serve_one : Bool → Conn → Conn × List (Option ℕ)
serve_one handled c =
    if c.pollin
    then if handled
      then if c.pollhup then (record c { fd = none }, c.fd ∷ []) else (c, [])
      else (record c { fd = none }, c.fd ∷ (if c.pollhup then none ∷ [] else []))
    else if c.pollhup
    then (record c { fd = none }, c.fd ∷ [])
    else (c, [])

-- The loop over the connections from `i` on, `rounds` of them.
unfoldable pub serve : (ℕ → Bool) → ℕ → ℕ → (ℕ → Conn) → (ℕ → Conn) × List (Option ℕ)
serve handled zero i f = (f, [])
serve handled (suc rounds) i f =
    let one = serve_one (handled i) (f i) in
    let rest = serve handled rounds (i + 1) (set_conn f i one.0) in (rest.0, one.1 ++ rest.1)

-- The loop of the cleanup from `i` on; the connections kept so far are those before `j`.
unfoldable pub compact : ℕ → ℕ → ℕ → (ℕ → Conn) → ℕ × (ℕ → Conn)
compact zero i j f = (j, f)
compact (suc rounds) i j f =
    let kept = is_open (f i) in
    compact rounds (i + 1) (if kept then j + 1 else j)
      (if kept then set_conn f j (quiet (f i).fd) else f)

-- The cleanup, if descriptors have been closed.
unfoldable pub cleanup : Connections → (ℕ → Conn) → List (Option ℕ) → Connections
unfolding compact
cleanup s f [] = record s { conn = f }
cleanup s f (_ ∷ _) =
    let cleaned = compact (s.count - 1) 1 1 f in record { conn = cleaned.1; count = cleaned.0 }

-- One round, and the descriptors that it closes.
unfoldable pub poll_round : Option ℕ → (ℕ → Bool) → Connections → Connections × List (Option ℕ)
unfolding cleanup
poll_round accepted handled s0 =
    let s = accept_connection accepted s0 in
    let served = serve handled (s.count - 1) 1 s.conn in (cleanup s served.0 served.1, served.1)
