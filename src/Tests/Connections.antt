-- ===== src/Tests/Connections.antt =====
-- Four connections: the listening socket, one that a client has left, and two others.
use nfp_udp_echo.Base.{ℕ, ◌+◌, ◌-◌, ◌≡◌, refl, true, false, none, some, [], ◌∷◌, ◌++◌, arith}
use nfp_udp_echo.Cdev.Connections.{
  Conn, Connections, set_conn, quiet, accept_connection, serve_one, serve, compact, cleanup,
  poll_round,
}
use nfp_udp_echo.Cdev.Connections.Compact.{Kept, fds, open_fds, compact_lem}

abbrev conns : ℕ → Conn
conns =
    set_conn (set_conn (λ i. quiet (some (10 + i))) 2 (quiet none)) 3
      (record { fd = some 13; pollin = false; pollhup = true })

abbrev connections : Connections
connections = record { conn = conns; count = 4 }

-- The client of descriptor 13 has hung up.
round_closes : (poll_round none (λ i. true) connections).1 ≡ some 13 ∷ []
unfolding poll_round cleanup serve serve_one accept_connection
round_closes = refl

round_keeps : fds (poll_round none (λ i. true) connections).0.conn 0 2 ≡ some 10 ∷ some 11 ∷ []
unfolding poll_round cleanup compact serve serve_one accept_connection fds
round_keeps = refl

compact_lem_example :
    Kept (fds conns 1 (1 - 1) ++ open_fds (fds conns 1 3)) 1 (1 + 3) (conns 0) (compact 3 1 1 conns)
compact_lem_example = compact_lem 3 1 1 conns (omega arith) (omega arith)
