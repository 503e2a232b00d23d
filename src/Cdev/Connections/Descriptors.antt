-- ===== src/Cdev/Connections/Descriptors.antt =====
-- user/nfpcore/nfp_cpp_dev.c: what becomes of the clients' descriptors in a round.
use nfp_udp_echo.Base.{
  ℕ, zero, suc, ◌+◌, ◌-◌, ◌≤◌, ◌<◌, ◌≡◌, inl, refl, ap, ◌∙◌, Bool, true, false, Option, none, some,
  List, [], ◌∷◌, ◌++◌, ◌==◌, ltb, arith, if◌then◌else◌,
}
use nfp_udp_echo.Cdev.Connections.{
  Conn, Connections, max_connections, set_conn, quiet, accept_connection, serve_one, serve, cleanup,
  poll_round,
}
use nfp_udp_echo.Cdev.Connections.Compact.{
  fds, open_fds, fds-set, fds-keep, compact_lem, accept-count,
}

-- How often a descriptor stands in a list.
unfoldable pub times : ℕ → List (Option ℕ) → ℕ
times x [] = 0
times x (none ∷ l) = times x l
times x (some y ∷ l) = (if x == y then 1 else 0) + times x l

pub times-append : (x : ℕ) (k l : List (Option ℕ)) → times x (k ++ l) ≡ times x k + times x l
unfolding times
times-append x [] l = omega arith
times-append x (none ∷ k) l = times-append x k l
times-append x (some y ∷ k) l = omega (arith, times-append x k l)

times-open_fds : (x : ℕ) (l : List (Option ℕ)) → times x (open_fds l) ≡ times x l
unfolding times open_fds
times-open_fds x [] = refl
times-open_fds x (none ∷ l) = times-open_fds x l
times-open_fds x (some y ∷ l) = omega (arith, times-open_fds x l)

-- A connection keeps its descriptor, or the descriptor is closed.
serve_one_lem :
    (x : ℕ) (handled : Bool) (c : Conn)
    → times x ((serve_one handled c).0.fd ∷ []) + times x (serve_one handled c).1
      ≡ times x (c.fd ∷ [])
unfolding times serve_one
serve_one_lem x handled c = cases handled c.pollin c.pollhup c.fd
  where
    cases :
        (h i u : Bool) (fd : Option ℕ)
        → (let r = serve_one h (record { fd = fd; pollin = i; pollhup = u }) in
            times x (r.0.fd ∷ []) + times x r.1 ≡ times x (fd ∷ []))
    cases true true true fd = omega arith
    cases true true false fd = omega arith
    cases false true true none = omega arith
    cases false true true (some y) = omega arith
    cases false true false fd = omega arith
    cases h false true fd = omega arith
    cases h false false fd = omega arith

serve-below :
    (handled : ℕ → Bool) (n i j : ℕ) (f : ℕ → Conn) → j < i → (serve handled n i f).0 j ≡ f j
unfolding serve
serve-below handled zero i j f h = refl
serve-below handled (suc n) i j f h =
    serve-below handled n (i + 1) j (set_conn f i (serve_one (handled i) (f i)).0) (omega arith)
    ∙ ground arith

set_conn_same : (f : ℕ → Conn) (i : ℕ) (c : Conn) → set_conn f i c i ≡ c
set_conn_same f i c = ground arith

times-cons :
    (x : ℕ) (fd : Option ℕ) (l : List (Option ℕ)) → times x (fd ∷ l) ≡ times x (fd ∷ []) + times x l
times-cons x fd l = times-append x (fd ∷ []) l

serve_lem :
    (x : ℕ) (handled : ℕ → Bool) (n i : ℕ) (f : ℕ → Conn)
    → times x (fds (serve handled n i f).0 i n) + times x (serve handled n i f).1
      ≡ times x (fds f i n)
unfolding serve fds times
serve_lem x handled zero i f = omega arith
serve_lem x handled (suc n) i f =
    let one = serve_one (handled i) (f i) in
    let f1 = set_conn f i one.0 in
    let r = serve handled n (i + 1) f1 in
    let same : (r.0 i).fd ≡ one.0.fd =
      ap (λ c. c.fd) (serve-below handled n (i + 1) i f1 (omega arith) ∙ set_conn_same f i one.0) in
    omega (
      arith,
      ap (λ fd. times x (fd ∷ [])) same,
      times-cons x (r.0 i).fd (fds r.0 (i + 1) n),
      times-cons x (f i).fd (fds f (i + 1) n),
      times-append x one.1 r.1,
      serve_one_lem x (handled i) (f i),
      serve_lem x handled n (i + 1) f1,
      ap (times x) (fds-set f i one.0 (i + 1) n (inl (omega arith))),
    )

-- The descriptor that a round takes in.
abbrev pub taken_in : Option ℕ → Connections → List (Option ℕ)
taken_in accepted s =
    if (s.conn 0).pollin then (if ltb s.count max_connections then accepted ∷ [] else []) else []

-- The clients' descriptors.
abbrev pub clients : Connections → List (Option ℕ)
clients s = fds s.conn 1 (s.count - 1)

accept_lem :
    (x : ℕ) (a : Option ℕ) (s : Connections)
    → 1 ≤ s.count
    → times x (clients (accept_connection a s)) ≡ times x (clients s) + times x (taken_in a s)
unfolding accept_connection times
accept_lem x a s l = cases (s.conn 0).pollin (ltb s.count max_connections)
  where
    more : Connections
    more = record { conn = set_conn s.conn s.count (quiet a); count = s.count + 1 }

    cases :
        (p b : Bool)
        → times x (clients (if p then (if b then more else s) else s))
          ≡ times x (clients s) + times x (if p then (if b then a ∷ [] else []) else [])
    cases true true =
        ap (λ n. times x (fds more.conn 1 n)) {x = s.count + 1 - 1} {y = s.count} (omega arith)
        ∙ ap (times x) (fds-keep s.conn s.count a l)
        ∙ times-append x (clients s) (a ∷ [])
    cases true false = omega arith
    cases false b = omega arith

cleanup_lem :
    (x : ℕ) (s : Connections) (f : ℕ → Conn) (closed : List (Option ℕ))
    → 1 ≤ s.count
    → times x (clients (cleanup s f closed)) ≡ times x (fds f 1 (s.count - 1))
unfolding cleanup fds
cleanup_lem x s f [] l = refl
cleanup_lem x s f (_ ∷ _) l =
    ap (times x) (compact_lem (s.count - 1) 1 1 f (omega arith) (omega arith)).0
    ∙ times-open_fds x (fds f 1 (s.count - 1))

-- In a round each descriptor that a client had, or that `accept` has returned, either still is a
-- client's or is closed, exactly once: none is lost, and none is closed that a client keeps.
pub poll_round-times :
    (x : ℕ) (a : Option ℕ) (handled : ℕ → Bool) (s : Connections)
    → 1 ≤ s.count
    → s.count ≤ max_connections
    → times x (clients (poll_round a handled s).0) + times x (poll_round a handled s).1
      ≡ times x (clients s) + times x (taken_in a s)
unfolding poll_round
poll_round-times x a handled s l h =
    let s1 = accept_connection a s in
    let served = serve handled (s1.count - 1) 1 s1.conn in
    let (le, ge, z) = accept-count a s l h in
    omega (
      arith,
      cleanup_lem x s1 served.0 served.1 ge,
      serve_lem x handled (s1.count - 1) 1 s1.conn,
      accept_lem x a s l,
    )
