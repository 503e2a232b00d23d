-- ===== src/Cdev/Connections/Compact.antt =====
-- The cleanup of the list of connections in user/nfpcore/nfp_cpp_dev.c, against filtering a list.
use nfp_udp_echo.Base.{
  ℕ, zero, suc, ◌+◌, ◌-◌, ◌≤◌, ◌<◌, ◌≡◌, ◌⊎◌, inl, inr, refl, sym, ap, ap₂, ◌∙◌, subst, Bool, true,
  false, Option, none, some, List, [], ◌∷◌, ◌++◌, arith, if◌then◌else◌, Option-cases,
}
use nfp_udp_echo.Cdev.Connections.{
  Conn, Connections, max_connections, set_conn, is_open, quiet, accept_connection, serve_one, serve,
  compact, cleanup, poll_round,
}

-- The descriptors of `n` connections from `i` on.
unfoldable pub fds : (ℕ → Conn) → ℕ → ℕ → List (Option ℕ)
fds f i zero = []
fds f i (suc n) = (f i).fd ∷ fds f (i + 1) n

-- Those that are not -1.
unfoldable pub open_fds : List (Option ℕ) → List (Option ℕ)
open_fds [] = []
open_fds (none ∷ l) = open_fds l
open_fds (some x ∷ l) = some x ∷ open_fds l

pub fds-set :
    (f : ℕ → Conn) (j : ℕ) (c : Conn) (i n : ℕ)
    → (j < i) ⊎ (i + n ≤ j)
    → fds (set_conn f j c) i n ≡ fds f i n
unfolding fds
fds-set f j c i zero h = refl
fds-set f j c i (suc n) h = ground (arith, fds-set f j c (i + 1) n)

fds-last : (f : ℕ → Conn) (i n : ℕ) → fds f i (n + 1) ≡ fds f i n ++ ((f (i + n)).fd ∷ [])
unfolding fds
fds-last f i zero = ap (λ k. (f k).fd ∷ []) {x = i} {y = i + 0} (omega arith)
fds-last f i (suc n) =
    ap (fds f i) {x = suc n + 1} {y = suc (n + 1)} (omega arith)
    ∙ ap (◌∷◌ (f i).fd) (
        fds-last f (i + 1) n
        ∙ ap (λ k. fds f (i + 1) n ++ ((f k).fd ∷ [])) {x = i + 1 + n} {y = i + suc n}
            (omega arith))

-- The connections kept before `j`, and one more.
pub fds-keep :
    (f : ℕ → Conn) (j : ℕ) (fd : Option ℕ)
    → 1 ≤ j
    → fds (set_conn f j (quiet fd)) 1 j ≡ fds f 1 (j - 1) ++ (fd ∷ [])
fds-keep f j fd h =
    ap (fds (set_conn f j (quiet fd)) 1) {x = j} {y = j - 1 + 1} (omega arith)
    ∙ fds-last (set_conn f j (quiet fd)) 1 (j - 1)
    ∙ ap₂ (λ l x. l ++ (x ∷ [])) (fds-set f j (quiet fd) 1 (j - 1) (inr (omega arith))) at_j
  where
    at_j : (set_conn f j (quiet fd) (1 + (j - 1))).fd ≡ fd
    at_j = ground arith

append_nil : (xs : List (Option ℕ)) → xs ++ [] ≡ xs
append_nil [] = refl
append_nil (x ∷ xs) = ap (◌∷◌ x) (append_nil xs)

append_mid :
    (xs : List (Option ℕ)) (x : Option ℕ) (ys : List (Option ℕ))
    → (xs ++ (x ∷ [])) ++ ys ≡ xs ++ (x ∷ ys)
append_mid [] x ys = refl
append_mid (z ∷ xs) x ys = ap (◌∷◌ z) (append_mid xs x ys)

-- The connections from 1 on have the descriptors `l`; the count is within bounds; the listening
-- socket is `c`.
abbrev pub Kept : List (Option ℕ) → ℕ → ℕ → Conn → ℕ × (ℕ → Conn) → Type 0
Kept l lo hi c r = (fds r.1 1 (r.0 - 1) ≡ l) × (lo ≤ r.0) × (r.0 ≤ hi) × (r.1 0 ≡ c)

skip_step :
    (rounds i j : ℕ) (f : ℕ → Conn)
    → (f i).fd ≡ none
    → compact (suc rounds) i j f ≡ compact rounds (i + 1) j f
unfolding compact
skip_step rounds i j f e =
    ap
      (λ (b : Bool).
        compact rounds (i + 1) (if b then j + 1 else j)
          (if b then set_conn f j (quiet (f i).fd) else f))
      {x = is_open (f i)} {y = false} (rw e refl)

keep_step :
    (rounds i j x : ℕ) (f : ℕ → Conn)
    → (f i).fd ≡ some x
    → compact (suc rounds) i j f ≡ compact rounds (i + 1) (j + 1) (set_conn f j (quiet (f i).fd))
unfolding compact
keep_step rounds i j x f e =
    ap
      (λ (b : Bool).
        compact rounds (i + 1) (if b then j + 1 else j)
          (if b then set_conn f j (quiet (f i).fd) else f))
      {x = is_open (f i)} {y = true} (rw e refl)

set_conn-zero : (f : ℕ → Conn) (j : ℕ) (c : Conn) → 1 ≤ j → set_conn f j c 0 ≡ f 0
set_conn-zero f j c h = ground arith

open_fds-some :
    (y : Option ℕ) (x : ℕ) (l : List (Option ℕ)) → y ≡ some x → y ∷ open_fds l ≡ open_fds (y ∷ l)
unfolding open_fds
open_fds-some y x l e = rw e refl

-- Closing the gaps in place keeps the open connections, in order, and no others; the listening
-- socket stays.
pub compact_lem :
    (rounds i j : ℕ) (f : ℕ → Conn)
    → 1 ≤ j
    → j ≤ i
    → Kept
        (fds f 1 (j - 1) ++ open_fds (fds f i rounds))
        j
        (j + rounds)
        (f 0)
        (compact rounds i j f)
unfolding compact fds open_fds
compact_lem zero i j f o h = (sym (append_nil (fds f 1 (j - 1))), omega arith, omega arith, refl)
compact_lem (suc rounds) i j f o h = elim (Option-cases (f i).fd) [
  | inl e ↦
      let r = compact_lem rounds (i + 1) j f o (omega arith) in
      subst (Kept (fds f 1 (j - 1) ++ open_fds (fds f i (suc rounds))) j (j + suc rounds) (f 0))
        (sym (skip_step rounds i j f e))
        (
          r.0
              ∙ ap (λ (y : Option ℕ). fds f 1 (j - 1) ++ open_fds (y ∷ fds f (i + 1) rounds))
                  (sym e),
          omega (arith, r.1),
          omega (arith, r.2),
          r.3,
        )
  | inr (x, e) ↦
      let f1 = set_conn f j (quiet (f i).fd) in
      let r = compact_lem rounds (i + 1) (j + 1) f1 (omega arith) (omega arith) in
      subst (Kept (fds f 1 (j - 1) ++ open_fds (fds f i (suc rounds))) j (j + suc rounds) (f 0))
        (sym (keep_step rounds i j x f e))
        (
          r.0
              ∙ ap₂ (λ a b. a ++ open_fds b)
                  (ap (fds f1 1) {x = j + 1 - 1} {y = j} (omega arith) ∙ fds-keep f j (f i).fd o)
                  (fds-set f j (quiet (f i).fd) (i + 1) rounds (inl (omega arith)))
              ∙ append_mid (fds f 1 (j - 1)) (f i).fd (open_fds (fds f (i + 1) rounds))
              ∙ ap (◌++◌ (fds f 1 (j - 1))) (open_fds-some (f i).fd x (fds f (i + 1) rounds) e),
          omega (arith, r.1),
          omega (arith, r.2),
          r.3 ∙ set_conn-zero f j (quiet (f i).fd) o,
        )
]

pub accept-count :
    (a : Option ℕ) (s : Connections)
    → 1 ≤ s.count
    → s.count ≤ max_connections
    → ((accept_connection a s).count ≤ max_connections)
      × (1 ≤ (accept_connection a s).count)
      × ((accept_connection a s).conn 0 ≡ s.conn 0)
unfolding accept_connection
accept-count a s l h = ground arith

serve-zero : (handled : ℕ → Bool) (n i : ℕ) (f : ℕ → Conn) → 1 ≤ i → (serve handled n i f).0 0 ≡ f 0
unfolding serve
serve-zero handled zero i f h = refl
serve-zero handled (suc n) i f h =
    serve-zero handled n (i + 1) (set_conn f i (serve_one (handled i) (f i)).0) (omega arith)
    ∙ set_conn-zero f i (serve_one (handled i) (f i)).0 h

cleanup_bounds :
    (s : Connections) (f : ℕ → Conn) (closed : List (Option ℕ))
    → 1 ≤ s.count
    → (1 ≤ (cleanup s f closed).count)
      × ((cleanup s f closed).count ≤ s.count)
      × ((cleanup s f closed).conn 0 ≡ f 0)
unfolding cleanup
cleanup_bounds s f [] h = (h, omega arith, refl)
cleanup_bounds s f (_ ∷ _) h =
    let r = compact_lem (s.count - 1) 1 1 f (omega arith) (omega arith) in
    (r.1, omega (arith, r.2), r.3)

-- One round keeps the number of connections between 1 and 64 and the listening socket in place,
-- whatever `accept` and the commands of the clients return.
pub poll_round_lem :
    (a : Option ℕ) (handled : ℕ → Bool) (s : Connections)
    → 1 ≤ s.count
    → s.count ≤ max_connections
    → (1 ≤ (poll_round a handled s).0.count)
      × ((poll_round a handled s).0.count ≤ max_connections)
      × ((poll_round a handled s).0.conn 0 ≡ s.conn 0)
unfolding poll_round
poll_round_lem a handled s l h =
    let (le, ge, z) = accept-count a s l h in
    let served = serve handled ((accept_connection a s).count - 1) 1 (accept_connection a s).conn in
    let (ge', le', z') = cleanup_bounds (accept_connection a s) served.0 served.1 ge in
    (
      ge',
      omega (arith, le, le'),
      z'
          ∙ serve-zero handled ((accept_connection a s).count - 1) 1 (accept_connection a s).conn
              (omega arith)
          ∙ z,
    )
