-- ===== src/Socket.antt =====
-- Programs that talk over a stream socket: shim/interpose.c and user/nfpcore/nfp_cpp_dev.c with
-- user/nfpcore/nfp_cpp_dev_ops.c. A program is the tree of its calls of `read` and `write`, by what
-- they return.
pub mod Words
pub mod Runs
pub mod Loops
pub mod Finish
use nfp_udp_echo.Base.{
  ℕ, zero, suc, ◌+◌, ◌-◌, Bool, true, false, List, [], ◌∷◌, ◌++◌, take, drop, length, leb, ltb,
  ◌==◌, if◌then◌else◌,
}

-- What `read` or `write` returns: -1, or a number of bytes.
pub data Ret : Type 0 where
  failed : Ret
  moved : ℕ → Ret

-- `ret < sizeof(...)`: the comparison is unsigned, so that -1 is not smaller.
abbrev pub short : Ret → ℕ → Bool
short failed size = false
short (moved n) size = ltb n size

-- `ret < 0`
abbrev pub negative : Ret → Bool
negative failed = true
negative (moved n) = false

-- `spin` is a loop that is still at its calls after the rounds allowed.
pub data Proc {ℓ} (A : Type ℓ) : Type ℓ where
  ret : A → Proc A
  spin : Proc A
  write : List ℕ → (Ret → Proc A) → Proc A
  read : ℕ → (Ret → List ℕ → Proc A) → Proc A

-- How far a program gets with the bytes that have arrived, when each `write` takes all its bytes and
-- each `read` waits until it can give all it is asked for.
pub record Ran {ℓ} (A : Type ℓ) : Type ℓ where
  pub out : List ℕ
  pub proc : Proc A
  pub rest : List ℕ

abbrev pub emit {ℓ} : {A : Type ℓ} → List ℕ → Ran A → Ran A
emit bytes r = record r { out = bytes ++ r.out }

unfoldable pub advance_proc {ℓ} : {A : Type ℓ} → Proc A → List ℕ → Ran A
advance_proc (ret a) q = record { out = []; proc = ret a; rest = q }
advance_proc spin q = record { out = []; proc = spin; rest = q }
advance_proc (write bytes k) q = emit bytes (advance_proc (k (moved (length bytes))) q)
advance_proc (read n k) q =
    let go = advance_proc (k (moved n) (take n q)) (drop n q) in
    if leb n (length q) then go else record { out = []; proc = read n k; rest = q }

-- A request and its answer: the client runs until it waits, the server on what the client has sent,
-- and the client on what the server has sent.
pub record Dialogue {ℓ} (A B : Type ℓ) : Type ℓ where
  pub client : Proc A
  pub server : Proc B
  pub unread_by_client : List ℕ
  pub unread_by_server : List ℕ

unfoldable pub dialogue {ℓ} : {A B : Type ℓ} → Proc A → Proc B → Dialogue A B
unfolding advance_proc
dialogue client server =
    let asked = advance_proc client [] in
    let answered = advance_proc server asked.out in
    let done = advance_proc asked.proc answered.out in
    record {
      client = done.proc;
      server = answered.proc;
      unread_by_client = done.rest;
      unread_by_server = answered.rest ++ done.out;
    }
