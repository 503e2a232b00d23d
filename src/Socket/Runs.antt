-- ===== src/Socket/Runs.antt =====
-- How the programs on a socket run, call by call.
use nfp_udp_echo.Base.{
  ℕ, ◌<◌, ◌^◌, ◌≡◌, refl, ap, subst, ◌∙◌, List, [], ◌∷◌, ◌++◌, length, take, drop, length-append,
  leb-true, leb-false, arith,
}
use nfp_udp_echo.Socket.{Ret, moved, Proc, ret, read, write, emit, advance_proc}
use nfp_udp_echo.Socket.Words.{to_le, overlay, read_word, length-to_le, overlay-to_le}

take_all : (xs ys : List ℕ) → take (length xs) (xs ++ ys) ≡ xs
take_all [] ys = refl
take_all (x ∷ xs) ys = ap (◌∷◌ x) (take_all xs ys)

drop_all : (xs ys : List ℕ) → drop (length xs) (xs ++ ys) ≡ ys
drop_all [] ys = refl
drop_all (x ∷ xs) ys = drop_all xs ys

module _ {ℓ} {A : Type ℓ} where
  pub advance-ret :
      (a : A) (q : List ℕ) → advance_proc (ret a) q ≡ record { out = []; proc = ret a; rest = q }
  unfolding advance_proc
  advance-ret a q = refl

  pub advance-write :
      (bytes q : List ℕ) (k : Ret → Proc A)
      → advance_proc (write bytes k) q ≡ emit bytes (advance_proc (k (moved (length bytes))) q)
  unfolding advance_proc
  advance-write bytes q k = refl

  -- A `read` of what stands first in the queue.
  pub advance-read :
      (n : ℕ) (xs ys : List ℕ) (k : Ret → List ℕ → Proc A)
      → length xs ≡ n
      → advance_proc (read n k) (xs ++ ys) ≡ advance_proc (k (moved n) xs) ys
  unfolding advance_proc
  advance-read n xs ys k e =
      subst (λ m. advance_proc (read m k) (xs ++ ys) ≡ advance_proc (k (moved m) xs) ys) e
        (rw
          (
            leb-true (length xs) (length (xs ++ ys)) (omega (arith, length-append xs ys)),
            take_all xs ys,
            drop_all xs ys,
          )
          refl)

  -- A `read` waits on a queue that is too short.
  pub advance-wait :
      (n : ℕ) (q : List ℕ) (k : Ret → List ℕ → Proc A)
      → length q < n
      → advance_proc (read n k) q ≡ record { out = []; proc = read n k; rest = q }
  unfolding advance_proc
  advance-wait n q k h = rw (leb-false n (length q) h) refl

  pub advance-read_word :
      (x old : ℕ) (ys : List ℕ) (k : Ret → ℕ → Proc A)
      → x < 2 ^ 64
      → advance_proc (read_word old k) (to_le 8 x ++ ys) ≡ advance_proc (k (moved 8) x) ys
  advance-read_word x old ys k h =
      advance-read 8 (to_le 8 x) ys (λ r bytes. k r (overlay bytes old)) (length-to_le 8 x)
      ∙ ap (λ y. advance_proc (k (moved 8) y) ys) (overlay-to_le x old h)
