-- ===== src/Socket/Finish.antt =====
-- Whether a program on a socket comes to its end, whatever the other side does.
use nfp_udp_echo.Base.{
  ℕ, zero, suc, ◌-◌, ◌/◌, ◌^◌, ◌<◌, ◌≤◌, ◌≡◌, subst, List, [], ◌∷◌, ◌++◌, length, drop, arith,
  length-append, ◌==◌, on_if,
}
use native.Mathlib.Nat.{pow-suc}
use nfp_udp_echo.Socket.{Ret, failed, moved, short, Proc, ret, spin, write, read}
use nfp_udp_echo.Socket.Words.{to_le, of_le, overlay, read_word, length-to_le}
use nfp_udp_echo.Socket.Loops.{read_all, write_all, write_words}

abbrev pub AreBytes : List ℕ → Type 0
AreBytes [] = Unit
AreBytes (b ∷ bytes) = (b < 256) × AreBytes bytes

-- The program ends if each of its calls fails, or moves some of the bytes that it asks for: it is
-- never left in a loop.
unfoldable pub Finishes {ℓ} : {A : Type ℓ} → Proc A → Type 0
Finishes (ret a) = Unit
Finishes spin = ⊥
Finishes (write bytes k) =
    Finishes (k failed) × ((n : ℕ) → 0 < n → n ≤ length bytes → Finishes (k (moved n)))
Finishes (read n k) =
    Finishes (k failed [])
    × ((bytes : List ℕ)
        → AreBytes bytes
        → 0 < length bytes
        → length bytes ≤ n
        → Finishes (k (moved (length bytes)) bytes))

of_le-bound : (bytes : List ℕ) → AreBytes bytes → of_le bytes < 256 ^ length bytes
unfolding of_le
of_le-bound [] h = omega arith
of_le-bound (b ∷ bytes) (l, h) = omega (arith, of_le-bound bytes h, pow-suc 256 (length bytes))

append-AreBytes : (xs ys : List ℕ) → AreBytes xs → AreBytes ys → AreBytes (xs ++ ys)
append-AreBytes [] ys h k = k
append-AreBytes (x ∷ xs) ys (l, h) k = (l, append-AreBytes xs ys h k)

drop-AreBytes : (n : ℕ) (xs : List ℕ) → AreBytes xs → AreBytes (drop n xs)
drop-AreBytes zero xs h = h
drop-AreBytes (suc n) [] h = tt
drop-AreBytes (suc n) (x ∷ xs) (l, h) = drop-AreBytes n xs h

to_le-AreBytes : (n x : ℕ) → AreBytes (to_le n x)
unfolding to_le
to_le-AreBytes zero x = tt
to_le-AreBytes (suc n) x = (omega arith, to_le-AreBytes n (x / 256))

length-drop : {A : Type 0} (n : ℕ) (xs : List A) → length (drop n xs) ≡ length xs - n
length-drop zero xs = omega arith
length-drop (suc n) [] = omega arith
length-drop (suc n) (x ∷ xs) = omega (arith, length-drop n xs)

-- A word read from a socket is a word, however many of its bytes have come.
overlay-bound :
    (bytes : List ℕ) (old : ℕ) → AreBytes bytes → length bytes ≤ 8 → overlay bytes old < 2 ^ 64
unfolding overlay
overlay-bound bytes old h l =
    let rest = drop (length bytes) (to_le 8 old) in
    let all = of_le-bound (bytes ++ rest) (
      append-AreBytes bytes rest h
        (drop-AreBytes (length bytes) (to_le 8 old) (to_le-AreBytes 8 old))) in
    let eight : length (bytes ++ rest) ≡ 8 = omega (
      arith,
      length-append bytes rest,
      length-drop (length bytes) (to_le 8 old),
      length-to_le 8 old,
    ) in
    subst (λ n. of_le (bytes ++ rest) < 256 ^ n) eight all

module _ {ℓ} {A : Type ℓ} where
  pub ret-Finishes : (a : A) → Finishes (ret a)
  unfolding Finishes
  ret-Finishes a = tt

  pub write-Finishes :
      (bytes : List ℕ) (k : Ret → Proc A) → ((r : Ret) → Finishes (k r)) → Finishes (write bytes k)
  unfolding Finishes
  write-Finishes bytes k h = (h failed, λ n p q. h (moved n))

  pub read-Finishes :
      (n : ℕ) (k : Ret → List ℕ → Proc A)
      → ((r : Ret) (bytes : List ℕ) → Finishes (k r bytes))
      → Finishes (read n k)
  unfolding Finishes
  read-Finishes n k h = (h failed [], λ bytes b p q. h (moved (length bytes)) bytes)

  pub read_word-Finishes :
      (old : ℕ) (k : Ret → ℕ → Proc A)
      → ((r : Ret) (x : ℕ) → x < 2 ^ 64 → Finishes (k r x))
      → Finishes (read_word old k)
  unfolding Finishes
  read_word-Finishes old k h = (
    h failed (overlay [] old) (overlay-bound [] old tt (omega arith)),
    λ bytes b p q. h (moved (length bytes)) (overlay bytes old) (overlay-bound bytes old b q),
  )

  pub write_words-Finishes :
      (xs : List ℕ) (fail k : Proc A)
      → Finishes fail
      → Finishes k
      → Finishes (write_words xs fail k)
  write_words-Finishes [] fail k f h = h
  write_words-Finishes (x ∷ xs) fail k f h = write-Finishes (to_le 8 x) _ (λ r.
      on_if Finishes (short r 8) fail (write_words xs fail k) (λ _. f)
        (λ _. write_words-Finishes xs fail k f h))

  -- A round of a loop moves at least a byte, so that as many rounds are enough as there are bytes.
  pub read_all-Finishes :
      (rounds left : ℕ) (buf : List ℕ) (fail : Proc A) (k : List ℕ → Proc A)
      → left ≤ rounds
      → Finishes fail
      → ((bytes : List ℕ) → Finishes (k bytes))
      → Finishes (read_all rounds left buf fail k)
  unfolding read_all Finishes
  read_all-Finishes zero zero buf fail k l f h = h buf
  read_all-Finishes zero (suc left) buf fail k l f h = absurd (omega arith)
  read_all-Finishes (suc rounds) left buf fail k l f h =
      on_if Finishes (left == 0) (k buf) _ (λ _. h buf)
        (λ _. (
          f,
          λ bytes b p q.
              read_all-Finishes rounds (left - length bytes) (buf ++ bytes) fail k (omega arith) f
                h,
        ))

  pub write_all-Finishes :
      (rounds : ℕ) (bytes : List ℕ) (fail k : Proc A)
      → length bytes ≤ rounds
      → Finishes fail
      → Finishes k
      → Finishes (write_all rounds bytes fail k)
  unfolding write_all Finishes
  write_all-Finishes zero [] fail k l f h = h
  write_all-Finishes zero (b ∷ bytes) fail k l f h = absurd (omega arith)
  write_all-Finishes (suc rounds) [] fail k l f h = h
  write_all-Finishes (suc rounds) (b ∷ bytes) fail k l f h = (
    f,
    λ n p q.
        write_all-Finishes rounds (drop n (b ∷ bytes)) fail k
          (omega (arith, length-drop n (b ∷ bytes))) f h,
  )
