-- ===== src/Socket/Words.antt =====
-- Little-endian words on the socket, of `sizeof(uint64_t)` bytes and others.
use nfp_udp_echo.Base.{
  ℕ, zero, suc, ◌+◌, ◌*◌, ◌/◌, ◌%◌, ◌^◌, ◌<◌, ◌≡◌, refl, ap, List, [], ◌∷◌, ◌++◌, length, drop,
  arith,
}
use native.Mathlib.Nat.{pow-suc}
use nfp_udp_echo.Socket.{Ret, Proc, read, write}

-- The `n` bytes of a word, lowest first.
unfoldable pub to_le : ℕ → ℕ → List ℕ
to_le zero x = []
to_le (suc n) x = x % 256 ∷ to_le n (x / 256)

unfoldable pub of_le : List ℕ → ℕ
of_le [] = 0
of_le (b ∷ bytes) = b + 256 * of_le bytes

-- A word of which the first bytes are overwritten.
unfoldable pub overlay : List ℕ → ℕ → ℕ
unfolding to_le of_le
overlay bytes old = of_le (bytes ++ drop (length bytes) (to_le 8 old))

-- `read(fd, &temp, sizeof(temp))` and `write(fd, &temp, sizeof(temp))` for a `uint64_t`
abbrev pub read_word {ℓ} : {A : Type ℓ} → ℕ → (Ret → ℕ → Proc A) → Proc A
read_word temp k = read 8 (λ r bytes. k r (overlay bytes temp))

abbrev pub write_word {ℓ} : {A : Type ℓ} → ℕ → (Ret → Proc A) → Proc A
write_word temp k = write (to_le 8 temp) k

pub length-to_le : (n x : ℕ) → length (to_le n x) ≡ n
unfolding to_le
length-to_le zero x = refl
length-to_le (suc n) x = ap suc (length-to_le n (x / 256))

-- A word that fits its bytes is read back.
pub of_le-to_le : (n x : ℕ) → x < 256 ^ n → of_le (to_le n x) ≡ x
unfolding of_le to_le
of_le-to_le zero x h = omega arith
of_le-to_le (suc n) x h = omega (arith, of_le-to_le n (x / 256) (smaller))
  where
    smaller : x / 256 < 256 ^ n
    smaller = omega (arith, pow-suc 256 n)

pub append-nil : (xs : List ℕ) → xs ++ [] ≡ xs
append-nil [] = refl
append-nil (x ∷ xs) = ap (◌∷◌ x) (append-nil xs)

pub overlay-to_le : (x old : ℕ) → x < 2 ^ 64 → overlay (to_le 8 x) old ≡ x
unfolding overlay to_le of_le
overlay-to_le x old h = omega arith
