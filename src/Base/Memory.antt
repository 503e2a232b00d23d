-- ===== src/Base/Memory.antt =====
-- Byte-addressed memory, and blocks of bytes in it.
use Prim.Native.Nat.{ℕ, zero, suc, ◌+◌, ◌≤◌, ◌<◌}
use mathlib.Core.Path.{◌≡◌, refl, ap, ap₂, ◌∙◌, fun_ext}
use mathlib.Core.Logic.{◌⊎◌, inl}
use mathlib.Core.List.{List, [], ◌∷◌, ◌++◌}
use native.Mathlib.Omega.{arith}
use native.Mathlib.Decide.{ℕ_discrete}
use native.Mathlib.Nat.{add-zero, zero-add, suc-add}
use nfp_udp_echo.Base.Tests.{◌==◌, if◌then◌else◌}
use nfp_udp_echo.Base.Lists.{length}

abbrev pub Mem : Type 0
Mem = ℕ → ℕ

unfoldable pub read_bytes : Mem → ℕ → ℕ → List ℕ
read_bytes m a zero = []
read_bytes m a (suc n) = m a ∷ read_bytes m (a + 1) n

unfoldable pub write_bytes : Mem → ℕ → List ℕ → Mem
write_bytes m a [] = m
write_bytes m a (x ∷ xs) = λ b. if a == b then x else write_bytes m (a + 1) xs b

pub length-read_bytes : (m : Mem) (a n : ℕ) → length (read_bytes m a n) ≡ n
unfolding read_bytes
length-read_bytes m a zero = refl
length-read_bytes m a (suc n) = omega (arith, length-read_bytes m (a + 1) n)

-- An address outside the block keeps its byte.
pub write_bytes_apart :
    (m : Mem) (a : ℕ) (xs : List ℕ) (b : ℕ)
    → (b < a) ⊎ (a + length xs ≤ b)
    → write_bytes m a xs b ≡ m b
unfolding write_bytes
write_bytes_apart m a [] b h = refl
write_bytes_apart m a (x ∷ xs) b h = ground (arith, write_bytes_apart m (a + 1) xs b)

-- A block beside the written one reads as before.
pub read-write_apart :
    (m : Mem) (a : ℕ) (xs : List ℕ) (b n : ℕ)
    → (b + n ≤ a) ⊎ (a + length xs ≤ b)
    → read_bytes (write_bytes m a xs) b n ≡ read_bytes m b n
unfolding read_bytes
read-write_apart m a xs b zero h = refl
read-write_apart m a xs b (suc n) h =
    ap₂ ◌∷◌ (write_bytes_apart m a xs b (ground arith))
      (read-write_apart m a xs (b + 1) n (ground arith))

write_bytes_cong :
    (m m' : Mem) (a : ℕ) (xs : List ℕ) (b : ℕ)
    → m b ≡ m' b
    → write_bytes m a xs b ≡ write_bytes m' a xs b
unfolding write_bytes
write_bytes_cong m m' a [] b e = e
write_bytes_cong m m' a (x ∷ xs) b e = rw (write_bytes_cong m m' (a + 1) xs b e)

write_bytes_at :
    (m : Mem) (a : ℕ) (xs ys : List ℕ) (b : ℕ)
    → write_bytes (write_bytes m a xs) (a + length xs) ys b ≡ write_bytes m a (xs ++ ys) b
unfolding write_bytes
write_bytes_at m a [] ys b = rw add-zero
write_bytes_at m a (x ∷ xs) ys b = elim (ℕ_discrete a b) [
  | yes e ↦
      write_bytes_apart (write_bytes m a (x ∷ xs)) (a + suc (length xs)) ys b (inl (omega arith))
      ∙ ground arith
  | no ne ↦
      write_bytes_cong (write_bytes m a (x ∷ xs)) (write_bytes m (a + 1) xs) (a + suc (length xs))
        ys b (ground arith)
      ∙ ap (λ c. write_bytes (write_bytes m (a + 1) xs) c ys b) (omega arith)
      ∙ write_bytes_at m (a + 1) xs ys b
      ∙ ground arith
]

read_bytes_ext :
    (m m' : Mem) (a n : ℕ) → ((b : ℕ) → a ≤ b → m b ≡ m' b) → read_bytes m a n ≡ read_bytes m' a n
unfolding read_bytes
read_bytes_ext m m' a zero h = refl
read_bytes_ext m m' a (suc n) h =
    ap₂ ◌∷◌ (h a (omega arith)) (read_bytes_ext m m' (a + 1) n (λ b q. h b (omega arith)))

-- The written block reads back.
pub read-write_self :
    (m : Mem) (a : ℕ) (xs : List ℕ) (n : ℕ)
    → n ≡ length xs
    → read_bytes (write_bytes m a xs) a n ≡ xs
unfolding read_bytes
read-write_self m a [] zero h = refl
read-write_self m a [] (suc n) h = absurd (omega arith)
read-write_self m a (x ∷ xs) zero h = absurd (omega arith)
read-write_self m a (x ∷ xs) (suc n) h = ap₂ ◌∷◌ (unfold write_bytes in ground arith) (
    read_bytes_ext (write_bytes m a (x ∷ xs)) (write_bytes m (a + 1) xs) (a + 1) n
      (λ b h'. unfold write_bytes in ground arith)
    ∙ read-write_self m (a + 1) xs n (omega arith))

pub read_bytes_add :
    (m : Mem) (a k n : ℕ) → read_bytes m a (k + n) ≡ read_bytes m a k ++ read_bytes m (a + k) n
unfolding read_bytes
read_bytes_add m a zero n = rw (zero-add, add-zero)
read_bytes_add m a (suc k) n = rw suc-add (
    ap (λ t. m a ∷ t)
      (read_bytes_add m (a + 1) k n
        ∙ ap (λ c. read_bytes m (a + 1) k ++ read_bytes m c n) (omega arith)))

-- Two adjacent blocks, written one after the other, are one block.
pub write_bytes-append :
    (m : Mem) (a : ℕ) (xs ys : List ℕ)
    → write_bytes (write_bytes m a xs) (a + length xs) ys ≡ write_bytes m a (xs ++ ys)
write_bytes-append m a xs ys = fun_ext λ b. write_bytes_at m a xs ys b

-- Two blocks are equal byte by byte.
pub read_bytes_eq :
    (m m' : Mem) (a b n : ℕ)
    → ((j : ℕ) → j < n → m (a + j) ≡ m' (b + j))
    → read_bytes m a n ≡ read_bytes m' b n
unfolding read_bytes
read_bytes_eq m m' a b zero h = refl
read_bytes_eq m m' a b (suc n) h =
    ap₂ ◌∷◌ (ap m (omega arith) ∙ h 0 (omega arith) ∙ ap m' (omega arith)) (
      read_bytes_eq m m' (a + 1) (b + 1) n
        (λ j q. ap m (omega arith) ∙ h (j + 1) (omega arith) ∙ ap m' (omega arith)))
