-- ===== src/Base/Slots.antt =====
-- The arithmetic of a ring of `n` entries of `p` bytes each: the `k`-th entry since the start
-- lies at byte `pos n p k`.
use Prim.Native.Nat.{ℕ, ◌+◌, ◌-◌, ◌*◌, ◌/◌, ◌%◌, ◌^◌, ◌≤◌, ◌<◌}
use mathlib.Core.Path.{◌≡◌, refl, sym, ap, ap₂, ◌∙◌}
use mathlib.Core.Logic.{◌⊎◌, ◌≢◌, inl, inr}
use native.Mathlib.Decide.{ℕ_discrete, dec_lt}
use native.Mathlib.Omega.{arith}
use native.Mathlib.Nat.{
  zero-mod, zero-mul, div-add-mod, mod-add-mod, mod-eq_of_lt, mod-eq-sub-mod, add-mod_right,
  mod_self, mod-lt,
}
use nfp_udp_echo.Base.Tests.{leb, leb-true, leb-false, if◌then◌else◌}
use nfp_udp_echo.Base.Words.{add32}

unfoldable pub pos : ℕ → ℕ → ℕ → ℕ
pos n p k = k % n * p

-- The step to the next entry, as all of the ring code makes it.
unfoldable pub advance : ℕ → ℕ → ℕ → ℕ
advance step capacity at = let next = add32 at step in if leb capacity next then 0 else next

times_mono : (a b p : ℕ) → a ≤ b → a * p ≤ b * p
times_mono a b p h = grind arith

-- Fewer than `n` entries apart, two counters share an entry only if they are equal.
pub mod-injective : (n j k : ℕ) → j ≤ k → k < j + n → j % n ≡ k % n → j ≡ k
mod-injective n j k h l e = grind (arith, div-add-mod)

-- The next entry: the one behind, or the first.
mod-suc : (n k : ℕ) → 0 < n → (k + 1) % n ≡ (if leb n (k % n + 1) then 0 else k % n + 1)
mod-suc n k h = elim (dec_lt (k % n + 1) n) [
  | yes p ↦ ground (arith, mod-add-mod k n 1, mod-eq_of_lt p)
  | no q ↦ ground (
    arith,
    mod-add-mod k n 1,
    mod-eq-sub-mod {n = k % n + 1} {m = n} (omega arith),
    mod-eq_of_lt {n = k % n + 1 - n} {m = n} (omega arith),
  )
]

-- Entries lie inside the buffer.
pub pos-bound : (n p k : ℕ) → 0 < n → pos n p k + p ≤ n * p
unfolding pos
pos-bound n p k h = grind arith

advance-mul :
    (n p i : ℕ)
    → i < n
    → 0 < p
    → n * p < 2 ^ 32
    → advance p (n * p) (i * p) ≡ (if leb n (i + 1) then 0 else i + 1) * p
unfolding advance
advance-mul n p i hi hp w = elim (dec_lt (i + 1) n) [
  | yes q ↦
      rw
        (
          leb-false n (i + 1) q,
          leb-false (n * p) (add32 (i * p) p) (omega (arith, times_mono (i + 2) n p (omega arith))),
        )
        (omega (arith, times_mono (i + 2) n p (omega arith)))
  | no q ↦
      rw
        (
          leb-true n (i + 1) (omega arith),
          leb-true (n * p) (add32 (i * p) p) (omega (arith, same q)),
        )
        (omega arith)
]
  where
    same : ¬ (i + 1 < n) → i * p + p ≡ n * p
    same q =
        omega (arith, times_mono n (i + 1) p (omega arith), times_mono (i + 1) n p (omega arith))

pub advance-pos :
    (n p k : ℕ) → 0 < n → 0 < p → n * p < 2 ^ 32 → advance p (n * p) (pos n p k) ≡ pos n p (k + 1)
unfolding pos
advance-pos n p k hn hp w =
    advance-mul n p (k % n) (omega arith) hp w ∙ ap (λ i. i * p) (sym (mod-suc n k hn))

-- Fewer than `n` entries apart, two entries do not overlap.
pub pos-apart :
    (n p j k : ℕ)
    → j ≤ k
    → k < j + n
    → j ≢ k
    → (pos n p j + p ≤ pos n p k) ⊎ (pos n p k + p ≤ pos n p j)
unfolding pos
pos-apart n p j k h l ne = elim (dec_lt (j % n) (k % n)) [
  | yes q ↦ inl (omega (arith, times_mono (j % n + 1) (k % n) p (omega arith)))
  | no q ↦ elim (dec_lt (k % n) (j % n)) [
    | yes r ↦ inr (omega (arith, times_mono (k % n + 1) (j % n) p (omega arith)))
    | no r ↦ absurd (ne (mod-injective n j k h l (omega arith)))
  ]
]

-- Fewer than `n` entries apart, only equal counters are at one byte.
pub pos-injective : (n p j k : ℕ) → 0 < p → j ≤ k → k < j + n → pos n p j ≡ pos n p k → j ≡ k
pos-injective n p j k hp h l e = elim (ℕ_discrete j k) [
  | yes q ↦ q
  | no q ↦ absurd (ground (arith, pos-apart n p j k h l q))
]

-- One round leads back to the same entry.
pub pos-add_self : (n p k : ℕ) → pos n p (k + n) ≡ pos n p k
unfolding pos
pos-add_self n p k = rw add-mod_right refl

mod-advance :
    (step capacity at : ℕ)
    → 0 < capacity
    → at + step ≤ capacity
    → capacity < 2 ^ 32
    → add32 at step % capacity ≡ advance step capacity at
unfolding advance
mod-advance step capacity at hc le w = elim (dec_lt (at + step) capacity) [
  | yes q ↦ ground (arith, mod-eq_of_lt {n = add32 at step} {m = capacity} (omega arith))
  | no q ↦ ground (arith, mod_self capacity)
]

-- The position behind an entry, taken modulo the capacity, is the next entry's.
pub pos-mod :
    (n p k : ℕ) → 0 < n → 0 < p → n * p < 2 ^ 32 → add32 (pos n p k) p % (n * p) ≡ pos n p (k + 1)
pos-mod n p k hn hp w =
    mod-advance p (n * p) (pos n p k) (omega (arith, pos-bound n p k hn)) (pos-bound n p k hn) w
    ∙ advance-pos n p k hn hp w

-- From one counter to another less than a round ahead: the distance in bytes, and where it wraps.
quotient-step :
    (n j k : ℕ) → j ≤ k → k < j + n → (n * (k / n) ≡ n * (j / n)) ⊎ (n * (k / n) ≡ n * (j / n) + n)
quotient-step n j k h l = elim (dec_lt (j / n + 1) (k / n)) [
  | yes q ↦ absurd (
      omega (
        arith,
        div-add-mod k n,
        div-add-mod j n,
        mod-lt j {m = n} (omega arith),
        times_mono (j / n + 2) (k / n) n (omega arith),
      ))
  | no q ↦ elim (dec_lt (k / n) (j / n)) [
    | yes r ↦ absurd (
        omega
          (arith, div-add-mod k n, div-add-mod j n, times_mono (k / n + 1) (j / n) n (omega arith)))
    | no r ↦ elim (ℕ_discrete (k / n) (j / n)) [
      | yes e ↦ inl (ap (λ t. n * t) e)
      | no e ↦
          inr
            (omega (arith, ap (λ t. n * t) (let above : k / n ≡ j / n + 1 = omega arith in above)))
    ]
  ]
]

mod-distance :
    (n j k : ℕ)
    → j ≤ k
    → k < j + n
    → (k % n ≡ j % n + (k - j)) ⊎ ((k % n + n ≡ j % n + (k - j)) × (k % n < j % n))
mod-distance n j k h l = ground (
  arith,
  quotient-step n j k h l,
  mod-lt k {m = n} (omega arith),
  mod-lt j {m = n} (omega arith),
  div-add-mod k n,
  div-add-mod j n,
)

pub pos-distance :
    (n p j k : ℕ)
    → 0 < n
    → j ≤ k
    → k < j + n
    → ((pos n p k ≡ pos n p j + (k - j) * p)
        ⊎ ((pos n p k + n * p ≡ pos n p j + (k - j) * p) × (pos n p k + p ≤ pos n p j)))
unfolding pos
pos-distance n p j k hn h l = elim (mod-distance n j k h l) [
  | inl e ↦ inl (omega (arith, ap (λ t. t * p) e))
  | inr e ↦ inr (
    omega (arith, ap (λ t. t * p) e.0),
    omega (arith, times_mono (k % n + 1) (j % n) p (omega arith)),
  )
]

pub pos-zero : (n p : ℕ) → pos n p 0 ≡ 0
unfolding pos
pos-zero n p = rw (zero-mod, zero-mul)

-- The same where the numbers are given by equations.
pub advance_at :
    (n p k step capacity at : ℕ)
    → 0 < n
    → 0 < p
    → n * p < 2 ^ 32
    → step ≡ p
    → capacity ≡ n * p
    → at ≡ pos n p k
    → advance step capacity at ≡ pos n p (k + 1)
advance_at n p k step capacity at hn hp w es ec ea =
    ap₂ (λ a b. advance a b at) es ec ∙ ap (advance p (n * p)) ea ∙ advance-pos n p k hn hp w
