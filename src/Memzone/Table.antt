-- ===== src/Memzone/Table.antt =====
-- The table of zones of user/lib/memzone.c: its invariant, and what its operations do to it.
use nfp_udp_echo.Base.{
  ℕ, zero, suc, ◌+◌, ◌-◌, ◌≤◌, ◌<◌, ◌≡◌, ◌≢◌, ◌⊎◌, inl, inr, refl, sym, ap, ap₂, subst, fun_ext,
  ◌∙◌, Option-cases, lt→ltb, leb-false, true, none, some, ◌==◌, if◌then◌else◌, arith, ℕ_discrete,
}
use nfp_udp_echo.Base.Words.{u16}
use nfp_udp_echo.Memzone.{
  Memzone, Zones, element, max_memzones, handle_invalid, update, set_handle, find_unused,
  alloc_memzone, free_memzone, memzone_init,
}

-- The unused elements among the first `n`.
pub unused : ℕ → (ℕ → Memzone) → ℕ
unused zero mz = 0
unused (suc n) mz = unused n mz + (if (mz n).handle == handle_invalid then 1 else 0)

-- An element's handle is its index, or marks it as unused; `_free_mz` counts the latter.
pub record IsValid (s : Zones) : Type 0 where
  pub handles :
      (i : ℕ) → i < max_memzones → ((s.mz i).handle ≡ i) ⊎ ((s.mz i).handle ≡ handle_invalid)
  pub counted : s.free_mz ≡ unused max_memzones s.mz

pub unused-le : (n : ℕ) (mz : ℕ → Memzone) → unused n mz ≤ n
unfolding unused
unused-le zero mz = omega arith
unused-le (suc n) mz = ground (arith, unused-le n mz)

-- A changed element counts only by whether it was and is unused.
unused-update_of_le :
    (n : ℕ) (mz : ℕ → Memzone) (i : ℕ) (z : Memzone)
    → n ≤ i
    → unused n (update mz i z) ≡ unused n mz
unfolding unused
unused-update_of_le zero mz i z h = refl
unused-update_of_le (suc n) mz i z h = ground (arith, unused-update_of_le n mz i z)

pub unused-update :
    (n : ℕ) (mz : ℕ → Memzone) (i : ℕ) (z : Memzone)
    → i < n
    → unused n (update mz i z) + (if (mz i).handle == handle_invalid then 1 else 0)
      ≡ unused n mz + (if z.handle == handle_invalid then 1 else 0)
unfolding unused
unused-update zero mz i z h = absurd (omega arith)
unused-update (suc n) mz i z h = elim (ℕ_discrete i n) [
  | yes e ↦ ground (arith, unused-update_of_le n mz i z, ap (λ k. (mz k).handle) e)
  | no ne ↦ ground (arith, unused-update n mz i z)
]

-- What the search finds is unused; it finds one if there is one.
pub find_unused_lem :
    (n : ℕ) (mz : ℕ → Memzone) (idx i : ℕ)
    → find_unused n mz idx ≡ some i
    → (idx ≤ i) × (i < idx + n) × ((mz i).handle ≡ handle_invalid)
unfolding find_unused
find_unused_lem zero mz idx i e = cc
find_unused_lem (suc n) mz idx i e = ground (arith, find_unused_lem n mz (idx + 1) i)

pub find_unused-none :
    (n : ℕ) (mz : ℕ → Memzone) (idx : ℕ)
    → find_unused n mz idx ≡ none
    → (j : ℕ) → idx ≤ j
    → j < idx + n
    → (mz j).handle ≢ handle_invalid
unfolding find_unused
find_unused-none zero mz idx e j lo hi = absurd (omega arith)
find_unused-none (suc n) mz idx e j lo hi = elim (ℕ_discrete idx j) [
  | yes q ↦ ground (arith, ap (λ k. (mz k).handle) q)
  | no q ↦ find_unused-none n mz (idx + 1) (ground arith) j (omega arith) (omega arith)
]

unused-zero :
    (n : ℕ) (mz : ℕ → Memzone)
    → ((j : ℕ) → j < n → (mz j).handle ≢ handle_invalid)
    → unused n mz ≡ 0
unfolding unused
unused-zero zero mz h = refl
unused-zero (suc n) mz h = ground (arith, unused-zero n mz (λ j q. h j (omega arith)), h n)

unused-all :
    (n : ℕ) (mz : ℕ → Memzone)
    → ((j : ℕ) → j < n → (mz j).handle ≡ handle_invalid)
    → unused n mz ≡ n
unfolding unused
unused-all zero mz h = refl
unused-all (suc n) mz h = ground (arith, unused-all n mz (λ j q. h j (omega arith)), h n)

-- `memzone_init` leaves a valid table with every element unused, whatever there was.
pub init-IsValid :
    (s : Zones)
    → IsValid (memzone_init s) × (unused max_memzones (memzone_init s).mz ≡ max_memzones)
unfolding memzone_init
init-IsValid s = (record { handles = λ i h. inr (cleared i h); counted = sym all }, all)
  where
    cleared : (i : ℕ) → i < max_memzones → ((memzone_init s).mz i).handle ≡ handle_invalid
    cleared i h = rw (lt→ltb i max_memzones h)

    all : unused max_memzones (memzone_init s).mz ≡ max_memzones
    all = unused-all max_memzones (memzone_init s).mz cleared

-- The element that an allocation has taken.
abbrev pub taken : Zones → ℕ → Zones
taken s i = record (set_handle s i i) { free_mz = s.free_mz - 1 }

-- An allocation fails exactly if the count is zero; otherwise it takes an unused element.
pub alloc_memzone_lem :
    (s : Zones)
    → IsValid s
    → ((s.free_mz ≡ 0) × (alloc_memzone s ≡ (none, s)))
      ⊎ ((i : ℕ) × (i < max_memzones)
          × ((s.mz i).handle ≡ handle_invalid)
          × (0 < s.free_mz)
          × (alloc_memzone s ≡ (some i, taken s i)))
unfolding alloc_memzone
alloc_memzone_lem s v = elim (ℕ_discrete s.free_mz 0) [
  | yes z ↦ inl (z, ground arith)
  | no nz ↦ elim (Option-cases (find_unused max_memzones s.mz 0)) [
    | inl e ↦ absurd (
        nz (
          v.counted
          ∙ unused-zero max_memzones s.mz
              (λ j q. find_unused-none max_memzones s.mz 0 e j (omega arith) (omega arith))))
    | inr (i, e) ↦ inr (
      i,
      omega (arith, find_unused_lem max_memzones s.mz 0 i e),
      (find_unused_lem max_memzones s.mz 0 i e).2,
      omega arith,
      rw (e, alloc_memzone) (ground (arith, v.counted, unused-le max_memzones s.mz)),
    )
  ]
]

pub taken-IsValid :
    (s : Zones) (i : ℕ)
    → IsValid s
    → i < max_memzones
    → (s.mz i).handle ≡ handle_invalid
    → IsValid (taken s i)
taken-IsValid s i v h e = record {
  handles = λ j q. ground (arith, v.handles j q);
  counted =
      ground
        (arith, v.counted, unused-update max_memzones s.mz i (record (s.mz i) { handle = i }) h);
}

==_refl : (i : ℕ) → (i == i) ≡ true
==_refl i = ground arith

pub freed :
    (s : Zones) (i : ℕ)
    → i < max_memzones
    → (s.mz i).handle ≡ i
    → free_memzone (element i) s
      ≡ record (set_handle s i handle_invalid) { free_mz = u16 (s.free_mz + 1) }
unfolding free_memzone
freed s i h e = rw e (rw (leb-false max_memzones i h, ==_refl i) refl)

not_freed : (s : Zones) (i : ℕ) → (s.mz i).handle ≡ handle_invalid → free_memzone (element i) s ≡ s
unfolding free_memzone
not_freed s i e = rw e

-- `free_memzone` on any element keeps the invariant.
pub free-IsValid :
    (s : Zones) (i : ℕ) → IsValid s → i < max_memzones → IsValid (free_memzone (element i) s)
free-IsValid s i v h = elim (v.handles i h) [
  | inl e ↦ rw (freed s i h e) (record {
    handles = λ j q. ground (arith, v.handles j q);
    counted = ground (
      arith,
      v.counted,
      unused-le max_memzones s.mz,
      unused-update max_memzones s.mz i (record (s.mz i) { handle = handle_invalid }) h,
    );
  })
  | inr e ↦ rw (not_freed s i e) v
]

restored :
    (s : Zones) (i j : ℕ)
    → (s.mz i).handle ≡ handle_invalid
    → update (taken s i).mz i (record ((taken s i).mz i) { handle = handle_invalid }) j ≡ s.mz j
restored s i j e = elim (ℕ_discrete i j) [
  | yes q ↦
      subst
        (λ k.
          update (taken s i).mz i (record ((taken s i).mz i) { handle = handle_invalid }) k
          ≡ s.mz k)
        q at_i
  | no q ↦ ground arith
]
  where
    at_i :
        update (taken s i).mz i (record ((taken s i).mz i) { handle = handle_invalid }) i ≡ s.mz i
    at_i = rw (==_refl i) (ap (λ h. record (s.mz i) { handle = h }) (sym e))

-- Freeing what an allocation took gives the table back as it was.
pub free-taken :
    (s : Zones) (i : ℕ)
    → IsValid s
    → i < max_memzones
    → (s.mz i).handle ≡ handle_invalid
    → 0 < s.free_mz
    → free_memzone (element i) (taken s i) ≡ s
free-taken s i v h e pos =
    freed (taken s i) i h (ground arith)
    ∙ ap₂ (λ f k. record s { mz = f; free_mz = k }) (fun_ext λ j. restored s i j e)
        (omega (arith, v.counted, unused-le max_memzones s.mz))
