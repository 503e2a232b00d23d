-- ===== src/Cdev/Bars/Windows.antt =====
-- user/nfpcore/nfp_cpp_dev.c: the windows of the elements that `nfp_enable_bars` sets are eighths of
-- the card's regions.
use nfp_udp_echo.Base.{
  ℕ, ◌+◌, ◌-◌, ◌*◌, ◌/◌, ◌%◌, ◌^◌, ◌≤◌, ◌<◌, ◌≡◌, ◌≢◌, ◌⊎◌, inl, ap, ◌∙◌, ℕ_discrete, arith,
}
use nfp_udp_echo.Base.Words.{u64, add64}
use nfp_udp_echo.Driver.{MemResource}
use nfp_udp_echo.Cdev.Bars.{NfpBar, address, nfp_bar_resource_start, set_bar}

-- Two blocks that do not meet, each given by its start and length.
abbrev pub Apart : ℕ → ℕ → ℕ → ℕ → Type 0
Apart a m b n = (a + m ≤ b) ⊎ (b + n ≤ a)

abbrev pub start_of : MemResource → ℕ
start_of r = address r.addr

-- The regions that the card has are mapped, of at least 8 bytes, and do not meet.
pub record AreMapped (resource : ℕ → MemResource) : Type 0 where
  pub mapped :
      (k : ℕ)
      → (resource k).phys_addr ≢ 0
      → (8 ≤ (resource k).len) × (start_of (resource k) + (resource k).len < 2 ^ 64)
  pub apart :
      (k l : ℕ)
      → k ≢ l
      → (resource k).phys_addr ≢ 0
      → (resource l).phys_addr ≢ 0
      → Apart (start_of (resource k)) (resource k).len (start_of (resource l)) (resource l).len

-- One block behind another of the same length.
mul_step : (q r r' : ℕ) → r < r' → q * r + q ≤ q * r'
mul_step q r r' h = grind arith

-- The window of `set_bar i`.
size_lem : (len : ℕ) → 8 ≤ len → len < 2 ^ 64 → add64 (u64 (len / 8 + (2 ^ 64 - 1))) 1 ≡ len / 8
size_lem len h l = omega arith

start_lem :
    (a q r len : ℕ)
    → r < 8
    → q * 8 ≤ len
    → a + len < 2 ^ 64
    → (add64 a (u64 (q * r)) ≡ a + q * r) × (q * r + q ≤ len)
start_lem a q r len h l e = (omega (arith, mul_step q r 8 h), omega (arith, mul_step q r 8 h))

abbrev pub size_of : NfpBar → ℕ
size_of b = add64 b.mask 1

-- The window of an element lies in its region.
abbrev pub IsInside : NfpBar → Type 0
IsInside b =
    (start_of b.resource ≤ nfp_bar_resource_start b)
    × (nfp_bar_resource_start b + size_of b ≤ start_of b.resource + b.resource.len)

module _ (fls : ℕ → ℕ) (resource : ℕ → MemResource) where
  -- Where the window of an element is.
  place_lem :
      (i : ℕ)
      → AreMapped resource
      → (resource (i / 8 * 2)).phys_addr ≢ 0
      → (size_of (set_bar fls resource i) ≡ (resource (i / 8 * 2)).len / 8)
        × (nfp_bar_resource_start (set_bar fls resource i)
            ≡ start_of (resource (i / 8 * 2)) + (resource (i / 8 * 2)).len / 8 * (i % 8))
        × ((resource (i / 8 * 2)).len / 8 * (i % 8) + (resource (i / 8 * 2)).len / 8
            ≤ (resource (i / 8 * 2)).len)
  unfolding set_bar nfp_bar_resource_start
  place_lem i ok p =
      let len = (resource (i / 8 * 2)).len in
      let a = start_of (resource (i / 8 * 2)) in
      let (at_least, fits) = ok.mapped (i / 8 * 2) p in
      let size = size_lem len at_least (omega arith) in
      let (start, within) = start_lem a (len / 8) (i % 8) len (omega arith) (omega arith) fits in
      (size, ap (λ n. add64 a (u64 (n * (i % 8)))) size ∙ start, within)

  -- The windows of two indices do not meet.
  pub apart_lem :
      (i j : ℕ)
      → AreMapped resource
      → i < j
      → (resource (i / 8 * 2)).phys_addr ≢ 0
      → (resource (j / 8 * 2)).phys_addr ≢ 0
      → Apart
          (nfp_bar_resource_start (set_bar fls resource i))
          (size_of (set_bar fls resource i))
          (nfp_bar_resource_start (set_bar fls resource j))
          (size_of (set_bar fls resource j))
  apart_lem i j ok h p q =
      let (size, start, within) = place_lem i ok p in
      let (size', start', within') = place_lem j ok q in
      elim (ℕ_discrete (i / 8 * 2) (j / 8 * 2)) [
        | no ne ↦ ground (
          arith,
          ok.apart (i / 8 * 2) (j / 8 * 2) ne p q,
          size,
          start,
          within,
          size',
          start',
          within',
        )
        | yes e ↦ inl (
            omega (
              arith,
              size,
              start,
              start',
              ap (λ k. start_of (resource k) + (resource k).len / 8 * (j % 8)) e,
              mul_step ((resource (i / 8 * 2)).len / 8) (i % 8) (j % 8) (omega (arith, h, e)),
            ))
      ]

  pub inside_lem :
      (i : ℕ)
      → AreMapped resource
      → (resource (i / 8 * 2)).phys_addr ≢ 0
      → IsInside (set_bar fls resource i)
  unfolding set_bar
  inside_lem i ok p = let (size, start, within) = place_lem i ok p in (omega arith, omega arith)
