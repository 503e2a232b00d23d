-- ===== src/Cdev/Bars/Placed.antt =====
-- user/nfpcore/nfp_cpp_dev.c: what `nfp_enable_bars` leaves in its table of BARs.
use mathlib.Core.Option.{some-injective, none-ne-some}
use nfp_udp_echo.Base.{
  ℕ, zero, suc, ◌+◌, ◌*◌, ◌/◌, ◌%◌, ◌<◌, ◌≤◌, ◌≡◌, ◌≢◌, ◌⊎◌, inl, inr, refl, ap, ◌∙◌, subst, Bool,
  some, Option-cases, List, [], ◌∷◌, get_elem?, length, ltb, ◌==◌, dec_lt, on_if, arith,
}
use nfp_udp_echo.Base.Words.{u64, add64}
use nfp_udp_echo.Driver.{MemResource, else-eq-some}
use nfp_udp_echo.Cdev.Bars.{
  NfpBar, BarWrite, nfp_pci_bar_max, nfp_bar_resource_start, nfp_bar_write, set_bar, set_bars,
  bar_le, barcfg_explicit, modify_at, Enabled, enable_explicit, nfp_enable_bars,
}
use nfp_udp_echo.Cdev.Bars.Windows.{
  Apart, AreMapped, IsInside, start_of, size_of, inside_lem, apart_lem,
}

-- `qsort` only moves the elements of the table.
abbrev pub Rearranges : ((NfpBar → NfpBar → Bool) → List NfpBar → List NfpBar) → Type 0
Rearranges qsort =
    (le : NfpBar → NfpBar → Bool) (l : List NfpBar) (k : ℕ) (b : NfpBar)
    → get_elem? (qsort le l) k ≡ some b
    → (j : ℕ) × (get_elem? l j ≡ some b)

module _ (fls : ℕ → ℕ) (resource : ℕ → MemResource) where
  -- An element that the first loop sets for its index, whose window the card has; only what is
  -- written to its register and where it is mapped may have changed: nowhere, or at its window.
  pub record IsWindow (b : NfpBar) : Type 0 where
    pub below : b.index < nfp_pci_bar_max
    pub present : (resource (b.index / 8 * 2)).phys_addr ≢ 0
    pub mask_eq : b.mask ≡ (set_bar fls resource b.index).mask
    pub resource_eq : b.resource ≡ resource (b.index / 8 * 2)
    pub placed : (b.iomem ≡ 0) ⊎ (b.iomem ≡ nfp_bar_resource_start b)

  AllSet : List NfpBar → Type 0
  AllSet l = (k : ℕ) (b : NfpBar) → get_elem? l k ≡ some b → IsWindow b

  set_bar-IsWindow :
      (i : ℕ)
      → i < nfp_pci_bar_max
      → (resource (i / 8 * 2)).phys_addr ≢ 0
      → IsWindow (set_bar fls resource i)
  unfolding set_bar
  set_bar-IsWindow i h p = record {
    below = h;
    present = p;
    mask_eq = refl;
    resource_eq = refl;
    placed = inl refl;
  }

  cons-AllSet : (b : NfpBar) (l : List NfpBar) → IsWindow b → AllSet l → AllSet (b ∷ l)
  unfolding AllSet
  cons-AllSet b l h hs zero c e = subst IsWindow (some-injective _ _ e) h
  cons-AllSet b l h hs (suc k) c e = hs k c e

  set_bars-AllSet :
      (rounds i : ℕ) → i + rounds ≤ nfp_pci_bar_max → AllSet (set_bars fls resource rounds i)
  unfolding set_bars AllSet
  set_bars-AllSet zero i h = λ k b e. absurd (none-ne-some b e)
  set_bars-AllSet (suc rounds) i h =
      let again = set_bars-AllSet rounds (i + 1) (omega arith) in
      on_if AllSet ((resource (i / 8 * 2)).phys_addr == 0) _ _ (λ _. again)
        (λ q. cons-AllSet _ _ (set_bar-IsWindow i (omega arith) (ground (arith, q))) again)

  modify_at-AllSet :
      (n : ℕ) (b : NfpBar) (l : List NfpBar) → IsWindow b → AllSet l → AllSet (modify_at n b l)
  unfolding AllSet
  modify_at-AllSet n b [] h hs = hs
  modify_at-AllSet zero b (c ∷ l) h hs = cons-AllSet b l h (λ k d e. hs (suc k) d e)
  modify_at-AllSet (suc n) b (c ∷ l) h hs =
      cons-AllSet c (modify_at n b l) (hs 0 c refl)
        (modify_at-AllSet n b l h (λ k d e. hs (suc k) d e))

  -- The element written to and mapped at its window.
  mapped-IsWindow :
      (config_ok : ℕ → Bool) (csr : ℕ) (b : NfpBar) (cfg : ℕ)
      → IsWindow b
      → IsWindow
          ((nfp_bar_write config_ok csr (record b { iomem = nfp_bar_resource_start b }) cfg).0)
  unfolding nfp_bar_write nfp_bar_resource_start
  mapped-IsWindow config_ok csr b cfg h =
      let at : IsWindow (record b { iomem = nfp_bar_resource_start b; barcfg = cfg }) = record {
        below = h.below;
        present = h.present;
        mask_eq = h.mask_eq;
        resource_eq = h.resource_eq;
        placed = inr refl;
      } in
      let unwritten : IsWindow (record b { iomem = nfp_bar_resource_start b }) = record {
        below = h.below;
        present = h.present;
        mask_eq = h.mask_eq;
        resource_eq = h.resource_eq;
        placed = inr refl;
      } in
      on_if {A = NfpBar × BarWrite} (λ r. IsWindow (r.0)) (csr == 0) _ _
        (λ _.
          on_if IsWindow (config_ok (0x400 + (b.index / 8 * 8 + b.index % 8) * 4)) _ _ (λ _. at)
            (λ _. unwritten))
        (λ _. at)

  enable_explicit-AllSet :
      (config_ok : ℕ → Bool) (i : ℕ) (e : Enabled)
      → AllSet (e.bar)
      → AllSet ((enable_explicit config_ok i e).bar)
  unfolding enable_explicit AllSet
  enable_explicit-AllSet config_ok i e hs = elim (Option-cases (get_elem? e.bar (4 + i))) [
    | inl q ↦ rw (enable_explicit, q) hs
    | inr (b, q) ↦
        rw (enable_explicit, q)
          (modify_at-AllSet (4 + i) _ e.bar
            (mapped-IsWindow config_ok e.csr b (barcfg_explicit i) (hs (4 + i) b q)) hs)
  ]

  -- An element's window is that of its index.
  window_lem :
      (b : NfpBar)
      → IsWindow b
      → (size_of b ≡ size_of (set_bar fls resource b.index))
        × (nfp_bar_resource_start b ≡ nfp_bar_resource_start (set_bar fls resource b.index))
  unfolding nfp_bar_resource_start set_bar
  window_lem b h = (
    ap (λ m. add64 m 1) h.mask_eq,
    ap (λ r. add64 (start_of r) (u64 (add64 b.mask 1 * (b.index % 8)))) h.resource_eq
        ∙ ap (λ m. add64 (start_of (resource (b.index / 8 * 2))) (u64 (add64 m 1 * (b.index % 8))))
            h.mask_eq,
  )

  element-IsInside : (b : NfpBar) → AreMapped resource → IsWindow b → IsInside b
  unfolding set_bar
  element-IsInside b ok h =
      let (size, start) = window_lem b h in
      let (low, high) = inside_lem fls resource b.index ok h.present in
      (
        omega (arith, low, start, ap start_of h.resource_eq),
        omega (arith, high, size, start, ap start_of h.resource_eq, ap (λ r. r.len) h.resource_eq),
      )

  elements-Apart :
      (b c : NfpBar)
      → AreMapped resource
      → IsWindow b
      → IsWindow c
      → b.index < c.index
      → Apart (nfp_bar_resource_start b) (size_of b) (nfp_bar_resource_start c) (size_of c)
  elements-Apart b c ok h k l =
      let (size, start) = window_lem b h in
      let (size', start') = window_lem c k in
      ground (
        arith,
        apart_lem fls resource b.index c.index ok l h.present k.present,
        size,
        start,
        size',
        start',
      )

  -- If `nfp_enable_bars` succeeds, where `qsort` only moves the elements of the table and the card's
  -- regions are mapped, of at least 8 bytes, and do not meet: each element of the table is mapped
  -- nowhere or at its window, which lies inside its region, and the windows of two elements with
  -- different indices do not meet.
  pub nfp_enable_bars_lem :
      (qsort : (NfpBar → NfpBar → Bool) → List NfpBar → List NfpBar) (config_ok : ℕ → Bool)
      (behind : NfpBar) (e : Enabled)
      → Rearranges qsort
      → AreMapped resource
      → nfp_enable_bars fls qsort config_ok resource behind ≡ some e
      → ((k : ℕ) (b : NfpBar) → get_elem? e.bar k ≡ some b → IsWindow b × IsInside b)
        × ((k m : ℕ) (b c : NfpBar)
            → get_elem? e.bar k ≡ some b
            → get_elem? e.bar m ≡ some c
            → b.index ≢ c.index
            → Apart (nfp_bar_resource_start b) (size_of b) (nfp_bar_resource_start c) (size_of c))
  unfolding nfp_enable_bars AllSet
  nfp_enable_bars_lem qsort config_ok behind e moves ok h =
      let (_, made) = else-eq-some (ltb (length (set_bars fls resource nfp_pci_bar_max 0)) 8) h in
      let is_set : (k : ℕ) (b : NfpBar) → get_elem? e.bar k ≡ some b → IsWindow b = λ k b q.
        let (j, at) =
          moves bar_le _ k b
            (ap (λ x. get_elem? (Enabled.bar x) k) (some-injective _ _ made) ∙ q) in
        enable_explicit-AllSet config_ok 1 _
          (enable_explicit-AllSet config_ok 0 _ (set_bars-AllSet nfp_pci_bar_max 0 (omega arith))) j
          b at in
      (
        λ k b q. (is_set k b q, element-IsInside b ok (is_set k b q)),
        λ k m b c q q' ne. elim (dec_lt b.index c.index) [
          | yes l ↦ elements-Apart b c ok (is_set k b q) (is_set m c q') l
          | no l ↦
              turned _ _ _ _
                (elements-Apart c b ok (is_set m c q') (is_set k b q) (omega (arith, l, ne)))
        ],
      )
    where
      turned : (a n b n' : ℕ) → Apart b n' a n → Apart a n b n'
      turned a n b n' (inl h) = inr h
      turned a n b n' (inr h) = inl h
