-- ===== src/Driver/Mapping/Mapped.antt =====
-- The regions that pci_map_device of user/lib/driver.c maps.
use nfp_udp_echo.Base.{
  ℕ, ◌+◌, ◌≡◌, ◌≢◌, refl, sym, ap, ◌∙◌, subst, Bool, true, false, ◌⊎◌, inl, inr, none, some,
  Option-cases, Bool-cases, List, [], ◌∷◌, ℕ_discrete, arith,
}
use nfp_udp_echo.Driver.{PciDevice, MemResource}
use nfp_udp_echo.Driver.Mapping.{
  MapCalls, entries_of, find_uio, map_resources, pci_get_device, pci_map_device,
}

-- One region before and after: an empty one is as it was, and another is mapped, at the address
-- that `mmap` gave for the region's own file and length.
unfoldable pub Mapped : MapCalls → ℕ → MemResource → MemResource → Type 0
Mapped c i r r' =
    ((r.phys_addr ≡ 0) × (r' ≡ r))
    ⊎ ((r.phys_addr ≢ 0)
        × ((fd : ℕ) × (a : ℕ) × (c.open_resource i ≡ some fd)
            × (c.mmap fd (r.len) ≡ some a)
            × (r' ≡ record r { addr = some a })))

unfoldable pub AllMapped : MapCalls → ℕ → List MemResource → List MemResource → Type 0
unfolding Mapped
AllMapped c i [] [] = Unit
AllMapped c i [] (x ∷ s) = Path Bool true false
AllMapped c i (x ∷ s) [] = Path Bool true false
AllMapped c i (r ∷ rest) (r' ∷ rest') = Mapped c i r r' × AllMapped c (i + 1) rest rest'

module _ (c : MapCalls) (i : ℕ) (r : MemResource) (rest : List MemResource) where
  map_empty :
      r.phys_addr ≡ 0
      → map_resources c i (r ∷ rest)
        ≡ ((map_resources c (i + 1) rest).0, r ∷ (map_resources c (i + 1) rest).1)
  unfolding map_resources
  map_empty e = ground arith

  map_unopened :
      r.phys_addr ≢ 0 → c.open_resource i ≡ none → map_resources c i (r ∷ rest) ≡ (false, r ∷ rest)
  unfolding map_resources
  map_unopened ne o = rw (o, map_resources) (ground arith)

  map_failed :
      (fd : ℕ)
      → r.phys_addr ≢ 0
      → c.open_resource i ≡ some fd
      → c.mmap fd (r.len) ≡ none
      → map_resources c i (r ∷ rest) ≡ (false, r ∷ rest)
  unfolding map_resources
  map_failed fd ne o m = rw (map_resources, o, m) (ground arith)

  map_mapped :
      (fd a : ℕ)
      → r.phys_addr ≢ 0
      → c.open_resource i ≡ some fd
      → c.mmap fd (r.len) ≡ some a
      → map_resources c i (r ∷ rest) ≡ (
        (map_resources c (i + 1) rest).0,
        record r { addr = some a } ∷ (map_resources c (i + 1) rest).1,
      )
  unfolding map_resources
  map_mapped fd a ne o m = rw (map_resources, o, m) (ground arith)

map_resources_lem :
    (c : MapCalls) (i : ℕ) (rs : List MemResource)
    → (map_resources c i rs).0 ≡ true
    → AllMapped c i rs (map_resources c i rs).1
unfolding AllMapped Mapped
map_resources_lem c i [] h = unfold map_resources in tt
map_resources_lem c i (r ∷ rest) h = elim (ℕ_discrete (r.phys_addr) 0) [
  | yes e ↦
      let eq = map_empty c i r rest e in
      subst (λ m. AllMapped c i (r ∷ rest) m.1) (sym eq)
        (inl (e, refl), map_resources_lem c (i + 1) rest (sym (ap (λ m. m.0) eq) ∙ h))
  | no ne ↦ elim (Option-cases (c.open_resource i)) [
    | inl o ↦ absurd (false-ne-true (sym (ap (λ m. m.0) (map_unopened c i r rest ne o)) ∙ h))
    | inr (fd, o) ↦ elim (Option-cases (c.mmap fd (r.len))) [
      | inl m ↦ absurd (false-ne-true (sym (ap (λ m. m.0) (map_failed c i r rest fd ne o m)) ∙ h))
      | inr (a, m) ↦
          let eq = map_mapped c i r rest fd a ne o m in
          subst (λ m. AllMapped c i (r ∷ rest) m.1) (sym eq)
            (
              inr (ne, (fd, a, o, m, refl)),
              map_resources_lem c (i + 1) rest (sym (ap (λ m. m.0) eq) ∙ h),
            )
    ]
  ]
]
  where
    false-ne-true : false ≢ true
    false-ne-true e = ground arith

pci_get_device-mem_resource :
    (c : MapCalls) (dev : PciDevice) → (pci_get_device c dev).1.mem_resource ≡ dev.mem_resource
unfolding pci_get_device
pci_get_device-mem_resource c dev = elim (Option-cases (entries_of c)) [
  | inl e ↦ rw (pci_get_device, e) refl
  | inr (entries, e) ↦ elim (Option-cases (find_uio entries)) [
    | inl f ↦ rw (pci_get_device, e, f) refl
    | inr (n, f) ↦ elim (Option-cases (c.open_uio n)) [
      | inl o ↦ rw (pci_get_device, e, f, o) refl
      | inr (fd, o) ↦ elim (Option-cases (c.open_config n)) [
        | inl k ↦ rw (pci_get_device, e, f, o, k) refl
        | inr (cfg, k) ↦ rw (pci_get_device, e, f, o, k) refl
      ]
    ]
  ]
]

-- When mapping a device succeeds, each of its regions with an address is mapped, where `mmap` put
-- the region's own file with the region's length, and the others are as they were.
pub pci_map_device_lem :
    (c : MapCalls) (dev : PciDevice)
    → (pci_map_device c dev).0 ≡ true
    → AllMapped c 0 (dev.mem_resource) ((pci_map_device c dev).1.mem_resource)
unfolding pci_map_device
pci_map_device_lem c dev h = elim (Bool-cases ((pci_get_device c dev).0)) [
  | inr e ↦ absurd (ground (arith, e, h))
  | inl e ↦
      let d = (pci_get_device c dev).1 in
      let mapped = map_resources c 0 (d.mem_resource) in
      let ok : mapped.0 ≡ true = ground (arith, e, h) in
      subst (λ rs. AllMapped c 0 rs ((pci_map_device c dev).1.mem_resource))
        (pci_get_device-mem_resource c dev)
        (subst (AllMapped c 0 (d.mem_resource)) (rw (pci_map_device, e) refl)
          (map_resources_lem c 0 (d.mem_resource) ok))
]
