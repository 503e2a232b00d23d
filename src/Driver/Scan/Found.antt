-- ===== src/Driver/Scan/Found.antt =====
-- The device that pci_scan of user/lib/driver.c finds.
use mathlib.Core.Option.{some-injective, none-ne-some}
use nfp_udp_echo.Base.{
  ℕ, zero, suc, ◌<◌, ◌%◌, ◌^◌, ◌≡◌, refl, sym, ap, ◌∙◌, subst, true, false, ◌⊎◌, inl, inr, Option,
  none, some, List, [], ◌∷◌, Option-cases, get_elem?, arith,
}
use nfp_udp_echo.Driver.{PciAddr, PciDevice, Sysfs, >>=-eq-some, else-eq-some, then-eq-some}
use nfp_udp_echo.Driver.Address.{parse_pci_addr_format, pci_name}
use nfp_udp_echo.Driver.Resources.{parse_sysfs_value, pci_parse_sysfs_resource}
use nfp_udp_echo.Driver.Scan.{
  pci_setup_device, cleared, is_hidden, is_netronome, candidate, scan_entries, pci_scan,
}

-- A number as the 16 bits that a field keeps.
abbrev word : Option ℕ → Option ℕ
word none = none
word (some v) = some (v % 2 ^ 16)

-- What makes an entry of the directory the card's.
unfoldable pub Netronome : Sysfs → List ℕ → PciAddr → Type 0
Netronome sysfs d_name addr =
    (is_hidden d_name ≡ false)
    × (parse_pci_addr_format d_name 256 ≡ some addr)
    × (parse_sysfs_value sysfs d_name "vendor" ≡ some 6638)
    × ((parse_sysfs_value sysfs d_name "device" ≡ some 16384)
        ⊎ (parse_sysfs_value sysfs d_name "device" ≡ some 24576))

is_netronome_lem : (v d : ℕ) → is_netronome v d ≡ true → (v ≡ 6638) × ((d ≡ 16384) ⊎ (d ≡ 24576))
is_netronome_lem v d h = ground arith

candidate-Netronome :
    (sysfs : Sysfs) (d_name : List ℕ) (addr : PciAddr)
    → candidate sysfs d_name ≡ some addr
    → Netronome sysfs d_name addr
unfolding candidate Netronome
candidate-Netronome sysfs d_name addr h =
    let (shown, h1) = else-eq-some (is_hidden d_name) h in
    let (a, parsed, h2) = >>=-eq-some (parse_pci_addr_format d_name 256) _ h1 in
    let (v, vendor, h3) = >>=-eq-some (parse_sysfs_value sysfs d_name "vendor") _ h2 in
    let (d, device, h4) = >>=-eq-some (parse_sysfs_value sysfs d_name "device") _ h3 in
    let (is, e) = then-eq-some (is_netronome v d) h4 in
    let (v-eq, d-eq) = is_netronome_lem v d is in
    (shown, parsed ∙ ap some e, vendor ∙ ap some v-eq, either device d-eq)
  where
    either :
        {d : ℕ}
        → parse_sysfs_value sysfs d_name "device" ≡ some d
        → (d ≡ 16384) ⊎ (d ≡ 24576)
        → (parse_sysfs_value sysfs d_name "device" ≡ some 16384)
          ⊎ (parse_sysfs_value sysfs d_name "device" ≡ some 24576)
    either q (inl e) = inl (q ∙ ap some e)
    either q (inr e) = inr (q ∙ ap some e)

-- And the search stops at such an entry.
Netronome-candidate :
    (sysfs : Sysfs) (d_name : List ℕ) (addr : PciAddr)
    → Netronome sysfs d_name addr
    → candidate sysfs d_name ≡ some addr
unfolding candidate Netronome
Netronome-candidate sysfs d_name addr (shown, parsed, vendor, inl device) =
    rw (shown, parsed, vendor, device) refl
Netronome-candidate sysfs d_name addr (shown, parsed, vendor, inr device) =
    rw (shown, parsed, vendor, device) refl

-- What the entry of a device says, against its files.
pci_setup_device_lem :
    (sysfs : Sysfs) (d_name : List ℕ) (addr : PciAddr) (dev : PciDevice)
    → pci_setup_device sysfs d_name addr ≡ some dev
    → (dev.addr ≡ addr)
      × (dev.name ≡ pci_name addr)
      × (some (dev.id.vendor_id) ≡ word (parse_sysfs_value sysfs d_name "vendor"))
      × (some (dev.id.device_id) ≡ word (parse_sysfs_value sysfs d_name "device"))
      × (pci_parse_sysfs_resource (sysfs d_name "resource") cleared ≡ some (dev.mem_resource))
unfolding pci_setup_device
pci_setup_device_lem sysfs d_name addr dev h =
    let (v, vendor, h1) = >>=-eq-some (parse_sysfs_value sysfs d_name "vendor") _ h in
    let (d, device, h2) = >>=-eq-some (parse_sysfs_value sysfs d_name "device") _ h1 in
    let (_, _, h3) = >>=-eq-some (parse_sysfs_value sysfs d_name "subsystem_vendor") _ h2 in
    let (_, _, h4) = >>=-eq-some (parse_sysfs_value sysfs d_name "subsystem_device") _ h3 in
    let (_, _, h5) = >>=-eq-some (parse_sysfs_value sysfs d_name "class") _ h4 in
    let (r, parsed, h6) =
      >>=-eq-some (pci_parse_sysfs_resource (sysfs d_name "resource") cleared) _ h5 in
    let e = sym (some-injective _ _ h6) in
    (
      ap (λ x. x.addr) e,
      ap (λ x. x.name) e,
      ap (λ x. some (x.id.vendor_id)) e ∙ sym (ap word vendor),
      ap (λ x. some (x.id.device_id)) e ∙ sym (ap word device),
      parsed ∙ ap (λ x. some (x.mem_resource)) (sym e),
    )

scan_stop :
    (sysfs : Sysfs) (d_name : List ℕ) (entries : List (List ℕ)) (addr : PciAddr)
    → candidate sysfs d_name ≡ some addr
    → scan_entries sysfs (d_name ∷ entries) ≡ pci_setup_device sysfs d_name addr
unfolding scan_entries
scan_stop sysfs d_name entries addr e = rw (scan_entries, e) refl

scan_on :
    (sysfs : Sysfs) (d_name : List ℕ) (entries : List (List ℕ))
    → candidate sysfs d_name ≡ none
    → scan_entries sysfs (d_name ∷ entries) ≡ scan_entries sysfs entries
unfolding scan_entries
scan_on sysfs d_name entries e = rw (scan_entries, e) refl

-- Where the search stops, and with what.
StopsAt : Sysfs → List (List ℕ) → PciDevice → ℕ → List ℕ → PciAddr → Type 0
StopsAt sysfs entries dev k d_name addr =
    (get_elem? entries k ≡ some d_name)
    × (candidate sysfs d_name ≡ some addr)
    × (pci_setup_device sysfs d_name addr ≡ some dev)
    × ((j : ℕ) (n : List ℕ) → j < k → get_elem? entries j ≡ some n → candidate sysfs n ≡ none)

scan_entries_lem :
    (sysfs : Sysfs) (entries : List (List ℕ)) (dev : PciDevice)
    → scan_entries sysfs entries ≡ some dev
    → (k : ℕ) × (d_name : List ℕ) × (addr : PciAddr) × StopsAt sysfs entries dev k d_name addr
unfolding StopsAt
scan_entries_lem sysfs [] dev h = absurd (none-ne-some dev (unfold scan_entries in h))
scan_entries_lem sysfs (d_name ∷ entries) dev h = elim (Option-cases (candidate sysfs d_name)) [
  | inr (addr, e) ↦ (
    0,
    d_name,
    addr,
    (refl, e, sym (scan_stop sysfs d_name entries addr e) ∙ h, λ j n q. absurd (omega arith)),
  )
  | inl e ↦
      let (k, n, addr, (at, is, set, first)) =
        scan_entries_lem sysfs entries dev (sym (scan_on sysfs d_name entries e) ∙ h) in
      (suc k, n, addr, (at, is, set, later e first))
]
  where
    later :
        {k : ℕ}
        → candidate sysfs d_name ≡ none
        → ((j : ℕ) (n : List ℕ) → j < k → get_elem? entries j ≡ some n → candidate sysfs n ≡ none)
        → (j : ℕ) (n : List ℕ) → j < suc k
        → get_elem? (d_name ∷ entries) j ≡ some n
        → candidate sysfs n ≡ none
    later e first zero n q at = subst (λ x. candidate sysfs x ≡ none) (some-injective _ _ at) e
    later e first (suc j) n q at = first j n (omega arith) at

-- A device that the search finds is that of the first entry that is not hidden, whose name is an
-- address, and whose files `vendor` and `device` say that it is the card, where no entry before it
-- does: it has that address, prints its name from it, and carries the numbers of these files and the
-- regions of the file `resource`.
pub pci_scan_lem :
    (sysfs : Sysfs) (entries : List (List ℕ)) (dev : PciDevice)
    → pci_scan sysfs (some entries) ≡ some dev
    → (k : ℕ) × (d_name : List ℕ) × (get_elem? entries k ≡ some d_name)
      × Netronome sysfs d_name (dev.addr)
      × (dev.name ≡ pci_name (dev.addr))
      × (some (dev.id.vendor_id) ≡ parse_sysfs_value sysfs d_name "vendor")
      × (some (dev.id.device_id) ≡ parse_sysfs_value sysfs d_name "device")
      × (pci_parse_sysfs_resource (sysfs d_name "resource") cleared ≡ some (dev.mem_resource))
      × ((j : ℕ) (n : List ℕ) (a : PciAddr)
          → j < k
          → get_elem? entries j ≡ some n
          → ¬ Netronome sysfs n a)
unfolding pci_scan StopsAt Netronome
pci_scan_lem sysfs entries dev h =
    let (k, d_name, addr, (at, is, set, first)) = scan_entries_lem sysfs entries dev h in
    let (shown, parsed, vendor, device) = candidate-Netronome sysfs d_name addr is in
    let (a-eq, n-eq, v-eq, d-eq, regions) = pci_setup_device_lem sysfs d_name addr dev set in
    (
      k,
      d_name,
      at,
      (shown, parsed ∙ ap some (sym a-eq), vendor, device),
      n-eq ∙ ap pci_name (sym a-eq),
      v-eq ∙ ap word vendor ∙ sym vendor,
      either d-eq device,
      regions,
      λ j n a l e is_card.
          none-ne-some a (sym (first j n l e) ∙ Netronome-candidate sysfs n a is_card),
    )
  where
    either :
        {w : ℕ} {o : Option ℕ} → some w ≡ word o → (o ≡ some 16384) ⊎ (o ≡ some 24576) → some w ≡ o
    either q (inl e) = q ∙ ap word e ∙ sym e
    either q (inr e) = q ∙ ap word e ∙ sym e
