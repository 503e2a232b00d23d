-- ===== src/Driver/Mapping.antt =====
-- user/lib/driver.c: the device file of the card, and its regions in the program's memory.
pub mod Mapped
use nfp_udp_echo.Base.{
  ℕ, zero, suc, ◌+◌, ◌-◌, ◌%◌, ◌^◌, Bool, true, false, not, ◌&&◌, Option, none, some, List, [], ◌∷◌,
  length, ltb, ◌==◌, if◌then◌else◌,
}
use nfp_udp_echo.Base.Memory.{Mem}
use nfp_udp_echo.Driver.{PciDevice, MemResource, IntrHandle}
use nfp_udp_echo.Driver.Strings.{read_string}
use nfp_udp_echo.Driver.Numbers.{Number, strtoul}

-- What the system calls give: the entries of the device's directory "uio" and of the directory
-- itself, each with the 256 bytes of `d_name`; for a number, whether /dev/uio<number> and its
-- configuration open; for a region, whether its file opens, and where it is mapped.
pub record MapCalls : Type 0 where
  pub opendir_uio : Option (List Mem)
  pub opendir_device : Option (List Mem)
  pub open_uio : ℕ → Option ℕ
  pub open_config : ℕ → Option ℕ
  pub open_resource : ℕ → Option ℕ
  pub mmap : ℕ → ℕ → Option ℕ

-- The number behind `prefix_len` bytes of a name, as an `unsigned`, if there is one.
unfoldable pub number_at : ℕ → Mem → Option ℕ
number_at prefix_len d_name =
    let text = read_string (256 - prefix_len) d_name prefix_len in
    let r = strtoul text 10 in
    if not (r.erange) && ltb (length (r.endptr)) (length text)
    then some (r.value % 2 ^ 32)
    else none

-- `strncmp(e->d_name, "uio", 3) == 0`
abbrev pub is_uio : Mem → Bool
is_uio d_name = d_name 0 == b'u' && (d_name 1 == b'i' && d_name 2 == b'o')

abbrev pub or_else : Option ℕ → Option ℕ → Option ℕ
or_else none b = b
or_else (some v) b = some v

-- The number of an entry uio<n> or uio:uio<n>.
unfoldable pub uio_number : Mem → Option ℕ
unfolding number_at
uio_number d_name =
    if is_uio d_name then or_else (number_at 3 d_name) (number_at 7 d_name) else none

unfoldable pub find_uio : List Mem → Option ℕ
unfolding uio_number
find_uio [] = none
find_uio (d_name ∷ entries) = or_else (uio_number d_name) (find_uio entries)

abbrev pub entries_of : MapCalls → Option (List Mem)
entries_of c = elim (c.opendir_uio) [ some entries ↦ some entries | none ↦ c.opendir_device ]

-- Whether the result is 0, and the device then; `mknod` may fail, which is only said.
unfoldable pub pci_get_device : MapCalls → PciDevice → Bool × PciDevice
unfolding find_uio
pci_get_device c dev = elim (entries_of c) [
  | none ↦ (false, dev)
  | some entries ↦ elim (find_uio entries) [
    | none ↦ (false, dev)
    | some uio_num ↦ elim (c.open_uio uio_num) [
      | none ↦ (false, record dev { intr_handle = record dev.intr_handle { fd = none } })
      | some fd ↦ elim (c.open_config uio_num) [
        | none ↦ (
          false,
          record dev { intr_handle = record dev.intr_handle { uio_cfg_fd = none; fd = some fd } },
        )
        | some cfg ↦ (
          true,
          record dev {
            intr_handle = record { uio_cfg_fd = some cfg; fd = some fd; is_uio = true };
          },
        )
      ]
    ]
  ]
]

-- The regions from `i` on: whether all could be mapped, and the regions then.
unfoldable pub map_resources : MapCalls → ℕ → List MemResource → Bool × List MemResource
map_resources c i [] = (true, [])
map_resources c i (r ∷ rest) =
    let next = map_resources c (i + 1) rest in
    if r.phys_addr == 0 then (next.0, r ∷ next.1) else elim (c.open_resource i) [
      | none ↦ (false, r ∷ rest)
      | some fd ↦ elim (c.mmap fd (r.len)) [
        | none ↦ (false, r ∷ rest)
        | some mapaddr ↦ (next.0, record r { addr = some mapaddr } ∷ next.1)
      ]
    ]

unfoldable pub pci_map_device : MapCalls → PciDevice → Bool × PciDevice
unfolding pci_get_device map_resources
pci_map_device c dev =
    let got = pci_get_device c dev in
    let mapped = map_resources c 0 (got.1.mem_resource) in
    if got.0 then (mapped.0, record got.1 { mem_resource = mapped.1 }) else (false, got.1)

-- What the card's library returns: `cpp` is the handle.
pub record CppCalls : Type 0 where
  pub nfp_cpp_from_device_name : Option ℕ
  pub nfp_hwinfo_read : Bool
  pub nfp_eth_read_ports : Bool

-- The handle, or the number of an error; a null pointer as device is `none`.
unfoldable pub pci_probe :
    MapCalls → CppCalls → Option PciDevice → (ℕ × Option ℕ) × Option PciDevice
unfolding pci_map_device
pci_probe c lib none = ((19, none), none)
pci_probe c lib (some dev) =
    let mapped = pci_map_device c dev in
    if mapped.0
    then elim (lib.nfp_cpp_from_device_name) [
      | none ↦ ((5, none), some (mapped.1))
      | some cpp ↦
          if lib.nfp_hwinfo_read && lib.nfp_eth_read_ports
          then ((0, some cpp), some (mapped.1))
          else ((5, none), some (mapped.1))
    ]
    else ((5, none), some (mapped.1))
