-- ===== src/Driver/Scan.antt =====
-- user/lib/driver.c: the search for the card, and its entry.
pub mod Found
use Prim.Native.String.{String}
use nfp_udp_echo.Base.{
  ℕ, zero, suc, ◌+◌, ◌%◌, ◌^◌, Bool, true, false, ◌||◌, ◌&&◌, Option, none, some, List, [], ◌∷◌,
  ◌==◌, if◌then◌else◌,
}
use nfp_udp_echo.Driver.{PciAddr, PciId, PciDevice, MemResource, IntrHandle, Sysfs, ◌>>=◌}
use nfp_udp_echo.Driver.Address.{parse_pci_addr_format, pci_name}
use nfp_udp_echo.Driver.Resources.{parse_sysfs_value, pci_parse_sysfs_resource}

abbrev pub pci_vendor_id_netronome : ℕ
pci_vendor_id_netronome = 6638

abbrev pub pci_device_id_nfp4000_pf_nic : ℕ
pci_device_id_nfp4000_pf_nic = 16384

abbrev pub pci_device_id_nfp6000_pf_nic : ℕ
pci_device_id_nfp6000_pf_nic = 24576

-- A region of a structure that `memset` has cleared.
abbrev pub no_region : MemResource
no_region = record { phys_addr = 0; len = 0; addr = none }

abbrev pub cleared : List MemResource
cleared = no_region ∷ no_region ∷ no_region ∷ no_region ∷ no_region ∷ no_region ∷ []

abbrev pub no_handle : IntrHandle
no_handle = record { uio_cfg_fd = some 0; fd = some 0; is_uio = false }

abbrev pub or_zero : Option ℕ → ℕ
or_zero none = 0
or_zero (some v) = v % 2 ^ 16

-- The device of a directory, or a null pointer.
unfoldable pub pci_setup_device : Sysfs → List ℕ → PciAddr → Option PciDevice
pci_setup_device sysfs dirname addr = do
  vendor ← parse_sysfs_value sysfs dirname "vendor"
  device ← parse_sysfs_value sysfs dirname "device"
  subsystem_vendor ← parse_sysfs_value sysfs dirname "subsystem_vendor"
  subsystem_device ← parse_sysfs_value sysfs dirname "subsystem_device"
  class ← parse_sysfs_value sysfs dirname "class"
  resources ← pci_parse_sysfs_resource (sysfs dirname "resource") cleared
  some record {
    addr = addr;
    id = record {
      class_id = class % 2 ^ 24;
      vendor_id = vendor % 2 ^ 16;
      device_id = device % 2 ^ 16;
      subsystem_vendor_id = subsystem_vendor % 2 ^ 16;
      subsystem_device_id = subsystem_device % 2 ^ 16;
    };
    mem_resource = resources;
    intr_handle = no_handle;
    max_vfs = or_zero (parse_sysfs_value sysfs dirname "max_vfs");
    name = pci_name addr;
  }

abbrev pub is_hidden : List ℕ → Bool
is_hidden [] = false
is_hidden (c ∷ s) = c == b'.'

abbrev pub is_netronome : ℕ → ℕ → Bool
is_netronome vendor_id device_id =
    vendor_id == pci_vendor_id_netronome
    && (device_id == pci_device_id_nfp4000_pf_nic || device_id == pci_device_id_nfp6000_pf_nic)

-- The address of an entry of the directory that the search stops at.
unfoldable pub candidate : Sysfs → List ℕ → Option PciAddr
candidate sysfs d_name = if is_hidden d_name then none else do
  addr ← parse_pci_addr_format d_name 256
  vendor_id ← parse_sysfs_value sysfs d_name "vendor"
  device_id ← parse_sysfs_value sysfs d_name "device"
  if is_netronome vendor_id device_id then some addr else none

-- The entries in the order in which `readdir` gives them.
unfoldable pub scan_entries : Sysfs → List (List ℕ) → Option PciDevice
scan_entries sysfs [] = none
scan_entries sysfs (d_name ∷ entries) =
    let rest = scan_entries sysfs entries in
    elim (candidate sysfs d_name) [ none ↦ rest | some addr ↦ pci_setup_device sysfs d_name addr ]

-- `none` for the entries says that `opendir` fails.
unfoldable pub pci_scan : Sysfs → Option (List (List ℕ)) → Option PciDevice
unfolding scan_entries
pci_scan sysfs dir = do entries ← dir; scan_entries sysfs entries
