-- ===== src/Tests/Driver.antt =====
-- Runs and instances for user/lib/driver.c: a directory with a hidden entry, another vendor's
-- device, and the card.
use Prim.Native.String.{String}
use text.Mathlib.Text.{◌==◌ as ◌=ₛ◌}
use nfp_udp_echo.Base.{
  ℕ, ◌<◌, ◌≡◌, refl, true, Option, none, some, List, [], ◌∷◌, ◌++◌, ◌==◌, get_elem?, length, ◌+◌,
  ◌-◌, ◌*◌, ◌^◌, ◌≤◌, if◌then◌else◌, arith,
}
use nfp_udp_echo.Base.Memory.{write_bytes}
use nfp_udp_echo.Driver.{PciAddr, PciDevice, MemResource, Sysfs}
use nfp_udp_echo.Driver.Strings.{strsplit_lem, strsplit_bounds, strsplit, map, read_string, fields}
use nfp_udp_echo.Driver.Numbers.{strtoul, print_hex}
use nfp_udp_echo.Driver.Address.{in_buffer, parse_pci_addr_format, pci_name}
use nfp_udp_echo.Driver.Address.Names.{parse-pci_name}
use nfp_udp_echo.Driver.Resources.{parse_sysfs_value, parse_resource, pci_parse_sysfs_resource}
use nfp_udp_echo.Driver.Resources.Lines.{pci_parse_sysfs_resource_lem}
use nfp_udp_echo.Driver.Scan.{pci_scan, pci_setup_device, candidate, cleared, no_handle}
use nfp_udp_echo.Driver.Scan.Found.{Netronome, pci_scan_lem}
use nfp_udp_echo.Driver.Mapping.{MapCalls, pci_map_device}
use nfp_udp_echo.Driver.Mapping.Mapped.{AllMapped, pci_map_device_lem}

-- 0000:05:00.0
abbrev card_addr : PciAddr
card_addr = record { domain = 0; bus = 5; devid = 0; function = 0 }

abbrev codes : String → List ℕ
codes String.[] = []
codes (String.◌∷◌ c s) = Prim.Native.Char.code c ∷ codes s

-- A file's line, with its newline.
abbrev line : String → List ℕ
line s = codes s ++ (10 ∷ [])

abbrev bar : List ℕ
bar = line "0x00000000e0000000 0x00000000e0ffffff 0x0000000000140200"

abbrev empty_bar : List ℕ
empty_bar = line "0x0000000000000000 0x0000000000000000 0x0000000000000000"

abbrev resource_file : List (List ℕ)
resource_file = bar ∷ empty_bar ∷ bar ∷ empty_bar ∷ empty_bar ∷ empty_bar ∷ []

abbrev card_file : String → Option (List (List ℕ))
card_file file =
    if file =ₛ "vendor"
    then some (line "0x19ee" ∷ [])
    else if file =ₛ "device"
    then some (line "0x4000" ∷ [])
    else if file =ₛ "subsystem_vendor"
    then some (line "0x19ee" ∷ [])
    else if file =ₛ "subsystem_device"
    then some (line "0x4001" ∷ [])
    else if file =ₛ "class"
    then some (line "0x020000" ∷ [])
    else if file =ₛ "resource"
    then some resource_file
    else none

-- The directory whose name has a 5 in its seventh place is the card's.
abbrev pub sysfs : Sysfs
sysfs dirname file = elim (get_elem? dirname 6) [
  | none ↦ none
  | some c ↦
      if c == b'5'
      then card_file file
      else if file =ₛ "vendor"
      then some (line "0x8086" ∷ [])
      else if file =ₛ "device"
      then some (line "0x1533" ∷ [])
      else none
]

abbrev pub entries : List (List ℕ)
entries = codes "." ∷ codes "0000:01:00.0" ∷ codes "0000:05:00.0" ∷ []

region_at : ℕ → MemResource
region_at a = record { phys_addr = a; len = if a == 0 then 0 else 16777216; addr = none }

abbrev pub regions : List MemResource
unfolding region_at
regions =
    region_at 3758096384
    ∷ region_at 0
    ∷ region_at 3758096384
    ∷ region_at 0
    ∷ region_at 0
    ∷ region_at 0
    ∷ []

abbrev pub card : PciDevice
card = record {
  addr = card_addr;
  id = record {
    class_id = 131072;
    vendor_id = 6638;
    device_id = 16384;
    subsystem_vendor_id = 6638;
    subsystem_device_id = 16385;
  };
  mem_resource = regions;
  intr_handle = no_handle;
  max_vfs = 0;
  name = codes "0000:05:00.0";
}

pub scan_finds : pci_scan sysfs (some entries) ≡ some card
unfolding pci_scan pci_name candidate parse_pci_addr_format strsplit write_bytes strtoul read_string
    parse_sysfs_value pci_setup_device pci_parse_sysfs_resource parse_resource regions print_hex
scan_finds = refl

strsplit_lem_example :
    (let r = strsplit (in_buffer (codes "0000:05:00.0")) 256 4 b':' in
      map (λ a. read_string (256 - a) r.1 a) r.0)
    ≡ codes "0000" ∷ codes "05" ∷ codes "00.0" ∷ []
unfolding fields read_string write_bytes
strsplit_lem_example = strsplit_lem (in_buffer (codes "0000:05:00.0")) 256 4 b':'

-- A buffer without a zero, of which two bytes may be read.
strsplit_bounds_example :
    (let r = strsplit (λ a. b':') 2 1 b':' in
      (length r.0 ≤ 1)
      × ((k a : ℕ) → get_elem? r.0 k ≡ some a → a < 2)
      × ((j : ℕ) → 2 ≤ j → r.1 j ≡ b':'))
strsplit_bounds_example = strsplit_bounds (λ a. b':') 2 1 b':'

parse-pci_name_example : parse_pci_addr_format (pci_name card_addr) 256 ≡ some card_addr
parse-pci_name_example =
    parse-pci_name card_addr (omega arith) (omega arith) (omega arith) (omega arith)

pci_parse_sysfs_resource_lem_example :
    pci_parse_sysfs_resource (some resource_file) cleared ≡ some regions
unfolding parse_resource region_at strsplit write_bytes strtoul read_string
pci_parse_sysfs_resource_lem_example = pci_parse_sysfs_resource_lem resource_file cleared refl

pci_scan_lem_example :
    (k : ℕ) × (d_name : List ℕ) × (get_elem? entries k ≡ some d_name)
    × Netronome sysfs d_name card_addr
    × (codes "0000:05:00.0" ≡ pci_name card_addr)
    × (some (card.id.vendor_id) ≡ parse_sysfs_value sysfs d_name "vendor")
    × (some (card.id.device_id) ≡ parse_sysfs_value sysfs d_name "device")
    × (pci_parse_sysfs_resource (sysfs d_name "resource") cleared ≡ some (card.mem_resource))
    × ((j : ℕ) (n : List ℕ) (a : PciAddr)
        → j < k
        → get_elem? entries j ≡ some n
        → ¬ Netronome sysfs n a)
pci_scan_lem_example = pci_scan_lem sysfs entries card scan_finds

-- A directory with the entry "uio3".
abbrev pub calls : MapCalls
calls = record {
  opendir_uio = some (in_buffer (codes "uio3") ∷ []);
  opendir_device = none;
  open_uio = λ n. some (n + 10);
  open_config = λ n. some (n + 20);
  open_resource = λ i. some (i + 30);
  mmap = λ fd len. some (fd * 2 ^ 32);
}

pub maps : (pci_map_device calls card).0 ≡ true
unfolding pci_map_device write_bytes strtoul read_string regions
maps = refl

pci_map_device_lem_example : AllMapped calls 0 regions ((pci_map_device calls card).1.mem_resource)
pci_map_device_lem_example = pci_map_device_lem calls card maps
