-- ===== src/Driver.antt =====
-- user/lib/driver.c, which finds the card among the PCI devices, and the structures of
-- user/nfpcore/rte_pci.h. A text is the list of its bytes; a file is the list of its lines.
pub mod Strings
pub mod Numbers
pub mod Address
pub mod Resources
pub mod Scan
pub mod Mapping
use Prim.Native.String.{String}
use mathlib.Core.Option.{none-ne-some, some-injective}
use nfp_udp_echo.Base.{ℕ, ◌≡◌, refl, Bool, true, false, if◌then◌else◌, Option, none, some, List}

infixl 5 ◌>>=◌
abbrev pub ◌>>=◌ {ℓ κ} : {A : Type ℓ} {B : Type κ} → Option A → (A → Option B) → Option B
none >>= f = none
some a >>= f = f a

-- A chain that gives a value has given one at its first step.
pub >>=-eq-some {ℓ κ} :
    {A : Type ℓ} {B : Type κ} (o : Option A) (f : A → Option B) {b : B}
    → (o >>= f) ≡ some b
    → (a : A) × (o ≡ some a) × (f a ≡ some b)
>>=-eq-some none f {b} h = absurd (none-ne-some b h)
>>=-eq-some (some a) f h = (a, refl, h)

-- A test that lets a value through.
pub else-eq-some {ℓ} :
    {A : Type ℓ} (b : Bool) {o : Option A} {a : A}
    → (if b then none else o) ≡ some a
    → (b ≡ false) × (o ≡ some a)
else-eq-some true {a = a} h = absurd (none-ne-some a h)
else-eq-some false h = (refl, h)

pub then-eq-some {ℓ} :
    {A : Type ℓ} (b : Bool) {x : A} {a : A}
    → (if b then some x else none) ≡ some a
    → (b ≡ true) × (x ≡ a)
then-eq-some true h = (refl, some-injective _ _ h)
then-eq-some false {a = a} h = absurd (none-ne-some a h)

-- `struct rte_pci_addr`
pub record PciAddr : Type 0 where
  pub domain : ℕ
  pub bus : ℕ
  pub devid : ℕ
  pub function : ℕ

-- `struct rte_pci_id`
pub record PciId : Type 0 where
  pub class_id : ℕ
  pub vendor_id : ℕ
  pub device_id : ℕ
  pub subsystem_vendor_id : ℕ
  pub subsystem_device_id : ℕ

-- `struct rte_mem_resource`; `none` is a null pointer.
pub record MemResource : Type 0 where
  pub phys_addr : ℕ
  pub len : ℕ
  pub addr : Option ℕ

-- `struct rte_intr_handle`, the fields that the driver fills in; `none` is a descriptor of -1, and
-- `is_uio` says that the type is RTE_INTR_HANDLE_UIO.
pub record IntrHandle : Type 0 where
  pub uio_cfg_fd : Option ℕ
  pub fd : Option ℕ
  pub is_uio : Bool

-- `struct rte_pci_device`
pub record PciDevice : Type 0 where
  pub addr : PciAddr
  pub id : PciId
  pub mem_resource : List MemResource
  pub intr_handle : IntrHandle
  pub max_vfs : ℕ
  pub name : List ℕ

-- `PCI_MAX_RESOURCE`
abbrev pub pci_max_resource : ℕ
pci_max_resource = 6

-- The files of the system: the lines of a file of a directory, each with its newline, or `none` if
-- `fopen` fails. A directory is named by its path behind /sys/bus/pci/devices.
abbrev pub Sysfs : Type 0
Sysfs = List ℕ → String → Option (List (List ℕ))
