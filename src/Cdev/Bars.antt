-- ===== src/Cdev/Bars.antt =====
-- user/nfpcore/nfp_cpp_dev.c: the windows on the card that the daemon sets up, `nfp_enable_bars`.
pub mod Windows
pub mod Placed
use nfp_udp_echo.Base.{
  ℕ, zero, suc, ◌+◌, ◌-◌, ◌*◌, ◌/◌, ◌%◌, ◌^◌, Bool, Option, none, some, List, [], ◌∷◌, ◌++◌, length,
  get_elem?, leb, ltb, ◌==◌, if◌then◌else◌,
}
use nfp_udp_echo.Base.Words.{u32, u64, add64}
use nfp_udp_echo.Driver.{MemResource}

-- `struct nfp_bar`
pub record NfpBar : Type 0 where
  pub barcfg : ℕ
  pub base : ℕ
  pub mask : ℕ
  pub bitsize : ℕ
  pub index : ℕ
  pub iomem : ℕ
  pub resource : MemResource

abbrev pub nfp_pci_bar_max : ℕ
nfp_pci_bar_max = 24

abbrev pub nfp_pci_min_map_size : ℕ
nfp_pci_min_map_size = 0x080000

-- A pointer as an address; a null pointer is 0.
abbrev pub address : Option ℕ → ℕ
address none = 0
address (some a) = a

unfoldable pub nfp_bar_resource_start : NfpBar → ℕ
nfp_bar_resource_start bar =
    add64 (address bar.resource.addr) (u64 (add64 bar.mask 1 * (bar.index % 8)))

-- A write to a register of the card: by its address, or in the configuration space.
pub data BarWrite : Type 0 where
  csr_write : ℕ → ℕ → BarWrite
  config_write : ℕ → ℕ → BarWrite

-- `config_ok` tells whether a write to the configuration space succeeds.
unfoldable pub nfp_bar_write : (ℕ → Bool) → ℕ → NfpBar → ℕ → NfpBar × BarWrite
nfp_bar_write config_ok csr bar newcfg =
    let slot = (bar.index / 8 * 8 + bar.index % 8) * 4 in
    let done = record bar { barcfg = newcfg } in
    if csr == 0
    then (if config_ok (0x400 + slot) then done else bar, config_write (0x400 + slot) newcfg)
    else (done, csr_write (add64 csr slot) newcfg)

-- Whether `bar_cmp` is not positive.
unfoldable pub bar_le : NfpBar → NfpBar → Bool
bar_le a b = if a.bitsize == b.bitsize then leb a.index b.index else leb a.bitsize b.bitsize

-- `rte_fls_u64` and `qsort` are parameters; `resource` is `mem_resource` of the device.
module _ (rte_fls_u64 : ℕ → ℕ) (resource : ℕ → MemResource) where
  unfoldable pub set_bar : ℕ → NfpBar
  set_bar i =
      let res = resource (i / 8 * 2) in
      let mask = u64 (res.len / 8 + (2 ^ 64 - 1)) in
      record {
        barcfg = 0;
        base = 0;
        mask = mask;
        bitsize = rte_fls_u64 mask;
        index = i;
        iomem = 0;
        resource = res;
      }

  -- The loop from `i` on, `rounds` of it: the elements that it sets.
  unfoldable pub set_bars : ℕ → ℕ → List NfpBar
  unfolding set_bar
  set_bars zero i = []
  set_bars (suc rounds) i =
      let rest = set_bars rounds (i + 1) in
      if (resource (i / 8 * 2)).phys_addr == 0 then rest else set_bar i ∷ rest

-- `NFP_PCIE_BAR_PCIE2CPP_MapType(4 + i)`
abbrev pub barcfg_explicit : ℕ → ℕ
barcfg_explicit i = (4 + i) * 2 ^ 29

abbrev pub modify_at : ℕ → NfpBar → List NfpBar → List NfpBar
modify_at n bar [] = []
modify_at zero bar (_ ∷ l) = bar ∷ l
modify_at (suc n) bar (b ∷ l) = b ∷ modify_at n bar l

-- What is set up: the elements of `bar`, `iomem.csr`, and the writes. The other addresses kept, and
-- `expl`, are not used by the daemon.
pub record Enabled : Type 0 where
  pub bar : List NfpBar
  pub csr : ℕ
  pub writes : List BarWrite

-- The round of the second loop for BAR `4 + i`, the two explicit groups' first.
unfoldable pub enable_explicit : (ℕ → Bool) → ℕ → Enabled → Enabled
unfolding nfp_bar_write nfp_bar_resource_start
enable_explicit config_ok i e = elim (get_elem? e.bar (4 + i)) [
  | none ↦ e
  | some b ↦
      let r =
        nfp_bar_write config_ok e.csr (record b { iomem = nfp_bar_resource_start b })
          (barcfg_explicit i) in
      record e { bar = modify_at (4 + i) r.0 e.bar; writes = e.writes ++ (r.1 ∷ []) }
]

-- `behind` is the element behind the last that the loop sets, which nothing has set: its mask and
-- its `iomem` are used. `none` is an error.
unfoldable pub nfp_enable_bars :
    (ℕ → ℕ)
    → ((NfpBar → NfpBar → Bool) → List NfpBar → List NfpBar)
    → (ℕ → Bool)
    → (ℕ → MemResource)
    → NfpBar
    → Option Enabled
unfolding set_bars nfp_bar_resource_start enable_explicit
nfp_enable_bars rte_fls_u64 qsort config_ok resource behind =
    let bars = set_bars rte_fls_u64 resource nfp_pci_bar_max 0 in
    let iomem =
      if leb nfp_pci_min_map_size (add64 behind.mask 1)
      then nfp_bar_resource_start behind
      else behind.iomem in
    let first : Enabled = record { bar = bars; csr = add64 iomem 0x30000; writes = [] } in
    let both = enable_explicit config_ok 1 (enable_explicit config_ok 0 first) in
    if ltb (length bars) 8 then none else some (record both { bar = qsort bar_le both.bar })
