-- ===== src/Startup.antt =====
-- `main` of user/app_main.c, up to the start of its threads.
pub mod Buffers
pub mod Setup
pub mod Echo
use nfp_udp_echo.Base.{ℕ, zero, suc, not, Option, none, some, List, [], ◌∷◌, ◌==◌, if◌then◌else◌}
use nfp_udp_echo.Base.Memory.{Mem, write_bytes}
use nfp_udp_echo.Memzone.{
  Memzone, Zones, Pointer, null, element, elsewhere, ReserveCalls, memzone_init, memzone_reserve,
}
use nfp_udp_echo.Driver.{PciDevice, Sysfs}
use nfp_udp_echo.Driver.Scan.{pci_scan}
use nfp_udp_echo.Driver.Mapping.{MapCalls, CppCalls, pci_probe}

-- What the calls outside the program return, in the search for the card, its probe, and the two
-- reservations.
pub record StartCalls : Type 0 where
  pub sysfs : Sysfs
  pub entries : Option (List (List ℕ))
  pub map_calls : MapCalls
  pub cpp_calls : CppCalls
  pub reserve_rx : ReserveCalls
  pub reserve_tx : ReserveCalls

-- What the threads are started with: the device, the handle of the card, `buffer_rx`, `buffer_tx`,
-- the table of zones, and the program's memory.
pub record Running : Type 0 where
  pub dev : Option PciDevice
  pub cpp : Option ℕ
  pub buffer_rx : Pointer
  pub buffer_tx : Pointer
  pub zones : Zones
  pub mem : Mem

-- The two returns, a `memset` through a null pointer, and the start of the threads.
pub data MainEnd : Type 0 where
  no_device : MainEnd
  not_probed : ℕ → MainEnd
  null_buffer : MainEnd
  running : Running → MainEnd

unfoldable pub deref : Zones → Pointer → Option Memzone
deref s null = none
deref s (element i) = some (s.mz i)
deref s (elsewhere z) = some z

abbrev pub zeros : ℕ → List ℕ
zeros zero = []
zeros (suc n) = 0 ∷ zeros n

-- `memset(addr, 0, size)`
abbrev pub clear : ℕ → ℕ → Mem → Mem
clear addr size mem = write_bytes mem addr (zeros size)

-- From the two reservations on.
unfoldable pub clear_buffers :
    ℕ → Option PciDevice → Option ℕ → Pointer → Pointer × Zones → Mem → MainEnd
unfolding deref
clear_buffers size dev cpp buffer_rx (buffer_tx, s) mem = elim (deref s buffer_rx) [
  | none ↦ null_buffer
  | some rx ↦ elim (deref s buffer_tx) [
    | none ↦ null_buffer
    | some tx ↦ running (record {
      dev = dev;
      cpp = cpp;
      buffer_rx = buffer_rx;
      buffer_tx = buffer_tx;
      zones = s;
      mem = clear tx.addr size (clear rx.addr size mem);
    })
  ]
]

-- `size` is `RING_BUFFER_SIZE`; `zones` and `mem` are what there is before.
unfoldable pub main : StartCalls → ℕ → Zones → Mem → MainEnd
unfolding clear_buffers
main c size zones mem = elim (pci_scan c.sysfs c.entries) [
  | none ↦ no_device
  | some dev ↦
      let probe = pci_probe c.map_calls c.cpp_calls (some dev) in
      let rx = memzone_reserve c.reserve_rx size (memzone_init zones) in
      let tx = memzone_reserve c.reserve_tx size rx.1 in
      if not (probe.0.0 == 0)
      then not_probed (probe.0.0)
      else clear_buffers size probe.1 probe.0.1 rx.0 tx mem
]
