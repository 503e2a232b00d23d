-- ===== src/Startup/Buffers.antt =====
-- user/app_main.c: what `main` has when it starts its threads, and how else it ends.
use nfp_udp_echo.Base.{
  ℕ, ◌<◌, ◌≡◌, ◌≢◌, ◌⊎◌, inl, inr, refl, sym, subst, ◌∙◌, ap, Option, none, some, ◌==◌, arith,
  Option-cases, on_if, not,
}
use nfp_udp_echo.Base.Memory.{Mem}
use nfp_udp_echo.Memzone.{
  Memzone, Zones, Pointer, element, max_memzones, handle_invalid, update, huge_page_size,
  align_ceil, ReserveCalls, memzone_reserve, memzone_init,
}
use nfp_udp_echo.Memzone.Table.{IsValid, init-IsValid}
use nfp_udp_echo.Memzone.Laws.{Succeeds, Outcome, memzone_reserve_lem}
use nfp_udp_echo.Memzone.Roundtrip.{memzone_reserve-IsValid}
use nfp_udp_echo.Driver.{PciDevice}
use nfp_udp_echo.Driver.Scan.{pci_scan}
use nfp_udp_echo.Driver.Mapping.{pci_probe}
use nfp_udp_echo.Startup.{
  StartCalls, Running, MainEnd, no_device, not_probed, null_buffer, running, clear, clear_buffers,
  main,
}

-- The pointer is to a used element of the table, which holds what the system calls have given.
pub record IsBuffer (s : Zones) (e : ReserveCalls) (size : ℕ) (b : Pointer) (i : ℕ) : Type 0 where
  pub is_element : b ≡ element i
  pub in_table : i < max_memzones
  pub used : (s.mz i).handle ≡ i
  pub rounded : (s.mz i).len ≡ align_ceil size huge_page_size
  pub calls : Succeeds e (s.mz i).addr (s.mz i).iova

-- The buffers are two different elements of a valid table, and cleared.
pub record HasBuffers (c : StartCalls) (size : ℕ) (mem : Mem) (r : Running) : Type 0 where
  pub i : ℕ
  pub j : ℕ
  pub different : i ≢ j
  pub rx : IsBuffer r.zones c.reserve_rx size r.buffer_rx i
  pub tx : IsBuffer r.zones c.reserve_tx size r.buffer_tx j
  pub valid : IsValid r.zones
  pub cleared : r.mem ≡ clear (r.zones.mz j).addr size (clear (r.zones.mz i).addr size mem)

-- A null pointer comes of system calls that fail.
abbrev pub Fails : ReserveCalls → Type 0
Fails e = (addr iova : ℕ) → ¬ Succeeds e addr iova

pub data BuffersOutcome (c : StartCalls) (size : ℕ) (dev : Option PciDevice) (cpp : Option ℕ)
    (mem : Mem) : MainEnd → Type 0 where
  null_pointer :
      Fails c.reserve_rx ⊎ Fails c.reserve_tx → BuffersOutcome c size dev cpp mem null_buffer
  reserved_both :
      (r : Running)
      → HasBuffers c size mem r
      → r.dev ≡ dev
      → r.cpp ≡ cpp
      → BuffersOutcome c size dev cpp mem (running r)

abbrev given : ℕ → ℕ → ℕ → ℕ → Memzone
given i addr iova size = record {
  iova = iova;
  addr = addr;
  len = align_ceil size huge_page_size;
  flags = 0;
  handle = i;
}

given-IsBuffer :
    (s : Zones) (e : ReserveCalls) (size i addr iova : ℕ)
    → i < max_memzones
    → s.mz i ≡ given i addr iova size
    → Succeeds e addr iova
    → IsBuffer s e size (element i) i
given-IsBuffer s e size i addr iova h q w = record {
  is_element = refl;
  in_table = h;
  used = ap (λ z. z.handle) q;
  rounded = ap (λ z. z.len) q;
  calls = subst (λ z. Succeeds e z.addr z.iova) (sym q) w;
}

update_same : (mz : ℕ → Memzone) (i : ℕ) (z : Memzone) → update mz i z i ≡ z
update_same mz i z = ground arith

update_other : (mz : ℕ → Memzone) (i j : ℕ) (z : Memzone) → i ≢ j → update mz i z j ≡ mz j
update_other mz i j z ne = ground arith

-- The second reservation does not find the element of the first.
second_differs :
    (mz : ℕ → Memzone) (i j : ℕ) (z : Memzone)
    → z.handle < max_memzones
    → (update mz i z j).handle ≡ handle_invalid
    → i ≢ j
second_differs mz i j z h u e = absurd (
    omega (arith, u, ap (λ k. (update mz i z k).handle) e, ap (λ y. y.handle) (update_same mz i z)))

module _ (c : StartCalls) (size : ℕ) (dev : Option PciDevice) (cpp : Option ℕ) (mem : Mem) where
  buffers_lem :
      (s : Zones) (rx : Pointer × Zones) (tx : Pointer × Zones)
      → s.free_mz ≡ max_memzones
      → Outcome s c.reserve_rx size rx
      → Outcome rx.1 c.reserve_tx size tx
      → IsValid tx.1
      → BuffersOutcome c size dev cpp mem (clear_buffers size dev cpp rx.0 tx mem)
  unfolding clear_buffers
  buffers_lem s rx tx full (Outcome.no_space z) o v = absurd (omega (arith, full, z))
  buffers_lem s rx tx full (Outcome.failed f) o v = BuffersOutcome.null_pointer (inl f)
  buffers_lem s rx tx full (Outcome.reserved_zone i addr iova h u w) (Outcome.no_space z) v =
      absurd (omega (arith, full, z))
  buffers_lem s rx tx full (Outcome.reserved_zone i addr iova h u w) (Outcome.failed f) v =
      BuffersOutcome.null_pointer (inr f)
  buffers_lem s rx tx full (Outcome.reserved_zone i addr iova h u w)
        (Outcome.reserved_zone j addr' iova' h' u' w') v =
      let z = given i addr iova size in
      let z' = given j addr' iova' size in
      let ne = second_differs s.mz i j z h u' in
      BuffersOutcome.reserved_both _
        (record {
          i = i;
          j = j;
          different = ne;
          rx =
              given-IsBuffer _ c.reserve_rx size i addr iova h
                (update_other (update s.mz i z) j i z' (λ e. ne (sym e)) ∙ update_same s.mz i z) w;
          tx =
              given-IsBuffer _ c.reserve_tx size j addr' iova' h'
                (update_same (update s.mz i z) j z') w';
          valid = v;
          cleared = refl;
        })
        refl refl

-- How `main` ends.
pub data MainOutcome (c : StartCalls) (size : ℕ) (mem : Mem) : MainEnd → Type 0 where
  nothing_found : pci_scan c.sysfs c.entries ≡ none → MainOutcome c size mem no_device
  probe_fails :
      (dev : PciDevice)
      → pci_scan c.sysfs c.entries ≡ some dev
      → (pci_probe c.map_calls c.cpp_calls (some dev)).0.0 ≢ 0
      → MainOutcome c size mem (not_probed (pci_probe c.map_calls c.cpp_calls (some dev)).0.0)
  probed :
      (dev : PciDevice)
      → pci_scan c.sysfs c.entries ≡ some dev
      → (pci_probe c.map_calls c.cpp_calls (some dev)).0.0 ≡ 0
      → {end : MainEnd}
      → BuffersOutcome c size
          (pci_probe c.map_calls c.cpp_calls (some dev)).1
          (pci_probe c.map_calls c.cpp_calls (some dev)).0.1
          mem
          end
      → MainOutcome c size mem end

-- `main` ends where the scan finds no device, where the probe gives an error, or at a null pointer
-- after the system calls of a reservation have failed; or it starts its threads with the device and
-- the handle of the probe and two different used zones of a valid table, both cleared.
pub main_lem :
    (c : StartCalls) (size : ℕ) (zones : Zones) (mem : Mem)
    → MainOutcome c size mem (main c size zones mem)
unfolding main memzone_init
main_lem c size zones mem = elim (Option-cases (pci_scan c.sysfs c.entries)) [
  | inl n ↦ rw (n, main) (MainOutcome.nothing_found n)
  | inr (dev, found) ↦
      let probe = pci_probe c.map_calls c.cpp_calls (some dev) in
      let first = memzone_init zones in
      let rx = memzone_reserve c.reserve_rx size first in
      let v = memzone_reserve-IsValid first c.reserve_rx size (init-IsValid zones).0 in
      rw (found, main)
        (on_if (MainOutcome c size mem) (not (probe.0.0 == 0)) _ _
          (λ q. MainOutcome.probe_fails dev found (ground (arith, q)))
          (λ q. MainOutcome.probed dev found (ground (arith, q)) (
            buffers_lem c size probe.1 probe.0.1 mem first rx
              (memzone_reserve c.reserve_tx size rx.1) refl
              (memzone_reserve_lem first c.reserve_rx size (init-IsValid zones).0)
              (memzone_reserve_lem rx.1 c.reserve_tx size v)
              (memzone_reserve-IsValid rx.1 c.reserve_tx size v))))
]
