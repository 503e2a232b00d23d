-- ===== src/Tests/Startup.antt =====
-- A start of the program with one card, and two huge pages for the buffers.
use nfp_udp_echo.Base.{ℕ, ◌*◌, ◌^◌, ◌≤◌, ◌<◌, ◌≡◌, refl, sym, true, some, none, arith}
use mathlib.Core.Option.{some-injective}
use nfp_udp_echo.Base.Memory.{Mem, read_bytes, write_bytes}
use nfp_udp_echo.Memzone.{
  ReserveCalls, memzone_init, memzone_reserve, alloc_memzone, find_unused, map_zone, pfn,
  mem_virt2phy,
}
use nfp_udp_echo.Echo.Meta.{Setup, IsSetup}
use nfp_udp_echo.Echo.Worker.{WorkerPc}
use nfp_udp_echo.Echo.System.{System, init, run, run-Reach, start, AllAllowed}
use nfp_udp_echo.Echo.Fifo.{frames}
use nfp_udp_echo.Firmware.Txops.{allocate_packet}
use nfp_udp_echo.Startup.Echo.{main-echo_fifo}
use nfp_udp_echo.Tests.Platform.{card, card-IsNfp, context}
use nfp_udp_echo.Tests.Echo.{schedule}
use nfp_udp_echo.Base.{◌≢◌, ◌+◌, length, take}
use nfp_udp_echo.Driver.Mapping.{pci_probe}
use nfp_udp_echo.Startup.{StartCalls, Running, null_buffer, running, zeros, clear_buffers, main}
use nfp_udp_echo.Startup.Buffers.{MainOutcome, main_lem}
use nfp_udp_echo.Startup.Setup.{MapsHuge, KernelMaps, setup_of, main-IsSetup}
use nfp_udp_echo.Tests.Memzone as Memzone
use nfp_udp_echo.Tests.Driver as Driver

-- The page at 2 MiB and the next, at the same physical addresses.
abbrev reserve_at : ℕ → ReserveCalls
reserve_at page = record {
  file_opened = true;
  mapped = some (page * 2 ^ 12);
  pagemap = record { opened = true; sought = true; bytes_read = some 8; page = page };
}

abbrev calls : StartCalls
calls = record {
  sysfs = Driver.sysfs;
  entries = some Driver.entries;
  map_calls = Driver.calls;
  cpp_calls = record {
    nfp_cpp_from_device_name = some 3;
    nfp_hwinfo_read = true;
    nfp_eth_read_ports = true;
  };
  reserve_rx = reserve_at 512;
  reserve_tx = reserve_at 1024;
}

abbrev old : Mem
old = λ a. 7

main_lem_example : MainOutcome calls 8 old (main calls 8 Memzone.blank old)
main_lem_example = main_lem calls 8 Memzone.blank old

probed : (pci_probe calls.map_calls calls.cpp_calls (some Driver.card)).0 ≡ (0, some 3)
unfolding pci_probe
probed = rw (Driver.maps, pci_probe) refl

-- The second reservation fails.
abbrev short_of_memory : StartCalls
short_of_memory = record calls { reserve_tx = record (reserve_at 1024) { mapped = none } }

crashes : main short_of_memory 8 Memzone.blank old ≡ null_buffer
unfolding main memzone_init memzone_reserve map_zone alloc_memzone find_unused mem_virt2phy pfn
    clear_buffers
crashes = rw (Driver.scan_finds, probed, main) refl

abbrev r : Running
r =
    let rx = memzone_reserve calls.reserve_rx 8 (memzone_init Memzone.blank) in
    let tx = memzone_reserve calls.reserve_tx 8 rx.1 in
    record {
      dev = (pci_probe calls.map_calls calls.cpp_calls (some Driver.card)).1;
      cpp = some 3;
      buffer_rx = rx.0;
      buffer_tx = tx.0;
      zones = tx.1;
      mem = write_bytes (write_bytes old (2 ^ 21) (zeros 8)) (2 ^ 22) (zeros 8);
    }

goes_on : main calls (2 * 4) Memzone.blank old ≡ running r
unfolding main memzone_init memzone_reserve map_zone alloc_memzone find_unused mem_virt2phy pfn
    clear_buffers
goes_on = rw (Driver.scan_finds, probed, main) refl

translated :
    (page addr : ℕ)
    → 0 < page
    → page ≤ 1024
    → addr ≡ page * 2 ^ 12
    → mem_virt2phy (reserve_at page).pagemap addr ≡ addr
unfolding mem_virt2phy pfn
translated page addr h l e = ground (arith, e)

kernel : KernelMaps (λ a. a) calls
kernel = record {
  rx = huge 512 (omega arith) (omega arith);
  tx = huge 1024 (omega arith) (omega arith);
  apart = λ a b p q. ground (arith, some-injective _ _ p, some-injective _ _ q);
}
  where
    huge : (page : ℕ) → 0 < page → page ≤ 1024 → MapsHuge (λ a. a) (reserve_at page)
    huge page h l = record {
      page_map = λ addr e ne. translated page addr h l (sym (some-injective _ _ e));
      contiguous = λ addr i e q. refl;
      in_range = λ addr e. omega (arith, some-injective _ _ e);
    }

main-IsSetup_example :
    IsSetup (setup_of (λ a. a) 4 (2 * 4) r) 2 4
    × (read_bytes r.mem (setup_of (λ a. a) 4 (2 * 4) r).buffer_rx.addr (2 * 4) ≡ zeros (2 * 4))
    × (read_bytes r.mem (setup_of (λ a. a) 4 (2 * 4) r).buffer_tx.addr (2 * 4) ≡ zeros (2 * 4))
main-IsSetup_example =
    main-IsSetup (λ a. a) calls 2 4 Memzone.blank old r (omega arith) (omega arith) (omega arith)
      (omega arith) kernel goes_on

-- One packet through the buffers that have been reserved.
abbrev setup : Setup
setup = setup_of (λ a. a) 4 (2 * 4) r

abbrev final : System
final = run card context 1 setup schedule (init (λ a. 0))

schedule-Allowed : AllAllowed card context 1 setup schedule
unfolding allocate_packet
schedule-Allowed = omega arith

main-echo_fifo_example :
    (frames final ≡ take (length final.sent) final.accepted)
    × (length final.sent ≤ length final.accepted)
    × (length final.accepted ≤ length final.sent + 2 * 2)
    × (final.worker.pc ≢ WorkerPc.aborted)
main-echo_fifo_example =
    main-echo_fifo card card-IsNfp context 1 (λ a. a) calls 2 4 Memzone.blank old r (omega arith)
      (omega arith) (omega arith) (omega arith) kernel goes_on (λ a. 0) final
      (run-Reach card context 1 setup (λ a. 0) schedule (init (λ a. 0)) schedule-Allowed start)
