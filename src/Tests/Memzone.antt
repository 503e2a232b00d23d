-- ===== src/Tests/Memzone.antt =====
-- A table of zones after `memzone_init`, and system calls that succeed.
use nfp_udp_echo.Base.{ℕ, ◌≡◌, refl, true, false, some}
use nfp_udp_echo.Memzone.{
  Zones, null, element, pfn, Pagemap, mem_virt2phy, find_unused, alloc_memzone, ReserveCalls,
  map_zone, memzone_reserve, memzone_free, memzone_init,
}
use nfp_udp_echo.Memzone.Table.{IsValid, init-IsValid}
use nfp_udp_echo.Memzone.Laws.{Outcome, memzone_reserve_lem}
use nfp_udp_echo.Memzone.Roundtrip.{free-reserve}

abbrev pub blank : Zones
blank = record {
  mz = λ i. record { iova = 0; addr = 0; len = 0; flags = 0; handle = 0 };
  free_mz = 7;
}

abbrev zones : Zones
zones = memzone_init blank

-- Page frame 5 at address 0x3010.
abbrev pagemap : Pagemap
pagemap = record { opened = true; sought = true; bytes_read = some 8; page = 5 }

abbrev calls : ReserveCalls
calls = record { file_opened = true; mapped = some 0x3010; pagemap = pagemap }

abbrev no_file : ReserveCalls
no_file = record calls { file_opened = false }

zones-IsValid : IsValid zones
zones-IsValid = (init-IsValid blank).0

memzone_reserve_lem_example : Outcome zones calls 100 (memzone_reserve calls 100 zones)
memzone_reserve_lem_example = memzone_reserve_lem zones calls 100 zones-IsValid

reserve_no_file : (memzone_reserve no_file 100 zones).0 ≡ null
unfolding memzone_reserve map_zone alloc_memzone find_unused memzone_init
reserve_no_file = refl

reserve_first : (memzone_reserve calls 100 zones).0 ≡ element 0
unfolding memzone_reserve map_zone alloc_memzone find_unused memzone_init mem_virt2phy pfn
reserve_first = refl

free-reserve_example :
    ((memzone_free true (element 0) (memzone_reserve calls 100 zones).1).1.free_mz ≡ zones.free_mz)
    × ((j : ℕ)
        → ((memzone_free true (element 0) (memzone_reserve calls 100 zones).1).1.mz j).handle
          ≡ (zones.mz j).handle)
free-reserve_example = free-reserve zones calls 100 0 true zones-IsValid reserve_first

translated : mem_virt2phy pagemap 0x3010 ≡ 0x5010
unfolding mem_virt2phy pfn
translated = refl
