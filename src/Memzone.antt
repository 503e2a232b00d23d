-- ===== src/Memzone.antt =====
-- user/lib/memzone.c: reserving and freeing zones of physically contiguous memory. What the system
-- calls return in one call of the library is an argument, as the code meets it.
pub mod Table
pub mod Laws
pub mod Roundtrip
use nfp_udp_echo.Base.{
  ℕ, zero, suc, ◌+◌, ◌-◌, ◌*◌, ◌/◌, ◌%◌, ◌^◌, Bool, true, false, not, ◌||◌, Option, none, some, ltb,
  leb, ◌==◌, if◌then◌else◌,
}
use nfp_udp_echo.Base.Words.{u16, u64, add64}

-- `struct memzone`
pub record Memzone : Type 0 where
  pub iova : ℕ
  pub addr : ℕ
  pub len : ℕ
  pub flags : ℕ
  pub handle : ℕ

abbrev pub max_memzones : ℕ
max_memzones = 1024

abbrev pub handle_invalid : ℕ
handle_invalid = max_memzones + 1

abbrev pub page_size : ℕ
page_size = 2 ^ 12

abbrev pub huge_page_size : ℕ
huge_page_size = 2 ^ 21

-- `MEMZONE_BAD_IOVA`, -1 as a `uint64_t`
abbrev pub bad_iova : ℕ
bad_iova = 2 ^ 64 - 1

-- The static variables `_mz`, by index, and `_free_mz`.
pub record Zones : Type 0 where
  pub mz : ℕ → Memzone
  pub free_mz : ℕ

-- A `struct memzone *`: null, an element of `_mz`, or a structure elsewhere.
pub data Pointer : Type 0 where
  null : Pointer
  element : ℕ → Pointer
  elsewhere : Memzone → Pointer

abbrev pub update : (ℕ → Memzone) → ℕ → Memzone → ℕ → Memzone
update f i z j = if i == j then z else f j

abbrev pub set_handle : Zones → ℕ → ℕ → Zones
set_handle s i h = record s { mz = update s.mz i (record (s.mz i) { handle = h }) }

-- `ALIGN_FLOOR` and `ALIGN_CEIL` on a `size_t`, at a power of two
unfoldable pub align_floor : ℕ → ℕ → ℕ
align_floor val align = val - val % align

unfoldable pub align_ceil : ℕ → ℕ → ℕ
unfolding align_floor
align_ceil val align = align_floor (add64 val (align - 1)) align

-- What the accesses to /proc/self/pagemap return: whether it opens and seeks, the number of bytes
-- read (`none` is an error), and the entry.
pub record Pagemap : Type 0 where
  pub opened : Bool
  pub sought : Bool
  pub bytes_read : Option ℕ
  pub page : ℕ

-- `page & 0x7fffffffffffff`
unfoldable pub pfn : ℕ → ℕ
pfn page = page % 2 ^ 55

unfoldable pub mem_virt2phy : Pagemap → ℕ → ℕ
unfolding pfn
mem_virt2phy e virtaddr =
    if not (e.opened) then bad_iova else if not (e.sought) then bad_iova else elim (e.bytes_read) [
      | none ↦ bad_iova
      | some r ↦
          if not (r == 8)
          then bad_iova
          else if pfn e.page == 0
          then bad_iova
          else u64 (u64 (pfn e.page * page_size) + virtaddr % page_size)
    ]

-- The loop of `alloc_memzone` from `idx` on, with `rounds` left.
unfoldable pub find_unused : ℕ → (ℕ → Memzone) → ℕ → Option ℕ
find_unused zero mz idx = none
find_unused (suc rounds) mz idx =
    if (mz idx).handle == handle_invalid then some idx else find_unused rounds mz (idx + 1)

unfoldable pub alloc_memzone : Zones → Option ℕ × Zones
alloc_memzone s = if s.free_mz == 0 then (none, s) else elim (find_unused max_memzones s.mz 0) [
  | none ↦ (none, s)
  | some idx ↦ (some idx, record (set_handle s idx idx) { free_mz = u16 (s.free_mz + 2 ^ 16 - 1) })
]

unfoldable pub free_memzone : Pointer → Zones → Zones
free_memzone null s = s
free_memzone (element i) s =
    let idx = (s.mz i).handle in
    if leb max_memzones idx
    then s
    else if not (i == idx)
    then s
    else record (set_handle s idx handle_invalid) { free_mz = u16 (s.free_mz + 1) }
free_memzone (elsewhere z) s = s

-- What the system calls of one `memzone_reserve` return: whether the file opens, the address of the
-- mapping (`none` is MAP_FAILED), and the page map.
pub record ReserveCalls : Type 0 where
  pub file_opened : Bool
  pub mapped : Option ℕ
  pub pagemap : Pagemap

-- `memzone_reserve` from the test of the allocated zone on.
unfoldable pub map_zone : ReserveCalls → ℕ → Option ℕ × Zones → Pointer × Zones
map_zone e len (none, s) = (null, s)
map_zone e len (some i, s) =
    if not (e.file_opened) then (null, free_memzone (element i) s) else elim (e.mapped) [
      | none ↦ (null, free_memzone (element i) s)
      | some addr ↦
          let phyaddr = mem_virt2phy e.pagemap addr in
          if phyaddr == bad_iova then (null, free_memzone (element i) s) else (
            element i,
            record s {
              mz =
                  update s.mz i
                    (record (s.mz i) { addr = addr; len = len; iova = phyaddr; flags = 0 });
            },
          )
    ]

unfoldable pub memzone_reserve : ReserveCalls → ℕ → Zones → Pointer × Zones
unfolding map_zone
memzone_reserve e len s = map_zone e (align_ceil len huge_page_size) (alloc_memzone s)

-- `ret` tells whether `munmap` succeeds. The result is whether the call returns 0.
unfoldable pub memzone_free : Bool → Pointer → Zones → Bool × Zones
memzone_free ret null s = (true, s)
memzone_free ret mz s = (ret, free_memzone mz s)

-- The loop of `memzone_init` touches every element.
unfoldable pub memzone_init : Zones → Zones
memzone_init s = record {
  mz = λ i. if ltb i max_memzones then record (s.mz i) { handle = handle_invalid } else s.mz i;
  free_mz = max_memzones;
}
