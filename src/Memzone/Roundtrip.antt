-- ===== src/Memzone/Roundtrip.antt =====
-- Reserving a zone of user/lib/memzone.c and freeing it again.
use nfp_udp_echo.Base.{
  ℕ, ◌+◌, ◌%◌, ◌^◌, ◌≤◌, ◌<◌, ◌≡◌, ◌≢◌, refl, sym, subst, ap, Bool, true, some, Option-cases, inl,
  inr, arith,
}
use nfp_udp_echo.Memzone.{
  Zones, Pointer, null, element, max_memzones, handle_invalid, huge_page_size, page_size, bad_iova,
  align_floor, align_ceil, pfn, Pagemap, mem_virt2phy, free_memzone, ReserveCalls, memzone_reserve,
  memzone_free,
}
use nfp_udp_echo.Memzone.Table.{IsValid, unused-update, unused-le, freed}
use nfp_udp_echo.Memzone.Laws.{Outcome, reserved, memzone_reserve_lem}

element≢null : {i : ℕ} → element i ≢ null
element≢null e = cc

element-injective : {i j : ℕ} → element i ≡ element j → i ≡ j
element-injective e = cc

reserved-IsValid :
    (s : Zones) (i addr iova len : ℕ)
    → IsValid s
    → i < max_memzones
    → (s.mz i).handle ≡ handle_invalid
    → IsValid (reserved s i addr iova len)
reserved-IsValid s i addr iova len v h e = record {
  handles = λ j q. ground (arith, v.handles j q);
  counted = ground (
    arith,
    v.counted,
    unused-update max_memzones s.mz i
        (record { iova = iova; addr = addr; len = len; flags = 0; handle = i }) h,
  );
}

outcome-IsValid :
    (s : Zones) (e : ReserveCalls) (len : ℕ) (r : Pointer × Zones)
    → IsValid s
    → Outcome s e len r
    → IsValid r.1
outcome-IsValid s e len r v (Outcome.no_space z) = v
outcome-IsValid s e len r v (Outcome.failed f) = v
outcome-IsValid s e len r v (Outcome.reserved_zone i addr iova h u w) =
    reserved-IsValid s i addr iova (align_ceil len huge_page_size) v h u

-- Reserving keeps the table valid, whatever the system calls return.
pub memzone_reserve-IsValid :
    (s : Zones) (e : ReserveCalls) (len : ℕ) → IsValid s → IsValid (memzone_reserve e len s).1
memzone_reserve-IsValid s e len v =
    outcome-IsValid s e len (memzone_reserve e len s) v (memzone_reserve_lem s e len v)

-- A reservation that returns the null pointer, for whatever reason, leaves the table as it was.
pub memzone_reserve-null :
    (s : Zones) (e : ReserveCalls) (len : ℕ)
    → IsValid s
    → (memzone_reserve e len s).0 ≡ null
    → (memzone_reserve e len s).1 ≡ s
memzone_reserve-null s e len v = kept (memzone_reserve e len s) (memzone_reserve_lem s e len v)
  where
    kept : (r : Pointer × Zones) → Outcome s e len r → r.0 ≡ null → r.1 ≡ s
    kept r (Outcome.no_space z) n = refl
    kept r (Outcome.failed f) n = refl
    kept r (Outcome.reserved_zone i addr iova h u w) n = absurd (element≢null n)

back :
    (s : Zones) (i addr iova len : ℕ)
    → IsValid s
    → i < max_memzones
    → (s.mz i).handle ≡ handle_invalid
    → ((free_memzone (element i) (reserved s i addr iova len)).free_mz ≡ s.free_mz)
      × ((j : ℕ)
          → ((free_memzone (element i) (reserved s i addr iova len)).mz j).handle ≡ (s.mz j).handle)
back s i addr iova len v h e = rw (freed (reserved s i addr iova len) i h (ground arith)) (
  ground (
    arith,
    v.counted,
    unused-le max_memzones s.mz,
    unused-update max_memzones s.mz i
        (record { iova = iova; addr = addr; len = len; flags = 0; handle = i }) h,
  ),
  λ j. ground (arith, ap (λ k. (s.mz k).handle) {x = i} {y = j}),
)

-- Freeing the zone that a reservation returned gives back its handle and its count, and leaves all
-- other handles alone, whatever `munmap` returns.
pub free-reserve :
    (s : Zones) (e : ReserveCalls) (len i : ℕ) (ret : Bool)
    → IsValid s
    → (memzone_reserve e len s).0 ≡ element i
    → ((memzone_free ret (element i) (memzone_reserve e len s).1).1.free_mz ≡ s.free_mz)
      × ((j : ℕ)
          → ((memzone_free ret (element i) (memzone_reserve e len s).1).1.mz j).handle
            ≡ (s.mz j).handle)
unfolding memzone_free
free-reserve s e len i ret v = go (memzone_reserve e len s) (memzone_reserve_lem s e len v)
  where
    go :
        (r : Pointer × Zones)
        → Outcome s e len r
        → r.0 ≡ element i
        → ((free_memzone (element i) r.1).free_mz ≡ s.free_mz)
          × ((j : ℕ) → ((free_memzone (element i) r.1).mz j).handle ≡ (s.mz j).handle)
    go r (Outcome.no_space z) n = absurd (element≢null (sym n))
    go r (Outcome.failed f) n = absurd (element≢null (sym n))
    go r (Outcome.reserved_zone k addr iova h u w) n =
        subst
          (λ x.
            ((free_memzone (element x)
                (reserved s k addr iova (align_ceil len huge_page_size))).free_mz
              ≡ s.free_mz)
            × ((j : ℕ)
                → ((free_memzone (element x)
                      (reserved s k addr iova (align_ceil len huge_page_size))).mz
                    j).handle
                  ≡ (s.mz j).handle))
          (element-injective n) (back s k addr iova (align_ceil len huge_page_size) v h u)

-- `ALIGN_CEIL` gives the least multiple of the alignment that is not below.
pub align_ceil_lem :
    (len : ℕ)
    → len + huge_page_size ≤ 2 ^ 64
    → (align_ceil len huge_page_size % huge_page_size ≡ 0)
      × (len ≤ align_ceil len huge_page_size)
      × (align_ceil len huge_page_size < len + huge_page_size)
unfolding align_ceil align_floor
align_ceil_lem len h = omega arith

-- A physical address keeps the offset in the page, and its page is the entry's frame, for an entry
-- that is read in full.
pub mem_virt2phy_lem :
    (e : Pagemap) (v : ℕ)
    → mem_virt2phy e v ≢ bad_iova
    → (e.opened ≡ true)
      × (e.bytes_read ≡ some 8)
      × (0 < pfn e.page)
      × (mem_virt2phy e v % page_size ≡ v % page_size)
unfolding mem_virt2phy pfn
mem_virt2phy_lem e v h = elim (Option-cases e.bytes_read) [
  | inl n ↦ absurd (ground arith)
  | inr (r, n) ↦ ground (arith, n)
]
