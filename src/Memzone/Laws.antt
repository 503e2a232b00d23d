-- ===== src/Memzone/Laws.antt =====
-- What `memzone_reserve` and `memzone_free` of user/lib/memzone.c promise their caller.
use nfp_udp_echo.Base.{
  ℕ, ◌-◌, ◌<◌, ◌≡◌, ◌≢◌, inl, inr, refl, subst, sym, Option-cases, Bool-cases, true, some, arith,
  ℕ_discrete,
}
use nfp_udp_echo.Memzone.{
  Zones, Pointer, null, element, max_memzones, handle_invalid, update, huge_page_size, bad_iova,
  align_ceil, mem_virt2phy, free_memzone, ReserveCalls, map_zone, memzone_reserve,
}
use nfp_udp_echo.Memzone.Table.{IsValid, alloc_memzone_lem, taken, free-taken}

-- The system calls of a reservation succeed, and give this address and this physical address.
pub record Succeeds (e : ReserveCalls) (addr iova : ℕ) : Type 0 where
  pub opened : e.file_opened ≡ true
  pub mapped : e.mapped ≡ some addr
  pub translated : mem_virt2phy e.pagemap addr ≡ iova
  pub good : iova ≢ bad_iova

-- The table after element `i` is handed out.
abbrev pub reserved : Zones → ℕ → ℕ → ℕ → ℕ → Zones
reserved s i addr iova len = record s {
  mz = update s.mz i (record { iova = iova; addr = addr; len = len; flags = 0; handle = i });
  free_mz = s.free_mz - 1;
}

-- The outcomes of one `memzone_reserve`.
pub data Outcome (s : Zones) (e : ReserveCalls) (len : ℕ) : Pointer × Zones → Type 0 where
  no_space : s.free_mz ≡ 0 → Outcome s e len (null, s)
  failed : ((addr iova : ℕ) → ¬ Succeeds e addr iova) → Outcome s e len (null, s)
  reserved_zone :
      (i addr iova : ℕ)
      → i < max_memzones
      → (s.mz i).handle ≡ handle_invalid
      → Succeeds e addr iova
      → Outcome s e len (element i, reserved s i addr iova (align_ceil len huge_page_size))

-- What is left to do once element `i` is taken.
after :
    (s : Zones) (e : ReserveCalls) (len i : ℕ)
    → i < max_memzones
    → (s.mz i).handle ≡ handle_invalid
    → free_memzone (element i) (taken s i) ≡ s
    → Outcome s e len (map_zone e (align_ceil len huge_page_size) (some i, taken s i))
unfolding map_zone
after s e len i h u back = elim (Bool-cases e.file_opened) [
  | inr o ↦
      subst (Outcome s e len) (sym (rw (o, back) refl))
        (Outcome.failed λ addr iova w. ground (arith, o, w.opened))
  | inl o ↦ elim (Option-cases e.mapped) [
    | inl m ↦
        subst (Outcome s e len) (sym (rw (o, m, back) refl))
          (Outcome.failed λ addr iova w. ground (arith, m, w.mapped))
    | inr (addr, m) ↦ elim (ℕ_discrete (mem_virt2phy e.pagemap addr) bad_iova) [
      | yes b ↦
          subst (Outcome s e len) (sym (rw (o, m, b, back) refl))
            (Outcome.failed λ a q w. ground (arith, m, b, w.mapped, w.translated, w.good))
      | no nb ↦ subst (Outcome s e len) (sym (rw (o, m) (ground arith))) (
          Outcome.reserved_zone i addr (mem_virt2phy e.pagemap addr) h u
            (record { opened = o; mapped = m; translated = refl; good = nb }))
    ]
  ]
]

-- From a valid table, every reservation ends in one of the outcomes.
pub memzone_reserve_lem :
    (s : Zones) (e : ReserveCalls) (len : ℕ) → IsValid s → Outcome s e len (memzone_reserve e len s)
unfolding memzone_reserve
memzone_reserve_lem s e len v = elim (alloc_memzone_lem s v) [
  | inl (z, a) ↦ rw (a, map_zone) (Outcome.no_space z)
  | inr (i, h, u, pos, a) ↦ rw a (after s e len i h u (free-taken s i v h u pos))
]
