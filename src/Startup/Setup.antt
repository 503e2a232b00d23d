-- ===== src/Startup/Setup.antt =====
-- user/app_main.c: the two buffers of `main` are what the worker and the firmware need.
use nfp_udp_echo.Base.{
  ℕ, zero, suc, ◌+◌, ◌*◌, ◌^◌, ◌≤◌, ◌<◌, ◌≡◌, ◌≢◌, ◌⊎◌, refl, sym, subst, ◌∙◌, ap, Option, none,
  some, length, arith,
}
use nfp_udp_echo.Base.Memory.{Mem, read_bytes, read-write_self, read-write_apart}
use nfp_udp_echo.Memzone.{
  Memzone, Zones, Pointer, huge_page_size, bad_iova, mem_virt2phy, ReserveCalls,
}
use nfp_udp_echo.Memzone.Laws.{Succeeds}
use nfp_udp_echo.Echo.Meta.{Zone, Setup, IsContiguous, IsSetup}
use nfp_udp_echo.Startup.{
  StartCalls, Running, MainEnd, no_device, not_probed, null_buffer, running, deref, zeros, clear,
  main,
}
use nfp_udp_echo.Startup.Buffers.{IsBuffer, HasBuffers, BuffersOutcome, MainOutcome, main_lem}

abbrev zone_of : Option Memzone → Zone
zone_of none = record { iova = 0; addr = 0 }
zone_of (some z) = record { iova = z.iova; addr = z.addr }

-- What `udp_worker` is started with: `UDP_PACKET_SIZE` is `p`, `RING_BUFFER_SIZE` is `size`.
abbrev pub setup_of : (ℕ → ℕ) → ℕ → ℕ → Running → Setup
setup_of phys p size r = record {
  udp_packet_size = p;
  ring_buffer_size = size;
  buffer_rx = zone_of (deref r.zones r.buffer_rx);
  buffer_tx = zone_of (deref r.zones r.buffer_tx);
  phys = phys;
}

-- A mapping of a huge page: the page map tells its physical address, and the page is contiguous.
pub record MapsHuge (phys : ℕ → ℕ) (e : ReserveCalls) : Type 0 where
  pub page_map :
      (addr : ℕ)
      → e.mapped ≡ some addr
      → mem_virt2phy e.pagemap addr ≢ bad_iova
      → mem_virt2phy e.pagemap addr ≡ phys addr
  pub contiguous :
      (addr i : ℕ) → e.mapped ≡ some addr → i < huge_page_size → phys (addr + i) ≡ phys addr + i
  pub in_range : (addr : ℕ) → e.mapped ≡ some addr → phys addr + huge_page_size ≤ 2 ^ 64

-- Two blocks of `n` bytes that do not meet.
abbrev pub Apart : ℕ → ℕ → ℕ → Type 0
Apart n a b = (a + n ≤ b) ⊎ (b + n ≤ a)

-- The kernel maps each buffer to a huge page of its own.
pub record KernelMaps (phys : ℕ → ℕ) (c : StartCalls) : Type 0 where
  pub rx : MapsHuge phys c.reserve_rx
  pub tx : MapsHuge phys c.reserve_tx
  pub apart :
      (a b : ℕ)
      → c.reserve_rx.mapped ≡ some a
      → c.reserve_tx.mapped ≡ some b
      → Apart huge_page_size a b × Apart huge_page_size (phys a) (phys b)

running-injective : {r r' : Running} → running r ≡ running r' → r ≡ r'
running-injective {r} e = ap take_running e
  where
    take_running : MainEnd → Running
    take_running (running q) = q
    take_running no_device = r
    take_running (not_probed n) = r
    take_running null_buffer = r

-- If `main` goes on, it has its buffers.
main-HasBuffers :
    (c : StartCalls) (size : ℕ) (zones : Zones) (mem : Mem) (r : Running)
    → main c size zones mem ≡ running r
    → HasBuffers c size mem r
main-HasBuffers c size zones mem r = of_outcome (main c size zones mem) (main_lem c size zones mem)
  where
    of_outcome :
        (end : MainEnd) → MainOutcome c size mem end → end ≡ running r → HasBuffers c size mem r
    of_outcome end (MainOutcome.nothing_found n) e = absurd cc
    of_outcome end (MainOutcome.probe_fails dev n f) e = absurd cc
    of_outcome end (MainOutcome.probed dev n z (BuffersOutcome.null_pointer f)) e = absurd cc
    of_outcome end (MainOutcome.probed dev n z (BuffersOutcome.reserved_both q h d k)) e =
        subst (HasBuffers c size mem) (running-injective e) h

-- The zone's I/O address is the physical one.
iova_lem :
    (phys : ℕ → ℕ) (e : ReserveCalls) (addr iova : ℕ)
    → MapsHuge phys e
    → Succeeds e addr iova
    → iova ≡ phys addr
iova_lem phys e addr iova k w =
    sym w.translated ∙ k.page_map addr w.mapped (λ b. w.good (sym w.translated ∙ b))

buffer-IsContiguous :
    (phys : ℕ → ℕ) (e : ReserveCalls) (z : Memzone) (len : ℕ)
    → MapsHuge phys e
    → Succeeds e z.addr z.iova
    → len ≤ huge_page_size
    → IsContiguous phys len (zone_of (some z))
buffer-IsContiguous phys e z len k w l =
    let at = iova_lem phys e z.addr z.iova k w in
    record {
      translated = λ i h. k.contiguous z.addr i w.mapped (omega arith) ∙ ap (λ a. a + i) (sym at);
      reachable = omega (arith, at, k.in_range z.addr w.mapped);
    }

length-zeros : (n : ℕ) → length (zeros n) ≡ n
length-zeros zero = refl
length-zeros (suc n) = ap suc (length-zeros n)

-- Two blocks cleared one after the other read as zeros, if they do not meet.
cleared_lem :
    (a b n : ℕ) (mem : Mem)
    → Apart n a b
    → (read_bytes (clear b n (clear a n mem)) a n ≡ zeros n)
      × (read_bytes (clear b n (clear a n mem)) b n ≡ zeros n)
cleared_lem a b n mem h = (
  read-write_apart (clear a n mem) b (zeros n) a n (ground (arith, length-zeros n))
      ∙ read-write_self mem a (zeros n) n (sym (length-zeros n)),
  read-write_self (clear a n mem) b (zeros n) n (sym (length-zeros n)),
)

-- Where a buffer is.
deref_lem :
    (s : Zones) (e : ReserveCalls) (size : ℕ) (b : Pointer) (i : ℕ)
    → IsBuffer s e size b i
    → deref s b ≡ some (s.mz i)
unfolding deref
deref_lem s e size b i h = ap (deref s) h.is_element

module _ (phys : ℕ → ℕ) (c : StartCalls) (n p : ℕ) (zones : Zones) (mem : Mem) (r : Running)
    (some_entries : 0 < n) (some_bytes : 0 < p) (short : p ≤ 4096) (fits : n * p ≤ huge_page_size)
    (kernel : KernelMaps phys c) (goes_on : main c (n * p) zones mem ≡ running r) where
  -- If `main` goes on to start its threads, its two buffers are as the worker and the firmware need
  -- them, for `n` packets of `p` bytes that fit in a huge page, and hold zeros.
  pub main-IsSetup :
      IsSetup (setup_of phys p (n * p) r) n p
      × (read_bytes r.mem (setup_of phys p (n * p) r).buffer_rx.addr (n * p) ≡ zeros (n * p))
      × (read_bytes r.mem (setup_of phys p (n * p) r).buffer_tx.addr (n * p) ≡ zeros (n * p))
  main-IsSetup =
      let h = main-HasBuffers c (n * p) zones mem r goes_on in
      let rx = r.zones.mz h.i in
      let tx = r.zones.mz h.j in
      let (virtual, physical) = kernel.apart rx.addr tx.addr h.rx.calls.mapped h.tx.calls.mapped in
      let at_rx = iova_lem phys c.reserve_rx rx.addr rx.iova kernel.rx h.rx.calls in
      let at_tx = iova_lem phys c.reserve_tx tx.addr tx.iova kernel.tx h.tx.calls in
      let (zeros_rx, zeros_tx) = zeroed rx.addr tx.addr h.cleared (ground (arith, virtual)) in
      rw
        (
          deref_lem r.zones c.reserve_rx (n * p) r.buffer_rx h.i h.rx,
          deref_lem r.zones c.reserve_tx (n * p) r.buffer_tx h.j h.tx,
        )
        (
          record {
            some_entries = some_entries;
            some_bytes = some_bytes;
            short = short;
            fits = omega arith;
            packet_eq = refl;
            ring_eq = refl;
            zone_rx = buffer-IsContiguous phys c.reserve_rx rx (n * p) kernel.rx h.rx.calls fits;
            zone_tx = buffer-IsContiguous phys c.reserve_tx tx (n * p) kernel.tx h.tx.calls fits;
            zones_apart = ground (arith, physical, at_rx, at_tx);
          },
          zeros_rx,
          zeros_tx,
        )
    where
      zeroed :
          (a b : ℕ)
          → r.mem ≡ clear b (n * p) (clear a (n * p) mem)
          → Apart (n * p) a b
          → (read_bytes r.mem a (n * p) ≡ zeros (n * p))
            × (read_bytes r.mem b (n * p) ≡ zeros (n * p))
      zeroed a b e h =
          subst
            (λ m.
              (read_bytes m a (n * p) ≡ zeros (n * p)) × (read_bytes m b (n * p) ≡ zeros (n * p)))
            (sym e) (cleared_lem a b (n * p) mem h)
