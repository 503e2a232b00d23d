-- ===== src/Cdev/Transfer/Windows.antt =====
-- A client's read is served from areas that each lie in one window of 1 MiB:
-- user/nfpcore/nfp_cpp_dev_ops.c.
use nfp_udp_echo.Base.{
  ℕ, zero, suc, ◌+◌, ◌-◌, ◌/◌, ◌%◌, ◌^◌, ◌≤◌, ◌<◌, ◌≡◌, sym, ap, ◌∙◌, Bool, true, some, [], ◌++◌,
  arith, dec_lt, lt→ltb, ltb-false,
}
use nfp_udp_echo.Base.Memory.{Mem, read_bytes, read_bytes_add}
use nfp_udp_echo.Base.Words.{u32}
use nfp_udp_echo.Cdev.Transfer.{
  Library, fetched, memio_boundary, tmpbuf_bytes, cpp_id_of, nfp_offset_of, then_read, piece_len,
  first_len, next_len, read_pieces, read_areas, nfp_cpp_dev_read,
}
use nfp_udp_echo.Cdev.Transfer.Aligned.{
  Aligned, zero-Aligned, add-Aligned, sub-Aligned, offset-Aligned, piece-Aligned, pos-Aligned,
  next-Aligned, first-Aligned,
}

-- What the daemon needs of the library, for the target `id` that holds `m` and whose words are wide
-- or not: an aligned area inside one window of 1 MiB, whose end has at most 40 bits, can be had, and
-- reading an aligned piece of 64 bytes or less inside an area that has been acquired gives the
-- target's bytes.
pub record IsCard (lib : Library) (id : ℕ) (wide : Bool) (m : Mem) : Type 0 where
  pub allocated :
      (offset size : ℕ)
      → 0 < size
      → Aligned wide offset
      → Aligned wide size
      → offset + size ≤ 2 ^ 40
      → offset / memio_boundary ≡ (offset + size - 1) / memio_boundary
      → lib.area_alloc id offset size ≡ true
  pub acquired :
      (offset size : ℕ)
      → 0 < size
      → Aligned wide offset
      → Aligned wide size
      → offset + size ≤ 2 ^ 40
      → offset / memio_boundary ≡ (offset + size - 1) / memio_boundary
      → lib.area_acquire id offset size ≡ true
  pub bytes_read :
      (offset size pos len : ℕ)
      → lib.area_alloc id offset size ≡ true
      → lib.area_acquire id offset size ≡ true
      → pos + len ≤ size
      → Aligned wide offset
      → Aligned wide pos
      → Aligned wide len
      → len ≤ tmpbuf_bytes
      → lib.area_read id offset pos len ≡ some (read_bytes m (offset + pos) len)

join :
    (m : Mem) (a k b n total : ℕ)
    → total ≡ k + n
    → b ≡ a + k
    → then_read (read_bytes m a k) (fetched (read_bytes m b n)) ≡ fetched (read_bytes m a total)
join m a k b n total e f = ap fetched (
    ap (λ x. read_bytes m a k ++ read_bytes m x n) f
    ∙ sym (read_bytes_add m a k n)
    ∙ ap (read_bytes m a) (sym e))

nothing : (m : Mem) (a k : ℕ) → k ≡ 0 → fetched [] ≡ fetched (read_bytes m a k)
unfolding read_bytes
nothing m a k e = ap (λ j. fetched (read_bytes m a j)) {x = 0} {y = k} (sym e)

window_next :
    (offset curlen count : ℕ)
    → (offset + curlen) % memio_boundary ≡ 0
    → 0 < count - curlen
    → (offset + curlen) / memio_boundary
      ≡ (offset + curlen + next_len (count - curlen) - 1) / memio_boundary
window_next offset curlen count b h = ground arith

module _ (lib : Library) (id : ℕ) (wide : Bool) (m : Mem) (ok : IsCard lib id wide m) where
  pieces_lem :
      (fuel offset curlen pos : ℕ)
      → curlen < fuel + pos
      → pos ≤ curlen
      → curlen < 2 ^ 32
      → Aligned wide offset
      → Aligned wide curlen
      → Aligned wide pos
      → lib.area_alloc id offset curlen ≡ true
      → lib.area_acquire id offset curlen ≡ true
      → read_pieces lib id fuel offset curlen pos
        ≡ fetched (read_bytes m (offset + pos) (curlen - pos))
  unfolding read_pieces
  pieces_lem zero offset curlen pos h l g ao ac ap' al aq = absurd (omega arith)
  pieces_lem (suc fuel) offset curlen pos h l g ao ac ap' al aq = elim (dec_lt pos curlen) [
    | yes q ↦
        let len = piece_len curlen pos in
        rw
          (
            lt→ltb pos curlen q,
            ok.bytes_read offset curlen pos len al aq (ground arith) ao ap'
                (piece-Aligned wide curlen pos ac ap') (ground arith),
          )
          (ap (then_read (read_bytes m (offset + pos) len)) (
              pieces_lem fuel offset curlen (u32 (pos + len)) (ground arith) (ground arith) g ao ac
                (pos-Aligned wide curlen pos ac ap') al aq)
            ∙ join m (offset + pos) len (offset + u32 (pos + len)) _ _ (ground arith)
                (ground arith))
    | no q ↦
        rw (ltb-false pos curlen (omega arith))
          (nothing m (offset + pos) (curlen - pos) (omega arith))
  ]

  areas_lem :
      (fuel offset curlen count : ℕ)
      → count < fuel
      → (0 < count → (0 < curlen) × (curlen ≤ memio_boundary) × (curlen ≤ count))
      → (0 < count → offset / memio_boundary ≡ (offset + curlen - 1) / memio_boundary)
      → (curlen < count → (offset + curlen) % memio_boundary ≡ 0)
      → Aligned wide offset
      → Aligned wide curlen
      → Aligned wide count
      → offset + count ≤ 2 ^ 40
      → read_areas lib id fuel offset curlen count ≡ fetched (read_bytes m offset count)
  unfolding read_areas
  areas_lem zero offset curlen count h z w b ao al ac t = absurd (omega arith)
  areas_lem (suc fuel) offset curlen count h z w b ao al ac t = elim (dec_lt 0 count) [
    | yes q ↦
        let (some_left, window, fits) = z q in
        let inside : offset + curlen ≤ 2 ^ 40 = omega arith in
        let alloc = ok.allocated offset curlen some_left ao al inside (w q) in
        let acquire = ok.acquired offset curlen some_left ao al inside (w q) in
        rw
          (
            lt→ltb 0 count q,
            alloc,
            acquire,
            pieces_lem (curlen + 1) offset curlen 0 (omega arith) (omega arith) (omega arith) ao al
                (zero-Aligned wide) alloc acquire,
          )
          (ap (then_read (read_bytes m (offset + 0) (curlen - 0))) (
              areas_lem fuel (offset + curlen) (next_len (count - curlen)) (count - curlen)
                (omega arith) (λ g. ground arith)
                (λ g. window_next offset curlen count (b (omega arith)) g) (λ g. ground (arith, b))
                (add-Aligned wide offset curlen ao al)
                (next-Aligned wide (count - curlen) (sub-Aligned wide count curlen ac al))
                (sub-Aligned wide count curlen ac al) (omega arith))
            ∙ join m (offset + 0) (curlen - 0) (offset + curlen) (count - curlen) count
                (omega arith) (omega arith)
            ∙ ap (λ a. fetched (read_bytes m a count)) {x = offset + 0} {y = offset} (omega arith))
    | no q ↦ rw (ltb-false 0 count (omega arith)) (nothing m offset count (omega arith))
  ]

first_fits :
    (o count : ℕ)
    → o + count ≤ 2 ^ 40
    → 0 < count
    → (0 < first_len o count) × (first_len o count ≤ memio_boundary) × (first_len o count ≤ count)
first_fits o count t h = ground arith

first_window :
    (o count : ℕ)
    → o + count ≤ 2 ^ 40
    → 0 < count
    → o / memio_boundary ≡ (o + first_len o count - 1) / memio_boundary
first_window o count t h = ground arith

first_end :
    (o count : ℕ)
    → o + count ≤ 2 ^ 40
    → first_len o count < count
    → (o + first_len o count) % memio_boundary ≡ 0
first_end o count t h = ground arith

-- If the library serves aligned areas and pieces inside one window of 1 MiB, a read whose offset and
-- length are aligned to the target's words of 4 bytes (8 if it is wide), and whose end has at most 40
-- bits, gives exactly the bytes of the target at the offset, however many windows it crosses.
pub nfp_cpp_dev_read_lem :
    (lib : Library) (wide : Bool) (m : Mem) (count offset : ℕ)
    → IsCard lib (cpp_id_of offset) wide m
    → Aligned wide offset
    → Aligned wide count
    → nfp_offset_of offset + count ≤ 2 ^ 40
    → nfp_cpp_dev_read lib count offset ≡ fetched (read_bytes m (nfp_offset_of offset) count)
unfolding nfp_cpp_dev_read
nfp_cpp_dev_read_lem lib wide m count offset ok ao ac t =
    let o = nfp_offset_of offset in
    let o-aligned = offset-Aligned wide offset ao in
    areas_lem lib (cpp_id_of offset) wide m ok (count + 1) o (first_len o count) count (omega arith)
      (λ h. first_fits o count t h) (λ h. first_window o count t h) (λ h. first_end o count t h)
      o-aligned (first-Aligned wide o count o-aligned ac) ac t
