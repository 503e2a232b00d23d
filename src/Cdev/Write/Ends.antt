-- ===== src/Cdev/Write/Ends.antt =====
-- user/nfpcore/nfp_cpp_dev_ops.c: a write comes to an end.
use nfp_udp_echo.Base.{
  ℕ, zero, suc, ◌+◌, ◌-◌, ◌^◌, ◌<◌, ◌≤◌, true, false, not, List, take, drop, ltb, arith, on_if,
  if◌then◌else◌,
}
use nfp_udp_echo.Base.Memory.{Mem}
use nfp_udp_echo.Base.Words.{u32}
use nfp_udp_echo.Cdev.Transfer.{cpp_id_of, nfp_offset_of, piece_len, next_len}
use nfp_udp_echo.Cdev.Transfer.Lengths.{AcquiresSmall, was_true}
use nfp_udp_echo.Cdev.Write.{
  WriteLibrary, Stored, still_writing, stored, write_pieces, write_areas, nfp_cpp_dev_write,
}

-- A loop that has come to an end.
abbrev pub Ended : Stored → Type 0
Ended still_writing = ⊥
Ended (stored ok m) = Unit

-- An area written, and what follows it.
area-Ended :
    (s : Stored) (rest : Mem → Stored)
    → Ended s
    → ((m : Mem) → Ended (rest m))
    → Ended (elim s [
      | still_writing ↦ still_writing
      | stored ok m ↦ if ok then rest m else stored false m
    ])
area-Ended still_writing rest h k = h
area-Ended (stored true m) rest h k = k m
area-Ended (stored false m) rest h k = tt

module _ (lib : WriteLibrary) (small : AcquiresSmall lib.acquire_for_write) (id : ℕ) where
  pieces-Ended :
      (fuel offset curlen pos : ℕ) (buf : List ℕ) (m : Mem)
      → curlen < fuel + pos
      → pos ≤ curlen
      → curlen < 2 ^ 32
      → Ended (write_pieces lib id fuel offset curlen pos buf m)
  unfolding write_pieces
  pieces-Ended zero offset curlen pos buf m h l g = absurd (omega arith)
  pieces-Ended (suc fuel) offset curlen pos buf m h l g =
      on_if Ended (ltb pos curlen) _ (stored true m)
        (λ q.
          on_if Ended ((lib.area_write id offset pos (take (piece_len curlen pos) buf) m).0) _ _
            (λ _.
              pieces-Ended fuel offset curlen (u32 (pos + piece_len curlen pos)) _ _
                (ground (arith, q)) (ground (arith, q)) g)
            (λ _. tt))
        (λ _. tt)

  areas-Ended :
      (fuel offset curlen count : ℕ) (buf : List ℕ) (m : Mem)
      → count < fuel
      → (0 < count → (0 < curlen) × (curlen ≤ count))
      → Ended (write_areas lib id fuel offset curlen count buf m)
  unfolding write_areas
  areas-Ended zero offset curlen count buf m f h = absurd (omega arith)
  areas-Ended (suc fuel) offset curlen count buf m f h =
      on_if Ended (not (ltb 0 count)) (stored true m) _ (λ _. tt)
        (λ q.
          let (moves, fits) = h (ground (arith, q)) in
          on_if Ended (not (lib.alloc_for_write id offset curlen)) (stored false m) _ (λ _. tt)
            (λ _.
              on_if Ended (not (lib.acquire_for_write id offset curlen)) (stored false m) _
                (λ _. tt)
                (λ acquired.
                  area-Ended (write_pieces lib id (curlen + 1) offset curlen 0 buf m) _
                    (pieces-Ended (curlen + 1) offset curlen 0 buf m (omega arith) (omega arith)
                      (small id offset curlen (was_true _ acquired)))
                    (λ m'.
                      areas-Ended fuel (offset + curlen) (next_len (count - curlen))
                        (count - curlen) (drop curlen buf) m' (omega arith) (λ p. ground arith)))))

pub write-Ended :
    (lib : WriteLibrary) (count offset : ℕ) (buf : List ℕ) (m : Mem)
    → AcquiresSmall lib.acquire_for_write
    → Ended (nfp_cpp_dev_write lib count offset buf m)
unfolding nfp_cpp_dev_write
write-Ended lib count offset buf m small =
    areas-Ended lib small (cpp_id_of offset) (count + 1) (nfp_offset_of offset) count count buf m
      (omega arith) (λ p. (p, omega arith))
