-- ===== src/Cdev/Write.antt =====
-- Writes of the card's memory for a client: `nfp_cpp_dev_write` of user/nfpcore/nfp_cpp_dev_ops.c,
-- from the bytes that it has received to the result that it sends back.
pub mod Piecewise
pub mod Ends
use nfp_udp_echo.Base.{
  ℕ, zero, suc, ◌+◌, ◌-◌, Bool, true, false, not, List, take, drop, ltb, if◌then◌else◌,
}
use nfp_udp_echo.Base.Memory.{Mem}
use nfp_udp_echo.Base.Words.{u32}
use nfp_udp_echo.Cdev.Transfer.{cpp_id_of, nfp_offset_of, piece_len, next_len}

-- The library's calls on an area, named by its CPP ID, offset and size; a write at a position tells
-- whether it succeeds, and what the target's memory is then.
pub record WriteLibrary : Type 0 where
  pub alloc_for_write : ℕ → ℕ → ℕ → Bool
  pub acquire_for_write : ℕ → ℕ → ℕ → Bool
  pub area_write : ℕ → ℕ → ℕ → List ℕ → Mem → Bool × Mem

-- What a loop comes to: it is still writing after the rounds allowed, or whether all calls of the
-- library have succeeded, and the memory.
pub data Stored : Type 0 where
  still_writing : Stored
  stored : Bool → Mem → Stored

module _ (lib : WriteLibrary) (cpp_id : ℕ) where
  -- The loop over the pieces of one area, from `pos` on; `buf` is what is left to write.
  unfoldable pub write_pieces : ℕ → ℕ → ℕ → ℕ → List ℕ → Mem → Stored
  write_pieces zero nfp_offset curlen pos buf m = still_writing
  write_pieces (suc fuel) nfp_offset curlen pos buf m =
      let len = piece_len curlen pos in
      let one = lib.area_write cpp_id nfp_offset pos (take len buf) m in
      let rest = write_pieces fuel nfp_offset curlen (u32 (pos + len)) (drop len buf) one.1 in
      if ltb pos curlen then (if one.0 then rest else stored false one.1) else stored true m

  -- The loop over the areas.
  unfoldable pub write_areas : ℕ → ℕ → ℕ → ℕ → List ℕ → Mem → Stored
  unfolding write_pieces
  write_areas zero nfp_offset curlen count buf m = still_writing
  write_areas (suc fuel) nfp_offset curlen count buf m =
      if not (ltb 0 count)
      then stored true m
      else if not (lib.alloc_for_write cpp_id nfp_offset curlen)
      then stored false m
      else if not (lib.acquire_for_write cpp_id nfp_offset curlen)
      then stored false m
      else elim (write_pieces (curlen + 1) nfp_offset curlen 0 buf m) [
        | still_writing ↦ still_writing
        | stored ok m' ↦
            let rest =
              write_areas fuel (nfp_offset + curlen) (next_len (count - curlen)) (count - curlen)
                (drop curlen buf) m' in
            if ok then rest else stored false m'
      ]

-- The first area is as long as the data: `curlen = count`. The result tells whether the number of
-- bytes is sent back or an error.
unfoldable pub nfp_cpp_dev_write : WriteLibrary → ℕ → ℕ → List ℕ → Mem → Stored
unfolding write_areas
nfp_cpp_dev_write lib count offset buf m =
    write_areas lib (cpp_id_of offset) (count + 1) (nfp_offset_of offset) count count buf m
