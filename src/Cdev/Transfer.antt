-- ===== src/Cdev/Transfer.antt =====
-- Reads of the card's memory for a client: `nfp_cpp_dev_read` of user/nfpcore/nfp_cpp_dev_ops.c, up
-- to what it sends back. The library's areas are a parameter.
pub mod Aligned
pub mod Windows
pub mod Lengths
use nfp_udp_echo.Base.{
  ℕ, zero, suc, ◌+◌, ◌-◌, ◌*◌, ◌/◌, ◌%◌, ◌^◌, Bool, not, Option, none, some, List, [], ◌++◌, ltb,
  ◌==◌, if◌then◌else◌,
}
use nfp_udp_echo.Base.Words.{u32, u64}

-- `NFP_CPP_MEMIO_BOUNDARY`
abbrev pub memio_boundary : ℕ
memio_boundary = 2 ^ 20

-- `sizeof(tmpbuf)`
abbrev pub tmpbuf_bytes : ℕ
tmpbuf_bytes = 64

-- The library's calls on an area, which is named by its CPP ID, offset and size: whether it can be
-- allocated and acquired, and the bytes read from it at a position.
pub record Library : Type 0 where
  pub area_alloc : ℕ → ℕ → ℕ → Bool
  pub area_acquire : ℕ → ℕ → ℕ → Bool
  pub area_read : ℕ → ℕ → ℕ → ℕ → Option (List ℕ)

-- `cpp_id = (offset >> 40) << 8`, a `uint32_t`
abbrev pub cpp_id_of : ℕ → ℕ
cpp_id_of offset = offset / 2 ^ 40 * 2 ^ 8 % 2 ^ 32

-- `offset & ((1ull << 40) - 1)`
abbrev pub nfp_offset_of : ℕ → ℕ
nfp_offset_of offset = offset % 2 ^ 40

-- `len` and `pos` are `uint32_t`.
abbrev pub piece_len : ℕ → ℕ → ℕ
piece_len curlen pos =
    let len = u32 (curlen - pos) in if ltb tmpbuf_bytes len then tmpbuf_bytes else len

-- The length of the first area, with the sum of `off_t` as a word of 64 bits: up to the boundary if the bytes cross one, or all of them.
abbrev pub first_len : ℕ → ℕ → ℕ
first_len nfp_offset count =
    if u64 (nfp_offset + count + (2 ^ 64 - 1)) / memio_boundary == nfp_offset / memio_boundary
    then count
    else memio_boundary - nfp_offset % memio_boundary

abbrev pub next_len : ℕ → ℕ
next_len count = if ltb memio_boundary count then memio_boundary else count

-- What a loop comes to: it is still reading after the rounds allowed, a call of the library has
-- failed, or the bytes.
pub data Fetched : Type 0 where
  still_reading : Fetched
  refused : Fetched
  fetched : List ℕ → Fetched

-- The result of a loop that goes on with `rest` after it has read `bytes`.
abbrev pub then_read : List ℕ → Fetched → Fetched
then_read bytes still_reading = still_reading
then_read bytes refused = refused
then_read bytes (fetched rest) = fetched (bytes ++ rest)

module _ (lib : Library) (cpp_id : ℕ) where
  -- The loop over the pieces of one area, from `pos` on.
  unfoldable pub read_pieces : ℕ → ℕ → ℕ → ℕ → Fetched
  read_pieces zero nfp_offset curlen pos = still_reading
  read_pieces (suc fuel) nfp_offset curlen pos =
      let len = piece_len curlen pos in
      let rest = read_pieces fuel nfp_offset curlen (u32 (pos + len)) in
      if ltb pos curlen
      then elim (lib.area_read cpp_id nfp_offset pos len) [
        | none ↦ refused
        | some bytes ↦ then_read bytes rest
      ]
      else fetched []

  -- The loop over the areas.
  unfoldable pub read_areas : ℕ → ℕ → ℕ → ℕ → Fetched
  unfolding read_pieces
  read_areas zero nfp_offset curlen count = still_reading
  read_areas (suc fuel) nfp_offset curlen count =
      let rest =
        read_areas fuel (nfp_offset + curlen) (next_len (count - curlen)) (count - curlen) in
      if not (ltb 0 count)
      then fetched []
      else if not (lib.area_alloc cpp_id nfp_offset curlen)
      then refused
      else if not (lib.area_acquire cpp_id nfp_offset curlen)
      then refused
      else elim (read_pieces (curlen + 1) nfp_offset curlen 0) [
        | still_reading ↦ still_reading
        | refused ↦ refused
        | fetched bytes ↦ then_read bytes rest
      ]

-- The bytes sent after their number; after a call that has failed an error number is sent instead.
unfoldable pub nfp_cpp_dev_read : Library → ℕ → ℕ → Fetched
unfolding read_areas
nfp_cpp_dev_read lib count offset =
    read_areas lib (cpp_id_of offset) (count + 1) (nfp_offset_of offset)
      (first_len (nfp_offset_of offset) count) count
