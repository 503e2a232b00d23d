-- ===== src/Cdev/Transfer/Lengths.antt =====
-- user/nfpcore/nfp_cpp_dev_ops.c: a read comes to an end, and gives no more bytes than it is
-- asked for.
use nfp_udp_echo.Base.{
  ℕ, zero, suc, ◌+◌, ◌-◌, ◌^◌, ◌<◌, ◌≤◌, ◌≡◌, refl, true, Bool, false, not, Option, none, some,
  List, [], length, length-append, ltb, arith, on_if,
}
use nfp_udp_echo.Base.Words.{u32}
use nfp_udp_echo.Cdev.Transfer.{
  Library, Fetched, still_reading, refused, fetched, cpp_id_of, nfp_offset_of, piece_len, first_len,
  next_len, then_read, read_pieces, read_areas, nfp_cpp_dev_read,
}

-- What is read of an area is no more than what is asked for.
abbrev pub ReadsAsked : Library → Type 0
ReadsAsked lib =
    (id offset pos len : ℕ) (bytes : List ℕ)
    → lib.area_read id offset pos len ≡ some bytes
    → length bytes ≤ len

-- No area of 2 ^ 32 bytes or more can be acquired.
abbrev pub AcquiresSmall : (ℕ → ℕ → ℕ → Bool) → Type 0
AcquiresSmall acquire = (id offset size : ℕ) → acquire id offset size ≡ true → size < 2 ^ 32

-- A loop that has come to an end, with at most `n` bytes.
abbrev pub AtMost : ℕ → Fetched → Type 0
AtMost n still_reading = ⊥
AtMost n refused = Unit
AtMost n (fetched bytes) = length bytes ≤ n

then-AtMost :
    (a b n : ℕ) (bytes : List ℕ) (rest : Fetched)
    → length bytes ≤ a
    → AtMost b rest
    → a + b ≤ n
    → AtMost n (then_read bytes rest)
then-AtMost a b n bytes still_reading l r h = r
then-AtMost a b n bytes refused l r h = tt
then-AtMost a b n bytes (fetched rest) l r h = omega (arith, length-append bytes rest)

-- A piece read, and what follows it.
piece-AtMost :
    (o : Option (List ℕ)) (a b n : ℕ) (rest : Fetched)
    → ((bytes : List ℕ) → o ≡ some bytes → length bytes ≤ a)
    → AtMost b rest
    → a + b ≤ n
    → AtMost n (elim o [ none ↦ refused | some bytes ↦ then_read bytes rest ])
piece-AtMost none a b n rest l r h = tt
piece-AtMost (some bytes) a b n rest l r h = then-AtMost a b n bytes rest (l bytes refl) r h

-- An area read, and what follows it.
area-AtMost :
    (f : Fetched) (a b n : ℕ) (rest : Fetched)
    → AtMost a f
    → AtMost b rest
    → a + b ≤ n
    → AtMost n (elim f [
      | still_reading ↦ still_reading
      | refused ↦ refused
      | fetched bytes ↦ then_read bytes rest
    ])
area-AtMost still_reading a b n rest l r h = l
area-AtMost refused a b n rest l r h = tt
area-AtMost (fetched bytes) a b n rest l r h = then-AtMost a b n bytes rest l r h

pub was_true : (b : Bool) → not b ≡ false → b ≡ true
was_true b h = ground arith

module _ (lib : Library) (asked : ReadsAsked lib) (small : AcquiresSmall lib.area_acquire)
    (id : ℕ) where
  pieces-AtMost :
      (fuel offset curlen pos : ℕ)
      → curlen < fuel + pos
      → pos ≤ curlen
      → curlen < 2 ^ 32
      → AtMost (curlen - pos) (read_pieces lib id fuel offset curlen pos)
  unfolding read_pieces
  pieces-AtMost zero offset curlen pos h l g = absurd (omega arith)
  pieces-AtMost (suc fuel) offset curlen pos h l g =
      let len = piece_len curlen pos in
      on_if (AtMost (curlen - pos)) (ltb pos curlen) _ (fetched [])
        (λ q.
          piece-AtMost (lib.area_read id offset pos len) len (curlen - u32 (pos + len))
            (curlen - pos) _ (λ bytes. asked id offset pos len bytes)
            (pieces-AtMost fuel offset curlen (u32 (pos + len)) (ground (arith, q))
              (ground (arith, q)) g)
            (ground (arith, q)))
        (λ _. omega arith)

  areas-AtMost :
      (fuel offset curlen count : ℕ)
      → count < fuel
      → (0 < count → (0 < curlen) × (curlen ≤ count))
      → AtMost count (read_areas lib id fuel offset curlen count)
  unfolding read_areas
  areas-AtMost zero offset curlen count f h = absurd (omega arith)
  areas-AtMost (suc fuel) offset curlen count f h =
      on_if (AtMost count) (not (ltb 0 count)) (fetched []) _ (λ _. omega arith)
        (λ q.
          let (moves, fits) = h (ground (arith, q)) in
          on_if (AtMost count) (not (lib.area_alloc id offset curlen)) refused _ (λ _. tt)
            (λ _.
              on_if (AtMost count) (not (lib.area_acquire id offset curlen)) refused _ (λ _. tt)
                (λ acquired.
                  area-AtMost (read_pieces lib id (curlen + 1) offset curlen 0) (curlen - 0)
                    (count - curlen) count _
                    (pieces-AtMost (curlen + 1) offset curlen 0 (omega arith) (omega arith)
                      (small id offset curlen (was_true _ acquired)))
                    (areas-AtMost fuel (offset + curlen) (next_len (count - curlen))
                      (count - curlen) (omega arith) (λ p. ground arith))
                    (omega arith))))

first_moves :
    (o count : ℕ)
    → o < 2 ^ 40
    → count < 2 ^ 64
    → 0 < count
    → (0 < first_len o count) × (first_len o count ≤ count)
first_moves o count l h p = ground arith

-- A read of any count ends, with no more bytes than the count.
pub read-AtMost :
    (lib : Library) (count offset : ℕ)
    → ReadsAsked lib
    → AcquiresSmall lib.area_acquire
    → count < 2 ^ 64
    → AtMost count (nfp_cpp_dev_read lib count offset)
unfolding nfp_cpp_dev_read
read-AtMost lib count offset asked small h =
    areas-AtMost lib asked small (cpp_id_of offset) (count + 1) (nfp_offset_of offset)
      (first_len (nfp_offset_of offset) count) count (omega arith)
      (first_moves (nfp_offset_of offset) count (omega arith) h)
