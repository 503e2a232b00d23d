-- ===== src/Cdev/Write/Piecewise.antt =====
-- Writing in pieces of 64 bytes is writing all bytes at once: `nfp_cpp_dev_write` of
-- user/nfpcore/nfp_cpp_dev_ops.c.
use nfp_udp_echo.Base.{
  ℕ, zero, suc, ◌+◌, ◌-◌, ◌^◌, ◌≤◌, ◌<◌, ◌≡◌, refl, sym, subst, ap, ◌∙◌, Bool, true, List, [], ◌∷◌,
  ◌++◌, length, take, drop, arith, dec_lt, lt→ltb, ltb-false,
}
use nfp_udp_echo.Base.Memory.{Mem, write_bytes, write_bytes-append}
use nfp_udp_echo.Base.Words.{u32}
use nfp_udp_echo.Cdev.Transfer.{tmpbuf_bytes, cpp_id_of, nfp_offset_of, piece_len, next_len}
use nfp_udp_echo.Cdev.Transfer.Aligned.{
  Aligned, zero-Aligned, piece-Aligned, pos-Aligned, offset-Aligned,
}
use nfp_udp_echo.Cdev.Write.{
  WriteLibrary, Stored, stored, write_pieces, write_areas, nfp_cpp_dev_write,
}

-- A piece of at most 64 bytes inside an area of the target `id` that has been acquired is written, if
-- the area's offset, the position and the length are aligned to the target's words.
pub record Writes (lib : WriteLibrary) (id : ℕ) (wide : Bool) : Type 0 where
  pub written :
      (offset size pos : ℕ) (bytes : List ℕ) (m : Mem)
      → lib.alloc_for_write id offset size ≡ true
      → lib.acquire_for_write id offset size ≡ true
      → pos + length bytes ≤ size
      → Aligned wide offset
      → Aligned wide pos
      → Aligned wide (length bytes)
      → length bytes ≤ tmpbuf_bytes
      → lib.area_write id offset pos bytes m ≡ (true, write_bytes m (offset + pos) bytes)

take-drop : (k : ℕ) (xs : List ℕ) → take k xs ++ drop k xs ≡ xs
take-drop zero xs = refl
take-drop (suc k) [] = refl
take-drop (suc k) (x ∷ xs) = ap (◌∷◌ x) (take-drop k xs)

length-take : (k : ℕ) (xs : List ℕ) → k ≤ length xs → length (take k xs) ≡ k
length-take zero xs h = refl
length-take (suc k) [] h = absurd (omega arith)
length-take (suc k) (x ∷ xs) h = ap suc (length-take k xs (omega arith))

length-drop : (k : ℕ) (xs : List ℕ) → length (drop k xs) ≡ length xs - k
length-drop zero xs = omega arith
length-drop (suc k) [] = omega arith
length-drop (suc k) (x ∷ xs) = omega (arith, length-drop k xs)

abbrev done : Mem → Stored
done m = stored true m

joined :
    (m : Mem) (a b k : ℕ) (xs : List ℕ)
    → k ≤ length xs
    → b ≡ a + k
    → done (write_bytes (write_bytes m a (take k xs)) b (drop k xs)) ≡ done (write_bytes m a xs)
joined m a b k xs h e = ap done (
    ap (λ c. write_bytes (write_bytes m a (take k xs)) c (drop k xs)) {x = b}
      {y = a + length (take k xs)} (omega (arith, length-take k xs h))
    ∙ write_bytes-append m a (take k xs) (drop k xs)
    ∙ ap (write_bytes m a) (take-drop k xs))

nothing_left : (m : Mem) (a : ℕ) (xs : List ℕ) → length xs ≡ 0 → done m ≡ done (write_bytes m a xs)
unfolding write_bytes
nothing_left m a [] h = refl
nothing_left m a (x ∷ xs) h = absurd (omega arith)

module _ (lib : WriteLibrary) (id : ℕ) (wide : Bool) (ok : Writes lib id wide) where
  pieces_lem :
      (fuel offset curlen pos : ℕ) (buf : List ℕ) (m : Mem)
      → curlen < fuel + pos
      → pos ≤ curlen
      → curlen < 2 ^ 32
      → length buf ≡ curlen - pos
      → Aligned wide offset
      → Aligned wide curlen
      → Aligned wide pos
      → lib.alloc_for_write id offset curlen ≡ true
      → lib.acquire_for_write id offset curlen ≡ true
      → write_pieces lib id fuel offset curlen pos buf m ≡ done (write_bytes m (offset + pos) buf)
  unfolding write_pieces
  pieces_lem zero offset curlen pos buf m h l g e ao ac ap' al aq = absurd (omega arith)
  pieces_lem (suc fuel) offset curlen pos buf m h l g e ao ac ap' al aq = elim (dec_lt pos curlen) [
    | yes q ↦
        let k = piece_len curlen pos in
        let short : k ≤ length buf = ground arith in
        rw
          (
            lt→ltb pos curlen q,
            ok.written offset curlen pos (take k buf) m al aq
                (ground (arith, length-take k buf short)) ao ap'
                (subst (Aligned wide) (sym (length-take k buf short))
                  (piece-Aligned wide curlen pos ac ap'))
                (ground (arith, length-take k buf short)),
          )
          (pieces_lem fuel offset curlen (u32 (pos + k)) (drop k buf)
              (write_bytes m (offset + pos) (take k buf)) (ground arith) (ground arith) g
              (ground (arith, length-drop k buf)) ao ac (pos-Aligned wide curlen pos ac ap') al aq
            ∙ joined m (offset + pos) (offset + u32 (pos + k)) k buf short (ground arith))
    | no q ↦
        rw (ltb-false pos curlen (omega arith)) (nothing_left m (offset + pos) buf (omega arith))
  ]

finished :
    (lib : WriteLibrary) (id fuel offset curlen count : ℕ) (buf : List ℕ) (m : Mem)
    → 0 < fuel
    → count ≡ 0
    → write_areas lib id fuel offset curlen count buf m ≡ done m
unfolding write_areas
finished lib id zero offset curlen count buf m h e = absurd (omega arith)
finished lib id (suc fuel) offset curlen count buf m h e = rw (ltb-false 0 count (omega arith)) refl

one_area :
    (lib : WriteLibrary) (id : ℕ) (wide : Bool) (fuel offset count : ℕ) (buf : List ℕ) (m : Mem)
    → Writes lib id wide
    → Aligned wide offset
    → Aligned wide count
    → count ≤ fuel
    → count < 2 ^ 32
    → length buf ≡ count
    → lib.alloc_for_write id offset count ≡ true
    → lib.acquire_for_write id offset count ≡ true
    → write_areas lib id (suc fuel) offset count count buf m ≡ done (write_bytes m offset buf)
unfolding write_areas
one_area lib id wide fuel offset count buf m ok ao ac f g e a b = elim (dec_lt 0 count) [
  | yes q ↦
      rw
        (
          lt→ltb 0 count q,
          a,
          b,
          pieces_lem lib id wide ok (count + 1) offset count 0 buf m (omega arith) (omega arith) g
              (omega arith) ao ac (zero-Aligned wide) a b,
        )
        (finished lib id fuel (offset + count) (next_len (count - count)) (count - count)
            (drop count buf) (write_bytes m (offset + 0) buf) (omega arith) (omega arith)
          ∙ ap (λ o. done (write_bytes m o buf)) {x = offset + 0} {y = offset} (omega arith))
  | no q ↦ rw (ltb-false 0 count (omega arith)) (nothing_left m offset buf (omega arith))
]

-- If the library gives an area for the whole range and writes aligned pieces of 64 bytes, a write of
-- fewer than 2 ^ 32 bytes, whose offset and length are aligned to the target's words of 4 bytes (8 if
-- it is wide), succeeds and writes exactly these bytes.
pub nfp_cpp_dev_write_lem :
    (lib : WriteLibrary) (wide : Bool) (offset : ℕ) (buf : List ℕ) (m : Mem)
    → Writes lib (cpp_id_of offset) wide
    → Aligned wide offset
    → Aligned wide (length buf)
    → length buf < 2 ^ 32
    → lib.alloc_for_write (cpp_id_of offset) (nfp_offset_of offset) (length buf) ≡ true
    → lib.acquire_for_write (cpp_id_of offset) (nfp_offset_of offset) (length buf) ≡ true
    → nfp_cpp_dev_write lib (length buf) offset buf m
      ≡ stored true (write_bytes m (nfp_offset_of offset) buf)
unfolding nfp_cpp_dev_write
nfp_cpp_dev_write_lem lib wide offset buf m ok ao al g a b =
    ap
      (λ k.
        write_areas lib (cpp_id_of offset) k (nfp_offset_of offset) (length buf) (length buf) buf m)
      {x = length buf + 1} {y = suc (length buf)} (omega arith)
    ∙ one_area lib (cpp_id_of offset) wide (length buf) (nfp_offset_of offset) (length buf) buf m ok
        (offset-Aligned wide offset ao) al (omega arith) g refl a b
