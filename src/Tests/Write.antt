-- ===== src/Tests/Write.antt =====
-- A card that gives any aligned area of at most 16 MiB and refuses what is not aligned to 4 bytes, and
-- a write of four bytes.
use nfp_udp_echo.Base.{
  ℕ, ◌+◌, ◌*◌, ◌%◌, ◌^◌, ◌≡◌, refl, true, false, Bool, List, [], ◌∷◌, length, leb, ◌&&◌, ◌==◌,
  arith, if◌then◌else◌,
}
use nfp_udp_echo.Base.Memory.{Mem, write_bytes}
use nfp_udp_echo.Cdev.Write.{WriteLibrary, stored, nfp_cpp_dev_write}
use nfp_udp_echo.Cdev.Transfer.Lengths.{AcquiresSmall}
use nfp_udp_echo.Cdev.Write.Piecewise.{Writes, nfp_cpp_dev_write_lem}

abbrev served : ℕ → ℕ → ℕ → Bool
served id offset size =
    (offset % 4 == 0) && ((size % 4 == 0) && (leb (offset + size) (2 ^ 40) && leb size (2 ^ 24)))

abbrev word_write : ℕ → ℕ → ℕ → List ℕ → Mem → Bool × Mem
word_write id offset pos bytes m =
    if ((offset + pos) % 4 == 0) && (length bytes % 4 == 0)
    then (true, write_bytes m (offset + pos) bytes)
    else (false, m)

abbrev pub library : WriteLibrary
library = record { alloc_for_write = served; acquire_for_write = served; area_write = word_write }

pub library-Writes : Writes library 0x300 false
library-Writes = record { written = λ offset n pos bytes m al aq l a b c h. ground arith }

pub library-small : AcquiresSmall library.acquire_for_write
library-small id o n e = ground arith

abbrev bytes : List ℕ
bytes = 7 ∷ 8 ∷ 9 ∷ 10 ∷ []

abbrev memory : Mem
memory = λ a. 0

nfp_cpp_dev_write_lem_example :
    nfp_cpp_dev_write library (length bytes) (3 * 2 ^ 40 + 8) bytes memory
    ≡ stored true (write_bytes memory 8 bytes)
nfp_cpp_dev_write_lem_example =
    nfp_cpp_dev_write_lem library false (3 * 2 ^ 40 + 8) bytes memory library-Writes refl refl
      (omega arith) refl refl
