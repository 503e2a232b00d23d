-- ===== src/Tests/Transfer.antt =====
-- A card that serves just the areas inside one window of 1 MiB and refuses what is not aligned to 4
-- bytes, and a read that crosses two windows.
use nfp_udp_echo.Base.{
  ℕ, ◌+◌, ◌-◌, ◌/◌, ◌%◌, ◌≡◌, false, Option, some, none, List, ◌==◌, leb, ◌&&◌, arith, refl, ap,
  length, Bool, ◌*◌, ◌^◌, if◌then◌else◌,
}
use nfp_udp_echo.Base.Memory.{Mem, read_bytes, length-read_bytes}
use nfp_udp_echo.Driver.{then-eq-some}
use nfp_udp_echo.Cdev.Transfer.{Library, fetched, memio_boundary, nfp_cpp_dev_read}
use nfp_udp_echo.Cdev.Transfer.Lengths.{ReadsAsked, AcquiresSmall}
use nfp_udp_echo.Cdev.Transfer.Windows.{IsCard, nfp_cpp_dev_read_lem}

abbrev pub target : ℕ → Mem
target id a = a + id

abbrev served : ℕ → ℕ → ℕ → Bool
served id offset size =
    (offset % 4 == 0)
    && ((size % 4 == 0)
        && (leb (offset + size) (2 ^ 40)
            && (offset / memio_boundary == (offset + size - 1) / memio_boundary)))

abbrev word_read : ℕ → ℕ → ℕ → ℕ → Option (List ℕ)
word_read id offset pos len =
    if ((offset + pos) % 4 == 0) && (len % 4 == 0)
    then some (read_bytes (target id) (offset + pos) len)
    else none

abbrev pub library : Library
library = record { area_alloc = served; area_acquire = served; area_read = word_read }

pub library-IsCard : (id : ℕ) → IsCard library id false (target id)
library-IsCard id = record {
  allocated = λ o n h a b t q. ground arith;
  acquired = λ o n h a b t q. ground arith;
  bytes_read = λ o n p k al aq l a b c h. ground arith;
}

pub library-small : AcquiresSmall (library.area_acquire)
library-small id o n e = ground arith

pub library-ReadsAsked : ReadsAsked library
library-ReadsAsked id o p n got e =
    let (_, q) = then-eq-some (((o + p) % 4 == 0) && (n % 4 == 0)) e in
    omega (arith, length-read_bytes (target id) (o + p) n, ap length q)

nfp_cpp_dev_read_lem_example :
    nfp_cpp_dev_read library 200 (3 * 2 ^ 40 + 2 ^ 20 - 100)
    ≡ fetched (read_bytes (target 0x300) (2 ^ 20 - 100) 200)
nfp_cpp_dev_read_lem_example =
    nfp_cpp_dev_read_lem library false (target 0x300) 200 (3 * 2 ^ 40 + 2 ^ 20 - 100)
      (library-IsCard 0x300) refl refl (omega arith)
