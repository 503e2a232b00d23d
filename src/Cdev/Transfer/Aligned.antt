-- ===== src/Cdev/Transfer/Aligned.antt =====
-- user/nfpcore/nfp_cpp_dev_ops.c: the offsets and lengths of the areas and the pieces are aligned to
-- the words of the target, if those of the whole transfer are.
use nfp_udp_echo.Base.{ℕ, ◌+◌, ◌-◌, ◌%◌, ◌≡◌, Bool, true, false, refl, arith}
use nfp_udp_echo.Base.Words.{u32}
use nfp_udp_echo.Cdev.Transfer.{nfp_offset_of, piece_len, first_len, next_len}

-- A target's words are 4 bytes, or 8 if it is wide.
abbrev pub Aligned : Bool → ℕ → Type 0
Aligned true a = a % 8 ≡ 0
Aligned false a = a % 4 ≡ 0

pub zero-Aligned : (wide : Bool) → Aligned wide 0
zero-Aligned true = refl
zero-Aligned false = refl

pub add-Aligned : (wide : Bool) (a b : ℕ) → Aligned wide a → Aligned wide b → Aligned wide (a + b)
add-Aligned true a b h k = omega arith
add-Aligned false a b h k = omega arith

pub sub-Aligned : (wide : Bool) (a b : ℕ) → Aligned wide a → Aligned wide b → Aligned wide (a - b)
sub-Aligned true a b h k = omega arith
sub-Aligned false a b h k = omega arith

pub offset-Aligned :
    (wide : Bool) (offset : ℕ) → Aligned wide offset → Aligned wide (nfp_offset_of offset)
offset-Aligned true offset h = omega arith
offset-Aligned false offset h = omega arith

pub piece-Aligned :
    (wide : Bool) (curlen pos : ℕ)
    → Aligned wide curlen
    → Aligned wide pos
    → Aligned wide (piece_len curlen pos)
piece-Aligned true curlen pos h k = ground arith
piece-Aligned false curlen pos h k = ground arith

pub pos-Aligned :
    (wide : Bool) (curlen pos : ℕ)
    → Aligned wide curlen
    → Aligned wide pos
    → Aligned wide (u32 (pos + piece_len curlen pos))
pos-Aligned true curlen pos h k = ground arith
pos-Aligned false curlen pos h k = ground arith

pub next-Aligned : (wide : Bool) (count : ℕ) → Aligned wide count → Aligned wide (next_len count)
next-Aligned true count h = ground arith
next-Aligned false count h = ground arith

pub first-Aligned :
    (wide : Bool) (o count : ℕ)
    → Aligned wide o
    → Aligned wide count
    → Aligned wide (first_len o count)
first-Aligned true o count h k = ground arith
first-Aligned false o count h k = ground arith
