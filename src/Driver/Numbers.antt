-- ===== src/Driver/Numbers.antt =====
-- What user/lib/driver.c uses of the C library's numbers: strtoul (and strtoull, the same function
-- where `long` has 64 bits), and snprintf's %x with a precision.
pub mod Hex
use nfp_udp_echo.Base.{
  ℕ, zero, suc, ◌+◌, ◌-◌, ◌*◌, ◌/◌, ◌%◌, ◌^◌, ◌<◌, ◌≤◌, ◌≡◌, ◌≢◌, refl, sym, ap, ap₂, ◌∙◌, Bool,
  true, false, ◌||◌, ◌&&◌, List, [], ◌∷◌, ◌++◌, ltb, leb, ◌==◌, if◌then◌else◌, arith,
}

-- The value, and what follows the number: `*endptr`. `erange` says that `errno` is set.
pub record Number : Type 0 where
  pub value : ℕ
  pub endptr : List ℕ
  pub erange : Bool

-- A digit's value; 36, too much for any base, for another character.
unfoldable pub digit : ℕ → ℕ
digit c =
    if leb b'0' c && leb c b'9'
    then c - b'0'
    else if leb b'a' c && leb c b'z'
    then c - b'a' + 10
    else if leb b'A' c && leb c b'Z'
    then c - b'A' + 10
    else 36

unfoldable pub is_space : ℕ → Bool
is_space c = c == b' ' || (leb 9 c && leb c 13)

unfoldable pub skip_spaces : List ℕ → List ℕ
unfolding is_space
skip_spaces [] = []
skip_spaces (c ∷ s) = if is_space c then skip_spaces s else c ∷ s

-- The value of the digits at the front, after those that gave `acc`, and the rest.
unfoldable pub digits : ℕ → ℕ → List ℕ → ℕ × List ℕ
unfolding digit
digits base acc [] = (acc, [])
digits base acc (c ∷ s) =
    let more = digits base (acc * base + digit c) s in
    if ltb (digit c) base then more else (acc, c ∷ s)

abbrev pub starts : ℕ → List ℕ → Bool
unfolding digit
starts base [] = false
starts base (c ∷ s) = ltb (digit c) base

-- "0x" with a digit behind it, in base 16 or where the text says the base.
unfoldable pub has_prefix : ℕ → List ℕ → Bool
has_prefix base (z ∷ x ∷ s) =
    (base == 16 || base == 0) && (z == b'0' && ((x == b'x' || x == b'X') && starts 16 s))
has_prefix base s = false

abbrev pub drop_prefix : List ℕ → List ℕ
drop_prefix (z ∷ x ∷ s) = s
drop_prefix s = s

-- The base that base 0 stands for, without the prefix.
unfoldable pub base_of : ℕ → List ℕ → ℕ
base_of zero (c ∷ s) = if c == b'0' then 8 else 10
base_of zero [] = 10
base_of (suc b) s = suc b

-- The digits after the sign; `whole` is the text where there are none.
unfoldable pub unsigned : List ℕ → Bool → ℕ → List ℕ → Number
unfolding digits has_prefix base_of
unsigned whole negative base s =
    let prefix = has_prefix base s in
    let b = if prefix then 16 else base_of base s in
    let t = if prefix then drop_prefix s else s in
    let r = digits b 0 t in
    if starts b t
    then if ltb r.0 (2 ^ 64)
      then record {
        value = if negative then (2 ^ 64 - r.0) % 2 ^ 64 else r.0;
        endptr = r.1;
        erange = false;
      }
      else record { value = 2 ^ 64 - 1; endptr = r.1; erange = true }
    else record { value = 0; endptr = whole; erange = false }

unfoldable pub signed : List ℕ → ℕ → List ℕ → Number
unfolding unsigned
signed whole base [] = unsigned whole false base []
signed whole base (c ∷ s) =
    if c == b'-'
    then unsigned whole true base s
    else if c == b'+'
    then unsigned whole false base s
    else unsigned whole false base (c ∷ s)

unfoldable pub strtoul : List ℕ → ℕ → Number
unfolding signed skip_spaces
strtoul s base = signed s base (skip_spaces s)

-- A hexadecimal digit as %x prints it.
unfoldable pub hex_digit : ℕ → ℕ
hex_digit d = if ltb d 10 then b'0' + d else b'a' + (d - 10)

-- The last `n` hexadecimal digits of `v`, before `s`.
unfoldable pub hex_digits : ℕ → ℕ → List ℕ → List ℕ
unfolding hex_digit
hex_digits zero v s = s
hex_digits (suc n) v s = hex_digits n (v / 16) (hex_digit (v % 16) ∷ s)

-- How many digits `v` has, `fuel` at most.
unfoldable pub hex_length : ℕ → ℕ → ℕ
hex_length zero v = 0
hex_length (suc fuel) v = let rest = hex_length fuel (v / 16) in if v == 0 then 0 else suc rest

-- %.<precision>x of a number of 32 bits, before `s`.
unfoldable pub print_hex : ℕ → ℕ → List ℕ → List ℕ
unfolding hex_digits hex_length
print_hex precision v s =
    let n = hex_length 8 v in hex_digits (if ltb precision n then n else precision) v s
