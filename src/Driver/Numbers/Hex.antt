-- ===== src/Driver/Numbers/Hex.antt =====
-- What snprintf's %x prints is what strtoul reads in base 16.
use native.Mathlib.Nat.{pow-suc, pow-le-pow_right}
use nfp_udp_echo.Base.{
  ℕ, zero, suc, ◌+◌, ◌*◌, ◌/◌, ◌%◌, ◌^◌, ◌<◌, ◌≤◌, ◌≡◌, refl, sym, ap, ◌∙◌, true, false, List, [],
  ◌∷◌, ◌++◌, length, ltb, if◌then◌else◌, dec_lt, ℕ_discrete, subst, lt→ltb, ◌⊎◌, arith,
}
use nfp_udp_echo.Driver.Numbers.{
  digit, is_space, skip_spaces, digits, starts, has_prefix, base_of, unsigned, signed, strtoul,
  hex_digit, hex_digits, hex_length, print_hex,
}

-- Hexadecimal digits only.
abbrev pub IsHex : List ℕ → Type 0
IsHex [] = Unit
IsHex (c ∷ s) = (digit c < 16) × IsHex s

digit-hex_digit : (d : ℕ) → d < 16 → digit (hex_digit d) ≡ d
unfolding digit hex_digit
digit-hex_digit d h = ground arith

hex_digits-IsHex : (n v : ℕ) (s : List ℕ) → IsHex s → IsHex (hex_digits n v s)
unfolding hex_digits
hex_digits-IsHex zero v s h = h
hex_digits-IsHex (suc n) v s h =
    hex_digits-IsHex n (v / 16) _
      (let e = digit-hex_digit (v % 16) (omega arith) in omega (arith, e), h)

length-hex_digits : (n v : ℕ) (s : List ℕ) → length (hex_digits n v s) ≡ n + length s
unfolding hex_digits
length-hex_digits zero v s = omega arith
length-hex_digits (suc n) v s = omega (arith, length-hex_digits n (v / 16) (hex_digit (v % 16) ∷ s))

mul_pow : (a b c : ℕ) → a * b * c ≡ a * (b * c)
mul_pow a b c = ground arith

digits_more :
    (base acc c : ℕ) (s : List ℕ)
    → digit c < base
    → digits base acc (c ∷ s) ≡ digits base (acc * base + digit c) s
unfolding digits
digits_more base acc c s h = ground arith

digits-hex_digits :
    (n v acc : ℕ) (s : List ℕ)
    → v < 16 ^ n
    → digits 16 acc (hex_digits n v s) ≡ digits 16 (acc * 16 ^ n + v) s
unfolding hex_digits
digits-hex_digits zero v acc s h = ap (λ a. digits 16 a s) (omega arith)
digits-hex_digits (suc n) v acc s h =
    let e : 16 ^ suc n ≡ 16 ^ n * 16 = pow-suc 16 n in
    let q : v / 16 < 16 ^ n = omega (arith, e) in
    digits-hex_digits n (v / 16) acc (hex_digit (v % 16) ∷ s) q
    ∙ digits_more 16 (acc * 16 ^ n + v / 16) (hex_digit (v % 16)) s
        (let d = digit-hex_digit (v % 16) (omega arith) in omega (arith, d))
    ∙ ap (λ a. digits 16 a s)
        (let d = digit-hex_digit (v % 16) (omega arith) in
          omega (arith, d, mul_pow acc (16 ^ n) 16, ap (λ x. acc * x) e))

-- What a hexadecimal digit is not.
hex_range :
    (c : ℕ)
    → digit c < 16
    → (b'0' ≤ c) × ((c ≤ b'9') ⊎ (b'A' ≤ c)) × ((c ≤ b'F') ⊎ (b'a' ≤ c)) × (c ≤ b'f')
unfolding digit
hex_range c h = ground arith

has_prefix-hex : (s : List ℕ) → IsHex s → has_prefix 16 s ≡ false
unfolding has_prefix
has_prefix-hex [] h = refl
has_prefix-hex (c ∷ []) h = refl
has_prefix-hex (c ∷ x ∷ s) h = let r = hex_range x (h.1.0) in ground (arith, r)

unsigned_plain :
    (whole t : List ℕ) (v : ℕ)
    → has_prefix 16 t ≡ false
    → starts 16 t ≡ true
    → digits 16 0 t ≡ (v, [])
    → v < 2 ^ 64
    → unsigned whole false 16 t ≡ record { value = v; endptr = []; erange = false }
unfolding unsigned base_of
unsigned_plain whole t v p st e q = rw (p, st, e, lt→ltb v (2 ^ 64) q) refl

strtoul-hex :
    (c : ℕ) (s : List ℕ) (v : ℕ)
    → IsHex (c ∷ s)
    → digits 16 0 (c ∷ s) ≡ (v, [])
    → v < 2 ^ 64
    → strtoul (c ∷ s) 16 ≡ record { value = v; endptr = []; erange = false }
unfolding strtoul signed unsigned skip_spaces is_space
strtoul-hex c s v h e q =
    let r = hex_range c (h.0) in
    let p = has_prefix-hex (c ∷ s) h in
    let st : starts 16 (c ∷ s) ≡ true = unfold digit in ground arith in
    let sk : skip_spaces (c ∷ s) ≡ c ∷ s = ground (arith, r) in
    let sg : signed (c ∷ s) 16 (c ∷ s) ≡ unsigned (c ∷ s) false 16 (c ∷ s) = ground (arith, r) in
    ap (signed (c ∷ s) 16) sk ∙ sg ∙ unsigned_plain (c ∷ s) (c ∷ s) v p st e q

-- `v` has no more digits than `hex_length` says.
lt-hex_length : (fuel v : ℕ) → v < 16 ^ fuel → v < 16 ^ hex_length fuel v
unfolding hex_length
lt-hex_length zero v h = h
lt-hex_length (suc fuel) v h = elim (ℕ_discrete v 0) [
  | yes e ↦ ground arith
  | no ne ↦
      let q = lt-hex_length fuel (v / 16) (omega (arith, pow-suc 16 fuel)) in
      ground (arith, q, pow-suc 16 (hex_length fuel (v / 16)))
]

hex_length-le : (fuel v : ℕ) → hex_length fuel v ≤ fuel
unfolding hex_length
hex_length-le zero v = omega arith
hex_length-le (suc fuel) v = ground (arith, hex_length-le fuel (v / 16))

print_hex-IsHex : (precision v : ℕ) (s : List ℕ) → IsHex s → IsHex (print_hex precision v s)
unfolding print_hex
print_hex-IsHex precision v s h =
    hex_digits-IsHex (if ltb precision (hex_length 8 v) then hex_length 8 v else precision) v s h

hex_digits-append : (n v : ℕ) (t s : List ℕ) → hex_digits n v (t ++ s) ≡ hex_digits n v t ++ s
unfolding hex_digits
hex_digits-append zero v t s = refl
hex_digits-append (suc n) v t s = hex_digits-append n (v / 16) (hex_digit (v % 16) ∷ t) s

pub print_hex-append :
    (precision v : ℕ) (s : List ℕ) → print_hex precision v s ≡ print_hex precision v [] ++ s
unfolding print_hex
print_hex-append precision v s =
    hex_digits-append (if ltb precision (hex_length 8 v) then hex_length 8 v else precision) v [] s

strtoul_text :
    (t : List ℕ) (v : ℕ)
    → IsHex t
    → 0 < length t
    → digits 16 0 t ≡ (v, [])
    → v < 2 ^ 64
    → strtoul t 16 ≡ record { value = v; endptr = []; erange = false }
strtoul_text [] v h l e q = absurd (omega arith)
strtoul_text (c ∷ s) v h l e q = strtoul-hex c s v h e q

digits_all : (n v : ℕ) → v < 16 ^ n → digits 16 0 (hex_digits n v []) ≡ (v, [])
unfolding digits
digits_all n v h = digits-hex_digits n v 0 [] h ∙ ap (λ a. (a, [])) (omega arith)

-- How many digits are printed.
printed : ℕ → ℕ → ℕ
printed precision v = if ltb precision (hex_length 8 v) then hex_length 8 v else precision

lt-printed : (precision v : ℕ) → v < 2 ^ 32 → v < 16 ^ printed precision v
unfolding printed
lt-printed precision v h =
    let fits = lt-hex_length 8 v (omega arith) in
    let more : (k : ℕ) → hex_length 8 v ≤ k → v < 16 ^ k =
      λ k l. let m = pow-le-pow_right {n = 16} (omega arith) l in omega (arith, fits, m) in
    elim (dec_lt precision (hex_length 8 v)) [
      | yes l ↦ subst (λ k. v < 16 ^ k) (sym (ground arith)) fits
      | no nl ↦ subst (λ k. v < 16 ^ k) (sym (ground arith)) (more precision (omega arith))
    ]

-- What %x prints of a 32-bit number is 1 to 8 digits, from which strtoul reads the number.
pub print_hex_lem :
    (precision v : ℕ)
    → 0 < precision
    → precision ≤ 8
    → v < 2 ^ 32
    → IsHex (print_hex precision v [])
      × (0 < length (print_hex precision v []))
      × (length (print_hex precision v []) ≤ 8)
      × (strtoul (print_hex precision v []) 16 ≡ record { value = v; endptr = []; erange = false })
print_hex_lem precision v h q w = (
  hex,
  omega (arith, len, le, pos),
  omega (arith, len, le),
  strtoul_text (print_hex precision v []) v hex (omega (arith, len, le, pos)) read (omega arith),
)
  where
    hex : IsHex (print_hex precision v [])
    hex = print_hex-IsHex precision v [] tt

    len : length (print_hex precision v []) ≡ printed precision v
    len =
        unfold print_hex printed in
        length-hex_digits (if ltb precision (hex_length 8 v) then hex_length 8 v else precision) v
          []
        ∙ omega arith

    le : printed precision v ≤ 8
    le = let k = hex_length-le 8 v in unfold printed in ground arith

    pos : 0 < printed precision v
    pos = unfold printed in ground arith

    read : digits 16 0 (print_hex precision v []) ≡ (v, [])
    read =
        unfold print_hex printed in
        digits_all (if ltb precision (hex_length 8 v) then hex_length 8 v else precision) v
          (lt-printed precision v w)
