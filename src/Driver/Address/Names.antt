-- ===== src/Driver/Address/Names.antt =====
-- The names that user/lib/driver.c prints for a device's address, read again.
use native.Mathlib.Nat.{mod-eq_of_lt}
use nfp_udp_echo.Base.{
  ℕ, zero, suc, ◌+◌, ◌^◌, ◌<◌, ◌≤◌, ◌≡◌, refl, ap, ap₂, ◌∙◌, false, ◌≢◌, some, List, [], ◌∷◌, ◌++◌,
  length, length-append, take, arith,
}
use nfp_udp_echo.Base.Memory.{write_bytes}
use nfp_udp_echo.Driver.{PciAddr}
use nfp_udp_echo.Driver.Strings.{
  read_string, read_string_ext, read_string_more, read_string_end, before, after, fields,
}
use nfp_udp_echo.Driver.Numbers.{digit, strtoul, print_hex}
use nfp_udp_echo.Driver.Numbers.Hex.{IsHex, print_hex-append, print_hex_lem}
use nfp_udp_echo.Driver.Address.{in_buffer, pci_addr_of, parse_pci_addr_format, pci_name}
use nfp_udp_echo.Driver.Address.Roundtrip.{has, address_of, parse_pci_addr_format_lem}

read_string-in_buffer :
    (n a : ℕ) (s : List ℕ)
    → has 0 s ≡ false
    → length s ≤ n
    → read_string n (write_bytes (λ b. 0) a s) a ≡ s
read_string-in_buffer zero a [] h q = unfold read_string in refl
read_string-in_buffer zero a (c ∷ s) h q = absurd (omega arith)
read_string-in_buffer (suc n) a [] h q = read_string_end n _ a (unfold write_bytes in refl)
read_string-in_buffer (suc n) a (c ∷ s) h q =
    let m = write_bytes (λ b. 0) a (c ∷ s) in
    let at : m a ≡ c = unfold write_bytes in ground arith in
    let rest : read_string n m (a + 1) ≡ s =
      read_string_ext n m (write_bytes (λ b. 0) (a + 1) s) (a + 1)
        (λ b l. unfold write_bytes in ground arith)
      ∙ read_string-in_buffer n (a + 1) s (ground arith) (omega arith) in
    read_string_more n m a (λ e. absurd (ground (arith, at, e))) ∙ ap₂ ◌∷◌ at rest

take_all : (n : ℕ) (s : List ℕ) → length s ≤ n → take n s ≡ s
take_all zero [] h = refl
take_all (suc n) [] h = refl
take_all zero (c ∷ s) h = absurd (omega arith)
take_all (suc n) (c ∷ s) h = ap (λ t. c ∷ t) (take_all n s (omega arith))

has-append : (c : ℕ) (s t : List ℕ) → has c s ≡ false → has c (s ++ t) ≡ has c t
has-append c [] t h = refl
has-append c (x ∷ s) t h = ground (arith, has-append c s t)

has-IsHex : (c : ℕ) (s : List ℕ) → 16 ≤ digit c → IsHex s → has c s ≡ false
has-IsHex c [] q h = refl
has-IsHex c (x ∷ s) q h =
    let ne : x ≢ c = λ e. absurd (omega (arith, ap digit e, h.0)) in
    ground (arith, has-IsHex c s q (h.1))

before-append : (c : ℕ) (s t : List ℕ) → has c s ≡ false → before c (s ++ (c ∷ t)) ≡ s
before-append c [] t h = ground arith
before-append c (x ∷ s) t h = ground (arith, before-append c s t)

after-append : (c : ℕ) (s t : List ℕ) → has c s ≡ false → after c (s ++ (c ∷ t)) ≡ t
after-append c [] t h = ground arith
after-append c (x ∷ s) t h = ground (arith, after-append c s t)

before_all : (c : ℕ) (s : List ℕ) → has c s ≡ false → before c s ≡ s
before_all c [] h = refl
before_all c (x ∷ s) h = ground (arith, before_all c s)

after_all : (c : ℕ) (s : List ℕ) → has c s ≡ false → after c s ≡ []
after_all c [] h = refl
after_all c (x ∷ s) h = ground (arith, after_all c s)

fields_cons :
    (d k : ℕ) (s t : List ℕ)
    → 0 < length s
    → has d s ≡ false
    → fields d (suc (suc k)) (s ++ (d ∷ t)) ≡ s ∷ fields d (suc k) t
fields_cons d k [] t l h = absurd (omega arith)
fields_cons d k (x ∷ s) t l h =
    unfold fields in
    ap₂ (λ f r. f ∷ fields d (suc k) r) (before-append d (x ∷ s) t h) (after-append d (x ∷ s) t h)

fields_last :
    (d k : ℕ) (s : List ℕ) → 0 < length s → has d s ≡ false → fields d (suc (suc k)) s ≡ s ∷ []
fields_last d k [] l h = absurd (omega arith)
fields_last d k (x ∷ s) l h =
    unfold fields in
    ap₂ (λ f r. f ∷ fields d (suc k) r) (before_all d (x ∷ s) h) (after_all d (x ∷ s) h)

-- A PCI device has at most eight functions, so their numbers read the same in base 10.
strtoul-function :
    (f : ℕ)
    → f < 8
    → strtoul (print_hex 1 f []) 10 ≡ record { value = f; endptr = []; erange = false }
unfolding strtoul print_hex
strtoul-function zero h = refl
strtoul-function (suc zero) h = refl
strtoul-function (suc (suc zero)) h = refl
strtoul-function (suc (suc (suc zero))) h = refl
strtoul-function (suc (suc (suc (suc zero)))) h = refl
strtoul-function (suc (suc (suc (suc (suc zero))))) h = refl
strtoul-function (suc (suc (suc (suc (suc (suc zero)))))) h = refl
strtoul-function (suc (suc (suc (suc (suc (suc (suc zero))))))) h = refl
strtoul-function (suc (suc (suc (suc (suc (suc (suc (suc f)))))))) h = absurd (omega arith)

joined : (d b v f : List ℕ) → List ℕ
joined d b v f = d ++ (b':' ∷ (b ++ (b':' ∷ (v ++ (b'.' ∷ f)))))

fields-joined :
    (d b v f : List ℕ)
    → IsHex d
    → IsHex b
    → IsHex v
    → IsHex f
    → 0 < length d
    → 0 < length b
    → address_of (fields b':' 4 (joined d b v f)) ≡ pci_addr_of d b v f
unfolding joined
fields-joined d b v f dh bh vh fh dl bl =
    let third : has b':' (v ++ (b'.' ∷ f)) ≡ false =
      has-append b':' v (b'.' ∷ f) (has-IsHex b':' v (unfold digit in omega arith) vh)
      ∙ has-IsHex b':' f (unfold digit in omega arith) fh in
    let dot = has-IsHex b'.' v (unfold digit in omega arith) vh in
    ap address_of (
      fields_cons b':' 2 d _ dl (has-IsHex b':' d (unfold digit in omega arith) dh)
      ∙ ap (λ r. d ∷ r)
          (fields_cons b':' 1 b _ bl (has-IsHex b':' b (unfold digit in omega arith) bh)
            ∙ ap (λ r. b ∷ r)
                (fields_last b':' 0 (v ++ (b'.' ∷ f)) (omega (arith, length-append v (b'.' ∷ f)))
                  third)))
    ∙ rw (has-append b'.' v (b'.' ∷ f) dot, before-append b'.' v f dot, after-append b'.' v f dot)
        refl

length-joined :
    (d b v f : List ℕ) → length (joined d b v f) ≡ length d + length b + length v + length f + 3
unfolding joined
length-joined d b v f = omega (
  arith,
  length-append d (b':' ∷ (b ++ (b':' ∷ (v ++ (b'.' ∷ f))))),
  length-append b (b':' ∷ (v ++ (b'.' ∷ f))),
  length-append v (b'.' ∷ f),
)

has-joined :
    (d b v f : List ℕ) → IsHex d → IsHex b → IsHex v → IsHex f → has 0 (joined d b v f) ≡ false
unfolding joined
has-joined d b v f dh bh vh fh =
    has-append 0 d _ (has-IsHex 0 d big dh)
    ∙ has-append 0 b _ (has-IsHex 0 b big bh)
    ∙ has-append 0 v _ (has-IsHex 0 v big vh)
    ∙ has-IsHex 0 f big fh
  where
    big : 16 ≤ digit 0
    big = unfold digit in omega arith

pci_addr_of_lem :
    (d b v f : List ℕ) (a : PciAddr)
    → strtoul d 16 ≡ record { value = a.domain; endptr = []; erange = false }
    → strtoul b 16 ≡ record { value = a.bus; endptr = []; erange = false }
    → strtoul v 16 ≡ record { value = a.devid; endptr = []; erange = false }
    → strtoul f 10 ≡ record { value = a.function; endptr = []; erange = false }
    → a.domain < 2 ^ 32
    → a.bus < 2 ^ 8
    → a.devid < 2 ^ 8
    → a.function < 8
    → pci_addr_of d b v f ≡ some a
unfolding pci_addr_of
pci_addr_of_lem d b v f a dv bv vv fv dl bl vl fl =
    rw (dv, bv, vv, fv, mod-eq_of_lt dl, mod-eq_of_lt bl, mod-eq_of_lt vl, mod-eq_of_lt fl') refl
  where
    fl' : a.function < 2 ^ 8
    fl' = omega arith

pci_name-joined :
    (a : PciAddr)
    → pci_name a
      ≡ joined
          (print_hex 4 (a.domain) [])
          (print_hex 2 (a.bus) [])
          (print_hex 2 (a.devid) [])
          (print_hex 1 (a.function) [])
unfolding pci_name joined
pci_name-joined a =
    let f = print_hex 1 (a.function) [] in
    let v = print_hex-append 2 (a.devid) (b'.' ∷ f) in
    let b = print_hex-append 2 (a.bus) (b':' ∷ print_hex 2 (a.devid) (b'.' ∷ f)) in
    print_hex-append 4 (a.domain) _
    ∙ ap (λ t. print_hex 4 (a.domain) [] ++ (b':' ∷ t))
        (b ∙ ap (λ t. print_hex 2 (a.bus) [] ++ (b':' ∷ t)) v)

-- The name that the driver prints for an address is read as that address, if the domain is below
-- 2 ^ 32, the bus and the device are below 2 ^ 8, and the function is below 8.
pub parse-pci_name :
    (a : PciAddr)
    → a.domain < 2 ^ 32
    → a.bus < 2 ^ 8
    → a.devid < 2 ^ 8
    → a.function < 8
    → parse_pci_addr_format (pci_name a) 256 ≡ some a
parse-pci_name a dom bus devid function =
    let (dh, dl, dn, dv) = print_hex_lem 4 (a.domain) (omega arith) (omega arith) dom in
    let (bh, bl, bn, bv) = print_hex_lem 2 (a.bus) (omega arith) (omega arith) (omega arith) in
    let (vh, vl, vn, vv) = print_hex_lem 2 (a.devid) (omega arith) (omega arith) (omega arith) in
    let (fh, fl, fn, _) = print_hex_lem 1 (a.function) (omega arith) (omega arith) (omega arith) in
    let fv = strtoul-function (a.function) function in
    let len : length (
          joined (print_hex 4 (a.domain) []) (print_hex 2 (a.bus) []) (print_hex 2 (a.devid) [])
            (print_hex 1 (a.function) []))
        ≤ 256 =
      omega (
        arith,
        dn,
        bn,
        vn,
        fn,
        length-joined (print_hex 4 (a.domain) []) (print_hex 2 (a.bus) [])
            (print_hex 2 (a.devid) []) (print_hex 1 (a.function) []),
      ) in
    ap (λ t. parse_pci_addr_format t 256) (pci_name-joined a)
    ∙ parse_pci_addr_format_lem _ 256
    ∙ ap (λ t. address_of (fields b':' 4 (read_string 256 (in_buffer t) 0))) (take_all 256 _ len)
    ∙ ap (λ t. address_of (fields b':' 4 t))
        (read_string-in_buffer 256 0 _ (has-joined _ _ _ _ dh bh vh fh) len)
    ∙ fields-joined _ _ _ _ dh bh vh fh dl bl
    ∙ pci_addr_of_lem _ _ _ _ a dv bv vv fv dom bus devid function
