-- ===== src/Driver/Address.antt =====
-- user/lib/driver.c: the address of a PCI device as text.
pub mod Roundtrip
pub mod Names
use nfp_udp_echo.Base.{
  ℕ, zero, suc, ◌+◌, ◌-◌, ◌%◌, ◌^◌, ◌<◌, ◌≡◌, refl, Bool, true, false, ◌||◌, Option, none, some,
  List, [], ◌∷◌, ◌++◌, length, take, ◌==◌, if◌then◌else◌, arith,
}
use nfp_udp_echo.Base.Memory.{Mem, write_bytes}
use nfp_udp_echo.Driver.{PciAddr}
use nfp_udp_echo.Driver.Strings.{strsplit, read_string, clear}
use nfp_udp_echo.Driver.Numbers.{Number, strtoul, print_hex}

-- `strchr(s, c)` for the string at `a`: the offset of the first `c`.
unfoldable pub strchr : ℕ → Mem → ℕ → ℕ → Option ℕ
strchr zero m a c = none
strchr (suc n) m a c =
    let rest = strchr n m (a + 1) c in if m a == c then some a else if m a == 0 then none else rest

-- A text in memory, with the zero that ends it.
abbrev pub in_buffer : List ℕ → Mem
in_buffer s = write_bytes (λ b. 0) 0 s

-- The four numbers, from the texts.
unfoldable pub pci_addr_of : (domain bus devid function : List ℕ) → Option PciAddr
pci_addr_of domain bus devid function =
    let a = strtoul domain 16 in
    let b = strtoul bus 16 in
    let c = strtoul devid 16 in
    let d = strtoul function 10 in
    if a.erange || (b.erange || (c.erange || d.erange))
    then none
    else some (record {
      domain = a.value % 2 ^ 32;
      bus = b.value % 2 ^ 8;
      devid = c.value % 2 ^ 8;
      function = d.value % 2 ^ 8;
    })

-- The tokens that `strsplit` has found, and the string that it has cut; the last token ends at '.'.
unfoldable pub parse_tokens : ℕ → List ℕ × Mem → Option PciAddr
unfolding pci_addr_of strchr
parse_tokens bufsize ([], m) = none
parse_tokens bufsize (domain ∷ [], m) = none
parse_tokens bufsize (domain ∷ bus ∷ [], m) = none
parse_tokens bufsize (domain ∷ bus ∷ devid ∷ [], m) = elim (strchr (bufsize - devid) m devid b'.') [
  | none ↦ none
  | some dot ↦
      let m' = clear m dot in
      let text : ℕ → List ℕ = λ a. read_string (bufsize - a) m' a in
      pci_addr_of (text domain) (text bus) (text devid) (text (dot + 1))
]
parse_tokens bufsize (domain ∷ bus ∷ devid ∷ more ∷ rest, m) = none

-- The string at `buf`, of `bufsize` bytes at most; `none` for the result -1.
unfoldable pub parse_pci_addr_format : List ℕ → ℕ → Option PciAddr
unfolding parse_tokens
parse_pci_addr_format buf bufsize =
    parse_tokens bufsize (strsplit (in_buffer (take bufsize buf)) bufsize 4 b':')

-- `snprintf` with PCI_PRI_FMT
unfoldable pub pci_name : PciAddr → List ℕ
pci_name a =
    print_hex 4 (a.domain) (
      b':'
      ∷ print_hex 2 (a.bus) (b':' ∷ print_hex 2 (a.devid) (b'.' ∷ print_hex 1 (a.function) [])))
