-- ===== src/Driver/Resources.antt =====
-- user/lib/driver.c: the files that describe a PCI device, one with a number and one with the
-- device's regions of memory.
pub mod Lines
use nfp_udp_echo.Base.{
  ℕ, zero, suc, ◌+◌, ◌-◌, ◌/◌, ◌%◌, ◌^◌, Bool, true, false, ◌||◌, Option, none, some, List, [], ◌∷◌,
  take, drop, length, ltb, ◌==◌, if◌then◌else◌,
}
use Prim.Native.String.{String}
use nfp_udp_echo.Base.Memory.{Mem}
use nfp_udp_echo.Driver.{MemResource, Sysfs, pci_max_resource, ◌>>=◌}
use nfp_udp_echo.Driver.Strings.{strsplit, read_string}
use nfp_udp_echo.Driver.Numbers.{Number, strtoul}
use nfp_udp_echo.Driver.Address.{in_buffer}

-- BUFSIZ of the C library
abbrev pub bufsiz : ℕ
bufsiz = 8192

-- What `fgets` leaves in a buffer of BUFSIZ bytes from a line.
abbrev pub fgets : List ℕ → Mem
fgets line = in_buffer (take (bufsiz - 1) line)

abbrev pub is_newline : List ℕ → Bool
is_newline [] = false
is_newline (c ∷ s) = c == 10

abbrev pub is_empty : List ℕ → Bool
is_empty [] = true
is_empty (c ∷ s) = false

-- The number of a line, if a newline follows it.
unfoldable pub parse_value : List ℕ → Option ℕ
parse_value line =
    let text = read_string bufsiz (fgets line) 0 in
    let r = strtoul text 0 in
    if is_empty text then none else if is_newline (r.endptr) then some (r.value) else none

abbrev pub first_line : List (List ℕ) → Option (List ℕ)
first_line [] = none
first_line (line ∷ lines) = some line

unfoldable pub parse_sysfs_value : Sysfs → List ℕ → String → Option ℕ
unfolding parse_value
parse_sysfs_value sysfs dirname file = do
  lines ← sysfs dirname file
  line ← first_line lines
  parse_value line

-- The three numbers of a line, from the three tokens that `strsplit` has found.
unfoldable pub numbers : List ℕ × Mem → Option (ℕ × ℕ × ℕ)
numbers (phys_addr ∷ end_addr ∷ flags ∷ [], buf) =
    let a = strtoul (read_string (bufsiz - phys_addr) buf phys_addr) 16 in
    let b = strtoul (read_string (bufsiz - end_addr) buf end_addr) 16 in
    let c = strtoul (read_string (bufsiz - flags) buf flags) 16 in
    if a.erange || (b.erange || c.erange) then none else some (a.value, b.value, c.value)
numbers r = none

unfoldable pub parse_resource : List ℕ → Option (ℕ × ℕ × ℕ)
unfolding numbers
parse_resource line = numbers (strsplit (fgets line) bufsiz 3 b' ')

-- `flags & IORESOURCE_MEM`
abbrev pub is_mem : ℕ → Bool
is_mem flags = flags / 512 % 2 == 1

abbrev pub set_at : ℕ → MemResource → List MemResource → List MemResource
set_at i r [] = []
set_at zero r (x ∷ rest) = r ∷ rest
set_at (suc i) r (x ∷ rest) = x ∷ set_at i r rest

abbrev pub region : ℕ × ℕ × ℕ → MemResource
region (phys_addr, end_addr, flags) = record {
  phys_addr = phys_addr;
  len = (end_addr + 2 ^ 64 - phys_addr + 1) % 2 ^ 64;
  addr = none;
}

-- What the next `fgets` reads on in: the rest of a line that is longer than the buffer, or the next
-- line.
abbrev pub behind : List ℕ → List (List ℕ) → List (List ℕ)
behind line lines = if ltb (bufsiz - 1) (length line) then drop (bufsiz - 1) line ∷ lines else lines

-- Line `i` and those behind it, `rounds` in all.
unfoldable pub parse_resources :
    ℕ → ℕ → List (List ℕ) → List MemResource → Option (List MemResource)
parse_resources zero i lines resources = some resources
parse_resources (suc rounds) i [] resources = none
parse_resources (suc rounds) i (line ∷ lines) resources = do
  r ← parse_resource line
  parse_resources rounds (i + 1) (behind line lines)
      (if is_mem (r.2) then set_at i (region r) resources else resources)

-- The regions, from those before; `none` for the result -1.
unfoldable pub pci_parse_sysfs_resource :
    Option (List (List ℕ)) → List MemResource → Option (List MemResource)
unfolding parse_resources
pci_parse_sysfs_resource file resources = do
  lines ← file
  parse_resources pci_max_resource 0 lines resources
