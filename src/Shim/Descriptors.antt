-- ===== src/Shim/Descriptors.antt =====
-- shim/interpose.c: which descriptors are connections to the daemon, and what `open`, `close` and
-- the other calls do with them. What the C library's calls return is an argument.
use Prim.Native.Char.{code}
use Prim.Native.String.{String}
use text.Mathlib.Text.{◌==◌ as ◌=ₛ◌}
use nfp_udp_echo.Base.{
  ℕ, ◌≢◌, Bool-cases, inl, inr, ◌*◌, ◌≡◌, refl, sym, ap, ◌∙◌, Bool, true, false, Option, none, some,
  List, leb, ◌==◌, if◌then◌else◌,
}
use nfp_udp_echo.Socket.{Proc}
use nfp_udp_echo.Shim.{Reply, value, errno, broken, pread_cpp, pwrite_cpp}
use nfp_udp_echo.Shim.Ioctl.{ioctl_cpp}

-- `enum fd_type`
pub data FdType : Type 0 where
  fd_unused fd_cpp fd_libc : FdType

-- `fd_status`, zero at first
abbrev pub FdStatus : Type 0
FdStatus = ℕ → FdType

abbrev pub max_fd : ℕ
max_fd = 1024 * 1024

abbrev pub set_fd : FdStatus → ℕ → FdType → FdStatus
set_fd s fd type i = if fd == i then type else s i

-- A descriptor or 0, or -1 with an error number.
pub data Opened : Type 0 where
  opened : ℕ → Opened
  open_error : ℕ → Opened

-- `socket` gives a descriptor or an error number, `connect` 0 (`none`) or an error number; `libc` is
-- what the C library's own call returns.
pub record OpenCalls : Type 0 where
  pub socket : Opened
  pub connect : Option ℕ
  pub libc : Opened

abbrev pub emfile : ℕ
emfile = 24

abbrev pub enotdir : ℕ
enotdir = 20

-- `strcmp(pathname, "/dev/nfp-cpp-0") == 0`
abbrev pub is_device : String → Bool
is_device pathname = pathname =ₛ "/dev/nfp-cpp-0"

-- The connection of `open` and `open64`: its descriptor, and the table then.
unfoldable pub open_device : OpenCalls → FdStatus → Opened × FdStatus
open_device e s = elim (e.socket) [
  | open_error err ↦ (open_error err, s)
  | opened fd ↦ if leb max_fd fd then (open_error emfile, s) else elim (e.connect) [
    | some err ↦ (open_error err, s)
    | none ↦ (opened fd, set_fd s fd fd_cpp)
  ]
]

-- `open` returns 0 where `open64` returns the descriptor.
abbrev pub as_zero : Opened → Opened
as_zero (opened fd) = opened 0
as_zero (open_error err) = open_error err

unfoldable pub shim_open : String → OpenCalls → FdStatus → Opened × FdStatus
unfolding open_device
shim_open pathname e s =
    let r = open_device e s in if is_device pathname then (as_zero r.0, r.1) else (e.libc, s)

unfoldable pub shim_open64 : String → OpenCalls → FdStatus → Opened × FdStatus
unfolding open_device
shim_open64 pathname e s = if is_device pathname then open_device e s else (e.libc, s)

-- `pathname[0] == '/'`
abbrev pub is_absolute : String → Bool
is_absolute String.[] = false
is_absolute (String.◌∷◌ c _) = code c == 47

unfoldable pub shim_openat : String → OpenCalls → FdStatus → Opened × FdStatus
unfolding shim_open
shim_openat pathname e s =
    if is_absolute pathname then shim_open pathname e s else (open_error enotdir, s)

-- `libc_close` returns 0 or not.
unfoldable pub shim_close : Bool → ℕ → FdStatus → FdStatus
shim_close closed fd s = if closed then set_fd s fd fd_unused else s

-- A call goes to the daemon or to the C library.
pub data Call : Type 0 where
  via_socket : Proc Reply → Call
  via_libc : Call

abbrev pub is_cpp : FdType → Bool
is_cpp fd_cpp = true
is_cpp fd_unused = false
is_cpp fd_libc = false

unfoldable pub shim_pread : FdStatus → ℕ → ℕ → ℕ → ℕ → Call
shim_pread s rounds fd count offset =
    if is_cpp (s fd) then via_socket (pread_cpp rounds count offset) else via_libc

unfoldable pub shim_pwrite : FdStatus → ℕ → ℕ → List ℕ → ℕ → Call
shim_pwrite s rounds fd buf offset =
    if is_cpp (s fd) then via_socket (pwrite_cpp rounds buf offset) else via_libc

unfoldable pub shim_ioctl : FdStatus → List ℕ → ℕ → ℕ → Option (List ℕ) → Call
shim_ioctl s struct_bytes fd request argp =
    if is_cpp (s fd) then via_socket (ioctl_cpp struct_bytes request argp) else via_libc

-- The table after a call on the socket, which closes a connection that is broken.
unfoldable pub settle : Bool → ℕ → Reply → FdStatus → FdStatus
unfolding shim_close
settle closed fd broken s = shim_close closed fd s
settle closed fd (value _ _) s = s
settle closed fd (errno _) s = s

error≢opened : {x f : ℕ} → open_error x ≢ opened f
error≢opened e = cc

pub opened-injective : {x f : ℕ} → opened x ≡ opened f → x ≡ f
opened-injective e = cc

pub connected :
    (e : OpenCalls) (s s' : FdStatus) (fd : ℕ)
    → open_device e s ≡ (opened fd, s')
    → s' ≡ set_fd s fd fd_cpp
unfolding open_device
connected e s s' fd o = go e.socket e.connect e.libc o
  where
    calls : Opened → Option ℕ → Opened → OpenCalls
    calls k c l = record { socket = k; connect = c; libc = l }

    too_high :
        (f : ℕ) (c : Option ℕ) (l : Opened)
        → leb max_fd f ≡ true
        → open_device (calls (opened f) c l) s ≡ (open_error emfile, s)
    too_high f c l h = rw h refl

    within :
        (f : ℕ) (c : Option ℕ) (l : Opened)
        → leb max_fd f ≡ false
        → open_device (calls (opened f) c l) s ≡ (opened fd, s')
        → s' ≡ set_fd s fd fd_cpp
    within f (some x) l h q =
        let r : open_device (calls (opened f) (some x) l) s ≡ (open_error x, s) = rw h refl in
        absurd (error≢opened (ap (λ r. r.0) (sym r ∙ q)))
    within f none l h q =
        let r : open_device (calls (opened f) none l) s ≡ (opened f, set_fd s f fd_cpp) =
          rw h refl in
        ap (λ r. r.1) (sym q ∙ r)
        ∙ ap (λ g. set_fd s g fd_cpp) (opened-injective (ap (λ r. r.0) (sym r ∙ q)))

    go :
        (k : Opened) (c : Option ℕ) (l : Opened)
        → open_device (calls k c l) s ≡ (opened fd, s')
        → s' ≡ set_fd s fd fd_cpp
    go (open_error x) c l q = absurd (error≢opened (ap (λ r. r.0) q))
    go (opened f) c l q = elim (Bool-cases (leb max_fd f)) [
      | inl h ↦ absurd (error≢opened (ap (λ r. r.0) (sym (too_high f c l h) ∙ q)))
      | inr h ↦ within f c l h q
    ]
