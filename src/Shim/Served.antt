-- ===== src/Shim/Served.antt =====
-- shim/interpose.c: which calls on a descriptor go to the daemon, from `open64` to `close`.
use Prim.Native.String.{String}
use nfp_udp_echo.Base.{
  ℕ, ◌≡◌, ◌≢◌, refl, sym, ap, ◌∙◌, arith, Bool, true, false, Option, none, some, List, [], ◌∷◌, leb,
  if◌then◌else◌,
}
use nfp_udp_echo.Shim.{Reply, value, errno, broken, pread_cpp, pwrite_cpp}
use nfp_udp_echo.Shim.Ioctl.{ioctl_cpp}
use nfp_udp_echo.Shim.Descriptors.{
  FdType, fd_unused, fd_cpp, FdStatus, Opened, opened, open_error, OpenCalls, via_socket, via_libc,
  max_fd, set_fd, is_device, is_absolute, open_device, shim_open, shim_open64, shim_openat,
  shim_close, shim_pread, shim_pwrite, shim_ioctl, settle, connected,
}

-- What a program may do between two calls on a descriptor: another `open`, a `close` that succeeds or
-- not, and a call on a connection, with the reply that settles it.
pub data Event : Type 0 where
  opens opens64 opens_at : String → OpenCalls → Event
  closes : Bool → ℕ → Event
  replied : Bool → ℕ → Reply → Event

-- The table after an event.
unfoldable pub after : Event → FdStatus → FdStatus
unfolding shim_open shim_open64 shim_openat shim_close settle
after (opens pathname e) s = (shim_open pathname e s).1
after (opens64 pathname e) s = (shim_open64 pathname e s).1
after (opens_at pathname e) s = (shim_openat pathname e s).1
after (closes closed fd) s = shim_close closed fd s
after (replied closed fd r) s = settle closed fd r s

unfoldable pub after_all : List Event → FdStatus → FdStatus
unfolding after
after_all [] s = s
after_all (e ∷ events) s = after_all events (after e s)

-- The event neither closes `fd` nor finds its connection broken, and `socket` does not give `fd`,
-- which is open, again.
abbrev pub Spares : ℕ → Event → Type 0
Spares fd (opens _ e) = e.socket ≢ opened fd
Spares fd (opens64 _ e) = e.socket ≢ opened fd
Spares fd (opens_at _ e) = e.socket ≢ opened fd
Spares fd (closes true other) = other ≢ fd
Spares fd (closes false other) = Unit
Spares fd (replied true other broken) = other ≢ fd
Spares fd (replied false other broken) = Unit
Spares fd (replied _ _ (value _ _)) = Unit
Spares fd (replied _ _ (errno _)) = Unit

abbrev pub AllSpare : ℕ → List Event → Type 0
AllSpare fd [] = Unit
AllSpare fd (e ∷ events) = Spares fd e × AllSpare fd events

-- Every call on `fd` goes to the daemon.
pub record GoesToDaemon (s : FdStatus) (fd : ℕ) : Type 0 where
  pub reads :
      (rounds count offset : ℕ)
      → shim_pread s rounds fd count offset ≡ via_socket (pread_cpp rounds count offset)
  pub writes :
      (rounds : ℕ) (buf : List ℕ) (offset : ℕ)
      → shim_pwrite s rounds fd buf offset ≡ via_socket (pwrite_cpp rounds buf offset)
  pub controls :
      (old : List ℕ) (request : ℕ) (argp : Option (List ℕ))
      → shim_ioctl s old fd request argp ≡ via_socket (ioctl_cpp old request argp)

-- Every call on `fd` goes to the C library.
pub record GoesToLibc (s : FdStatus) (fd : ℕ) : Type 0 where
  pub reads : (rounds count offset : ℕ) → shim_pread s rounds fd count offset ≡ via_libc
  pub writes :
      (rounds : ℕ) (buf : List ℕ) (offset : ℕ) → shim_pwrite s rounds fd buf offset ≡ via_libc
  pub controls :
      (old : List ℕ) (request : ℕ) (argp : Option (List ℕ))
      → shim_ioctl s old fd request argp ≡ via_libc

cpp-GoesToDaemon : (s : FdStatus) (fd : ℕ) → s fd ≡ fd_cpp → GoesToDaemon s fd
unfolding shim_pread shim_pwrite shim_ioctl
cpp-GoesToDaemon s fd h = record {
  reads = λ rounds count offset. rw h refl;
  writes = λ rounds buf offset. rw h refl;
  controls = λ old request argp. rw h refl;
}

unused-GoesToLibc : (s : FdStatus) (fd : ℕ) → s fd ≡ fd_unused → GoesToLibc s fd
unfolding shim_pread shim_pwrite shim_ioctl
unused-GoesToLibc s fd h = record {
  reads = λ rounds count offset. rw h refl;
  writes = λ rounds buf offset. rw h refl;
  controls = λ old request argp. rw h refl;
}

set_fd-other : (s : FdStatus) (fd g : ℕ) (t : FdType) → g ≢ fd → set_fd s g t fd ≡ s fd
set_fd-other s fd g t h = ground arith

set_fd-same : (s : FdStatus) (fd : ℕ) (t : FdType) → set_fd s fd t fd ≡ t
set_fd-same s fd t = ground arith

if-keeps :
    {A : Type 0} (s : FdStatus) (fd : ℕ) (b : Bool) (x : A × FdStatus) (y : A × FdStatus)
    → x.1 fd ≡ s fd
    → y.1 fd ≡ s fd
    → (if b then x else y).1 fd ≡ s fd
if-keeps s fd true x y h k = h
if-keeps s fd false x y h k = k

open_device-other :
    (e : OpenCalls) (s : FdStatus) (fd : ℕ) → e.socket ≢ opened fd → (open_device e s).1 fd ≡ s fd
unfolding open_device
open_device-other e s fd h = go e.socket e.connect e.libc h
  where
    go :
        (k : Opened) (c : Option ℕ) (l : Opened)
        → k ≢ opened fd
        → (open_device (record { socket = k; connect = c; libc = l }) s).1 fd ≡ s fd
    go (open_error err) c l h = refl
    go (opened g) (some err) l h = if-keeps s fd (leb max_fd g) _ _ refl refl
    go (opened g) none l h =
        if-keeps s fd (leb max_fd g) _ _ refl (set_fd-other s fd g fd_cpp (λ q. h (ap opened q)))

after-other : (fd : ℕ) (e : Event) (s : FdStatus) → Spares fd e → after e s fd ≡ s fd
unfolding after shim_open shim_open64 shim_openat shim_close settle
after-other fd (opens p e) s h = if-keeps s fd (is_device p) _ _ (open_device-other e s fd h) refl
after-other fd (opens64 p e) s h = if-keeps s fd (is_device p) _ _ (open_device-other e s fd h) refl
after-other fd (opens_at p e) s h =
    if-keeps s fd (is_absolute p) _ _
      (if-keeps s fd (is_device p) _ _ (open_device-other e s fd h) refl) refl
after-other fd (closes true g) s h = set_fd-other s fd g fd_unused h
after-other fd (closes false g) s h = refl
after-other fd (replied true g broken) s h = set_fd-other s fd g fd_unused h
after-other fd (replied false g broken) s h = refl
after-other fd (replied _ _ (value _ _)) s h = refl
after-other fd (replied _ _ (errno _)) s h = refl

after_all-other :
    (fd : ℕ) (events : List Event) (s : FdStatus)
    → AllSpare fd events
    → after_all events s fd ≡ s fd
unfolding after_all
after_all-other fd [] s h = refl
after_all-other fd (e ∷ events) s (h, hs) =
    after_all-other fd events (after e s) hs ∙ after-other fd e s h

-- From the `open64` that has connected a descriptor on, and whatever the program opens, closes and
-- calls then that neither closes this descriptor nor finds its connection broken nor gets it from
-- `socket` again, each `pread`, `pwrite` and `ioctl` on it goes to the daemon; after a `close` of it
-- that succeeds, each goes to the C library, and no other descriptor's entry is changed by that.
pub served_until_close :
    (pathname : String) (e : OpenCalls) (s s' : FdStatus) (fd : ℕ) (events : List Event)
    → is_device pathname ≡ true
    → shim_open64 pathname e s ≡ (opened fd, s')
    → AllSpare fd events
    → GoesToDaemon (after_all events s') fd
      × GoesToLibc (shim_close true fd (after_all events s')) fd
      × ((other : ℕ)
          → fd ≢ other
          → shim_close true fd (after_all events s') other ≡ after_all events s' other)
unfolding shim_open64 shim_close
served_until_close pathname e s s' fd events p o h =
    let q =
      connected e s s' fd (sym (ap (λ b. if b then open_device e s else (e.libc, s)) p) ∙ o) in
    let t = after_all events s' in
    (
      cpp-GoesToDaemon t fd
          (after_all-other fd events s' h ∙ ap (λ x. x fd) q ∙ set_fd-same s fd fd_cpp),
      unused-GoesToLibc (set_fd t fd fd_unused) fd (set_fd-same t fd fd_unused),
      λ other ne. set_fd-other t other fd fd_unused ne,
    )
