-- ===== src/Tests/Shim.antt =====
-- Calls of a client through the shim and the daemon, on small cards.
use nfp_udp_echo.Base.{
  ℕ, ◌-◌, ◌+◌, ◌*◌, ◌^◌, ◌≡◌, ◌≢◌, ◌<◌, ◌==◌, ◌++◌, false, zero, suc, length, refl, true, none,
  some, List, [], ◌∷◌, arith,
}
use nfp_udp_echo.Base.Memory.{Mem, read_bytes, write_bytes}
use nfp_udp_echo.Socket.{Proc, ret, spin, read, write, moved, dialogue}
use nfp_udp_echo.Socket.Loops.{read_all}
use nfp_udp_echo.Socket.Words.{of_le}
use nfp_udp_echo.Cdev.{
  Result, success, einval, do_cpp_area_request, area_alloc, place, search, range_check,
}
use nfp_udp_echo.Cdev.Command.{Device, Surroundings, handle_cmd}
use nfp_udp_echo.Cdev.Command.Ioctl.{area_request, result_word}
use nfp_udp_echo.Shim.{value, errno, error_of, pread_cpp, pwrite_cpp}
use nfp_udp_echo.Shim.Ioctl.{ioctl_cpp}
use nfp_udp_echo.Shim.Descriptors.{
  FdStatus, fd_unused, fd_cpp, opened, open_error, OpenCalls, set_fd, open_device, shim_open,
  shim_open64, shim_close, opened-injective,
}
use nfp_udp_echo.Shim.Served.{
  Event, opens64, closes, replied, after_all, GoesToDaemon, GoesToLibc, served_until_close,
}
use nfp_udp_echo.Shim.Exchange.Read.{pread-handle_cmd}
use nfp_udp_echo.Shim.Exchange.Write.{pwrite-handle_cmd}
use nfp_udp_echo.Shim.Exchange.AreaRequest.{
  granted, filled, ioctl-area_request, ioctl-area_request_refused,
}
use nfp_udp_echo.Socket.Finish.{Finishes}
use nfp_udp_echo.Cdev.Transfer.Lengths.{ReadsAsked}
use nfp_udp_echo.Shim.Finish.{calls-Finishes}
use nfp_udp_echo.Cdev.Command.Finish.{handle_cmd-Finishes}
use nfp_udp_echo.Tests.Transfer as Transfer
use nfp_udp_echo.Tests.Write as Write

abbrev surroundings : Surroundings
surroundings = record {
  library = λ m. Transfer.library;
  writes = Write.library;
  chip = record { model = 0x6000; interface = 1; serial_hi = 2; serial_lo = 3 };
  calls = record { malloc = true; cpp_area = some 6 };
  read_error = 2 ^ 64 - 5;
  tmp = 99;
  struct_bytes = [];
}

abbrev device : Device
device = record { areas = []; mem = λ a. 0 }

pread-handle_cmd_example :
    dialogue (pread_cpp 1 200 (3 * 2 ^ 40 + 2 ^ 20 - 100)) (handle_cmd surroundings 1 device)
    ≡ record {
      client = ret (value 200 (read_bytes (Transfer.target 0x300) (2 ^ 20 - 100) 200));
      server = ret (true, device);
      unread_by_client = [];
      unread_by_server = [];
    }
pread-handle_cmd_example =
    pread-handle_cmd surroundings 0 device false (Transfer.target 0x300) 200
      (3 * 2 ^ 40 + 2 ^ 20 - 100) (Transfer.library-IsCard 0x300) refl refl (omega arith)
      (omega arith) (omega arith)

abbrev bytes : List ℕ
bytes = 7 ∷ 8 ∷ 9 ∷ 10 ∷ []

pwrite-handle_cmd_example :
    dialogue (pwrite_cpp 1 bytes (3 * 2 ^ 40 + 8)) (handle_cmd surroundings 1 device) ≡ record {
      client = ret (value 4 []);
      server = ret (true, record device { mem = write_bytes device.mem 8 bytes });
      unread_by_client = [];
      unread_by_server = [];
    }
pwrite-handle_cmd_example =
    pwrite-handle_cmd surroundings 0 device false bytes (3 * 2 ^ 40 + 8) Write.library-Writes refl
      refl (omega arith) (omega arith) refl refl

-- A request for a page, or for 5 bytes, at any offset.
abbrev request : ℕ → ℕ → List ℕ
request low high =
    255 ∷ 255 ∷ 255 ∷ 255 ∷ 255 ∷ 255 ∷ 255 ∷ 255 ∷ 7 ∷ 0 ∷ 0 ∷ 0 ∷ 0 ∷ 0 ∷ 0 ∷ 0 ∷ 0 ∷ 0 ∷ 0 ∷ 0
    ∷ 0 ∷ 0 ∷ 0 ∷ 0 ∷ low ∷ high ∷ 0 ∷ 0 ∷ 0 ∷ 0 ∷ 0 ∷ 0 ∷ []

page_granted : (granted surroundings device (request 0 16)).0 ≡ success
unfolding of_le do_cpp_area_request area_alloc place search range_check
page_granted = refl

odd_refused : (granted surroundings device (request 5 0)).0 ≡ einval
unfolding of_le do_cpp_area_request area_alloc place search range_check
odd_refused = refl

not_granted : {r : Result} → r ≡ einval → r ≢ success
not_granted e f = cc

ioctl-area_request_example :
    dialogue (ioctl_cpp [] area_request (some (request 0 16))) (handle_cmd surroundings 1 device)
    ≡ record {
      client = ret (value 0 (filled (request 0 16) (granted surroundings device (request 0 16)).1));
      server = ret (true, record device { areas = (granted surroundings device (request 0 16)).2 });
      unread_by_client = [];
      unread_by_server = [];
    }
ioctl-area_request_example =
    ioctl-area_request surroundings 0 device [] (request 0 16) refl page_granted

ioctl-area_request_refused_example :
    dialogue (ioctl_cpp [] area_request (some (request 5 0))) (handle_cmd surroundings 1 device)
    ≡ record {
      client = ret (errno (error_of (result_word (granted surroundings device (request 5 0)).0)));
      server = ret (true, record device { areas = (granted surroundings device (request 5 0)).2 });
      unread_by_client = filled (request 5 0) (granted surroundings device (request 5 0)).1;
      unread_by_server = [];
    }
ioctl-area_request_refused_example =
    ioctl-area_request_refused surroundings 0 device [] (request 5 0) refl (not_granted odd_refused)

abbrev closed_fds : FdStatus
closed_fds = λ i. fd_unused

abbrev connects : OpenCalls
connects = record { socket = opened 4; connect = none; libc = open_error 2 }

-- `open` returns 0 for the device, whose descriptor is 4.
open_returns_0 : (shim_open "/dev/nfp-cpp-0" connects closed_fds).0 ≡ opened 0
unfolding shim_open open_device
open_returns_0 = refl

open64_connects :
    shim_open64 "/dev/nfp-cpp-0" connects closed_fds ≡ (opened 4, set_fd closed_fds 4 fd_cpp)
unfolding shim_open64 open_device
open64_connects = refl

-- Another device is opened as 5 and closed, and a call on the first is answered with an error.
abbrev events : List Event
events =
    opens64 "/dev/nfp-cpp-0" (record { socket = opened 5; connect = none; libc = open_error 2 })
    ∷ closes true 5
    ∷ replied true 4 (errno 5)
    ∷ []

served_until_close_example :
    GoesToDaemon (after_all events (set_fd closed_fds 4 fd_cpp)) 4
    × GoesToLibc (shim_close true 4 (after_all events (set_fd closed_fds 4 fd_cpp))) 4
    × ((other : ℕ)
        → 4 ≢ other
        → shim_close true 4 (after_all events (set_fd closed_fds 4 fd_cpp)) other
          ≡ after_all events (set_fd closed_fds 4 fd_cpp) other)
served_until_close_example =
    served_until_close "/dev/nfp-cpp-0" connects closed_fds (set_fd closed_fds 4 fd_cpp) 4 events
      refl open64_connects (five_apart, ((λ q. absurd (omega (arith, q))), (tt, tt)))
  where
    five_apart : opened 5 ≢ opened 4
    five_apart q = absurd (omega (arith, opened-injective q))

calls-Finishes_example :
    Finishes (pread_cpp (2 ^ 64) 200 (3 * 2 ^ 40))
    × Finishes (pwrite_cpp (2 ^ 64) bytes (3 * 2 ^ 40))
    × Finishes (ioctl_cpp [] area_request (some (request 0 16)))
calls-Finishes_example =
    calls-Finishes (2 ^ 64) 200 (3 * 2 ^ 40) bytes area_request (some (request 0 16)) []
      (omega arith) (omega arith)

handle_cmd-Finishes_example : Finishes (handle_cmd surroundings (2 ^ 64) device)
handle_cmd-Finishes_example =
    handle_cmd-Finishes surroundings (2 ^ 64) device (omega arith) asked
      (λ m. Transfer.library-small) Write.library-small
  where
    asked : (m : Mem) → ReadsAsked (surroundings.library m)
    asked m = Transfer.library-ReadsAsked

-- Two bytes are to come and the daemon has closed the socket: each `read` returns 0, and a loop of
-- any number of rounds is still there.
nonzero : (n : ℕ) → 0 < n → (n == 0) ≡ false
nonzero n l = ground arith

unfoldable closed : {A : Type 0} → Proc A → Proc A
closed (ret a) = ret a
closed spin = spin
closed (write b k) = closed (k (moved (length b)))
closed (read n k) = closed (k (moved 0) [])

closed_spins :
    (rounds left : ℕ) (buf : List ℕ) (k : List ℕ → Proc ℕ)
    → 0 < left
    → closed (read_all rounds left buf (ret 0) k) ≡ spin
unfolding closed read_all
closed_spins zero left buf k l = rw (nonzero left l) refl
closed_spins (suc rounds) left buf k l =
    rw (nonzero left l) (closed_spins rounds (left - 0) (buf ++ []) k (omega arith))
