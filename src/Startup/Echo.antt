-- ===== src/Startup/Echo.antt =====
-- The whole server: `main` of user/app_main.c, and then the worker and the firmware.
use nfp_udp_echo.Base.{ℕ, ◌+◌, ◌*◌, ◌≤◌, ◌<◌, ◌≡◌, ◌≢◌, length, take}
use nfp_udp_echo.Base.Memory.{Mem}
use nfp_udp_echo.Memzone.{Zones, huge_page_size}
use nfp_udp_echo.Firmware.Platform.{Platform, IsNfp}
use nfp_udp_echo.Firmware.Dma.{Context}
use nfp_udp_echo.Echo.Worker.{WorkerPc}
use nfp_udp_echo.Echo.System.{System, Reach}
use nfp_udp_echo.Echo.Fifo.{frames, echo_fifo, worker_never_aborts}
use nfp_udp_echo.Startup.{StartCalls, Running, running, main}
use nfp_udp_echo.Startup.Setup.{KernelMaps, setup_of, main-IsSetup}

module _ (P : Platform) (nfp : IsNfp P) (t : Context) (island : ℕ) (phys : ℕ → ℕ) (c : StartCalls)
    (n p : ℕ) (zones : Zones) (mem : Mem) (r : Running) (some_entries : 0 < n) (some_bytes : 0 < p)
    (short : p ≤ 4096) (fits : n * p ≤ huge_page_size) (kernel : KernelMaps phys c)
    (goes_on : main c (n * p) zones mem ≡ running r) where
  -- Once `main` has started its threads, the frames sent to the network are the first frames
  -- accepted from it, byte for byte, in order, none lost, doubled or made up, and no assertion of
  -- the worker fails: in every state that the three programs reach with the buffers that `main` has
  -- reserved, for `n` packets of `p` bytes that fit in a huge page.
  pub main-echo_fifo :
      (host : Mem) (s : System)
      → Reach P t island (setup_of phys p (n * p) r) host s
      → (frames s ≡ take (length s.sent) s.accepted)
        × (length s.sent ≤ length s.accepted)
        × (length s.accepted ≤ length s.sent + 2 * n)
        × (s.worker.pc ≢ WorkerPc.aborted)
  main-echo_fifo host s reached =
      let S = setup_of phys p (n * p) r in
      let (setup, zeros_rx, zeros_tx) =
        main-IsSetup phys c n p zones mem r some_entries some_bytes short fits kernel goes_on in
      let (fifo, le, ge) = echo_fifo P nfp t island S n p setup host s reached in
      (fifo, le, ge, worker_never_aborts P nfp t island S n p setup host s reached)
