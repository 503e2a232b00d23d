-- ===== src/Echo/Invariant/WorkerSteps/View.antt =====
-- The step of the worker on the whole system.
use nfp_udp_echo.Base.{ℕ}
use nfp_udp_echo.Firmware.Platform.{Platform}
use nfp_udp_echo.Firmware.Dma.{Context}
use nfp_udp_echo.Echo.Meta.{Setup}
use nfp_udp_echo.Echo.Worker.{WorkerPc, Shared, worker_at}
use nfp_udp_echo.Echo.System.{System}
use nfp_udp_echo.Echo.Invariant.Defs.{Counters, Inv}

abbrev pub view : System → Shared
view s = record { worker = s.worker; meta = s.meta; mem = s.mem }

abbrev pub after : System → Shared → System
after s v = record s { worker = v.worker; meta = v.meta; mem = v.mem }

-- The step of a worker that stands at `pc` keeps the invariant, for some counters.
abbrev pub Kept :
    (P : Platform) (t : Context) (island : ℕ) (S : Setup) (n p : ℕ) → System → WorkerPc → Type 0
Kept P t island S n p s pc =
    (c' : Counters) × Inv P t island S n p c' (after s (worker_at S pc (view s)))
