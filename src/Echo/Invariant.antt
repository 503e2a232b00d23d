-- ===== src/Echo/Invariant.antt =====
-- The invariant of the echo system, at the start and along every run: counters of packets place
-- every pointer, every packet in a buffer and every frame sent.
pub mod Defs
pub mod Kept
mod Copy
mod WorkerSteps
mod RxSteps
mod TxSteps
use nfp_udp_echo.Base.{ℕ, ◌+◌, ◌≤◌, ◌<◌, refl, arith, sym}
use nfp_udp_echo.Base.Memory.{Mem}
use nfp_udp_echo.Base.Slots.{pos, pos-zero}
use nfp_udp_echo.Firmware.Platform.{Platform, IsNfp}
use nfp_udp_echo.Firmware.Dma.{Context}
use nfp_udp_echo.Echo.Meta.{Setup, IsSetup}
use nfp_udp_echo.Echo.System.{System, Event, init, step, IsAllowed, Reach, start, next}
use Defs.{Counters, Inv}
use WorkerSteps.{worker-Inv}
use RxSteps.{rx-Inv}
use TxSteps.{tx-Inv}

module _ (P : Platform) (nfp : IsNfp P) (t : Context) (island : ℕ) (S : Setup) (n p : ℕ)
    (setup : IsSetup S n p) where
  none_yet : Counters
  none_yet = record {
    published = 0;
    seen_rx = 0;
    forwarded = 0;
    acked = 0;
    offered = 0;
    fetched = 0;
    seen_tx = 0;
  }

  init-Inv : (mem : Mem) → Inv P t island S n p none_yet (init mem)
  unfolding none_yet
  init-Inv mem = record {
    order = omega (arith, setup.some_entries);
    pointers = omega (arith, pos-zero n p);
    worker = omega arith;
    rx_stored = λ k lo hi. absurd (omega arith);
    tx_stored = λ k lo hi. absurd (omega arith);
    rx = (refl, refl);
    tx = (refl, refl);
  }

  -- Any step of any of the three programs keeps the invariant.
  pub step-Inv :
      (e : Event) (c : Counters) (s : System)
      → IsAllowed P t island S e
      → Inv P t island S n p c s
      → (c' : Counters) × Inv P t island S n p c' (step P t island S e s)
  step-Inv Event.host c s ok inv = worker-Inv P t island S n p setup c s inv
  step-Inv (Event.rx pkt card) c s ok inv = rx-Inv P nfp t island S n p setup c s pkt card ok inv
  step-Inv (Event.tx a) c s ok inv = tx-Inv P nfp t island S n p setup c s a ok inv

  pub Reach-Inv :
      (mem : Mem) (s : System)
      → Reach P t island S mem s
      → (c : Counters) × Inv P t island S n p c s
  Reach-Inv mem s start = (none_yet, init-Inv mem)
  Reach-Inv mem s (next {s = r} e before ok) =
      let (c, inv) = Reach-Inv mem r before in step-Inv e c r ok inv
