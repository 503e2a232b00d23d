-- ===== src/Echo/Invariant/RxSteps/View.antt =====
-- The step of the receiving program on the whole system.
use nfp_udp_echo.Base.{ℕ}
use nfp_udp_echo.Base.Memory.{Mem}
use nfp_udp_echo.Firmware.Packet.{Pkt}
use nfp_udp_echo.Firmware.Platform.{Platform}
use nfp_udp_echo.Firmware.Dma.{Context}
use nfp_udp_echo.Echo.Meta.{Setup}
use nfp_udp_echo.Echo.Rx.{RxPc, RxView, rx_at}
use nfp_udp_echo.Echo.System.{System}
use nfp_udp_echo.Echo.Invariant.Defs.{Counters, RxIs, Inv}

abbrev pub view : System → RxView
view s = record {
  rx = s.rx;
  meta = s.meta;
  mem = s.mem;
  released = s.released;
  accepted = s.accepted;
}

abbrev pub after : System → RxView → System
after s v = record s {
  rx = v.rx;
  meta = v.meta;
  mem = v.mem;
  released = v.released;
  accepted = v.accepted;
}

module _ (P : Platform) (t : Context) (island : ℕ) (S : Setup) (n p : ℕ) where
  -- What the invariant says of a program that stands at `pc`.
  abbrev pub Known : Counters → System → RxPc → Type 0
  Known c s pc = RxIs P t island S n p c.published c.acked s.meta s.mem s.accepted s.rx pc

  -- The step of a program that stands at `pc` keeps the invariant, for some counters.
  abbrev pub Kept : System → Pkt → Mem → RxPc → Type 0
  Kept s pkt card pc =
      (c' : Counters) × Inv P t island S n p c' (after s (rx_at P t pc pkt card (view s)))
