-- ===== src/Registers/Halves.antt =====
-- user/lib/io.h: a 64-bit access is two accesses of 32 bits.
use nfp_udp_echo.Base.{ℕ, ◌+◌, ◌/◌, ◌%◌, ◌^◌, ◌≤◌, ◌<◌, ◌≡◌, ◌⊎◌, inl, inr, refl, ◌∙◌, arith}
use nfp_udp_echo.Registers.{RteIo, IsRteIo, nn_readl, nn_readq, nn_writeq}

-- When an access of the other side comes: before, between or after the two of `nn_writeq`.
pub data Moment : Type 0 where
  before : Moment
  between : Moment
  after : Moment

module _ {ℓ} {S : Type ℓ} (io : RteIo S) (ok : IsRteIo io) (val addr : ℕ) (s : S) where
  abbrev pub state_at : Moment → S
  state_at Moment.before = s
  state_at Moment.between = (nn_writeq io val addr s).0
  state_at Moment.after = (nn_writeq io val addr s).1

  high_between : io.rte_read32 (addr + 4) (state_at Moment.between) ≡ val / 2 ^ 32 % 2 ^ 32
  unfolding nn_writeq
  high_between = ok.read_same (val / 2 ^ 32) (addr + 4) s

  high_after : io.rte_read32 (addr + 4) (state_at Moment.after) ≡ val / 2 ^ 32 % 2 ^ 32
  unfolding nn_writeq
  high_after = ok.read_other val addr (addr + 4) _ (inl (omega arith)) ∙ high_between

  low_between : io.rte_read32 addr (state_at Moment.between) ≡ io.rte_read32 addr s
  unfolding nn_writeq
  low_between = ok.read_other (val / 2 ^ 32) (addr + 4) addr s (inr (omega arith))

  low_after : io.rte_read32 addr (state_at Moment.after) ≡ val % 2 ^ 32
  unfolding nn_writeq
  low_after = ok.read_same val addr _

  -- A 64-bit value that is written is read back, and other words are as they were.
  pub nn_readq-nn_writeq :
      val < 2 ^ 64
      → (nn_readq io addr (state_at Moment.after) (state_at Moment.after) ≡ val)
        × ((b : ℕ)
            → (addr + 8 ≤ b) ⊎ (b + 4 ≤ addr)
            → nn_readl io b (state_at Moment.after) ≡ nn_readl io b s)
  unfolding nn_readq nn_writeq
  nn_readq-nn_writeq h = (
    omega (arith, high_after, low_after),
    λ b q.
        ok.read_other val addr b _ (ground (arith, q))
        ∙ ok.read_other (val / 2 ^ 32) (addr + 4) b s (ground (arith, q)),
  )

  -- Whoever reads 64 bits while they are written, whichever states its two accesses meet, reads the
  -- old value or the new one, if they have the same high half.
  pub nn_writeq_untorn :
      (x y : Moment)
      → val < 2 ^ 64
      → nn_readq io addr s s / 2 ^ 32 ≡ val / 2 ^ 32
      → (nn_readq io addr (state_at x) (state_at y) ≡ nn_readq io addr s s)
        ⊎ (nn_readq io addr (state_at x) (state_at y) ≡ val)
  unfolding nn_readq
  nn_writeq_untorn x y h e = untorn y (low_at y)
    where
      high_at : (m : Moment) → io.rte_read32 (addr + 4) (state_at m) ≡ val / 2 ^ 32
      high_at Moment.before = omega (arith, e, ok.read_bound addr s)
      high_at Moment.between = omega (arith, high_between)
      high_at Moment.after = omega (arith, high_after)

      low_at :
          (m : Moment)
          → (io.rte_read32 addr (state_at m) ≡ io.rte_read32 addr s)
            ⊎ (io.rte_read32 addr (state_at m) ≡ val % 2 ^ 32)
      low_at Moment.before = inl refl
      low_at Moment.between = inl low_between
      low_at Moment.after = inr low_after

      untorn :
          (m : Moment)
          → (io.rte_read32 addr (state_at m) ≡ io.rte_read32 addr s)
            ⊎ (io.rte_read32 addr (state_at m) ≡ val % 2 ^ 32)
          → (nn_readq io addr (state_at x) (state_at m) ≡ nn_readq io addr s s)
            ⊎ (nn_readq io addr (state_at x) (state_at m) ≡ val)
      untorn m (inl l) = inl (omega (arith, l, high_at x, high_at Moment.before))
      untorn m (inr l) = inr (omega (arith, l, high_at x))
