-- ===== src/Registers.antt =====
-- user/lib/io.h: accesses to the structure on the card, of 32 bits and, in two halves, of 64.
pub mod Halves
use nfp_udp_echo.Base.{ℕ, ◌+◌, ◌*◌, ◌/◌, ◌%◌, ◌^◌, ◌≤◌, ◌<◌, ◌≡◌, ◌⊎◌}

-- The accesses of user/nfpcore/rte_io.h that are used, on the state of the device memory.
pub record RteIo {ℓ} (S : Type ℓ) : Type ℓ where
  pub rte_read8 : ℕ → S → ℕ
  pub rte_write8 : ℕ → ℕ → S → S
  pub rte_write16 : ℕ → ℕ → S → S
  pub rte_read32 : ℕ → S → ℕ
  pub rte_write32 : ℕ → ℕ → S → S

-- A word that is written is read back, and no other is changed.
pub record IsRteIo {ℓ} {S : Type ℓ} (io : RteIo S) : Type ℓ where
  pub read_bound : (addr : ℕ) (s : S) → io.rte_read32 addr s < 2 ^ 32
  pub read_same :
      (val addr : ℕ) (s : S) → io.rte_read32 addr (io.rte_write32 val addr s) ≡ val % 2 ^ 32
  pub read_other :
      (val addr b : ℕ) (s : S)
      → (addr + 4 ≤ b) ⊎ (b + 4 ≤ addr)
      → io.rte_read32 b (io.rte_write32 val addr s) ≡ io.rte_read32 b s

module _ {ℓ} {S : Type ℓ} (io : RteIo S) where
  unfoldable pub nn_readb : ℕ → S → ℕ
  nn_readb addr s = io.rte_read8 addr s

  unfoldable pub nn_writeb : ℕ → ℕ → S → S
  nn_writeb val addr s = io.rte_write8 val addr s

  unfoldable pub nn_writew : ℕ → ℕ → S → S
  nn_writew val addr s = io.rte_write16 val addr s

  unfoldable pub nn_readl : ℕ → S → ℕ
  nn_readl addr s = io.rte_read32 addr s

  unfoldable pub nn_writel : ℕ → ℕ → S → S
  nn_writel val addr s = io.rte_write32 val addr s

  -- The two accesses meet two states, if the other side writes between them.
  unfoldable pub nn_readq : ℕ → S → S → ℕ
  unfolding nn_readl
  nn_readq addr s s' =
      let high = nn_readl (addr + 4) s in let low = nn_readl addr s' in low + high * 2 ^ 32

  -- The state between the two accesses, and the one behind them.
  unfoldable pub nn_writeq : ℕ → ℕ → S → S × S
  unfolding nn_writel
  nn_writeq val addr s =
      let between = nn_writel (val / 2 ^ 32) (addr + 4) s in (between, nn_writel val addr between)
