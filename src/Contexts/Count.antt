-- ===== src/Contexts/Count.antt =====
-- What firmware/multi_rx.c and firmware/multi_tx.c have in common: where a context stands with the
-- entry that it takes from the ring, and how many contexts hold one.
use nfp_udp_echo.Base.{
  ℕ, zero, suc, ◌+◌, ◌<◌, ◌≤◌, ◌≡◌, ◌≢◌, refl, Bool, Option, none, some, ap, ℕ_discrete, arith,
}
use nfp_udp_echo.Contexts.{set_pc}

-- `holding` until the context has seen that its turn has come, then `publishing`: the entry it took,
-- and the one behind it.
pub data Phase : Type 0 where
  asleep : Phase
  idle : Phase
  holding : (at next : ℕ) → Phase
  publishing : (at next : ℕ) → Phase

-- The configuration on the card, the contexts' copy of it once `init` is set, the shadow of the
-- pointer in the engine's memory, and the pointer on the card.
pub record Shared : Type 0 where
  pub start_signal : ℕ
  pub buffer_size : ℕ
  pub entry_size : ℕ
  pub init : Bool
  pub capacity : ℕ
  pub size : ℕ
  pub shadow : ℕ
  pub pointer : ℕ

abbrev pub holds : Phase → ℕ
holds asleep = 0
holds idle = 0
holds (holding at next) = 1
holds (publishing at next) = 1

-- The entry that a context has taken and not yet published.
abbrev pub entry_of : Phase → Option ℕ
entry_of asleep = none
entry_of idle = none
entry_of (holding at next) = some at
entry_of (publishing at next) = some at

unfoldable pub count : ℕ → (ℕ → Phase) → ℕ
count zero phases = 0
count (suc m) phases = count m phases + holds (phases m)

holds_le : (ph : Phase) → holds ph ≤ 1
holds_le asleep = omega arith
holds_le idle = omega arith
holds_le (holding at next) = omega arith
holds_le (publishing at next) = omega arith

pub count_le : (m : ℕ) (phases : ℕ → Phase) → count m phases ≤ m
unfolding count
count_le zero phases = omega arith
count_le (suc m) phases = omega (arith, count_le m phases, holds_le (phases m))

count_same :
    (m : ℕ) (phases phases' : ℕ → Phase)
    → ((j : ℕ) → j < m → phases' j ≡ phases j)
    → count m phases' ≡ count m phases
unfolding count
count_same zero phases phases' h = refl
count_same (suc m) phases phases' h =
    omega
      (arith, count_same m phases phases' (λ j l. h j (omega arith)), ap holds (h m (omega arith)))

-- One context changes its phase.
pub count_change :
    (m i : ℕ) (phases phases' : ℕ → Phase)
    → i < m
    → ((j : ℕ) → i ≢ j → phases' j ≡ phases j)
    → count m phases' + holds (phases i) ≡ count m phases + holds (phases' i)
unfolding count
count_change zero i phases phases' h same = absurd (omega arith)
count_change (suc m) i phases phases' h same = elim (ℕ_discrete i m) [
  | yes e ↦ omega (
    arith,
    count_same m phases phases' (λ j l. same j (omega (arith, e))),
    ap (λ k. holds (phases k)) e,
    ap (λ k. holds (phases' k)) e,
  )
  | no ne ↦ omega (arith, count_change m i phases phases' (omega arith) same, ap holds (same m ne))
]

pub count_asleep : (m : ℕ) → count m (λ i. asleep) ≡ 0
unfolding count
count_asleep zero = refl
count_asleep (suc m) = omega (arith, count_asleep m)

-- The phases when context `i` is at another point of its program.
pub here {ℓ} :
    {A : Type ℓ} (phase_of : A → Phase) (i : ℕ) (pc : A) (contexts : ℕ → A)
    → phase_of (set_pc i pc contexts i) ≡ phase_of pc
here phase_of i pc contexts = ap phase_of (ground arith)

pub there {ℓ} :
    {A : Type ℓ} (phase_of : A → Phase) (i : ℕ) (pc : A) (contexts : ℕ → A) (j : ℕ)
    → i ≢ j
    → phase_of (set_pc i pc contexts j) ≡ phase_of (contexts j)
there phase_of i pc contexts j ne = ap phase_of (ground arith)
