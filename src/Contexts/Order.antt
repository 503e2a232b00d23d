-- ===== src/Contexts/Order.antt =====
-- firmware/multi_rx.c and firmware/multi_tx.c: contexts publish their entries in the order in which
-- they took them.
pub mod Moves
use nfp_udp_echo.Base.{
  ℕ, ◌+◌, ◌*◌, ◌^◌, ◌<◌, ◌≤◌, ◌≡◌, ◌≢◌, refl, sym, ap, ◌∙◌, subst, Bool, true, ℕ_discrete, arith,
}
use nfp_udp_echo.Base.Slots.{pos}
use nfp_udp_echo.Contexts.Count.{
  Phase, asleep, idle, holding, publishing, Shared, holds, count, count_change,
}

-- `m` contexts and a ring of `n` entries of `p` bytes.
pub record RingSize (m n p : ℕ) : Type 0 where
  pub some_entries : 0 < n
  pub few : m ≤ n
  pub some_bytes : 0 < p
  pub fits : n * p < 2 ^ 32

module _ (m n p : ℕ) where
  -- The entry of number `k`, of which the numbers from `U` to `T` are taken and not yet published.
  abbrev pub Entry : (U T k : ℕ) → Bool → (at next : ℕ) → Type 0
  Entry U T k b at next =
      (b ≡ true) × (U ≤ k) × (k < T) × (at ≡ pos n p k) × (next ≡ pos n p (k + 1))

  abbrev pub Held : (U T k : ℕ) → Bool → Phase → Type 0
  Held U T k b asleep = Unit
  Held U T k b idle = b ≡ true
  Held U T k b (holding at next) = Entry U T k b at next
  Held U T k b (publishing at next) = Entry U T k b at next × (k ≡ U)

  -- What is announced and what is copied are `n` entries of `p` bytes; the two pointers are at the
  -- numbers `T` and `U`.
  pub record IsConfigured (v : Shared) (U T : ℕ) : Type 0 where
    pub config : v.start_signal ≢ 0 → (v.buffer_size ≡ n * p) × (v.entry_size ≡ p)
    pub ready : v.init ≡ true → (v.capacity ≡ n * p) × (v.size ≡ p)
    pub shadow : v.shadow ≡ pos n p T
    pub pointer : v.pointer ≡ pos n p U

  -- `U` entries are published and `T` taken; a context that holds one holds that of its number.
  pub record Inv (v : Shared) (phases : ℕ → Phase) (U T : ℕ) (number : ℕ → ℕ) : Type 0 where
    pub configured : IsConfigured v U T
    pub open configured use *
    pub total : T ≡ U + count m phases
    pub held : (i : ℕ) → i < m → Held U T (number i) v.init (phases i)
    pub distinct :
        (i j : ℕ)
        → i < m
        → j < m
        → i ≢ j
        → holds (phases i) ≡ 1
        → holds (phases j) ≡ 1
        → number i ≢ number j

  -- Numbers that stay between the new bounds.
  Held-mono :
      (U T U' T' k : ℕ) (b b' : Bool) (ph : Phase)
      → (b ≡ true → b' ≡ true)
      → (holds ph ≡ 1 → U ≤ k → k < T → (U' ≤ k) × (k < T') × (k ≡ U → k ≡ U'))
      → Held U T k b ph
      → Held U' T' k b' ph
  Held-mono U T U' T' k b b' asleep f g h = tt
  Held-mono U T U' T' k b b' idle f g h = f h
  Held-mono U T U' T' k b b' (holding x y) f g (i, lo, hi, at, up) =
      let (lo', hi', _) = g refl lo hi in (f i, lo', hi', at, up)
  Held-mono U T U' T' k b b' (publishing x y) f g ((i, lo, hi, at, up), e) =
      let (lo', hi', e') = g refl lo hi in ((f i, lo', hi', at, up), e' e)

  -- The number of a context that holds an entry is in the bounds.
  pub Held-bounds :
      (U T k : ℕ) (b : Bool) (ph : Phase) → holds ph ≡ 1 → Held U T k b ph → (U ≤ k) × (k < T)
  Held-bounds U T k b asleep e h = absurd (omega arith)
  Held-bounds U T k b idle e h = absurd (omega arith)
  Held-bounds U T k b (holding x y) e (_, lo, hi, _, _) = (lo, hi)
  Held-bounds U T k b (publishing x y) e ((_, lo, hi, _, _), _) = (lo, hi)

  -- What a step of context `i` to the phase `ph` changes, besides: the numbers then, of which only
  -- that of `i` may be new.
  pub record Move (v v' : Shared) (phases phases' : ℕ → Phase) (i : ℕ) (ph : Phase) (U T U' T' : ℕ)
      (number number' : ℕ → ℕ) : Type 0 where
    pub mine_eq : phases' i ≡ ph
    pub others_eq : (j : ℕ) → i ≢ j → phases' j ≡ phases j
    pub configured : IsConfigured v' U' T'
    pub stays : v.init ≡ true → v'.init ≡ true
    pub balance : T' + U + holds (phases i) ≡ U' + T + holds ph
    pub mine : Held U' T' (number' i) v'.init ph
    pub same : (j : ℕ) → i ≢ j → number' j ≡ number j
    pub others :
        (j : ℕ)
        → j < m
        → i ≢ j
        → holds (phases j) ≡ 1
        → U ≤ number j
        → number j < T
        → (U' ≤ number j) × (number j < T') × (number j ≡ U → number j ≡ U')
    pub apart : (j : ℕ) → j < m → i ≢ j → holds ph ≡ 1 → holds (phases j) ≡ 1 → number' i ≢ number j

  pub moved :
      {v v' : Shared} {phases phases' : ℕ → Phase} {i : ℕ} {ph : Phase} {U T U' T' : ℕ}
      {number number' : ℕ → ℕ}
      → i < m
      → Inv v phases U T number
      → Move v v' phases phases' i ph U T U' T' number number'
      → Inv v' phases' U' T' number'
  moved {v} {v'} {phases} {phases'} {i} {ph} {U} {T} {U'} {T'} {number} {number'} l I M = record {
    configured = M.configured;
    total =
        let c = count_change m i phases phases' l M.others_eq in
        omega (arith, c, ap holds M.mine_eq, I.total, M.balance);
    held = λ j q. elim (ℕ_discrete i j) [
      | yes e ↦
          subst (λ x. Held U' T' (number' x) v'.init (phases' x)) e
            (subst (Held U' T' (number' i) v'.init) (sym M.mine_eq) M.mine)
      | no ne ↦ subst (Held U' T' (number' j) v'.init) (sym (M.others_eq j ne)) (
          subst (λ k. Held U' T' k v'.init (phases j)) (sym (M.same j ne))
            (Held-mono U T U' T' (number j) v.init v'.init (phases j) M.stays (M.others j q ne)
              (I.held j q)))
    ];
    distinct = λ j k q r ne hj hk. elim (ℕ_discrete i j) [
      | yes e ↦
          let i_not_k : i ≢ k = λ e'. ne (sym e ∙ e') in
          λ same.
            M.apart k r i_not_k (mine_holds j e hj) (other_holds k i_not_k hk)
              (ap number' e ∙ same ∙ M.same k i_not_k)
      | no i_not_j ↦ elim (ℕ_discrete i k) [
        | yes e ↦ λ same.
            M.apart j q i_not_j (mine_holds k e hk) (other_holds j i_not_j hj)
              (ap number' e ∙ sym same ∙ M.same j i_not_j)
        | no i_not_k ↦ λ same.
            I.distinct j k q r ne (other_holds j i_not_j hj) (other_holds k i_not_k hk)
              (sym (M.same j i_not_j) ∙ same ∙ M.same k i_not_k)
      ]
    ];
  }
    where
      mine_holds : (j : ℕ) → i ≡ j → holds (phases' j) ≡ 1 → holds ph ≡ 1
      mine_holds j e h = sym (ap holds M.mine_eq) ∙ ap (λ x. holds (phases' x)) e ∙ h

      other_holds : (j : ℕ) → i ≢ j → holds (phases' j) ≡ 1 → holds (phases j) ≡ 1
      other_holds j e h = sym (ap holds (M.others_eq j e)) ∙ h
