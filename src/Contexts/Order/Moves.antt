-- ===== src/Contexts/Order/Moves.antt =====
-- firmware/multi_rx.c and firmware/multi_tx.c: the steps of a context, by what they do to its entry.
use mathlib.Core.Option.{none-ne-some, some-injective}
use nfp_udp_echo.Base.{
  ℕ, ◌+◌, ◌*◌, ◌<◌, ◌≤◌, ◌≡◌, ◌≢◌, refl, sym, ap, ◌∙◌, subst, Bool, true, false, ◌⊎◌, some, ◌==◌,
  if◌then◌else◌, dec_lt, arith,
}
use nfp_udp_echo.Base.Slots.{
  pos, advance, advance_at, pos-zero, pos-injective, pos-apart, pos-bound,
}
use nfp_udp_echo.Contexts.Count.{
  Phase, asleep, idle, holding, publishing, Shared, holds, entry_of, count_le, count_asleep,
}
use nfp_udp_echo.Contexts.Order.{Held, Held-bounds, IsConfigured, Inv, moved, RingSize}

module _ {m n p : ℕ} (R : RingSize m n p) where
  -- The invariant, for some numbers.
  pub record Kept (v : Shared) (phases : ℕ → Phase) : Type 0 where
    pub published : ℕ
    pub taken : ℕ
    pub number : ℕ → ℕ
    pub inv : Inv m n p v phases published taken number

  -- A step of context `i` that takes and publishes nothing.
  pub quiet :
      {v v' : Shared} {phases phases' : ℕ → Phase} (i : ℕ) (ph ph' : Phase)
      → i < m
      → Kept v phases
      → ((j : ℕ) → i ≢ j → phases' j ≡ phases j)
      → phases i ≡ ph
      → phases' i ≡ ph'
      → ((U T : ℕ) → IsConfigured m n p v U T → IsConfigured m n p v' U T)
      → (v.init ≡ true → v'.init ≡ true)
      → holds ph' ≡ holds ph
      → ((U T k : ℕ) → Held m n p U T k v.init ph → Held m n p U T k v'.init ph')
      → Kept v' phases'
  quiet {v} i ph ph' l K same was now conf st ho he =
      let record { published = U; taken = T; number = number; inv = I } = K in
      record {
        published = U;
        taken = T;
        number = number;
        inv = moved m n p l I record {
          mine_eq = now;
          others_eq = same;
          configured = conf U T I.configured;
          stays = st;
          balance = omega (arith, ho, ap holds was);
          mine = he U T (number i) (subst (Held m n p U T (number i) v.init) was (I.held i l));
          same = λ j q. refl;
          others = λ j q ne h lo hi. (lo, hi, λ e. e);
          apart = λ j q ne h hj. I.distinct i j l q ne (ap holds was ∙ sym ho ∙ h) hj;
        };
      }

  -- A context takes the entry at the shadow pointer, and moves that on.
  pub take_entry :
      {v : Shared} {phases phases' : ℕ → Phase} (i : ℕ)
      → i < m
      → Kept v phases
      → ((j : ℕ) → i ≢ j → phases' j ≡ phases j)
      → phases i ≡ idle
      → phases' i ≡ holding v.shadow (advance v.size v.capacity v.shadow)
      → Kept (record v { shadow = advance v.size v.capacity v.shadow }) phases'
  take_entry {v} i l K same was ph =
      let record { published = U; taken = T; number = number; inv = I } = K in
      let is : v.init ≡ true = subst (Held m n p U T (number i) v.init) was (I.held i l) in
      let (cap, size) = I.ready is in
      let up : advance v.size v.capacity v.shadow ≡ pos n p (T + 1) =
        advance_at n p T _ _ _ R.some_entries R.some_bytes R.fits size cap I.shadow in
      let mine_eq : (if i == i then T else number i) ≡ T = ground arith in
      record {
        published = U;
        taken = T + 1;
        number = λ j. if i == j then T else number j;
        inv = moved m n p l I record {
          mine_eq = ph;
          others_eq = same;
          configured = record {
            config = I.config;
            ready = I.ready;
            shadow = up;
            pointer = I.pointer;
          };
          stays = λ h. h;
          balance = omega (arith, ap holds was);
          mine = (
            is,
            omega (arith, mine_eq, I.total),
            omega (arith, mine_eq),
            I.shadow ∙ ap (pos n p) (sym mine_eq),
            up ∙ ap (λ k. pos n p (k + 1)) (sym mine_eq),
          );
          same = λ j q. ground arith;
          others = λ j q ne h lo hi. (lo, omega arith, λ e. e);
          apart = λ j q ne h hj same'.
              let (_, hi) = Held-bounds m n p U T (number j) v.init _ hj (I.held j q) in
              absurd (omega (arith, hi, sym mine_eq ∙ same'));
        };
      }

  -- A context sees the pointer at its own entry: it is the first of those taken.
  pub take_turn :
      {v : Shared} {phases phases' : ℕ → Phase} (i x y : ℕ)
      → i < m
      → Kept v phases
      → ((j : ℕ) → i ≢ j → phases' j ≡ phases j)
      → phases i ≡ holding x y
      → v.pointer ≡ x
      → phases' i ≡ publishing x y
      → Kept v phases'
  take_turn {v} {phases} i x y l K same was at_x ph =
      let record { published = U; taken = T; number = number; inv = I } = K in
      let (is, lo, hi, at, up) = subst (Held m n p U T (number i) v.init) was (I.held i l) in
      let room = count_le m phases in
      let few = R.few in
      let first : number i ≡ U = sym (
        pos-injective n p U (number i) R.some_bytes lo (omega (arith, hi, I.total, room, few))
          (sym I.pointer ∙ at_x ∙ at)) in
      record {
        published = U;
        taken = T;
        number = number;
        inv = moved m n p l I record {
          mine_eq = ph;
          others_eq = same;
          configured = I.configured;
          stays = λ h. h;
          balance = omega (arith, ap holds was);
          mine = ((is, lo, hi, at, up), first);
          same = λ j q. refl;
          others = λ j q ne h lo hi. (lo, hi, λ e. e);
          apart = λ j q ne h hj. I.distinct i j l q ne (ap holds was) hj;
        };
      }

  -- A context publishes its entry.
  pub publish_entry :
      {v : Shared} {phases phases' : ℕ → Phase} (i x y : ℕ)
      → i < m
      → Kept v phases
      → ((j : ℕ) → i ≢ j → phases' j ≡ phases j)
      → phases i ≡ publishing x y
      → phases' i ≡ idle
      → Kept (record v { pointer = y }) phases'
  publish_entry {v} i x y l K same was ph =
      let record { published = U; taken = T; number = number; inv = I } = K in
      let ((is, lo, hi, at, up), first) =
        subst (Held m n p U T (number i) v.init) was (I.held i l) in
      record {
        published = U + 1;
        taken = T;
        number = number;
        inv = moved m n p l I record {
          mine_eq = ph;
          others_eq = same;
          configured = record {
            config = I.config;
            ready = I.ready;
            shadow = I.shadow;
            pointer = up ∙ ap (λ k. pos n p (k + 1)) first;
          };
          stays = λ h. h;
          balance = omega (arith, ap holds was);
          mine = is;
          same = λ j q. refl;
          others = λ j q ne h lo' hi'.
              let differ : number i ≢ number j = I.distinct i j l q ne (ap holds was) h in
              let above : number j ≢ U = λ e'. differ (first ∙ sym e') in
              (omega (arith, above), hi', λ e'. absurd (above e'));
          apart = λ j q ne h hj. absurd (omega (arith, h));
        };
      }

  -- All contexts asleep and the ring at its start.
  pub at_start :
      (v : Shared)
      → v.start_signal ≡ 0
      → v.init ≡ false
      → v.shadow ≡ 0
      → v.pointer ≡ 0
      → Kept v (λ i. asleep)
  at_start v st ini sh po = record {
    published = 0;
    taken = 0;
    number = λ i. 0;
    inv = record {
      configured = record {
        config = λ h. absurd (h st);
        ready = λ h. ground (arith, h, ini);
        shadow = sh ∙ sym (pos-zero n p);
        pointer = po ∙ sym (pos-zero n p);
      };
      total = omega (arith, count_asleep m);
      held = λ i l. tt;
      distinct = λ i j l q ne h. absurd (omega (arith, h));
    };
  }

  -- What the host writes on the card.
  pub configured_anew :
      {v v' : Shared} {phases : ℕ → Phase}
      → Kept v phases
      → ((U T : ℕ) → IsConfigured m n p v U T → IsConfigured m n p v' U T)
      → v'.init ≡ v.init
      → Kept v' phases
  configured_anew {v} {v'} {phases} K conf ini =
      let record { published = U; taken = T; number = number; inv = I } = K in
      record {
        published = U;
        taken = T;
        number = number;
        inv = record {
          configured = conf U T I.configured;
          total = I.total;
          held = λ i l. subst (λ b. Held m n p U T (number i) b (phases i)) (sym ini) (I.held i l);
          distinct = I.distinct;
        };
      }

  -- The pointer is at the entry of a context that publishes, which moves it by that entry.
  pub publishing_lem :
      {v : Shared} {phases : ℕ → Phase} (i x y : ℕ)
      → i < m
      → Kept v phases
      → phases i ≡ publishing x y
      → (v.pointer ≡ x) × (y ≡ advance p (n * p) x)
  publishing_lem {v} i x y l K e =
      let record { published = U; taken = T; number = number; inv = I } = K in
      let ((_, _, _, at, up), first) = subst (Held m n p U T (number i) v.init) e (I.held i l) in
      (
        I.pointer ∙ ap (pos n p) (sym first) ∙ sym at,
        up
            ∙ sym (
                advance_at n p (number i) p (n * p) x R.some_entries R.some_bytes R.fits refl refl
                  at),
      )

  -- What the number of a context says of its entry.
  Held-entry :
      (U T k : ℕ) (b : Bool) (ph : Phase) (x : ℕ)
      → entry_of ph ≡ some x
      → Held m n p U T k b ph
      → (holds ph ≡ 1) × (U ≤ k) × (k < T) × (x ≡ pos n p k)
  Held-entry U T k b asleep x e h = absurd (none-ne-some x e)
  Held-entry U T k b idle x e h = absurd (none-ne-some x e)
  Held-entry U T k b (holding a c) x e (_, lo, hi, at, _) =
      (refl, lo, hi, sym (some-injective _ _ e) ∙ at)
  Held-entry U T k b (publishing a c) x e ((_, lo, hi, at, _), _) =
      (refl, lo, hi, sym (some-injective _ _ e) ∙ at)

  -- The entries of two contexts lie inside the buffer and do not overlap.
  pub entries_lem :
      {v : Shared} {phases : ℕ → Phase} (i j x y : ℕ)
      → i < m
      → j < m
      → i ≢ j
      → Kept v phases
      → entry_of (phases i) ≡ some x
      → entry_of (phases j) ≡ some y
      → (x + p ≤ n * p) × (y + p ≤ n * p) × ((x + p ≤ y) ⊎ (y + p ≤ x))
  entries_lem {v} {phases} i j x y l q ne K ex ey =
      let record { published = U; taken = T; number = number; inv = I } = K in
      let (hi, lo_i, hi_i, at_i) = Held-entry U T (number i) v.init (phases i) x ex (I.held i l) in
      let (hj, lo_j, hi_j, at_j) = Held-entry U T (number j) v.init (phases j) y ey (I.held j q) in
      let differ = I.distinct i j l q ne hi hj in
      let bound_i = pos-bound n p (number i) R.some_entries in
      let bound_j = pos-bound n p (number j) R.some_entries in
      let room = count_le m phases in
      let few = R.few in
      (
        omega (arith, at_i, bound_i),
        omega (arith, at_j, bound_j),
        elim (dec_lt (number i) (number j)) [
          | yes lt ↦ ground (
            arith,
            at_i,
            at_j,
            pos-apart n p (number i) (number j) (omega arith)
                (omega (arith, lo_i, hi_j, room, few, I.total)) differ,
          )
          | no ge ↦ ground (
            arith,
            at_i,
            at_j,
            pos-apart n p (number j) (number i) (omega arith)
                (omega (arith, lo_j, hi_i, room, few, I.total)) (λ e. differ (sym e)),
          )
        ],
      )
