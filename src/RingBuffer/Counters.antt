-- ===== src/RingBuffer/Counters.antt =====
-- The ring of user/lib/ring_buffer.c against two counters: entries popped and entries pushed since
-- it was empty at the start. The abstract ring holds `pushed - popped` entries, at most `n - 1`.
use nfp_udp_echo.Base.{
  ℕ, refl, ◌+◌, ◌-◌, ◌*◌, ◌^◌, ◌≤◌, ◌<◌, ◌≡◌, ◌≢◌, ◌↔◌, true, none, some, arith, ℕ_discrete, ap,
  ap₂, ◌∙◌, ◌%◌,
}
use nfp_udp_echo.Base.Slots.{
  pos, advance_at, pos-mod, pos-injective, pos-add_self, pos-distance, pos-bound, advance,
}
use nfp_udp_echo.Base.Words.{add32}
use nfp_udp_echo.RingBuffer.{
  RingBuffer, ringbuffer_empty, ringbuffer_size, ringbuffer_full, ringbuffer_push, ringbuffer_pop,
}

-- `n` entries of `p` bytes, `popped` and `pushed` entries so far.
pub record Counts (n p popped pushed : ℕ) (rb : RingBuffer) : Type 0 where
  pub some_entries : 0 < n
  pub some_bytes : 0 < p
  pub fits : n * p < 2 ^ 32
  pub entry_size_eq : rb.entry_size ≡ p
  pub capacity_eq : rb.capacity ≡ n * p
  pub head_eq : rb.head ≡ pos n p popped
  pub tail_eq : rb.tail ≡ pos n p pushed
  pub order : popped ≤ pushed
  pub room : pushed < popped + n

module _ {n p h t : ℕ} {rb : RingBuffer} (v : Counts n p h t rb) where
  open v use {some_entries, some_bytes, fits, order, room}

  -- The test for an empty ring is exact.
  pub empty_iff : (ringbuffer_empty rb ≡ true) ↔ (h ≡ t)
  unfolding ringbuffer_empty
  empty_iff = ground (arith, pos-injective n p h t some_bytes order room)

  tail_next : add32 rb.tail rb.entry_size % rb.capacity ≡ pos n p (t + 1)
  tail_next =
      ap₂ (λ a b. add32 a b % rb.capacity) v.tail_eq v.entry_size_eq
      ∙ ap (λ c. add32 (pos n p t) p % c) v.capacity_eq
      ∙ pos-mod n p t some_entries some_bytes fits

  -- The test for a full ring is exact: one entry of the `n` always stays free.
  pub full_iff : (ringbuffer_full rb ≡ true) ↔ (t + 1 ≡ h + n)
  unfolding ringbuffer_full
  full_iff = elim (ℕ_discrete (t + 1) (h + n)) [
    | yes q ↦ ground (arith, tail_next, pos-add_self n p h, ap (pos n p) q)
    | no q ↦
        ground
          (arith, tail_next, pos-injective n p h (t + 1) some_bytes (omega arith) (omega arith))
  ]

  advance_eq : (at k : ℕ) → at ≡ pos n p k → advance rb.entry_size rb.capacity at ≡ pos n p (k + 1)
  advance_eq at k e =
      advance_at n p k rb.entry_size rb.capacity at some_entries some_bytes fits v.entry_size_eq
        v.capacity_eq e

  -- `ringbuffer_push` on a ring that is not full does not abort, and pushes one entry.
  pub push_lem :
      t + 1 ≢ h + n
      → (rb' : RingBuffer) × (ringbuffer_push rb ≡ some rb')
        × Counts n p h (t + 1) rb'
        × (rb'.base_addr ≡ rb.base_addr)
  unfolding ringbuffer_push
  push_lem ne = (
    record rb { tail = advance rb.entry_size rb.capacity rb.tail },
    ground (arith, full_iff),
    ground (arith, advance_eq rb.tail t v.tail_eq),
    refl,
  )

  -- `ringbuffer_pop` on a ring that is not empty does not abort, and pops one entry.
  pub pop_lem :
      h ≢ t
      → (rb' : RingBuffer) × (ringbuffer_pop rb ≡ some rb')
        × Counts n p (h + 1) t rb'
        × (rb'.base_addr ≡ rb.base_addr)
  unfolding ringbuffer_pop
  pop_lem ne = (
    record rb { head = advance rb.entry_size rb.capacity rb.head },
    ground (arith, empty_iff),
    ground (arith, advance_eq rb.head h v.head_eq),
    refl,
  )

  pub push_full : t + 1 ≡ h + n → ringbuffer_push rb ≡ none
  unfolding ringbuffer_push
  push_full e = ground (arith, full_iff)

  pub pop_empty : h ≡ t → ringbuffer_pop rb ≡ none
  unfolding ringbuffer_pop
  pop_empty e = ground (arith, empty_iff)

  -- The size counts the bytes of the entries held.
  pub size_lem : ringbuffer_size rb ≡ (t - h) * p
  unfolding ringbuffer_size
  size_lem = ground (
    arith,
    pos-distance n p h t some_entries order room,
    pos-bound n p h some_entries,
    pos-bound n p t some_entries,
  )
