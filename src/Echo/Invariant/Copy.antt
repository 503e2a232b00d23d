-- ===== src/Echo/Invariant/Copy.antt =====
-- What the worker's copy of one packet does to the two buffers.
use nfp_udp_echo.Base.{
  ℕ, ◌+◌, ◌*◌, ◌≤◌, ◌<◌, ◌≡◌, ap, ap₂, sym, ◌∙◌, ◌⊎◌, List, some, get_elem?, length, arith,
  ℕ_discrete,
}
use nfp_udp_echo.Base.Memory.{
  Mem, read_bytes, write_bytes, read-write_apart, read-write_self, length-read_bytes,
}
use nfp_udp_echo.Base.Slots.{pos, pos-bound, pos-apart}
use nfp_udp_echo.RingBuffer.{RingBuffer, ringbuffer_front, ringbuffer_back}
use nfp_udp_echo.Echo.Meta.{Setup, IsSetup}
use nfp_udp_echo.Echo.Worker.{copy_packet}
use nfp_udp_echo.Echo.Invariant.Defs.{Counters, Order, Stored, Rings}

module _ (S : Setup) (n p : ℕ) (setup : IsSetup S n p) where
  open setup use {some_entries, some_bytes, zone_rx, zone_tx, zones_apart}

  abbrev pub rx_entry : ℕ → ℕ
  rx_entry k = S.buffer_rx.iova + pos n p k

  abbrev pub tx_entry : ℕ → ℕ
  tx_entry k = S.buffer_tx.iova + pos n p k

  -- An entry of one buffer and an entry of the other do not overlap.
  pub entries_apart : (j k : ℕ) → (rx_entry j + p ≤ tx_entry k) ⊎ (tx_entry k + p ≤ rx_entry j)
  entries_apart j k =
      ground (arith, zones_apart, pos-bound n p j some_entries, pos-bound n p k some_entries)

  pub pos_in : (k : ℕ) → pos n p k < n * p
  pos_in k = omega (arith, pos-bound n p k some_entries)

  -- The copy takes the entry of `ring_rx` at its head to the entry of `ring_tx` at its tail.
  pub copy_packet_lem :
      (c : Counters) (rx tx : RingBuffer) (mem : Mem)
      → Rings S n p c rx tx
      → copy_packet S (ringbuffer_back tx) (ringbuffer_front rx) mem
        ≡ write_bytes mem (tx_entry c.forwarded) (read_bytes mem (rx_entry c.forwarded) p)
  unfolding copy_packet ringbuffer_back ringbuffer_front
  copy_packet_lem c rx tx mem r =
      ap₂ (λ a b. write_bytes mem a (read_bytes mem b S.udp_packet_size))
        (ap S.phys (omega (arith, r.tx_base, r.tx_counts))
          ∙ zone_tx.translated (pos n p c.forwarded) (pos_in c.forwarded))
        (ap S.phys (omega (arith, r.rx_base, r.rx_counts))
          ∙ zone_rx.translated (pos n p c.forwarded) (pos_in c.forwarded))
      ∙ ap (λ l. write_bytes mem (tx_entry c.forwarded) (read_bytes mem (rx_entry c.forwarded) l))
          setup.packet_eq

  -- A write of one entry of the send buffer leaves the receive buffer.
  pub rx_entry-write :
      (mem : Mem) (j k : ℕ) (xs : List ℕ)
      → length xs ≡ p
      → read_bytes (write_bytes mem (tx_entry k) xs) (rx_entry j) p ≡ read_bytes mem (rx_entry j) p
  rx_entry-write mem j k xs e =
      read-write_apart mem (tx_entry k) xs (rx_entry j) p (ground (arith, entries_apart j k))

  pub tx_entry-write :
      (mem : Mem) (j k : ℕ) (xs : List ℕ)
      → length xs ≡ p
      → read_bytes (write_bytes mem (rx_entry k) xs) (tx_entry j) p ≡ read_bytes mem (tx_entry j) p
  tx_entry-write mem j k xs e =
      read-write_apart mem (rx_entry k) xs (tx_entry j) p (ground (arith, entries_apart k j))

  -- A write of entry `k` of a buffer adds packet `k` to those stored, if it is that packet.
  pub Stored-write :
      (base lo k : ℕ) (accepted : List (List ℕ)) (mem : Mem) (xs : List ℕ)
      → length xs ≡ p
      → k < lo + n
      → get_elem? accepted k ≡ some xs
      → Stored base n p accepted mem lo k
      → Stored base n p accepted (write_bytes mem (base + pos n p k) xs) lo (k + 1)
  Stored-write base lo k accepted mem xs e room new old j hlo hhi = elim (ℕ_discrete j k) [
    | yes q ↦
        ap (get_elem? accepted) q
        ∙ new
        ∙ ap some (
            sym (
              ap (λ i. read_bytes (write_bytes mem (base + pos n p k) xs) (base + pos n p i) p) q
              ∙ read-write_self mem (base + pos n p k) xs p (sym e)))
    | no q ↦
        old j hlo (omega arith)
        ∙ ap some (
            sym (
              read-write_apart mem (base + pos n p k) xs (base + pos n p j) p
                (ground (arith, pos-apart n p j k (omega arith) (omega arith) q))))
  ]

  pub copied :
      (c : Counters) (rx tx : RingBuffer) (mem : Mem) (accepted : List (List ℕ))
      → Order n c
      → c.forwarded < c.seen_rx
      → Rings S n p c rx tx
      → Stored S.buffer_rx.iova n p accepted mem c.acked c.published
      → Stored S.buffer_tx.iova n p accepted mem c.fetched c.forwarded
      → let mem' = copy_packet S (ringbuffer_back tx) (ringbuffer_front rx) mem in
        Stored S.buffer_rx.iova n p accepted mem' c.acked c.published
        × Stored S.buffer_tx.iova n p accepted mem' c.fetched (c.forwarded + 1)
        × ((j : ℕ) → read_bytes mem' (rx_entry j) p ≡ read_bytes mem (rx_entry j) p)
  copied c rx tx mem accepted o h r hr ht = rw (copy_packet_lem c rx tx mem r) (
    (λ k lo hi. hr k lo hi ∙ ap some (sym (kept k))),
    Stored-write S.buffer_tx.iova c.fetched c.forwarded accepted mem _ (length-read_bytes mem _ p)
        (omega (arith, o)) (hr c.forwarded (omega (arith, o)) (omega (arith, o))) ht,
    kept,
  )
    where
      kept :
          (j : ℕ)
          → read_bytes
              (write_bytes mem (tx_entry c.forwarded) (read_bytes mem (rx_entry c.forwarded) p))
              (rx_entry j)
              p
            ≡ read_bytes mem (rx_entry j) p
      kept j = rx_entry-write mem j c.forwarded _ (length-read_bytes mem _ p)
