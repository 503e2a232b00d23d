-- ===== src/RingBuffer.antt =====
-- The host's ring buffer: user/lib/ring_buffer.h and user/lib/ring_buffer.c. `rte_wmb` orders the
-- stores of one processor and has no effect on the values.
pub mod Counters
use nfp_udp_echo.Base.{ℕ, ◌+◌, ◌%◌, Bool, Option, none, some, ltb, ◌==◌, if◌then◌else◌}
use nfp_udp_echo.Base.Words.{add32, sub32}
use nfp_udp_echo.Base.Slots.{advance}

-- `struct ringbuffer_t`: the fields but the first are `uint32_t`, and count bytes.
pub record RingBuffer : Type 0 where
  pub base_addr : ℕ
  pub entry_size : ℕ
  pub capacity : ℕ
  pub head : ℕ
  pub tail : ℕ

unfoldable pub ringbuffer_empty : RingBuffer → Bool
ringbuffer_empty rb = rb.head == rb.tail

unfoldable pub ringbuffer_size : RingBuffer → ℕ
ringbuffer_size rb =
    if ltb rb.tail rb.head then add32 (sub32 rb.capacity rb.head) rb.tail else sub32 rb.tail rb.head

unfoldable pub ringbuffer_full : RingBuffer → Bool
ringbuffer_full rb = add32 rb.tail rb.entry_size % rb.capacity == rb.head

unfoldable pub ringbuffer_front : RingBuffer → ℕ
ringbuffer_front rb = rb.base_addr + rb.head

unfoldable pub ringbuffer_back : RingBuffer → ℕ
ringbuffer_back rb = rb.base_addr + rb.tail

-- `none` is the abort of the `assert`.
unfoldable pub ringbuffer_push : RingBuffer → Option RingBuffer
unfolding ringbuffer_full
ringbuffer_push rb =
    if ringbuffer_full rb
    then none
    else some (record rb { tail = advance rb.entry_size rb.capacity rb.tail })

unfoldable pub ringbuffer_pop : RingBuffer → Option RingBuffer
unfolding ringbuffer_empty
ringbuffer_pop rb =
    if ringbuffer_empty rb
    then none
    else some (record rb { head = advance rb.entry_size rb.capacity rb.head })
