-- ===== src/Tests/Rings.antt =====
-- A ring of the host with three entries of 4 bytes.
use nfp_udp_echo.Base.{ℕ, ◌≡◌, refl, some, arith}
use nfp_udp_echo.Base.Slots.{pos}
use nfp_udp_echo.RingBuffer.{RingBuffer, ringbuffer_push, ringbuffer_pop}
use nfp_udp_echo.RingBuffer.Counters.{Counts, push_lem, pop_lem}

-- One entry, which crosses the end: 5 popped, 6 pushed.
abbrev ring : RingBuffer
ring = record { base_addr = 1000; entry_size = 4; capacity = 12; head = 8; tail = 0 }

abbrev popped : ℕ
popped = 5

ring-Counts : Counts 3 4 popped 6 ring
unfolding pos
ring-Counts = record {
  some_entries = omega arith;
  some_bytes = omega arith;
  fits = omega arith;
  entry_size_eq = refl;
  capacity_eq = refl;
  head_eq = refl;
  tail_eq = refl;
  order = omega arith;
  room = omega arith;
}

push_lem_example :
    (rb' : RingBuffer) × (ringbuffer_push ring ≡ some rb')
    × Counts 3 4 5 7 rb'
    × (rb'.base_addr ≡ 1000)
push_lem_example = push_lem ring-Counts (omega arith)

pop_lem_example :
    (rb' : RingBuffer) × (ringbuffer_pop ring ≡ some rb')
    × Counts 3 4 6 6 rb'
    × (rb'.base_addr ≡ 1000)
pop_lem_example = pop_lem ring-Counts (omega arith)
