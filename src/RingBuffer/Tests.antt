-- ===== src/RingBuffer/Tests.antt =====
-- Runs of lib/ringbuffer.c at small inputs, and its theorems there.
use syslog_ng_6_0_core.Common.{
  ℕ, ◌+◌, ◌*◌, ◌≤◌, ◌≡◌, refl, Bool, true, false, Option, none, some, [], ◌∷◌, arith, done, abort,
  ◌==◌, get_elem?,
}
use syslog_ng_6_0_core.RingBuffer.{
  RingBuffer, ring_buffer_init, ring_buffer_alloc, ring_buffer_free, ring_buffer_push,
  ring_buffer_drop, ring_buffer_element_at, ring_buffer_capacity,
  ring_buffer_get_continual_range_length, slot_offset,
}
use syslog_ng_6_0_core.RingBuffer.Slots.{contents}
use syslog_ng_6_0_core.RingBuffer.Bounds.{IsValid, ring_buffer_alloc-IsValid}
use syslog_ng_6_0_core.RingBuffer.Queue.{
  Pushes, Pops, DropsTo, ring_refines, continual_range_lem, slots_disjoint,
}

-- Four slots of 8 bytes; slots 3 and 0 are in use.
abbrev ring : RingBuffer
ring = record { buffer = some 32; head = 3; tail = 1; count = 2; capacity = 4; element_size = 8 }

ring-IsValid : IsValid ring
ring-IsValid = record {
  allocated = refl;
  fits = omega arith;
  small = omega arith;
  head_in = omega arith;
  count_in = omega arith;
  tail_is = refl;
}

contents-ring : contents ring ≡ 3 ∷ 0 ∷ []
contents-ring = refl

push-ring : ring_buffer_push ring ≡ done (some 1, record ring { count = 3; tail = 2 })
unfolding ring_buffer_push
push-ring = refl

drop-ring : ring_buffer_drop ring 2 ≡ done (true, record ring { count = 0; head = 1 })
unfolding ring_buffer_drop
drop-ring = refl

freed :
    (ring_buffer_push (ring_buffer_free ring) ≡ abort)
    × (ring_buffer_capacity (ring_buffer_init ring) ≡ 0)
unfolding ring_buffer_push ring_buffer_free ring_buffer_init ring_buffer_capacity
freed = (refl, refl)

abbrev is_three : Option ℕ → Bool
is_three none = false
is_three (some s) = s == 3

range-ring : ring_buffer_get_continual_range_length ring is_three ≡ done 1
unfolding ring_buffer_get_continual_range_length ring_buffer_element_at
range-ring = refl

-- A size of the block that wraps to 0 leaves the ring without memory.
alloc_wraps : ring_buffer_push (record ring { buffer = none }) ≡ abort
unfolding ring_buffer_push
alloc_wraps = refl

ring_buffer_alloc-IsValid_example :
    (r : RingBuffer) × (ring_buffer_alloc ring 8 4 ≡ done r)
    × IsValid r
    × (r.count ≡ 0)
    × (r.capacity ≡ 4)
ring_buffer_alloc-IsValid_example =
    ring_buffer_alloc-IsValid ring 8 4 (omega arith) (omega arith) (omega arith) (omega arith)

ring_refines_example :
    Pushes ring
    × Pops ring
    × DropsTo ring 2
    × (ring_buffer_element_at ring 1 ≡ done (get_elem? (contents ring) 1))
ring_refines_example = ring_refines ring-IsValid 2 1

continual_range_lem_example : ring_buffer_get_continual_range_length ring is_three ≡ done 1
continual_range_lem_example = continual_range_lem ring-IsValid is_three

slots_disjoint_example :
    (slot_offset ring 1 + 8 ≤ slot_offset ring 3) × (slot_offset ring 3 + 8 ≤ 8 * 4)
slots_disjoint_example = slots_disjoint ring-IsValid 1 3 (omega arith) (omega arith)
