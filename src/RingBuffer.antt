-- ===== src/RingBuffer.antt =====
-- lib/ringbuffer.c. A pointer that the code returns (`buffer + i * element_size`) is the index `i`
-- of its slot, and NULL is `none`; `slot_offset` is the byte offset that the index stands for.
pub mod Slots
pub mod Bounds
pub mod Queue
pub mod Distinct
mod Tests
use syslog_ng_6_0_core.Common.{
  ℕ, zero, suc, ◌+◌, ◌-◌, ◌*◌, ◌%◌, ◌^◌, Bool, true, false, not, Option, none, some, ltb, leb, ◌==◌,
  if◌then◌else◌, Outcome, done, ◌>>=◌, ◌>>◌, g_assert,
}

abbrev pub u32_mod : ℕ
u32_mod = 2 ^ 32

-- `RingBuffer`. The block that `buffer` points to is given by its size in bytes; NULL is `none`.
pub record RingBuffer : Type 0 where
  pub buffer : Option ℕ
  pub head : ℕ
  pub tail : ℕ
  pub count : ℕ
  pub capacity : ℕ
  pub element_size : ℕ

abbrev non_null {ℓ} : {A : Type ℓ} → Option A → Bool
non_null none = false
non_null (some a) = true

-- `g_malloc0`: NULL for no bytes. That memory runs out is not modelled.
abbrev g_malloc0 : ℕ → Option ℕ
g_malloc0 size = if size == 0 then none else some size

unfoldable pub ring_buffer_init : RingBuffer → RingBuffer
ring_buffer_init self = record {
  buffer = none;
  head = 0;
  tail = 0;
  count = 0;
  capacity = 0;
  element_size = 0;
}

unfoldable pub ring_buffer_alloc : RingBuffer → ℕ → ℕ → Outcome RingBuffer
ring_buffer_alloc self element_size capacity = do
  g_assert (ltb 0 capacity)
  done (record {
    buffer = g_malloc0 ((element_size * capacity) % u32_mod);
    head = 0;
    tail = 0;
    count = 0;
    capacity = capacity;
    element_size = element_size;
  })

unfoldable pub ring_buffer_is_allocated : RingBuffer → Bool
ring_buffer_is_allocated self = non_null self.buffer

unfoldable pub ring_buffer_free : RingBuffer → RingBuffer
ring_buffer_free self = record {
  buffer = none;
  head = 0;
  tail = 0;
  count = 0;
  capacity = 0;
  element_size = 0;
}

unfoldable pub ring_buffer_is_full : RingBuffer → Bool
ring_buffer_is_full self = self.capacity == self.count

unfoldable pub ring_buffer_is_empty : RingBuffer → Bool
ring_buffer_is_empty self = self.count == 0

unfoldable pub ring_buffer_tail : RingBuffer → Outcome (Option ℕ)
unfolding ring_buffer_is_full
ring_buffer_tail self = do
  g_assert (non_null self.buffer)
  done (if ring_buffer_is_full self then none else some self.tail)

push_slot : RingBuffer → Option ℕ → Option ℕ × RingBuffer
push_slot self none = (none, self)
push_slot self (some r) = (
  some r,
  record self {
    count = (self.count + 1) % u32_mod;
    tail = ((self.tail + 1) % u32_mod) % self.capacity;
  },
)

unfoldable pub ring_buffer_push : RingBuffer → Outcome (Option ℕ × RingBuffer)
unfolding ring_buffer_tail push_slot
ring_buffer_push self = do r ← ring_buffer_tail self; done (push_slot self r)

-- `--count` runs only where the ring is not empty.
unfoldable pub ring_buffer_pop : RingBuffer → Outcome (Option ℕ × RingBuffer)
unfolding ring_buffer_is_empty
ring_buffer_pop self = do
  g_assert (non_null self.buffer)
  done (
      if ring_buffer_is_empty self then (none, self) else (
        some self.head,
        record self { count = self.count - 1; head = ((self.head + 1) % u32_mod) % self.capacity },
      ))

unfoldable pub ring_buffer_count : RingBuffer → ℕ
ring_buffer_count self = self.count

-- `count -= n` runs only where `n` elements are there.
unfoldable pub ring_buffer_drop : RingBuffer → ℕ → Outcome (Bool × RingBuffer)
unfolding ring_buffer_count
ring_buffer_drop self n = do
  g_assert (non_null self.buffer)
  done (
      if ltb (ring_buffer_count self) n then (false, self) else (
        true,
        record self { count = self.count - n; head = ((self.head + n) % u32_mod) % self.capacity },
      ))

unfoldable pub ring_buffer_capacity : RingBuffer → ℕ
ring_buffer_capacity self = if non_null self.buffer then self.capacity else 0

unfoldable pub ring_buffer_element_at : RingBuffer → ℕ → Outcome (Option ℕ)
ring_buffer_element_at self idx = do
  g_assert (non_null self.buffer)
  done (if leb self.count idx then none else some (((self.head + idx) % u32_mod) % self.capacity))

-- The loop of `ring_buffer_get_continual_range_length`, with `n` rounds left at index `i`. It adds 1
-- to `r` in each round, so `r` and `i` are one number.
unfoldable pub continual_range_from : RingBuffer → (Option ℕ → Bool) → ℕ → ℕ → Outcome ℕ
continual_range_from self pred zero i = done i
continual_range_from self pred (suc n) i =
    let rest = continual_range_from self pred n (i + 1) in
    ring_buffer_element_at self i >>= λ e. if not (pred e) then done i else rest

-- `pred` gets what `ring_buffer_element_at` returned.
unfoldable pub ring_buffer_get_continual_range_length : RingBuffer → (Option ℕ → Bool) → Outcome ℕ
unfolding continual_range_from ring_buffer_count
ring_buffer_get_continual_range_length self pred = do
  g_assert (non_null self.buffer)
  continual_range_from self pred (ring_buffer_count self) 0

-- The byte offset of a slot from `buffer`: `guint32` times `guint32`.
unfoldable pub slot_offset : RingBuffer → ℕ → ℕ
slot_offset self i = (i * self.element_size) % u32_mod
