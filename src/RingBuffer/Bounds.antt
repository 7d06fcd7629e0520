-- ===== src/RingBuffer/Bounds.antt =====
-- The representation invariant of `RingBuffer`: nothing wraps, and every slot lies in the block.
use native.Mathlib.Nat.{zero-mod, mod-lt, mod-eq_of_lt, mod-add-mod}
use syslog_ng_6_0_core.Common.{
  lt→ltb, ◌==◌, ℕ, ◌+◌, ◌-◌, ◌*◌, ◌%◌, ◌^◌, ◌≤◌, ◌<◌, ◌≡◌, refl, sym, ap, ◌∙◌, true, false, some,
  arith, done,
}
use syslog_ng_6_0_core.RingBuffer.{RingBuffer, u32_mod, ring_buffer_alloc, ring_buffer_is_allocated}

pub record IsValid (r : RingBuffer) : Type 0 where
  pub allocated : r.buffer ≡ some (r.element_size * r.capacity)
  pub fits : r.element_size * r.capacity < u32_mod
  pub small : r.capacity ≤ 2 ^ 31
  pub head_in : r.head < r.capacity
  pub count_in : r.count ≤ r.capacity
  pub tail_is : r.tail ≡ (r.head + r.count) % r.capacity

module _ (self : RingBuffer) (size capacity : ℕ) where
  -- An allocation of elements that are not empty, with a positive capacity of at most 2^31 and a
  -- block of less than 2^32 bytes, gives a valid empty ring of that capacity.
  pub ring_buffer_alloc-IsValid :
      0 < size
      → 0 < capacity
      → capacity ≤ 2 ^ 31
      → size * capacity < u32_mod
      → (r : RingBuffer) × (ring_buffer_alloc self size capacity ≡ done r)
        × IsValid r
        × (r.count ≡ 0)
        × (r.capacity ≡ capacity)
  unfolding ring_buffer_alloc
  ring_buffer_alloc-IsValid hs hc small fits =
      (fresh, rw (lt→ltb 0 capacity hc, mod-eq_of_lt fits, size-ne-zero), valid, refl, refl)
    where
      fresh : RingBuffer
      fresh = record {
        buffer = some (size * capacity);
        head = 0;
        tail = 0;
        count = 0;
        capacity = capacity;
        element_size = size;
      }

      size-ne-zero : (size * capacity) == 0 ≡ false
      size-ne-zero = grind arith

      valid : IsValid fresh
      valid = record {
        allocated = refl;
        fits = fits;
        small = small;
        head_in = hc;
        count_in = omega arith;
        tail_is = sym (zero-mod capacity);
      }

module _ {r : RingBuffer} (v : IsValid r) where
  pub is_allocated : ring_buffer_is_allocated r ≡ true
  unfolding ring_buffer_is_allocated
  is_allocated = ground (arith, v.allocated)

  -- The `guint32` sums of `tail`, `head` and an index up to the count do not wrap.
  pub tail_no_wrap : r.count < r.capacity → (r.tail + 1) % u32_mod ≡ r.tail + 1
  tail_no_wrap h = omega (arith, v.tail_is, mod-lt (r.head + r.count) {m = r.capacity})

  pub head_no_wrap : (n : ℕ) → n ≤ r.count → (r.head + n) % u32_mod ≡ r.head + n
  head_no_wrap n h = omega arith

  pub tail_in : r.tail < r.capacity
  tail_in = rw v.tail_is (mod-lt (r.head + r.count) (omega arith))

-- What the operations leave of a valid ring.
abbrev pub pushed : RingBuffer → RingBuffer
pushed r = record r { count = r.count + 1; tail = (r.tail + 1) % r.capacity }

abbrev pub dropped : RingBuffer → ℕ → RingBuffer
dropped r n = record r { count = r.count - n; head = (r.head + n) % r.capacity }

pub pushed-IsValid : {r : RingBuffer} → IsValid r → r.count < r.capacity → IsValid (pushed r)
pushed-IsValid {r} v h = record {
  allocated = v.allocated;
  fits = v.fits;
  small = v.small;
  head_in = v.head_in;
  count_in = omega arith;
  tail_is =
      rw v.tail_is
        (mod-add-mod (r.head + r.count) r.capacity 1 ∙ ap (λ k. k % r.capacity) (omega arith));
}

pub dropped-IsValid : {r : RingBuffer} (n : ℕ) → IsValid r → n ≤ r.count → IsValid (dropped r n)
dropped-IsValid {r} n v h = record {
  allocated = v.allocated;
  fits = v.fits;
  small = v.small;
  head_in = mod-lt (r.head + n) (omega arith);
  count_in = omega arith;
  tail_is =
      v.tail_is
      ∙ ap (λ k. k % r.capacity) (omega arith)
      ∙ sym (mod-add-mod (r.head + n) r.capacity (r.count - n));
}
