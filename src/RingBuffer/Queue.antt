-- ===== src/RingBuffer/Queue.antt =====
-- What a valid ring promises: its operations, seen on the list of the slots in use.
use native.Mathlib.Nat.{zero-add, mul-le-mul_right, mod-eq_of_lt, mod-add-mod}
use native.Mathlib.Numerals.{add-one}
use syslog_ng_6_0_core.Common.{
  ℕ, zero, suc, ◌+◌, ◌*◌, ◌%◌, ◌≤◌, ◌<◌, ◌≡◌, ◌≢◌, ◌⊎◌, inl, inr, refl, sym, ap, ◌∙◌, Bool, true,
  false, List, [], ◌∷◌, ◌++◌, Option, none, some, arith, dec_lt, done, length, get_elem?, drop,
  ◌==◌, if◌then◌else◌,
}
use syslog_ng_6_0_core.RingBuffer.{
  RingBuffer, ring_buffer_push, ring_buffer_tail, ring_buffer_pop, ring_buffer_is_allocated,
  ring_buffer_drop, ring_buffer_element_at, continual_range_from,
  ring_buffer_get_continual_range_length, slot_offset,
}
use syslog_ng_6_0_core.RingBuffer.Slots.{
  window, contents, length-contents, get_elem?-window, get_elem?-window_ge, window-concat,
  window_pos, drop-window, slots_differ,
}
use syslog_ng_6_0_core.RingBuffer.Bounds.{
  IsValid, is_allocated, tail_no_wrap, head_no_wrap, pushed, dropped, pushed-IsValid,
  dropped-IsValid,
}

-- How many of the slots, from the oldest, satisfy `pred` before the first that does not.
abbrev pub prefix_length : (Option ℕ → Bool) → List ℕ → ℕ
prefix_length pred [] = 0
prefix_length pred (s ∷ ss) = if pred (some s) then suc (prefix_length pred ss) else 0

-- what the operations do to the list of the slots in use
abbrev pub Pushes : RingBuffer → Type 0
Pushes r =
    (o : Option ℕ) × (r' : RingBuffer) × (ring_buffer_push r ≡ done (o, r'))
    × IsValid r'
    × (((r.count ≡ r.capacity) × (o ≡ none) × (r' ≡ r))
        ⊎ ((r.count < r.capacity)
            × (o ≡ some r.tail)
            × (contents r' ≡ contents r ++ (r.tail ∷ []))
            × ((i : ℕ) → get_elem? (contents r) i ≢ some r.tail)))

abbrev pub Pops : RingBuffer → Type 0
Pops r =
    (o : Option ℕ) × (r' : RingBuffer) × (ring_buffer_pop r ≡ done (o, r'))
    × IsValid r'
    × (((contents r ≡ []) × (o ≡ none) × (r' ≡ r))
        ⊎ ((h : ℕ) × (o ≡ some h) × (contents r ≡ h ∷ contents r')))

abbrev pub DropsTo : RingBuffer → ℕ → Type 0
DropsTo r n =
    (b : Bool) × (r' : RingBuffer) × (ring_buffer_drop r n ≡ done (b, r'))
    × IsValid r'
    × (((n ≤ length (contents r)) × (b ≡ true) × (contents r' ≡ drop n (contents r)))
        ⊎ ((length (contents r) < n) × (b ≡ false) × (r' ≡ r)))

module _ {r : RingBuffer} (v : IsValid r) where
  pub ring_buffer_tail_lem :
      ring_buffer_tail r ≡ done (if r.capacity == r.count then none else some r.tail)
  unfolding ring_buffer_tail ring_buffer_is_allocated
  ring_buffer_tail_lem = rw (is_allocated v)

  -- A push on a full ring fails and changes nothing.
  pub push_full : r.count ≡ r.capacity → ring_buffer_push r ≡ done (none, r)
  unfolding ring_buffer_push ring_buffer_is_allocated
  push_full h = rw (is_allocated v) (ground arith)

  pub push_room : r.count < r.capacity → ring_buffer_push r ≡ done (some r.tail, pushed r)
  unfolding ring_buffer_push ring_buffer_is_allocated
  push_room h = rw (is_allocated v) (ground (arith, tail_no_wrap v h))

  pub pop_some : 0 < r.count → ring_buffer_pop r ≡ done (some r.head, dropped r 1)
  unfolding ring_buffer_pop ring_buffer_is_allocated
  pop_some h = rw (is_allocated v) (ground (arith, head_no_wrap v 1 h))

  pop_none : r.count ≡ 0 → ring_buffer_pop r ≡ done (none, r)
  unfolding ring_buffer_pop ring_buffer_is_allocated
  pop_none h = rw (is_allocated v) (ground arith)

  empty_of : r.count ≡ 0 → contents r ≡ []
  empty_of h = rw h

  pub drop_some : (n : ℕ) → n ≤ r.count → ring_buffer_drop r n ≡ done (true, dropped r n)
  unfolding ring_buffer_drop ring_buffer_is_allocated
  drop_some n h = rw (is_allocated v) (ground (arith, head_no_wrap v n h))

  -- Every slot is handed out to one element at most.
  pub tail_unused : (i : ℕ) → r.count < r.capacity → get_elem? (contents r) i ≢ some r.tail
  tail_unused i h e = elim (dec_lt i r.count) [
    | yes p ↦
        slots_differ r.capacity r.head i r.count v.head_in p h
          (cc (get_elem?-window r.capacity r.head r.count i v.head_in p, v.tail_is))
    | no p ↦ cc (get_elem?-window_ge r.capacity r.head r.count i (omega arith))
  ]

  pub contents-pushed : r.count < r.capacity → contents (pushed r) ≡ contents r ++ (r.tail ∷ [])
  contents-pushed h = rw (add-one, v.tail_is) (window-concat r.capacity r.head r.count v.head_in)

  -- On a valid ring a push appends a slot that is not in use to the list of slots in use, and
  -- returns NULL with no change exactly where the ring is full.
  pub push_enqueues : Pushes r
  push_enqueues = elim (dec_lt r.count r.capacity) [
    | yes h ↦ (
      some r.tail,
      pushed r,
      push_room h,
      pushed-IsValid v h,
      inr (h, refl, contents-pushed h, λ i. tail_unused i h),
    )
    | no h ↦ (none, r, push_full (omega arith), v, inl (omega arith, refl, refl))
  ]

  -- On a valid ring a pop removes and returns the oldest slot, and returns NULL with no change
  -- exactly where the ring is empty.
  pub pop_dequeues : Pops r
  pop_dequeues = elim (dec_lt 0 r.count) [
    | yes h ↦ (
      some r.head,
      dropped r 1,
      pop_some h,
      dropped-IsValid 1 v h,
      inr (r.head, refl, window_pos r.capacity r.head r.count h),
    )
    | no h ↦ (none, r, pop_none (omega arith), v, inl (empty_of (omega arith), refl, refl))
  ]

  drop_none : {n : ℕ} → r.count < n → ring_buffer_drop r n ≡ done (false, r)
  unfolding ring_buffer_drop ring_buffer_is_allocated
  drop_none h = rw (is_allocated v) (ground arith)

  -- On a valid ring dropping n removes the oldest n slots where there are as many, and else fails
  -- with no change.
  pub drop_skips : (n : ℕ) → DropsTo r n
  drop_skips n = elim (dec_lt r.count n) [
    | yes h ↦ (false, r, drop_none h, v, inr (omega (arith, length-contents r), refl, refl))
    | no h ↦
        let le : n ≤ r.count = omega arith in
        (
          true,
          dropped r n,
          drop_some n le,
          dropped-IsValid n v le,
          inl (
            omega (arith, length-contents r),
            refl,
            sym (drop-window r.capacity r.head r.count n v.head_in le),
          ),
        )
  ]

  -- On a valid ring the element at an index is the slot at that index of the list of slots in use,
  -- and NULL past its end.
  pub element_at_indexes : (i : ℕ) → ring_buffer_element_at r i ≡ done (get_elem? (contents r) i)
  unfolding ring_buffer_element_at ring_buffer_is_allocated
  element_at_indexes i = elim (dec_lt i r.count) [
    | yes h ↦
        rw (is_allocated v, get_elem?-window r.capacity r.head r.count i v.head_in h)
          (ground (arith, head_no_wrap v i (omega arith)))
    | no h ↦
        rw (is_allocated v, get_elem?-window_ge r.capacity r.head r.count i (omega arith))
          (ground arith)
  ]

  -- On a valid ring a push appends a slot that is not in use to the list of slots in use and fails
  -- with no change exactly where the ring is full; a pop removes and returns the oldest slot and
  -- fails exactly where the ring is empty; dropping n removes the oldest n slots where there are
  -- as many and else fails with no change; and the element at an index is the slot at that index
  -- of the list.
  pub ring_refines :
      (n i : ℕ)
      → Pushes r
        × Pops r
        × DropsTo r n
        × (ring_buffer_element_at r i ≡ done (get_elem? (contents r) i))
  ring_refines n i = (push_enqueues, pop_dequeues, drop_skips n, element_at_indexes i)

  range_from-window :
      (pred : Option ℕ → Bool) (n i : ℕ)
      → i + n ≡ r.count
      → continual_range_from r pred n i
        ≡ done (i + prefix_length pred (window r.capacity ((r.head + i) % r.capacity) n))
  unfolding continual_range_from
  range_from-window pred zero i e = ap done (omega arith)
  range_from-window pred (suc n) i e =
      rw
        (element_at_indexes i, get_elem?-window r.capacity r.head r.count i v.head_in (omega arith))
        (ground (arith, range_from-window pred n (i + 1) (omega arith), moved))
    where
      moved : ((r.head + i) % r.capacity + 1) % r.capacity ≡ (r.head + (i + 1)) % r.capacity
      moved = mod-add-mod (r.head + i) r.capacity 1 ∙ ap (λ k. k % r.capacity) (omega arith)

  -- On a valid ring the length of the continual range is that of the longest prefix of the slots
  -- in use that satisfies the predicate.
  pub continual_range_lem :
      (pred : Option ℕ → Bool)
      → ring_buffer_get_continual_range_length r pred ≡ done (prefix_length pred (contents r))
  unfolding ring_buffer_get_continual_range_length ring_buffer_is_allocated
  continual_range_lem pred = rw (is_allocated v) (
      range_from-window pred r.count 0 (omega arith)
      ∙ ap done (
          zero-add _
          ∙ ap (λ h. prefix_length pred (window r.capacity h r.count))
              (ap (λ k. k % r.capacity) (omega arith) ∙ mod-eq_of_lt v.head_in)))

  -- On a valid ring two different slots do not overlap and lie inside the allocated block.
  pub slots_disjoint :
      (i j : ℕ)
      → i < j
      → j < r.capacity
      → (slot_offset r i + r.element_size ≤ slot_offset r j)
        × (slot_offset r j + r.element_size ≤ r.element_size * r.capacity)
  unfolding slot_offset
  slots_disjoint i j hij hj = omega (
    arith,
    mul-le-mul_right {m = suc i} {n = j} r.element_size hij,
    mul-le-mul_right {m = suc j} {n = r.capacity} r.element_size hj,
    v.fits,
  )
