-- ===== src/LogQueueFifo/Drops.antt =====
-- What becomes of the messages that a queue gives up: those that do not fit, and those that were sent.
use syslog_ng_6_0_core.Common.{
  ℕ, zero, suc, ◌+◌, ◌-◌, ◌≤◌, ◌<◌, ◌≡◌, ◌⊎◌, inl, inr, refl, sym, ap, ◌∙◌, false, none, some, List,
  [], ◌∷◌, ◌++◌, append-nil, append_assoc, map, arith, get_elem?, drop, take, length, lt→ltb,
  length-append, ltb, if◌then◌else◌, max, length-drop, done, dec_lt,
}
use syslog_ng_6_0_core.AckTracker.{AckType, processed, suspended}
use syslog_ng_6_0_core.LogQueueFifo.{
  LogQueueFifo, Node, Input, drop_oldest, overflow, move_items, drop_type, push_wait, counter_add,
  log_queue_fifo_move_input_unlocked, log_queue_fifo_push_tail, log_queue_fifo_ack_backlog,
  ack_oldest,
}
use syslog_ng_6_0_core.LogQueueFifo.Order.{queued, Measured}

pub drop_oldest-items :
    (n : ℕ) (items : List Node) (len dropped : ℕ) (acks : List (Node × AckType))
    → (drop_oldest n items len dropped acks).items ≡ drop n items
unfolding drop_oldest
drop_oldest-items zero items len dropped acks = refl
drop_oldest-items (suc n) [] len dropped acks = refl
drop_oldest-items (suc n) (x ∷ items) len dropped acks =
    drop_oldest-items n items (len - 1) (counter_add dropped 1) (acks ++ (x, drop_type x) ∷ [])

pub drop_oldest-len :
    (n : ℕ) (items : List Node) (len dropped : ℕ) (acks : List (Node × AckType))
    → n ≤ length items
    → (drop_oldest n items len dropped acks).len ≡ len - n
unfolding drop_oldest
drop_oldest-len zero items len dropped acks h = omega arith
drop_oldest-len (suc n) [] len dropped acks h = absurd (omega arith)
drop_oldest-len (suc n) (x ∷ items) len dropped acks h = omega (
  arith,
  drop_oldest-len n items (len - 1) (counter_add dropped 1) (acks ++ (x, drop_type x) ∷ [])
      (omega arith),
)

-- the acknowledgements of messages that do not fit
abbrev pub drops : List Node → List (Node × AckType)
drops = map (λ node. (node, if node.flow_control_requested then suspended else processed))

drop_oldest-acks :
    (n : ℕ) (items : List Node) (len dropped : ℕ) (acks : List (Node × AckType))
    → (drop_oldest n items len dropped acks).acks ≡ acks ++ drops (take n items)
unfolding drop_oldest
drop_oldest-acks zero items len dropped acks = sym (append-nil acks)
drop_oldest-acks (suc n) [] len dropped acks = sym (append-nil acks)
drop_oldest-acks (suc n) (x ∷ items) len dropped acks =
    drop_oldest-acks n items (len - 1) (counter_add dropped 1) (acks ++ (x, drop_type x) ∷ [])
    ∙ append_assoc acks ((x, drop_type x) ∷ []) (drops (take n items))

within :
    (size k len l : ℕ)
    → l ≡ k + (len - (if ltb size (k + len) then len - (size - k) else 0))
    → l ≤ max k size
within size k len l e = ground arith

module _ (q : LogQueueFifo) (t : ℕ) (i : Input) where
  pub move_eq :
      get_elem? q.qoverflow_input t ≡ some i
      → log_queue_fifo_move_input_unlocked q t ≡ move_items q t i
  unfolding log_queue_fifo_move_input_unlocked
  move_eq e = rw (e, log_queue_fifo_move_input_unlocked)

  pub overflow-le : i.len ≡ length i.items → overflow q i ≤ length i.items
  overflow-le h = ground arith

  -- the queue takes what fits into its size
  overflow_is :
      Measured q
      → i.len ≡ length i.items
      → overflow q i ≡ length i.items - (q.qoverflow_size - length (queued q))
  overflow_is m h =
      ground (arith, m.wait_len, m.output_len, length-append q.qoverflow_output q.qoverflow_wait)

  items_moved :
      Measured q
      → i.len ≡ length i.items
      → let q' = move_items q t i in
        let n = overflow q i in
        (queued q' ≡ queued q ++ drop n i.items)
        × (q'.acks ≡ q.acks ++ drops (take n i.items))
        × (length (queued q') ≤ max (length (queued q)) q.qoverflow_size)
  unfolding move_items
  items_moved m h =
      let n = overflow q i in
      let kept = drop_oldest-items n i.items i.len q.dropped_messages q.acks in
      let order =
        ap (λ xs. q.qoverflow_output ++ (q.qoverflow_wait ++ xs)) kept
        ∙ sym (append_assoc q.qoverflow_output q.qoverflow_wait (drop n i.items)) in
      (
        order,
        drop_oldest-acks n i.items i.len q.dropped_messages q.acks,
        within q.qoverflow_size (length (queued q)) i.len
            (length (
              q.qoverflow_output
              ++ (q.qoverflow_wait
                  ++ (drop_oldest n i.items i.len q.dropped_messages q.acks).items)))
            (ap length order
              ∙ length-append (queued q) (drop n i.items)
              ∙ omega (arith, length-drop n i.items, queue_len)
              ∙ ap
                  (λ k.
                    length (queued q)
                    + (i.len
                        - (if ltb q.qoverflow_size (k + i.len)
                            then i.len - (q.qoverflow_size - k)
                            else 0)))
                  queue_len),
      )
    where
      queue_len : q.qoverflow_wait_len + q.qoverflow_output_len ≡ length (queued q)
      queue_len =
          omega (arith, m.wait_len, m.output_len, length-append q.qoverflow_output q.qoverflow_wait)

  -- If the kept lengths are right, the end of a batch appends the input queue of the thread to the
  -- queue in order, except its oldest messages, as many as exceed the room that the size leaves to
  -- the queue, which are acknowledged instead, as suspended where they asked for flow control and
  -- else as processed, and the queue does not grow past its size.
  pub move_input_order :
      Measured q
      → get_elem? q.qoverflow_input t ≡ some i
      → i.len ≡ length i.items
      → let q' = log_queue_fifo_move_input_unlocked q t in
        let n = length i.items - (q.qoverflow_size - length (queued q)) in
        (queued q' ≡ queued q ++ drop n i.items)
        × (q'.acks ≡ q.acks ++ drops (take n i.items))
        × (length (queued q') ≤ max (length (queued q)) q.qoverflow_size)
  move_input_order m e h = rw (move_eq e, sym (overflow_is m h)) (items_moved m h)

push_wait_cases :
    (q : LogQueueFifo) (x : Node)
    → q.qoverflow_wait_len + q.qoverflow_output_len ≡ length (queued q)
    → ((length (queued q) < q.qoverflow_size)
        × (queued (push_wait q x) ≡ queued q ++ x ∷ [])
        × ((push_wait q x).acks ≡ q.acks))
      ⊎ ((q.qoverflow_size ≤ length (queued q))
          × (queued (push_wait q x) ≡ queued q)
          × ((push_wait q x).acks ≡ q.acks ++ drops (x ∷ [])))
unfolding push_wait
push_wait_cases q x len = elim (dec_lt (length (queued q)) q.qoverflow_size) [
  | yes h ↦
      rw
        (lt→ltb (q.qoverflow_wait_len + q.qoverflow_output_len) q.qoverflow_size
          (omega (arith, len)))
        (inl (h, sym (append_assoc q.qoverflow_output q.qoverflow_wait (x ∷ [])), refl))
  | no h ↦
      let full : ltb (q.qoverflow_wait_len + q.qoverflow_output_len) q.qoverflow_size ≡ false =
        ground (arith, len) in
      rw full (inr (omega arith, refl, refl))
]

-- If the kept lengths are right, a push from a thread without an input queue appends the message
-- where the queue is shorter than its size, and else leaves the queue and acknowledges the
-- message, as suspended where it asked for flow control and else as processed.
pub push_wait_order :
    (q : LogQueueFifo) (x : Node)
    → Measured q
    → (q' : LogQueueFifo) × (log_queue_fifo_push_tail q none x ≡ done q')
      × (((length (queued q) < q.qoverflow_size)
            × (queued q' ≡ queued q ++ x ∷ [])
            × (q'.acks ≡ q.acks))
          ⊎ ((q.qoverflow_size ≤ length (queued q))
              × (queued q' ≡ queued q)
              × (q'.acks ≡ q.acks ++ drops (x ∷ []))))
unfolding log_queue_fifo_push_tail
push_wait_order q x m = (push_wait q x, refl, push_wait_cases q x len)
  where
    len : q.qoverflow_wait_len + q.qoverflow_output_len ≡ length (queued q)
    len = omega (arith, m.wait_len, m.output_len, length-append q.qoverflow_output q.qoverflow_wait)

ack_oldest-order :
    (n : ℕ) (items : List Node) (len : ℕ) (acks : List (Node × AckType))
    → len ≡ length items
    → ((ack_oldest n items len acks).items ≡ drop n items)
      × ((ack_oldest n items len acks).acks
          ≡ acks ++ map (λ node. (node, processed)) (take n items))
unfolding ack_oldest
ack_oldest-order zero items len acks e = (refl, sym (append-nil acks))
ack_oldest-order (suc n) [] len acks e = (refl, sym (append-nil acks))
ack_oldest-order (suc n) (x ∷ items) len acks e =
    let (a, b) = ack_oldest-order n items (len - 1) (acks ++ (x, processed) ∷ []) (omega arith) in
    rw (lt→ltb 0 len (omega arith)) (
      a,
      b ∙ append_assoc acks ((x, processed) ∷ []) (map (λ node. (node, processed)) (take n items)),
    )

-- If the kept lengths are right, acknowledging n takes the oldest n messages off the backlog, or
-- all if there are fewer, and acknowledges these in order as processed.
pub ack_backlog_order :
    (q : LogQueueFifo) (n : ℕ)
    → Measured q
    → let q' = log_queue_fifo_ack_backlog q n in
      (q'.qbacklog ≡ drop n q.qbacklog)
      × (q'.acks ≡ q.acks ++ map (λ node. (node, processed)) (take n q.qbacklog))
      × (queued q' ≡ queued q)
unfolding log_queue_fifo_ack_backlog
ack_backlog_order q n m =
    let (a, b) = ack_oldest-order n q.qbacklog q.qbacklog_len q.acks m.backlog_len in (a, b, refl)
