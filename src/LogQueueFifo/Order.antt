-- ===== src/LogQueueFifo/Order.antt =====
-- The order of the messages: the queue proper is the output queue before the wait queue, and the
-- backlog stands before both.
use mathlib.Core.List.{reverse-cons, reverse-reverse}
use syslog_ng_6_0_core.Common.{
  ℕ, zero, suc, ◌-◌, ◌<◌, ◌≡◌, ◌⊎◌, inl, inr, refl, sym, ap, ap₂, ◌∙◌, Bool, Option, none, some,
  List, [], ◌∷◌, ◌++◌, append-nil, append_assoc, reverse, arith, length, length_zero, ltb→lt,
  length-append, length-reverse, ltb, ◌==◌, if◌then◌else◌, Bool-cases,
}
use syslog_ng_6_0_core.LogQueueFifo.{
  LogQueueFifo, Node, rewind_newest, rewound, refill, take_first, log_queue_fifo_pop_head,
  log_queue_fifo_rewind_backlog, log_queue_fifo_rewind_backlog_all,
}

abbrev pub queued : LogQueueFifo → List Node
queued q = q.qoverflow_output ++ q.qoverflow_wait

-- The lengths that the queue keeps are those of its lists.
pub record Measured (q : LogQueueFifo) : Type 0 where
  pub wait_len : q.qoverflow_wait_len ≡ length q.qoverflow_wait
  pub output_len : q.qoverflow_output_len ≡ length q.qoverflow_output
  pub backlog_len : q.qbacklog_len ≡ length q.qbacklog

refill-queued : (q : LogQueueFifo) → queued (refill q) ≡ queued q
refill-queued q = ground (arith, append-nil (q.qoverflow_output ++ q.qoverflow_wait))

pub refill-Measured : {q : LogQueueFifo} → Measured q → Measured (refill q)
refill-Measured {q} m = ground (arith, length-append q.qoverflow_output q.qoverflow_wait)

refill_empty : {q : LogQueueFifo} → Measured q → (refill q).qoverflow_output_len ≡ 0 → queued q ≡ []
refill_empty {q} m e = elim (Bool-cases (q.qoverflow_output_len == 0)) [
  | inl h ↦
      ap₂ ◌++◌ (length_zero q.qoverflow_output (ground (arith, m.output_len)))
        (length_zero q.qoverflow_wait (ground (arith, m.wait_len)))
  | inr h ↦ absurd (ground arith)
]

refill-keeps :
    (q : LogQueueFifo)
    → ((refill q).qbacklog ≡ q.qbacklog) × ((refill q).use_backlog ≡ q.use_backlog)
refill-keeps q = (ground arith, ground arith)

first_pops :
    (q : LogQueueFifo) (xs : List Node)
    → q.qoverflow_output ≡ xs
    → 0 < length xs
    → (x : Node) × ((take_first q xs).0 ≡ some x)
      × (queued q ≡ x ∷ queued (take_first q xs).1)
      × ((take_first q xs).1.qbacklog
          ≡ (if q.use_backlog then q.qbacklog ++ x ∷ [] else q.qbacklog))
unfolding take_first
first_pops q [] e h = absurd (omega arith)
first_pops q (x ∷ xs) e h = (
  x,
  refl,
  ap (λ ys. ys ++ q.qoverflow_wait) e
      ∙ elim (Bool-cases q.use_backlog) [ inl t ↦ rw t | inr t ↦ rw t ],
  ground arith,
)

-- what a pop says of a queue
abbrev pub Pops : LogQueueFifo → Option Node → LogQueueFifo → Type 0
Pops q o q' =
    ((queued q ≡ []) × (o ≡ none) × (queued q' ≡ []) × (q'.qbacklog ≡ q.qbacklog))
    ⊎ ((x : Node) × (o ≡ some x)
        × (queued q ≡ x ∷ queued q')
        × (q'.qbacklog ≡ (if q.use_backlog then q.qbacklog ++ x ∷ [] else q.qbacklog)))

-- If the kept lengths are right, a pop returns the oldest message of the queue and keeps the rest
-- in order, with the message at the end of the backlog where that is in use, and it returns NULL
-- only where the queue is empty.
pub pop_order :
    (q : LogQueueFifo)
    → Measured q
    → Pops q (log_queue_fifo_pop_head q).0 (log_queue_fifo_pop_head q).1
unfolding log_queue_fifo_pop_head
pop_order q m = elim (Bool-cases (ltb 0 (refill q).qoverflow_output_len)) [
  | inl e ↦
      let (x, a, b, c) =
        first_pops (refill q) (refill q).qoverflow_output refl
          (omega (arith, ltb→lt _ _ e, (refill-Measured m).output_len)) in
      rw e (
        inr (
          x,
          a,
          sym (refill-queued q) ∙ b,
          c
              ∙ ap₂ (λ (t : Bool) (l : List Node). if t then l ++ x ∷ [] else l) (refill-keeps q).1
                  (refill-keeps q).0,
        ))
  | inr e ↦
      let none_left : queued q ≡ [] = refill_empty m (ground arith) in
      rw e (inl (none_left, refl, refill-queued q ∙ none_left, (refill-keeps q).0))
]

rewind_newest-order :
    (n : ℕ) (newest : List Node) (q : LogQueueFifo)
    → (rewind_newest n newest q).qbacklog ++ (rewind_newest n newest q).qoverflow_output
      ≡ reverse newest ++ q.qoverflow_output
unfolding rewind_newest
rewind_newest-order zero newest q = refl
rewind_newest-order (suc n) [] q = refl
rewind_newest-order (suc n) (x ∷ newest) q =
    rewind_newest-order n newest (rewound q x)
    ∙ sym (append_assoc (reverse newest) (x ∷ []) q.qoverflow_output)
    ∙ ap (λ xs. xs ++ q.qoverflow_output) (sym (reverse-cons x newest))

rewind_newest-wait :
    (n : ℕ) (newest : List Node) (q : LogQueueFifo)
    → (rewind_newest n newest q).qoverflow_wait ≡ q.qoverflow_wait
unfolding rewind_newest
rewind_newest-wait zero newest q = refl
rewind_newest-wait (suc n) [] q = refl
rewind_newest-wait (suc n) (x ∷ newest) q = rewind_newest-wait n newest (rewound q x)

rewind_newest-length :
    (n : ℕ) (newest : List Node) (q : LogQueueFifo)
    → length (rewind_newest n newest q).qbacklog ≡ length newest - n
unfolding rewind_newest
rewind_newest-length zero newest q = omega (arith, length-reverse newest)
rewind_newest-length (suc n) [] q = omega arith
rewind_newest-length (suc n) (x ∷ newest) q =
    omega (arith, rewind_newest-length n newest (rewound q x))

-- If the kept lengths are right, a rewind by n takes the newest n messages of the backlog, or all
-- if there are fewer, to the front of the queue and keeps the order of backlog and queue.
pub rewind_order :
    (q : LogQueueFifo) (n : ℕ)
    → Measured q
    → let q' = log_queue_fifo_rewind_backlog q n in
      (q'.qbacklog ++ queued q' ≡ q.qbacklog ++ queued q)
      × (length q'.qbacklog ≡ length q.qbacklog - n)
unfolding log_queue_fifo_rewind_backlog
rewind_order q n m =
    let k = if ltb q.qbacklog_len n then q.qbacklog_len else n in
    let r = rewind_newest k (reverse q.qbacklog) q in
    (
      sym (append_assoc r.qbacklog r.qoverflow_output r.qoverflow_wait)
          ∙ ap₂ ◌++◌
              (rewind_newest-order k (reverse q.qbacklog) q
                ∙ ap (λ xs. xs ++ q.qoverflow_output) (reverse-reverse q.qbacklog))
              (rewind_newest-wait k (reverse q.qbacklog) q)
          ∙ append_assoc q.qbacklog q.qoverflow_output q.qoverflow_wait,
      rewind_newest-length k (reverse q.qbacklog) q
          ∙ ground (arith, length-reverse q.qbacklog, m.backlog_len),
    )

-- Rewinding all puts the backlog behind the messages of the output queue and before those of the
-- wait queue, and empties the backlog.
pub rewind_all_order :
    (q : LogQueueFifo)
    → let q' = log_queue_fifo_rewind_backlog_all q in
      (queued q' ≡ q.qoverflow_output ++ (q.qbacklog ++ q.qoverflow_wait)) × (q'.qbacklog ≡ [])
unfolding log_queue_fifo_rewind_backlog_all
rewind_all_order q = (append_assoc q.qoverflow_output q.qbacklog q.qoverflow_wait, refl)

-- If the kept lengths are right, a rewind by n takes the newest n messages of the backlog, or all
-- if there are fewer, to the front of the queue and keeps the order of backlog and queue;
-- rewinding all puts the backlog behind the messages of the output queue and before those of the
-- wait queue, and empties it.
pub rewinds_order :
    (q : LogQueueFifo) (n : ℕ)
    → Measured q
    → let some_back = log_queue_fifo_rewind_backlog q n in
      let all_back = log_queue_fifo_rewind_backlog_all q in
      (some_back.qbacklog ++ queued some_back ≡ q.qbacklog ++ queued q)
      × (length some_back.qbacklog ≡ length q.qbacklog - n)
      × (queued all_back ≡ q.qoverflow_output ++ (q.qbacklog ++ q.qoverflow_wait))
      × (all_back.qbacklog ≡ [])
rewinds_order q n m =
    let (order, left) = rewind_order q n m in
    let (all_order, none_left) = rewind_all_order q in (order, left, all_order, none_left)
