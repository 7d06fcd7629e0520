-- ===== src/LogQueueFifo/Conserve.antt =====
-- The messages that a queue holds or has acknowledged, in sum, over its operations.
use syslog_ng_6_0_core.Common.{
  Bool, ℕ, zero, suc, ◌+◌, ◌≡◌, refl, sym, ap, ◌∙◌, Option, none, some, List, [], ◌∷◌, ◌++◌,
  reverse, false, arith, get_elem?, if◌then◌else◌, ltb, Outcome, done, abort, ◌>>=◌, done_injective,
  Bool-cases, Option-cases, inl, inr, >>=-eq-done,
}
use syslog_ng_6_0_core.AckTracker.{AckType}
use syslog_ng_6_0_core.LogQueueFifo.{
  log_queue_set_use_backlog, LogQueueFifo, Node, Input, drop_oldest, overflow, drained, move_items,
  rewind_newest, inputs_items, drop_type, refill, take_first, push_wait, push_notify, put_input,
  rewound, unregister, enqueue, log_queue_fifo_move_input_unlocked, log_queue_fifo_free, abort_all,
  log_queue_fifo_push_tail, log_queue_fifo_move_input, log_queue_fifo_push_head,
  log_queue_fifo_pop_head, log_queue_fifo_ack_backlog, log_queue_fifo_rewind_backlog,
  log_queue_fifo_rewind_backlog_all,
}
use syslog_ng_6_0_core.LogQueueFifo.Event.{
  Event, step, run, put_in, delivered, push_tail, finish_batch, push_head, pop_head, ack_backlog,
  rewind_backlog, rewind_backlog_all, set_use_backlog,
}
use syslog_ng_6_0_core.LogQueueFifo.Weights.{
  weigh-append, weigh_acks-concat, weigh-reverse, weigh-set, drop_oldest-weigh, ack_oldest-weigh,
  weigh, weigh_acks, holds,
}

pub push_no_input :
    (q : LogQueueFifo) (t : ℕ) (x : Node)
    → get_elem? q.qoverflow_input t ≡ none
    → log_queue_fifo_push_tail q (some t) x ≡ abort
unfolding log_queue_fifo_push_tail
push_no_input q t x h = rw (h, log_queue_fifo_push_tail)

pub push_input :
    (q : LogQueueFifo) (t : ℕ) (x : Node) (i : Input)
    → get_elem? q.qoverflow_input t ≡ some i
    → log_queue_fifo_push_tail q (some t) x ≡ done (put_input q t i x)
unfolding log_queue_fifo_push_tail
push_input q t x i h = rw (h, log_queue_fifo_push_tail)

module _ (f : Node → ℕ) where
  move_items-holds :
      (q : LogQueueFifo) (t : ℕ) (i : Input)
      → get_elem? q.qoverflow_input t ≡ some i
      → holds f (move_items q t i) ≡ holds f q
  unfolding move_items
  move_items-holds q t i e =
      let kept = drop_oldest (overflow q i) i.items i.len q.dropped_messages q.acks in
      omega (
        arith,
        drop_oldest-weigh f (overflow q i) i.items i.len q.dropped_messages q.acks,
        weigh-append f q.qoverflow_wait kept.items,
        weigh-set f q.qoverflow_input t i (drained i) e,
      )

  move_unlocked-holds :
      (q : LogQueueFifo) (t : ℕ) → holds f (log_queue_fifo_move_input_unlocked q t) ≡ holds f q
  unfolding log_queue_fifo_move_input_unlocked
  move_unlocked-holds q t = elim (Option-cases (get_elem? q.qoverflow_input t)) [
    | inl e ↦ rw (e, log_queue_fifo_move_input_unlocked)
    | inr (i, e) ↦ rw (e, log_queue_fifo_move_input_unlocked) (move_items-holds q t i e)
  ]

  unregister-holds : (q : LogQueueFifo) (t : ℕ) → holds f (unregister q t) ≡ holds f q
  unregister-holds q t = elim (Option-cases (get_elem? q.qoverflow_input t)) [
    | inl e ↦ rw (e, unregister)
    | inr (i, e) ↦
        rw (e, unregister)
          (omega (
            arith,
            weigh-set f q.qoverflow_input t i (record i { finish_cb_registered = false }) e,
          ))
  ]

  move_input-holds :
      (q : LogQueueFifo) (t : ℕ) → holds f (log_queue_fifo_move_input q t) ≡ holds f q
  unfolding log_queue_fifo_move_input
  move_input-holds q t =
      unregister-holds (push_notify (log_queue_fifo_move_input_unlocked q t)) t
      ∙ move_unlocked-holds q t

  push_wait-holds : (q : LogQueueFifo) (x : Node) → holds f (push_wait q x) ≡ holds f q + f x
  unfolding push_wait
  push_wait-holds q x =
      ground (
        arith,
        weigh-append f q.qoverflow_wait (x ∷ []),
        weigh_acks-concat f q.acks (x, drop_type x),
      )

  push_tail-holds :
      (q : LogQueueFifo) (t : Option ℕ) (x : Node) {q' : LogQueueFifo}
      → log_queue_fifo_push_tail q t x ≡ done q'
      → holds f q' ≡ holds f q + f x
  unfolding log_queue_fifo_push_tail
  push_tail-holds q none x e = ap (holds f) (sym (done_injective e)) ∙ push_wait-holds q x
  push_tail-holds q (some t) x e = elim (Option-cases (get_elem? q.qoverflow_input t)) [
    | inl h ↦ cc (push_no_input q t x h)
    | inr (i, h) ↦
        ap (holds f) (sym (done_injective (sym (push_input q t x i h) ∙ e)))
        ∙ omega (
          arith,
          weigh-set f q.qoverflow_input t i (enqueue i x) h,
          weigh-append f i.items (x ∷ []),
        )
  ]

  push_head-holds :
      (q : LogQueueFifo) (x : Node) → holds f (log_queue_fifo_push_head q x) ≡ holds f q + f x
  unfolding log_queue_fifo_push_head
  push_head-holds q x = omega arith

  refill-holds : (q : LogQueueFifo) → holds f (refill q) ≡ holds f q
  refill-holds q = ground (arith, weigh-append f q.qoverflow_output q.qoverflow_wait)

  ack_backlog-holds :
      (q : LogQueueFifo) (n : ℕ) → holds f (log_queue_fifo_ack_backlog q n) ≡ holds f q
  unfolding log_queue_fifo_ack_backlog
  ack_backlog-holds q n = omega (arith, ack_oldest-weigh f n q.qbacklog q.qbacklog_len q.acks)

  rewind_all-holds : (q : LogQueueFifo) → holds f (log_queue_fifo_rewind_backlog_all q) ≡ holds f q
  unfolding log_queue_fifo_rewind_backlog_all
  rewind_all-holds q = omega (arith, weigh-append f q.qoverflow_output q.qbacklog)

  rewind_newest-holds :
      (n : ℕ) (newest : List Node) (q : LogQueueFifo)
      → holds f (rewind_newest n newest q) + weigh f q.qbacklog ≡ holds f q + weigh f newest
  unfolding rewind_newest
  rewind_newest-holds zero newest q = omega (arith, weigh-reverse f newest)
  rewind_newest-holds (suc n) [] q = omega arith
  rewind_newest-holds (suc n) (x ∷ newest) q =
      omega (arith, rewind_newest-holds n newest (rewound q x))

  rewind-holds :
      (q : LogQueueFifo) (n : ℕ) → holds f (log_queue_fifo_rewind_backlog q n) ≡ holds f q
  unfolding log_queue_fifo_rewind_backlog
  rewind-holds q n = omega (
    arith,
    rewind_newest-holds (if ltb q.qbacklog_len n then q.qbacklog_len else n) (reverse q.qbacklog) q,
    weigh-reverse f q.qbacklog,
  )

  take_first-holds :
      (q : LogQueueFifo) (xs : List Node)
      → weigh f xs ≡ weigh f q.qoverflow_output
      → weigh f (delivered q (take_first q xs).0) + holds f (take_first q xs).1 ≡ holds f q
  unfolding take_first
  take_first-holds q [] e = omega arith
  take_first-holds q (x ∷ xs) e = ground (arith, weigh-append f q.qbacklog (x ∷ []))

  refill-delivered : (q : LogQueueFifo) (o : Option Node) → delivered (refill q) o ≡ delivered q o
  refill-delivered q none = refl
  refill-delivered q (some x) = ground arith

  pop_head-holds :
      (q : LogQueueFifo)
      → weigh f (delivered q (log_queue_fifo_pop_head q).0) + holds f (log_queue_fifo_pop_head q).1
        ≡ holds f q
  unfolding log_queue_fifo_pop_head
  pop_head-holds q = elim (Bool-cases (ltb 0 (refill q).qoverflow_output_len)) [
    | inl e ↦
        let r = take_first (refill q) (refill q).qoverflow_output in
        rw e (
          omega (
            arith,
            ap (weigh f) (refill-delivered q r.0),
            take_first-holds (refill q) (refill q).qoverflow_output refl,
            refill-holds q,
          ))
    | inr e ↦ rw e (omega (arith, refill-holds q))
  ]

  set_use_backlog-holds :
      (q : LogQueueFifo) (b : Bool) → holds f (log_queue_set_use_backlog q b) ≡ holds f q
  unfolding log_queue_set_use_backlog
  set_use_backlog-holds q b = refl

  -- The outcome of a call, where the new queue is known.
  known :
      {q₀ q' : LogQueueFifo} {out₀ out : List Node} (n : ℕ)
      → ◌≡◌ {A = Outcome (List Node × LogQueueFifo)} (done (out₀, q₀)) (done (out, q'))
      → weigh f out₀ + holds f q₀ ≡ n
      → weigh f out + holds f q' ≡ n
  known n h e = ap (λ p. weigh f p.0 + holds f p.1) (sym (done_injective h)) ∙ e

  step-holds :
      (q : LogQueueFifo) (e : Event) {out : List Node} {q' : LogQueueFifo}
      → step q e ≡ done (out, q')
      → weigh f out + holds f q' ≡ holds f q + weigh f (put_in (e ∷ []))
  unfolding step
  step-holds q (push_tail t x) h =
      let (q₀, run₀, rest) = >>=-eq-done (log_queue_fifo_push_tail q t x) (λ q₁. done ([], q₁)) h in
      known _ rest (omega (arith, push_tail-holds q t x run₀))
  step-holds q (finish_batch t) h = known _ h (omega (arith, move_input-holds q t))
  step-holds q (push_head x) h = known _ h (omega (arith, push_head-holds q x))
  step-holds q pop_head h = known _ h (omega (arith, pop_head-holds q))
  step-holds q (ack_backlog n) h = known _ h (omega (arith, ack_backlog-holds q n))
  step-holds q (rewind_backlog n) h = known _ h (omega (arith, rewind-holds q n))
  step-holds q rewind_backlog_all h = known _ h (omega (arith, rewind_all-holds q))
  step-holds q (set_use_backlog b) h = known _ h (omega (arith, set_use_backlog-holds q b))

  put_in-cons :
      (e : Event) (es : List Event)
      → weigh f (put_in (e ∷ es)) ≡ weigh f (put_in (e ∷ [])) + weigh f (put_in es)
  put_in-cons (push_tail t x) es = omega arith
  put_in-cons (push_head x) es = omega arith
  put_in-cons _ es = omega arith

  -- Over any sequence of calls that does not abort, the messages that left, are held, or were
  -- acknowledged or dropped are, with multiplicity, those held or acknowledged before and those
  -- put in.
  pub run-holds :
      (q : LogQueueFifo) (es : List Event) {out : List Node} {q' : LogQueueFifo}
      → run q es ≡ done (out, q')
      → weigh f out + holds f q' ≡ holds f q + weigh f (put_in es)
  unfolding run
  run-holds q [] h = known _ h (omega arith)
  run-holds q (e ∷ es) h =
      let (a, run₁, rest) =
        >>=-eq-done (step q e) (λ a. run a.1 es >>= λ b. done (a.0 ++ b.0, b.1)) h in
      let (b, run₂, last) = >>=-eq-done (run a.1 es) (λ b. done (a.0 ++ b.0, b.1)) rest in
      known _ last (
        omega (
          arith,
          weigh-append f a.0 b.0,
          step-holds q e {out = a.0} {q' = a.1} run₁,
          run-holds a.1 es {out = b.0} {q' = b.1} run₂,
          put_in-cons e es,
        ))

  weigh_acks-append :
      (xs ys : List (Node × AckType)) → weigh_acks f (xs ++ ys) ≡ weigh_acks f xs + weigh_acks f ys
  weigh_acks-append [] ys = omega arith
  weigh_acks-append (x ∷ xs) ys = omega (arith, weigh_acks-append xs ys)

  weigh_acks-abort_all : (xs : List Node) → weigh_acks f (abort_all xs) ≡ weigh f xs
  weigh_acks-abort_all [] = refl
  weigh_acks-abort_all (x ∷ xs) = omega (arith, weigh_acks-abort_all xs)

  -- The acknowledgements that a queue has given when it is freed are of the messages that it held
  -- or had acknowledged, as often as each occurs: the two have one weight, whatever weight a
  -- message has.
  pub free-holds : (q : LogQueueFifo) → weigh_acks f (log_queue_fifo_free q) ≡ holds f q
  unfolding log_queue_fifo_free
  free-holds q =
      let rest = abort_all q.qoverflow_output ++ abort_all q.qbacklog in
      omega (
        arith,
        weigh_acks-append q.acks
            (abort_all (inputs_items q.qoverflow_input) ++ (abort_all q.qoverflow_wait ++ rest)),
        weigh_acks-append (abort_all (inputs_items q.qoverflow_input))
            (abort_all q.qoverflow_wait ++ rest),
        weigh_acks-append (abort_all q.qoverflow_wait) rest,
        weigh_acks-append (abort_all q.qoverflow_output) (abort_all q.qbacklog),
        weigh_acks-abort_all (inputs_items q.qoverflow_input),
        weigh_acks-abort_all q.qoverflow_wait,
        weigh_acks-abort_all q.qoverflow_output,
        weigh_acks-abort_all q.qbacklog,
      )
