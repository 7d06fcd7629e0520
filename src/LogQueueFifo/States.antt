-- ===== src/LogQueueFifo/States.antt =====
-- The states that a queue comes to, and its invariant there.
use syslog_ng_6_0_core.Common.{
  subst, ℕ, ◌+◌, ◌^◌, ◌<◌, ◌≡◌, sym, ap, ◌∙◌, Option, none, some, List, [], ◌∷◌, arith, get_elem?,
  length, length-append, Outcome, done, done_injective, >>=-eq-done, Option-cases, inl, inr,
}
use syslog_ng_6_0_core.LogQueueFifo.{
  LogQueueFifo, Node, Input, enqueue, log_queue_fifo_new, log_queue_fifo_push_tail,
}
use syslog_ng_6_0_core.LogQueueFifo.Conserve.{push_no_input, push_input}
use syslog_ng_6_0_core.LogQueueFifo.Event.{
  Event, step, push_tail, finish_batch, push_head, pop_head, ack_backlog, rewind_backlog,
  rewind_backlog_all, set_use_backlog,
}
use syslog_ng_6_0_core.LogQueueFifo.Invariant.{
  IsValid, Counted-set, Counted-get_elem?, new-IsValid, push_wait-IsValid, push_head-IsValid,
  pop_head-IsValid, ack_backlog-IsValid, rewind_all-IsValid, rewind-IsValid, move_input-IsValid,
  set_use_backlog-IsValid,
}

-- A push of an input thread does not overflow the 16 bit count of its items.
abbrev pub HasRoom : LogQueueFifo → Event → Type 0
HasRoom q (push_tail (some t) x) =
    (i : Input) → get_elem? q.qoverflow_input t ≡ some i → length i.items + 1 < 2 ^ 16
HasRoom q _ = Unit

push_tail-IsValid :
    (q : LogQueueFifo) (t : Option ℕ) (x : Node) {q' : LogQueueFifo}
    → IsValid q
    → HasRoom q (push_tail t x)
    → log_queue_fifo_push_tail q t x ≡ done q'
    → IsValid q'
unfolding log_queue_fifo_push_tail
push_tail-IsValid q none x v room e = subst IsValid (done_injective e) (push_wait-IsValid q x v)
push_tail-IsValid q (some t) x v room e = elim (Option-cases (get_elem? q.qoverflow_input t)) [
  | inl h ↦ cc (push_no_input q t x h)
  | inr (i, h) ↦ subst IsValid (done_injective (sym (push_input q t x i h) ∙ e)) (record {
    measured = record {
      wait_len = v.measured.wait_len;
      output_len = v.measured.output_len;
      backlog_len = v.measured.backlog_len;
    };
    stored = v.stored;
    inputs = Counted-set q.qoverflow_input t (enqueue i x) v.inputs (
        omega (
          arith,
          Counted-get_elem? q.qoverflow_input t v.inputs h,
          room i h,
          length-append i.items (x ∷ []),
        ));
  })
]

after :
    {q₀ q' : LogQueueFifo} {out₀ out : List Node}
    → ◌≡◌ {A = Outcome (List Node × LogQueueFifo)} (done (out₀, q₀)) (done (out, q'))
    → IsValid q₀
    → IsValid q'
after h v = subst IsValid (ap (λ p. p.1) (done_injective h)) v

-- A call keeps the lengths and the counter right.
step-IsValid :
    (q : LogQueueFifo) (e : Event) {out : List Node} {q' : LogQueueFifo}
    → IsValid q
    → HasRoom q e
    → step q e ≡ done (out, q')
    → IsValid q'
unfolding step
step-IsValid q (push_tail t x) v room h =
    let (q₀, run₀, rest) = >>=-eq-done (log_queue_fifo_push_tail q t x) (λ q₁. done ([], q₁)) h in
    after rest (push_tail-IsValid q t x v room run₀)
step-IsValid q (finish_batch t) v room h = after h (move_input-IsValid q t v)
step-IsValid q (push_head x) v room h = after h (push_head-IsValid q x v)
step-IsValid q pop_head v room h = after h (pop_head-IsValid q v)
step-IsValid q (ack_backlog n) v room h = after h (ack_backlog-IsValid q n v)
step-IsValid q (rewind_backlog n) v room h = after h (rewind-IsValid q n v)
step-IsValid q rewind_backlog_all v room h = after h (rewind_all-IsValid q v)
step-IsValid q (set_use_backlog b) v room h = after h (set_use_backlog-IsValid q b v)

-- The states that a new queue comes to by calls that do not abort.
pub data Reach (threads size : ℕ) : LogQueueFifo → Type 0 where
  fresh : Reach threads size (log_queue_fifo_new threads size)
  call :
      {q q' : LogQueueFifo} {out : List Node} (e : Event)
      → Reach threads size q
      → HasRoom q e
      → step q e ≡ done (out, q')
      → Reach threads size q'

-- In every state that a new queue comes to by the calls of its threads and its driver, which may
-- use the backlog or not, the lengths of the wait queue, the output queue, the backlog and the
-- input queues are right and stored_messages counts the messages of the queue modulo 2^32, if no
-- thread puts 2^16 messages into its input queue in one batch.
pub Reach-IsValid : {threads size : ℕ} {q : LogQueueFifo} → Reach threads size q → IsValid q
Reach-IsValid {threads} {size} fresh = new-IsValid threads size
Reach-IsValid (call {q} e r room h) = step-IsValid q e (Reach-IsValid r) room h
