-- ===== src/LogQueueFifo/Tests.antt =====
-- Runs of lib/logqueue-fifo.c with one input thread and room for three messages.
use syslog_ng_6_0_core.Common.{
  ℕ, ◌+◌, ◌≤◌, ◌<◌, ◌≡◌, ◌⊎◌, refl, true, false, none, some, [], ◌∷◌, ◌++◌, length, done,
}
use syslog_ng_6_0_core.AckTracker.{processed}
use syslog_ng_6_0_core.LogQueueFifo.{
  LogQueueFifo, Node, Input, log_queue_fifo_new, log_queue_fifo_push_tail,
  log_queue_fifo_move_input_unlocked, log_queue_fifo_pop_head, log_queue_fifo_rewind_backlog,
  log_queue_fifo_rewind_backlog_all, take_first, push_wait, log_queue_fifo_get_length,
  log_queue_fifo_ack_backlog, log_queue_fifo_free, log_queue_fifo_is_empty_racy,
  log_queue_set_use_backlog,
}
use syslog_ng_6_0_core.LogQueueFifo.Event.{run, push_tail, pop_head, step, set_use_backlog}
use syslog_ng_6_0_core.LogQueueFifo.Conserve.{run-holds}
use syslog_ng_6_0_core.LogQueueFifo.Weights.{weigh, holds}
use syslog_ng_6_0_core.LogQueueFifo.Order.{Measured, queued, Pops, pop_order, rewinds_order}
use syslog_ng_6_0_core.LogQueueFifo.Drops.{move_input_order, push_wait_order, ack_backlog_order}
use syslog_ng_6_0_core.LogQueueFifo.Invariant.{IsValid}
use syslog_ng_6_0_core.LogQueueFifo.States.{Reach, fresh, call, Reach-IsValid}

abbrev node : ℕ → Node
node n = record { msg = n; ack_needed = true; flow_control_requested = false }

-- Two messages in the backlog, two in the queue, and two in the input queue of thread 0.
abbrev input : Input
input = record { items = node 5 ∷ node 6 ∷ []; len = 2; finish_cb_registered = true }

abbrev queue : LogQueueFifo
queue = record {
  use_backlog = true;
  throttle = 0;
  throttle_buckets = 0;
  stored_messages = 2;
  dropped_messages = 0;
  qoverflow_output = node 3 ∷ [];
  qoverflow_wait = node 4 ∷ [];
  qoverflow_wait_len = 1;
  qoverflow_output_len = 1;
  qoverflow_size = 3;
  qbacklog = node 1 ∷ node 2 ∷ [];
  qbacklog_len = 2;
  qoverflow_input = input ∷ [];
  acks = [];
  notified = 0;
}

queue-Measured : Measured queue
queue-Measured = record { wait_len = refl; output_len = refl; backlog_len = refl }

-- The sum of the numbers of the messages is kept: 21, and 7 with the new one.
run-holds_example :
    weigh (λ n. n.msg) []
      + holds
          (λ n. n.msg)
          (record queue {
            qoverflow_output = [];
            qoverflow_output_len = 0;
            stored_messages = 1;
            qbacklog = node 1 ∷ node 2 ∷ node 3 ∷ [];
            qbacklog_len = 3;
            qoverflow_input =
                record {
                  items = node 5 ∷ node 6 ∷ node 7 ∷ [];
                  len = 3;
                  finish_cb_registered = true;
                }
                ∷ [];
          })
    ≡ 21 + 7
unfolding run step log_queue_fifo_push_tail log_queue_fifo_pop_head take_first
run-holds_example = run-holds (λ n. n.msg) queue (pop_head ∷ push_tail (some 0) (node 7) ∷ []) refl

pop_order_example : Pops queue (log_queue_fifo_pop_head queue).0 (log_queue_fifo_pop_head queue).1
pop_order_example = pop_order queue queue-Measured

rewinds_order_example :
    let some_back = log_queue_fifo_rewind_backlog queue 1 in
    let all_back = log_queue_fifo_rewind_backlog_all queue in
    (some_back.qbacklog ++ queued some_back ≡ queue.qbacklog ++ queued queue)
    × (length some_back.qbacklog ≡ 1)
    × (queued all_back ≡ queue.qoverflow_output ++ (queue.qbacklog ++ queue.qoverflow_wait))
    × (all_back.qbacklog ≡ [])
rewinds_order_example = rewinds_order queue 1 queue-Measured

-- One of the two does not fit.
move_input_order_example :
    let q' = log_queue_fifo_move_input_unlocked queue 0 in
    (queued q' ≡ node 3 ∷ node 4 ∷ node 6 ∷ [])
    × (q'.acks ≡ (node 5, processed) ∷ [])
    × (length (queued q') ≤ 3)
move_input_order_example = move_input_order queue 0 input queue-Measured refl refl

push_wait_order_example :
    (q' : LogQueueFifo) × (log_queue_fifo_push_tail queue none (node 7) ≡ done q')
    × (((2 < 3) × (queued q' ≡ node 3 ∷ node 4 ∷ node 7 ∷ []) × (q'.acks ≡ []))
        ⊎ ((3 ≤ 2) × (queued q' ≡ node 3 ∷ node 4 ∷ []) × (q'.acks ≡ (node 7, processed) ∷ [])))
push_wait_order_example = push_wait_order queue (node 7) queue-Measured

ack_backlog_order_example :
    let q' = log_queue_fifo_ack_backlog queue 1 in
    (q'.qbacklog ≡ node 2 ∷ [])
    × (q'.acks ≡ (node 1, processed) ∷ [])
    × (queued q' ≡ node 3 ∷ node 4 ∷ [])
ack_backlog_order_example = ack_backlog_order queue 1 queue-Measured

-- a new queue that was told to use its backlog, and has one of two messages there
abbrev one_sent : LogQueueFifo
one_sent = record {
  use_backlog = true;
  throttle = 0;
  throttle_buckets = 0;
  stored_messages = 1;
  dropped_messages = 0;
  qoverflow_output = node 2 ∷ [];
  qoverflow_wait = [];
  qoverflow_wait_len = 0;
  qoverflow_output_len = 1;
  qoverflow_size = 3;
  qbacklog = node 1 ∷ [];
  qbacklog_len = 1;
  qoverflow_input = record { items = []; len = 0; finish_cb_registered = false } ∷ [];
  acks = [];
  notified = 2;
}

to_one_sent : Reach 1 3 one_sent
unfolding step log_queue_fifo_new log_queue_fifo_push_tail push_wait log_queue_fifo_get_length
    log_queue_fifo_pop_head take_first log_queue_set_use_backlog
to_one_sent =
    let used : Reach 1 3 (log_queue_set_use_backlog (log_queue_fifo_new 1 3) true) =
      call {out = []} (set_use_backlog true) fresh tt refl in
    let first : Reach 1 3
        (push_wait (log_queue_set_use_backlog (log_queue_fifo_new 1 3) true) (node 1)) =
      call {out = []} (push_tail none (node 1)) used tt refl in
    let second : Reach 1 3 (
        push_wait (push_wait (log_queue_set_use_backlog (log_queue_fifo_new 1 3) true) (node 1))
          (node 2)) =
      call {out = []} (push_tail none (node 2)) first tt refl in
    call {out = []} pop_head second tt refl

Reach-IsValid_example : IsValid one_sent
Reach-IsValid_example = Reach-IsValid to_one_sent

-- Only the queue, not the backlog, counts as messages to send.
empty_racy :
    (log_queue_fifo_is_empty_racy queue ≡ false)
    × (log_queue_fifo_is_empty_racy (log_queue_fifo_new 1 3) ≡ true)
unfolding log_queue_fifo_is_empty_racy log_queue_fifo_new
empty_racy = (refl, refl)

freed_all : length (log_queue_fifo_free queue) ≡ 6
unfolding log_queue_fifo_free
freed_all = refl
