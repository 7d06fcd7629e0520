-- ===== src/LogQueueFifo/Event.antt =====
-- What the threads and the destination driver do with a queue, as a sequence of calls.
use syslog_ng_6_0_core.Common.{
  ℕ, Bool, Option, none, some, List, [], ◌∷◌, ◌++◌, if◌then◌else◌, Outcome, done, ◌>>=◌,
}
use syslog_ng_6_0_core.LogQueueFifo.{
  LogQueueFifo, Node, log_queue_fifo_push_tail, log_queue_fifo_move_input, log_queue_fifo_push_head,
  log_queue_fifo_pop_head, log_queue_fifo_ack_backlog, log_queue_fifo_rewind_backlog,
  log_queue_fifo_rewind_backlog_all, log_queue_set_use_backlog,
}

pub data Event : Type 0 where
  push_tail : Option ℕ → Node → Event
  finish_batch : ℕ → Event
  push_head : Node → Event
  pop_head : Event
  ack_backlog : ℕ → Event
  rewind_backlog : ℕ → Event
  rewind_backlog_all : Event
  set_use_backlog : Bool → Event

-- A popped message leaves the queue for good, unless it stays in the backlog.
abbrev pub delivered : LogQueueFifo → Option Node → List Node
delivered q none = []
delivered q (some node) = if q.use_backlog then [] else node ∷ []

-- The messages that leave the queue for the driver, and the new queue.
unfoldable pub step : LogQueueFifo → Event → Outcome (List Node × LogQueueFifo)
step q (push_tail thread_id node) = do q' ← log_queue_fifo_push_tail q thread_id node; done ([], q')
step q (finish_batch thread_id) = done ([], log_queue_fifo_move_input q thread_id)
step q (push_head node) = done ([], log_queue_fifo_push_head q node)
step q pop_head = done (delivered q (log_queue_fifo_pop_head q).0, (log_queue_fifo_pop_head q).1)
step q (ack_backlog n) = done ([], log_queue_fifo_ack_backlog q n)
step q (rewind_backlog n) = done ([], log_queue_fifo_rewind_backlog q n)
step q rewind_backlog_all = done ([], log_queue_fifo_rewind_backlog_all q)
step q (set_use_backlog use_backlog) = done ([], log_queue_set_use_backlog q use_backlog)

unfoldable pub run : LogQueueFifo → List Event → Outcome (List Node × LogQueueFifo)
run q [] = done ([], q)
run q (e ∷ es) = do (out, q') ← step q e; (more, q'') ← run q' es; done (out ++ more, q'')

-- the messages that the calls put in
abbrev pub put_in : List Event → List Node
put_in [] = []
put_in (push_tail _ node ∷ es) = node ∷ put_in es
put_in (push_head node ∷ es) = node ∷ put_in es
put_in (_ ∷ es) = put_in es
