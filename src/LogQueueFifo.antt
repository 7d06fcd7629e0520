-- ===== src/LogQueueFifo.antt =====
-- lib/logqueue-fifo.c. Messages go from the per-thread
-- input queues to the wait queue, the output queue, and, where the backlog is in use, to the
-- backlog. Each function runs under the lock or in the thread that the source names for it, so a
-- call is one step. Reference counts, and the nodes' memory, are not part of the state.
pub mod Invariant
pub mod Event
pub mod Weights
pub mod Conserve
pub mod Order
pub mod Drops
pub mod States
mod Tests
use syslog_ng_6_0_core.Common.{
  ℕ, zero, suc, ◌+◌, ◌-◌, ◌%◌, ◌^◌, Bool, true, false, not, ◌&&◌, ◌||◌, Option, none, some, List,
  [], ◌∷◌, ◌++◌, map, ltb, leb, ◌==◌, if◌then◌else◌, length, get_elem?, set, replicate, reverse,
  Outcome, done, abort, ◌>>=◌, ◌>>◌, g_assert,
}
use syslog_ng_6_0_core.AckTracker.{AckType, processed, aborted, suspended}

-- `LogMessageQueueNode`; `msg` stands for the pointer to the message.
pub record Node : Type 0 where
  pub msg : ℕ
  pub ack_needed : Bool
  pub flow_control_requested : Bool

-- one element of `qoverflow_input`; `len` is a `guint16`
pub record Input : Type 0 where
  pub items : List Node
  pub len : ℕ
  pub finish_cb_registered : Bool

-- `LogQueueFifo` and the fields of `LogQueue` that it uses. `acks` lists the calls of `log_msg_ack`
-- and `log_msg_drop`, oldest first, and `notified` counts those of `log_queue_push_notify`. The
-- lengths are `gint`, whose overflow C leaves undefined, so they are numbers; the counters of
-- stats.h are 32 bits wide.
pub record LogQueueFifo : Type 0 where
  pub use_backlog : Bool
  pub throttle : ℕ
  pub throttle_buckets : ℕ
  pub stored_messages : ℕ
  pub dropped_messages : ℕ
  pub qoverflow_output : List Node
  pub qoverflow_wait : List Node
  pub qoverflow_wait_len : ℕ
  pub qoverflow_output_len : ℕ
  pub qoverflow_size : ℕ
  pub qbacklog : List Node
  pub qbacklog_len : ℕ
  pub qoverflow_input : List Input
  pub acks : List (Node × AckType)
  pub notified : ℕ

-- `log_queue_set_use_backlog` of logqueue.h, which the drivers call on a new queue
unfoldable pub log_queue_set_use_backlog : LogQueueFifo → Bool → LogQueueFifo
log_queue_set_use_backlog self use_backlog = record self { use_backlog = use_backlog }

abbrev pub counter_add : ℕ → ℕ → ℕ
counter_add c n = (c + n) % 2 ^ 32

abbrev pub counter_dec : ℕ → ℕ
counter_dec c = (c + 2 ^ 32 - 1) % 2 ^ 32

unfoldable pub log_queue_fifo_get_length : LogQueueFifo → ℕ
log_queue_fifo_get_length self = self.qoverflow_wait_len + self.qoverflow_output_len

any_registered : List Input → Bool
any_registered [] = false
any_registered (i ∷ is) = i.finish_cb_registered || any_registered is

unfoldable pub log_queue_fifo_is_empty_racy : LogQueueFifo → Bool
unfolding log_queue_fifo_get_length any_registered
log_queue_fifo_is_empty_racy self =
    not
      (if ltb 0 (log_queue_fifo_get_length self) then true else any_registered self.qoverflow_input)

unfoldable pub log_queue_fifo_keep_on_reload : LogQueueFifo → Bool
unfolding log_queue_fifo_get_length
log_queue_fifo_keep_on_reload self =
    ltb 0 (log_queue_fifo_get_length self) || ltb 0 self.qbacklog_len

-- the type with which a message that does not fit is dropped
abbrev pub drop_type : Node → AckType
drop_type node = if node.flow_control_requested then suspended else processed

-- `n` rounds of the loop of `log_queue_fifo_move_input_unlocked`, on the items, their `len`, the
-- counter `dropped_messages` and the acks. It does not run on an empty list: `n` is at most `len`.
unfoldable pub drop_oldest :
    ℕ
    → List Node
    → ℕ
    → ℕ
    → List (Node × AckType)
    → record { items : List Node; len : ℕ; dropped : ℕ; acks : List (Node × AckType) }
drop_oldest zero items len dropped acks = record {
  items = items;
  len = len;
  dropped = dropped;
  acks = acks;
}
drop_oldest (suc n) [] len dropped acks = record {
  items = [];
  len = len;
  dropped = dropped;
  acks = acks;
}
drop_oldest (suc n) (node ∷ items) len dropped acks =
    drop_oldest n items (len - 1) (counter_add dropped 1) (acks ++ (node, drop_type node) ∷ [])

-- how many messages of the input queue do not fit
abbrev pub overflow : LogQueueFifo → Input → ℕ
overflow self input =
    let queue_len = self.qoverflow_wait_len + self.qoverflow_output_len in
    if ltb self.qoverflow_size (queue_len + input.len)
    then input.len - (self.qoverflow_size - queue_len)
    else 0

abbrev pub drained : Input → Input
drained input = record input { items = []; len = 0 }

unfoldable pub move_items : LogQueueFifo → ℕ → Input → LogQueueFifo
unfolding drop_oldest
move_items self thread_id input =
    let kept =
      drop_oldest (overflow self input) input.items input.len self.dropped_messages self.acks in
    record self {
      stored_messages = counter_add self.stored_messages kept.len;
      dropped_messages = kept.dropped;
      qoverflow_wait = self.qoverflow_wait ++ kept.items;
      qoverflow_wait_len = self.qoverflow_wait_len + kept.len;
      qoverflow_input = set self.qoverflow_input thread_id (drained input);
      acks = kept.acks;
    }

-- An index past the input queues does not occur: the callers assert that.
unfoldable pub log_queue_fifo_move_input_unlocked : LogQueueFifo → ℕ → LogQueueFifo
log_queue_fifo_move_input_unlocked self thread_id =
    elim (get_elem? self.qoverflow_input thread_id) [
      | none ↦ self
      | some input ↦ move_items self thread_id input
    ]

abbrev pub push_notify : LogQueueFifo → LogQueueFifo
push_notify self = record self { notified = self.notified + 1 }

abbrev pub unregister : LogQueueFifo → ℕ → LogQueueFifo
unregister self thread_id = elim (get_elem? self.qoverflow_input thread_id) [
  | none ↦ self
  | some input ↦ record self {
    qoverflow_input =
        set self.qoverflow_input thread_id (record input { finish_cb_registered = false });
  }
]

-- The batch callback of the input thread `thread_id`.
unfoldable pub log_queue_fifo_move_input : LogQueueFifo → ℕ → LogQueueFifo
log_queue_fifo_move_input self thread_id =
    unregister (push_notify (log_queue_fifo_move_input_unlocked self thread_id)) thread_id

abbrev pub enqueue : Input → Node → Input
enqueue input node = record input {
  items = input.items ++ node ∷ [];
  len = (input.len + 1) % 2 ^ 16;
  finish_cb_registered = true;
}

abbrev pub put_input : LogQueueFifo → ℕ → Input → Node → LogQueueFifo
put_input self thread_id input node = record self {
  qoverflow_input = set self.qoverflow_input thread_id (enqueue input node);
}

-- the slow path, where the thread is none of the input threads
unfoldable pub push_wait : LogQueueFifo → Node → LogQueueFifo
unfolding log_queue_fifo_get_length
push_wait self node =
    if ltb (log_queue_fifo_get_length self) self.qoverflow_size
    then push_notify (record self {
      qoverflow_wait = self.qoverflow_wait ++ node ∷ [];
      qoverflow_wait_len = self.qoverflow_wait_len + 1;
      stored_messages = counter_add self.stored_messages 1;
    })
    else record self {
      dropped_messages = counter_add self.dropped_messages 1;
      acks = self.acks ++ (node, drop_type node) ∷ [];
    }

-- `thread_id` is `none` where `main_loop_worker_get_thread_id ()` is negative.
unfoldable pub log_queue_fifo_push_tail : LogQueueFifo → Option ℕ → Node → Outcome LogQueueFifo
log_queue_fifo_push_tail self none node = done (push_wait self node)
log_queue_fifo_push_tail self (some thread_id) node =
    elim (get_elem? self.qoverflow_input thread_id) [
      | none ↦ abort
      | some input ↦ done (put_input self thread_id input node)
    ]

unfoldable pub log_queue_fifo_push_head : LogQueueFifo → Node → LogQueueFifo
log_queue_fifo_push_head self node = record self {
  qoverflow_output = node ∷ self.qoverflow_output;
  qoverflow_output_len = self.qoverflow_output_len + 1;
  stored_messages = counter_add self.stored_messages 1;
}

-- the first `if` of `log_queue_fifo_pop_head`
abbrev pub refill : LogQueueFifo → LogQueueFifo
refill self =
    if self.qoverflow_output_len == 0
    then record self {
      qoverflow_output = self.qoverflow_output ++ self.qoverflow_wait;
      qoverflow_wait = [];
      qoverflow_output_len = self.qoverflow_wait_len;
      qoverflow_wait_len = 0;
    }
    else self

-- the rest of it; the list is `qoverflow_output`
unfoldable pub take_first : LogQueueFifo → List Node → Option Node × LogQueueFifo
take_first self [] = (none, self)
take_first self (node ∷ rest) =
    let popped = record self {
      qoverflow_output = rest;
      qoverflow_output_len = self.qoverflow_output_len - 1;
      stored_messages = counter_dec self.stored_messages;
    } in
    (
      some node,
      if self.use_backlog
          then record popped {
            qbacklog = self.qbacklog ++ node ∷ [];
            qbacklog_len = self.qbacklog_len + 1;
          }
          else popped,
    )

-- The message comes with the flags of its node. With a positive length the list is not empty.
unfoldable pub log_queue_fifo_pop_head : LogQueueFifo → Option Node × LogQueueFifo
log_queue_fifo_pop_head self =
    let filled = refill self in
    if ltb 0 filled.qoverflow_output_len
    then take_first filled filled.qoverflow_output
    else (none, filled)

-- `ack_backlog` with `n` rounds left, on the backlog, its length and the acks
unfoldable pub ack_oldest :
    ℕ
    → List Node
    → ℕ
    → List (Node × AckType)
    → record { items : List Node; len : ℕ; acks : List (Node × AckType) }
ack_oldest zero items len acks = record { items = items; len = len; acks = acks }
ack_oldest (suc n) [] len acks = record { items = []; len = len; acks = acks }
ack_oldest (suc n) (node ∷ items) len acks =
    let rest = ack_oldest n items (len - 1) (acks ++ (node, processed) ∷ []) in
    if ltb 0 len then rest else record { items = node ∷ items; len = len; acks = acks }

unfoldable pub log_queue_fifo_ack_backlog : LogQueueFifo → ℕ → LogQueueFifo
unfolding ack_oldest
log_queue_fifo_ack_backlog self rewind_count =
    let r = ack_oldest rewind_count self.qbacklog self.qbacklog_len self.acks in
    record self { qbacklog = r.items; qbacklog_len = r.len; acks = r.acks }

unfoldable pub log_queue_fifo_rewind_backlog_all : LogQueueFifo → LogQueueFifo
log_queue_fifo_rewind_backlog_all self = record self {
  qoverflow_output = self.qoverflow_output ++ self.qbacklog;
  qbacklog = [];
  qoverflow_output_len = self.qoverflow_output_len + self.qbacklog_len;
  stored_messages = counter_add self.stored_messages self.qbacklog_len;
  qbacklog_len = 0;
}

abbrev pub rewound : LogQueueFifo → Node → LogQueueFifo
rewound self node = record self {
  qoverflow_output = node ∷ self.qoverflow_output;
  qbacklog_len = self.qbacklog_len - 1;
  qoverflow_output_len = self.qoverflow_output_len + 1;
  stored_messages = counter_add self.stored_messages 1;
}

-- the loop of `log_queue_fifo_rewind_backlog`; the list is the backlog, newest first
unfoldable pub rewind_newest : ℕ → List Node → LogQueueFifo → LogQueueFifo
rewind_newest zero newest self = record self { qbacklog = reverse newest }
rewind_newest (suc n) [] self = record self { qbacklog = [] }
rewind_newest (suc n) (node ∷ newest) self = rewind_newest n newest (rewound self node)

unfoldable pub log_queue_fifo_rewind_backlog : LogQueueFifo → ℕ → LogQueueFifo
log_queue_fifo_rewind_backlog self rewind_count =
    rewind_newest (if ltb self.qbacklog_len rewind_count then self.qbacklog_len else rewind_count)
      (reverse self.qbacklog) self

-- `log_queue_fifo_free_queue`: every message is acknowledged as aborted.
abbrev pub abort_all : List Node → List (Node × AckType)
abort_all = map (λ node. (node, aborted))

abbrev pub inputs_items : List Input → List Node
inputs_items [] = []
inputs_items (i ∷ is) = i.items ++ inputs_items is

-- The queue is gone; what is left are the acknowledgements.
unfoldable pub log_queue_fifo_free : LogQueueFifo → List (Node × AckType)
log_queue_fifo_free self =
    self.acks
    ++ (abort_all (inputs_items self.qoverflow_input)
        ++ (abort_all self.qoverflow_wait
            ++ (abort_all self.qoverflow_output ++ abort_all self.qbacklog)))

unfoldable pub log_queue_fifo_new : ℕ → ℕ → LogQueueFifo
log_queue_fifo_new max_threads qoverflow_size = record {
  use_backlog = false;
  throttle = 0;
  throttle_buckets = 0;
  stored_messages = 0;
  dropped_messages = 0;
  qoverflow_output = [];
  qoverflow_wait = [];
  qoverflow_wait_len = 0;
  qoverflow_output_len = 0;
  qoverflow_size = qoverflow_size;
  qbacklog = [];
  qbacklog_len = 0;
  qoverflow_input =
      replicate max_threads (record { items = []; len = 0; finish_cb_registered = false });
  acks = [];
  notified = 0;
}
