-- ===== src/LogQueueFifo/Invariant.antt =====
-- The invariant of the queue, on the lengths that it keeps and its counter, and its operations.
use mathlib.Core.Option.{some-injective}
use syslog_ng_6_0_core.Common.{
  subst, Bool, ℕ, zero, suc, ◌+◌, ◌-◌, ◌%◌, ◌^◌, ◌≤◌, ◌≡◌, refl, sym, ap, ◌∙◌, false, some, List,
  [], ◌∷◌, ◌++◌, reverse, arith, get_elem?, set, replicate, length, length-append, length-reverse,
  length-drop, ltb, Bool-cases, Option-cases, inl, inr,
}
use syslog_ng_6_0_core.AckTracker.{AckType, processed}
use syslog_ng_6_0_core.LogQueueFifo.{
  LogQueueFifo, Node, Input, drop_oldest, overflow, drained, move_items, rewind_newest, rewound,
  refill, take_first, push_wait, push_notify, unregister, ack_oldest, log_queue_fifo_new,
  log_queue_fifo_push_head, log_queue_fifo_move_input, log_queue_fifo_move_input_unlocked,
  log_queue_fifo_pop_head, log_queue_fifo_ack_backlog, log_queue_fifo_rewind_backlog,
  log_queue_fifo_rewind_backlog_all, log_queue_set_use_backlog,
}
use syslog_ng_6_0_core.LogQueueFifo.Order.{Measured}
use syslog_ng_6_0_core.LogQueueFifo.Drops.{move_eq, overflow-le, drop_oldest-len, drop_oldest-items}

-- Each input queue counts its items.
abbrev pub Counted : List Input → Type 0
Counted [] = Unit
Counted (i ∷ is) = (i.len ≡ length i.items) × Counted is

pub record IsValid (q : LogQueueFifo) : Type 0 where
  pub measured : Measured q
  pub stored : q.stored_messages ≡ (q.qoverflow_wait_len + q.qoverflow_output_len) % 2 ^ 32
  pub inputs : Counted q.qoverflow_input

pub Counted-set :
    (is : List Input) (t : ℕ) (j : Input)
    → Counted is
    → j.len ≡ length j.items
    → Counted (set is t j)
Counted-set [] t j c e = tt
Counted-set (x ∷ is) zero j c e = (e, c.1)
Counted-set (x ∷ is) (suc t) j c e = (c.0, Counted-set is t j c.1 e)

pub Counted-get_elem? :
    (is : List Input) (t : ℕ) {i : Input}
    → Counted is
    → get_elem? is t ≡ some i
    → i.len ≡ length i.items
Counted-get_elem? [] t c e = cc
Counted-get_elem? (x ∷ is) zero c e =
    subst (λ (k : Input). k.len ≡ length k.items) (some-injective _ _ e) c.0
Counted-get_elem? (x ∷ is) (suc t) c e = Counted-get_elem? is t c.1 e

Counted-replicate : (n : ℕ) (i : Input) → i.len ≡ length i.items → Counted (replicate n i)
Counted-replicate zero i e = tt
Counted-replicate (suc n) i e = (e, Counted-replicate n i e)

pub new-IsValid : (threads size : ℕ) → IsValid (log_queue_fifo_new threads size)
unfolding log_queue_fifo_new
new-IsValid threads size = record {
  measured = record { wait_len = refl; output_len = refl; backlog_len = refl };
  stored = omega arith;
  inputs = Counted-replicate threads _ refl;
}

pub set_use_backlog-IsValid :
    (q : LogQueueFifo) (b : Bool) → IsValid q → IsValid (log_queue_set_use_backlog q b)
unfolding log_queue_set_use_backlog
set_use_backlog-IsValid q b v = record {
  measured = record {
    wait_len = v.measured.wait_len;
    output_len = v.measured.output_len;
    backlog_len = v.measured.backlog_len;
  };
  stored = v.stored;
  inputs = v.inputs;
}

pub push_wait-IsValid : (q : LogQueueFifo) (x : Node) → IsValid q → IsValid (push_wait q x)
unfolding push_wait
push_wait-IsValid q x v = ground (arith, v.inputs, length-append q.qoverflow_wait (x ∷ []))

pub push_head-IsValid :
    (q : LogQueueFifo) (x : Node) → IsValid q → IsValid (log_queue_fifo_push_head q x)
unfolding log_queue_fifo_push_head
push_head-IsValid q x v = record {
  measured = omega (arith, v.measured);
  stored = omega (arith, v.stored);
  inputs = v.inputs;
}

refill-IsValid : (q : LogQueueFifo) → IsValid q → IsValid (refill q)
refill-IsValid q v = ground (arith, v.inputs, length-append q.qoverflow_output q.qoverflow_wait)

take_first-IsValid :
    (q : LogQueueFifo) (xs : List Node)
    → q.qoverflow_output ≡ xs
    → IsValid q
    → IsValid (take_first q xs).1
unfolding take_first
take_first-IsValid q [] e v = v
take_first-IsValid q (x ∷ xs) e v =
    let len : q.qoverflow_output_len ≡ suc (length xs) = v.measured.output_len ∙ ap length e in
    ground (arith, len, v.inputs, length-append q.qbacklog (x ∷ []))

pub pop_head-IsValid : (q : LogQueueFifo) → IsValid q → IsValid (log_queue_fifo_pop_head q).1
unfolding log_queue_fifo_pop_head
pop_head-IsValid q v = elim (Bool-cases (ltb 0 (refill q).qoverflow_output_len)) [
  | inl e ↦
      rw e (take_first-IsValid (refill q) (refill q).qoverflow_output refl (refill-IsValid q v))
  | inr e ↦ rw e (refill-IsValid q v)
]

ack_oldest-len :
    (n : ℕ) (items : List Node) (len : ℕ) (acks : List (Node × AckType))
    → len ≡ length items
    → (ack_oldest n items len acks).len ≡ length (ack_oldest n items len acks).items
unfolding ack_oldest
ack_oldest-len zero items len acks e = e
ack_oldest-len (suc n) [] len acks e = e
ack_oldest-len (suc n) (x ∷ items) len acks e = elim (Bool-cases (ltb 0 len)) [
  | inl more ↦
      rw more (ack_oldest-len n items (len - 1) (acks ++ (x, processed) ∷ []) (omega arith))
  | inr stop ↦ rw stop e
]

pub ack_backlog-IsValid :
    (q : LogQueueFifo) (n : ℕ) → IsValid q → IsValid (log_queue_fifo_ack_backlog q n)
unfolding log_queue_fifo_ack_backlog
ack_backlog-IsValid q n v = record {
  measured = record {
    wait_len = v.measured.wait_len;
    output_len = v.measured.output_len;
    backlog_len = ack_oldest-len n q.qbacklog q.qbacklog_len q.acks v.measured.backlog_len;
  };
  stored = v.stored;
  inputs = v.inputs;
}

pub rewind_all-IsValid :
    (q : LogQueueFifo) → IsValid q → IsValid (log_queue_fifo_rewind_backlog_all q)
unfolding log_queue_fifo_rewind_backlog_all
rewind_all-IsValid q v = record {
  measured = omega (arith, v.measured, length-append q.qoverflow_output q.qbacklog);
  stored = omega (arith, v.stored);
  inputs = v.inputs;
}

-- what the loop of a rewind keeps: as `IsValid`, with `newest` for the backlog
record Rewinding (newest : List Node) (q : LogQueueFifo) : Type 0 where
  wait_len : q.qoverflow_wait_len ≡ length q.qoverflow_wait
  output_len : q.qoverflow_output_len ≡ length q.qoverflow_output
  backlog_len : q.qbacklog_len ≡ length newest
  stored : q.stored_messages ≡ (q.qoverflow_wait_len + q.qoverflow_output_len) % 2 ^ 32
  inputs : Counted q.qoverflow_input

rewind_newest-IsValid :
    (n : ℕ) (newest : List Node) (q : LogQueueFifo)
    → n ≤ length newest
    → Rewinding newest q
    → IsValid (rewind_newest n newest q)
unfolding rewind_newest
rewind_newest-IsValid zero newest q h r = record {
  measured = record {
    wait_len = r.wait_len;
    output_len = r.output_len;
    backlog_len = r.backlog_len ∙ sym (length-reverse newest);
  };
  stored = r.stored;
  inputs = r.inputs;
}
rewind_newest-IsValid (suc n) [] q h r = absurd (omega arith)
rewind_newest-IsValid (suc n) (x ∷ newest) q h r =
    rewind_newest-IsValid n newest (rewound q x) (omega arith) (record {
      wait_len = r.wait_len;
      output_len = omega (arith, r.output_len);
      backlog_len = omega (arith, r.backlog_len);
      stored = omega (arith, r.stored);
      inputs = r.inputs;
    })

pub rewind-IsValid :
    (q : LogQueueFifo) (n : ℕ) → IsValid q → IsValid (log_queue_fifo_rewind_backlog q n)
unfolding log_queue_fifo_rewind_backlog
rewind-IsValid q n v =
    rewind_newest-IsValid _ (reverse q.qbacklog) q
      (ground (arith, length-reverse q.qbacklog, v.measured.backlog_len))
      (record {
        wait_len = v.measured.wait_len;
        output_len = v.measured.output_len;
        backlog_len = v.measured.backlog_len ∙ sym (length-reverse q.qbacklog);
        stored = v.stored;
        inputs = v.inputs;
      })

move_items-IsValid :
    (q : LogQueueFifo) (t : ℕ) (i : Input)
    → IsValid q
    → i.len ≡ length i.items
    → IsValid (move_items q t i)
unfolding move_items
move_items-IsValid q t i v h =
    let n = overflow q i in
    let le : n ≤ length i.items = overflow-le q t i h in
    let kept = drop_oldest n i.items i.len q.dropped_messages q.acks in
    let kept_len : kept.len ≡ length kept.items =
      drop_oldest-len n i.items i.len q.dropped_messages q.acks le
      ∙ omega (
        arith,
        h,
        length-drop n i.items,
        ap length (drop_oldest-items n i.items i.len q.dropped_messages q.acks),
      ) in
    record {
      measured = record {
        wait_len =
            omega (arith, v.measured.wait_len, kept_len, length-append q.qoverflow_wait kept.items);
        output_len = v.measured.output_len;
        backlog_len = v.measured.backlog_len;
      };
      stored = omega (arith, v.stored);
      inputs = Counted-set q.qoverflow_input t (drained i) v.inputs refl;
    }

move_unlocked-IsValid :
    (q : LogQueueFifo) (t : ℕ) → IsValid q → IsValid (log_queue_fifo_move_input_unlocked q t)
unfolding log_queue_fifo_move_input_unlocked
move_unlocked-IsValid q t v = elim (Option-cases (get_elem? q.qoverflow_input t)) [
  | inl e ↦ rw (e, log_queue_fifo_move_input_unlocked) v
  | inr (i, e) ↦
      subst IsValid (sym (move_eq q t i e))
        (move_items-IsValid q t i v (Counted-get_elem? q.qoverflow_input t v.inputs e))
]

unregister-IsValid : (q : LogQueueFifo) (t : ℕ) → IsValid q → IsValid (unregister q t)
unregister-IsValid q t v = elim (Option-cases (get_elem? q.qoverflow_input t)) [
  | inl e ↦ rw (e, unregister) v
  | inr (i, e) ↦
      rw (e, unregister)
        (record {
          measured = record {
            wait_len = v.measured.wait_len;
            output_len = v.measured.output_len;
            backlog_len = v.measured.backlog_len;
          };
          stored = v.stored;
          inputs =
              Counted-set q.qoverflow_input t (record i { finish_cb_registered = false }) v.inputs
                (Counted-get_elem? q.qoverflow_input t v.inputs e);
        })
]

pub move_input-IsValid :
    (q : LogQueueFifo) (t : ℕ) → IsValid q → IsValid (log_queue_fifo_move_input q t)
unfolding log_queue_fifo_move_input
move_input-IsValid q t v =
    let u = move_unlocked-IsValid q t v in
    unregister-IsValid (push_notify (log_queue_fifo_move_input_unlocked q t)) t (record {
      measured = record {
        wait_len = u.measured.wait_len;
        output_len = u.measured.output_len;
        backlog_len = u.measured.backlog_len;
      };
      stored = u.stored;
      inputs = u.inputs;
    })
