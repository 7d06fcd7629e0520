-- ===== src/RefCache/Tests.antt =====
-- Runs of the counters of lib/logmsg.c: a message with two references and one expected
-- acknowledgement.
use syslog_ng_6_0_core.Common.{
  ◌+◌, ◌^◌, ◌≡◌, ◌⊎◌, refl, true, false, [], ◌∷◌, List, arith, Outcome, done, abort, ◌>>=◌,
  if◌then◌else◌, ◌==◌,
}
use syslog_ng_6_0_core.AckTracker.{AckType, aborted}
use syslog_ng_6_0_core.RefCache.{
  MsgRefs, updated, log_msg_ref, log_msg_unref, log_msg_ack, log_msg_add_ack,
  log_msg_update_ack_and_ref, log_msg_update_ack_and_ref_and_abort_and_suspended,
  log_msg_refcache_start_consumer, log_msg_refcache_start_producer, log_msg_refcache_stop, refs_of,
  acks_of,
}
use syslog_ng_6_0_core.RefCache.Cached.{
  Op, expect_ack, take_ref, drop_ref, give_ack, apply, apply_all, word,
}
use syslog_ng_6_0_core.RefCache.Refine.{cache_refines, producer_refines, unref_last}

abbrev message : MsgRefs
message = record {
  ack_and_ref_and_abort_and_suspended = 2 + 2 ^ 15;
  freed = 0;
  logmsg_current = false;
  logmsg_cached_ack_needed = false;
  logmsg_cached_refs = 0;
  logmsg_cached_acks = 0;
  logmsg_cached_abort = false;
  logmsg_cached_suspend = false;
}

abbrev ignore : AckType → MsgRefs → Outcome MsgRefs
ignore ack_type s = done s

abbrev after_ack : MsgRefs
after_ack = record message { ack_and_ref_and_abort_and_suspended = 2 + 2 ^ 30 }

direct_run :
    apply_all ignore message (take_ref ∷ give_ack true aborted ∷ drop_ref ∷ []) ≡ done after_ack
unfolding apply_all apply log_msg_ref log_msg_unref log_msg_ack log_msg_update_ack_and_ref
    log_msg_update_ack_and_ref_and_abort_and_suspended updated
direct_run = refl

cache_refines_example :
    (t : MsgRefs) × ((log_msg_refcache_start_consumer ignore message true >>= λ x.
    apply_all ignore x (take_ref ∷ give_ack true aborted ∷ drop_ref ∷ []) >>= λ y.
    log_msg_refcache_stop ignore y)
      ≡ done t)
    × (word t ≡ 2 + 2 ^ 30)
    × (t.logmsg_current ≡ false)
cache_refines_example =
    cache_refines ignore (λ ack_type s. refl) message true
      (take_ref ∷ give_ack true aborted ∷ drop_ref ∷ []) refl (omega arith) refl refl direct_run

abbrev producer_ops : List Op
producer_ops = take_ref ∷ expect_ack true ∷ give_ack true aborted ∷ drop_ref ∷ []

producer_run :
    apply_all ignore message producer_ops
    ≡ done (record message { ack_and_ref_and_abort_and_suspended = 2 + 2 ^ 15 + 2 ^ 30 })
unfolding apply_all apply log_msg_ref log_msg_unref log_msg_add_ack log_msg_ack
    log_msg_update_ack_and_ref log_msg_update_ack_and_ref_and_abort_and_suspended updated
producer_run = refl

producer_refines_example :
    (t : MsgRefs) × ((log_msg_refcache_start_producer ignore message >>= λ x.
    apply_all ignore x producer_ops >>= λ y. log_msg_refcache_stop ignore y)
      ≡ done t)
    × (word t ≡ 2 + 2 ^ 15 + 2 ^ 30)
    × (t.logmsg_current ≡ false)
producer_refines_example =
    producer_refines ignore (λ ack_type s. refl) message producer_ops refl (omega arith) refl refl
      producer_run

unref_last_example :
    ((refs_of message ≡ 0) × (log_msg_unref message ≡ abort))
    ⊎ ((t : MsgRefs) × (log_msg_unref message ≡ done t)
        × (refs_of message ≡ refs_of t + 1)
        × (acks_of t ≡ acks_of message)
        × (t.freed ≡ (if refs_of t == 0 then 1 else 0)))
unref_last_example = unref_last message refl (omega arith)
