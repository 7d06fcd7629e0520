-- ===== src/RefCache.antt =====
-- lib/logmsg.c: the reference and acknowledgement counters of a message, which share one 32 bit word
-- with two flags, and the thread that caches changes to them. The state is that of one message and
-- one thread; a gint is its 32 bit pattern, so -1 is 2^32 - 1.
pub mod Fields
pub mod Cached
pub mod Direct
pub mod Refine
mod Tests
use syslog_ng_6_0_core.Common.{
  ℕ, ◌+◌, ◌-◌, ◌*◌, ◌/◌, ◌%◌, ◌^◌, Bool, true, false, not, ◌&&◌, ◌||◌, List, [], ◌∷◌, ltb, leb,
  ◌==◌, if◌then◌else◌, Outcome, done, abort, ◌>>=◌, ◌>>◌, g_assert,
}
use syslog_ng_6_0_core.AckTracker.{AckType, processed, aborted, suspended, is_aborted, is_suspended}

-- The word of the message, how often `log_msg_free` ran, and the thread's variables;
-- `logmsg_current` says whether that pointer is to this message, which else is NULL.
pub record MsgRefs : Type 0 where
  pub ack_and_ref_and_abort_and_suspended : ℕ
  pub freed : ℕ
  pub logmsg_current : Bool
  pub logmsg_cached_ack_needed : Bool
  pub logmsg_cached_refs : ℕ
  pub logmsg_cached_acks : ℕ
  pub logmsg_cached_abort : Bool
  pub logmsg_cached_suspend : Bool

-- the macros LOGMSG_REFCACHE_VALUE_TO_*
abbrev pub value_to_ref : ℕ → ℕ
value_to_ref x = x % 2 ^ 15

abbrev pub value_to_ack : ℕ → ℕ
value_to_ack x = x / 2 ^ 15 % 2 ^ 15

abbrev pub value_to_abort : ℕ → ℕ
value_to_abort x = x / 2 ^ 30 % 2

abbrev pub value_to_suspend : ℕ → ℕ
value_to_suspend x = x / 2 ^ 31 % 2

-- LOGMSG_REFCACHE_BIAS
abbrev pub bias : ℕ
bias = 8192

-- `-x` of a gint
abbrev pub negate : ℕ → ℕ
negate x = (2 ^ 32 - x) % 2 ^ 32

-- `flag | add` of a flag that is 0 or 1
abbrev pub or_flag : ℕ → Bool → ℕ
or_flag flag add = if add then 1 else flag

-- the four assignments of a field: `(value & ~MASK) + TO_VALUE (x)`
abbrev pub set_ref : ℕ → ℕ → ℕ
set_ref value x = value - value_to_ref value + x % 2 ^ 15

abbrev pub set_ack : ℕ → ℕ → ℕ
set_ack value x = value - value_to_ack value * 2 ^ 15 + x % 2 ^ 15 * 2 ^ 15

abbrev pub set_abort : ℕ → ℕ → ℕ
set_abort value x = value - value_to_abort value * 2 ^ 30 + x % 2 * 2 ^ 30

abbrev pub set_suspend : ℕ → ℕ → ℕ
set_suspend value x = value - value_to_suspend value * 2 ^ 31 + x % 2 * 2 ^ 31

-- the body of the compare-and-exchange loop, on the word
unfoldable pub updated : ℕ → ℕ → ℕ → Bool → Bool → ℕ
updated old_value add_ref add_ack add_abort add_suspend =
    set_suspend
      (set_abort
        (set_ack (set_ref old_value ((value_to_ref old_value + add_ref) % 2 ^ 32))
          ((value_to_ack old_value + add_ack) % 2 ^ 32))
        (or_flag (value_to_abort old_value) add_abort))
      (or_flag (value_to_suspend old_value) add_suspend)

-- The loop ends in the round in which no other thread has changed the word: it is one step. The
-- function returns the old word, which is that of the state before.
unfoldable pub log_msg_update_ack_and_ref_and_abort_and_suspended :
    MsgRefs → ℕ → ℕ → Bool → Bool → MsgRefs
log_msg_update_ack_and_ref_and_abort_and_suspended self add_ref add_ack add_abort add_suspend =
    record self {
      ack_and_ref_and_abort_and_suspended =
          updated self.ack_and_ref_and_abort_and_suspended add_ref add_ack add_abort add_suspend;
    }

unfoldable pub log_msg_update_ack_and_ref : MsgRefs → ℕ → ℕ → MsgRefs
unfolding log_msg_update_ack_and_ref_and_abort_and_suspended
log_msg_update_ack_and_ref self add_ref add_ack =
    log_msg_update_ack_and_ref_and_abort_and_suspended self add_ref add_ack false false

abbrev pub refs_of : MsgRefs → ℕ
refs_of self = value_to_ref self.ack_and_ref_and_abort_and_suspended

abbrev pub acks_of : MsgRefs → ℕ
acks_of self = value_to_ack self.ack_and_ref_and_abort_and_suspended

abbrev pub log_msg_free : MsgRefs → MsgRefs
log_msg_free self = record self { freed = self.freed + 1 }

unfoldable pub log_msg_ref : MsgRefs → Outcome MsgRefs
log_msg_ref self =
    if self.logmsg_current
    then done (record self { logmsg_cached_refs = (self.logmsg_cached_refs + 1) % 2 ^ 32 })
    else g_assert (leb 1 (refs_of self)) >> done (log_msg_update_ack_and_ref self 1 0)

unfoldable pub log_msg_unref : MsgRefs → Outcome MsgRefs
log_msg_unref self =
    if self.logmsg_current
    then done (record self { logmsg_cached_refs = (self.logmsg_cached_refs + 2 ^ 32 - 1) % 2 ^ 32 })
    else g_assert (leb 1 (refs_of self))
      >> (let dropped = log_msg_update_ack_and_ref self (2 ^ 32 - 1) 0 in
          done (if refs_of self == 1 then log_msg_free dropped else dropped))

-- `ack_needed` is that of the path options.
unfoldable pub log_msg_add_ack : MsgRefs → Bool → MsgRefs
log_msg_add_ack self ack_needed =
    if not ack_needed
    then self
    else if self.logmsg_current
    then record self { logmsg_cached_acks = (self.logmsg_cached_acks + 1) % 2 ^ 32 }
    else log_msg_update_ack_and_ref self 0 1

-- `_ack_and_ref_and_abort_and_suspend_to_acktype`
unfoldable pub to_acktype : ℕ → AckType
to_acktype value =
    if value_to_suspend value == 1
    then suspended
    else if value_to_abort value == 1
    then aborted
    else processed

-- The type with which the last acknowledgement is passed on, from the flags that the message has
-- collected before and those of this thread.
abbrev pub cumulated : ℕ → Bool → Bool → AckType
cumulated old_value cached_abort cached_suspend =
    if cached_suspend then suspended else if cached_abort then aborted else to_acktype old_value

-- `ack_func` is the function pointer of the message.
module _ (ack_func : AckType → MsgRefs → Outcome MsgRefs) where
  unfoldable pub log_msg_ack : MsgRefs → Bool → AckType → Outcome MsgRefs
  log_msg_ack self ack_needed ack_type =
      if not ack_needed
      then done self
      else if self.logmsg_current
      then done (record self {
        logmsg_cached_acks = (self.logmsg_cached_acks + 2 ^ 32 - 1) % 2 ^ 32;
        logmsg_cached_abort = self.logmsg_cached_abort || is_aborted ack_type;
        logmsg_cached_suspend = self.logmsg_cached_suspend || is_suspended ack_type;
      })
      else (let acked =
            log_msg_update_ack_and_ref_and_abort_and_suspended self 0 (2 ^ 32 - 1)
              (is_aborted ack_type) (is_suspended ack_type) in
          if acks_of self == 1
          then ack_func
              (cumulated self.ack_and_ref_and_abort_and_suspended (is_aborted ack_type)
                (is_suspended ack_type))
              acked
          else done acked)

  unfoldable pub log_msg_drop : MsgRefs → Bool → AckType → Outcome MsgRefs
  log_msg_drop self ack_needed ack_type =
      log_msg_ack self ack_needed ack_type >>= λ s. log_msg_unref s

  -- `acks >= -BIAS && acks < BIAS - 1` of a gint
  abbrev pub in_bounds : ℕ → Bool
  in_bounds x = ltb x (bias - 1) || leb (2 ^ 32 - bias) x

  unfoldable pub log_msg_refcache_start_producer : MsgRefs → Outcome MsgRefs
  log_msg_refcache_start_producer self =
      g_assert (not self.logmsg_current)
      >> (let biased =
            set_ref self.ack_and_ref_and_abort_and_suspended
              (value_to_ref self.ack_and_ref_and_abort_and_suspended + bias) in
          done (record {
            ack_and_ref_and_abort_and_suspended = set_ack biased (value_to_ack biased + bias);
            freed = self.freed;
            logmsg_current = true;
            logmsg_cached_ack_needed = true;
            logmsg_cached_refs = negate bias;
            logmsg_cached_acks = negate bias;
            logmsg_cached_abort = false;
            logmsg_cached_suspend = false;
          }))

  unfoldable pub log_msg_refcache_start_consumer : MsgRefs → Bool → Outcome MsgRefs
  log_msg_refcache_start_consumer self ack_needed =
      g_assert (not self.logmsg_current)
      >> done (record self {
        logmsg_current = true;
        logmsg_cached_ack_needed = ack_needed;
        logmsg_cached_refs = 0;
        logmsg_cached_acks = 0;
        logmsg_cached_abort = false;
        logmsg_cached_suspend = false;
      })

  -- step 2 of `log_msg_refcache_stop`, on the state `self` after step 1
  abbrev pub fold_acks : MsgRefs → MsgRefs
  fold_acks self =
      log_msg_update_ack_and_ref_and_abort_and_suspended
        (record self {
          logmsg_cached_acks = 0;
          logmsg_cached_abort = false;
          logmsg_cached_suspend = false;
        })
        0 self.logmsg_cached_acks self.logmsg_cached_abort self.logmsg_cached_suspend

  -- step 3: the ack handler, where these were the last acknowledgements
  unfoldable pub call_handler : MsgRefs → Outcome MsgRefs
  call_handler self =
      if acks_of self == negate self.logmsg_cached_acks && self.logmsg_cached_ack_needed
      then ack_func
          (cumulated self.ack_and_ref_and_abort_and_suspended self.logmsg_cached_abort
            self.logmsg_cached_suspend)
          (fold_acks self)
        >>= (λ called. g_assert (called.logmsg_cached_acks == 0) >> done called)
      else done (fold_acks self)

  -- step 5
  unfoldable pub fold_refs : MsgRefs → MsgRefs
  fold_refs self =
      let folded = log_msg_update_ack_and_ref self self.logmsg_cached_refs 0 in
      record (if refs_of self == negate self.logmsg_cached_refs
        then log_msg_free folded
        else folded) { logmsg_cached_refs = 0; logmsg_current = false }

  unfoldable pub log_msg_refcache_stop : MsgRefs → Outcome MsgRefs
  unfolding call_handler fold_refs
  log_msg_refcache_stop self = do
    g_assert self.logmsg_current
    g_assert (in_bounds self.logmsg_cached_acks)
    g_assert (in_bounds self.logmsg_cached_refs)
    taken ← log_msg_ref self
    handled ← call_handler taken
    released ← log_msg_unref handled
    done (fold_refs released)
