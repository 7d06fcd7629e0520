-- ===== src/RefCache/Refine.antt =====
-- The cache of lib/logmsg.c against the same operations without it.
use syslog_ng_6_0_core.Common.{
  ◌+◌, ◌-◌, ◌%◌, ◌^◌, ◌≤◌, ◌<◌, ◌≡◌, ◌⊎◌, inl, inr, refl, sym, ap, subst, ◌∙◌, Bool, true, false,
  not, ◌&&◌, ◌||◌, List, arith, leb, ◌==◌, if◌then◌else◌, Bool-cases, Outcome, done, abort, ◌>>=◌,
  ◌>>◌, g_assert,
}
use syslog_ng_6_0_core.AckTracker.{AckType}
use syslog_ng_6_0_core.RefCache.{
  MsgRefs, updated, negate, refs_of, acks_of, fold_acks, in_bounds, call_handler, fold_refs,
  log_msg_free, log_msg_update_ack_and_ref, log_msg_update_ack_and_ref_and_abort_and_suspended,
  log_msg_ref, log_msg_unref, log_msg_refcache_start_consumer, log_msg_refcache_stop,
  log_msg_refcache_start_producer, bias, set_ref, set_ack, value_to_ref, value_to_ack,
}
use syslog_ng_6_0_core.RefCache.Fields.{Sum, Sum-trans, Sum-unique, updated-Sum, biased-Sum}
use syslog_ng_6_0_core.RefCache.Cached.{
  Op, net_refs, net_acks, any_abort, any_suspend, apply_all, word, all_cached, if_true, if_false,
  or_false,
}
use syslog_ng_6_0_core.RefCache.Direct.{
  Keeps, all-Adds, Sum-eq, word-freed, guard, net_refs-lt, net_acks-lt,
}

module _ (ack_func : AckType → MsgRefs → Outcome MsgRefs) (keeps : Keeps ack_func) where
  handled : (self : MsgRefs) → call_handler ack_func self ≡ done (fold_acks ack_func self)
  unfolding call_handler log_msg_update_ack_and_ref_and_abort_and_suspended
  handled self =
      elim (Bool-cases
        (acks_of self == negate self.logmsg_cached_acks && self.logmsg_cached_ack_needed)) [
          | inl e ↦
              if_true _ _ e
              ∙ ap (λ m. m >>= λ called. g_assert (called.logmsg_cached_acks == 0) >> done called)
                  (keeps _ (fold_acks ack_func self))
          | inr e ↦ if_false _ _ e
        ]

  -- what `log_msg_refcache_stop` makes of the word of a message
  stop_adds :
      (self : MsgRefs)
      → self.logmsg_current ≡ true
      → word self < 2 ^ 32
      → self.logmsg_cached_refs < 2 ^ 32
      → in_bounds ack_func self.logmsg_cached_acks ≡ true
      → in_bounds ack_func self.logmsg_cached_refs ≡ true
      → (t : MsgRefs) × (log_msg_refcache_stop ack_func self ≡ done t)
        × Sum
            (word self)
            ((self.logmsg_cached_refs + 0) % 2 ^ 32)
            ((self.logmsg_cached_acks + 0) % 2 ^ 32)
            (self.logmsg_cached_abort || false)
            (self.logmsg_cached_suspend || false)
            (word t)
        × (t.logmsg_current ≡ false)
  unfolding log_msg_refcache_stop log_msg_ref log_msg_unref fold_refs log_msg_update_ack_and_ref
      log_msg_update_ack_and_ref_and_abort_and_suspended
  stop_adds self c h hr ba br = (
    fold_refs ack_func released,
    guard self.logmsg_current _ c
        ∙ guard (in_bounds ack_func self.logmsg_cached_acks) _ ba
        ∙ guard (in_bounds ack_func self.logmsg_cached_refs) _ br
        ∙ ap
            (λ m. m >>= λ x.
              call_handler ack_func x >>= λ y. log_msg_unref y >>= λ z. done (fold_refs ack_func z))
            (if_true (done taken) _ c)
        ∙ ap (λ m. m >>= λ y. log_msg_unref y >>= λ z. done (fold_refs ack_func z)) (handled taken)
        ∙ ap (λ m. m >>= λ z. done (fold_refs ack_func z)) (if_true (done released) _ c),
    subst
        (λ r.
          Sum (word self) r ((self.logmsg_cached_acks + 0) % 2 ^ 32)
            (self.logmsg_cached_abort || false) (self.logmsg_cached_suspend || false)
            (word (fold_refs ack_func released)))
        refs_back
        (subst (Sum (word self) _ _ _ _)
          (sym (
            word-freed (refs_of released == negate released.logmsg_cached_refs)
              (log_msg_update_ack_and_ref released released.logmsg_cached_refs 0)))
          (Sum-trans acks_folded (
            updated-Sum (word folded) released.logmsg_cached_refs 0 false false
              acks_folded.in_word))),
    refl,
  )
    where
      taken : MsgRefs
      taken = record self { logmsg_cached_refs = (self.logmsg_cached_refs + 1) % 2 ^ 32 }

      folded : MsgRefs
      folded = fold_acks ack_func taken

      released : MsgRefs
      released = record folded {
        logmsg_cached_refs = (folded.logmsg_cached_refs + 2 ^ 32 - 1) % 2 ^ 32;
      }

      acks_folded :
          Sum
            (word self)
            0
            self.logmsg_cached_acks
            self.logmsg_cached_abort
            self.logmsg_cached_suspend
            (word folded)
      acks_folded =
          updated-Sum (word self) 0 self.logmsg_cached_acks self.logmsg_cached_abort
            self.logmsg_cached_suspend h

      refs_back :
          (0 + released.logmsg_cached_refs) % 2 ^ 32 ≡ (self.logmsg_cached_refs + 0) % 2 ^ 32
      refs_back = omega (arith, hr)

  -- Where the callback leaves the counters of the message alone, any sequence of refs, unrefs and
  -- acks that a thread can do on the word of a message without caching comes to the same word,
  -- without an abort, where the thread caches it as a consumer, if the changes in sum are within
  -- the bounds that log_msg_refcache_stop asserts, and the thread does not cache then.
  pub cache_refines :
      (self : MsgRefs) (ack_needed : Bool) (os : List Op) {u : MsgRefs}
      → self.logmsg_current ≡ false
      → word self < 2 ^ 32
      → in_bounds ack_func (net_refs os) ≡ true
      → in_bounds ack_func (net_acks os) ≡ true
      → apply_all ack_func self os ≡ done u
      → (t : MsgRefs) × ((log_msg_refcache_start_consumer ack_func self ack_needed >>= λ x.
            apply_all ack_func x os >>= λ y. log_msg_refcache_stop ack_func y)
          ≡ done t)
        × (word t ≡ word u)
        × (t.logmsg_current ≡ false)
  unfolding log_msg_refcache_start_consumer
  cache_refines self ack_needed os c h br ba e =
      let (y, run, p) = all_cached ack_func started os refl (omega arith) (omega arith) in
      let refs : y.logmsg_cached_refs ≡ net_refs os =
        p.refs_cached ∙ omega (arith, net_refs-lt os) in
      let acks : y.logmsg_cached_acks ≡ net_acks os =
        p.acks_cached ∙ omega (arith, net_acks-lt os) in
      let (t, run', sum, last) =
        stop_adds y p.current (omega (arith, p.word_same)) (omega (arith, refs, net_refs-lt os))
          (ap (in_bounds ack_func) acks ∙ ba) (ap (in_bounds ack_func) refs ∙ br) in
      let sum' : Sum (word self) (net_refs os) (net_acks os) (any_abort os) (any_suspend os)
          (word t) =
        Sum-eq p.word_same (omega (arith, refs, net_refs-lt os))
          (omega (arith, acks, net_acks-lt os))
          (sym (or_false y.logmsg_cached_abort) ∙ p.abort_cached)
          (sym (or_false y.logmsg_cached_suspend) ∙ p.suspend_cached) sum in
      (
        t,
        ap (λ m. m >>= λ x. apply_all ack_func x os >>= λ y. log_msg_refcache_stop ack_func y)
              (guard (not self.logmsg_current) (done started) (ap not c))
            ∙ ap (λ m. m >>= λ x. log_msg_refcache_stop ack_func x) run
            ∙ run',
        Sum-unique sum' (all-Adds ack_func keeps self os c h e).sum,
        last,
      )
    where
      started : MsgRefs
      started = record self {
        logmsg_current = true;
        logmsg_cached_ack_needed = ack_needed;
        logmsg_cached_refs = 0;
        logmsg_cached_acks = 0;
        logmsg_cached_abort = false;
        logmsg_cached_suspend = false;
      }

  -- Where the callback leaves the counters of the message alone, any sequence of refs, unrefs and
  -- acks that a thread can do on the word of a message without caching comes to the same word,
  -- without an abort, where the thread caches it as a producer, if the changes in sum less the
  -- bias are within the bounds that log_msg_refcache_stop asserts, and the thread does not cache
  -- then.
  pub producer_refines :
      (self : MsgRefs) (os : List Op) {u : MsgRefs}
      → self.logmsg_current ≡ false
      → word self < 2 ^ 32
      → in_bounds ack_func ((negate bias + net_refs os) % 2 ^ 32) ≡ true
      → in_bounds ack_func ((negate bias + net_acks os) % 2 ^ 32) ≡ true
      → apply_all ack_func self os ≡ done u
      → (t : MsgRefs) × ((log_msg_refcache_start_producer ack_func self >>= λ x.
            apply_all ack_func x os >>= λ y. log_msg_refcache_stop ack_func y)
          ≡ done t)
        × (word t ≡ word u)
        × (t.logmsg_current ≡ false)
  unfolding log_msg_refcache_start_producer
  producer_refines self os c h br ba e =
      let (y, run, p) = all_cached ack_func started os refl (omega arith) (omega arith) in
      let biased = biased-Sum (word self) h in
      let (t, run', sum, last) =
        stop_adds y p.current (omega (arith, p.word_same, biased.in_word))
          (omega (arith, p.refs_cached)) (ap (in_bounds ack_func) p.acks_cached ∙ ba)
          (ap (in_bounds ack_func) p.refs_cached ∙ br) in
      let added : Sum (word started) ((y.logmsg_cached_refs + 0) % 2 ^ 32)
          ((y.logmsg_cached_acks + 0) % 2 ^ 32) (any_abort os) (any_suspend os) (word t) =
        Sum-eq p.word_same refl refl (sym (or_false y.logmsg_cached_abort) ∙ p.abort_cached)
          (sym (or_false y.logmsg_cached_suspend) ∙ p.suspend_cached) sum in
      let sum' : Sum (word self) (net_refs os) (net_acks os) (any_abort os) (any_suspend os)
          (word t) =
        Sum-eq refl (omega (arith, p.refs_cached, net_refs-lt os))
          (omega (arith, p.acks_cached, net_acks-lt os)) refl refl (Sum-trans biased added) in
      (
        t,
        ap (λ m. m >>= λ x. apply_all ack_func x os >>= λ y. log_msg_refcache_stop ack_func y)
              (guard (not self.logmsg_current) (done started) (ap not c))
            ∙ ap (λ m. m >>= λ x. log_msg_refcache_stop ack_func x) run
            ∙ run',
        Sum-unique sum' (all-Adds ack_func keeps self os c h e).sum,
        last,
      )
    where
      started : MsgRefs
      started =
          let w = set_ref (word self) (value_to_ref (word self) + bias) in
          record {
            ack_and_ref_and_abort_and_suspended = set_ack w (value_to_ack w + bias);
            freed = self.freed;
            logmsg_current = true;
            logmsg_cached_ack_needed = true;
            logmsg_cached_refs = negate bias;
            logmsg_cached_acks = negate bias;
            logmsg_cached_abort = false;
            logmsg_cached_suspend = false;
          }

-- Without the cache, on a 32 bit word, an unref aborts where there is no reference, and else takes
-- one off, leaves the acks and frees the message exactly where none is left.
pub unref_last :
    (self : MsgRefs)
    → self.logmsg_current ≡ false
    → word self < 2 ^ 32
    → ((refs_of self ≡ 0) × (log_msg_unref self ≡ abort))
      ⊎ ((t : MsgRefs) × (log_msg_unref self ≡ done t)
          × (refs_of self ≡ refs_of t + 1)
          × (acks_of t ≡ acks_of self)
          × (t.freed ≡ (if refs_of t == 0 then self.freed + 1 else self.freed)))
unfolding log_msg_unref log_msg_update_ack_and_ref
    log_msg_update_ack_and_ref_and_abort_and_suspended
unref_last self c h =
    let sum = updated-Sum (word self) (2 ^ 32 - 1) 0 false false h in
    let dropped = log_msg_update_ack_and_ref self (2 ^ 32 - 1) 0 in
    elim (Bool-cases (leb 1 (refs_of self))) [
      | inr e ↦ inl (
        ground arith,
        if_false _ _ c
            ∙ ap
                (λ b.
                  g_assert b >> done (if refs_of self == 1 then log_msg_free dropped else dropped))
                e,
      )
      | inl e ↦
          let positive : 1 ≤ refs_of self = ground arith in
          let refs : refs_of self
              ≡ value_to_ref (updated (word self) (2 ^ 32 - 1) 0 false false) + 1 =
            omega (arith, sum.refs_are, positive) in
          let acks : value_to_ack (updated (word self) (2 ^ 32 - 1) 0 false false) ≡ acks_of self =
            omega (arith, sum.acks_are) in
          elim (Bool-cases (refs_of self == 1)) [
            | inl one ↦ inr (
              log_msg_free dropped,
              if_false _ _ c
                  ∙ guard _ _ e
                  ∙ ap (λ b. done (if b then log_msg_free dropped else dropped)) one,
              refs,
              acks,
              ground arith,
            )
            | inr more ↦ inr (
              dropped,
              if_false _ _ c
                  ∙ guard _ _ e
                  ∙ ap (λ b. done (if b then log_msg_free dropped else dropped)) more,
              refs,
              acks,
              ground arith,
            )
          ]
    ]
