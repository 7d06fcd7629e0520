-- ===== src/RefCache/Direct.antt =====
-- A thread that changes the counters of a message without the cache.
use syslog_ng_6_0_core.Common.{
  ℕ, ◌-◌, ◌^◌, ◌<◌, ◌≡◌, refl, sym, ap, subst, ◌∙◌, Bool, true, false, List, [], ◌∷◌, arith, leb,
  ◌==◌, if◌then◌else◌, Outcome, done, ◌>>◌, g_assert, >>=-eq-done, done_injective,
}
use syslog_ng_6_0_core.AckTracker.{AckType, is_aborted, is_suspended}
use syslog_ng_6_0_core.RefCache.{
  MsgRefs, refs_of, acks_of, cumulated, log_msg_free, log_msg_update_ack_and_ref,
  log_msg_update_ack_and_ref_and_abort_and_suspended, log_msg_ref, log_msg_unref, log_msg_add_ack,
  log_msg_ack,
}
use syslog_ng_6_0_core.RefCache.Fields.{Sum, Sum-trans, updated-Sum}
use syslog_ng_6_0_core.RefCache.Cached.{
  Op, take_ref, drop_ref, expect_ack, give_ack, op_refs, op_acks, op_abort, op_suspend, net_refs,
  net_acks, any_abort, any_suspend, apply, apply_all, word, if_false,
}

pub Sum-nothing : (v : ℕ) → v < 2 ^ 32 → Sum v 0 0 false false v
Sum-nothing v h = record {
  in_word = h;
  refs_are = omega arith;
  acks_are = omega arith;
  abort_is = refl;
  suspend_is = refl;
}

pub word-freed : (b : Bool) (s : MsgRefs) → word (if b then log_msg_free s else s) ≡ word s
word-freed true s = refl
word-freed false s = refl

pub current-freed :
    (b : Bool) (s : MsgRefs) → (if b then log_msg_free s else s).logmsg_current ≡ s.logmsg_current
current-freed true s = refl
current-freed false s = refl

pub net_refs-lt : (os : List Op) → net_refs os < 2 ^ 32
net_refs-lt [] = omega arith
net_refs-lt (o ∷ os) = omega arith

pub net_acks-lt : (os : List Op) → net_acks os < 2 ^ 32
net_acks-lt [] = omega arith
net_acks-lt (o ∷ os) = omega arith

pub Sum-eq :
    {v v' r r' a a' w : ℕ} {b b' s s' : Bool}
    → v ≡ v'
    → r ≡ r'
    → a ≡ a'
    → b ≡ b'
    → s ≡ s'
    → Sum v r a b s w
    → Sum v' r' a' b' s' w
Sum-eq {v} {v'} {r} {r'} {a} {a'} {w} {b} {b'} {s} {s'} ev er ea eb es p =
    subst (λ x. Sum x r' a' b' s' w) ev
      (subst (λ x. Sum v x a' b' s' w) er
        (subst (λ x. Sum v r x b' s' w) ea
          (subst (λ x. Sum v r a x s' w) eb (subst (λ x. Sum v r a b x w) es p))))

pub guard {ℓ} : {A : Type ℓ} (b : Bool) (k : Outcome A) → b ≡ true → (g_assert b >> k) ≡ k
guard b k e = ap (λ b. g_assert b >> k) e

-- The word of `u` is that of `self` with so much added, and the thread does not cache.
pub record Adds (self u : MsgRefs) (refs acks : ℕ) (abort suspend : Bool) : Type 0 where
  pub sum : Sum (word self) refs acks abort suspend (word u)
  pub uncached : u.logmsg_current ≡ false

-- The callback leaves the counters of the message alone.
abbrev pub Keeps : (AckType → MsgRefs → Outcome MsgRefs) → Type 0
Keeps ack_func = (ack_type : AckType) (s : MsgRefs) → ack_func ack_type s ≡ done s

module _ (ack_func : AckType → MsgRefs → Outcome MsgRefs) (keeps : Keeps ack_func) where
  update-Adds :
      (self : MsgRefs) (r a : ℕ) (b s : Bool)
      → self.logmsg_current ≡ false
      → word self < 2 ^ 32
      → Adds self (log_msg_update_ack_and_ref_and_abort_and_suspended self r a b s) r a b s
  unfolding log_msg_update_ack_and_ref_and_abort_and_suspended
  update-Adds self r a b s c h = record { sum = updated-Sum (word self) r a b s h; uncached = c }

  apply-Adds :
      (self : MsgRefs) (o : Op) {u : MsgRefs}
      → self.logmsg_current ≡ false
      → word self < 2 ^ 32
      → apply ack_func self o ≡ done u
      → Adds self u (op_refs o) (op_acks o) (op_abort o) (op_suspend o)
  unfolding apply log_msg_ref log_msg_unref log_msg_add_ack log_msg_ack log_msg_update_ack_and_ref
  apply-Adds self take_ref c h e =
      let (_, _, e') =
        >>=-eq-done (g_assert (leb 1 (refs_of self)))
          (λ _. done (log_msg_update_ack_and_ref self 1 0)) (sym (if_false _ _ c) ∙ e) in
      subst (λ u. Adds self u 1 0 false false) (done_injective e')
        (update-Adds self 1 0 false false c h)
  apply-Adds self drop_ref {u} c h e =
      let dropped = log_msg_update_ack_and_ref self (2 ^ 32 - 1) 0 in
      let (_, _, e') =
        >>=-eq-done (g_assert (leb 1 (refs_of self)))
          (λ _. done (if refs_of self == 1 then log_msg_free dropped else dropped))
          (sym (if_false _ _ c) ∙ e) in
      let p = update-Adds self (2 ^ 32 - 1) 0 false false c h in
      subst (λ u. Adds self u (2 ^ 32 - 1) 0 false false) (done_injective e')
        (record {
          sum =
              subst (Sum (word self) (2 ^ 32 - 1) 0 false false)
                (sym (word-freed (refs_of self == 1) dropped)) p.sum;
          uncached = current-freed (refs_of self == 1) dropped ∙ p.uncached;
        })
  apply-Adds self (expect_ack true) c h e =
      subst (λ u. Adds self u 0 1 false false) (sym (if_false _ _ c) ∙ done_injective e)
        (update-Adds self 0 1 false false c h)
  apply-Adds self (expect_ack false) c h e =
      subst (λ u. Adds self u 0 0 false false) (done_injective e)
        (record { sum = Sum-nothing (word self) h; uncached = c })
  apply-Adds self (give_ack true ack_type) c h e =
      let acked =
        log_msg_update_ack_and_ref_and_abort_and_suspended self 0 (2 ^ 32 - 1) (is_aborted ack_type)
          (is_suspended ack_type) in
      subst (λ u. Adds self u 0 (2 ^ 32 - 1) (is_aborted ack_type) (is_suspended ack_type))
        (done_injective (sym (either acked (acks_of self == 1)) ∙ sym (if_false _ _ c) ∙ e))
        (update-Adds self 0 (2 ^ 32 - 1) (is_aborted ack_type) (is_suspended ack_type) c h)
    where
      either :
          (acked : MsgRefs) (last : Bool)
          → (if last
              then ack_func
                  (cumulated self.ack_and_ref_and_abort_and_suspended
                    (is_aborted ack_type)
                    (is_suspended ack_type))
                  acked
              else done acked)
            ≡ done acked
      either acked true = keeps _ acked
      either acked false = refl
  apply-Adds self (give_ack false ack_type) c h e =
      subst (λ u. Adds self u 0 0 false false) (done_injective e)
        (record { sum = Sum-nothing (word self) h; uncached = c })

  pub all-Adds :
      (self : MsgRefs) (os : List Op) {u : MsgRefs}
      → self.logmsg_current ≡ false
      → word self < 2 ^ 32
      → apply_all ack_func self os ≡ done u
      → Adds self u (net_refs os) (net_acks os) (any_abort os) (any_suspend os)
  unfolding apply_all
  all-Adds self [] c h e =
      subst (λ u. Adds self u 0 0 false false) (done_injective e)
        (record { sum = Sum-nothing (word self) h; uncached = c })
  all-Adds self (o ∷ os) c h e =
      let (s, run, rest) = >>=-eq-done (apply ack_func self o) (λ x. apply_all ack_func x os) e in
      let p = apply-Adds self o c h run in
      let q = all-Adds s os p.uncached p.sum.in_word rest in
      record { sum = Sum-trans p.sum q.sum; uncached = q.uncached }
