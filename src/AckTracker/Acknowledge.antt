-- ===== src/AckTracker/Acknowledge.antt =====
-- `late_ack_tracker_manage_msg_ack`: what one acknowledgement does to the messages in flight.
use syslog_ng_6_0_core.Common.{
  ℕ, zero, suc, ◌≤◌, ◌≡◌, refl, sym, ap, ◌∙◌, some, append-nil, arith, get_elem?, length-map, ltb,
  lt→ltb, if◌then◌else◌, Outcome, done, ◌>>=◌, subst,
}
use syslog_ng_6_0_core.RingBuffer.Slots.{contents, length-contents}
use syslog_ng_6_0_core.RingBuffer.Bounds
use syslog_ng_6_0_core.RingBuffer.Queue.{continual_range_lem}
use syslog_ng_6_0_core.LogSource.{Env}
use syslog_ng_6_0_core.AckTracker.{
  LateAckTracker, AckType, mark_acked, release_range, late_ack_tracker_manage_msg_ack,
  get_continuous_range_length, ack_range_is_continuous,
}
use syslog_ng_6_0_core.AckTracker.Memory.{acked_prefix, prefix-acked_prefix, acked_prefix-le}
use syslog_ng_6_0_core.AckTracker.Invariant.{entries, IsValid}
use syslog_ng_6_0_core.AckTracker.Released.{
  Savable, acknowledge, Marked, mark_acked-Marked, Acknowledged, released-Acknowledged,
  acknowledge-Savable, released, release_range_lem,
}

range_length_lem :
    (a : LateAckTracker)
    → Bounds.IsValid a.storage
    → get_continuous_range_length a ≡ done (acked_prefix (entries a))
unfolding get_continuous_range_length
range_length_lem a v =
    continual_range_lem v (ack_range_is_continuous a)
    ∙ ap done (prefix-acked_prefix a (contents a.storage))

in_flight :
    (self : LateAckTracker) (s n : ℕ)
    → acked_prefix (entries (mark_acked self s)) ≡ n
    → n ≤ self.storage.count
unfolding mark_acked
in_flight self s n q = omega (
  arith,
  acked_prefix-le (entries (mark_acked self s)),
  length-map (mark_acked self s).records (contents self.storage),
  length-contents self.storage,
)

others_unmarked :
    (env : Env) (self : LateAckTracker) (k s : ℕ) (ack_type : AckType)
    → Marked self (mark_acked self s) k
    → IsValid self
    → acked_prefix (entries (mark_acked self s)) ≡ 0
    → Acknowledged env self (entries (mark_acked self s)) 0 ack_type (mark_acked self s)
unfolding mark_acked
others_unmarked env self k s ack_type m v q = record {
  valid = record { ring = m.ring; free_unacked = m.free; oldest_waits = q; pending = v.pending };
  entries_are = refl;
  saved_are = sym (append-nil self.saved);
  destroyed_are = sym (append-nil self.destroyed);
  source_is = refl;
  capacity_is = refl;
  pending_is = refl;
}

module _ (env : Env) (self : LateAckTracker) (s k : ℕ) (ack_type : AckType) where
  abbrev with_range : ℕ → Outcome LateAckTracker
  with_range n =
      if ltb 0 n then release_range env (mark_acked self s) ack_type n else done (mark_acked self s)

  manage_eq :
      late_ack_tracker_manage_msg_ack env self s ack_type
      ≡ (get_continuous_range_length (mark_acked self s) >>= with_range)
  unfolding late_ack_tracker_manage_msg_ack
  manage_eq = refl

  manage_range :
      (n : ℕ)
      → get_continuous_range_length (mark_acked self s) ≡ done n
      → late_ack_tracker_manage_msg_ack env self s ack_type ≡ with_range n
  manage_range n e = manage_eq ∙ ap (λ o. o >>= with_range) e

  -- On a valid tracker whose bookmarks can all be saved, acknowledging a message in flight never
  -- aborts; it drops the longest acknowledged prefix of the list of records, saves the bookmark of
  -- the newest of these unless the type is aborted, destroys their bookmarks and hands their
  -- number to flow control.
  pub manage_msg_ack_lem :
      IsValid self
      → get_elem? (contents self.storage) k ≡ some s
      → Savable (entries self)
      → (t : LateAckTracker) × (late_ack_tracker_manage_msg_ack env self s ack_type ≡ done t)
        × (let rs = acknowledge (entries self) k in
            Acknowledged env self rs (acked_prefix rs) ack_type t)
  unfolding mark_acked
  manage_msg_ack_lem v e h =
      subst
        (λ rs.
          (t : LateAckTracker) × (late_ack_tracker_manage_msg_ack env self s ack_type ≡ done t)
          × Acknowledged env self rs (acked_prefix rs) ack_type t)
        marked.entries_are (go (acked_prefix (entries a)) refl)
    where
      a : LateAckTracker
      a = mark_acked self s

      marked : Marked self a k
      marked = mark_acked-Marked self s k v e

      range_is : get_continuous_range_length a ≡ done (acked_prefix (entries a))
      range_is = range_length_lem a marked.ring

      savable : Savable (entries a)
      savable = subst Savable (sym marked.entries_are) (acknowledge-Savable (entries self) k h)

      with_range-suc : (m : ℕ) → with_range (suc m) ≡ release_range env a ack_type (suc m)
      with_range-suc m = rw (lt→ltb 0 (suc m) (omega arith))

      go :
          (n : ℕ)
          → acked_prefix (entries a) ≡ n
          → (t : LateAckTracker) × (late_ack_tracker_manage_msg_ack env self s ack_type ≡ done t)
            × Acknowledged env self (entries a) n ack_type t
      go zero q = (
        a,
        manage_range 0 (range_is ∙ ap done q),
        others_unmarked env self k s ack_type marked v q,
      )
      go (suc m) q =
          let le : suc m ≤ self.storage.count = in_flight self s (suc m) q in
          (
            released env a ack_type (suc m),
            manage_range (suc m) (range_is ∙ ap done q)
                ∙ with_range-suc m
                ∙ release_range_lem env a ack_type m marked.ring le savable,
            released-Acknowledged env self k s ack_type m marked v q le,
          )
