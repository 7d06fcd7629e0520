-- ===== src/AckTracker/Track.antt =====
-- How a message gets into the late tracker: `late_ack_tracker_request_bookmark` reserves the slot
-- that `late_ack_tracker_track_msg` then takes.
use syslog_ng_6_0_core.Common.{
  ℕ, ◌<◌, ◌≡◌, ◌⊎◌, inl, inr, refl, sym, ap, ◌∙◌, true, false, Option, some, none, [], ◌∷◌, ◌++◌,
  map, arith, ◌==◌, done, abort, done_injective, Option-cases, subst, dec_lt, map-append,
}
use syslog_ng_6_0_core.RingBuffer.{RingBuffer}
use syslog_ng_6_0_core.RingBuffer.Slots.{contents}
use syslog_ng_6_0_core.RingBuffer.Bounds
use syslog_ng_6_0_core.RingBuffer.Bounds.{pushed, pushed-IsValid}
use syslog_ng_6_0_core.RingBuffer.Distinct.{NotIn, get_elem?-NotIn, NotIn-append_left}
use syslog_ng_6_0_core.RingBuffer.Queue.{
  ring_buffer_tail_lem, push_room, tail_unused, contents-pushed,
}
use syslog_ng_6_0_core.AckTracker.{
  reserve, LateAckTracker, late_ack_tracker_request_bookmark, late_ack_tracker_track_msg,
}
use syslog_ng_6_0_core.AckTracker.Memory.{acked_prefix, map-update-NotIn, acked_prefix-concat}
use syslog_ng_6_0_core.AckTracker.Invariant.{entries, IsValid}

pub tail-NotIn :
    (r : RingBuffer) → Bounds.IsValid r → r.count < r.capacity → NotIn r.tail (contents r)
tail-NotIn r v h = get_elem?-NotIn r.tail (contents r) (λ i. tail_unused v i h)

module _ (self : LateAckTracker) (v : IsValid self) where
  -- On a valid tracker a request never aborts and leaves the messages in flight alone; it returns
  -- NULL exactly where all records are in use, and else a slot that no message has, which is
  -- pending then.
  pub request_bookmark_lem :
      (o : Option ℕ) × (t : LateAckTracker) × (late_ack_tracker_request_bookmark self ≡ done (o, t))
      × IsValid t
      × (entries t ≡ entries self)
      × (t.source ≡ self.source)
      × (t.storage ≡ self.storage)
      × (t.pending_ack_record ≡ o)
      × (((self.storage.count ≡ self.storage.capacity) × (o ≡ none))
          ⊎ ((self.storage.count < self.storage.capacity)
              × (s : ℕ) × (o ≡ some s)
              × NotIn s (contents self.storage)))
  unfolding late_ack_tracker_request_bookmark
  request_bookmark_lem = elim (dec_lt self.storage.count self.storage.capacity) [
    | yes h ↦ (
      some self.storage.tail,
      reserve self self.storage.tail,
      rw (ring_buffer_tail_lem v.ring, ne h),
      record {
        ring = v.ring;
        free_unacked = λ s out. ground (arith, v.free_unacked s out);
        oldest_waits = ap acked_prefix (same h) ∙ v.oldest_waits;
        pending = inr (refl, h);
      },
      same h,
      refl,
      refl,
      refl,
      inr (h, self.storage.tail, refl, tail-NotIn self.storage v.ring h),
    )
    | no h ↦ (
      none,
      record self { pending_ack_record = none },
      rw (ring_buffer_tail_lem v.ring, eq h),
      record {
        ring = v.ring;
        free_unacked = v.free_unacked;
        oldest_waits = v.oldest_waits;
        pending = inl refl;
      },
      refl,
      refl,
      refl,
      refl,
      inl (omega (arith, v.ring.count_in), refl),
    )
  ]
    where
      ne :
          self.storage.count < self.storage.capacity
          → self.storage.capacity == self.storage.count ≡ false
      ne h = ground arith

      eq :
          ¬ (self.storage.count < self.storage.capacity)
          → self.storage.capacity == self.storage.count ≡ true
      eq h = ground (arith, v.ring.count_in)

      same :
          self.storage.count < self.storage.capacity
          → entries (reserve self self.storage.tail) ≡ entries self
      same h =
          map-update-NotIn self.records self.storage.tail _ (contents self.storage)
            (tail-NotIn self.storage v.ring h)

  -- On a valid tracker with a pending record, tracking a message never aborts and makes that
  -- record the newest in flight, and nothing is pending.
  pub track_msg_lem :
      (s : ℕ)
      → self.pending_ack_record ≡ some s
      → (t : LateAckTracker) × (late_ack_tracker_track_msg self ≡ done (s, t))
        × IsValid t
        × (entries t ≡ entries self ++ self.records s ∷ [])
        × (contents t.storage ≡ contents self.storage ++ s ∷ [])
        × (t.source ≡ self.source)
        × (t.storage.capacity ≡ self.storage.capacity)
        × (t.pending_ack_record ≡ none)
  unfolding late_ack_tracker_track_msg
  track_msg_lem s p = (
    tracked,
    rw (p, push_room v.ring room, is_tail) (ground arith),
    record {
      ring = pushed-IsValid v.ring room;
      free_unacked = still_unacked;
      oldest_waits =
          ap acked_prefix grown
          ∙ acked_prefix-concat (entries self) (self.records s) v.oldest_waits unacked;
      pending = inl refl;
    },
    grown,
    slots_grown,
    refl,
    refl,
    refl,
  )
    where
      tracked : LateAckTracker
      tracked = record self { storage = pushed self.storage; pending_ack_record = none }

      reserved : (self.storage.tail ≡ s) × (self.storage.count < self.storage.capacity)
      reserved = ground (arith, v.pending)

      is_tail : self.storage.tail ≡ s
      is_tail = reserved.0

      room : self.storage.count < self.storage.capacity
      room = reserved.1

      slots_grown : contents (pushed self.storage) ≡ contents self.storage ++ s ∷ []
      slots_grown = contents-pushed v.ring room ∙ ap (λ k. contents self.storage ++ k ∷ []) is_tail

      grown :
          map self.records (contents (pushed self.storage)) ≡ entries self ++ self.records s ∷ []
      grown =
          ap (map self.records) slots_grown
          ∙ map-append self.records (contents self.storage) (s ∷ [])

      unacked : (self.records s).acked ≡ false
      unacked = v.free_unacked s (
          subst (λ k. NotIn k (contents self.storage)) is_tail
            (tail-NotIn self.storage v.ring room))

      still_unacked :
          (i : ℕ) → NotIn i (contents (pushed self.storage)) → (self.records i).acked ≡ false
      still_unacked i out = v.free_unacked i (
          NotIn-append_left i (contents self.storage) (self.storage.tail ∷ [])
            (subst (NotIn i) (contents-pushed v.ring room) out))

  track_none : self.pending_ack_record ≡ none → late_ack_tracker_track_msg self ≡ abort
  unfolding late_ack_tracker_track_msg
  track_none e = rw e

  -- It gives the message the pending record or aborts.
  pub pending_of_track :
      {s : ℕ} {t : LateAckTracker}
      → late_ack_tracker_track_msg self ≡ done (s, t)
      → self.pending_ack_record ≡ some s
  pending_of_track h = elim (Option-cases self.pending_ack_record) [
    | inl e ↦ cc (track_none e)
    | inr (s', e) ↦
        let (u, run, _, _, _, _, _, _) = track_msg_lem s' e in
        e ∙ ap some (ap (λ p. p.0) (done_injective (sym run ∙ h)))
  ]
