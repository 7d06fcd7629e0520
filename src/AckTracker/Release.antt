-- ===== src/AckTracker/Release.antt =====
-- What `_drop_range` leaves of a valid tracker.
use syslog_ng_6_0_core.Common.{
  ℕ, zero, suc, ◌+◌, ◌≤◌, ◌<◌, ◌≡◌, ◌⊎◌, inl, inr, refl, sym, ap, ◌∙◌, false, some, none, ◌++◌,
  arith, drop, take, drop-map, take-map, done, Bool-cases, subst,
}
use syslog_ng_6_0_core.RingBuffer.{RingBuffer}
use syslog_ng_6_0_core.RingBuffer.Slots.{contents, length-contents, drop-window}
use syslog_ng_6_0_core.RingBuffer.Bounds
use syslog_ng_6_0_core.RingBuffer.Bounds.{dropped, dropped-IsValid}
use syslog_ng_6_0_core.RingBuffer.Queue.{element_at_indexes, drop_some}
use syslog_ng_6_0_core.AckTracker.{LateAckTracker, drop_records, drop_record, drop_range}
use syslog_ng_6_0_core.RingBuffer.Distinct.{
  NotIn, Distinct-Apart, Distinct-take, contents-Distinct, NotIn-take-drop,
}
use syslog_ng_6_0_core.AckTracker.Memory.{
  split_at, drop_all, drop_all-keeps, drop_all-map, drop_all-destroyed, drop_all-acked, to_destroy,
  acked_prefix, acked_prefix-drop,
}
use syslog_ng_6_0_core.AckTracker.Invariant.{entries, IsValid}

pub drop_records-all :
    (n i : ℕ) (self : LateAckTracker)
    → Bounds.IsValid self.storage
    → i + n ≤ self.storage.count
    → drop_records self n i ≡ done (drop_all self (take n (drop i (contents self.storage))))
unfolding drop_records drop_record
drop_records-all zero i self v h = refl
drop_records-all (suc n) i self v h =
    let (s, at, rest) =
      split_at (contents self.storage) i (omega (arith, length-contents self.storage)) in
    rw (element_at_indexes v i, at, rest)
      (drop_records-all n (i + 1) (drop_record self s) v (omega arith)
        ∙ ap (λ k. done (drop_all (drop_record self s) (take n (drop k (contents self.storage)))))
            {y = suc i} (omega arith))

-- the tracker after `_drop_range`
abbrev pub without : LateAckTracker → ℕ → LateAckTracker
without self n =
    let self' = drop_all self (take n (contents self.storage)) in
    record self' { storage = dropped self.storage n }

pub drop_range_lem :
    (n : ℕ) (self : LateAckTracker)
    → Bounds.IsValid self.storage
    → n ≤ self.storage.count
    → drop_range self n ≡ done (without self n)
unfolding drop_range
drop_range_lem n self v h =
    let kept = (drop_all-keeps self (take n (contents self.storage))).1 in
    rw (drop_records-all n 0 self v (omega arith), kept, drop_some v n h)

contents-dropped :
    (r : RingBuffer) (n : ℕ)
    → Bounds.IsValid r
    → n ≤ r.count
    → contents (dropped r n) ≡ drop n (contents r)
contents-dropped r n v h = sym (drop-window r.capacity r.head r.count n v.head_in h)

module _ (self : LateAckTracker) (n : ℕ) (v : Bounds.IsValid self.storage)
    (h : n ≤ self.storage.count) where
  -- The records behind the range stay as they were.
  pub entries-without : entries (without self n) ≡ drop n (entries self)
  entries-without = rw (contents-dropped self.storage n v h) (
      drop_all-map self (take n (contents self.storage)) (drop n (contents self.storage))
        (Distinct-Apart n (contents self.storage) (contents-Distinct v))
      ∙ sym (drop-map self.records n (contents self.storage)))

  pub destroyed-without :
      (without self n).destroyed ≡ self.destroyed ++ to_destroy (take n (entries self))
  destroyed-without =
      drop_all-destroyed self (take n (contents self.storage))
        (Distinct-take n (contents self.storage) (contents-Distinct v))
      ∙ ap (λ rs. self.destroyed ++ to_destroy rs)
          (sym (take-map self.records n (contents self.storage)))

  -- Dropping the acknowledged prefix of a tracker makes it valid.
  pub without-IsValid :
      ((s : ℕ) → NotIn s (contents self.storage) → (self.records s).acked ≡ false)
      → n ≡ acked_prefix (entries self)
      → (self.pending_ack_record ≡ none)
        ⊎ ((self.pending_ack_record ≡ some (self.storage.tail))
            × (self.storage.count < self.storage.capacity))
      → IsValid (without self n)
  without-IsValid free e p = record {
    ring = dropped-IsValid n v h;
    free_unacked = still_unacked;
    oldest_waits =
        ap acked_prefix entries-without
        ∙ ap (λ k. acked_prefix (drop k (entries self))) e
        ∙ acked_prefix-drop (entries self);
    pending = ground (arith, (drop_all-keeps self (take n (contents self.storage))).3);
  }
    where
      still_unacked :
          (s : ℕ)
          → NotIn s (contents (dropped self.storage n))
          → ((drop_all self (take n (contents self.storage))).records s).acked ≡ false
      still_unacked s out =
          elim (Bool-cases ((drop_all self (take n (contents self.storage))).records s).acked) [
            | inl t ↦
                let (before, not_dropped) =
                  drop_all-acked self (take n (contents self.storage)) s t in
                let behind : NotIn s (drop n (contents self.storage)) =
                  subst (NotIn s) (contents-dropped self.storage n v h) out in
                cc (free s (NotIn-take-drop s n (contents self.storage) not_dropped behind))
            | inr u ↦ u
          ]
