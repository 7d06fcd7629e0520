-- ===== src/AckTracker/Invariant.antt =====
-- The invariant of the late tracker, and the list of its records in the order of arrival.
use syslog_ng_6_0_core.Common.{ℕ, ◌<◌, ◌≡◌, ◌⊎◌, false, some, none, List, map}
use syslog_ng_6_0_core.RingBuffer.Slots.{contents}
use syslog_ng_6_0_core.RingBuffer.Bounds
use syslog_ng_6_0_core.RingBuffer.Distinct.{NotIn}
use syslog_ng_6_0_core.AckTracker.{LateAckRecord, LateAckTracker}
use syslog_ng_6_0_core.AckTracker.Memory.{acked_prefix}

-- the records of the messages in flight, oldest first
abbrev pub entries : LateAckTracker → List LateAckRecord
entries self = map self.records (contents self.storage)

-- Only a record in flight is marked as acknowledged, the oldest one is not, and what was handed out
-- by `late_ack_tracker_request_bookmark` is the slot that the next push will take.
pub record IsValid (self : LateAckTracker) : Type 0 where
  pub ring : Bounds.IsValid self.storage
  pub free_unacked : (s : ℕ) → NotIn s (contents self.storage) → (self.records s).acked ≡ false
  pub oldest_waits : acked_prefix (entries self) ≡ 0
  pub pending :
      (self.pending_ack_record ≡ none)
      ⊎ ((self.pending_ack_record ≡ some (self.storage.tail))
          × (self.storage.count < self.storage.capacity))
