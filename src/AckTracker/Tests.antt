-- ===== src/AckTracker/Tests.antt =====
-- A source with two messages in flight: runs of the trackers, and their theorems there.
use syslog_ng_6_0_core.Common.{
  ℕ, ◌+◌, ◌<◌, ◌≡◌, ◌⊎◌, refl, inr, true, false, Option, none, some, [], ◌∷◌, arith, done, ◌==◌,
  if◌then◌else◌,
}
use syslog_ng_6_0_core.RingBuffer.{ring_buffer_count, ring_buffer_element_at, ring_buffer_drop}
use syslog_ng_6_0_core.LogSource.{
  LogSource, Env, log_source_free_to_send, log_source_flow_control_adjust,
  flow_control_window_size_adjust, flow_control_rate_adjust,
}
use syslog_ng_6_0_core.AckTracker.{
  processed, suspended, Bookmark, LateAckTracker, blank, late_ack_tracker_manage_msg_ack,
  late_ack_tracker_request_bookmark, early_ack_tracker_manage_msg_ack, late_ack_tracker_free,
}
use syslog_ng_6_0_core.AckTracker.Invariant.{entries, IsValid}
use syslog_ng_6_0_core.AckTracker.Released.{Acknowledged}
use syslog_ng_6_0_core.AckTracker.Acknowledge.{manage_msg_ack_lem}
use syslog_ng_6_0_core.RingBuffer.Distinct.{NotIn}
use syslog_ng_6_0_core.AckTracker.Track.{request_bookmark_lem}
use syslog_ng_6_0_core.AckTracker.Flow.{ack_window_balance}
use syslog_ng_6_0_core.AckTracker.Run.{
  Balanced, Reach, here, next, write, write_bookmark, Reach-Balanced, free_to_send-request,
}

abbrev env : Env
env = record { accurate_nanosleep = false; monotonic_now = record { tv_sec = 0; tv_nsec = 0 } }

abbrev source : LogSource
source = record {
  threaded = false;
  window_size = 1;
  last_ack_count = 0;
  ack_count = 0;
  window_full_sleep_nsec = 0;
  last_ack_rate_time = record { tv_sec = 0; tv_nsec = 0 };
  is_external_ack_required = false;
  suspended = false;
  wakeups = 0;
  persist_state = 9;
}

abbrev bookmark : ℕ → Bookmark
bookmark n = record { persist_state = some 9; save = true; destroy = true; container = n }

-- Three records of 16 bytes; slots 2 and 0 are in flight, oldest first, the latter acknowledged.
abbrev tracker : LateAckTracker
tracker = record {
  source = source;
  pending_ack_record = some 1;
  storage = record {
    buffer = some 48;
    head = 2;
    tail = 1;
    count = 2;
    capacity = 3;
    element_size = 16;
  };
  records = λ s.
      if s == 1 then blank else record { tracker = true; acked = s == 0; bookmark = bookmark s };
  saved = [];
  destroyed = [];
}

tracker-IsValid : IsValid tracker
tracker-IsValid = record {
  ring = record {
    allocated = refl;
    fits = omega arith;
    small = omega arith;
    head_in = omega arith;
    count_in = omega arith;
    tail_is = refl;
  };
  free_unacked = λ s out. ground (arith, out.1.0);
  oldest_waits = refl;
  pending = inr (refl, omega arith);
}

tracker-Balanced : Balanced 3 tracker
tracker-Balanced = record {
  valid = tracker-IsValid;
  savable = (refl, (refl, tt));
  room_is = refl;
  sum_is = refl;
}

-- Both messages are acknowledged then.
manage_msg_ack_lem_example :
    (t : LateAckTracker) × (late_ack_tracker_manage_msg_ack env tracker 2 processed ≡ done t)
    × Acknowledged env tracker
        (record (blank) { tracker = true; acked = true; bookmark = bookmark 2 }
          ∷ record (blank) { tracker = true; acked = true; bookmark = bookmark 0 }
          ∷ [])
        2
        processed
        t
manage_msg_ack_lem_example =
    manage_msg_ack_lem env tracker 2 0 processed tracker-IsValid refl (refl, (refl, tt))

-- A `suspended` acknowledgement of both gives one place back.
ack_window_balance_example :
    (t : LateAckTracker) × (late_ack_tracker_manage_msg_ack env tracker 2 suspended ≡ done t)
    × (t.source.window_size + t.storage.count + 1 ≡ 3)
ack_window_balance_example =
    ack_window_balance env tracker 2 0 suspended tracker-IsValid refl (refl, (refl, tt))
      (omega arith)

request_bookmark_lem_example :
    (o : Option ℕ) × (t : LateAckTracker) × (late_ack_tracker_request_bookmark tracker
      ≡ done (o, t))
    × IsValid t
    × (entries t ≡ entries tracker)
    × (t.source ≡ source)
    × (t.storage ≡ tracker.storage)
    × (t.pending_ack_record ≡ o)
    × (((tracker.storage.count ≡ 3) × (o ≡ none))
        ⊎ ((2 < 3) × (s : ℕ) × (o ≡ some s) × NotIn s (2 ∷ 0 ∷ [])))
request_bookmark_lem_example = request_bookmark_lem tracker tracker-IsValid

to_written : Reach env tracker (write_bookmark tracker 1 (bookmark 1))
to_written = next here (write tracker 1 (bookmark 1) refl refl)

Reach-Balanced_example : Balanced 3 (write_bookmark tracker 1 (bookmark 1))
Reach-Balanced_example = Reach-Balanced env 3 (omega arith) tracker-Balanced to_written

free_to_send-request_example :
    (s : ℕ) × (t : LateAckTracker) × (late_ack_tracker_request_bookmark
        (write_bookmark tracker 1 (bookmark 1))
      ≡ done (some s, t))
unfolding log_source_free_to_send
free_to_send-request_example =
    free_to_send-request env 3 (omega arith) tracker-Balanced to_written refl

early_ack : (early_ack_tracker_manage_msg_ack env source processed).window_size ≡ 2
unfolding early_ack_tracker_manage_msg_ack log_source_flow_control_adjust
    flow_control_window_size_adjust flow_control_rate_adjust
early_ack = refl

freed_bookmarks : late_ack_tracker_free tracker ≡ done (bookmark 2 ∷ bookmark 0 ∷ [])
unfolding late_ack_tracker_free ring_buffer_count ring_buffer_element_at ring_buffer_drop
freed_bookmarks = refl
