-- ===== src/AckTracker.antt =====
-- lib/ack_tracker.h, lib/late_ack_tracker.c and lib/early_ack_tracker.c. The late tracker keeps one
-- record for each message in flight, in the slots of a ring buffer; `records` is that memory, by
-- slot. Reference counts of messages and pipes are not part of the state.
pub mod Memory
pub mod Release
pub mod Invariant
pub mod Released
pub mod Acknowledge
pub mod Track
pub mod Flow
pub mod Run
mod Tests
use syslog_ng_6_0_core.Common.{
  ℕ, zero, suc, ◌+◌, ◌-◌, ◌<◌, Bool, true, false, not, Option, none, some, List, [], ◌∷◌, ◌++◌, ltb,
  ◌==◌, if◌then◌else◌, Outcome, done, abort, ◌>>=◌, ◌>>◌, g_assert,
}
use syslog_ng_6_0_core.RingBuffer.{
  RingBuffer, ring_buffer_alloc, ring_buffer_init, ring_buffer_push, ring_buffer_tail,
  ring_buffer_drop, ring_buffer_free, ring_buffer_count, ring_buffer_element_at,
  ring_buffer_get_continual_range_length,
}
use syslog_ng_6_0_core.LogSource.{
  LogSource, Env, log_source_flow_control_adjust, log_source_flow_control_suspend,
}

-- `AckType`
pub data AckType : Type 0 where
  undefined processed aborted suspended : AckType

abbrev pub is_aborted : AckType → Bool
is_aborted aborted = true
is_aborted _ = false

abbrev pub is_suspended : AckType → Bool
is_suspended suspended = true
is_suspended _ = false

-- `Bookmark`. `container` is what the source wrote there; `save` and `destroy` say whether the
-- function pointers are set.
pub record Bookmark : Type 0 where
  pub persist_state : Option ℕ
  pub save : Bool
  pub destroy : Bool
  pub container : ℕ

-- `LateAckRecord`; `tracker` says whether the pointer to the tracker is set.
pub record LateAckRecord : Type 0 where
  pub tracker : Bool
  pub acked : Bool
  pub bookmark : Bookmark

-- `LateAckTracker`. `saved` and `destroyed` list the bookmarks that went through the callbacks
-- `save` and `destroy`, oldest first.
pub record LateAckTracker : Type 0 where
  pub source : LogSource
  pub pending_ack_record : Option ℕ
  pub storage : RingBuffer
  pub records : ℕ → LateAckRecord
  pub saved : List Bookmark
  pub destroyed : List Bookmark

-- a record of zero bytes
abbrev pub blank : LateAckRecord
blank = record {
  tracker = false;
  acked = false;
  bookmark = record { persist_state = none; save = false; destroy = false; container = 0 };
}

-- a write to the record in one slot
abbrev pub update : (ℕ → LateAckRecord) → ℕ → LateAckRecord → ℕ → LateAckRecord
update f s rec i = if i == s then rec else f i

unfoldable pub ack_range_is_continuous : LateAckTracker → Option ℕ → Bool
ack_range_is_continuous self none = false
ack_range_is_continuous self (some s) = (self.records s).acked

unfoldable pub get_continuous_range_length : LateAckTracker → Outcome ℕ
unfolding ack_range_is_continuous
get_continuous_range_length self =
    ring_buffer_get_continual_range_length self.storage (ack_range_is_continuous self)

unfoldable pub late_ack_record_destroy : LateAckTracker → Bookmark → LateAckTracker
late_ack_record_destroy self b = record self {
  destroyed = if b.destroy then self.destroyed ++ b ∷ [] else self.destroyed;
}

-- one round of the loop of `_drop_range`, on the record in slot `s`
unfoldable pub drop_record : LateAckTracker → ℕ → LateAckTracker
unfolding late_ack_record_destroy
drop_record self s =
    let rec = self.records s in
    let self' = late_ack_record_destroy self rec.bookmark in
    record self' {
      records = update self.records s (record rec {
        acked = false;
        bookmark = record (rec.bookmark) { save = false; destroy = false };
      });
    }

-- `n` rounds left, at index `i`
unfoldable pub drop_records : LateAckTracker → ℕ → ℕ → Outcome LateAckTracker
unfolding drop_record
drop_records self zero i = done self
drop_records self (suc n) i = do
  e ← ring_buffer_element_at self.storage i
  elim e [ none ↦ abort | some s ↦ drop_records (drop_record self s) n (i + 1) ]

unfoldable pub drop_range : LateAckTracker → ℕ → Outcome LateAckTracker
unfolding drop_records
drop_range self n = do
  self' ← drop_records self n 0
  (_, storage) ← ring_buffer_drop self'.storage n
  done (record self' { storage = storage })

-- `g_assert (ack_rec == self->pending_ack_record)`
abbrev same_slot : Option ℕ → Option ℕ → Bool
same_slot none none = true
same_slot (some a) (some b) = a == b
same_slot _ _ = false

-- Returns the slot that `msg->ack_record` then points to.
unfoldable pub late_ack_tracker_track_msg : LateAckTracker → Outcome (ℕ × LateAckTracker)
late_ack_tracker_track_msg self = elim self.pending_ack_record [
  | none ↦ abort
  | some s ↦ do
    (ack_rec, storage) ← ring_buffer_push self.storage
    g_assert (same_slot ack_rec (some s))
    done (s, record self { storage = storage; pending_ack_record = none })
]

-- `bookmark->save (bookmark)`
save_bookmark : LateAckTracker → Bookmark → Outcome LateAckTracker
save_bookmark self b = if b.save then done (record self { saved = self.saved ++ b ∷ [] }) else abort

unfoldable pub flow_control : Env → AckType → ℕ → LogSource → LogSource
flow_control env ack_type n source =
    if is_suspended ack_type
    then log_source_flow_control_suspend env source
    else log_source_flow_control_adjust env source n

-- the body of the `if (ack_range_length > 0)`
pub release_range : Env → LateAckTracker → AckType → ℕ → Outcome LateAckTracker
unfolding save_bookmark flow_control drop_range
release_range env self ack_type n = do
  e ← ring_buffer_element_at self.storage (n - 1)
  saved ← elim e [
    | none ↦ abort
    | some last ↦
        if is_aborted ack_type then done self else save_bookmark self (self.records last).bookmark
  ]
  dropped ← drop_range saved n
  done (record dropped { source = flow_control env ack_type n dropped.source })

unfoldable pub mark_acked : LateAckTracker → ℕ → LateAckTracker
mark_acked self s = record self {
  records = update self.records s (record (self.records s) { acked = true });
}

-- `s` is the slot of `msg->ack_record`.
unfoldable pub late_ack_tracker_manage_msg_ack :
    Env → LateAckTracker → ℕ → AckType → Outcome LateAckTracker
unfolding mark_acked get_continuous_range_length release_range
late_ack_tracker_manage_msg_ack env self s ack_type =
    let acked = mark_acked self s in
    get_continuous_range_length acked >>= λ n.
    if ltb 0 n then release_range env acked ack_type n else done acked

-- the body of the `if (self->pending_ack_record)`, at slot `s`
abbrev pub reserve : LateAckTracker → ℕ → LateAckTracker
reserve self s =
    let rec = self.records s in
    record self {
      pending_ack_record = some s;
      records = update self.records s (record rec {
        tracker = true;
        bookmark = record (rec.bookmark) { persist_state = some (self.source.persist_state) };
      });
    }

-- Returns the slot of the bookmark, or NULL.
unfoldable pub late_ack_tracker_request_bookmark :
    LateAckTracker → Outcome (Option ℕ × LateAckTracker)
late_ack_tracker_request_bookmark self = do
  tail ← ring_buffer_tail self.storage
  done (elim tail [
    | none ↦ (none, record self { pending_ack_record = none })
    | some s ↦ (some s, reserve self s)
  ])

-- The ring is allocated for `init_window_size` records of `record_size` bytes, all zero.
unfoldable pub late_ack_tracker_new : LogSource → ℕ → ℕ → Outcome LateAckTracker
late_ack_tracker_new source record_size init_window_size = do
  storage ←
      ring_buffer_alloc
        (record { buffer = none; head = 0; tail = 0; count = 0; capacity = 0; element_size = 0 })
        record_size init_window_size
  done (record {
    source = source;
    pending_ack_record = none;
    storage = storage;
    records = λ _. blank;
    saved = [];
    destroyed = [];
  })

-- What is left of the tracker is freed: the bookmarks destroyed are the result.
unfoldable pub late_ack_tracker_free : LateAckTracker → Outcome (List Bookmark)
unfolding drop_range
late_ack_tracker_free self = do
  self' ← drop_range self (ring_buffer_count self.storage)
  done self'.destroyed

-- `EarlyAckTracker`: one record for all messages, so only its source has state.
unfoldable pub early_ack_tracker_manage_msg_ack : Env → LogSource → AckType → LogSource
early_ack_tracker_manage_msg_ack env source ack_type =
    if is_suspended ack_type
    then log_source_flow_control_suspend env source
    else log_source_flow_control_adjust env source 1
