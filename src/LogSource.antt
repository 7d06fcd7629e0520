-- ===== src/LogSource.antt =====
-- The flow control of lib/logsource.c and the predicates of lib/logsource.h: the window of messages
-- that a source may have in flight. A `GAtomicCounter` is its 32 bit pattern.
use syslog_ng_6_0_core.Common.{
  ℕ, ◌+◌, ◌-◌, ◌*◌, ◌/◌, ◌%◌, ◌^◌, Bool, true, false, not, ◌&&◌, ◌||◌, ltb, leb, ◌==◌,
  if◌then◌else◌, Outcome, done, ◌>>◌, g_assert,
}

abbrev pub u32_mod : ℕ
u32_mod = 2 ^ 32

-- `struct timespec`
pub record Timespec : Type 0 where
  pub tv_sec : ℕ
  pub tv_nsec : ℕ

-- The part of `LogSource` that flow control reads and writes. `wakeups` counts the calls of the
-- callback `wakeup`; `persist_state` stands for the pointer `super.cfg->state`.
pub record LogSource : Type 0 where
  pub threaded : Bool
  pub window_size : ℕ
  pub last_ack_count : ℕ
  pub ack_count : ℕ
  pub window_full_sleep_nsec : ℕ
  pub last_ack_rate_time : Timespec
  pub is_external_ack_required : Bool
  pub suspended : Bool
  pub wakeups : ℕ
  pub persist_state : ℕ

-- What the process gives: the global `accurate_nanosleep`, and the monotonic clock.
pub record Env : Type 0 where
  pub accurate_nanosleep : Bool
  pub monotonic_now : Timespec

unfoldable pub log_source_suspend : LogSource → LogSource
log_source_suspend self = record self { suspended = true }

unfoldable pub log_source_is_suspended : LogSource → Bool
log_source_is_suspended self = self.suspended

-- `window_size <= 0` of a signed 32 bit number
unfoldable pub log_source_is_window_full : LogSource → Bool
log_source_is_window_full self = self.window_size == 0 || leb (2 ^ 31) self.window_size

unfoldable pub log_source_free_to_send : LogSource → Bool
unfolding log_source_is_window_full log_source_is_suspended
log_source_free_to_send self = not (log_source_is_window_full self || log_source_is_suspended self)

unfoldable pub log_source_wakeup : LogSource → LogSource
log_source_wakeup self = record self { suspended = false; wakeups = self.wakeups + 1 }

unfoldable pub flow_control_window_size_adjust : LogSource → ℕ → LogSource
unfolding log_source_wakeup log_source_is_suspended
flow_control_window_size_adjust self window_size_increment =
    let old_window_size = self.window_size in
    let added = record self {
      window_size = (self.window_size + window_size_increment) % u32_mod;
    } in
    if old_window_size == 0 || log_source_is_suspended added then log_source_wakeup added else added

-- `timespec_diff_nsec (&now, &last)`: the clock is monotonic, so the difference is not negative.
abbrev timespec_diff_nsec : Timespec → Timespec → ℕ
timespec_diff_nsec t1 t2 =
    (t1.tv_sec * 1000000000 + t1.tv_nsec) - (t2.tv_sec * 1000000000 + t2.tv_nsec)

-- `window_full_sleep_nsec` from the average time per message of the last measurement
sleep_of : ℕ → ℕ
sleep_of nsec = if ltb 1000000 nsec then 0 else if ltb 100000 (nsec * 8) then 100000 else nsec * 8

-- the measurement, at 16k messages or more since the last one
measure_rate : Timespec → LogSource → LogSource
unfolding sleep_of
measure_rate now self =
    if ltb (self.last_ack_rate_time.tv_sec + 6) now.tv_sec
    then record self { window_full_sleep_nsec = 0; last_ack_rate_time = now }
    else record self {
      window_full_sleep_nsec = sleep_of (
          timespec_diff_nsec now self.last_ack_rate_time
          / ((self.ack_count + u32_mod - self.last_ack_count) % u32_mod));
      last_ack_count = self.ack_count;
      last_ack_rate_time = now;
    }

count_ack : LogSource → LogSource
count_ack self = record self { ack_count = (self.ack_count + 1) % u32_mod }

unfoldable pub flow_control_rate_adjust : Env → LogSource → LogSource
unfolding measure_rate count_ack
flow_control_rate_adjust env self =
    if env.accurate_nanosleep && self.threaded
    then (let counted = count_ack self in
        if counted.ack_count % 2 ^ 14 == 0
          && ltb counted.last_ack_count ((counted.ack_count + u32_mod - 16383) % u32_mod)
        then measure_rate env.monotonic_now counted
        else counted)
    else self

unfoldable pub log_source_flow_control_adjust : Env → LogSource → ℕ → LogSource
log_source_flow_control_adjust env self window_size_increment =
    let adjusted =
      flow_control_rate_adjust env (flow_control_window_size_adjust self window_size_increment) in
    if self.is_external_ack_required then log_source_wakeup adjusted else adjusted

unfoldable pub log_source_flow_control_suspend : Env → LogSource → LogSource
log_source_flow_control_suspend env self =
    flow_control_rate_adjust env (log_source_suspend (flow_control_window_size_adjust self 1))

-- The part of `log_source_queue` that takes a place of the window for the message.
unfoldable pub log_source_queue_window : LogSource → Outcome LogSource
unfolding log_source_is_window_full
log_source_queue_window self = do
  let taken = record self { window_size = (self.window_size + u32_mod - 1) % u32_mod }
  g_assert (not (log_source_is_window_full self))
  done taken
