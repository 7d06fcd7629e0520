-- ===== src/TimerWheel/Short.antt =====
-- modules/dbparser/timerwheel.c: timers that are shorter than a turn of the first level.
use syslog_ng_6_0_core.Common.{ℕ, ◌^◌, ◌<◌, List, [], ◌∷◌}
use syslog_ng_6_0_core.TimerWheel.{TimerWheel, timer_wheel_set_time, timer_wheel_add_timer}

-- the calls of a program that sets timers and moves the time
pub data Op : Type 0 where
  start : ℕ → ℕ → Op
  pass : ℕ → Op

unfoldable pub run : TimerWheel → List Op → TimerWheel
run self [] = self
run self (start timeout id ∷ ops) = run (timer_wheel_add_timer self timeout id) ops
run self (pass t ∷ ops) = run (timer_wheel_set_time self t) ops

-- all timeouts are below 1024, and the time stays below 2^63
abbrev pub AreShort : List Op → Type 0
AreShort [] = Unit {0}
AreShort (start timeout id ∷ ops) = (timeout < 1024) × AreShort ops
AreShort (pass t ∷ ops) = (t < 2 ^ 63) × AreShort ops
