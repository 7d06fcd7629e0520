-- ===== src/TimerWheel/Tests.antt =====
-- Runs of the timer wheel of modules/dbparser/timerwheel.c.
use syslog_ng_6_0_core.Common.{◌+◌, ◌≡◌, refl, List, [], ◌∷◌}
use syslog_ng_6_0_core.TimerWheel.{
  TimerWheel, timer_wheel_new, timer_wheel_add_timer, timer_wheel_set_time,
}
use syslog_ng_6_0_core.TimerWheel.Held.{held}
use syslog_ng_6_0_core.TimerWheel.Count.{weigh_calls}
use syslog_ng_6_0_core.TimerWheel.Reach.{one, Reach, new, next, add, timers_kept}
use syslog_ng_6_0_core.TimerWheel.Short.{Op, start, pass, run}

-- A timer of 1024 set at the start of a turn of the first level is called at once.
early :
    (timer_wheel_set_time (timer_wheel_add_timer timer_wheel_new 1024 7) 1).fired
    ≡ (0, record { target = 1024; id = 7 }) ∷ []
unfolding timer_wheel_set_time timer_wheel_add_timer
early = refl

-- A timer that is set in the last slot of the second level, for 64 slots later, goes to the slot of
-- the third level that has just been emptied.
late :
    (timer_wheel_add_timer (timer_wheel_set_time timer_wheel_new 64512) 65536 7).slots 2 1
    ≡ record { target = 130048; id = 7 } ∷ []
unfolding timer_wheel_set_time timer_wheel_add_timer
late = refl

abbrev two_timers : TimerWheel
two_timers = timer_wheel_add_timer (timer_wheel_add_timer timer_wheel_new 3 7) 70000 8

two_timers_reached : Reach two_timers
two_timers_reached =
    next (next new (add timer_wheel_new 3 7))
      (add (timer_wheel_add_timer timer_wheel_new 3 7) 70000 8)

timers_kept_example :
    (two_timers.num_timers ≡ held one two_timers)
    × (held (λ e. e.id) (timer_wheel_set_time two_timers 10)
          + weigh_calls (λ e. e.id) (timer_wheel_set_time two_timers 10).fired
        ≡ held (λ e. e.id) two_timers + weigh_calls (λ e. e.id) two_timers.fired)
timers_kept_example = timers_kept two_timers_reached (λ e. e.id) 10

abbrev two_starts : List Op
two_starts = start 3 7 ∷ pass 2 ∷ start 1023 8 ∷ pass 2000 ∷ []

called :
    (run timer_wheel_new (start 3 7 ∷ pass 2 ∷ start 9 8 ∷ pass 12 ∷ [])).fired
    ≡ (3, record { target = 3; id = 7 }) ∷ (11, record { target = 11; id = 8 }) ∷ []
unfolding run timer_wheel_set_time timer_wheel_add_timer
called = refl
