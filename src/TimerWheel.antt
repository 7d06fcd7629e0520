-- ===== src/TimerWheel.antt =====
-- modules/dbparser/timerwheel.c: timers in four levels of slots and a list of those in the far
-- future. Times have 64 bits. A timer is known by a number, which stands for its entry with the callback and its data;
-- `fired` is the record of the calls of callbacks, with the time that each is given; a callback that
-- changes the wheel itself is not modelled.
pub mod Held
pub mod Count
pub mod Reach
pub mod Round
pub mod Short
mod Tests
use syslog_ng_6_0_core.Common.{
  ℕ, zero, suc, ◌+◌, ◌-◌, ◌*◌, ◌/◌, ◌%◌, ◌^◌, Bool, true, false, ◌&&◌, ◌||◌, not, List, [], ◌∷◌,
  ◌++◌, ltb, leb, ◌==◌, if◌then◌else◌,
}

pub record TwEntry : Type 0 where
  pub target : ℕ
  pub id : ℕ

-- `slots` has the list of each slot of each level, the first level being 0.
pub record TimerWheel : Type 0 where
  pub slots : ℕ → ℕ → List TwEntry
  pub future : List TwEntry
  pub now : ℕ
  pub base : ℕ
  pub num_timers : ℕ
  pub fired : List (ℕ × TwEntry)

-- `num` and `1 << shift` of a level
abbrev pub num : ℕ → ℕ
num zero = 1024
num (suc l) = 64

abbrev pub unit : ℕ → ℕ
unit zero = 1
unit (suc zero) = 1024
unit (suc (suc zero)) = 65536
unit (suc (suc (suc l))) = 4194304

-- `num << shift`
abbrev pub span : ℕ → ℕ
span l = num l * unit l

-- `(t & mask) >> shift`
abbrev pub slot_of : ℕ → ℕ → ℕ
slot_of l t = t / unit l % num l

-- `base & ~slot_mask & ~mask`
abbrev pub level_base : ℕ → ℕ → ℕ
level_base l base = base / span l * span l

abbrev pub update_slot : (ℕ → ℕ → List TwEntry) → ℕ → ℕ → List TwEntry → ℕ → ℕ → List TwEntry
update_slot slots l s entries l' s' =
    if l' == l then (if s' == s then entries else slots l' s') else slots l' s'

-- `tw_entry_prepend` on the slot of the target
unfoldable pub prepend : ℕ → TimerWheel → TwEntry → TimerWheel
prepend l self entry =
    let s = slot_of l entry.target in
    record self { slots = update_slot self.slots l s (entry ∷ self.slots l s) }

-- whether the target lies beyond the slots of the level
unfoldable pub is_beyond : ℕ → TimerWheel → TwEntry → Bool
is_beyond l self entry =
    let first = level_base l self.base in
    ltb ((first + span l) % 2 ^ 64) entry.target
    && not (
        ltb entry.target ((first + span l * 2) % 2 ^ 64)
        && ltb (slot_of l entry.target) (slot_of l self.now))

-- the loop over the levels that are left, from the level `l` on
unfoldable pub place : ℕ → ℕ → TimerWheel → TwEntry → TimerWheel
unfolding prepend is_beyond
place zero l self entry = record self { future = entry ∷ self.future }
place (suc left) l self entry =
    let above = place left (suc l) self entry in
    if is_beyond l self entry then above else prepend l self entry

unfoldable pub timer_wheel_add_timer_entry : TimerWheel → TwEntry → TimerWheel
unfolding place
timer_wheel_add_timer_entry self entry = place 4 0 self entry

-- `timeout` is the gint as a word of 64 bits; `id` is a number that no other timer has.
unfoldable pub timer_wheel_add_timer : TimerWheel → ℕ → ℕ → TimerWheel
unfolding timer_wheel_add_timer_entry
timer_wheel_add_timer self timeout id =
    let added =
      timer_wheel_add_timer_entry self
        (record { target = (self.now + timeout) % 2 ^ 64; id = id }) in
    record added { num_timers = added.num_timers + 1 }

-- the list without the entry of a number
unfoldable pub without : ℕ → List TwEntry → List TwEntry
without id [] = []
without id (e ∷ es) = if e.id == id then es else e ∷ without id es

-- `tw_entry_unlink`, wherever the entry is
unfoldable pub unlink : TimerWheel → ℕ → TimerWheel
unfolding without
unlink self id = record self {
  slots = λ l s. without id (self.slots l s);
  future = without id self.future;
}

unfoldable pub timer_wheel_del_timer : TimerWheel → ℕ → TimerWheel
unfolding unlink
timer_wheel_del_timer self id =
    let unlinked = unlink self id in record unlinked { num_timers = unlinked.num_timers - 1 }

unfoldable pub timer_wheel_mod_timer : TimerWheel → ℕ → ℕ → TimerWheel
unfolding unlink timer_wheel_add_timer_entry
timer_wheel_mod_timer self id new_timeout =
    timer_wheel_add_timer_entry (unlink self id)
      (record { target = (self.now + new_timeout) % 2 ^ 64; id = id })

-- each entry of a list goes to its slot of a level
unfoldable pub move_all : ℕ → TimerWheel → List TwEntry → TimerWheel
unfolding prepend
move_all l self [] = self
move_all l self (entry ∷ entries) = move_all l (prepend l self entry) entries

-- the slot behind that of the time
abbrev pub source_slot : ℕ → ℕ → ℕ
source_slot l now = if slot_of l now == num l - 1 then 0 else slot_of l now + 1

-- one slot of a level is emptied into the level below
unfoldable pub empty_slot : ℕ → ℕ → TimerWheel → TimerWheel
unfolding move_all
empty_slot l s self =
    let moved = move_all (l - 1) self (self.slots l s) in
    record moved { slots = update_slot moved.slots l s [] }

-- the entries in the future that come into reach of the last level
unfoldable pub in_reach : TimerWheel → TwEntry → Bool
in_reach self entry = ltb entry.target ((level_base 3 self.base + 2 * span 3) % 2 ^ 64)

unfoldable pub kept_future : TimerWheel → List TwEntry → List TwEntry
unfolding in_reach
kept_future self [] = []
kept_future self (entry ∷ entries) =
    if in_reach self entry then kept_future self entries else entry ∷ kept_future self entries

unfoldable pub due_future : TimerWheel → List TwEntry → List TwEntry
unfolding in_reach
due_future self [] = []
due_future self (entry ∷ entries) =
    if in_reach self entry then entry ∷ due_future self entries else due_future self entries

unfoldable pub empty_future : TimerWheel → TimerWheel
unfolding kept_future due_future move_all
empty_future self =
    move_all 3 (record self { future = kept_future self self.future }) (due_future self self.future)

-- the loop over the levels that are left; it ends at the first whose slot is not the last one
unfoldable pub cascade_levels : ℕ → ℕ → TimerWheel → TimerWheel
unfolding empty_slot empty_future
cascade_levels zero l self = empty_future self
cascade_levels (suc left) l self =
    let s = source_slot l self.now in
    let emptied = empty_slot l s self in
    let further = cascade_levels left (suc l) emptied in
    if ltb s (num l - 1) then emptied else further

unfoldable pub timer_wheel_cascade : TimerWheel → TimerWheel
unfolding cascade_levels
timer_wheel_cascade self =
    let cascaded = cascade_levels 3 1 self in
    record cascaded { base = (cascaded.base + num 0) % 2 ^ 64 }

-- the callbacks of a list of entries at a time
abbrev pub calls_at : ℕ → List TwEntry → List (ℕ × TwEntry)
calls_at now [] = []
calls_at now (entry ∷ entries) = (now, entry) ∷ calls_at now entries

abbrev pub minus_each : ℕ → List TwEntry → ℕ
minus_each n [] = n
minus_each n (entry ∷ entries) = minus_each (n - 1) entries

-- the slot of the present time expires
unfoldable pub fire : TimerWheel → TimerWheel
fire self =
    let s = slot_of 0 self.now in
    let entries = self.slots 0 s in
    record self {
      slots = update_slot self.slots 0 s [];
      num_timers = minus_each self.num_timers entries;
      fired = self.fired ++ calls_at self.now entries;
    }

-- without timers the wheel goes to the new time at once; `new_now & ~mask` of the first level
unfoldable pub jump : TimerWheel → ℕ → TimerWheel
jump self new_now = record self { now = new_now; base = new_now / 1024 * 1024 }

-- `self->now++` at the end of a round, behind the cascade where the slot was the last one
unfoldable pub next_tick : TimerWheel → TimerWheel
unfolding timer_wheel_cascade
next_tick self =
    let turned = if slot_of 0 self.now == num 0 - 1 then timer_wheel_cascade self else self in
    record turned { now = turned.now + 1 }

-- the loop, by the rounds that are left
unfoldable pub advance : ℕ → ℕ → TimerWheel → TimerWheel
unfolding fire jump next_tick
advance zero new_now self = self
advance (suc rounds) new_now self = elim (fire self).num_timers [
  | zero ↦ jump (fire self) new_now
  | suc timers ↦ advance rounds new_now (next_tick (fire self))
]

unfoldable pub timer_wheel_set_time : TimerWheel → ℕ → TimerWheel
unfolding advance jump
timer_wheel_set_time self new_now =
    if leb new_now self.now
    then self
    else if self.num_timers == 0
    then jump self new_now
    else advance (new_now - self.now) new_now self

unfoldable pub timer_wheel_expire_all : TimerWheel → TimerWheel
unfolding timer_wheel_set_time
timer_wheel_expire_all self = record (timer_wheel_set_time self (2 ^ 64 - 1)) { now = self.now }

abbrev pub timer_wheel_new : TimerWheel
timer_wheel_new = record {
  slots = λ l s. [];
  future = [];
  now = 0;
  base = 0;
  num_timers = 0;
  fired = [];
}
