-- ===== src/TimerWheel/Reach.antt =====
-- modules/dbparser/timerwheel.c: the wheel at work, and the number that it keeps of its timers.
use syslog_ng_6_0_core.Common.{
  ℕ, zero, suc, ◌+◌, ◌-◌, ◌%◌, ◌^◌, ◌≤◌, ◌≡◌, inl, inr, refl, sym, ◌∙◌, List, [], ◌∷◌, leb, ◌==◌,
  Bool-cases, if◌then◌else◌, arith,
}
use syslog_ng_6_0_core.TimerWheel.{
  TwEntry, TimerWheel, num, slot_of, minus_each, fire, jump, next_tick, advance,
  timer_wheel_set_time, timer_wheel_add_timer_entry, without, unlink, timer_wheel_add_timer,
  timer_wheel_del_timer, timer_wheel_mod_timer, timer_wheel_new,
}
use syslog_ng_6_0_core.TimerWheel.Held.{weigh, weigh_slots, held, weigh_update, place_weight}
use syslog_ng_6_0_core.TimerWheel.Count.{
  weigh_calls, place-Quiet, next_tick-Quiet, held-next_tick, set_time_weight, zero_or_more,
}

abbrev pub one : TwEntry → ℕ
one e = 1

-- `num_timers` is the number of timers in the wheel
abbrev pub IsCounted : TimerWheel → Type 0
IsCounted self = self.num_timers ≡ held one self

minus_each_lem : (n : ℕ) (es : List TwEntry) → minus_each n es ≡ n - weigh one es
minus_each_lem n [] = omega arith
minus_each_lem n (e ∷ es) = omega (arith, minus_each_lem (n - 1) es)

pub fire-IsCounted : (self : TimerWheel) → IsCounted self → IsCounted (fire self)
unfolding fire
fire-IsCounted self c =
    let s = slot_of 0 self.now in
    omega (
      arith,
      weigh_update one self.slots 0 s [] (omega arith) (omega arith),
      minus_each_lem self.num_timers (self.slots 0 s),
    )

pub next_tick-IsCounted : (self : TimerWheel) → IsCounted self → IsCounted (next_tick self)
next_tick-IsCounted self c = (next_tick-Quiet self).1 ∙ c ∙ sym (held-next_tick one self)

advance-IsCounted :
    (rounds new_now : ℕ) (self : TimerWheel)
    → IsCounted self
    → IsCounted (advance rounds new_now self)
unfolding advance jump
advance-IsCounted zero new_now self c = c
advance-IsCounted (suc rounds) new_now self c = elim (zero_or_more (fire self).num_timers) [
  | inl none ↦ rw (none, advance) (fire-IsCounted self c)
  | inr (k, some) ↦
      rw (some, advance)
        (advance-IsCounted rounds new_now (next_tick (fire self))
          (next_tick-IsCounted (fire self) (fire-IsCounted self c)))
]

set_time-IsCounted :
    (self : TimerWheel) (t : ℕ) → IsCounted self → IsCounted (timer_wheel_set_time self t)
unfolding timer_wheel_set_time jump
set_time-IsCounted self t c = elim (Bool-cases (leb t self.now)) [
  | inl past ↦ rw past c
  | inr later ↦ elim (Bool-cases (self.num_timers == 0)) [
    | inl empty ↦ rw (later, empty) c
    | inr busy ↦ rw (later, busy) (advance-IsCounted (t - self.now) t self c)
  ]
]

pub add_timer-IsCounted :
    (self : TimerWheel) (timeout id : ℕ)
    → IsCounted self
    → IsCounted (timer_wheel_add_timer self timeout id)
unfolding timer_wheel_add_timer timer_wheel_add_timer_entry
add_timer-IsCounted self timeout id c =
    let e : TwEntry = record { target = (self.now + timeout) % 2 ^ 64; id = id } in
    omega (arith, place_weight one 4 0 self e (omega arith), (place-Quiet 4 0 self e).1)

-- how often a timer is in the wheel
abbrev pub is_timer : ℕ → TwEntry → ℕ
is_timer id e = if e.id == id then 1 else 0

rest_one : {n : ℕ} → 0 + n ≤ 1 → n ≤ 1
rest_one h = omega arith

rest_zero : {n : ℕ} → 1 + n ≤ 1 → n ≡ 0
rest_zero h = omega arith

without_lem :
    (id : ℕ) (es : List TwEntry)
    → weigh (is_timer id) es ≤ 1
    → weigh one (without id es) + weigh (is_timer id) es ≡ weigh one es
unfolding without
without_lem id [] h = omega arith
without_lem id (e ∷ es) h = elim (Bool-cases (e.id == id)) [
  | inl found ↦
      rw found (let left : weigh (is_timer id) es ≡ 0 = rest_zero (rw found at h) in omega arith)
  | inr other ↦ rw other (omega (arith, without_lem id es (rest_one (rw other at h))))
]

without_slots :
    (id : ℕ) (slots : ℕ → ℕ → List TwEntry) (l n : ℕ)
    → weigh_slots (is_timer id) slots l n ≤ 1
    → weigh_slots one (λ l' s. without id (slots l' s)) l n + weigh_slots (is_timer id) slots l n
      ≡ weigh_slots one slots l n
unfolding weigh_slots
without_slots id slots l zero h = omega arith
without_slots id slots l (suc n) h =
    omega
      (arith, without_slots id slots l n (omega arith), without_lem id (slots l n) (omega arith))

unlink_num : (self : TimerWheel) (id : ℕ) → (unlink self id).num_timers ≡ self.num_timers
unfolding unlink
unlink_num self id = refl

unlink_weight :
    (self : TimerWheel) (id : ℕ)
    → held (is_timer id) self ≡ 1
    → held one (unlink self id) + 1 ≡ held one self
unfolding unlink
unlink_weight self id h = omega (
  arith,
  without_slots id self.slots 0 (num 0) (omega arith),
  without_slots id self.slots 1 (num 1) (omega arith),
  without_slots id self.slots 2 (num 2) (omega arith),
  without_slots id self.slots 3 (num 3) (omega arith),
  without_lem id self.future (omega arith),
)

mod_timer-IsCounted :
    (self : TimerWheel) (id timeout : ℕ)
    → held (is_timer id) self ≡ 1
    → IsCounted self
    → IsCounted (timer_wheel_mod_timer self id timeout)
unfolding timer_wheel_mod_timer timer_wheel_add_timer_entry
mod_timer-IsCounted self id timeout h c =
    let e : TwEntry = record { target = (self.now + timeout) % 2 ^ 64; id = id } in
    let u = unlink self id in
    omega (
      arith,
      place_weight one 4 0 u e (omega arith),
      (place-Quiet 4 0 u e).1,
      unlink_weight self id h,
      unlink_num self id,
    )

-- the calls of a wheel; a timer that is changed or taken away is in the wheel
pub data Step : TimerWheel → TimerWheel → Type 0 where
  add : (self : TimerWheel) (timeout id : ℕ) → Step self (timer_wheel_add_timer self timeout id)
  del :
      (self : TimerWheel) (id : ℕ)
      → held (is_timer id) self ≡ 1
      → Step self (timer_wheel_del_timer self id)
  modify :
      (self : TimerWheel) (id timeout : ℕ)
      → held (is_timer id) self ≡ 1
      → Step self (timer_wheel_mod_timer self id timeout)
  tick : (self : TimerWheel) (t : ℕ) → Step self (timer_wheel_set_time self t)

pub data Reach : TimerWheel → Type 0 where
  new : Reach timer_wheel_new
  next : {s t : TimerWheel} → Reach s → Step s t → Reach t

Step-IsCounted : {s t : TimerWheel} → Step s t → IsCounted s → IsCounted t
unfolding timer_wheel_del_timer
Step-IsCounted (add self timeout id) c = add_timer-IsCounted self timeout id c
Step-IsCounted (del self id h) c = omega (arith, unlink_weight self id h)
Step-IsCounted (modify self id timeout h) c = mod_timer-IsCounted self id timeout h c
Step-IsCounted (tick self t) c = set_time-IsCounted self t c

no_timers : (l n : ℕ) → weigh_slots one (λ l' s. []) l n ≡ 0
unfolding weigh_slots
no_timers l zero = refl
no_timers l (suc n) = omega (arith, no_timers l n)

pub Reach-IsCounted : {s : TimerWheel} → Reach s → IsCounted s
Reach-IsCounted new =
    omega
      (arith, no_timers 0 (num 0), no_timers 1 (num 1), no_timers 2 (num 2), no_timers 3 (num 3))
Reach-IsCounted (next r st) = Step-IsCounted st (Reach-IsCounted r)

-- In every wheel that is reached from a new one by adding timers, by deleting and changing a timer
-- whose number just one timer in it has, and by setting the time, num_timers is the number of
-- timers held, and setting the time neither loses nor repeats a timer: whatever weight each timer
-- is given, those held and those called weigh as much together as before.
pub timers_kept :
    {s : TimerWheel} (r : Reach s) (w : TwEntry → ℕ) (t : ℕ)
    → (s.num_timers ≡ held one s)
      × (held w (timer_wheel_set_time s t) + weigh_calls w (timer_wheel_set_time s t).fired
          ≡ held w s + weigh_calls w s.fired)
timers_kept {s} r w t = (Reach-IsCounted r, set_time_weight w s t)
