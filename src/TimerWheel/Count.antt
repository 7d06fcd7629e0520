-- ===== src/TimerWheel/Count.antt =====
-- modules/dbparser/timerwheel.c: timers are neither lost nor called twice, and are counted.
use syslog_ng_6_0_core.Common.{
  ℕ, zero, suc, ◌+◌, ◌-◌, ◌<◌, ◌≡◌, ◌⊎◌, inl, inr, refl, ap, ◌∙◌, List, [], ◌∷◌, ◌++◌, ltb, leb,
  ◌==◌, Bool-cases, arith,
}
use syslog_ng_6_0_core.TimerWheel.{
  prepend, is_beyond, move_all, kept_future, due_future, TwEntry, TimerWheel, num, slot_of,
  source_slot, cascade_levels, empty_slot, empty_future, timer_wheel_cascade, calls_at, fire, jump,
  next_tick, advance, timer_wheel_set_time, place,
}
use syslog_ng_6_0_core.TimerWheel.Held.{
  weigh, held, weigh_update, empty_slot_weight, empty_future_weight,
}

source_in : (l now : ℕ) → l < 4 → source_slot l now < num l
source_in zero now h = ground arith
source_in (suc l) now h = ground arith

pub zero_or_more : (n : ℕ) → (n ≡ 0) ⊎ ((k : ℕ) × (n ≡ suc k))
zero_or_more zero = inl refl
zero_or_more (suc k) = inr (k, refl)

-- the moves call nothing and count nothing
abbrev pub Quiet : TimerWheel → TimerWheel → Type 0
Quiet self t = (t.fired ≡ self.fired) × (t.num_timers ≡ self.num_timers)

move_all-Quiet : (l : ℕ) (self : TimerWheel) (es : List TwEntry) → Quiet self (move_all l self es)
unfolding move_all prepend
move_all-Quiet l self [] = (refl, refl)
move_all-Quiet l self (e ∷ es) = move_all-Quiet l (prepend l self e) es

empty_slot-Quiet : (l s : ℕ) (self : TimerWheel) → Quiet self (empty_slot l s self)
unfolding empty_slot
empty_slot-Quiet l s self = move_all-Quiet (l - 1) self (self.slots l s)

cascade-Quiet : (left l : ℕ) (self : TimerWheel) → Quiet self (cascade_levels left l self)
unfolding cascade_levels empty_future
cascade-Quiet zero l self =
    move_all-Quiet 3 (record self { future = kept_future self self.future })
      (due_future self self.future)
cascade-Quiet (suc left) l self =
    let s = source_slot l self.now in
    let emptied = empty_slot-Quiet l s self in
    elim (Bool-cases (ltb s (num l - 1))) [
      | inl ends ↦ rw ends emptied
      | inr goes_on ↦
          let rest = cascade-Quiet left (suc l) (empty_slot l s self) in
          rw goes_on (rest.0 ∙ emptied.0, rest.1 ∙ emptied.1)
    ]

pub place-Quiet : (left l : ℕ) (self : TimerWheel) (e : TwEntry) → Quiet self (place left l self e)
unfolding place prepend
place-Quiet zero l self e = (refl, refl)
place-Quiet (suc left) l self e = elim (Bool-cases (is_beyond l self e)) [
  | inl beyond ↦ rw beyond (place-Quiet left (suc l) self e)
  | inr near ↦ rw near (refl, refl)
]

pub next_tick-Quiet : (self : TimerWheel) → Quiet self (next_tick self)
unfolding next_tick timer_wheel_cascade
next_tick-Quiet self = elim (Bool-cases (slot_of 0 self.now == num 0 - 1)) [
  | inl last ↦ rw last (cascade-Quiet 3 1 self)
  | inr inside ↦ rw inside (refl, refl)
]

module _ (w : TwEntry → ℕ) where
  abbrev pub weigh_calls : List (ℕ × TwEntry) → ℕ
  weigh_calls [] = 0
  weigh_calls ((now, e) ∷ calls) = w e + weigh_calls calls

  -- what a wheel holds and what it has called
  abbrev pub total : TimerWheel → ℕ
  total self = held w self + weigh_calls self.fired

  weigh_calls-append :
      (xs ys : List (ℕ × TwEntry)) → weigh_calls (xs ++ ys) ≡ weigh_calls xs + weigh_calls ys
  weigh_calls-append [] ys = omega arith
  weigh_calls-append ((now, e) ∷ xs) ys = omega (arith, weigh_calls-append xs ys)

  weigh-calls_at : (now : ℕ) (es : List TwEntry) → weigh_calls (calls_at now es) ≡ weigh w es
  weigh-calls_at now [] = refl
  weigh-calls_at now (e ∷ es) = omega (arith, weigh-calls_at now es)

  cascade_weight :
      (left l : ℕ) (self : TimerWheel)
      → left + l ≡ 4
      → 0 < l
      → held w (cascade_levels left l self) ≡ held w self
  unfolding cascade_levels
  cascade_weight zero l self h p = empty_future_weight w self
  cascade_weight (suc left) l self h p =
      let s = source_slot l self.now in
      let emptied =
        empty_slot_weight w l s self p (omega arith) (source_in l self.now (omega arith)) in
      elim (Bool-cases (ltb s (num l - 1))) [
        | inl ends ↦ rw ends emptied
        | inr goes_on ↦ rw goes_on (
            cascade_weight left (suc l) (empty_slot l s self) (omega arith) (omega arith) ∙ emptied)
      ]

  fire_weight : (self : TimerWheel) → total (fire self) ≡ total self
  unfolding fire
  fire_weight self =
      let s = slot_of 0 self.now in
      let entries = self.slots 0 s in
      omega (
        arith,
        weigh_update w self.slots 0 s [] (omega arith) (omega arith),
        weigh_calls-append self.fired (calls_at self.now entries),
        weigh-calls_at self.now entries,
      )

  pub held-next_tick : (self : TimerWheel) → held w (next_tick self) ≡ held w self
  unfolding next_tick timer_wheel_cascade
  held-next_tick self = elim (Bool-cases (slot_of 0 self.now == num 0 - 1)) [
    | inl last ↦ rw last (cascade_weight 3 1 self (omega arith) (omega arith))
    | inr inside ↦ rw inside refl
  ]

  next_tick_weight : (self : TimerWheel) → total (next_tick self) ≡ total self
  next_tick_weight self =
      omega (arith, held-next_tick self, ap weigh_calls (next_tick-Quiet self).0)

  advance_weight :
      (rounds new_now : ℕ) (self : TimerWheel) → total (advance rounds new_now self) ≡ total self
  unfolding advance jump
  advance_weight zero new_now self = refl
  advance_weight (suc rounds) new_now self = elim (zero_or_more (fire self).num_timers) [
    | inl none ↦ rw (none, advance) (fire_weight self)
    | inr (k, some) ↦
        rw (some, advance)
          (advance_weight rounds new_now (next_tick (fire self))
            ∙ next_tick_weight (fire self)
            ∙ fire_weight self)
  ]

  pub set_time_weight :
      (self : TimerWheel) (t : ℕ) → total (timer_wheel_set_time self t) ≡ total self
  unfolding timer_wheel_set_time jump
  set_time_weight self t = elim (Bool-cases (leb t self.now)) [
    | inl past ↦ rw past refl
    | inr later ↦ elim (Bool-cases (self.num_timers == 0)) [
      | inl empty ↦ rw (later, empty) refl
      | inr busy ↦ rw (later, busy) (advance_weight (t - self.now) t self)
    ]
  ]
