-- ===== src/TimerWheel/Round.antt =====
-- modules/dbparser/timerwheel.c: one round of a wheel whose timers
-- are shorter than a turn of the first level.
use syslog_ng_6_0_core.Common.{
  ℕ, zero, suc, ◌+◌, ◌-◌, ◌*◌, ◌/◌, ◌%◌, ◌^◌, ◌≤◌, ◌<◌, ◌≡◌, ◌≢◌, inl, inr, refl, sym, ◌∙◌, subst,
  true, false, List, [], ◌∷◌, ◌++◌, ltb, ◌==◌, Bool-cases, if◌then◌else◌, arith,
}
use syslog_ng_6_0_core.TimerWheel.{
  TwEntry, TimerWheel, num, slot_of, source_slot, update_slot, move_all, cascade_levels, empty_slot,
  kept_future, due_future, empty_future, timer_wheel_cascade, calls_at, fire, next_tick,
}
use syslog_ng_6_0_core.TimerWheel.Count.{next_tick-Quiet}
use syslog_ng_6_0_core.TimerWheel.Reach.{IsCounted, fire-IsCounted, next_tick-IsCounted}

-- the timers of a slot of the first level are due within a turn from now, at the slot
abbrev pub Due : ℕ → ℕ → List TwEntry → Type 0
Due now s [] = Unit {0}
Due now s (e ∷ es) =
    ((e.target % 1024 ≡ s) × (now ≤ e.target) × (e.target < now + 1024)) × Due now s es

-- each call is at the time for which it was set
abbrev pub Punctual : List (ℕ × TwEntry) → Type 0
Punctual [] = Unit {0}
Punctual ((now, e) ∷ calls) = (now ≡ e.target) × Punctual calls

-- all timers are in the first level and due within a turn
pub record IsShort (self : TimerWheel) : Type 0 where
  pub due : (s : ℕ) → s < 1024 → Due self.now s (self.slots 0 s)
  pub upper : (l s : ℕ) → self.slots (suc l) s ≡ []
  pub near : self.future ≡ []
  pub base_is : self.base ≡ self.now / 1024 * 1024
  pub counted : IsCounted self
  pub on_time : Punctual self.fired

Punctual-append : (xs ys : List (ℕ × TwEntry)) → Punctual xs → Punctual ys → Punctual (xs ++ ys)
Punctual-append [] ys p q = q
Punctual-append ((now, e) ∷ xs) ys p q = (p.0, Punctual-append xs ys p.1 q)

pub Due-Punctual :
    (now : ℕ) (es : List TwEntry) → Due now (now % 1024) es → Punctual (calls_at now es)
Due-Punctual now [] d = tt
Due-Punctual now (e ∷ es) d = (omega arith, Due-Punctual now es d.1)

Due-later : (now s : ℕ) (es : List TwEntry) → s ≢ now % 1024 → Due now s es → Due (now + 1) s es
Due-later now s [] h d = tt
Due-later now s (e ∷ es) h d = ((d.0.0, omega arith, omega arith), Due-later now s es h d.1)

-- what a turn of the upper levels leaves as it is, where they hold nothing
abbrev pub SameLow : TimerWheel → TimerWheel → Type 0
SameLow self t =
    ((s : ℕ) → t.slots 0 s ≡ self.slots 0 s)
    × ((l s : ℕ) → t.slots (suc l) s ≡ [])
    × (t.future ≡ [])
    × (t.now ≡ self.now)
    × (t.base ≡ self.base)

module _ (self : TimerWheel) (upper : (l s : ℕ) → self.slots (suc l) s ≡ [])
    (near : self.future ≡ []) where
  emptied :
      (l s : ℕ)
      → empty_slot (suc l) s self ≡ record self { slots = update_slot self.slots (suc l) s [] }
  unfolding empty_slot move_all
  emptied l s = rw (upper l s, empty_slot, move_all) refl

  low_kept : (l s s' : ℕ) → update_slot self.slots (suc l) s [] 0 s' ≡ self.slots 0 s'
  low_kept l s s' = ground arith

  upper_kept : (l s l' s' : ℕ) → update_slot self.slots (suc l) s [] (suc l') s' ≡ []
  upper_kept l s l' s' = ground (arith, upper l' s')

  empty_slot-SameLow : (l s : ℕ) → SameLow self (empty_slot (suc l) s self)
  empty_slot-SameLow l s = rw (emptied l s) (low_kept l s, upper_kept l s, near, refl, refl)

  empty_future-SameLow : SameLow self (empty_future self)
  unfolding empty_future move_all kept_future due_future
  empty_future-SameLow =
      rw (near, empty_future, move_all, kept_future, due_future)
        (λ s. refl, upper, refl, refl, refl)

SameLow-trans : (a b c : TimerWheel) → SameLow a b → SameLow b c → SameLow a c
SameLow-trans a b c h k = (λ s. k.0 s ∙ h.0 s, k.1, k.2, k.3 ∙ h.3, k.4 ∙ h.4)

cascade-SameLow :
    (left l : ℕ) (self : TimerWheel)
    → ((l' s : ℕ) → self.slots (suc l') s ≡ [])
    → self.future ≡ []
    → SameLow self (cascade_levels left (suc l) self)
unfolding cascade_levels
cascade-SameLow zero l self upper near = empty_future-SameLow self upper near
cascade-SameLow (suc left) l self upper near =
    let s = source_slot (suc l) self.now in
    let t = empty_slot (suc l) s self in
    let first : SameLow self t = empty_slot-SameLow self upper near l s in
    elim (Bool-cases (ltb s (num (suc l) - 1))) [
      | inl ends ↦ rw ends first
      | inr goes_on ↦ rw goes_on (
          SameLow-trans self t (cascade_levels left (suc (suc l)) t) first
            (cascade-SameLow left (suc l) t first.1 first.2))
    ]

abbrev pub Ticked : TimerWheel → TimerWheel → Type 0
Ticked self t =
    ((s : ℕ) → t.slots 0 s ≡ self.slots 0 s)
    × ((l s : ℕ) → t.slots (suc l) s ≡ [])
    × (t.future ≡ [])
    × (t.now ≡ self.now + 1)
    × (t.base ≡ (if self.now % 1024 == 1023 then (self.base + 1024) % 2 ^ 64 else self.base))

pub next_tick-Ticked :
    (self : TimerWheel)
    → ((l s : ℕ) → self.slots (suc l) s ≡ [])
    → self.future ≡ []
    → Ticked self (next_tick self)
unfolding next_tick timer_wheel_cascade
next_tick-Ticked self upper near = elim (Bool-cases (slot_of 0 self.now == num 0 - 1)) [
  | inl last ↦
      let same = cascade-SameLow 3 0 self upper near in
      let at : (self.now % 1024 == 1023) ≡ true = ground arith in
      rw (last, at) (same.0, same.1, same.2, omega (arith, same.3), omega (arith, same.4))
  | inr inside ↦
      let at : (self.now % 1024 == 1023) ≡ false = ground arith in
      rw (inside, at) (λ s. refl, upper, near, refl, refl)
]

pub fired_slots : (self : TimerWheel) (l s : ℕ) → (fire self).slots (suc l) s ≡ self.slots (suc l) s
unfolding fire
fired_slots self l s = ground arith

fired_low :
    (self : TimerWheel) (s : ℕ)
    → (fire self).slots 0 s ≡ (if s == self.now % 1024 then [] else self.slots 0 s)
unfolding fire
fired_low self s = let slot : self.now / 1 % 1024 ≡ self.now % 1024 = omega arith in rw slot refl

pub fire_keeps :
    (self : TimerWheel)
    → ((fire self).future ≡ self.future)
      × ((fire self).now ≡ self.now)
      × ((fire self).base ≡ self.base)
unfolding fire
fire_keeps self = (refl, refl, refl)

round-Due :
    (self : TimerWheel) (s : ℕ)
    → Due self.now s (self.slots 0 s)
    → Due (self.now + 1) s (if s == self.now % 1024 then [] else self.slots 0 s)
round-Due self s d = elim (Bool-cases (s == self.now % 1024)) [
  | inl here ↦ rw here tt
  | inr other ↦ rw other (Due-later self.now s (self.slots 0 s) (ground arith) d)
]

next_base :
    (now now' base base' : ℕ) {now'' base'' : ℕ}
    → now' ≡ now
    → base' ≡ base
    → base ≡ now / 1024 * 1024
    → now < 2 ^ 63
    → base'' ≡ (if now' % 1024 == 1023 then (base' + 1024) % 2 ^ 64 else base')
    → now'' ≡ now + 1
    → base'' ≡ now'' / 1024 * 1024
next_base now now' base base' e f h m k l = elim (Bool-cases (now' % 1024 == 1023)) [
  | inl last ↦ let at : now' % 1024 ≡ 1023 = ground arith in let k' = rw last at k in omega arith
  | inr inside ↦
      let at : now' % 1024 ≢ 1023 = ground arith in let k' = rw inside at k in omega arith
]

pub fire-Punctual : (self : TimerWheel) → IsShort self → Punctual (fire self).fired
unfolding fire
fire-Punctual self v =
    let slot : self.now / 1 % 1024 ≡ self.now % 1024 = omega arith in
    rw slot (
      Punctual-append self.fired (calls_at self.now (self.slots 0 (self.now % 1024))) v.on_time (
        Due-Punctual self.now (self.slots 0 (self.now % 1024))
          (v.due (self.now % 1024) (omega arith))))

pub round-IsShort :
    (self : TimerWheel) → self.now < 2 ^ 63 → IsShort self → IsShort (next_tick (fire self))
round-IsShort self m v =
    let k = fire_keeps self in
    let t =
      next_tick-Ticked (fire self) (λ l s. fired_slots self l s ∙ v.upper l s) (k.0 ∙ v.near) in
    let now_is : (next_tick (fire self)).now ≡ self.now + 1 = omega (arith, t.3, k.1) in
    record {
      due = λ s h. rw (now_is, t.0 s, fired_low self s) (round-Due self s (v.due s h));
      upper = t.1;
      near = t.2;
      base_is =
          next_base self.now (fire self).now self.base (fire self).base k.1 k.2 v.base_is m t.4
            now_is;
      counted = next_tick-IsCounted (fire self) (fire-IsCounted self v.counted);
      on_time = subst Punctual (sym (next_tick-Quiet (fire self)).0) (fire-Punctual self v);
    }
