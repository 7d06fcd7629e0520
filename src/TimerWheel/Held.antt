-- ===== src/TimerWheel/Held.antt =====
-- modules/dbparser/timerwheel.c: what a wheel holds, by the weight of each timer, and what the
-- moves of timers between slots do to it.
use syslog_ng_6_0_core.Common.{
  ℕ, zero, suc, ◌+◌, ◌-◌, ◌≤◌, ◌<◌, ◌≡◌, ◌≢◌, inl, inr, refl, ap, ◌∙◌, true, false, List, [], ◌∷◌,
  ◌==◌, Bool-cases, arith,
}
use syslog_ng_6_0_core.TimerWheel.{
  TwEntry, TimerWheel, num, slot_of, update_slot, prepend, is_beyond, place, move_all, empty_slot,
  kept_future, due_future, empty_future,
}

module _ (w : TwEntry → ℕ) where
  abbrev pub weigh : List TwEntry → ℕ
  weigh [] = 0
  weigh (e ∷ es) = w e + weigh es

  -- the first `n` slots of a level
  unfoldable pub weigh_slots : (ℕ → ℕ → List TwEntry) → ℕ → ℕ → ℕ
  weigh_slots slots l zero = 0
  weigh_slots slots l (suc n) = weigh (slots l n) + weigh_slots slots l n

  abbrev pub weigh_level : (ℕ → ℕ → List TwEntry) → ℕ → ℕ
  weigh_level slots l = weigh_slots slots l (num l)

  abbrev pub weigh_wheel : (ℕ → ℕ → List TwEntry) → ℕ
  weigh_wheel slots =
      weigh_level slots 0 + weigh_level slots 1 + weigh_level slots 2 + weigh_level slots 3

  abbrev pub held : TimerWheel → ℕ
  held self = weigh_wheel self.slots + weigh self.future

  other_level :
      (slots : ℕ → ℕ → List TwEntry) (l s l' n : ℕ) (es : List TwEntry)
      → (l' == l) ≡ false
      → weigh_slots (update_slot slots l s es) l' n ≡ weigh_slots slots l' n
  unfolding weigh_slots
  other_level slots l s l' zero es h = refl
  other_level slots l s l' (suc n) es h = rw (h, other_level slots l s l' n es h) refl

  slots_below :
      (slots : ℕ → ℕ → List TwEntry) (l s n : ℕ) (es : List TwEntry)
      → n ≤ s
      → weigh_slots (update_slot slots l s es) l n ≡ weigh_slots slots l n
  unfolding weigh_slots
  slots_below slots l s zero es h = refl
  slots_below slots l s (suc n) es h =
      let same : (l == l) ≡ true = ground arith in
      let other : (n == s) ≡ false = ground arith in
      rw (same, other, slots_below slots l s n es (omega arith)) refl

  same_level :
      (slots : ℕ → ℕ → List TwEntry) (l s n : ℕ) (es : List TwEntry)
      → s < n
      → weigh_slots (update_slot slots l s es) l n + weigh (slots l s)
        ≡ weigh_slots slots l n + weigh es
  unfolding weigh_slots
  same_level slots l s zero es h = absurd (omega arith)
  same_level slots l s (suc n) es h = elim (Bool-cases (n == s)) [
    | inl here ↦
        let same : (l == l) ≡ true = ground arith in
        let at : n ≡ s = ground arith in
        let below = slots_below slots l s n es (omega arith) in
        rw (same, here, below) (omega (arith, ap (λ i. weigh (slots l i)) at))
    | inr elsewhere ↦
        let same : (l == l) ≡ true = ground arith in
        let rest = same_level slots l s n es (ground arith) in
        rw (same, elsewhere) (omega (arith, rest))
  ]

  -- a slot of one of the four levels gets another list
  pub weigh_update :
      (slots : ℕ → ℕ → List TwEntry) (l s : ℕ) (es : List TwEntry)
      → l < 4
      → s < num l
      → weigh_wheel (update_slot slots l s es) + weigh (slots l s) ≡ weigh_wheel slots + weigh es
  weigh_update slots zero s es h k = omega (
    arith,
    same_level slots 0 s (num 0) es k,
    other_level slots 0 s 1 (num 1) es refl,
    other_level slots 0 s 2 (num 2) es refl,
    other_level slots 0 s 3 (num 3) es refl,
  )
  weigh_update slots (suc zero) s es h k = omega (
    arith,
    other_level slots 1 s 0 (num 0) es refl,
    same_level slots 1 s (num 1) es k,
    other_level slots 1 s 2 (num 2) es refl,
    other_level slots 1 s 3 (num 3) es refl,
  )
  weigh_update slots (suc (suc zero)) s es h k = omega (
    arith,
    other_level slots 2 s 0 (num 0) es refl,
    other_level slots 2 s 1 (num 1) es refl,
    same_level slots 2 s (num 2) es k,
    other_level slots 2 s 3 (num 3) es refl,
  )
  weigh_update slots (suc (suc (suc zero))) s es h k = omega (
    arith,
    other_level slots 3 s 0 (num 0) es refl,
    other_level slots 3 s 1 (num 1) es refl,
    other_level slots 3 s 2 (num 2) es refl,
    same_level slots 3 s (num 3) es k,
  )
  weigh_update slots (suc (suc (suc (suc l)))) s es h k = absurd (omega arith)

  slot_in : (l t : ℕ) → l < 4 → slot_of l t < num l
  slot_in zero t h = omega arith
  slot_in (suc l) t h = omega arith

  pub prepend_weight :
      (l : ℕ) (self : TimerWheel) (e : TwEntry) → l < 4 → held (prepend l self e) ≡ held self + w e
  unfolding prepend
  prepend_weight l self e h =
      let s = slot_of l e.target in
      omega (arith, weigh_update self.slots l s (e ∷ self.slots l s) h (slot_in l e.target h))

  pub place_weight :
      (left l : ℕ) (self : TimerWheel) (e : TwEntry)
      → left + l ≡ 4
      → held (place left l self e) ≡ held self + w e
  unfolding place
  place_weight zero l self e h = omega arith
  place_weight (suc left) l self e h = elim (Bool-cases (is_beyond l self e)) [
    | inl beyond ↦ rw beyond (place_weight left (suc l) self e (omega arith))
    | inr near ↦ rw near (prepend_weight l self e (omega arith))
  ]

  pub move_all_weight :
      (l : ℕ) (self : TimerWheel) (es : List TwEntry)
      → l < 4
      → held (move_all l self es) ≡ held self + weigh es
  unfolding move_all
  move_all_weight l self [] h = omega arith
  move_all_weight l self (e ∷ es) h =
      omega (arith, move_all_weight l (prepend l self e) es h, prepend_weight l self e h)

  move_all_level :
      (l : ℕ) (self : TimerWheel) (es : List TwEntry) (l' s : ℕ)
      → l' ≢ l
      → (move_all l self es).slots l' s ≡ self.slots l' s
  unfolding move_all prepend
  move_all_level l self [] l' s h = refl
  move_all_level l self (e ∷ es) l' s h =
      let other : (l' == l) ≡ false = ground arith in
      move_all_level l (prepend l self e) es l' s h ∙ rw other refl

  pub empty_slot_weight :
      (l s : ℕ) (self : TimerWheel)
      → 0 < l
      → l < 4
      → s < num l
      → held (empty_slot l s self) ≡ held self
  unfolding empty_slot
  empty_slot_weight l s self p h k =
      let moved = move_all (l - 1) self (self.slots l s) in
      omega (
        arith,
        weigh_update moved.slots l s [] h k,
        move_all_weight (l - 1) self (self.slots l s) (omega arith),
        ap weigh (move_all_level (l - 1) self (self.slots l s) l s (omega arith)),
      )

  future_parts :
      (self : TimerWheel) (es : List TwEntry)
      → weigh (kept_future self es) + weigh (due_future self es) ≡ weigh es
  unfolding kept_future due_future
  future_parts self [] = omega arith
  future_parts self (e ∷ es) = ground (arith, future_parts self es)

  pub empty_future_weight : (self : TimerWheel) → held (empty_future self) ≡ held self
  unfolding empty_future
  empty_future_weight self = omega (
    arith,
    move_all_weight 3 (record self { future = kept_future self self.future })
        (due_future self self.future) (omega arith),
    future_parts self self.future,
  )
