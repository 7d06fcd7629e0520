-- ===== src/LogQueueFifo/Weights.antt =====
-- The weight of the messages that a queue of lib/logqueue-fifo.c holds or has acknowledged.
use mathlib.Core.List.{reverse-cons}
use mathlib.Core.Option.{some-injective}
use syslog_ng_6_0_core.Common.{
  ℕ, zero, suc, ◌+◌, ◌-◌, ◌≡◌, refl, ap, ◌∙◌, some, List, [], ◌∷◌, ◌++◌, reverse, arith, get_elem?,
  set, ltb, Bool-cases, inl, inr,
}
use syslog_ng_6_0_core.AckTracker.{AckType, processed}
use syslog_ng_6_0_core.LogQueueFifo.{
  LogQueueFifo, Node, Input, drop_oldest, ack_oldest, inputs_items, counter_add, drop_type,
}

module _ (f : Node → ℕ) where
  abbrev pub weigh : List Node → ℕ
  weigh [] = 0
  weigh (x ∷ xs) = f x + weigh xs

  abbrev pub weigh_acks : List (Node × AckType) → ℕ
  weigh_acks [] = 0
  weigh_acks (x ∷ xs) = f x.0 + weigh_acks xs

  pub weigh-append : (xs ys : List Node) → weigh (xs ++ ys) ≡ weigh xs + weigh ys
  weigh-append [] ys = omega arith
  weigh-append (x ∷ xs) ys = omega (arith, weigh-append xs ys)

  pub weigh_acks-concat :
      (xs : List (Node × AckType)) (x : Node × AckType)
      → weigh_acks (xs ++ x ∷ []) ≡ weigh_acks xs + f x.0
  weigh_acks-concat [] y = omega arith
  weigh_acks-concat (x ∷ xs) y = omega (arith, weigh_acks-concat xs y)

  pub weigh-reverse : (xs : List Node) → weigh (reverse xs) ≡ weigh xs
  weigh-reverse [] = refl
  weigh-reverse (x ∷ xs) =
      ap weigh (reverse-cons x xs)
      ∙ omega (arith, weigh-append (reverse xs) (x ∷ []), weigh-reverse xs)

  -- the weight of all messages that the queue holds or has acknowledged
  abbrev pub holds : LogQueueFifo → ℕ
  holds q =
      weigh (inputs_items q.qoverflow_input)
      + weigh q.qoverflow_wait
      + weigh q.qoverflow_output
      + weigh q.qbacklog
      + weigh_acks q.acks

  pub weigh-set :
      (is : List Input) (t : ℕ) (i j : Input)
      → get_elem? is t ≡ some i
      → weigh (inputs_items (set is t j)) + weigh i.items ≡ weigh (inputs_items is) + weigh j.items
  weigh-set [] t i j e = cc
  weigh-set (x ∷ is) zero i j e =
      let same : x ≡ i = some-injective _ _ e in
      omega (
        arith,
        weigh-append x.items (inputs_items is),
        weigh-append j.items (inputs_items is),
        ap (λ (k : Input). weigh k.items) same,
      )
  weigh-set (x ∷ is) (suc t) i j e = omega (
    arith,
    weigh-append x.items (inputs_items (set is t j)),
    weigh-append x.items (inputs_items is),
    weigh-set is t i j e,
  )

  pub drop_oldest-weigh :
      (n : ℕ) (items : List Node) (len dropped : ℕ) (acks : List (Node × AckType))
      → weigh (drop_oldest n items len dropped acks).items
          + weigh_acks (drop_oldest n items len dropped acks).acks
        ≡ weigh items + weigh_acks acks
  unfolding drop_oldest
  drop_oldest-weigh zero items len dropped acks = refl
  drop_oldest-weigh (suc n) [] len dropped acks = refl
  drop_oldest-weigh (suc n) (x ∷ items) len dropped acks = omega (
    arith,
    drop_oldest-weigh n items (len - 1) (counter_add dropped 1) (acks ++ (x, drop_type x) ∷ []),
    weigh_acks-concat acks (x, drop_type x),
  )

  pub ack_oldest-weigh :
      (n : ℕ) (items : List Node) (len : ℕ) (acks : List (Node × AckType))
      → weigh (ack_oldest n items len acks).items + weigh_acks (ack_oldest n items len acks).acks
        ≡ weigh items + weigh_acks acks
  unfolding ack_oldest
  ack_oldest-weigh zero items len acks = refl
  ack_oldest-weigh (suc n) [] len acks = refl
  ack_oldest-weigh (suc n) (x ∷ items) len acks = elim (Bool-cases (ltb 0 len)) [
    | inl more ↦ rw more (
        omega (
          arith,
          ack_oldest-weigh n items (len - 1) (acks ++ (x, processed) ∷ []),
          weigh_acks-concat acks (x, processed),
        ))
    | inr stop ↦ rw stop
  ]
