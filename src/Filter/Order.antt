-- ===== src/Filter/Order.antt =====
-- lib/filter.c: the operators of comparisons, by the order of the two texts.
use syslog_ng_6_0_core.Common.{
  ℕ, ◌<◌, ◌≡◌, ◌⊎◌, ◌↔◌, ◌≢◌, inl, inr, refl, sym, ap, subst, Bool, true, false, some, List, [],
  ◌∷◌, arith,
}
use Prim.Native.Nat.{Ordering, compare}
use native.Mathlib.Omega.{compare-lt, compare-eq, compare-gt}
use syslog_ng_6_0_core.Common.Words.{bit}
use syslog_ng_6_0_core.Common.Text.{c_str, strcmp}
use syslog_ng_6_0_core.Filter.{
  LogMessage, FilterCall, fop_cmp_result, fop_cmp_order, fop_cmp_eval, filter_expr_eval,
}
use syslog_ng_6_0_core.Filter.Build.{
  CmpToken, kw_lt, kw_le, kw_eq, kw_ne, kw_ge, kw_gt, kw_num_lt, kw_num_le, kw_num_eq, kw_num_ne,
  kw_num_ge, kw_num_gt, cmp_op_of, fop_cmp_new,
}

-- The order of a dictionary on strings of bytes.
abbrev pub Before : List ℕ → List ℕ → Type 0
Before xs [] = ⊥
Before [] (y ∷ ys) = Unit {0}
Before (x ∷ xs) (y ∷ ys) = (x < y) ⊎ ((x ≡ y) × Before xs ys)

-- what an operator promises of its two texts
abbrev pub Holds : CmpToken → List ℕ → List ℕ → Type 0
Holds kw_lt l r = Before l r
Holds kw_le l r = Before l r ⊎ (l ≡ r)
Holds kw_eq l r = l ≡ r
Holds kw_ne l r = Before l r ⊎ Before r l
Holds kw_ge l r = Before r l ⊎ (l ≡ r)
Holds kw_gt l r = Before r l
Holds kw_num_lt l r = Before l r
Holds kw_num_le l r = Before l r ⊎ (l ≡ r)
Holds kw_num_eq l r = l ≡ r
Holds kw_num_ne l r = Before l r ⊎ Before r l
Holds kw_num_ge l r = Before r l ⊎ (l ≡ r)
Holds kw_num_gt l r = Before r l

abbrev Sorted : Ordering → List ℕ → List ℕ → Type 0
Sorted Ordering.lt l r = Before l r
Sorted Ordering.eq l r = l ≡ r
Sorted Ordering.gt l r = Before r l

Before-irrefl : (l : List ℕ) → Before l l → ⊥
Before-irrefl [] h = h
Before-irrefl (x ∷ xs) (inl p) = absurd (omega arith)
Before-irrefl (x ∷ xs) (inr p) = Before-irrefl xs p.1

Before-asym : (l r : List ℕ) → Before l r → Before r l → ⊥
Before-asym l [] h k = h
Before-asym [] (y ∷ ys) h k = k
Before-asym (x ∷ xs) (y ∷ ys) (inl p) (inl q) = absurd (omega arith)
Before-asym (x ∷ xs) (y ∷ ys) (inl p) (inr q) = absurd (omega arith)
Before-asym (x ∷ xs) (y ∷ ys) (inr p) (inl q) = absurd (omega arith)
Before-asym (x ∷ xs) (y ∷ ys) (inr p) (inr q) = Before-asym xs ys p.1 q.1

Sorted-∷ : (o : Ordering) (x : ℕ) (xs ys : List ℕ) → Sorted o xs ys → Sorted o (x ∷ xs) (x ∷ ys)
Sorted-∷ Ordering.lt x xs ys h = inr (refl, h)
Sorted-∷ Ordering.eq x xs ys h = ap (◌∷◌ x) h
Sorted-∷ Ordering.gt x xs ys h = inr (refl, h)

module _ (x y : ℕ) (xs ys : List ℕ) (tails : Sorted (strcmp xs ys) xs ys) where
  first_bytes :
      (o : Ordering)
      → compare x y ≡ o
      → Sorted
          (elim o [
            | Ordering.lt ↦ Ordering.lt
            | Ordering.eq ↦ strcmp xs ys
            | Ordering.gt ↦ Ordering.gt
          ])
          (x ∷ xs)
          (y ∷ ys)
  first_bytes Ordering.lt e = inl (compare-lt x y e)
  first_bytes Ordering.eq e = rw (compare-eq x y e) (Sorted-∷ (strcmp xs ys) y xs ys tails)
  first_bytes Ordering.gt e = inl (compare-gt x y e)

strcmp-Sorted : (l r : List ℕ) → Sorted (strcmp l r) l r
unfolding strcmp
strcmp-Sorted [] [] = refl
strcmp-Sorted [] (y ∷ ys) = tt
strcmp-Sorted (x ∷ xs) [] = tt
strcmp-Sorted (x ∷ xs) (y ∷ ys) = first_bytes x y xs ys (strcmp-Sorted xs ys) (compare x y) refl

module _ (l r : List ℕ) where
  -- the text comes before the other, is the other, or comes behind it, and only one of these
  abbrev Is : Ordering → Type 0
  Is o = elim o [
    | Ordering.lt ↦ Before l r × (¬ Before r l) × (l ≢ r)
    | Ordering.eq ↦ (l ≡ r) × (¬ Before l r) × (¬ Before r l)
    | Ordering.gt ↦ Before r l × (¬ Before l r) × (l ≢ r)
  ]

  Sorted-Is : (o : Ordering) → Sorted o l r → Is o
  Sorted-Is Ordering.lt h =
      (h, Before-asym l r h, λ e. Before-irrefl l (subst (Before l) (sym e) h))
  Sorted-Is Ordering.eq h = (
    h,
    λ b. Before-irrefl l (subst (Before l) (sym h) b),
    λ b. Before-irrefl l (subst (λ t. Before t l) (sym h) b),
  )
  Sorted-Is Ordering.gt h = (h, Before-asym r l h, λ e. Before-irrefl r (subst (Before r) e h))

  met {ℓ} : {P : Type ℓ} → P → (true ≡ true) ↔ P
  met p = (λ e. p, λ q. refl)

  unmet {ℓ} : {P : Type ℓ} → (P → ⊥) → (false ≡ true) ↔ P
  unmet n = (λ e. cc, λ p. absurd (n p))

  neither {ℓ κ} : {P : Type ℓ} {Q : Type κ} → (P → ⊥) → (Q → ⊥) → P ⊎ Q → ⊥
  neither f g (inl p) = f p
  neither f g (inr q) = g q

  lt_met : (o : Ordering) → Is o → (fop_cmp_result 2 o ≡ true) ↔ (Before l r)
  unfolding fop_cmp_result bit
  lt_met Ordering.lt h = met h.0
  lt_met Ordering.eq h = unmet h.1
  lt_met Ordering.gt h = unmet h.1

  le_met : (o : Ordering) → Is o → (fop_cmp_result 3 o ≡ true) ↔ (Before l r ⊎ (l ≡ r))
  unfolding fop_cmp_result bit
  le_met Ordering.lt h = met (inl h.0)
  le_met Ordering.eq h = met (inr h.0)
  le_met Ordering.gt h = unmet (neither h.1 h.2)

  eq_met : (o : Ordering) → Is o → (fop_cmp_result 1 o ≡ true) ↔ (l ≡ r)
  unfolding fop_cmp_result bit
  eq_met Ordering.lt h = unmet h.2
  eq_met Ordering.eq h = met h.0
  eq_met Ordering.gt h = unmet h.2

  ne_met : (o : Ordering) → Is o → (fop_cmp_result 0 o ≡ true) ↔ (Before l r ⊎ Before r l)
  unfolding fop_cmp_result bit
  ne_met Ordering.lt h = met (inl h.0)
  ne_met Ordering.eq h = unmet (neither h.1 h.2)
  ne_met Ordering.gt h = met (inr h.0)

  ge_met : (o : Ordering) → Is o → (fop_cmp_result 5 o ≡ true) ↔ (Before r l ⊎ (l ≡ r))
  unfolding fop_cmp_result bit
  ge_met Ordering.lt h = unmet (neither h.1 h.2)
  ge_met Ordering.eq h = met (inr h.0)
  ge_met Ordering.gt h = met (inl h.0)

  gt_met : (o : Ordering) → Is o → (fop_cmp_result 4 o ≡ true) ↔ (Before r l)
  unfolding fop_cmp_result bit
  gt_met Ordering.lt h = unmet h.1
  gt_met Ordering.eq h = unmet h.2
  gt_met Ordering.gt h = met h.0

  -- where a text stands to another decides each operator
  decided :
      (op : CmpToken) (o : Ordering)
      → Is o
      → (fop_cmp_result (cmp_op_of op 0) o ≡ true) ↔ Holds op l r
  unfolding cmp_op_of
  decided kw_lt o h = lt_met o h
  decided kw_le o h = le_met o h
  decided kw_eq o h = eq_met o h
  decided kw_ne o h = ne_met o h
  decided kw_ge o h = ge_met o h
  decided kw_gt o h = gt_met o h
  decided kw_num_lt o h = lt_met o h
  decided kw_num_le o h = le_met o h
  decided kw_num_eq o h = eq_met o h
  decided kw_num_ne o h = ne_met o h
  decided kw_num_ge o h = ge_met o h
  decided kw_num_gt o h = gt_met o h

-- no operator sets the bit of FCMP_NUM
not_numeric : (op : CmpToken) → bit (cmp_op_of op 0) 4 ≡ false
unfolding cmp_op_of bit
not_numeric kw_lt = refl
not_numeric kw_le = refl
not_numeric kw_eq = refl
not_numeric kw_ne = refl
not_numeric kw_ge = refl
not_numeric kw_gt = refl
not_numeric kw_num_lt = refl
not_numeric kw_num_le = refl
not_numeric kw_num_eq = refl
not_numeric kw_num_ne = refl
not_numeric kw_num_ge = refl
not_numeric kw_num_gt = refl

order_by_strcmp :
    (op : CmpToken) (l r : List ℕ) → fop_cmp_order (cmp_op_of op 0) l r ≡ strcmp (c_str l) (c_str r)
unfolding fop_cmp_order
order_by_strcmp op l r = rw (not_numeric op)

module _ (log_matcher_match : ℕ → LogMessage → ℕ → List ℕ → Bool × LogMessage)
    (log_template_format : ℕ → LogMessage → List ℕ) (calls : ℕ → FilterCall) where
  -- A comparison made for an operator matches exactly where its two texts, up to a NUL, stand in
  -- that relation in the order of a dictionary, and the numeric operators do what those of strings
  -- do.
  pub cmp_by_order :
      (n left right : ℕ) (op : CmpToken) (msg : LogMessage)
      → (filter_expr_eval log_matcher_match log_template_format calls n
            (fop_cmp_new left right op)
            msg
          ≡ some (true, msg))
        ↔ Holds op (c_str (log_template_format left msg)) (c_str (log_template_format right msg))
  unfolding filter_expr_eval fop_cmp_eval fop_cmp_new
  cmp_by_order n left right op msg =
      let l = c_str (log_template_format left msg) in
      let r = c_str (log_template_format right msg) in
      let d = decided l r op (strcmp l r) (Sorted-Is l r (strcmp l r) (strcmp-Sorted l r)) in
      rw (order_by_strcmp op (log_template_format left msg) (log_template_format right msg))
        (λ e. d.0 cc, λ h. ap (λ b. some (b, msg)) (d.1 h))
