-- ===== src/Filter/Negation.antt =====
-- lib/filter.c: what `comp` does to the evaluation of a node, and how the two operators relate.
use syslog_ng_6_0_core.Common.{
  ℕ, zero, suc, ◌≡◌, refl, sym, ap, Bool, true, false, not, Option, none, some, List, if◌then◌else◌,
  arith,
}
use mathlib.Core.Path.{fun_ext}
use mathlib.Core.Option
use syslog_ng_6_0_core.Common.Options.{◌>>=◌}
use syslog_ng_6_0_core.Filter.{
  LogMessage, FilterExprNode, fop_or, fop_and, fop_cmp, facility, level, regexp, match_value, call,
  netmask, tags, in_list, FilterCall, xor, Eval, negated_if, or_right, and_right, fop_or_eval,
  fop_and_eval, filter_call_eval, SockAddr, inet, unix, other, fop_cmp_eval, filter_facility_eval,
  filter_level_eval, filter_netmask_eval, filter_tags_eval, filter_in_list_eval, filter_re_eval,
  filter_match_eval, filter_re_eval_string, filter_expr_eval,
}

-- `comp = !comp`, as the grammar does for `not`
abbrev pub negate : FilterExprNode → FilterExprNode
negate (fop_or comp left right) = fop_or (not comp) left right
negate (fop_and comp left right) = fop_and (not comp) left right
negate (fop_cmp comp left right cmp_op) = fop_cmp (not comp) left right cmp_op
negate (facility comp valid) = facility (not comp) valid
negate (level comp valid) = level (not comp) valid
negate (regexp comp value_handle matcher) = regexp (not comp) value_handle matcher
negate (match_value comp value_handle matcher) = match_value (not comp) value_handle matcher
negate (call comp id) = call (not comp) id
negate (netmask comp address mask) = netmask (not comp) address mask
negate (tags comp ids) = tags (not comp) ids
negate (in_list comp value_handle tree) = in_list (not comp) value_handle tree

abbrev pub opposite : Option (Bool × LogMessage) → Option (Bool × LogMessage)
opposite none = none
opposite (some (res, msg)) = some (not res, msg)

xor_flip : (b comp : Bool) → xor (not b) (not comp) ≡ xor b comp
xor_flip true true = refl
xor_flip true false = refl
xor_flip false true = refl
xor_flip false false = refl

xor-not : (b comp : Bool) → xor b (not comp) ≡ not (xor b comp)
xor-not true true = refl
xor-not true false = refl
xor-not false true = refl
xor-not false false = refl

if_not : (b x y : Bool) → (if b then not x else not y) ≡ not (if b then x else y)
if_not true x y = refl
if_not false x y = refl

bind_flip :
    (m : Option (Bool × LogMessage)) (comp : Bool)
    → (m >>= negated_if comp) ≡ (opposite m >>= negated_if (not comp))
bind_flip none comp = refl
bind_flip (some (b, msg)) comp = rw xor_flip

bind_not :
    (m : Option (Bool × LogMessage)) (comp : Bool)
    → (m >>= negated_if (not comp)) ≡ opposite (m >>= negated_if comp)
bind_not none comp = refl
bind_not (some (b, msg)) comp = rw xor-not

or_not :
    (m : Option (Bool × LogMessage)) (right : Eval) (comp : Bool)
    → (m >>= or_right (not comp) right) ≡ opposite (m >>= or_right comp right)
or_not none right comp = refl
or_not (some (true, msg)) right comp = rw xor-not
or_not (some (false, msg)) right comp = bind_not (right msg) comp

and_not :
    (m : Option (Bool × LogMessage)) (right : Eval) (comp : Bool)
    → (m >>= and_right (not comp) right) ≡ opposite (m >>= and_right comp right)
and_not none right comp = refl
and_not (some (true, msg)) right comp = bind_not (right msg) comp
and_not (some (false, msg)) right comp = rw xor-not

call_not :
    (eval : Option Eval) (comp : Bool) (msg : LogMessage)
    → filter_call_eval (not comp) eval msg ≡ opposite (filter_call_eval comp eval msg)
unfolding filter_call_eval
call_not none comp msg = rw xor-not
call_not (some eval) comp msg = bind_not (eval msg) comp

netmask_not :
    (comp : Bool) (address mask : ℕ) (saddr : Option SockAddr) (msg : LogMessage)
    → filter_netmask_eval (not comp) address mask (record msg { saddr = saddr })
      ≡ not (filter_netmask_eval comp address mask (record msg { saddr = saddr }))
unfolding filter_netmask_eval
netmask_not comp address mask none msg = rw xor-not
netmask_not comp address mask (some (inet a)) msg = rw xor-not
netmask_not comp address mask (some unix) msg = rw xor-not
netmask_not comp address mask (some other) msg = refl

-- The right side under `opposite`, where the left one has been negated too.
or_and :
    (m : Option (Bool × LogMessage)) (right : Eval) (comp : Bool)
    → (m >>= or_right comp right)
      ≡ (opposite m >>= and_right (not comp) (λ msg. opposite (right msg)))
or_and none right comp = refl
or_and (some (true, msg)) right comp = ap (λ b. some (b, msg)) (sym (xor_flip true comp))
or_and (some (false, msg)) right comp = bind_flip (right msg) comp

module _ (log_matcher_match : ℕ → LogMessage → ℕ → List ℕ → Bool × LogMessage)
    (log_template_format : ℕ → LogMessage → List ℕ) (calls : ℕ → FilterCall) where
  abbrev eval : ℕ → FilterExprNode → LogMessage → Option (Bool × LogMessage)
  eval = filter_expr_eval log_matcher_match log_template_format calls

  -- C
  pub eval-negate :
      (n : ℕ) (expr : FilterExprNode) (msg : LogMessage)
      → filter_expr_eval log_matcher_match log_template_format calls n (negate expr) msg
        ≡ opposite (filter_expr_eval log_matcher_match log_template_format calls n expr msg)
  unfolding filter_expr_eval fop_or_eval fop_and_eval fop_cmp_eval filter_facility_eval
      filter_level_eval filter_tags_eval filter_in_list_eval filter_re_eval filter_match_eval
      filter_re_eval_string
  eval-negate n (fop_or comp left right) msg = or_not (eval n left msg) (eval n right) comp
  eval-negate n (fop_and comp left right) msg = and_not (eval n left msg) (eval n right) comp
  eval-negate n (fop_cmp comp left right cmp_op) msg = rw xor-not
  eval-negate n (facility comp valid) msg = simp (xor-not, if_not)
  eval-negate n (level comp valid) msg = rw xor-not
  eval-negate n (regexp comp value_handle matcher) msg = rw xor-not
  eval-negate n (match_value comp value_handle matcher) msg = ground arith
  eval-negate n (netmask comp address mask) msg =
      ap (λ b. some (b, msg)) (netmask_not comp address mask msg.saddr msg)
  eval-negate n (tags comp ids) msg = rw xor-not
  eval-negate n (in_list comp value_handle tree) msg = rw xor-not
  eval-negate zero (call comp id) msg = refl
  eval-negate (suc n) (call comp id) msg =
      call_not (Option.map (eval n) (calls id).filter_expr) comp msg

  -- On every kind of expression, an OR does what the negated AND of the two negated sides does:
  -- the same result, the same change of the message, and the same sides evaluated.
  pub de_morgan :
      (n : ℕ) (comp : Bool) (left right : FilterExprNode) (msg : LogMessage)
      → filter_expr_eval log_matcher_match log_template_format calls n (fop_or comp left right) msg
        ≡ filter_expr_eval log_matcher_match log_template_format calls n
            (fop_and (not comp) (negate left) (negate right))
            msg
  unfolding filter_expr_eval fop_or_eval fop_and_eval
  de_morgan n comp left right msg =
      rw (eval-negate n left msg, fun_ext (eval-negate n right))
        (or_and (eval n left msg) (eval n right) comp)
