-- ===== src/Filter/Evaluate.antt =====
-- lib/filter.c: the evaluation of an expression that has been initialised.
use syslog_ng_6_0_core.Common.{
  ℕ, zero, suc, ◌≡◌, refl, subst, Bool, true, false, Option, none, some, List,
}
use mathlib.Core.Option
use syslog_ng_6_0_core.Common.Options.{◌>>=◌}
use syslog_ng_6_0_core.Filter.{
  LogMessage, FilterExprNode, fop_or, fop_and, call, FilterCall, Eval, negated_if, or_right,
  and_right, fop_or_eval, fop_and_eval, filter_call_eval, filter_expr_eval, queued,
  log_filter_pipe_queue,
}
use syslog_ng_6_0_core.Filter.Setup.{FilterState, filter_expr_init}
use syslog_ng_6_0_core.Filter.Ready.{Ready, IsConsistent, Sound}
use syslog_ng_6_0_core.Filter.Resolve.{init-Sound}

-- Both evaluations return, and the same.
abbrev Agree : Option (Bool × LogMessage) → Option (Bool × LogMessage) → Type 0
Agree none b = ⊥
Agree (some r) b = b ≡ some r

Agree-bind :
    (a b : Option (Bool × LogMessage)) (f g : Bool × LogMessage → Option (Bool × LogMessage))
    → Agree a b
    → ((r : Bool × LogMessage) → Agree (f r) (g r))
    → Agree (a >>= f) (b >>= g)
Agree-bind none b f g h k = absurd h
Agree-bind (some r) b f g h k = rw h (k r)

negated_if-Agree :
    (comp : Bool) (r : Bool × LogMessage) → Agree (negated_if comp r) (negated_if comp r)
negated_if-Agree comp (b, msg) = refl

or_continues :
    (comp : Bool) (right right' : Eval)
    → ((m : LogMessage) → Agree (right m) (right' m))
    → (r : Bool × LogMessage) → Agree (or_right comp right r) (or_right comp right' r)
or_continues comp right right' k (true, m) = refl
or_continues comp right right' k (false, m) =
    Agree-bind (right m) (right' m) (negated_if comp) (negated_if comp) (k m)
      (negated_if-Agree comp)

fop_or_eval-Agree :
    (comp : Bool) (left left' right right' : Eval) (msg : LogMessage)
    → Agree (left msg) (left' msg)
    → ((m : LogMessage) → Agree (right m) (right' m))
    → Agree (fop_or_eval comp left right msg) (fop_or_eval comp left' right' msg)
unfolding fop_or_eval
fop_or_eval-Agree comp left left' right right' msg h k =
    Agree-bind (left msg) (left' msg) (or_right comp right) (or_right comp right') h
      (or_continues comp right right' k)

and_continues :
    (comp : Bool) (right right' : Eval)
    → ((m : LogMessage) → Agree (right m) (right' m))
    → (r : Bool × LogMessage) → Agree (and_right comp right r) (and_right comp right' r)
and_continues comp right right' k (false, m) = refl
and_continues comp right right' k (true, m) =
    Agree-bind (right m) (right' m) (negated_if comp) (negated_if comp) (k m)
      (negated_if-Agree comp)

fop_and_eval-Agree :
    (comp : Bool) (left left' right right' : Eval) (msg : LogMessage)
    → Agree (left msg) (left' msg)
    → ((m : LogMessage) → Agree (right m) (right' m))
    → Agree (fop_and_eval comp left right msg) (fop_and_eval comp left' right' msg)
unfolding fop_and_eval
fop_and_eval-Agree comp left left' right right' msg h k =
    Agree-bind (left msg) (left' msg) (and_right comp right) (and_right comp right') h
      (and_continues comp right right' k)

-- every filter() with the expression of its rule
abbrev pub by_rules : (ℕ → Option ℕ) → (ℕ → FilterExprNode) → (ℕ → FilterCall) → ℕ → FilterCall
by_rules filters expr_of calls i = record (calls i) {
  filter_expr = Option.map expr_of (filters (calls i).rule);
}

module _ (log_matcher_match : ℕ → LogMessage → ℕ → List ℕ → Bool × LogMessage)
    (log_template_format : ℕ → LogMessage → List ℕ) (filters : ℕ → Option ℕ)
    (expr_of : ℕ → FilterExprNode) where
  abbrev eval : (ℕ → FilterCall) → ℕ → FilterExprNode → LogMessage → Option (Bool × LogMessage)
  eval = filter_expr_eval log_matcher_match log_template_format

  Ready-Agree :
      (calls : ℕ → FilterCall) (n : ℕ) (expr : FilterExprNode) (msg : LogMessage)
      → Ready filters expr_of calls n expr
      → Agree (eval calls n expr msg) (eval (by_rules filters expr_of calls) n expr msg)
  unfolding filter_expr_eval filter_call_eval
  Ready-Agree calls n (fop_or comp left right) msg r =
      fop_or_eval-Agree comp (eval calls n left) (eval (by_rules filters expr_of calls) n left)
        (eval calls n right) (eval (by_rules filters expr_of calls) n right) msg
        (Ready-Agree calls n left msg r.0) (λ m. Ready-Agree calls n right m r.1)
  Ready-Agree calls n (fop_and comp left right) msg r =
      fop_and_eval-Agree comp (eval calls n left) (eval (by_rules filters expr_of calls) n left)
        (eval calls n right) (eval (by_rules filters expr_of calls) n right) msg
        (Ready-Agree calls n left msg r.0) (λ m. Ready-Agree calls n right m r.1)
  Ready-Agree calls zero (call comp id) msg r = absurd r
  Ready-Agree calls (suc n) (call comp id) msg (p, found, set, deep) =
      rw (set, found)
        (Agree-bind (eval calls n (expr_of p) msg)
          (eval (by_rules filters expr_of calls) n (expr_of p) msg) (negated_if comp)
          (negated_if comp) (Ready-Agree calls n (expr_of p) msg deep) (negated_if-Agree comp))
  Ready-Agree calls n _ msg r = refl

  Agree-some :
      (a b : Option (Bool × LogMessage))
      → Agree a b
      → (r : Bool × LogMessage) × (a ≡ some r) × (b ≡ some r)
  Agree-some none b h = absurd h
  Agree-some (some r) b h = (r, refl, h)

  -- Where the initialisation of an expression succeeds on a state in which the nodes of filter()
  -- have no expression but that of their rule and the pipes that are initialised can be evaluated,
  -- the evaluation of the expression returns on every message, with the result that each filter()
  -- has if it stands for the expression of its rule, and the pipe forwards the message or drops it
  -- by that result.
  pub init_evaluates :
      (n : ℕ) (expr : FilterExprNode) (s t : FilterState) (msg : LogMessage) (matched : Option Bool)
      → IsConsistent filters expr_of s
      → filter_expr_init filters expr_of n expr s ≡ some (true, t)
      → (depth : ℕ) × (r : Bool × LogMessage) × (filter_expr_eval log_matcher_match
            log_template_format t.calls depth expr msg
          ≡ some r)
        × (filter_expr_eval log_matcher_match log_template_format
              (by_rules filters expr_of t.calls)
              depth
              expr
              msg
            ≡ some r)
        × (log_filter_pipe_queue
              (filter_expr_eval log_matcher_match log_template_format t.calls depth expr)
              msg
              matched
            ≡ some (queued matched r))
  unfolding log_filter_pipe_queue
  init_evaluates n expr s t msg matched c e =
      let sound : Sound filters expr_of expr s (some (true, t)) =
        subst (Sound filters expr_of expr s) e (init-Sound filters expr_of n expr s c) in
      let (depth, ready) = sound.2 in
      let (r, ran, same) =
        Agree-some (eval t.calls depth expr msg)
          (eval (by_rules filters expr_of t.calls) depth expr msg)
          (Ready-Agree t.calls depth expr msg ready) in
      (depth, r, ran, same, rw ran refl)
