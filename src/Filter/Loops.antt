-- ===== src/Filter/Loops.antt =====
-- lib/filter.c: the search for loops between the rules that filter() names ends.
use syslog_ng_6_0_core.Common.{
  ℕ, zero, suc, ◌+◌, ◌≤◌, ◌<◌, ◌≡◌, inl, inr, refl, sym, ap, ◌∙◌, Bool, true, false, Option, none,
  some, ◌==◌, Bool-cases, Option-cases, if◌then◌else◌, arith,
}
use syslog_ng_6_0_core.Common.Options.{◌>>=◌}
use syslog_ng_6_0_core.Filter.{FilterExprNode, fop_or, fop_and, call, FilterCall}
use syslog_ng_6_0_core.Filter.Setup.{
  FilterState, set_visited, log_pipe_init, resolved, Init, init_right, fop_init, filter_call_init,
  filter_expr_init,
}

-- the nodes of filter() of an expression have numbers below a bound
abbrev pub Within : ℕ → FilterExprNode → Type 0
Within k (fop_or comp left right) = Within k left × Within k right
Within k (fop_and comp left right) = Within k left × Within k right
Within k (call comp id) = id < k
Within k _ = Unit {0}

-- how many nodes of filter() below a bound are not being visited
abbrev pub unvisited : ℕ → (ℕ → FilterCall) → ℕ
unvisited zero calls = 0
unvisited (suc k) calls = (if (calls k).visited then 0 else 1) + unvisited k calls

abbrev SameVisits : FilterState → FilterState → Type 0
SameVisits s t = (i : ℕ) → (t.calls i).visited ≡ (s.calls i).visited

-- the initialisation returns, and where it succeeds all visits have ended
abbrev Finishes : FilterState → Option (Bool × FilterState) → Type 0
Finishes s none = ⊥
Finishes s (some (true, t)) = SameVisits s t
Finishes s (some (false, t)) = Unit {0}

unvisited_same :
    (k : ℕ) (s t : FilterState) → SameVisits s t → unvisited k t.calls ≡ unvisited k s.calls
unvisited_same zero s t h = refl
unvisited_same (suc k) s t h = rw (h k, unvisited_same k s t h)

unvisited_above :
    (k id : ℕ) (s : FilterState)
    → k ≤ id
    → unvisited k (set_visited s id true).calls ≡ unvisited k s.calls
unvisited_above zero id s h = refl
unvisited_above (suc k) id s h = ground (arith, unvisited_above k id s (omega arith))

unvisited_enter :
    (k id : ℕ) (s : FilterState)
    → id < k
    → (s.calls id).visited ≡ false
    → unvisited k (set_visited s id true).calls < unvisited k s.calls
unvisited_enter zero id s h v = absurd (omega arith)
unvisited_enter (suc k) id s h v = elim (Bool-cases (k == id)) [
  | inl same ↦
      let e : k ≡ id = ground arith in
      let fresh : (s.calls k).visited ≡ false = ap (λ i. (s.calls i).visited) e ∙ v in
      ground (arith, unvisited_above k id s (omega arith))
  | inr other ↦ ground (arith, unvisited_enter k id s (ground arith) v)
]

unvisited-le : (k : ℕ) (calls : ℕ → FilterCall) → unvisited k calls ≤ k
unvisited-le zero calls = omega arith
unvisited-le (suc k) calls = ground (arith, unvisited-le k calls)

Finishes-some :
    (s : FilterState) (m : Option (Bool × FilterState))
    → Finishes s m
    → (r : Bool × FilterState) × (m ≡ some r)
Finishes-some s none h = absurd h
Finishes-some s (some r) h = (r, refl)

Finishes-trans :
    (s t : FilterState) (m : Option (Bool × FilterState))
    → SameVisits s t
    → Finishes t m
    → Finishes s m
Finishes-trans s t (some (true, u)) h k = λ i. k i ∙ h i
Finishes-trans s t (some (false, u)) h k = tt
Finishes-trans s t none h k = k

Finishes-bind :
    (s : FilterState) (m : Option (Bool × FilterState)) (right : Init)
    → Finishes s m
    → ((t : FilterState) → SameVisits s t → Finishes t (right t))
    → Finishes s (m >>= init_right right)
Finishes-bind s (some (true, t)) right h k = Finishes-trans s t (right t) h (k t h)
Finishes-bind s (some (false, t)) right h k = tt
Finishes-bind s none right h k = h

module _ (filters : ℕ → Option ℕ) (expr_of : ℕ → FilterExprNode) where
  -- a visit that succeeds is over
  resolved-Finishes :
      (s : FilterState) (id : ℕ) (expr : FilterExprNode) (m : Option (Bool × FilterState))
      → (s.calls id).visited ≡ false
      → Finishes (set_visited s id true) m
      → Finishes s (m >>= λ r. some (resolved id expr r))
  unfolding resolved
  resolved-Finishes s id expr (some (true, t)) v h = λ i. elim (Bool-cases (i == id)) [
    | inl same ↦
        let e : i ≡ id = ground arith in rw same (sym (ap (λ j. (s.calls j).visited) e ∙ v))
    | inr other ↦ rw other (h i ∙ rw other)
  ]
  resolved-Finishes s id expr (some (false, t)) v h = tt
  resolved-Finishes s id expr none v h = h

  log_pipe_init-Finishes :
      (pipe : ℕ) (s : FilterState) (m : Option (Bool × FilterState))
      → Finishes s m
      → Finishes s (log_pipe_init pipe s m)
  unfolding log_pipe_init
  log_pipe_init-Finishes pipe s none h = absurd h
  log_pipe_init-Finishes pipe s (some (false, t)) h = elim (Bool-cases (s.initialized pipe)) [
    | inl old ↦ rw old (λ i. refl)
    | inr new ↦ rw new tt
  ]
  log_pipe_init-Finishes pipe s (some (true, t)) h = elim (Bool-cases (s.initialized pipe)) [
    | inl old ↦ rw old (λ i. refl)
    | inr new ↦ rw new h
  ]

  module _ (k : ℕ) (bounded : (p : ℕ) → Within k (expr_of p)) where
    call-Finishes :
        (init : FilterExprNode → Init) (id : ℕ) (s : FilterState)
        → ((p : ℕ)
            → (s.calls id).visited ≡ false
            → Finishes (set_visited s id true) (init (expr_of p) (set_visited s id true)))
        → Finishes s (filter_call_init filters expr_of init id s)
    unfolding filter_call_init
    call-Finishes init id s h = elim (Bool-cases (s.calls id).visited) [
      | inl loop ↦ rw loop tt
      | inr fresh ↦ elim (Option-cases (filters (s.calls id).rule)) [
        | inl missing ↦ rw (fresh, missing) tt
        | inr (p, found) ↦
            let entered = set_visited s id true in
            rw (fresh, found)
              (resolved-Finishes s id (expr_of p)
                (log_pipe_init p entered (init (expr_of p) entered)) fresh
                (log_pipe_init-Finishes p entered (init (expr_of p) entered) (h p fresh)))
      ]
    ]

    init-Finishes :
        (n : ℕ) (expr : FilterExprNode) (s : FilterState)
        → Within k expr
        → unvisited k s.calls < n
        → Finishes s (filter_expr_init filters expr_of n expr s)
    unfolding filter_expr_init fop_init
    init-Finishes n (fop_or comp left right) s w h =
        Finishes-bind s (filter_expr_init filters expr_of n left s)
          (filter_expr_init filters expr_of n right) (init-Finishes n left s w.0 h)
          λ t e. init-Finishes n right t w.1 (omega (arith, unvisited_same k s t e))
    init-Finishes n (fop_and comp left right) s w h =
        Finishes-bind s (filter_expr_init filters expr_of n left s)
          (filter_expr_init filters expr_of n right) (init-Finishes n left s w.0 h)
          λ t e. init-Finishes n right t w.1 (omega (arith, unvisited_same k s t e))
    init-Finishes zero (call comp id) s w h = absurd (omega arith)
    init-Finishes (suc n) (call comp id) s w h =
        call-Finishes (filter_expr_init filters expr_of n) id s λ p fresh.
          init-Finishes n (expr_of p) (set_visited s id true) (bounded p)
            (omega (arith, unvisited_enter k id s w fresh))
    init-Finishes n _ s w h = λ i. refl

    -- The initialisation of an expression, whose rules may name one another in loops, returns from
    -- every state, if it and the expressions of all rules have their nodes of filter() numbered
    -- below k and the fuel is more than k.
    pub init_ends :
        (n : ℕ) (expr : FilterExprNode) (s : FilterState)
        → Within k expr
        → k < n
        → (r : Bool × FilterState) × (filter_expr_init filters expr_of n expr s ≡ some r)
    init_ends n expr s w h =
        Finishes-some s (filter_expr_init filters expr_of n expr s)
          (init-Finishes n expr s w (omega (arith, unvisited-le k s.calls)))
