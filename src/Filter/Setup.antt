-- ===== src/Filter/Setup.antt =====
-- lib/filter.c: the initialisation of a filter expression, which resolves filter() by the name of a
-- rule and looks for loops, with `log_pipe_init` of lib/logpipe.h.
use syslog_ng_6_0_core.Common.{
  ℕ, zero, suc, Bool, true, false, Option, none, some, ◌==◌, if◌then◌else◌,
}
use syslog_ng_6_0_core.Common.Options.{◌>>=◌}
use syslog_ng_6_0_core.Filter.{FilterExprNode, fop_or, fop_and, call, FilterCall}

-- What initialisation changes: the nodes of filter(), and PIF_INITIALIZED of the filter pipes.
pub record FilterState : Type 0 where
  pub calls : ℕ → FilterCall
  pub initialized : ℕ → Bool

abbrev pub update {ℓ} : {A : Type ℓ} → (ℕ → A) → ℕ → A → ℕ → A
update f i v j = if j == i then v else f j

abbrev pub set_visited : FilterState → ℕ → Bool → FilterState
set_visited s id flag = record s {
  calls = update s.calls id (record (s.calls id) { visited = flag });
}

abbrev pub set_filter_expr : FilterState → ℕ → FilterExprNode → FilterState
set_filter_expr s id expr = record s {
  calls = update s.calls id (record (s.calls id) { filter_expr = some expr });
}

abbrev pub set_initialized : FilterState → ℕ → FilterState
set_initialized s pipe = record s { initialized = update s.initialized pipe true }

-- `log_pipe_init` of a filter pipe, from what `log_filter_pipe_init` returns
unfoldable pub log_pipe_init :
    ℕ → FilterState → Option (Bool × FilterState) → Option (Bool × FilterState)
log_pipe_init pipe s init =
    if s.initialized pipe
    then some (true, s)
    else init >>= λ r. some (r.0, if r.0 then set_initialized r.1 pipe else r.1)

-- the end of `filter_call_init`, when the pipe of the rule has been initialised
unfoldable pub resolved : ℕ → FilterExprNode → Bool × FilterState → Bool × FilterState
resolved id expr r =
    if r.0 then (true, set_visited (set_filter_expr r.1 id expr) id false) else (false, r.1)

abbrev pub Init : Type 0
Init = FilterState → Option (Bool × FilterState)

abbrev pub init_right : Init → Bool × FilterState → Option (Bool × FilterState)
init_right right (true, s) = right s
init_right right (false, s) = some (false, s)

unfoldable pub fop_init : Init → Init → Init
fop_init left right s = left s >>= init_right right

-- `filters` finds the filter pipe of a rule in `cfg->filters`; `expr_of` is the expression of a
-- pipe. The nodes other than filter() and the operators have no `init`.
module _ (filters : ℕ → Option ℕ) (expr_of : ℕ → FilterExprNode) where
  -- `visited` stays set on the two paths that fail behind it.
  unfoldable pub filter_call_init : (FilterExprNode → Init) → ℕ → Init
  unfolding log_pipe_init resolved
  filter_call_init init id s =
      let entered = set_visited s id true in
      if (s.calls id).visited then some (false, s) else elim (filters (s.calls id).rule) [
        | none ↦ some (false, entered)
        | some pipe ↦ log_pipe_init pipe entered (init (expr_of pipe) entered) >>= λ r.
            some (resolved id (expr_of pipe) r)
      ]

  -- `self->init (self, cfg)`; the fuel counts the calls of filter() inside one another.
  unfoldable pub filter_expr_init : ℕ → FilterExprNode → Init
  unfolding fop_init filter_call_init
  filter_expr_init n (fop_or comp left right) s =
      fop_init (filter_expr_init n left) (filter_expr_init n right) s
  filter_expr_init n (fop_and comp left right) s =
      fop_init (filter_expr_init n left) (filter_expr_init n right) s
  filter_expr_init zero (call comp id) s = none
  filter_expr_init (suc n) (call comp id) s = filter_call_init (filter_expr_init n) id s
  filter_expr_init n _ s = some (true, s)
