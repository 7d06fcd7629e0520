-- ===== src/Filter/Resolve.antt =====
-- lib/filter.c: what a successful initialisation leaves behind, and the evaluation after it.
use syslog_ng_6_0_core.Common.{
  ℕ, zero, suc, ◌≡◌, inl, inr, refl, sym, ap, ◌∙◌, subst, Bool, true, false, Option, none, some,
  ◌==◌, Bool-cases, Option-cases, if◌then◌else◌, arith,
}
use syslog_ng_6_0_core.Common.Options.{◌>>=◌}
use syslog_ng_6_0_core.Filter.{FilterExprNode, fop_or, fop_and, call}
use syslog_ng_6_0_core.Filter.Setup.{
  FilterState, set_visited, set_filter_expr, set_initialized, log_pipe_init, resolved, Init,
  fop_init, filter_call_init, filter_expr_init,
}
use syslog_ng_6_0_core.Filter.Ready.{
  Ready, IsConsistent, Extends, Extends-trans, Ready-Extends, Sound, pair-Sound,
  set_visited-Extends, visited-IsConsistent,
}

none_ne_some {ℓ} : {A : Type ℓ} {a : A} → none ≡ some a → ⊥
none_ne_some e = cc

false_ne_true : false ≡ true → ⊥
false_ne_true e = cc

equal_self : (i : ℕ) → (i == i) ≡ true
equal_self i = ground arith

some_injective {ℓ} : {A : Type ℓ} {p q : A} → ◌≡◌ {A = Option A} (some p) (some q) → p ≡ q
some_injective e = cc

module _ (filters : ℕ → Option ℕ) (expr_of : ℕ → FilterExprNode) where
  -- a node of filter() gets the expression of its rule
  module _ (s : FilterState) (id p : ℕ) (found : filters (s.calls id).rule ≡ some p)
      (c : IsConsistent filters expr_of s) where
    abbrev bound : FilterState
    bound = set_filter_expr s id (expr_of p)

    bound-Extends : Extends filters expr_of s bound
    bound-Extends = (
      λ i. elim (Bool-cases (i == id)) [
        | inl same ↦ let e : i ≡ id = ground arith in rw (same, e) refl
        | inr other ↦ rw other refl
      ],
      λ i x h. elim (Bool-cases (i == id)) [
        | inl same ↦
            let e : i ≡ id = ground arith in
            let (q, found', own) = c.own i x h in
            let eq : p ≡ q =
              some_injective (sym found ∙ ap (λ j. filters (s.calls j).rule) (sym e) ∙ found') in
            rw same (ap some (ap expr_of eq ∙ sym own))
        | inr other ↦ rw other h
      ],
    )

    bound_own :
        (i : ℕ) (e : FilterExprNode)
        → (bound.calls i).filter_expr ≡ some e
        → (q : ℕ) × (filters (bound.calls i).rule ≡ some q) × (e ≡ expr_of q)
    bound_own i x h = elim (Bool-cases (i == id)) [
      | inl same ↦
          let e : i ≡ id = ground arith in
          (
            p,
            ap filters (bound-Extends.0 i) ∙ ap (λ j. filters (s.calls j).rule) e ∙ found,
            some_injective (sym h ∙ rw same refl),
          )
      | inr other ↦
          let (q, found', own) = c.own i x (rw other at h) in
          (q, ap filters (bound-Extends.0 i) ∙ found', own)
    ]

    bound-IsConsistent : IsConsistent filters expr_of bound
    bound-IsConsistent = record {
      own = bound_own;
      ready = λ q h.
          let (n, r) = c.ready q h in
          (n, Ready-Extends filters expr_of s bound n (expr_of q) bound-Extends r);
    }

    bound-Ready :
        (n : ℕ) (comp : Bool)
        → Ready filters expr_of s.calls n (expr_of p)
        → Ready filters expr_of bound.calls (suc n) (call comp id)
    bound-Ready n comp r = (
      p,
      ap filters (bound-Extends.0 id) ∙ found,
      rw (equal_self id) refl,
      Ready-Extends filters expr_of s bound n (expr_of p) bound-Extends r,
    )

  initialized-Sound :
      (p : ℕ) (s : FilterState) (m : Option (Bool × FilterState))
      → Sound filters expr_of (expr_of p) s m
      → Sound filters expr_of
          (expr_of p)
          s
          (m >>= λ r. some (r.0, if r.0 then set_initialized r.1 p else r.1))
  initialized-Sound p s none h = tt
  initialized-Sound p s (some (false, t)) h = tt
  initialized-Sound p s (some (true, t)) (c, x, (n, r)) = (
    record {
      own = c.own;
      ready = λ q h. elim (Bool-cases (q == p)) [
        | inl same ↦
            let e : p ≡ q = ground arith in
            (n, subst (λ j. Ready filters expr_of t.calls n (expr_of j)) e r)
        | inr other ↦ c.ready q (rw other at h)
      ];
    },
    x,
    (n, r),
  )

  abbrev Holds : FilterExprNode → FilterState → Option (Bool × FilterState) → Type 0
  Holds = Sound filters expr_of

  log_pipe_init-Sound :
      (p : ℕ) (s : FilterState) (m : Option (Bool × FilterState))
      → IsConsistent filters expr_of s
      → Holds (expr_of p) s m
      → Holds (expr_of p) s (log_pipe_init p s m)
  unfolding log_pipe_init
  log_pipe_init-Sound p s m c h = elim (Bool-cases (s.initialized p)) [
    | inl old ↦ rw old (c, (λ i. refl, λ i x e. e), c.ready p old)
    | inr new ↦ rw new (initialized-Sound p s m h)
  ]

  resolved-Sound :
      (p id : ℕ) (comp : Bool) (s : FilterState) (m : Option (Bool × FilterState))
      → filters (s.calls id).rule ≡ some p
      → Holds (expr_of p) s m
      → Holds (call comp id) s (m >>= λ r. some (resolved id (expr_of p) r))
  unfolding resolved
  resolved-Sound p id comp s none found h = tt
  resolved-Sound p id comp s (some (false, t)) found h = tt
  resolved-Sound p id comp s (some (true, t)) found (c, x, (n, r)) =
      let found' : filters (t.calls id).rule ≡ some p = ap filters (x.0 id) ∙ found in
      let b = bound t id p found' c in
      let free : Extends filters expr_of b (set_visited b id false) =
        set_visited-Extends filters expr_of b id false in
      (
        visited-IsConsistent filters expr_of b id false (bound-IsConsistent t id p found' c),
        Extends-trans filters expr_of s t (set_visited b id false) x (
            Extends-trans filters expr_of t b (set_visited b id false)
              (bound-Extends t id p found' c) free),
        (
          suc n,
          Ready-Extends filters expr_of b (set_visited b id false) (suc n) (call comp id) free
              (bound-Ready t id p found' c n comp r),
        ),
      )

  Sound_base :
      (expr : FilterExprNode) (s t : FilterState) (m : Option (Bool × FilterState))
      → Extends filters expr_of s t
      → Holds expr t m
      → Holds expr s m
  Sound_base expr s t none x h = tt
  Sound_base expr s t (some (false, u)) x h = tt
  Sound_base expr s t (some (true, u)) x (c, y, r) = (c, Extends-trans filters expr_of s t u x y, r)

  call-Sound :
      (init : FilterExprNode → Init) (comp : Bool) (id : ℕ) (s : FilterState)
      → IsConsistent filters expr_of s
      → ((p : ℕ) (t : FilterState)
          → IsConsistent filters expr_of t
          → Holds (expr_of p) t (init (expr_of p) t))
      → Holds (call comp id) s (filter_call_init filters expr_of init id s)
  unfolding filter_call_init
  call-Sound init comp id s c h = elim (Bool-cases (s.calls id).visited) [
    | inl loop ↦ rw loop tt
    | inr fresh ↦ elim (Option-cases (filters (s.calls id).rule)) [
      | inl missing ↦ rw (fresh, missing) tt
      | inr (p, found) ↦
          let entered = set_visited s id true in
          let x : Extends filters expr_of s entered =
            set_visited-Extends filters expr_of s id true in
          let c' : IsConsistent filters expr_of entered =
            visited-IsConsistent filters expr_of s id true c in
          let m = init (expr_of p) entered in
          rw (fresh, found)
            (Sound_base (call comp id) s entered
              (log_pipe_init p entered m >>= λ r. some (resolved id (expr_of p) r)) x
              (resolved-Sound p id comp entered (log_pipe_init p entered m)
                (ap filters (x.0 id) ∙ found)
                (log_pipe_init-Sound p entered m c' (h p entered c'))))
    ]
  ]

  pub init-Sound :
      (n : ℕ) (expr : FilterExprNode) (s : FilterState)
      → IsConsistent filters expr_of s
      → Holds expr s (filter_expr_init filters expr_of n expr s)
  unfolding filter_expr_init fop_init
  init-Sound n (fop_or comp left right) s c =
      pair-Sound filters expr_of (fop_or comp left right) left right s
        (filter_expr_init filters expr_of n left s) (filter_expr_init filters expr_of n right)
        (λ calls d a b. (a, b)) (init-Sound n left s c) (init-Sound n right)
  init-Sound n (fop_and comp left right) s c =
      pair-Sound filters expr_of (fop_and comp left right) left right s
        (filter_expr_init filters expr_of n left s) (filter_expr_init filters expr_of n right)
        (λ calls d a b. (a, b)) (init-Sound n left s c) (init-Sound n right)
  init-Sound zero (call comp id) s c = tt
  init-Sound (suc n) (call comp id) s c =
      call-Sound (filter_expr_init filters expr_of n) comp id s c (λ p. init-Sound n (expr_of p))
  init-Sound n _ s c = (c, (λ i. refl, λ i x e. e), (0, tt))

  -- before any initialisation
  pub fresh-IsConsistent :
      (s : FilterState)
      → ((i : ℕ) → (s.calls i).filter_expr ≡ none)
      → ((p : ℕ) → s.initialized p ≡ false)
      → IsConsistent filters expr_of s
  fresh-IsConsistent s h k = record {
    own = λ i e set. absurd (none_ne_some (sym (h i) ∙ set));
    ready = λ p old. absurd (false_ne_true (sym (k p) ∙ old));
  }
