-- ===== src/Filter/Ready.antt =====
-- lib/filter.c: what it takes to evaluate an expression to the end, which initialisation builds up.
use syslog_ng_6_0_core.Common.{
  ℕ, zero, suc, ◌≤◌, ◌≡◌, inl, inr, refl, sym, ap, ◌∙◌, max, Bool, true, false, Option, none, some,
  ◌==◌, Bool-cases, arith,
}
use syslog_ng_6_0_core.Common.Options.{◌>>=◌}
use syslog_ng_6_0_core.Filter.{FilterExprNode, fop_or, fop_and, call, FilterCall}
use syslog_ng_6_0_core.Filter.Setup.{FilterState, set_visited, Init, init_right}

module _ (filters : ℕ → Option ℕ) (expr_of : ℕ → FilterExprNode) where
  -- The nodes of filter() in an expression, and in those that they lead to in `depth` steps, have
  -- the expression of the pipe of their rule.
  abbrev pub Ready : (ℕ → FilterCall) → ℕ → FilterExprNode → Type 0
  Ready calls depth (fop_or comp left right) = Ready calls depth left × Ready calls depth right
  Ready calls depth (fop_and comp left right) = Ready calls depth left × Ready calls depth right
  Ready calls zero (call comp id) = ⊥
  Ready calls (suc depth) (call comp id) =
      (p : ℕ) × (filters (calls id).rule ≡ some p)
      × ((calls id).filter_expr ≡ some (expr_of p))
      × Ready calls depth (expr_of p)
  Ready calls depth _ = Unit {0}

  -- A node of filter() has no expression but that of its rule, and the pipes that have been
  -- initialised can be evaluated.
  pub record IsConsistent (s : FilterState) : Type 0 where
    pub own :
        (i : ℕ) (e : FilterExprNode)
        → (s.calls i).filter_expr ≡ some e
        → (p : ℕ) × (filters (s.calls i).rule ≡ some p) × (e ≡ expr_of p)
    pub ready : (p : ℕ) → s.initialized p ≡ true → (depth : ℕ) × Ready s.calls depth (expr_of p)

  -- rules stay, and expressions that are set stay
  abbrev pub Extends : FilterState → FilterState → Type 0
  Extends s t =
      ((i : ℕ) → (t.calls i).rule ≡ (s.calls i).rule)
      × ((i : ℕ) (e : FilterExprNode)
          → (s.calls i).filter_expr ≡ some e
          → (t.calls i).filter_expr ≡ some e)

  pub Extends-trans : (s t u : FilterState) → Extends s t → Extends t u → Extends s u
  Extends-trans s t u h k = (λ i. k.0 i ∙ h.0 i, λ i e p. k.1 i e (h.1 i e p))

  pub Ready-Extends :
      (s t : FilterState) (depth : ℕ) (expr : FilterExprNode)
      → Extends s t
      → Ready s.calls depth expr
      → Ready t.calls depth expr
  Ready-Extends s t n (fop_or comp left right) h r =
      (Ready-Extends s t n left h r.0, Ready-Extends s t n right h r.1)
  Ready-Extends s t n (fop_and comp left right) h r =
      (Ready-Extends s t n left h r.0, Ready-Extends s t n right h r.1)
  Ready-Extends s t zero (call comp id) h r = r
  Ready-Extends s t (suc n) (call comp id) h (p, found, set, deep) = (
    p,
    ap filters (h.0 id) ∙ found,
    h.1 id (expr_of p) set,
    Ready-Extends s t n (expr_of p) h deep,
  )
  Ready-Extends s t n _ h r = r

  pub Ready-mono :
      (calls : ℕ → FilterCall) (n m : ℕ) (expr : FilterExprNode)
      → n ≤ m
      → Ready calls n expr
      → Ready calls m expr
  Ready-mono calls n m (fop_or comp left right) h r =
      (Ready-mono calls n m left h r.0, Ready-mono calls n m right h r.1)
  Ready-mono calls n m (fop_and comp left right) h r =
      (Ready-mono calls n m left h r.0, Ready-mono calls n m right h r.1)
  Ready-mono calls zero m (call comp id) h r = absurd r
  Ready-mono calls (suc n) zero (call comp id) h r = absurd (omega arith)
  Ready-mono calls (suc n) (suc m) (call comp id) h (p, found, set, deep) =
      (p, found, set, Ready-mono calls n m (expr_of p) (omega arith) deep)
  Ready-mono calls n m _ h r = tt

  -- what the initialisation of an expression promises where it succeeds
  abbrev pub Sound : FilterExprNode → FilterState → Option (Bool × FilterState) → Type 0
  Sound expr s none = Unit {0}
  Sound expr s (some (false, t)) = Unit {0}
  Sound expr s (some (true, t)) =
      IsConsistent t × Extends s t × ((depth : ℕ) × Ready t.calls depth expr)

  second-Sound :
      (both left right : FilterExprNode) (s t : FilterState) (n : ℕ)
      (m : Option (Bool × FilterState))
      → ((calls : ℕ → FilterCall) (d : ℕ)
          → Ready calls d left
          → Ready calls d right
          → Ready calls d both)
      → Extends s t
      → Ready t.calls n left
      → Sound right t m
      → Sound both s m
  second-Sound both left right s t n none join x r h = tt
  second-Sound both left right s t n (some (false, u)) join x r h = tt
  second-Sound both left right s t n (some (true, u)) join x r (c, y, (d, q)) = (
    c,
    Extends-trans s t u x y,
    (
      max n d,
      join u.calls (max n d)
          (Ready-mono u.calls n (max n d) left (omega arith) (Ready-Extends t u n left y r))
          (Ready-mono u.calls d (max n d) right (omega arith) q),
    ),
  )

  -- two successful initialisations in a row, for an expression that is ready when its parts are
  pub pair-Sound :
      (both left right : FilterExprNode) (s : FilterState) (m : Option (Bool × FilterState))
      (next : Init)
      → ((calls : ℕ → FilterCall) (n : ℕ)
          → Ready calls n left
          → Ready calls n right
          → Ready calls n both)
      → Sound left s m
      → ((t : FilterState) → IsConsistent t → Sound right t (next t))
      → Sound both s (m >>= init_right next)
  pair-Sound both left right s none next join h k = tt
  pair-Sound both left right s (some (false, t)) next join h k = tt
  pair-Sound both left right s (some (true, t)) next join (c, x, (n, r)) k =
      second-Sound both left right s t n (next t) join x r (k t c)

  -- `visited` is none of what evaluation reads
  pub set_visited-Extends :
      (s : FilterState) (id : ℕ) (flag : Bool) → Extends s (set_visited s id flag)
  set_visited-Extends s id flag = (
    λ i. elim (Bool-cases (i == id)) [
      | inl same ↦ let e : i ≡ id = ground arith in rw (same, e) refl
      | inr other ↦ rw other refl
    ],
    λ i x h. elim (Bool-cases (i == id)) [
      | inl same ↦
          let e : i ≡ id = ground arith in rw same (ap (λ j. (s.calls j).filter_expr) (sym e) ∙ h)
      | inr other ↦ rw other h
    ],
  )

  visited_own :
      (s : FilterState) (id : ℕ) (flag : Bool) (i : ℕ)
      → ((set_visited s id flag).calls i).filter_expr ≡ (s.calls i).filter_expr
  visited_own s id flag i = elim (Bool-cases (i == id)) [
    | inl same ↦
        let e : i ≡ id = ground arith in rw same (ap (λ j. (s.calls j).filter_expr) (sym e))
    | inr other ↦ rw other refl
  ]

  pub visited-IsConsistent :
      (s : FilterState) (id : ℕ) (flag : Bool)
      → IsConsistent s
      → IsConsistent (set_visited s id flag)
  visited-IsConsistent s id flag c = record {
    own = λ i e h.
        let (p, found, same) = c.own i e (sym (visited_own s id flag i) ∙ h) in
        (p, ap filters ((set_visited-Extends s id flag).0 i) ∙ found, same);
    ready = λ p h.
        let (n, r) = c.ready p h in
        (
          n,
          Ready-Extends s (set_visited s id flag) n (expr_of p) (set_visited-Extends s id flag) r,
        );
  }
