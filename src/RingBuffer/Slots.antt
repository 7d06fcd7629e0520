-- ===== src/RingBuffer/Slots.antt =====
-- The slots in use, oldest first, as a window that goes round at the capacity.
use native.Mathlib.Nat.{mod-add-mod, mod-eq_of_lt, mod-eq-sub-mod, mod-lt}
use syslog_ng_6_0_core.Common.{
  ℕ, zero, suc, ◌+◌, ◌-◌, ◌%◌, ◌≤◌, ◌<◌, ◌≡◌, ◌≢◌, refl, sym, ap, ap₂, ◌∙◌, List, [], ◌∷◌, ◌++◌,
  none, some, arith, dec_lt, length, get_elem?, drop,
}
use syslog_ng_6_0_core.RingBuffer.{RingBuffer}

-- `n` slots from `h` on
abbrev pub window : ℕ → ℕ → ℕ → List ℕ
window c h zero = []
window c h (suc n) = h ∷ window c ((h + 1) % c) n

abbrev pub contents : RingBuffer → List ℕ
contents r = window r.capacity r.head r.count

pub length-window : (c h n : ℕ) → length (window c h n) ≡ n
length-window c h zero = refl
length-window c h (suc n) = ap suc (length-window c ((h + 1) % c) n)

pub length-contents : (r : RingBuffer) → length (contents r) ≡ r.count
length-contents r = length-window r.capacity r.head r.count

next-mod : (c h i : ℕ) → ((h + 1) % c + i) % c ≡ (h + suc i) % c
next-mod c h i = mod-add-mod (h + 1) c i ∙ ap (λ k. k % c) (omega arith)

pub get_elem?-window :
    (c h n i : ℕ) → h < c → i < n → get_elem? (window c h n) i ≡ some ((h + i) % c)
get_elem?-window c h zero i hc hi = absurd (omega arith)
get_elem?-window c h (suc n) zero hc hi =
    ap some (sym (mod-eq_of_lt {n = h} {m = c} hc) ∙ ap (λ k. k % c) (omega arith))
get_elem?-window c h (suc n) (suc i) hc hi =
    get_elem?-window c ((h + 1) % c) n i (mod-lt (h + 1) (omega arith)) (omega arith)
    ∙ ap some (next-mod c h i)

pub get_elem?-window_ge : (c h n i : ℕ) → n ≤ i → get_elem? (window c h n) i ≡ none
get_elem?-window_ge c h zero i hi = refl
get_elem?-window_ge c h (suc n) zero hi = absurd (omega arith)
get_elem?-window_ge c h (suc n) (suc i) hi = get_elem?-window_ge c ((h + 1) % c) n i (omega arith)

pub window-concat : (c h n : ℕ) → h < c → window c h (suc n) ≡ window c h n ++ ((h + n) % c ∷ [])
window-concat c h zero hc =
    ap (λ k. k ∷ []) (sym (mod-eq_of_lt {n = h} {m = c} hc) ∙ ap (λ k. k % c) (omega arith))
window-concat c h (suc n) hc = ap (◌∷◌ h) (
    window-concat c ((h + 1) % c) n (mod-lt (h + 1) (omega arith))
    ∙ ap (λ k. window c ((h + 1) % c) n ++ (k ∷ [])) (next-mod c h n))

pub drop-window :
    (c h n k : ℕ) → h < c → k ≤ n → drop k (window c h n) ≡ window c ((h + k) % c) (n - k)
drop-window c h n zero hc hk =
    ap₂ (window c) (sym (mod-eq_of_lt {n = h} {m = c} hc) ∙ ap (λ k. k % c) (omega arith))
      (omega arith)
drop-window c h zero (suc k) hc hk = absurd (omega arith)
drop-window c h (suc n) (suc k) hc hk =
    drop-window c ((h + 1) % c) n k (mod-lt (h + 1) (omega arith)) (omega arith)
    ∙ ap₂ (window c) (next-mod c h k) (omega arith)

-- Fewer than `c` steps round the ring do not come back to the start.
pub add-mod-ne_self : {c h k : ℕ} → h < c → 0 < k → k < c → (h + k) % c ≢ h
add-mod-ne_self {c} {h} {k} hc lo hk = elim (dec_lt (h + k) c) [
  | yes p ↦ omega (arith, mod-eq_of_lt p)
  | no p ↦ omega (
    arith,
    mod-eq-sub-mod {n = h + k} {m = c} (omega arith),
    mod-eq_of_lt {n = h + k - c} {m = c} (omega arith),
  )
]

-- Two places of a window that goes at most once round are two slots.
pub slots_differ : (c h i j : ℕ) → h < c → i < j → j < c → (h + i) % c ≢ (h + j) % c
slots_differ c h i j hc hij hj e =
    add-mod-ne_self {c = c} {h = (h + i) % c} {k = j - i} (mod-lt (h + i) (omega arith))
      (omega arith) (omega arith)
      (mod-add-mod (h + i) c (j - i) ∙ ap (λ k. k % c) (omega arith) ∙ sym e)

pub window_pos : (c h n : ℕ) → 0 < n → window c h n ≡ h ∷ window c ((h + 1) % c) (n - 1)
window_pos c h zero p = absurd (omega arith)
window_pos c h (suc n) p = ap (λ k. h ∷ window c ((h + 1) % c) k) (omega arith)
