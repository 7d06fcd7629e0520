-- ===== src/RingBuffer/Distinct.antt =====
-- That slots are pairwise different, as a predicate that computes on the list.
use native.Mathlib.Nat.{mod-lt, mod-add-mod}
use syslog_ng_6_0_core.Common.{
  ℕ, zero, suc, ◌+◌, ◌%◌, ◌≤◌, ◌<◌, ◌≡◌, ◌≢◌, sym, ap, ◌∙◌, subst, List, [], ◌∷◌, ◌++◌, some, arith,
  get_elem?, drop, take,
}
use syslog_ng_6_0_core.RingBuffer.{RingBuffer}
use syslog_ng_6_0_core.RingBuffer.Slots.{window, contents, add-mod-ne_self}
use syslog_ng_6_0_core.RingBuffer.Bounds.{IsValid}

abbrev pub NotIn : ℕ → List ℕ → Type 0
NotIn s [] = Unit
NotIn s (x ∷ xs) = (s ≢ x) × NotIn s xs

abbrev pub Distinct : List ℕ → Type 0
Distinct [] = Unit
Distinct (x ∷ xs) = NotIn x xs × Distinct xs

NotIn-window : (c h d n : ℕ) → h < c → 0 < d → d + n ≤ c → NotIn h (window c ((h + d) % c) n)
NotIn-window c h d zero hc hd le = tt
NotIn-window c h d (suc n) hc hd le = (
  λ e. add-mod-ne_self {c = c} {h = h} {k = d} hc hd (omega arith) (sym e),
  subst (λ k. NotIn h (window c k n)) next
      (NotIn-window c h (d + 1) n hc (omega arith) (omega arith)),
)
  where
    next : (h + (d + 1)) % c ≡ ((h + d) % c + 1) % c
    next = sym (mod-add-mod (h + d) c 1 ∙ ap (λ k. k % c) (omega arith))

Distinct-window : (c h n : ℕ) → h < c → n ≤ c → Distinct (window c h n)
Distinct-window c h zero hc le = tt
Distinct-window c h (suc n) hc le = (
  NotIn-window c h 1 n hc (omega arith) (omega arith),
  Distinct-window c ((h + 1) % c) n (mod-lt (h + 1) (omega arith)) (omega arith),
)

pub contents-Distinct : {r : RingBuffer} → IsValid r → Distinct (contents r)
contents-Distinct {r} v = Distinct-window r.capacity r.head r.count v.head_in v.count_in

pub NotIn-get_elem? : (s : ℕ) (xs : List ℕ) (i : ℕ) → NotIn s xs → get_elem? xs i ≢ some s
NotIn-get_elem? s [] i h e = cc
NotIn-get_elem? s (x ∷ xs) zero h e = h.0 (cc)
NotIn-get_elem? s (x ∷ xs) (suc i) h e = NotIn-get_elem? s xs i h.1 e

pub get_elem?-NotIn : (s : ℕ) (xs : List ℕ) → ((i : ℕ) → get_elem? xs i ≢ some s) → NotIn s xs
get_elem?-NotIn s [] h = tt
get_elem?-NotIn s (x ∷ xs) h = (λ e. h 0 (cc), get_elem?-NotIn s xs (λ i. h (suc i)))

NotIn-take : (s n : ℕ) (xs : List ℕ) → NotIn s xs → NotIn s (take n xs)
NotIn-take s zero xs h = tt
NotIn-take s (suc n) [] h = tt
NotIn-take s (suc n) (x ∷ xs) h = (h.0, NotIn-take s n xs h.1)

-- each of the second list is none of the first
abbrev pub Apart : List ℕ → List ℕ → Type 0
Apart xs [] = Unit
Apart xs (y ∷ ys) = NotIn y xs × Apart xs ys

Apart-cons : (x : ℕ) (xs ys : List ℕ) → NotIn x ys → Apart xs ys → Apart (x ∷ xs) ys
Apart-cons x xs [] h a = tt
Apart-cons x xs (y ∷ ys) h a = ((λ e. h.0 (sym e), a.0), Apart-cons x xs ys h.1 a.1)

Apart-nil : (ys : List ℕ) → Apart [] ys
Apart-nil [] = tt
Apart-nil (y ∷ ys) = (tt, Apart-nil ys)

NotIn-drop : (s n : ℕ) (xs : List ℕ) → NotIn s xs → NotIn s (drop n xs)
NotIn-drop s zero xs h = h
NotIn-drop s (suc n) [] h = tt
NotIn-drop s (suc n) (x ∷ xs) h = NotIn-drop s n xs h.1

pub Distinct-Apart : (n : ℕ) (xs : List ℕ) → Distinct xs → Apart (take n xs) (drop n xs)
Distinct-Apart zero xs d = Apart-nil xs
Distinct-Apart (suc n) [] d = tt
Distinct-Apart (suc n) (x ∷ xs) d =
    Apart-cons x (take n xs) (drop n xs) (NotIn-drop x n xs d.0) (Distinct-Apart n xs d.1)

pub Distinct-take : (n : ℕ) (xs : List ℕ) → Distinct xs → Distinct (take n xs)
Distinct-take zero xs d = tt
Distinct-take (suc n) [] d = tt
Distinct-take (suc n) (x ∷ xs) d = (NotIn-take x n xs d.0, Distinct-take n xs d.1)

pub NotIn-take-drop :
    (s n : ℕ) (xs : List ℕ) → NotIn s (take n xs) → NotIn s (drop n xs) → NotIn s xs
NotIn-take-drop s zero xs t d = d
NotIn-take-drop s (suc n) [] t d = tt
NotIn-take-drop s (suc n) (x ∷ xs) t d = (t.0, NotIn-take-drop s n xs t.1 d)

pub NotIn-append_left : (s : ℕ) (xs ys : List ℕ) → NotIn s (xs ++ ys) → NotIn s xs
NotIn-append_left s [] ys h = tt
NotIn-append_left s (x ∷ xs) ys h = (h.0, NotIn-append_left s xs ys h.1)
