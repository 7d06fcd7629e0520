-- ===== src/Common/Text.antt =====
-- Functions of the C library on strings of bytes, as the modules use them.
use Prim.Native.Nat.{ℕ, compare, Ordering}
use mathlib.Core.List.{List, [], ◌∷◌}
use mathlib.Core.Option.{Option, none, some}
use syslog_ng_6_0_core.Common.Checks.{◌==◌, if◌then◌else◌}

-- The string that a pointer to these bytes is: those before the first NUL.
unfoldable pub c_str : List ℕ → List ℕ
c_str [] = []
c_str (c ∷ cs) = if c == 0 then [] else c ∷ c_str cs

-- `strcmp`, by the sign of its result
unfoldable pub strcmp : List ℕ → List ℕ → Ordering
strcmp [] [] = Ordering.eq
strcmp [] (y ∷ ys) = Ordering.lt
strcmp (x ∷ xs) [] = Ordering.gt
strcmp (x ∷ xs) (y ∷ ys) = elim (compare x y) [
  | Ordering.lt ↦ Ordering.lt
  | Ordering.eq ↦ strcmp xs ys
  | Ordering.gt ↦ Ordering.gt
]

-- `strchr`: what stands before the first `c`, and what behind it
unfoldable pub strchr : ℕ → List ℕ → Option (List ℕ × List ℕ)
strchr c [] = none
strchr c (x ∷ xs) =
    if x == c
    then some ([], xs)
    else elim (strchr c xs) [ none ↦ none | some (before, behind) ↦ some (x ∷ before, behind) ]
