-- ===== src/Common/Decimals.antt =====
-- How the C library reads a text that starts with decimal digits.
use Prim.Native.Nat.{ℕ, ◌+◌, ◌-◌, ◌*◌, ◌^◌, ◌<◌}
use mathlib.Core.Path.{◌≡◌, refl}
use mathlib.Core.Bool.{true, false}
use mathlib.Core.List.{List, [], ◌∷◌, ◌++◌}
use native.Mathlib.Omega.{arith}
use syslog_ng_6_0_core.Common.Checks.{◌==◌, ltb}
use syslog_ng_6_0_core.Common.Integers.{
  pos, is_space, is_digit, skip_space, decimal, starts_digit, sign, strtoll,
}

-- the number that digits make, behind what `acc` stands for
abbrev pub digits_value : ℕ → List ℕ → ℕ
digits_value acc [] = acc
digits_value acc (c ∷ cs) = digits_value (acc * 10 + (c - b'0')) cs

-- a text of digits, at least one
abbrev pub Digits : List ℕ → Type 0
Digits [] = Unit {0}
Digits (c ∷ cs) = (is_digit c ≡ true) × Digits cs

decimal_lem :
    (acc : ℕ) (ds rest : List ℕ)
    → Digits ds
    → starts_digit rest ≡ false
    → decimal acc (ds ++ rest) ≡ (digits_value acc ds, rest)
unfolding decimal
decimal_lem acc [] [] d s = refl
decimal_lem acc [] (c ∷ rest) d s = rw s refl
decimal_lem acc (c ∷ ds) rest d s = rw d.0 (decimal_lem (acc * 10 + (c - b'0')) ds rest d.1 s)

digit_front :
    (c : ℕ) (cs : List ℕ) → is_digit c ≡ true → sign (skip_space (c ∷ cs)) ≡ (false, c ∷ cs)
unfolding skip_space
digit_front c cs h =
    let space : is_space c ≡ false = ground arith in
    let minus : (c == b'-') ≡ false = ground arith in
    let plus : (c == b'+') ≡ false = ground arith in rw (space, minus, plus) refl

pub strtoll-Digits :
    (c : ℕ) (ds rest : List ℕ)
    → Digits (c ∷ ds)
    → starts_digit rest ≡ false
    → digits_value 0 (c ∷ ds) < 2 ^ 63
    → strtoll (c ∷ (ds ++ rest))
      ≡ record { value = pos (digits_value 0 (c ∷ ds)); erange = false; endptr = rest }
unfolding strtoll
strtoll-Digits c ds rest d s h =
    let small : ltb (digits_value 0 (c ∷ ds)) (2 ^ 63) ≡ true = ground arith in
    rw (digit_front c (ds ++ rest) d.0, d.0, decimal_lem 0 (c ∷ ds) rest d s, small) refl
