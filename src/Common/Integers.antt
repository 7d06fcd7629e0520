-- ===== src/Common/Integers.antt =====
-- Signed integers, and the functions of the C library that read them from a text.
use Prim.Native.Nat.{ℕ, zero, suc, ◌+◌, ◌-◌, ◌*◌, ◌%◌, ◌^◌}
use mathlib.Core.Bool.{Bool, true, false, ◌&&◌, ◌||◌}
use mathlib.Core.List.{List, [], ◌∷◌}
use syslog_ng_6_0_core.Common.Checks.{◌==◌, ltb, leb, if◌then◌else◌}

-- `negsuc n` is -(n + 1).
pub data ℤ : Type 0 where
  pos : ℕ → ℤ
  negsuc : ℕ → ℤ

-- `- n`
abbrev pub negated : ℕ → ℤ
negated zero = pos 0
negated (suc n) = negsuc n

abbrev pub ltℤ : ℤ → ℤ → Bool
ltℤ (pos a) (pos b) = ltb a b
ltℤ (pos a) (negsuc b) = false
ltℤ (negsuc a) (pos b) = true
ltℤ (negsuc a) (negsuc b) = ltb b a

abbrev pub eqℤ : ℤ → ℤ → Bool
eqℤ (pos a) (pos b) = a == b
eqℤ (pos a) (negsuc b) = false
eqℤ (negsuc a) (pos b) = false
eqℤ (negsuc a) (negsuc b) = a == b

-- the pattern of a word of `w` bits, as a signed integer
abbrev pub of_word : ℕ → ℕ → ℤ
of_word w x = if ltb x (2 ^ (w - 1)) then pos x else negsuc (2 ^ w - 1 - x)

-- and back: the conversion of an integer to such a word
abbrev pub to_word : ℕ → ℤ → ℕ
to_word w (pos n) = n % 2 ^ w
to_word w (negsuc n) = 2 ^ w - 1 - n % 2 ^ w

-- `isspace` of the C locale
abbrev pub is_space : ℕ → Bool
is_space c = c == 32 || (leb 9 c && leb c 13)

abbrev pub is_digit : ℕ → Bool
is_digit c = leb b'0' c && leb c b'9'

unfoldable pub skip_space : List ℕ → List ℕ
skip_space [] = []
skip_space (c ∷ cs) = if is_space c then skip_space cs else c ∷ cs

-- the digits at the front, behind those whose value is `acc`, and what follows them
unfoldable pub decimal : ℕ → List ℕ → ℕ × List ℕ
decimal acc [] = (acc, [])
decimal acc (c ∷ cs) =
    let rest = decimal (acc * 10 + (c - b'0')) cs in if is_digit c then rest else (acc, c ∷ cs)

-- the value that is returned, whether `errno` is ERANGE, and the text at `endptr`
pub record Scanned : Type 0 where
  pub value : ℤ
  pub erange : Bool
  pub endptr : List ℕ

abbrev pub clamped : Bool → ℕ × List ℕ → Scanned
clamped negative (n, rest) =
    if negative
    then (if leb n (2 ^ 63)
        then record { value = negated n; erange = false; endptr = rest }
        else record { value = negsuc (2 ^ 63 - 1); erange = true; endptr = rest })
    else (if ltb n (2 ^ 63)
        then record { value = pos n; erange = false; endptr = rest }
        else record { value = pos (2 ^ 63 - 1); erange = true; endptr = rest })

abbrev pub starts_digit : List ℕ → Bool
starts_digit [] = false
starts_digit (c ∷ cs) = is_digit c

-- the sign at the front, and the text behind it
abbrev pub sign : List ℕ → Bool × List ℕ
sign [] = (false, [])
sign (c ∷ cs) = if c == b'-' then (true, cs) else if c == b'+' then (false, cs) else (false, c ∷ cs)

-- of the text, and of what stands behind its spaces: whether there is a minus sign, and the rest
abbrev pub signed : List ℕ → Bool × List ℕ → Scanned
signed s (negative, digits) =
    if starts_digit digits
    then clamped negative (decimal 0 digits)
    else record { value = pos 0; erange = false; endptr = s }

-- `strtoll (s, &endptr, 10)`, where a long has 64 bits
unfoldable pub strtoll : List ℕ → Scanned
strtoll s = signed s (sign (skip_space s))

-- `atoi`: what `strtol` returns, converted to an int
unfoldable pub atoi : List ℕ → ℤ
unfolding strtoll
atoi s = of_word 32 (to_word 32 (strtoll s).value)
