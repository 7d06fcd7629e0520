-- ===== src/ParseNumber.antt =====
-- lib/parse-number.c: numbers with a suffix of a unit, as the configuration has them. A gint64 is
-- the integer of its 64 bit pattern; an overflow, which C leaves undefined, wraps.
pub mod Suffixes
mod Tests
use syslog_ng_6_0_core.Common.{
  ℕ, ◌+◌, ◌-◌, ◌*◌, ◌%◌, ◌^◌, ◌≡◌, Bool, true, false, ◌&&◌, ◌||◌, not, Option, none, some, List, [],
  ◌∷◌, length, ◌==◌, if◌then◌else◌,
}
use syslog_ng_6_0_core.Common.Options.{◌>>=◌}
use syslog_ng_6_0_core.Common.Integers.{ℤ, pos, negsuc, of_word, to_word, eqℤ, strtoll}

abbrev pub valid_unit : ℕ → Bool
valid_unit c = c == b'B' || c == b'b'

abbrev pub valid_exponent : ℕ → Bool
valid_exponent e =
    e == b'k' || (e == b'K' || (e == b'm' || (e == b'M' || (e == b'g' || e == b'G'))))

-- the three variables that `_parse_suffix` sets; they are 0 before
pub record Suffix : Type 0 where
  pub exponent_char : ℕ
  pub base_char : ℕ
  pub unit_char : ℕ

-- `none` is FALSE.
unfoldable pub parse_suffix : List ℕ → Option Suffix
parse_suffix [] = some (record { exponent_char = 0; base_char = 0; unit_char = 0 })
parse_suffix (a ∷ []) =
    if valid_exponent a
    then some (record { exponent_char = a; base_char = 0; unit_char = 0 })
    else if valid_unit a
    then some (record { exponent_char = 0; base_char = 0; unit_char = a })
    else none
parse_suffix (a ∷ b ∷ []) =
    if valid_unit b
    then some (record { exponent_char = a; base_char = 0; unit_char = b })
    else some (record { exponent_char = a; base_char = b; unit_char = 0 })
parse_suffix (a ∷ b ∷ c ∷ []) = some (record { exponent_char = a; base_char = b; unit_char = c })
parse_suffix (a ∷ b ∷ c ∷ d ∷ more) = none

unfoldable pub determine_multiplier : ℕ → Option ℕ
determine_multiplier base_char =
    if base_char == 0
    then some 1000
    else if base_char == b'I' || base_char == b'i'
    then some 1024
    else none

unfoldable pub validate_unit : ℕ → Bool
validate_unit unit_char = unit_char == 0 || valid_unit unit_char

-- `d * multiplier` of a gint64 and a positive gint
unfoldable pub times : ℤ → ℕ → ℤ
times d multiplier = of_word 64 (to_word 64 d * multiplier % 2 ^ 64)

-- The cases of the switch fall through.
unfoldable pub process_exponent : ℕ → ℤ → ℕ → Option ℤ
unfolding times
process_exponent e d multiplier =
    if e == b'G' || e == b'g'
    then some (times (times (times d multiplier) multiplier) multiplier)
    else if e == b'M' || e == b'm'
    then some (times (times d multiplier) multiplier)
    else if e == b'K' || e == b'k'
    then some (times d multiplier)
    else if e == 0
    then some d
    else none

unfoldable pub process_suffix : List ℕ → ℤ → Option ℤ
unfolding parse_suffix determine_multiplier validate_unit process_exponent
process_suffix suffix d = do
  s ← parse_suffix suffix
  multiplier ← determine_multiplier s.base_char
  if validate_unit s.unit_char then process_exponent s.exponent_char d multiplier else none

-- `strtoll` and its checks: the value and the text at `endptr`
unfoldable pub number_at : List ℕ → Option (ℤ × List ℕ)
unfolding strtoll
number_at s =
    let r = strtoll s in
    if r.erange && (eqℤ r.value (pos (2 ^ 63 - 1)) || eqℤ r.value (negsuc (2 ^ 63 - 1)))
    then none
    else if length r.endptr == length s
    then none
    else some (r.value, r.endptr)

abbrev pub at_end : List ℕ → Bool
at_end [] = true
at_end (c ∷ cs) = false

unfoldable pub parse_number : List ℕ → Option ℤ
unfolding number_at
parse_number s = number_at s >>= λ r. if at_end r.1 then some r.0 else none

unfoldable pub parse_number_with_suffix : List ℕ → Option ℤ
unfolding number_at process_suffix
parse_number_with_suffix s = number_at s >>= λ r. process_suffix r.1 r.0
