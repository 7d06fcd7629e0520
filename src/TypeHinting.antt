-- ===== src/TypeHinting.antt =====
-- lib/type-hinting.c: the types that a template may hint at, and the casts of texts to them. The
-- messages about errors are left out, and `none` is the return value FALSE.
pub mod Dates
mod Tests
use syslog_ng_6_0_core.Common.{
  ℕ, zero, suc, ◌+◌, ◌-◌, ◌*◌, ◌%◌, ◌^◌, ◌≡◌, Bool, true, false, ◌&&◌, ◌||◌, not, Option, none,
  some, List, [], ◌∷◌, length, take, ltb, ◌==◌, if◌then◌else◌,
}
use Prim.Native.Nat.{Ordering}
use syslog_ng_6_0_core.Common.Options.{◌>>=◌}
use syslog_ng_6_0_core.Common.Text.{strcmp}
use syslog_ng_6_0_core.Common.Integers.{ℤ, pos, negsuc, of_word, to_word, Scanned, strtoll}

pub data TypeHint : Type 0 where
  string_hint literal_hint boolean_hint int32_hint int64_hint double_hint datetime_hint : TypeHint
  default_hint : TypeHint

abbrev is_equal : Ordering → Bool
is_equal Ordering.eq = true
is_equal _ = false

-- the chain of comparisons
unfoldable pub first_named : List (List ℕ × TypeHint) → List ℕ → Option TypeHint
first_named [] hint = none
first_named ((name, type_hint) ∷ names) hint =
    let rest = first_named names hint in
    if is_equal (strcmp hint name) then some type_hint else rest

abbrev pub hint_names : List (List ℕ × TypeHint)
hint_names =
    (b's' ∷ b't' ∷ b'r' ∷ b'i' ∷ b'n' ∷ b'g' ∷ [], string_hint)
    ∷ (b'l' ∷ b'i' ∷ b't' ∷ b'e' ∷ b'r' ∷ b'a' ∷ b'l' ∷ [], literal_hint)
    ∷ (b'i' ∷ b'n' ∷ b't' ∷ b'3' ∷ b'2' ∷ [], int32_hint)
    ∷ (b'i' ∷ b'n' ∷ b't' ∷ [], int32_hint)
    ∷ (b'i' ∷ b'n' ∷ b't' ∷ b'6' ∷ b'4' ∷ [], int64_hint)
    ∷ (b'd' ∷ b'o' ∷ b'u' ∷ b'b' ∷ b'l' ∷ b'e' ∷ [], double_hint)
    ∷ (b'd' ∷ b'a' ∷ b't' ∷ b'e' ∷ b't' ∷ b'i' ∷ b'm' ∷ b'e' ∷ [], datetime_hint)
    ∷ (b'b' ∷ b'o' ∷ b'o' ∷ b'l' ∷ b'e' ∷ b'a' ∷ b'n' ∷ [], boolean_hint)
    ∷ (b'd' ∷ b'e' ∷ b'f' ∷ b'a' ∷ b'u' ∷ b'l' ∷ b't' ∷ [], default_hint)
    ∷ []

-- The argument is none where `hint` is NULL.
unfoldable pub type_hint_parse : Option (List ℕ) → Option TypeHint
unfolding first_named
type_hint_parse none = some string_hint
type_hint_parse (some hint) = first_named hint_names hint

-- the first character, or the NUL
abbrev pub first_char : List ℕ → ℕ
first_char [] = 0
first_char (c ∷ cs) = c

unfoldable pub type_cast_to_boolean : List ℕ → Option Bool
type_cast_to_boolean value =
    let c = first_char value in
    if c == b'T' || (c == b't' || c == b'1')
    then some true
    else if c == b'F' || (c == b'f' || c == b'0')
    then some false
    else none

unfoldable pub type_cast_to_int32 : List ℕ → Option ℤ
unfolding strtoll
type_cast_to_int32 value =
    let r = strtoll value in
    if first_char r.endptr == 0 then some (of_word 32 (to_word 32 r.value)) else none

unfoldable pub type_cast_to_int64 : List ℕ → Option ℤ
unfolding strtoll
type_cast_to_int64 value =
    let r = strtoll value in if first_char r.endptr == 0 then some r.value else none

-- `i *= 10`, `p` times
unfoldable pub times_ten : ℕ → ℕ → ℕ
times_ten zero i = i
times_ten (suc p) i = times_ten p (i * 10 % 2 ^ 64)

-- the milliseconds behind the point, as a word
unfoldable pub milliseconds : List ℕ → Option ℕ
unfolding strtoll times_ten
milliseconds fraction =
    let len = if ltb 3 (length fraction) then 3 else length fraction in
    let r = strtoll (take len fraction) in
    if first_char r.endptr == 0 then some (times_ten (3 - len) (to_word 64 r.value)) else none

abbrev pub point_or_end : ℕ → List ℕ → Option ℕ
point_or_end out [] = some out
point_or_end out (c ∷ cs) =
    if c == b'.' then (milliseconds cs >>= λ i. some ((out + i) % 2 ^ 64)) else none

-- `out` is a guint64.
unfoldable pub type_cast_to_datetime_int : List ℕ → Option ℕ
unfolding strtoll milliseconds
type_cast_to_datetime_int value =
    let r = strtoll value in point_or_end (to_word 64 r.value * 1000 % 2 ^ 64) r.endptr
