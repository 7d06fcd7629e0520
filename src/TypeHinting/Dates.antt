-- ===== src/TypeHinting/Dates.antt =====
-- lib/type-hinting.c: the casts of numbers and dates.
use syslog_ng_6_0_core.Common.{
  ℕ, ◌+◌, ◌-◌, ◌*◌, ◌%◌, ◌^◌, ◌<◌, ◌≡◌, refl, sym, ap, ◌∙◌, false, some, List, [], ◌∷◌, ◌++◌,
  append-nil, length, ltb, if◌then◌else◌, arith,
}
use syslog_ng_6_0_core.Common.Integers.{pos, of_word, strtoll, skip_space}
use syslog_ng_6_0_core.Common.Decimals.{Digits, digits_value, strtoll-Digits}
use syslog_ng_6_0_core.TypeHinting.{
  type_cast_to_int32, type_cast_to_int64, times_ten, milliseconds, type_cast_to_datetime_int,
}

-- the first three digits of a fraction, in thousandths
abbrev pub thousandths : List ℕ → ℕ
thousandths [] = 0
thousandths (a ∷ []) = (a - b'0') * 100
thousandths (a ∷ b ∷ []) = (a - b'0') * 100 + (b - b'0') * 10
thousandths (a ∷ b ∷ c ∷ more) = (a - b'0') * 100 + (b - b'0') * 10 + (c - b'0')

strtoll_all :
    (c : ℕ) (ds : List ℕ)
    → Digits (c ∷ ds)
    → digits_value 0 (c ∷ ds) < 2 ^ 63
    → strtoll (c ∷ ds)
      ≡ record { value = pos (digits_value 0 (c ∷ ds)); erange = false; endptr = [] }
strtoll_all c ds d h =
    ap (λ l. strtoll (c ∷ l)) (sym (append-nil ds)) ∙ strtoll-Digits c ds [] d refl h

milliseconds_lem : (fs : List ℕ) → Digits fs → milliseconds fs ≡ some (thousandths fs)
unfolding milliseconds times_ten skip_space
milliseconds_lem [] d = refl
milliseconds_lem (a ∷ []) d = rw (strtoll_all a [] d (ground arith)) (ap some (ground arith))
milliseconds_lem (a ∷ b ∷ []) d =
    rw (strtoll_all a (b ∷ []) d (ground arith)) (ap some (ground arith))
milliseconds_lem (a ∷ b ∷ c ∷ more) d =
    let n = length (a ∷ b ∷ c ∷ more) in
    let three : (if ltb 3 n then 3 else n) ≡ 3 = ground arith in
    let read : Digits (a ∷ b ∷ c ∷ []) = (d.0, (d.1.0, (d.1.1.0, tt))) in
    rw (three, strtoll_all a (b ∷ c ∷ []) read (ground arith)) (ap some (ground arith))

thousandths_lt : (fs : List ℕ) → Digits fs → thousandths fs < 1000
thousandths_lt [] d = omega arith
thousandths_lt (a ∷ []) d = ground arith
thousandths_lt (a ∷ b ∷ []) d = ground arith
thousandths_lt (a ∷ b ∷ c ∷ more) d = ground arith

-- Decimal digits, at least one, of a value below 2^53 are cast to that value as int64, to the
-- value of its low 32 bits with a sign as int32, and to the value times 1000 as datetime; where a
-- point and any digits follow, the first three of these, filled up with zeros, are added as
-- milliseconds.
pub number_casts :
    (c : ℕ) (ds fs : List ℕ)
    → Digits (c ∷ ds)
    → Digits fs
    → digits_value 0 (c ∷ ds) < 2 ^ 53
    → let v = digits_value 0 (c ∷ ds) in
      (type_cast_to_int64 (c ∷ ds) ≡ some (pos v))
      × (type_cast_to_int32 (c ∷ ds) ≡ some (of_word 32 (v % 2 ^ 32)))
      × (type_cast_to_datetime_int (c ∷ ds) ≡ some (v * 1000))
      × (type_cast_to_datetime_int (c ∷ (ds ++ b'.' ∷ fs)) ≡ some (v * 1000 + thousandths fs))
unfolding type_cast_to_int32 type_cast_to_int64 type_cast_to_datetime_int
number_casts c ds fs d f h =
    let v = digits_value 0 (c ∷ ds) in
    let whole = strtoll_all c ds d (omega arith) in
    (
      rw whole refl,
      rw whole refl,
      rw whole (ap some (omega arith)),
      rw (strtoll-Digits c ds (b'.' ∷ fs) d refl (omega arith), milliseconds_lem fs f)
          (ap some (omega (arith, thousandths_lt fs f))),
    )
