-- ===== src/TypeHinting/Tests.antt =====
-- Runs of the casts of lib/type-hinting.c.
use syslog_ng_6_0_core.Common.{◌+◌, ◌-◌, ◌*◌, ◌%◌, ◌^◌, ◌≡◌, refl, some, none, [], ◌∷◌, arith}
use syslog_ng_6_0_core.Common.Integers.{pos, of_word, strtoll, skip_space, decimal}
use syslog_ng_6_0_core.TypeHinting.{
  type_hint_parse, type_cast_to_int32, type_cast_to_int64, type_cast_to_datetime_int, int32_hint,
}
use syslog_ng_6_0_core.TypeHinting.Dates.{thousandths, number_casts}
use syslog_ng_6_0_core.Common.Text.{strcmp}

hint_int : type_hint_parse (some (b'i' ∷ b'n' ∷ b't' ∷ [])) ≡ some int32_hint
unfolding type_hint_parse strcmp
hint_int = refl

hint_bad : type_hint_parse (some (b'i' ∷ b'n' ∷ [])) ≡ none
unfolding type_hint_parse strcmp
hint_bad = refl

-- "-1.5" is half a second before the epoch, not one and a half.
negative_date : type_cast_to_datetime_int (b'-' ∷ b'1' ∷ b'.' ∷ b'5' ∷ []) ≡ some (2 ^ 64 - 500)
unfolding type_cast_to_datetime_int strtoll skip_space decimal
negative_date = refl

number_casts_example :
    (type_cast_to_int64 (b'4' ∷ b'2' ∷ []) ≡ some (pos 42))
    × (type_cast_to_int32 (b'4' ∷ b'2' ∷ []) ≡ some (of_word 32 (42 % 2 ^ 32)))
    × (type_cast_to_datetime_int (b'4' ∷ b'2' ∷ []) ≡ some (42 * 1000))
    × (type_cast_to_datetime_int (b'4' ∷ b'2' ∷ b'.' ∷ b'5' ∷ [])
        ≡ some (42 * 1000 + thousandths (b'5' ∷ [])))
number_casts_example =
    number_casts b'4' (b'2' ∷ []) (b'5' ∷ []) (refl, (refl, tt)) (refl, tt) (omega arith)
