-- ===== src/ParseNumber/Tests.antt =====
-- Runs of lib/parse-number.c.
use syslog_ng_6_0_core.Common.{◌*◌, ◌≡◌, refl, some, [], ◌∷◌, arith}
use syslog_ng_6_0_core.Common.Integers.{pos, negsuc, strtoll, skip_space, decimal}
use syslog_ng_6_0_core.ParseNumber.{parse_number, parse_number_with_suffix}
use syslog_ng_6_0_core.ParseNumber.Suffixes.{mega, lower, upper, suffix_scales}

negative : parse_number (32 ∷ b'-' ∷ b'7' ∷ []) ≡ some (negsuc 6)
unfolding parse_number strtoll skip_space decimal
negative = refl

-- 9223372037g is more than 2^63.
overflows :
    parse_number_with_suffix
      (b'9' ∷ b'2' ∷ b'2' ∷ b'3' ∷ b'3' ∷ b'7' ∷ b'2' ∷ b'0' ∷ b'3' ∷ b'7' ∷ b'g' ∷ [])
    ≡ some (negsuc 9223372036709551615)
unfolding parse_number_with_suffix strtoll skip_space decimal
overflows = refl

suffix_scales_example :
    parse_number_with_suffix (b'1' ∷ b'2' ∷ b'M' ∷ b'i' ∷ b'B' ∷ []) ≡ some (pos (12 * 1048576))
suffix_scales_example =
    suffix_scales b'1' (b'2' ∷ []) (some (mega, upper, some lower)) (some upper) (refl, (refl, tt))
      (omega arith)
