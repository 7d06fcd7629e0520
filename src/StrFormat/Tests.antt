-- ===== src/StrFormat/Tests.antt =====
-- Runs of lib/str-format.c; a space is the one byte that `g_ascii_isspace` accepts here.
use syslog_ng_6_0_core.Common.{
  ℕ, ◌≤◌, ◌<◌, ◌≡◌, ◌⊎◌, inr, refl, Bool, none, some, List, [], ◌∷◌, ◌++◌, arith, length, reverse,
  ◌==◌,
}
use syslog_ng_6_0_core.StrFormat.{
  ℤ, pos, Tm, format_rev, place, put_padded, format_uint32_padded, format_uint64_padded,
  format_uint32_base16_rev, scan_uint32, scan_month_abbrev, scan_day_abbrev, scan_abbrev,
  scan_iso_timestamp, scan_bsd_timestamp, scan_pix_timestamp, scan_linksys_timestamp, str_rtrim,
}
use syslog_ng_6_0_core.StrFormat.Trim.{AllIn, FirstNotIn, str_rtrim_lem}
use syslog_ng_6_0_core.StrFormat.Numbers.{scan-format_uint32, format_uint64_cases}
use syslog_ng_6_0_core.StrFormat.Fields.{padded}
use syslog_ng_6_0_core.StrFormat.Timestamps.{clock, iso_round_trip, dated_round_trip}

abbrev is_space : ℕ → Bool
is_space c = c == 32

-- 255 is ff.
hex : format_uint32_padded [] 4 48 16 255 ≡ (4, 48 ∷ 48 ∷ 102 ∷ 102 ∷ [])
unfolding format_uint32_padded put_padded format_uint32_base16_rev format_rev place
hex = refl

-- A word that only begins like a month counts as one, with number -1.
no_month : scan_month_abbrev (74 ∷ 120 ∷ 120 ∷ []) ≡ (some none, [])
unfolding scan_month_abbrev scan_abbrev
no_month = refl

thursday : scan_day_abbrev (84 ∷ 72 ∷ 117 ∷ 32 ∷ []) ≡ (some (some 4), 32 ∷ [])
unfolding scan_day_abbrev scan_abbrev
thursday = refl

trimmed : str_rtrim (97 ∷ 10 ∷ 98 ∷ 10 ∷ 32 ∷ []) (32 ∷ 10 ∷ []) ≡ 97 ∷ 10 ∷ 98 ∷ []
unfolding str_rtrim
trimmed = refl

scan-format_uint32_example :
    (text : List ℕ) × (format_uint32_padded [] 5 32 10 120 ≡ (length text, text))
    × (5 ≤ length text)
    × (scan_uint32 is_space (length text) (text ++ 9 ∷ []) ≡ (some 120, 9 ∷ []))
scan-format_uint32_example =
    scan-format_uint32 is_space [] (9 ∷ []) 5 32 120 (inr (refl, refl)) (omega arith)

abbrev the_value : ℕ
the_value = 0

-- The zero of 64 bits has no digit.
format_uint64_cases_example :
    ((0 < the_value)
      × (format_uint64_padded [] 2 32 10 the_value ≡ format_uint32_padded [] 2 32 10 the_value))
    ⊎ ((the_value ≡ 0) × (format_uint64_padded [] 2 32 10 the_value ≡ (2, 32 ∷ 32 ∷ [])))
format_uint64_cases_example = format_uint64_cases [] 2 32 the_value (omega arith)

-- 2016-03-01T10:20:30
iso_round_trip_example :
    scan_iso_timestamp is_space
      (padded 4 2016 ++ 45 ∷ (padded 2 3 ++ 45 ∷ (padded 2 1 ++ 84 ∷ clock 10 20 30 [])))
    ≡ (
      some (record {
        tm_year = pos 116;
        tm_mon = pos 2;
        tm_mday = pos 1;
        tm_hour = pos 10;
        tm_min = pos 20;
        tm_sec = pos 30;
      }),
      [],
    )
iso_round_trip_example =
    iso_round_trip is_space 2016 3 1 10 20 30 [] (omega arith) (omega arith) (omega arith)
      (omega arith) (omega arith) (omega arith)

abbrev mar : List ℕ
mar = 77 ∷ 97 ∷ 114 ∷ []

abbrev march : ℤ → Tm
march year = record {
  tm_year = year;
  tm_mon = pos 2;
  tm_mday = pos 1;
  tm_hour = pos 10;
  tm_min = pos 20;
  tm_sec = pos 30;
}

dated_round_trip_example :
    (scan_bsd_timestamp is_space
        (pos 200)
        (mar ++ 32 ∷ (padded 2 1 ++ 32 ∷ clock 10 20 30 (58 ∷ [])))
      ≡ (some (march (pos 200)), 58 ∷ []))
    × (scan_pix_timestamp is_space
          (mar ++ 32 ∷ (padded 2 1 ++ 32 ∷ (padded 4 2016 ++ 32 ∷ clock 10 20 30 (58 ∷ []))))
        ≡ (some (march (pos 116)), 58 ∷ []))
    × (scan_linksys_timestamp is_space
          (mar ++ 32 ∷ (padded 2 1 ++ 32 ∷ clock 10 20 30 (32 ∷ (padded 4 2016 ++ 58 ∷ []))))
        ≡ (some (march (pos 116)), 58 ∷ []))
dated_round_trip_example =
    dated_round_trip is_space mar 2 1 10 20 30 (58 ∷ []) refl (omega arith) (omega arith)
      (omega arith) (omega arith) (pos 200) 2016 (omega arith)

str_rtrim_lem_example :
    (suffix : List ℕ) × AllIn (32 ∷ 10 ∷ []) suffix
    × (97 ∷ 10 ∷ [] ≡ str_rtrim (97 ∷ 10 ∷ []) (32 ∷ 10 ∷ []) ++ suffix)
    × FirstNotIn (32 ∷ 10 ∷ []) (reverse (str_rtrim (97 ∷ 10 ∷ []) (32 ∷ 10 ∷ [])))
str_rtrim_lem_example = str_rtrim_lem (97 ∷ 10 ∷ []) (32 ∷ 10 ∷ [])
