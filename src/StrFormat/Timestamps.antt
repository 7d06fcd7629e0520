-- ===== src/StrFormat/Timestamps.antt =====
-- Timestamps of lib/str-format.c, printed with padded numbers and scanned.
use syslog_ng_6_0_core.Common.{
  ℕ, ◌<◌, ◌≡◌, refl, ◌∙◌, Bool, some, List, ◌∷◌, ◌++◌, arith, get_elem?,
}
use syslog_ng_6_0_core.StrFormat.{
  Scan, ◌>>=◌, found, ℤ, pos, minus, scan_int, scan_expect_char, scan_month_abbrev, Tm,
  scan_iso_timestamp, scan_pix_timestamp, scan_linksys_timestamp, scan_bsd_timestamp,
}
use syslog_ng_6_0_core.StrFormat.Fields.{padded, scan_padded, then_scan}
use syslog_ng_6_0_core.StrFormat.Months.{month_names, scan_month_word}

-- HH:MM:SS
abbrev pub clock : ℕ → ℕ → ℕ → List ℕ → List ℕ
clock h m s rest = padded 2 h ++ 58 ∷ (padded 2 m ++ 58 ∷ (padded 2 s ++ rest))

module _ (g_ascii_isspace : ℕ → Bool) where
  scan_clock :
      {Y : Type 0} (f : ℤ → ℤ → ℤ → Scan Y) (h m s : ℕ) (rest : List ℕ)
      → h < 100
      → m < 100
      → s < 100
      → (scan_int g_ascii_isspace 2 >>= λ a. scan_expect_char 58 >>= λ _.
            scan_int g_ascii_isspace 2 >>= λ b.
            scan_expect_char 58 >>= λ _. scan_int g_ascii_isspace 2 >>= λ c. f a b c)
          (clock h m s rest)
        ≡ f (pos h) (pos m) (pos s) rest
  unfolding scan_expect_char
  scan_clock f h m s rest hh hm hs =
      then_scan (scan_int g_ascii_isspace 2) _
        (scan_padded g_ascii_isspace 1 h (58 ∷ (padded 2 m ++ 58 ∷ (padded 2 s ++ rest))) hh
          (omega arith))
        (then_scan (scan_int g_ascii_isspace 2) _
          (scan_padded g_ascii_isspace 1 m (58 ∷ (padded 2 s ++ rest)) hm (omega arith))
          (then_scan (scan_int g_ascii_isspace 2) _
            (scan_padded g_ascii_isspace 1 s rest hs (omega arith)) refl))

  -- A timestamp YYYY-MM-DDTHH:MM:SS of numbers padded with zeros (the year below 10000, the rest
  -- below 100) is scanned back, with the year counted from 1900 and the month from 0, and nothing
  -- behind it.
  pub iso_round_trip :
      (year mon mday hour min sec : ℕ) (rest : List ℕ)
      → year < 10000
      → mon < 100
      → mday < 100
      → hour < 100
      → min < 100
      → sec < 100
      → scan_iso_timestamp g_ascii_isspace (
          padded 4 year
          ++ 45 ∷ (padded 2 mon ++ 45 ∷ (padded 2 mday ++ 84 ∷ clock hour min sec rest)))
        ≡ (
          some (record {
            tm_year = minus (pos year) 1900;
            tm_mon = minus (pos mon) 1;
            tm_mday = pos mday;
            tm_hour = pos hour;
            tm_min = pos min;
            tm_sec = pos sec;
          }),
          rest,
        )
  unfolding scan_iso_timestamp scan_expect_char
  iso_round_trip year mon mday hour min sec rest hy hmo hd hh hmi hs =
      let time = clock hour min sec rest in
      then_scan (scan_int g_ascii_isspace 4) _
        (scan_padded g_ascii_isspace 3 year
          (45 ∷ (padded 2 mon ++ 45 ∷ (padded 2 mday ++ 84 ∷ time))) hy (omega arith))
        (then_scan (scan_int g_ascii_isspace 2) _
          (scan_padded g_ascii_isspace 1 mon (45 ∷ (padded 2 mday ++ 84 ∷ time)) hmo (omega arith))
          (then_scan (scan_int g_ascii_isspace 2) _
            (scan_padded g_ascii_isspace 1 mday (84 ∷ time) hd (omega arith))
            (scan_clock
              (λ a b c. found (record {
                tm_year = minus (pos year) 1900;
                tm_mon = minus (pos mon) 1;
                tm_mday = pos mday;
                tm_hour = a;
                tm_min = b;
                tm_sec = c;
              }))
              hour min sec rest hh hmi hs)))

-- the broken-down time of a year, a month from 0, a day and a clock
abbrev pub dated : ℤ → ℕ → ℕ → ℕ → ℕ → ℕ → Tm
dated year mon mday hour min sec = record {
  tm_year = year;
  tm_mon = pos mon;
  tm_mday = pos mday;
  tm_hour = pos hour;
  tm_min = pos min;
  tm_sec = pos sec;
}

module _ (g_ascii_isspace : ℕ → Bool) (word : List ℕ) (mon mday hour min sec : ℕ) (rest : List ℕ)
    (named : get_elem? month_names mon ≡ some word) (hd : mday < 100) (hh : hour < 100)
    (hm : min < 100) (hs : sec < 100) where
  -- A timestamp MMM DD HH:MM:SS of the name of a month and numbers below 100 padded with zeros is
  -- scanned back, and nothing behind it, and the year stays.
  pub bsd_round_trip :
      (year : ℤ)
      → scan_bsd_timestamp g_ascii_isspace year
          (word ++ 32 ∷ (padded 2 mday ++ 32 ∷ clock hour min sec rest))
        ≡ (some (dated year mon mday hour min sec), rest)
  unfolding scan_bsd_timestamp scan_expect_char
  bsd_round_trip year =
      let time = clock hour min sec rest in
      then_scan scan_month_abbrev _
        (scan_month_word word (32 ∷ (padded 2 mday ++ 32 ∷ time)) mon named)
        (then_scan (scan_int g_ascii_isspace 2) _
          (scan_padded g_ascii_isspace 1 mday (32 ∷ time) hd (omega arith))
          (scan_clock g_ascii_isspace
            (λ a b c. found (record {
              tm_year = year;
              tm_mon = pos mon;
              tm_mday = pos mday;
              tm_hour = a;
              tm_min = b;
              tm_sec = c;
            }))
            hour min sec rest hh hm hs))

  -- A timestamp MMM DD YYYY HH:MM:SS of the name of a month, a year below 10000 and numbers below
  -- 100, padded with zeros, is scanned back, with the year counted from 1900, and nothing behind
  -- it.
  pub pix_round_trip :
      (year : ℕ)
      → year < 10000
      → scan_pix_timestamp g_ascii_isspace
          (word ++ 32 ∷ (padded 2 mday ++ 32 ∷ (padded 4 year ++ 32 ∷ clock hour min sec rest)))
        ≡ (some (dated (minus (pos year) 1900) mon mday hour min sec), rest)
  unfolding scan_pix_timestamp scan_expect_char
  pix_round_trip year hy =
      let time = clock hour min sec rest in
      then_scan scan_month_abbrev _
        (scan_month_word word (32 ∷ (padded 2 mday ++ 32 ∷ (padded 4 year ++ 32 ∷ time))) mon named)
        (then_scan (scan_int g_ascii_isspace 2) _
          (scan_padded g_ascii_isspace 1 mday (32 ∷ (padded 4 year ++ 32 ∷ time)) hd (omega arith))
          (then_scan (scan_int g_ascii_isspace 4) _
            (scan_padded g_ascii_isspace 3 year (32 ∷ time) hy (omega arith))
            (scan_clock g_ascii_isspace
              (λ a b c. found (record {
                tm_year = minus (pos year) 1900;
                tm_mon = pos mon;
                tm_mday = pos mday;
                tm_hour = a;
                tm_min = b;
                tm_sec = c;
              }))
              hour min sec rest hh hm hs)))

  -- A timestamp MMM DD HH:MM:SS YYYY of the name of a month, a year below 10000 and numbers below
  -- 100, padded with zeros, is scanned back, with the year counted from 1900, and nothing behind
  -- it.
  pub linksys_round_trip :
      (year : ℕ)
      → year < 10000
      → scan_linksys_timestamp g_ascii_isspace
          (word ++ 32 ∷ (padded 2 mday ++ 32 ∷ clock hour min sec (32 ∷ (padded 4 year ++ rest))))
        ≡ (some (dated (minus (pos year) 1900) mon mday hour min sec), rest)
  unfolding scan_linksys_timestamp scan_expect_char
  linksys_round_trip year hy =
      let time = clock hour min sec (32 ∷ (padded 4 year ++ rest)) in
      let last : ℤ → ℤ → ℤ → Scan Tm = λ a b c. scan_expect_char 32 >>= λ _.
      scan_int g_ascii_isspace 4 >>= λ y. found (record {
        tm_year = minus y 1900;
        tm_mon = pos mon;
        tm_mday = pos mday;
        tm_hour = a;
        tm_min = b;
        tm_sec = c;
      }) in
      then_scan scan_month_abbrev _
        (scan_month_word word (32 ∷ (padded 2 mday ++ 32 ∷ time)) mon named)
        (then_scan (scan_int g_ascii_isspace 2) _
          (scan_padded g_ascii_isspace 1 mday (32 ∷ time) hd (omega arith))
          (scan_clock g_ascii_isspace last hour min sec (32 ∷ (padded 4 year ++ rest)) hh hm hs
            ∙ then_scan (scan_int g_ascii_isspace 4) _
                (scan_padded g_ascii_isspace 3 year rest hy (omega arith)) refl))

  -- Timestamps MMM DD HH:MM:SS, MMM DD YYYY HH:MM:SS and MMM DD HH:MM:SS YYYY of the name of a
  -- month, Jan to Dec, a year below 10000 and numbers below 100, padded with zeros, are scanned
  -- back, with the number of the month from 0, the year counted from 1900 where there is one and
  -- kept where there is none, and nothing behind them.
  pub dated_round_trip :
      (kept : ℤ) (year : ℕ)
      → year < 10000
      → (scan_bsd_timestamp g_ascii_isspace kept
            (word ++ 32 ∷ (padded 2 mday ++ 32 ∷ clock hour min sec rest))
          ≡ (some (dated kept mon mday hour min sec), rest))
        × (scan_pix_timestamp g_ascii_isspace
              (word ++ 32 ∷ (padded 2 mday ++ 32 ∷ (padded 4 year ++ 32 ∷ clock hour min sec rest)))
            ≡ (some (dated (minus (pos year) 1900) mon mday hour min sec), rest))
        × (scan_linksys_timestamp g_ascii_isspace (
              word
              ++ 32 ∷ (padded 2 mday ++ 32 ∷ clock hour min sec (32 ∷ (padded 4 year ++ rest))))
            ≡ (some (dated (minus (pos year) 1900) mon mday hour min sec), rest))
  dated_round_trip kept year hy =
      (bsd_round_trip kept, pix_round_trip year hy, linksys_round_trip year hy)
