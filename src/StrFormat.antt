-- ===== src/StrFormat.antt =====
-- lib/str-format.c: numbers and timestamps as text. A buffer `buf` with `left` bytes is the list of
-- these bytes; what a `struct tm` holds after a failed scan is left out.
pub mod Padded
pub mod Numbers
pub mod Fields
pub mod Months
pub mod Timestamps
pub mod Trim
mod Tests
pub use syslog_ng_6_0_core.Common.Integers.{ℤ, pos, negsuc}
use syslog_ng_6_0_core.Common.{
  ℕ, zero, suc, ◌+◌, ◌-◌, ◌*◌, ◌/◌, ◌%◌, ◌^◌, Bool, true, false, not, ◌&&◌, ◌||◌, Option, none,
  some, List, [], ◌∷◌, ◌++◌, ltb, leb, ◌==◌, if◌then◌else◌, length, take, drop, set, replicate,
  reverse,
}

-- `digits`
abbrev pub digit : ℕ → ℕ
digit d = if ltb d 10 then 48 + d else 87 + d

-- the loops of `format_uint64_base10_rev` and `format_uint64_base16_rev`
unfoldable pub format_rev : ℕ → ℕ → ℕ → List ℕ
format_rev base zero value = []
format_rev base (suc result_len) value =
    let rest = format_rev base result_len (value / base) in
    if ltb 0 value then digit (value % base) ∷ rest else []

unfoldable pub format_uint64_base10_rev : ℕ → ℕ → List ℕ
format_uint64_base10_rev result_len value = format_rev 10 result_len value

unfoldable pub format_uint64_base16_rev : ℕ → ℕ → List ℕ
format_uint64_base16_rev result_len value = format_rev 16 result_len value

-- The first round always runs.
unfoldable pub format_uint32_base10_rev : ℕ → ℕ → List ℕ
format_uint32_base10_rev result_len value =
    digit (value % 10) ∷ format_rev 10 (result_len - 1) (value / 10)

unfoldable pub format_uint32_base16_rev : ℕ → ℕ → List ℕ
format_uint32_base16_rev result_len value =
    digit (value % 16) ∷ format_rev 16 (result_len - 1) (value / 16)

-- the last loop of `format_uint32_padded`, where `end` is `pos + field_len - i`
unfoldable pub place : List ℕ → ℕ → List ℕ → List ℕ
place str end [] = str
place str end (d ∷ num) = place (set str (end - 1) d) (end - 1) num

-- What both do once `num` is there. The bytes that `result` grows by are all written, so 0 stands for
-- them before; a negative `field_len` is less than any length, as 0.
unfoldable pub put_padded : List ℕ → ℕ → ℕ → List ℕ → ℕ × List ℕ
unfolding place
put_padded result field_len pad_char num =
    let len = length num in
    let field = if field_len == 0 || ltb field_len len then len else field_len in
    (
      field,
      place (result ++ (replicate (field - len) pad_char ++ replicate len 0))
          (length result + field) num,
    )

unfoldable pub format_uint32_padded : List ℕ → ℕ → ℕ → ℕ → ℕ → ℕ × List ℕ
unfolding put_padded format_uint32_base10_rev format_uint32_base16_rev
format_uint32_padded result field_len pad_char base value =
    if base == 10
    then put_padded result field_len pad_char (format_uint32_base10_rev 32 value)
    else if base == 16
    then put_padded result field_len pad_char (format_uint32_base16_rev 32 value)
    else (0, result)

unfoldable pub format_uint64_padded : List ℕ → ℕ → ℕ → ℕ → ℕ → ℕ × List ℕ
unfolding put_padded format_uint64_base10_rev format_uint64_base16_rev
format_uint64_padded result field_len pad_char base value =
    if base == 10
    then put_padded result field_len pad_char (format_uint64_base10_rev 64 value)
    else if base == 16
    then put_padded result field_len pad_char (format_uint64_base16_rev 64 value)
    else (0, result)

-- A scan returns FALSE, or TRUE and what it stores; the list is the buffer, before and after.
abbrev pub Scan : Type 0 → Type 0
Scan X = List ℕ → Option X × List ℕ

abbrev pub proceed : {X Y : Type 0} → (X → Scan Y) → Option X × List ℕ → Option Y × List ℕ
proceed f (none, buf) = (none, buf)
proceed f (some x, buf) = f x buf

infixl 5 ◌>>=◌ ◌>>◌
abbrev pub ◌>>=◌ : {X Y : Type 0} → Scan X → (X → Scan Y) → Scan Y
◌>>=◌ m f buf = proceed f (m buf)

abbrev pub ◌>>◌ : {Y : Type 0} → Scan (Unit {0}) → Scan Y → Scan Y
m >> k = m >>= λ _. k

abbrev pub found : {X : Type 0} → X → Scan X
found x buf = (some x, buf)

abbrev pub is_digit : ℕ → Bool
is_digit c = leb 48 c && leb c 57

-- `g_ascii_isspace` is a function of GLib.
module _ (g_ascii_isspace : ℕ → Bool) where
  -- the loop of `scan_uint32`, with `result` so far
  unfoldable pub scan_loop : ℕ → ℕ → Scan ℕ
  scan_loop zero result buf = (some result, buf)
  scan_loop (suc field_width) result [] = (none, [])
  scan_loop (suc field_width) result (c ∷ buf) =
      let rest =
        scan_loop field_width (if is_digit c then (result * 10 + (c - 48)) % 2 ^ 32 else result)
          buf in
      if is_digit c || g_ascii_isspace c then rest else (none, c ∷ buf)

  unfoldable pub scan_uint32 : ℕ → Scan ℕ
  scan_uint32 field_width = scan_loop field_width 0

-- `gint`
-- `(gint) value` of a `guint32`
abbrev pub to_gint : ℕ → ℤ
to_gint value = if ltb value (2 ^ 31) then pos value else negsuc (2 ^ 32 - 1 - value)

abbrev pub minus : ℤ → ℕ → ℤ
minus (pos a) b = if leb b a then pos (a - b) else negsuc (b - a - 1)
minus (negsuc a) b = negsuc (a + b)

unfoldable pub scan_int : (ℕ → Bool) → ℕ → Scan ℤ
scan_int g_ascii_isspace field_width = do
  value ← scan_uint32 g_ascii_isspace field_width
  found (to_gint value)

unfoldable pub scan_expect_char : ℕ → Scan (Unit {0})
scan_expect_char value [] = (none, [])
scan_expect_char value (c ∷ buf) = if c == value then (some tt, buf) else (none, c ∷ buf)

abbrev lower : ℕ → ℕ
lower c = if leb 65 c && leb c 90 then c + 32 else c

-- `strncasecmp (buf, word, 3) == 0`, where `word` has no NUL
abbrev pub equals_caseless : List ℕ → List ℕ → Bool
equals_caseless (a ∷ b ∷ c ∷ _) (x ∷ y ∷ z ∷ _) =
    lower a == lower x && (lower b == lower y && lower c == lower z)
equals_caseless _ _ = false

-- The cases of the switch, as the letter, the word and the number, in order; `none` is -1.
abbrev pub lookup_abbrev : List (List ℕ × ℕ) → List ℕ → Option ℕ
lookup_abbrev [] buf = none
lookup_abbrev ((word, n) ∷ words) buf =
    if equals_caseless buf word then some n else lookup_abbrev words buf

abbrev pub starts_word : ℕ → List (List ℕ × ℕ) → Bool
starts_word c [] = false
starts_word c (([], n) ∷ words) = starts_word c words
starts_word c ((x ∷ word, n) ∷ words) = c == x || starts_word c words

abbrev pub of_letter : ℕ → List (List ℕ × ℕ) → List (List ℕ × ℕ)
of_letter c [] = []
of_letter c (([], n) ∷ words) = of_letter c words
of_letter c ((x ∷ word, n) ∷ words) =
    if c == x then (x ∷ word, n) ∷ of_letter c words else of_letter c words

-- The switch is on the first byte, which is not folded; a word of no case gives -1 and TRUE.
unfoldable pub scan_abbrev : List (List ℕ × ℕ) → Scan (Option ℕ)
scan_abbrev words [] = (none, [])
scan_abbrev words (c ∷ buf) =
    if ltb (length (c ∷ buf)) 3
    then (none, c ∷ buf)
    else if starts_word c words
    then (some (lookup_abbrev (of_letter c words) (c ∷ buf)), drop 3 (c ∷ buf))
    else (none, c ∷ buf)

abbrev pub day_words : List (List ℕ × ℕ)
day_words =
    (83 ∷ 117 ∷ 110 ∷ [], 0)
    ∷ (83 ∷ 97 ∷ 116 ∷ [], 6)
    ∷ (77 ∷ 111 ∷ 110 ∷ [], 1)
    ∷ (84 ∷ 117 ∷ 101 ∷ [], 2)
    ∷ (84 ∷ 104 ∷ 117 ∷ [], 4)
    ∷ (87 ∷ 101 ∷ 100 ∷ [], 3)
    ∷ (70 ∷ 114 ∷ 105 ∷ [], 5)
    ∷ []

abbrev pub month_words : List (List ℕ × ℕ)
month_words =
    (74 ∷ 97 ∷ 110 ∷ [], 0)
    ∷ (74 ∷ 117 ∷ 110 ∷ [], 5)
    ∷ (74 ∷ 117 ∷ 108 ∷ [], 6)
    ∷ (70 ∷ 101 ∷ 98 ∷ [], 1)
    ∷ (77 ∷ 97 ∷ 114 ∷ [], 2)
    ∷ (77 ∷ 97 ∷ 121 ∷ [], 4)
    ∷ (65 ∷ 112 ∷ 114 ∷ [], 3)
    ∷ (65 ∷ 117 ∷ 103 ∷ [], 7)
    ∷ (83 ∷ 101 ∷ 112 ∷ [], 8)
    ∷ (79 ∷ 99 ∷ 116 ∷ [], 9)
    ∷ (78 ∷ 111 ∷ 118 ∷ [], 10)
    ∷ (68 ∷ 101 ∷ 99 ∷ [], 11)
    ∷ []

unfoldable pub scan_day_abbrev : Scan (Option ℕ)
scan_day_abbrev = scan_abbrev day_words

unfoldable pub scan_month_abbrev : Scan (Option ℕ)
scan_month_abbrev = scan_abbrev month_words

abbrev pub month_int : Option ℕ → ℤ
month_int none = negsuc 0
month_int (some n) = pos n

-- The fields of `struct tm` that a scan stores.
pub record Tm : Type 0 where
  pub tm_year : ℤ
  pub tm_mon : ℤ
  pub tm_mday : ℤ
  pub tm_hour : ℤ
  pub tm_min : ℤ
  pub tm_sec : ℤ

module _ (g_ascii_isspace : ℕ → Bool) where
  unfoldable pub scan_iso_timestamp : Scan Tm
  scan_iso_timestamp = do
    tm_year ← scan_int g_ascii_isspace 4
    scan_expect_char 45
    tm_mon ← scan_int g_ascii_isspace 2
    scan_expect_char 45
    tm_mday ← scan_int g_ascii_isspace 2
    scan_expect_char 84
    tm_hour ← scan_int g_ascii_isspace 2
    scan_expect_char 58
    tm_min ← scan_int g_ascii_isspace 2
    scan_expect_char 58
    tm_sec ← scan_int g_ascii_isspace 2
    found (record {
      tm_year = minus tm_year 1900;
      tm_mon = minus tm_mon 1;
      tm_mday = tm_mday;
      tm_hour = tm_hour;
      tm_min = tm_min;
      tm_sec = tm_sec;
    })

  unfoldable pub scan_pix_timestamp : Scan Tm
  scan_pix_timestamp = do
    tm_mon ← scan_month_abbrev
    scan_expect_char 32
    tm_mday ← scan_int g_ascii_isspace 2
    scan_expect_char 32
    tm_year ← scan_int g_ascii_isspace 4
    scan_expect_char 32
    tm_hour ← scan_int g_ascii_isspace 2
    scan_expect_char 58
    tm_min ← scan_int g_ascii_isspace 2
    scan_expect_char 58
    tm_sec ← scan_int g_ascii_isspace 2
    found (record {
      tm_year = minus tm_year 1900;
      tm_mon = month_int tm_mon;
      tm_mday = tm_mday;
      tm_hour = tm_hour;
      tm_min = tm_min;
      tm_sec = tm_sec;
    })

  unfoldable pub scan_linksys_timestamp : Scan Tm
  scan_linksys_timestamp = do
    tm_mon ← scan_month_abbrev
    scan_expect_char 32
    tm_mday ← scan_int g_ascii_isspace 2
    scan_expect_char 32
    tm_hour ← scan_int g_ascii_isspace 2
    scan_expect_char 58
    tm_min ← scan_int g_ascii_isspace 2
    scan_expect_char 58
    tm_sec ← scan_int g_ascii_isspace 2
    scan_expect_char 32
    tm_year ← scan_int g_ascii_isspace 4
    found (record {
      tm_year = minus tm_year 1900;
      tm_mon = month_int tm_mon;
      tm_mday = tm_mday;
      tm_hour = tm_hour;
      tm_min = tm_min;
      tm_sec = tm_sec;
    })

  -- `tm_year` stays as the caller has set it.
  unfoldable pub scan_bsd_timestamp : ℤ → Scan Tm
  scan_bsd_timestamp tm_year = do
    tm_mon ← scan_month_abbrev
    scan_expect_char 32
    tm_mday ← scan_int g_ascii_isspace 2
    scan_expect_char 32
    tm_hour ← scan_int g_ascii_isspace 2
    scan_expect_char 58
    tm_min ← scan_int g_ascii_isspace 2
    scan_expect_char 58
    tm_sec ← scan_int g_ascii_isspace 2
    found (record {
      tm_year = tm_year;
      tm_mon = month_int tm_mon;
      tm_mday = tm_mday;
      tm_hour = tm_hour;
      tm_min = tm_min;
      tm_sec = tm_sec;
    })

-- `strchr (characters, c) != NULL`, where `c` is not NUL
abbrev pub member : ℕ → List ℕ → Bool
member c [] = false
member c (x ∷ xs) = x == c || member c xs

-- the loop of `str_rtrim`, on the string, last byte first: what is overwritten by NUL is gone
abbrev pub trim_first : List ℕ → List ℕ → List ℕ
trim_first characters [] = []
trim_first characters (c ∷ cs) =
    let rest = trim_first characters cs in if member c characters then rest else c ∷ cs

-- on a string without its NUL
unfoldable pub str_rtrim : List ℕ → List ℕ → List ℕ
str_rtrim string characters = reverse (trim_first characters (reverse string))
