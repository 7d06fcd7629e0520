-- ===== src/KvFormat/Escape.antt =====
-- lib/utf8utils.c: the escaping of texts that need not be valid UTF-8, and the template function
-- of modules/kvformat/format-welf.c that writes name=value pairs with it.
use syslog_ng_6_0_core.Common.{
  ℕ, zero, suc, ◌+◌, ◌-◌, ◌/◌, ◌%◌, Bool, true, false, ◌&&◌, Option, none, some, List, [], ◌∷◌,
  ◌++◌, length, ltb, ◌==◌, if◌then◌else◌,
}

-- a hexadecimal digit of "%x"
abbrev pub xdigit : ℕ → ℕ
xdigit n = if ltb n 10 then b'0' + n else b'a' + (n - 10)

-- "%02x" of a number below 256
abbrev pub two_digits : ℕ → List ℕ
two_digits n = xdigit (n / 16 % 16) ∷ xdigit (n % 16) ∷ []

-- The formats of control characters and of invalid bytes that the two kinds of escaping give.
pub data Format : Type 0 where
  binary text : Format

-- "\\x%02x" and "\\u%04x"
abbrev pub control_format : Format → ℕ → List ℕ
control_format binary c = 92 ∷ b'x' ∷ two_digits c
control_format text c = 92 ∷ b'u' ∷ b'0' ∷ b'0' ∷ two_digits c

-- "\\x%02x" and "\\\\x%02x"
abbrev pub invalid_format : Format → ℕ → List ℕ
invalid_format binary c = 92 ∷ b'x' ∷ two_digits c
invalid_format text c = 92 ∷ 92 ∷ b'x' ∷ two_digits c

-- `strchr (unsafe_chars, c)`; a NULL is the empty list here, which no code tells apart
abbrev pub one_of : ℕ → List ℕ → Bool
one_of c [] = false
one_of c (u ∷ us) = if c == u then true else one_of c us

unfoldable pub is_character_unsafe : ℕ → List ℕ → Bool
is_character_unsafe uchar unsafe_chars = ltb uchar 256 && one_of uchar unsafe_chars

-- What the code takes from GLib: the character at the front of a text, where there is a valid one
-- (`g_utf8_get_char_validated`), the length of a character by its first byte (`g_utf8_skip`), and
-- the bytes of a character (`g_string_append_unichar`).
pub record Utf8 : Type 0 where
  pub get_char : List ℕ → Option ℕ
  pub skip : ℕ → ℕ
  pub unichar : ℕ → List ℕ

module _ (utf8 : Utf8) (format : Format) (unsafe_chars : List ℕ) where
  -- the switch on a valid character
  unfoldable pub escaped_character : ℕ → List ℕ
  unfolding is_character_unsafe
  escaped_character uchar =
      if uchar == 8
      then 92 ∷ b'b' ∷ []
      else if uchar == 12
      then 92 ∷ b'f' ∷ []
      else if uchar == 10
      then 92 ∷ b'n' ∷ []
      else if uchar == 13
      then 92 ∷ b'r' ∷ []
      else if uchar == 9
      then 92 ∷ b't' ∷ []
      else if uchar == 92
      then 92 ∷ 92 ∷ []
      else if ltb uchar 32
      then control_format format uchar
      else if is_character_unsafe uchar unsafe_chars
      then 92 ∷ uchar ∷ []
      else if ltb uchar 0x80
      then uchar ∷ []
      else utf8.unichar uchar

  -- `_append_unsafe_utf8_as_escaped`; the first argument is how many bytes of the text belong to a
  -- character that has been written.
  unfoldable pub append_unsafe_utf8_as_escaped : ℕ → List ℕ → List ℕ
  unfolding escaped_character
  append_unsafe_utf8_as_escaped k [] = []
  append_unsafe_utf8_as_escaped (suc k) (c ∷ raw) = append_unsafe_utf8_as_escaped k raw
  append_unsafe_utf8_as_escaped zero (c ∷ raw) = elim (utf8.get_char (c ∷ raw)) [
    | none ↦ invalid_format format c ++ append_unsafe_utf8_as_escaped 0 raw
    | some uchar ↦ escaped_character uchar ++ append_unsafe_utf8_as_escaped (utf8.skip c - 1) raw
  ]

-- `memchr (value, ' ', value_len) != NULL`
abbrev pub has_space : List ℕ → Bool
has_space [] = false
has_space (c ∷ cs) = if c == 32 then true else has_space cs

abbrev pub quoted : List ℕ → List ℕ
quoted inner = 34 ∷ inner ++ 34 ∷ []

unfoldable pub tf_format_welf_foreach : Utf8 → List ℕ → List ℕ → List ℕ → List ℕ
unfolding append_unsafe_utf8_as_escaped
tf_format_welf_foreach utf8 result name value =
    (if ltb 0 (length result) then result ++ 32 ∷ [] else result)
    ++ (name
        ++ 61
          ∷ (if has_space value
              then quoted (append_unsafe_utf8_as_escaped utf8 binary (34 ∷ []) 0 value)
              else append_unsafe_utf8_as_escaped utf8 binary [] 0 value))

-- `value_pairs_foreach_sorted` calls it for each pair in turn.
unfoldable pub tf_format_welf_call : Utf8 → List ℕ → List (List ℕ × List ℕ) → List ℕ
unfolding tf_format_welf_foreach
tf_format_welf_call utf8 result [] = result
tf_format_welf_call utf8 result ((name, value) ∷ pairs) =
    tf_format_welf_call utf8 (tf_format_welf_foreach utf8 result name value) pairs
