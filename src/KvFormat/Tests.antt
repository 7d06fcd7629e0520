-- ===== src/KvFormat/Tests.antt =====
-- Runs of the scanner of name=value pairs, with a GLib that knows ASCII only.
use syslog_ng_6_0_core.Common.{
  ℕ, ◌≤◌, ◌≡◌, inl, inr, refl, true, false, Option, none, some, List, [], ◌∷◌, map, ltb, Bool-cases,
  if◌then◌else◌, arith,
}
use syslog_ng_6_0_core.KvFormat.{
  KvScanner, kv_scanner_is_valid_key_character, kv_scanner_input, scan_next, process,
}
use syslog_ng_6_0_core.KvFormat.Escape.{Utf8, tf_format_welf_call}
use syslog_ng_6_0_core.KvFormat.Audit.{parse_linux_audit_hexstring}
use syslog_ng_6_0_core.KvFormat.Characters.{IsUtf8}
use syslog_ng_6_0_core.KvFormat.RoundTrip.{AreWritable, welf_round_trip}
use syslog_ng_6_0_core.KvFormat.Progress.{process_ends}
use syslog_ng_6_0_core.KvFormat.Hexdump.{hex_text, needs_hex, tabbed, hexstring_decoded}

abbrev ascii_char : List ℕ → Option ℕ
ascii_char [] = none
ascii_char (c ∷ cs) = if ltb c 128 then some c else none

abbrev ascii_only : Utf8
ascii_only = record { get_char = ascii_char; skip = λ c. 1; unichar = λ u. [] }

ascii_same : (c u : ℕ) → ◌≡◌ {A = Option ℕ} (some c) (some u) → u ≡ c
ascii_same c u e = cc

ascii_none : (u : ℕ) → ◌≡◌ {A = Option ℕ} none (some u) → ⊥
ascii_none u e = cc

ascii_low : (c u : ℕ) → ltb c 128 ≡ true → u ≡ c → 128 ≤ u → ⊥
ascii_low c u low same h = ground arith

ascii_only-IsUtf8 : IsUtf8 ascii_only
ascii_only-IsUtf8 = record {
  ascii = λ c u cs e h. elim (Bool-cases (ltb c 128)) [
    | inl low ↦ (ascii_same c u (rw low at e), refl)
    | inr high ↦ absurd (ascii_none u (rw high at e))
  ];
  wide = λ c u cs e h. elim (Bool-cases (ltb c 128)) [
    | inl low ↦ absurd (ascii_low c u low (ascii_same c u (rw low at e)) h)
    | inr high ↦ absurd (ascii_none u (rw high at e))
  ];
}

abbrev scanner : KvScanner
scanner = record {
  input = [];
  key = [];
  value = [];
  decoded_value = [];
  value_was_quoted = false;
  value_separator = 61;
  quote_char = 0;
}

-- id=fw, msg="a "b", and an empty value
abbrev two_pairs : List (List ℕ × List ℕ)
two_pairs =
    (b'i' ∷ b'd' ∷ [], b'f' ∷ b'w' ∷ [])
    ∷ (b'm' ∷ b's' ∷ b'g' ∷ [], b'a' ∷ 32 ∷ 34 ∷ b'b' ∷ 9 ∷ [])
    ∷ (b'n' ∷ [], [])
    ∷ []

two_pairs_writable : AreWritable ascii_only two_pairs
unfolding kv_scanner_is_valid_key_character
two_pairs_writable = (
  (refl, (refl, tt)),
  omega arith,
  (b'f', refl, refl, (b'w', refl, refl, tt)),
  (
    (refl, (refl, (refl, tt))),
    omega arith,
    (b'a', refl, refl, (32, refl, refl, (34, refl, refl, (b'b', refl, refl, (9, refl, refl, tt))))),
    ((refl, tt), omega arith, tt, tt),
  ),
)

welf_round_trip_example :
    process 4 none none (kv_scanner_input scanner (tf_format_welf_call ascii_only [] two_pairs))
    ≡ some two_pairs
welf_round_trip_example =
    welf_round_trip ascii_only ascii_only-IsUtf8 two_pairs scanner refl two_pairs_writable

-- "x=1 y='a, b'", with a prefix
abbrev quoted_input : List ℕ
quoted_input = b'x' ∷ 61 ∷ b'1' ∷ 32 ∷ b'y' ∷ 61 ∷ 39 ∷ b'a' ∷ b',' ∷ 32 ∷ b'b' ∷ 39 ∷ []

abbrev quoted_pairs : List (List ℕ × List ℕ)
quoted_pairs = (b'.' ∷ b'x' ∷ [], b'1' ∷ []) ∷ (b'.' ∷ b'y' ∷ [], b'a' ∷ b',' ∷ 32 ∷ b'b' ∷ []) ∷ []

process_ends_example :
    (pairs : List (List ℕ × List ℕ)) × (process 13 none
        (some (b'.' ∷ []))
        (kv_scanner_input scanner quoted_input)
      ≡ some pairs)
process_ends_example =
    process_ends 13 none (some (b'.' ∷ [])) (kv_scanner_input scanner quoted_input) tt (omega arith)

scanned :
    process 13 none (some (b'.' ∷ [])) (kv_scanner_input scanner quoted_input) ≡ some quoted_pairs
unfolding process scan_next
scanned = refl

hexstring_decoded_example :
    parse_linux_audit_hexstring (hex_text (b'a' ∷ 32 ∷ 0 ∷ []))
    ≡ (if needs_hex (b'a' ∷ 32 ∷ 0 ∷ []) then some (map tabbed (b'a' ∷ 32 ∷ 0 ∷ [])) else none)
hexstring_decoded_example = hexstring_decoded (b'a' ∷ 32 ∷ 0 ∷ []) (omega arith)
