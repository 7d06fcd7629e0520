-- ===== src/KvFormat/Hexdump.antt =====
-- modules/kvformat/linux-audit-scanner.c: what its decoding makes of the kernel's encoding.
use syslog_ng_6_0_core.Common.{
  ℕ, ◌+◌, ◌-◌, ◌/◌, ◌%◌, ◌<◌, ◌≡◌, refl, sym, ap, ◌∙◌, Bool, true, false, not, ◌&&◌, leb, ◌||◌,
  none, some, List, [], ◌∷◌, ◌++◌, map, append_assoc, append-nil, ltb, ◌==◌, if◌then◌else◌, arith,
}
use syslog_ng_6_0_core.KvFormat.Audit.{
  decode_xdigit, decode_xbyte, is_control_char, hex_loop, parse_linux_audit_hexstring,
}

-- a digit of the kernel's "%02X"
abbrev pub upper_xdigit : ℕ → ℕ
upper_xdigit n = if ltb n 10 then b'0' + n else b'A' + (n - 10)

abbrev pub hex_text : List ℕ → List ℕ
hex_text [] = []
hex_text (c ∷ cs) = upper_xdigit (c / 16) ∷ upper_xdigit (c % 16) ∷ hex_text cs

abbrev pub AreBytes : List ℕ → Type 0
AreBytes [] = Unit {0}
AreBytes (c ∷ cs) = (c < 256) × AreBytes cs

-- whether the kernel writes a text in hexadecimal: it holds a quote or a character outside 0x21 to
-- 0x7e
abbrev pub needs_hex : List ℕ → Bool
needs_hex [] = false
needs_hex (c ∷ cs) = (not (leb 0x21 c && leb c 0x7e) || c == 34) || needs_hex cs

-- the decoder writes a NUL as a tab
abbrev pub tabbed : ℕ → ℕ
tabbed c = if c == 0 then 9 else c

decode-upper_xdigit : (n : ℕ) → n < 16 → decode_xdigit (upper_xdigit n) ≡ some n
unfolding decode_xdigit
decode-upper_xdigit n h = ground arith

decode_xbyte_lem :
    (c : ℕ) → c < 256 → decode_xbyte (upper_xdigit (c / 16)) (upper_xdigit (c % 16)) ≡ some c
unfolding decode_xbyte
decode_xbyte_lem c h =
    rw (decode-upper_xdigit (c / 16) (omega arith), decode-upper_xdigit (c % 16) (omega arith))
      (ap some (omega arith))

control_outside : (c : ℕ) → is_control_char c ≡ not (leb 0x21 c && leb c 0x7e)
unfolding is_control_char
control_outside c = ground arith

or_assoc : (a b c : Bool) → ((a || b) || c) ≡ (a || (b || c))
or_assoc true b c = refl
or_assoc false b c = refl

hex_loop_lem :
    (out : List ℕ) (encoded : Bool) (cs : List ℕ)
    → AreBytes cs
    → hex_loop out encoded (hex_text cs) ≡ some ((encoded || needs_hex cs), out ++ map tabbed cs)
unfolding hex_loop
hex_loop_lem out true [] h = ap (λ v. some (true, v)) (sym (append-nil out))
hex_loop_lem out false [] h = ap (λ v. some (false, v)) (sym (append-nil out))
hex_loop_lem out encoded (c ∷ cs) h =
    rw (decode_xbyte_lem c h.0, hex_loop, sym (control_outside c))
      (hex_loop_lem (out ++ tabbed c ∷ []) (encoded || (is_control_char c || c == 34)) cs h.1
        ∙ simp (or_assoc, append_assoc))

-- The hexadecimal text of a list of bytes is decoded to these bytes, with each NUL as a tab, where
-- one of them is a quote or not between 0x21 and 0x7e, and else it is refused.
pub hexstring_decoded :
    (cs : List ℕ)
    → AreBytes cs
    → parse_linux_audit_hexstring (hex_text cs)
      ≡ (if needs_hex cs then some (map tabbed cs) else none)
unfolding parse_linux_audit_hexstring
hexstring_decoded cs h = rw (hex_loop_lem [] false cs h) refl
