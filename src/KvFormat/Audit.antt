-- ===== src/KvFormat/Audit.antt =====
-- modules/kvformat/linux-audit-scanner.c: values that the audit system of Linux writes in
-- hexadecimal.
use syslog_ng_6_0_core.Common.{
  ℕ, ◌+◌, ◌-◌, ◌*◌, ◌%◌, Bool, true, false, ◌&&◌, ◌||◌, not, Option, none, some, List, [], ◌∷◌,
  ◌++◌, length, ltb, leb, ◌==◌, if◌then◌else◌,
}
use syslog_ng_6_0_core.Common.Options.{◌>>=◌}
use syslog_ng_6_0_core.Common.Integers.{is_digit}
use syslog_ng_6_0_core.Common.Text.{strcmp}
use Prim.Native.Nat.{Ordering}
use syslog_ng_6_0_core.KvFormat.{KvScanner}

-- `none` is -1.
unfoldable pub decode_xdigit : ℕ → Option ℕ
decode_xdigit c =
    if leb b'0' c && leb c b'9'
    then some (c - b'0')
    else (let upper = if leb b'a' c && leb c b'z' then c - 32 else c in
        if leb b'A' upper && leb upper b'F' then some (upper - b'A' + 10) else none)

unfoldable pub decode_xbyte : ℕ → ℕ → Option ℕ
unfolding decode_xdigit
decode_xbyte xdigit1 xdigit2 = do
  nibble_hi ← decode_xdigit xdigit1
  nibble_lo ← decode_xdigit xdigit2
  some (nibble_hi * 16 + nibble_lo)

unfoldable pub is_control_char : ℕ → Bool
is_control_char ch = ltb ch 0x21 || ltb 0x7e ch

-- The loop over the pairs of digits, with `kernel_would_have_encoded_this_as_hex`; `none` where a
-- digit is bad. A last digit without its pair is read with the NUL behind it.
unfoldable pub hex_loop : List ℕ → Bool → List ℕ → Option (Bool × List ℕ)
unfolding decode_xbyte is_control_char
hex_loop decoded_value encoded [] = some (encoded, decoded_value)
hex_loop decoded_value encoded (c ∷ []) = decode_xbyte c 0 >>= λ v. some (encoded, decoded_value)
hex_loop decoded_value encoded (c ∷ d ∷ value) = do
  v ← decode_xbyte c d
  hex_loop (decoded_value ++ (if v == 0 then 9 else v) ∷ [])
      (encoded || (is_control_char v || v == 34)) value

-- `none` is FALSE.
unfoldable pub parse_linux_audit_hexstring : List ℕ → Option (List ℕ)
unfolding hex_loop
parse_linux_audit_hexstring value = hex_loop [] false value >>= λ r. if r.0 then some r.1 else none

-- The names in `hexcoded_fields`.
abbrev hexcoded_fields : List (List ℕ)
hexcoded_fields =
    (b'n' ∷ b'a' ∷ b'm' ∷ b'e' ∷ [])
    ∷ (b'p' ∷ b'r' ∷ b'o' ∷ b'c' ∷ b't' ∷ b'i' ∷ b't' ∷ b'l' ∷ b'e' ∷ [])
    ∷ (b'p' ∷ b'a' ∷ b't' ∷ b'h' ∷ [])
    ∷ (b'd' ∷ b'i' ∷ b'r' ∷ [])
    ∷ (b'c' ∷ b'o' ∷ b'm' ∷ b'm' ∷ [])
    ∷ (b'o' ∷ b'c' ∷ b'o' ∷ b'm' ∷ b'm' ∷ [])
    ∷ (b'd' ∷ b'a' ∷ b't' ∷ b'a' ∷ [])
    ∷ (b'o' ∷ b'l' ∷ b'd' ∷ [])
    ∷ (b'n' ∷ b'e' ∷ b'w' ∷ [])
    ∷ []

unfoldable pub listed : List ℕ → List (List ℕ) → Bool
listed field [] = false
listed field (name ∷ names) = elim (strcmp name field) [
  | Ordering.eq ↦ true
  | Ordering.lt ↦ listed field names
  | Ordering.gt ↦ listed field names
]

abbrev pub starts_argument : List ℕ → Bool
starts_argument [] = false
starts_argument (c ∷ []) = false
starts_argument (c ∷ d ∷ cs) = c == b'a' && is_digit d

unfoldable pub is_field_hex_encoded : List ℕ → Bool
unfolding listed
is_field_hex_encoded field = starts_argument field || listed field hexcoded_fields

-- `isxdigit` of the first character
abbrev pub starts_xdigit : List ℕ → Bool
starts_xdigit [] = false
starts_xdigit (c ∷ cs) = is_digit c || ((leb b'a' c && leb c b'f') || (leb b'A' c && leb c b'F'))

-- `g_utf8_validate` is GLib's. Where the digits fail, what has been decoded is of no use to the
-- caller, so the model leaves `decoded_value` as it was.
unfoldable pub parse_linux_audit_style_hexdump : (List ℕ → Bool) → KvScanner → Bool × KvScanner
unfolding parse_linux_audit_hexstring is_field_hex_encoded
parse_linux_audit_style_hexdump g_utf8_validate self =
    if not self.value_was_quoted
      && (length self.value % 2 == 0 && (starts_xdigit self.value && is_field_hex_encoded self.key))
    then (elim (parse_linux_audit_hexstring self.value) [
      | none ↦ (false, self)
      | some value ↦
          (g_utf8_validate value, record self { decoded_value = self.decoded_value ++ value })
    ])
    else (false, self)
