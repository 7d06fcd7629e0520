-- ===== src/KvFormat/Plain.antt =====
-- modules/kvformat/kv-scanner-simple.c: the scan of a value without quotes.
use syslog_ng_6_0_core.Common.{
  ℕ, ◌<◌, ◌≡◌, refl, sym, ap, ◌∙◌, Bool, true, false, not, ◌&&◌, List, [], ◌∷◌, ◌++◌, append-nil,
  append_assoc, ltb, ◌==◌, arith,
}
use syslog_ng_6_0_core.KvFormat.{
  KvScanner, initial, append_c, quote_step, extract_loop, is_delimiter,
}
use syslog_ng_6_0_core.KvFormat.Escape.{
  Utf8, binary, escaped_character, is_character_unsafe, append_unsafe_utf8_as_escaped,
}
use syslog_ng_6_0_core.KvFormat.Characters.{Wide, IsUtf8, Clean, append_value, read_characters}

-- printable characters but the space, the quotes, the comma and the backslash
abbrev pub is_plain : ℕ → Bool
is_plain u = ltb 32 u && (not (u == 34) && (not (u == 39) && (not (u == 44) && not (u == 92))))

pub not_delimiter :
    (b : ℕ) (cs : List ℕ) → (b == 32) ≡ false → (b == 44) ≡ false → is_delimiter b cs ≡ false
unfolding is_delimiter
not_delimiter b [] h k = h
not_delimiter b (d ∷ cs) h k = rw (h, k) refl

plain_byte :
    (b : ℕ) (tail : List ℕ) (self : KvScanner)
    → is_plain b ≡ true
    → extract_loop initial self (b ∷ tail) ≡ extract_loop initial (append_c self b) tail
unfolding extract_loop quote_step
plain_byte b tail self h =
    let space : (b == 32) ≡ false = ground arith in
    let comma : (b == 44) ≡ false = ground arith in
    let double : (b == 34) ≡ false = ground arith in
    let single : (b == 39) ≡ false = ground arith in
    rw (not_delimiter b tail space comma, double, single) refl

high_bytes :
    (bs tail : List ℕ) (self : KvScanner)
    → Unit {0}
    → Wide bs
    → extract_loop initial self (bs ++ tail) ≡ extract_loop initial (append_value self bs) tail
high_bytes [] tail self q w =
    ap (λ v. extract_loop initial (record self { value = v }) tail) (sym (append-nil self.value))
high_bytes (b ∷ bs) tail self q w =
    plain_byte b (bs ++ tail) self (ground arith)
    ∙ high_bytes bs tail (append_c self b) q w.1
    ∙ ap (λ v. extract_loop initial (record self { value = v }) tail)
        (append_assoc self.value (b ∷ []) bs)

module _ (utf8 : Utf8) where
  plain_escape :
      (u : ℕ) → is_plain u ≡ true → u < 0x80 → escaped_character utf8 binary [] u ≡ u ∷ []
  unfolding escaped_character is_character_unsafe
  plain_escape u h l = ground arith

  pub plain_value :
      IsUtf8 utf8
      → (v tail : List ℕ) (self : KvScanner) → Clean utf8 is_plain 0 v
      → extract_loop initial self (append_unsafe_utf8_as_escaped utf8 binary [] 0 v ++ tail)
        ≡ extract_loop initial (append_value self v) tail
  plain_value laws v tail self c =
      read_characters utf8 laws [] (λ u h. refl) is_plain initial (λ self. Unit {0}) (λ self v q. q)
        (λ u tail self q h l. rw (plain_escape u h l) (plain_byte u tail self h)) high_bytes 0 v
        tail self tt c
