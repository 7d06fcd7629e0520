-- ===== src/KvFormat/Quoted.antt =====
-- modules/kvformat/kv-scanner-simple.c: the scan of a quoted value that lib/utf8utils.c escaped.
use syslog_ng_6_0_core.Common.{
  ℕ, ◌<◌, ◌≡◌, inl, inr, refl, ap, ◌∙◌, Bool, true, false, ◌||◌, List, [], ◌∷◌, ◌++◌, append-nil,
  append_assoc, ltb, leb, ◌==◌, Bool-cases, arith,
}
use syslog_ng_6_0_core.KvFormat.{
  KvScanner, string, append_c, decode_backslash_escape, quote_step, extract_loop,
}
use syslog_ng_6_0_core.KvFormat.Escape.{
  Utf8, binary, escaped_character, is_character_unsafe, append_unsafe_utf8_as_escaped,
}
use syslog_ng_6_0_core.KvFormat.Characters.{Wide, IsUtf8, Clean, append_value, read_characters}

-- the characters that the escapes of the scanner reach
abbrev pub has_escape : ℕ → Bool
has_escape u = leb 32 u || (u == 8 || (u == 9 || (u == 10 || (u == 12 || u == 13))))

high_bytes :
    (bs tail : List ℕ) (self : KvScanner)
    → self.quote_char ≡ 34
    → Wide bs
    → extract_loop string self (bs ++ tail) ≡ extract_loop string (append_value self bs) tail
unfolding extract_loop quote_step
high_bytes [] tail self q w = rw append-nil refl
high_bytes (b ∷ bs) tail self q w =
    let other : (b == self.quote_char) ≡ false = ground arith in
    let plain : (b == 92) ≡ false = ground arith in
    rw (other, plain)
      (high_bytes bs tail (append_c self b) q w.1
        ∙ ap (λ v. extract_loop string (record self { value = v }) tail)
            (append_assoc self.value (b ∷ []) bs))

module _ (utf8 : Utf8) where
  ascii_character :
      (u : ℕ) (tail : List ℕ) (self : KvScanner)
      → self.quote_char ≡ 34
      → has_escape u ≡ true
      → u < 0x80
      → extract_loop string self (escaped_character utf8 binary (34 ∷ []) u ++ tail)
        ≡ extract_loop string (append_c self u) tail
  unfolding escaped_character is_character_unsafe extract_loop quote_step decode_backslash_escape
  ascii_character u tail self q h l = elim (Bool-cases (u == 8)) [
    | inl e ↦ let n : u ≡ 8 = ground arith in rw (n, q) refl
    | inr e8 ↦ elim (Bool-cases (u == 12)) [
      | inl e ↦ let n : u ≡ 12 = ground arith in rw (n, q) refl
      | inr e12 ↦ elim (Bool-cases (u == 10)) [
        | inl e ↦ let n : u ≡ 10 = ground arith in rw (n, q) refl
        | inr e10 ↦ elim (Bool-cases (u == 13)) [
          | inl e ↦ let n : u ≡ 13 = ground arith in rw (n, q) refl
          | inr e13 ↦ elim (Bool-cases (u == 9)) [
            | inl e ↦ let n : u ≡ 9 = ground arith in rw (n, q) refl
            | inr e9 ↦ elim (Bool-cases (u == 92)) [
              | inl e ↦ let n : u ≡ 92 = ground arith in rw (n, q) refl
              | inr e92 ↦ elim (Bool-cases (u == 34)) [
                | inl e ↦ let n : u ≡ 34 = ground arith in rw (n, q) refl
                | inr e34 ↦
                    let other : (u == self.quote_char) ≡ false = ground arith in
                    let printable : ltb u 32 ≡ false = ground arith in
                    let low : ltb u 128 ≡ true = ground arith in
                    let byte : ltb u 256 ≡ true = ground arith in
                    rw (e8, e12, e10, e13, e9, e92, e34, printable, byte, low, other) (rw e92 refl)
              ]
            ]
          ]
        ]
      ]
    ]
  ]

  pub quoted_value :
      IsUtf8 utf8
      → (v tail : List ℕ) (self : KvScanner) → self.quote_char ≡ 34
      → Clean utf8 has_escape 0 v
      → extract_loop string self (append_unsafe_utf8_as_escaped utf8 binary (34 ∷ []) 0 v ++ tail)
        ≡ extract_loop string (append_value self v) tail
  quoted_value laws =
      read_characters utf8 laws (34 ∷ []) (λ u h. ground arith) has_escape string
        (λ self. self.quote_char ≡ 34) (λ self v q. q) ascii_character high_bytes 0
