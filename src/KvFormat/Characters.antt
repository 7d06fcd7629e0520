-- ===== src/KvFormat/Characters.antt =====
-- modules/kvformat/kv-scanner-simple.c: the scan of the characters that
-- lib/utf8utils.c writes.
use syslog_ng_6_0_core.Common.{
  ℕ, zero, suc, ◌-◌, ◌≤◌, ◌<◌, ◌≡◌, refl, sym, ap, ◌∙◌, Bool, true, false, some, List, [], ◌∷◌,
  ◌++◌, append-nil, append_assoc, take, drop, take-append-drop, dec_lt, arith,
}
use syslog_ng_6_0_core.KvFormat.{KvScanner, QuoteState, append_c, extract_loop}
use syslog_ng_6_0_core.KvFormat.Escape.{
  Utf8, binary, escaped_character, is_character_unsafe, append_unsafe_utf8_as_escaped, one_of,
}

-- the bytes of characters that are not ASCII
abbrev pub Wide : List ℕ → Type 0
Wide [] = Unit {0}
Wide (c ∷ cs) = (0x80 ≤ c) × Wide cs

-- What the documentation of GLib says of valid characters: one below 0x80 is its own byte, and
-- another has at least one byte, all of them 0x80 or more, which `unichar` writes again.
pub record IsUtf8 (utf8 : Utf8) : Type 0 where
  pub ascii :
      (c u : ℕ) (cs : List ℕ)
      → utf8.get_char (c ∷ cs) ≡ some u
      → u < 0x80
      → (u ≡ c) × (utf8.skip c ≡ 1)
  pub wide :
      (c u : ℕ) (cs : List ℕ)
      → utf8.get_char (c ∷ cs) ≡ some u
      → 0x80 ≤ u
      → (utf8.unichar u ≡ take (utf8.skip c) (c ∷ cs)) × Wide (utf8.unichar u) × (1 ≤ utf8.skip c)

-- The text is valid UTF-8 of known characters; the first `k` bytes belong to one that has passed.
abbrev pub Clean : Utf8 → (ℕ → Bool) → ℕ → List ℕ → Type 0
Clean utf8 known k [] = Unit {0}
Clean utf8 known (suc k) (c ∷ v) = Clean utf8 known k v
Clean utf8 known zero (c ∷ v) =
    (u : ℕ) × (utf8.get_char (c ∷ v) ≡ some u)
    × (known u ≡ true)
    × Clean utf8 known (utf8.skip c - 1) v

abbrev pub append_value : KvScanner → List ℕ → KvScanner
append_value self v = record self { value = self.value ++ v }

-- How the scanner reads back, in one of its states, the characters that have been written. `Fit`
-- is what it needs of the scanner, and `known` tells the characters that it can read.
module _ (utf8 : Utf8) (laws : IsUtf8 utf8) (unsafe_chars : List ℕ)
    (safe : (u : ℕ) → 0x80 ≤ u → one_of u unsafe_chars ≡ false) (known : ℕ → Bool)
    (state : QuoteState) (Fit : KvScanner → Type 0)
    (keep : (self : KvScanner) (v : List ℕ) → Fit self → Fit (append_value self v))
    (ascii : (u : ℕ) (tail : List ℕ) (self : KvScanner)
      → Fit self
      → known u ≡ true
      → u < 0x80
      → extract_loop state self (escaped_character utf8 binary unsafe_chars u ++ tail)
        ≡ extract_loop state (append_c self u) tail)
    (wide : (bs tail : List ℕ) (self : KvScanner)
      → Fit self
      → Wide bs
      → extract_loop state self (bs ++ tail) ≡ extract_loop state (append_value self bs) tail) where
  abbrev escaped : ℕ → List ℕ → List ℕ
  escaped = append_unsafe_utf8_as_escaped utf8 binary unsafe_chars

  wide_escape : (u : ℕ) → 0x80 ≤ u → escaped_character utf8 binary unsafe_chars u ≡ utf8.unichar u
  unfolding escaped_character is_character_unsafe
  wide_escape u h = ground (arith, safe u h)

  ascii_value :
      (value : List ℕ) (u b : ℕ) (v : List ℕ)
      → (u ≡ b) × (utf8.skip b ≡ 1)
      → (value ++ u ∷ []) ++ drop (utf8.skip b - 1) v ≡ value ++ b ∷ v
  ascii_value value u b v (same, one) = rw (one, same) (append_assoc value (b ∷ []) v)

  wide_value :
      (value bytes : List ℕ) (b n : ℕ) (v : List ℕ)
      → bytes ≡ take n (b ∷ v)
      → 1 ≤ n
      → (value ++ bytes) ++ drop (n - 1) v ≡ value ++ b ∷ v
  wide_value value bytes b zero v e h = absurd (omega arith)
  wide_value value bytes b (suc n) v e h =
      let less : suc n - 1 ≡ n = omega arith in
      rw (e, less)
        (append_assoc value (b ∷ take n v) (drop n v)
          ∙ ap (λ t. value ++ b ∷ t) (take-append-drop n v))

  escaped_next :
      (u b : ℕ) (v : List ℕ)
      → utf8.get_char (b ∷ v) ≡ some u
      → escaped 0 (b ∷ v)
        ≡ escaped_character utf8 binary unsafe_chars u ++ escaped (utf8.skip b - 1) v
  unfolding append_unsafe_utf8_as_escaped
  escaped_next u b v valid = rw (valid, append_unsafe_utf8_as_escaped) refl

  nothing_left :
      (self : KvScanner) (tail : List ℕ)
      → extract_loop state self tail ≡ extract_loop state (append_value self []) tail
  nothing_left self tail =
      ap (λ v. extract_loop state (record self { value = v }) tail) (sym (append-nil self.value))

  -- the value that is left of what has been escaped
  pub read_characters :
      (k : ℕ) (v tail : List ℕ) (self : KvScanner)
      → Fit self
      → Clean utf8 known k v
      → extract_loop state self (escaped k v ++ tail)
        ≡ extract_loop state (append_value self (drop k v)) tail
  unfolding append_unsafe_utf8_as_escaped
  read_characters zero [] tail self q c = nothing_left self tail
  read_characters (suc k) [] tail self q c = nothing_left self tail
  read_characters (suc k) (b ∷ v) tail self q c = read_characters k v tail self q c
  read_characters zero (b ∷ v) tail self q (u, valid, fine, more) =
      let after = escaped (utf8.skip b - 1) v in
      rw (escaped_next u b v valid) (
        rw (append_assoc (escaped_character utf8 binary unsafe_chars u) after tail)
          (elim (dec_lt u 0x80) [
            | yes h ↦
                ascii u (after ++ tail) self q fine h
                ∙ read_characters (utf8.skip b - 1) v tail (append_c self u) (keep self (u ∷ []) q)
                    more
                ∙ ap (λ t. extract_loop state (record self { value = t }) tail)
                    (ascii_value self.value u b v (laws.ascii b u v valid h))
            | no h ↦
                let (bytes, high, some_byte) = laws.wide b u v valid (omega arith) in
                rw (wide_escape u (omega arith)) (
                  wide (utf8.unichar u) (after ++ tail) self q high
                  ∙ read_characters (utf8.skip b - 1) v tail (append_value self (utf8.unichar u))
                      (keep self (utf8.unichar u) q) more
                  ∙ ap (λ t. extract_loop state (record self { value = t }) tail)
                      (wide_value self.value (utf8.unichar u) b (utf8.skip b) v bytes some_byte))
          ]))
