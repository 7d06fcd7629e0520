-- ===== src/KvFormat/RoundTrip.antt =====
-- modules/kvformat: the scanner reads back what the template function format-welf writes.
use syslog_ng_6_0_core.Common.{
  ℕ, suc, ◌+◌, ◌<◌, ◌≡◌, ◌⊎◌, inl, inr, refl, sym, ◌∙◌, true, false, none, some, List, [], ◌∷◌,
  ◌++◌, append-nil, append_assoc, length, length-append, ltb, ◌==◌, Bool-cases, if◌then◌else◌,
  arith,
}
use syslog_ng_6_0_core.KvFormat.{
  KvScanner, initial, string, finish, kv_scanner_is_valid_key_character, kv_scanner_input,
  start_of_key, find_key, extract_key, quote_step, extract_loop, extract_value,
  kv_scanner_decode_value, is_delimiter, scan_next, process,
}
use syslog_ng_6_0_core.KvFormat.Escape.{
  Utf8, binary, has_space, quoted, append_unsafe_utf8_as_escaped, tf_format_welf_foreach,
  tf_format_welf_call,
}
use syslog_ng_6_0_core.KvFormat.Characters.{IsUtf8, Clean, append_value}
use syslog_ng_6_0_core.KvFormat.Quoted.{has_escape, quoted_value}
use syslog_ng_6_0_core.KvFormat.Plain.{is_plain, not_delimiter, plain_value}

-- all characters may stand in a key
abbrev pub IsKey : List ℕ → Type 0
IsKey [] = Unit {0}
IsKey (c ∷ cs) = (kv_scanner_is_valid_key_character c ≡ true) × IsKey cs

rev_onto : List ℕ → List ℕ → List ℕ
rev_onto [] key = key
rev_onto (c ∷ passed) key = rev_onto passed (c ∷ key)

start_of_key_lem :
    (passed key : List ℕ) → IsKey passed → start_of_key passed key ≡ rev_onto passed key
unfolding start_of_key rev_onto
start_of_key_lem [] key h = refl
start_of_key_lem (c ∷ passed) key h = rw h.0 (start_of_key_lem passed (c ∷ key) h.1)

length-rev_onto : (passed key : List ℕ) → length (rev_onto passed key) ≡ length passed + length key
unfolding rev_onto
length-rev_onto [] key = omega arith
length-rev_onto (c ∷ passed) key = omega (arith, length-rev_onto passed (c ∷ key))

key-ne-separator : (c : ℕ) → kv_scanner_is_valid_key_character c ≡ true → (c == 61) ≡ false
unfolding kv_scanner_is_valid_key_character
key-ne-separator c h = ground arith

find_key_lem :
    (passed key behind : List ℕ)
    → IsKey passed
    → IsKey key
    → 0 < length passed + length key
    → find_key 61 passed (key ++ 61 ∷ behind) ≡ some (rev_onto passed key, behind)
unfolding find_key rev_onto
find_key_lem passed [] behind p k h =
    let some_key : ltb 0 (length (rev_onto passed [])) ≡ true =
      ground (arith, length-rev_onto passed []) in
    rw (start_of_key_lem passed [] p, some_key) refl
find_key_lem passed (c ∷ key) behind p k h =
    rw (key-ne-separator c k.0) (find_key_lem (c ∷ passed) key behind (k.0, p) k.1 (omega arith))

-- what follows a value: nothing, or a space and another pair
abbrev Follows : List ℕ → List ℕ → Type 0
Follows tail more = ((tail ≡ []) × (more ≡ [])) ⊎ (tail ≡ 32 ∷ more)

space_delimits : (cs : List ℕ) → is_delimiter 32 cs ≡ true
unfolding is_delimiter
space_delimits [] = refl
space_delimits (c ∷ cs) = refl

finished :
    (self : KvScanner) (more : List ℕ) → extract_loop finish self more ≡ kv_scanner_input self more
unfolding extract_loop
finished self [] = refl
finished self (c ∷ cs) = refl

ended :
    (self : KvScanner) (tail more : List ℕ)
    → Follows tail more
    → extract_loop initial self tail ≡ kv_scanner_input self more
unfolding extract_loop quote_step
ended self tail more (inl (e, f)) = rw (e, f) refl
ended self tail more (inr e) = rw (e, space_delimits more) (finished self more)

abbrev opened : KvScanner → KvScanner
opened self = record self {
  quote_char = 34;
  value_was_quoted = if length self.value == 0 then true else self.value_was_quoted;
}

open_quote :
    (self : KvScanner) (cs : List ℕ)
    → extract_loop initial self (34 ∷ cs) ≡ extract_loop string (opened self) cs
unfolding extract_loop quote_step
open_quote self cs = rw (not_delimiter 34 cs refl refl) refl

close_quote :
    (self : KvScanner) (cs : List ℕ)
    → self.quote_char ≡ 34
    → extract_loop string self (34 ∷ cs) ≡ extract_loop initial self cs
unfolding extract_loop quote_step
close_quote self cs q = let same : (34 == self.quote_char) ≡ true = ground arith in rw same refl

-- the text of a value
abbrev pub value_text : Utf8 → List ℕ → List ℕ
value_text utf8 value =
    if has_space value
    then quoted (append_unsafe_utf8_as_escaped utf8 binary (34 ∷ []) 0 value)
    else append_unsafe_utf8_as_escaped utf8 binary [] 0 value

abbrev pair_text : Utf8 → List ℕ → List ℕ → List ℕ → List ℕ
pair_text utf8 name value tail = name ++ (61 ∷ (value_text utf8 value ++ tail))

-- A value with a space is made of characters that have an escape; another is plain.
abbrev pub IsWritable : Utf8 → List ℕ → Type 0
IsWritable utf8 value = Clean utf8 (if has_space value then has_escape else is_plain) 0 value

module _ (utf8 : Utf8) (laws : IsUtf8 utf8) where
  abbrev Extracted : List ℕ → List ℕ → KvScanner → KvScanner → Type 0
  Extracted value more self t =
      (t.value ≡ value)
      × (t.input ≡ more)
      × (t.key ≡ self.key)
      × (t.value_separator ≡ self.value_separator)

  quoted_text :
      (value tail more : List ℕ) (self : KvScanner)
      → Follows tail more
      → self.value ≡ []
      → Clean utf8 has_escape 0 value
      → Extracted value more self (
          extract_loop initial self
            (quoted (append_unsafe_utf8_as_escaped utf8 binary (34 ∷ []) 0 value) ++ tail))
  quoted_text value tail more self f e c =
      let inner = append_unsafe_utf8_as_escaped utf8 binary (34 ∷ []) 0 value in
      rw
        (
          open_quote self ((inner ++ 34 ∷ []) ++ tail),
          append_assoc inner (34 ∷ []) tail,
          quoted_value utf8 laws value (34 ∷ tail) (opened self) refl c,
          close_quote (append_value (opened self) value) tail refl,
          ended (append_value (opened self) value) tail more f,
        )
        (rw e refl, refl, refl, refl)

  plain_text :
      (value tail more : List ℕ) (self : KvScanner)
      → Follows tail more
      → self.value ≡ []
      → Clean utf8 is_plain 0 value
      → Extracted value more self
          (extract_loop initial self (append_unsafe_utf8_as_escaped utf8 binary [] 0 value ++ tail))
  plain_text value tail more self f e c =
      rw (plain_value utf8 laws value tail self c)
        (rw (ended (append_value self value) tail more f) (rw e refl, refl, refl, refl))

  extracted :
      (value tail more : List ℕ) (self : KvScanner)
      → Follows tail more
      → self.value ≡ []
      → IsWritable utf8 value
      → Extracted value more self (extract_loop initial self (value_text utf8 value ++ tail))
  extracted value tail more self f e c = elim (Bool-cases (has_space value)) [
    | inl spaces ↦ rw spaces (quoted_text value tail more self f e (rw spaces at c))
    | inr plain ↦ rw plain (plain_text value tail more self f e (rw plain at c))
  ]

  -- one pair
  scan_next_lem :
      (name value tail more : List ℕ) (self : KvScanner)
      → Follows tail more
      → self.value_separator ≡ 61
      → self.input ≡ pair_text utf8 name value tail
      → IsKey name
      → 0 < length name
      → IsWritable utf8 value
      → (t : KvScanner) × (scan_next none self ≡ some t)
        × (t.key ≡ name)
        × (t.value ≡ value)
        × (t.input ≡ more)
        × (t.value_separator ≡ 61)
  unfolding scan_next extract_key extract_value kv_scanner_decode_value rev_onto
  scan_next_lem name value tail more self f sep text key h w =
      let found : find_key self.value_separator [] self.input
          ≡ some (name, value_text utf8 value ++ tail) =
        rw (sep, text)
          (find_key_lem [] name (value_text utf8 value ++ tail) tt key (omega arith)) in
      let start : KvScanner = record self {
        key = name;
        input = value_text utf8 value ++ tail;
        value = [];
        value_was_quoted = false;
      } in
      let (v, i, k, s) = extracted value tail more start f refl w in
      (
        extract_loop initial start (value_text utf8 value ++ tail),
        rw (found, extract_key) refl,
        k,
        v,
        i,
        s ∙ sep,
      )

-- a list of pairs that the two agree on
abbrev pub AreWritable : Utf8 → List (List ℕ × List ℕ) → Type 0
AreWritable utf8 [] = Unit {0}
AreWritable utf8 ((name, value) ∷ pairs) =
    IsKey name × (0 < length name) × IsWritable utf8 value × AreWritable utf8 pairs

abbrev following : Utf8 → List (List ℕ × List ℕ) → List ℕ
following utf8 [] = []
following utf8 ((name, value) ∷ pairs) = 32 ∷ pair_text utf8 name value (following utf8 pairs)

abbrev joined : Utf8 → List (List ℕ × List ℕ) → List ℕ
joined utf8 [] = []
joined utf8 ((name, value) ∷ pairs) = pair_text utf8 name value (following utf8 pairs)

no_pair : (self : KvScanner) → self.input ≡ [] → scan_next none self ≡ none
unfolding scan_next extract_key find_key
no_pair self e = rw (e, extract_key) refl

joined-Follows :
    (utf8 : Utf8) (pairs : List (List ℕ × List ℕ))
    → Follows (following utf8 pairs) (joined utf8 pairs)
joined-Follows utf8 [] = inl (refl, refl)
joined-Follows utf8 ((name, value) ∷ pairs) = inr refl

welf_call_following :
    (utf8 : Utf8) (result : List ℕ) (pairs : List (List ℕ × List ℕ))
    → 0 < length result
    → tf_format_welf_call utf8 result pairs ≡ result ++ following utf8 pairs
unfolding tf_format_welf_call tf_format_welf_foreach
welf_call_following utf8 result [] h = sym (append-nil result)
welf_call_following utf8 result ((name, value) ∷ pairs) h =
    let entry = name ++ 61 ∷ value_text utf8 value in
    let spaced : ltb 0 (length result) ≡ true = ground arith in
    let some_text : 0 < length ((result ++ 32 ∷ []) ++ entry) =
      omega (arith, length-append (result ++ 32 ∷ []) entry, length-append result (32 ∷ [])) in
    rw spaced
      (welf_call_following utf8 ((result ++ 32 ∷ []) ++ entry) pairs some_text ∙ simp append_assoc)

welf_call_joined :
    (utf8 : Utf8) (pairs : List (List ℕ × List ℕ))
    → AreWritable utf8 pairs
    → tf_format_welf_call utf8 [] pairs ≡ joined utf8 pairs
unfolding tf_format_welf_call tf_format_welf_foreach
welf_call_joined utf8 [] w = refl
welf_call_joined utf8 ((name, value) ∷ pairs) w =
    let entry = name ++ 61 ∷ value_text utf8 value in
    welf_call_following utf8 entry pairs
      (omega (arith, length-append name (61 ∷ value_text utf8 value)))
    ∙ append_assoc name (61 ∷ value_text utf8 value) (following utf8 pairs)

module _ (utf8 : Utf8) (laws : IsUtf8 utf8) where
  process-joined :
      (pairs : List (List ℕ × List ℕ)) (self : KvScanner)
      → self.value_separator ≡ 61
      → self.input ≡ joined utf8 pairs
      → AreWritable utf8 pairs
      → process (suc (length pairs)) none none self ≡ some pairs
  unfolding process
  process-joined [] self sep text w = rw (no_pair self text, process) refl
  process-joined ((name, value) ∷ pairs) self sep text (key, some_key, writable, more) =
      let (t, scanned, k, v, i, s) =
        scan_next_lem utf8 laws name value (following utf8 pairs) (joined utf8 pairs) self
          (joined-Follows utf8 pairs) sep text key some_key writable in
      rw (scanned, process, process-joined pairs t s i more, k, v) refl

  -- For a GLib that reads UTF-8 as documented, the text that format-welf writes for a list of
  -- names and values is scanned by the parser with the separator = into that same list, if each
  -- name is made of characters of keys and not empty, and each value is valid UTF-8, of characters
  -- that the scanner can unescape where it holds a space, and of printable ones but quotes, commas
  -- and backslashes where it holds none.
  pub welf_round_trip :
      (pairs : List (List ℕ × List ℕ)) (self : KvScanner)
      → self.value_separator ≡ 61
      → AreWritable utf8 pairs
      → process
          (suc (length pairs))
          none
          none
          (kv_scanner_input self (tf_format_welf_call utf8 [] pairs))
        ≡ some pairs
  welf_round_trip pairs self sep w =
      process-joined pairs (kv_scanner_input self (tf_format_welf_call utf8 [] pairs)) sep
        (welf_call_joined utf8 pairs w) w
