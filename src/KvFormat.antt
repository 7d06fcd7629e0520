-- ===== src/KvFormat.antt =====
-- modules/kvformat: the scanner of name=value pairs (kv-scanner.[ch], kv-scanner-simple.c) and the
-- loop of the parser over it (kv-parser.c). Texts are lists of bytes without NUL; `input` is the
-- text from `input_pos` on.
pub mod Escape
pub mod Audit
pub mod Characters
pub mod Quoted
pub mod Plain
pub mod RoundTrip
pub mod Progress
pub mod Hexdump
mod Tests
use syslog_ng_6_0_core.Common.{
  ℕ, zero, suc, ◌+◌, ◌≡◌, Bool, true, false, ◌&&◌, ◌||◌, Option, none, some, List, [], ◌∷◌, ◌++◌,
  length, reverse, ltb, leb, ◌==◌, if◌then◌else◌,
}
use syslog_ng_6_0_core.Common.Options.{◌>>=◌}

pub record KvScanner : Type 0 where
  pub input : List ℕ
  pub key : List ℕ
  pub value : List ℕ
  pub decoded_value : List ℕ
  pub value_was_quoted : Bool
  pub value_separator : ℕ
  pub quote_char : ℕ

pub data QuoteState : Type 0 where
  initial string backslash finish : QuoteState

unfoldable pub kv_scanner_is_valid_key_character : ℕ → Bool
kv_scanner_is_valid_key_character c =
    (leb b'a' c && leb c b'z')
    || ((leb b'A' c && leb c b'Z') || ((leb b'0' c && leb c b'9') || (c == b'_' || c == b'-')))

abbrev pub kv_scanner_input : KvScanner → List ℕ → KvScanner
kv_scanner_input self input = record self { input = input }

-- The loop back from a separator over the characters of a key; what stands before it is given in
-- reverse, and the key so far is the last argument.
unfoldable pub start_of_key : List ℕ → List ℕ → List ℕ
unfolding kv_scanner_is_valid_key_character
start_of_key [] key = key
start_of_key (c ∷ before) key =
    let longer = start_of_key before (c ∷ key) in
    if kv_scanner_is_valid_key_character c then longer else key

-- The search for a separator with a key before it; the first argument is what has been passed, in
-- reverse. The result is the key and the text behind the separator.
unfoldable pub find_key : ℕ → List ℕ → List ℕ → Option (List ℕ × List ℕ)
unfolding start_of_key
find_key separator passed [] = none
find_key separator passed (c ∷ cs) =
    let key = start_of_key passed [] in
    let rest = find_key separator (c ∷ passed) cs in
    if c == separator && ltb 0 (length key) then some (key, cs) else rest

unfoldable pub extract_key : KvScanner → Option KvScanner
unfolding find_key
extract_key self = elim (find_key self.value_separator [] self.input) [
  | none ↦ none
  | some (key, behind) ↦ some (record self { key = key; input = behind })
]

abbrev pub append_c : KvScanner → ℕ → KvScanner
append_c self c = record self { value = self.value ++ c ∷ [] }

unfoldable pub decode_backslash_escape : KvScanner → ℕ → KvScanner
decode_backslash_escape self ch =
    if ch == b'b'
    then append_c self 8
    else if ch == b'f'
    then append_c self 12
    else if ch == b'n'
    then append_c self 10
    else if ch == b'r'
    then append_c self 13
    else if ch == b't'
    then append_c self 9
    else if ch == 92
    then append_c self 92
    else if self.quote_char == ch
    then append_c self ch
    else append_c (append_c self 92) ch

-- of the character at `cur` and those behind it
unfoldable pub is_delimiter : ℕ → List ℕ → Bool
is_delimiter c [] = c == 32
is_delimiter c (d ∷ cs) = c == 32 || (c == b',' && d == 32)

-- one round of the loop in `_extract_value`
unfoldable pub quote_step : QuoteState → KvScanner → ℕ → List ℕ → KvScanner × QuoteState
unfolding is_delimiter decode_backslash_escape
quote_step initial self c cs =
    if is_delimiter c cs
    then (self, finish)
    else if c == 34 || c == 39
    then (
      record self {
        quote_char = c;
        value_was_quoted = if length self.value == 0 then true else self.value_was_quoted;
      },
      string,
    )
    else (append_c self c, initial)
quote_step string self c cs =
    if c == self.quote_char
    then (self, initial)
    else if c == 92
    then (self, backslash)
    else (append_c self c, string)
quote_step backslash self c cs = (decode_backslash_escape self c, string)
quote_step finish self c cs = (self, finish)

abbrev pub is_finish : QuoteState → Bool
is_finish finish = true
is_finish _ = false

-- the loop, and the text at `cur` behind it
unfoldable pub extract_loop : QuoteState → KvScanner → List ℕ → KvScanner
unfolding quote_step
extract_loop q self [] = record self { input = [] }
extract_loop q self (c ∷ cs) = elim (is_finish q) [
  | true ↦ record self { input = c ∷ cs }
  | false ↦ extract_loop (quote_step q self c cs).1 (quote_step q self c cs).0 cs
]

unfoldable pub extract_value : KvScanner → KvScanner
unfolding extract_loop
extract_value self =
    extract_loop initial (record self { value = []; value_was_quoted = false }) self.input

-- `parse_value` of the scanner, where it is set, appends to the decoded value.
abbrev pub ParseValue : Type 0
ParseValue = Option (KvScanner → Bool × KvScanner)

abbrev pub decoded : Bool × KvScanner → KvScanner
decoded (true, self) = record self { value = self.decoded_value }
decoded (false, self) = self

unfoldable pub kv_scanner_decode_value : ParseValue → KvScanner → KvScanner
kv_scanner_decode_value none self = self
kv_scanner_decode_value (some parse_value) self =
    decoded (parse_value (record self { decoded_value = [] }))

-- `none` is the return value FALSE.
unfoldable pub scan_next : ParseValue → KvScanner → Option KvScanner
unfolding extract_key extract_value kv_scanner_decode_value
scan_next parse_value self =
    extract_key self >>= λ found. some (kv_scanner_decode_value parse_value (extract_value found))

-- `_get_formatted_key`, of a prefix that does not change after the first key
abbrev pub formatted_key : Option (List ℕ) → List ℕ → List ℕ
formatted_key none key = key
formatted_key (some prefix) key = prefix ++ key

-- `_process`: the names and values that are set on the message, in order; fuel counts the pairs.
unfoldable pub process :
    ℕ → ParseValue → Option (List ℕ) → KvScanner → Option (List (List ℕ × List ℕ))
unfolding scan_next
process zero parse_value prefix self = none
process (suc n) parse_value prefix self = elim (scan_next parse_value self) [
  | none ↦ some []
  | some found ↦ process n parse_value prefix found >>= λ pairs.
      some ((formatted_key prefix found.key, found.value) ∷ pairs)
]
