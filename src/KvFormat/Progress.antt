-- ===== src/KvFormat/Progress.antt =====
-- modules/kvformat: the loop over the pairs of an input ends.
use syslog_ng_6_0_core.Common.{
  ℕ, zero, suc, ◌≤◌, ◌<◌, ◌≡◌, inl, inr, refl, sym, ap, ◌∙◌, Bool, true, false, ◌&&◌, Option, none,
  some, List, [], ◌∷◌, length, ltb, ◌==◌, Bool-cases, Option-cases, arith,
}
use syslog_ng_6_0_core.KvFormat.{
  KvScanner, QuoteState, initial, is_finish, start_of_key, find_key, extract_key, quote_step,
  extract_loop, extract_value, ParseValue, decoded, kv_scanner_decode_value, scan_next,
  formatted_key, process,
}

-- the function leaves the input of the scanner as it is
abbrev pub KeepsInput : ParseValue → Type 0
KeepsInput none = Unit {0}
KeepsInput (some parse_value) = (s : KvScanner) → (parse_value s).1.input ≡ s.input

pair_second :
    {a c : List ℕ} {b d : List ℕ}
    → ◌≡◌ {A = Option (List ℕ × List ℕ)} (some (a, b)) (some (c, d))
    → b ≡ d
pair_second e = cc

found_shorter :
    (separator : ℕ) (passed input key behind : List ℕ)
    → find_key separator passed input ≡ some (key, behind)
    → length behind < length input
unfolding find_key
found_shorter separator passed [] key behind e = absurd (cc)
found_shorter separator passed (c ∷ cs) key behind e =
    elim (Bool-cases (c == separator && ltb 0 (length (start_of_key passed [])))) [
      | inl met ↦ omega (arith, ap length (pair_second (rw (met, find_key) at e)))
      | inr passing ↦
          omega (
            arith,
            found_shorter separator (c ∷ passed) cs key behind (rw (passing, find_key) at e),
          )
    ]

loop_shorter :
    (q : QuoteState) (self : KvScanner) (cs : List ℕ)
    → length (extract_loop q self cs).input ≤ length cs
unfolding extract_loop
loop_shorter q self [] = omega arith
loop_shorter q self (c ∷ cs) = elim (Bool-cases (is_finish q)) [
  | inl over ↦ rw (over, extract_loop) (omega arith)
  | inr going ↦
      rw (going, extract_loop)
        (omega (arith, loop_shorter (quote_step q self c cs).1 (quote_step q self c cs).0 cs))
]

some_input : {s t : KvScanner} → ◌≡◌ {A = Option KvScanner} (some s) (some t) → s.input ≡ t.input
some_input e = ap (λ o. elim o [ none ↦ [] | some r ↦ r.input ]) e

none_ne_some : {t : KvScanner} → none ≡ some t → ⊥
none_ne_some e = cc

result_input : (r : Bool × KvScanner) → (decoded r).input ≡ r.1.input
result_input (true, s) = refl
result_input (false, s) = refl

decoded_input :
    (parse_value : ParseValue) (self : KvScanner)
    → KeepsInput parse_value
    → (kv_scanner_decode_value parse_value self).input ≡ self.input
unfolding kv_scanner_decode_value
decoded_input none self k = refl
decoded_input (some parse_value) self k =
    result_input (parse_value (record self { decoded_value = [] }))
    ∙ k (record self { decoded_value = [] })

scan_shorter :
    (parse_value : ParseValue) (self t : KvScanner)
    → KeepsInput parse_value
    → scan_next parse_value self ≡ some t
    → length t.input < length self.input
unfolding scan_next extract_key extract_value
scan_shorter parse_value self t k e =
    elim (Option-cases (find_key self.value_separator [] self.input)) [
      | inl missing ↦ absurd (none_ne_some (rw (missing, extract_key) at e))
      | inr ((key, behind), found) ↦
          let start : KvScanner = record self {
            key = key;
            input = behind;
            value = [];
            value_was_quoted = false;
          } in
          let loop = extract_loop initial start behind in
          let same : loop.input ≡ t.input =
            sym (decoded_input parse_value loop k) ∙ some_input (rw (found, extract_key) at e) in
          omega (
            arith,
            loop_shorter initial start behind,
            found_shorter self.value_separator [] self.input key behind found,
            ap length same,
          )
    ]

-- The loop of the parser over the pairs of an input ends, with fuel above the length of the input,
-- if the function that parses values leaves the input of the scanner alone.
pub process_ends :
    (n : ℕ) (parse_value : ParseValue) (prefix : Option (List ℕ)) (self : KvScanner)
    → KeepsInput parse_value
    → length self.input < n
    → (pairs : List (List ℕ × List ℕ)) × (process n parse_value prefix self ≡ some pairs)
unfolding process
process_ends zero parse_value prefix self k h = absurd (omega arith)
process_ends (suc n) parse_value prefix self k h =
    elim (Option-cases (scan_next parse_value self)) [
      | inl over ↦ ([], rw (over, process) refl)
      | inr (t, scanned) ↦
          let shorter : length t.input < n =
            omega (arith, scan_shorter parse_value self t k scanned) in
          let (pairs, ran) = process_ends n parse_value prefix t k shorter in
          ((formatted_key prefix t.key, t.value) ∷ pairs, rw (scanned, process, ran) refl)
    ]
