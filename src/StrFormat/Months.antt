-- ===== src/StrFormat/Months.antt =====
-- The names of months that lib/str-format.c scans.
use mathlib.Core.Option.{some-injective}
use syslog_ng_6_0_core.Common.{
  ℕ, zero, suc, ◌+◌, ◌≡◌, ap, subst, false, none, some, List, [], ◌∷◌, ◌++◌, arith, length,
  get_elem?, ltb, if◌then◌else◌,
}
use syslog_ng_6_0_core.StrFormat.{
  scan_month_abbrev, scan_abbrev, month_words, starts_word, lookup_abbrev, of_letter,
}

-- the names of the months, from January on
abbrev pub month_names : List (List ℕ)
month_names =
    (b'J' ∷ b'a' ∷ b'n' ∷ [])
    ∷ (b'F' ∷ b'e' ∷ b'b' ∷ [])
    ∷ (b'M' ∷ b'a' ∷ b'r' ∷ [])
    ∷ (b'A' ∷ b'p' ∷ b'r' ∷ [])
    ∷ (b'M' ∷ b'a' ∷ b'y' ∷ [])
    ∷ (b'J' ∷ b'u' ∷ b'n' ∷ [])
    ∷ (b'J' ∷ b'u' ∷ b'l' ∷ [])
    ∷ (b'A' ∷ b'u' ∷ b'g' ∷ [])
    ∷ (b'S' ∷ b'e' ∷ b'p' ∷ [])
    ∷ (b'O' ∷ b'c' ∷ b't' ∷ [])
    ∷ (b'N' ∷ b'o' ∷ b'v' ∷ [])
    ∷ (b'D' ∷ b'e' ∷ b'c' ∷ [])
    ∷ []

-- the names of a list are scanned as the months from a number on
abbrev Scanned : ℕ → List (List ℕ) → List ℕ → Type 0
Scanned mon [] rest = Unit {0}
Scanned mon (word ∷ words) rest =
    (scan_month_abbrev (word ++ rest) ≡ (some (some mon), rest)) × Scanned (suc mon) words rest

at_index :
    (first : ℕ) (words : List (List ℕ)) (i : ℕ) {word rest : List ℕ}
    → Scanned first words rest
    → get_elem? words i ≡ some word
    → scan_month_abbrev (word ++ rest) ≡ (some (some (first + i)), rest)
at_index first [] i h e = cc
at_index first (w ∷ words) zero {word} {rest} h e =
    subst (λ m. scan_month_abbrev (word ++ rest) ≡ (some (some m), rest)) (omega arith)
      (subst (λ v. scan_month_abbrev (v ++ rest) ≡ (some (some first), rest)) (some-injective _ _ e)
        h.0)
at_index first (w ∷ words) (suc i) {word} {rest} h e =
    subst (λ m. scan_month_abbrev (word ++ rest) ≡ (some (some m), rest)) (omega arith)
      (at_index (suc first) words i h.1 e)

word_found :
    (words : List (List ℕ × ℕ)) (a b c : ℕ) (rest : List ℕ)
    → scan_abbrev words (a ∷ b ∷ c ∷ rest) ≡ (
        if starts_word a words
        then (some (lookup_abbrev (of_letter a words) (a ∷ b ∷ c ∷ rest)), rest)
        else (none, a ∷ b ∷ c ∷ rest))
unfolding scan_abbrev
word_found words a b c rest =
    let long : ltb (suc (suc (suc (length rest)))) 3 ≡ false = ground arith in
    ap
      (λ short.
        if short
        then (none, a ∷ b ∷ c ∷ rest)
        else if starts_word a words
        then (some (lookup_abbrev (of_letter a words) (a ∷ b ∷ c ∷ rest)), rest)
        else (none, a ∷ b ∷ c ∷ rest))
      long

all_months : (rest : List ℕ) → Scanned 0 month_names rest
unfolding scan_month_abbrev
all_months rest = (
  word_found month_words b'J' b'a' b'n' rest,
  (
    word_found month_words b'F' b'e' b'b' rest,
    (
      word_found month_words b'M' b'a' b'r' rest,
      (
        word_found month_words b'A' b'p' b'r' rest,
        (
          word_found month_words b'M' b'a' b'y' rest,
          (
            word_found month_words b'J' b'u' b'n' rest,
            (
              word_found month_words b'J' b'u' b'l' rest,
              (
                word_found month_words b'A' b'u' b'g' rest,
                (
                  word_found month_words b'S' b'e' b'p' rest,
                  (
                    word_found month_words b'O' b'c' b't' rest,
                    (
                      word_found month_words b'N' b'o' b'v' rest,
                      (word_found month_words b'D' b'e' b'c' rest, tt),
                    ),
                  ),
                ),
              ),
            ),
          ),
        ),
      ),
    ),
  ),
)

pub scan_month_word :
    (word rest : List ℕ) (mon : ℕ)
    → get_elem? month_names mon ≡ some word
    → scan_month_abbrev (word ++ rest) ≡ (some (some mon), rest)
scan_month_word word rest mon e =
    subst (λ m. scan_month_abbrev (word ++ rest) ≡ (some (some m), rest)) (omega arith)
      (at_index 0 month_names mon (all_months rest) e)
