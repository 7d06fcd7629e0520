-- ===== src/StrFormat/Numbers.antt =====
-- Numbers of lib/str-format.c, formatted in base 10 and scanned.
use mathlib.Core.List.{reverse-cons}
use syslog_ng_6_0_core.Common.{
  ℕ, zero, suc, ◌+◌, ◌-◌, ◌*◌, ◌/◌, ◌%◌, ◌^◌, ◌≤◌, ◌<◌, ◌≡◌, ◌⊎◌, inl, inr, refl, sym, ap, ap₂,
  subst, ◌∙◌, Bool, true, false, some, List, [], ◌∷◌, ◌++◌, arith, append_assoc, append-nil, length,
  length-append, length-replicate, length-reverse, replicate, reverse, ltb, if◌then◌else◌, max,
  Bool-cases, ltb→lt,
}
use syslog_ng_6_0_core.StrFormat.{
  digit, is_digit, format_rev, format_uint32_base10_rev, format_uint64_base10_rev, put_padded,
  format_uint32_padded, format_uint64_padded, scan_loop, scan_uint32,
}
use syslog_ng_6_0_core.StrFormat.Padded.{put_padded_lem}

abbrev pub tens : ℕ → ℕ
tens zero = 1
tens (suc n) = 10 * tens n

-- the number that digits make, behind what `acc` stands for
abbrev pub decimal : ℕ → List ℕ → ℕ
decimal acc [] = acc
decimal acc (c ∷ cs) = decimal (acc * 10 + (c - 48)) cs

abbrev pub rev_value : List ℕ → ℕ
rev_value [] = 0
rev_value (c ∷ cs) = rev_value cs * 10 + (c - 48)

abbrev pub AllDigits : List ℕ → Type 0
AllDigits [] = Unit
AllDigits (c ∷ cs) = (is_digit c ≡ true) × AllDigits cs

decimal-concat :
    (acc : ℕ) (xs : List ℕ) (c : ℕ) → decimal acc (xs ++ c ∷ []) ≡ decimal acc xs * 10 + (c - 48)
decimal-concat acc [] c = refl
decimal-concat acc (x ∷ xs) c = decimal-concat (acc * 10 + (x - 48)) xs c

decimal-reverse : (ds : List ℕ) → decimal 0 (reverse ds) ≡ rev_value ds
decimal-reverse [] = refl
decimal-reverse (d ∷ ds) =
    ap (decimal 0) (reverse-cons d ds)
    ∙ decimal-concat 0 (reverse ds) d
    ∙ ap (λ n. n * 10 + (d - 48)) (decimal-reverse ds)

AllDigits-concat :
    (xs : List ℕ) (c : ℕ) → AllDigits xs → is_digit c ≡ true → AllDigits (xs ++ c ∷ [])
AllDigits-concat [] c h e = (e, tt)
AllDigits-concat (x ∷ xs) c h e = (h.0, AllDigits-concat xs c h.1 e)

AllDigits-reverse : (xs : List ℕ) → AllDigits xs → AllDigits (reverse xs)
AllDigits-reverse [] h = tt
AllDigits-reverse (x ∷ xs) h =
    subst AllDigits (sym (reverse-cons x xs))
      (AllDigits-concat (reverse xs) x (AllDigits-reverse xs h.1) h.0)

digit_is : (v : ℕ) → (is_digit (digit (v % 10)) ≡ true) × (digit (v % 10) - 48 ≡ v % 10)
digit_is v = (ground arith, ground arith)

format_rev-AllDigits : (n v : ℕ) → AllDigits (format_rev 10 n v)
unfolding format_rev
format_rev-AllDigits zero v = tt
format_rev-AllDigits (suc n) v = elim (Bool-cases (ltb 0 v)) [
  | inl e ↦ rw e ((digit_is v).0, format_rev-AllDigits n (v / 10))
  | inr e ↦ rw e tt
]

rev_value-format_rev : (n v : ℕ) → v < tens n → rev_value (format_rev 10 n v) ≡ v
unfolding format_rev
rev_value-format_rev zero v h = omega arith
rev_value-format_rev (suc n) v h = elim (Bool-cases (ltb 0 v)) [
  | inl e ↦ rw e (omega (arith, rev_value-format_rev n (v / 10) (omega arith), (digit_is v).1))
  | inr e ↦ rw e (ground arith)
]

base10-AllDigits : (v : ℕ) → AllDigits (format_uint32_base10_rev 32 v)
unfolding format_uint32_base10_rev
base10-AllDigits v = ((digit_is v).0, format_rev-AllDigits 31 (v / 10))

base10-value : (v : ℕ) → v < 2 ^ 32 → rev_value (format_uint32_base10_rev 32 v) ≡ v
unfolding format_uint32_base10_rev
base10-value v h = omega (arith, rev_value-format_rev 31 (v / 10) (omega arith), (digit_is v).1)

module _ (g_ascii_isspace : ℕ → Bool) where
  decimal-le : (acc : ℕ) (xs : List ℕ) → acc ≤ decimal acc xs
  decimal-le acc [] = omega arith
  decimal-le acc (x ∷ xs) = omega (arith, decimal-le (acc * 10 + (x - 48)) xs)

  scan_loop-digits :
      (xs rest : List ℕ) (acc : ℕ)
      → AllDigits xs
      → decimal acc xs < 2 ^ 32
      → scan_loop g_ascii_isspace (length xs) acc (xs ++ rest) ≡ (some (decimal acc xs), rest)
  unfolding scan_loop
  scan_loop-digits [] rest acc h small = refl
  scan_loop-digits (x ∷ xs) rest acc h small =
      let next : (acc * 10 + (x - 48)) % 2 ^ 32 ≡ acc * 10 + (x - 48) =
        omega (arith, decimal-le (acc * 10 + (x - 48)) xs) in
      rw (h.0, next) (scan_loop-digits xs rest (acc * 10 + (x - 48)) h.1 small)

  -- A padding character is the digit 0, or a space that is no digit.
  abbrev pub Pads : ℕ → Type 0
  Pads c = (c ≡ 48) ⊎ ((is_digit c ≡ false) × (g_ascii_isspace c ≡ true))

  scan_loop-padding :
      (k n c : ℕ) (ys : List ℕ)
      → Pads c
      → scan_loop g_ascii_isspace (k + n) 0 (replicate k c ++ ys) ≡ scan_loop g_ascii_isspace n 0 ys
  unfolding scan_loop
  scan_loop-padding zero n c ys p =
      let e : 0 + n ≡ n = omega arith in ap (λ m. scan_loop g_ascii_isspace m 0 ys) e
  scan_loop-padding (suc k) n c ys p =
      let e : suc k + n ≡ suc (k + n) = omega arith in
      ap (λ m. scan_loop g_ascii_isspace m 0 (c ∷ (replicate k c ++ ys))) e ∙ elim p [
        | inl zero_digit ↦ rw zero_digit (scan_loop-padding k n 48 ys (inl refl))
        | inr (other, space) ↦ rw (other, space) (scan_loop-padding k n c ys (inr (other, space)))
      ]

  -- The text that format_uint32_padded appends for a 32 bit value in base 10, padded to any length
  -- with the digit 0 or a space, is at least that long, and scan_uint32 with the returned length
  -- reads the value back and nothing behind it.
  pub scan-format_uint32 :
      (result rest : List ℕ) (field_len pad_char value : ℕ)
      → Pads pad_char
      → value < 2 ^ 32
      → (text : List ℕ) × (format_uint32_padded result field_len pad_char 10 value
          ≡ (length text, result ++ text))
        × (field_len ≤ length text)
        × (scan_uint32 g_ascii_isspace (length text) (text ++ rest) ≡ (some value, rest))
  unfolding format_uint32_padded scan_uint32
  scan-format_uint32 result rest field_len pad_char value p h =
      let num = format_uint32_base10_rev 32 value in
      let k = field_len - length num in
      let len : length (replicate k pad_char ++ reverse num) ≡ k + length (reverse num) =
        omega (
          arith,
          length-append (replicate k pad_char) (reverse num),
          length-replicate k pad_char,
        ) in
      let field : max field_len (length num) ≡ length (replicate k pad_char ++ reverse num) =
        omega (arith, len, length-reverse num) in
      let same : decimal 0 (reverse num) ≡ value = decimal-reverse num ∙ base10-value value h in
      (
        replicate k pad_char ++ reverse num,
        put_padded_lem result field_len pad_char num
            ∙ ap (λ n. (n, result ++ (replicate k pad_char ++ reverse num))) field,
        omega (arith, field),
        ap (λ n. scan_loop g_ascii_isspace n 0 ((replicate k pad_char ++ reverse num) ++ rest)) len
            ∙ ap (scan_loop g_ascii_isspace (k + length (reverse num)) 0)
                (append_assoc (replicate k pad_char) (reverse num) rest)
            ∙ scan_loop-padding k (length (reverse num)) pad_char (reverse num ++ rest) p
            ∙ scan_loop-digits (reverse num) rest 0 (AllDigits-reverse num (base10-AllDigits value))
                (omega (arith, same))
            ∙ ap (λ v. (some v, rest)) same,
      )

enough_rounds : (n m v : ℕ) → v < tens n → v < tens m → format_rev 10 n v ≡ format_rev 10 m v
unfolding format_rev
enough_rounds zero zero v h k = refl
enough_rounds zero (suc m) v h k = elim (Bool-cases (ltb 0 v)) [
  | inl e ↦ absurd (ground arith)
  | inr e ↦ rw e refl
]
enough_rounds (suc n) zero v h k = elim (Bool-cases (ltb 0 v)) [
  | inl e ↦ absurd (ground arith)
  | inr e ↦ rw e refl
]
enough_rounds (suc n) (suc m) v h k =
    ap (λ ds. if ltb 0 v then digit (v % 10) ∷ ds else [])
      (enough_rounds n m (v / 10) (omega arith) (omega arith))

-- On a positive 32 bit value format_uint64_padded in base 10 does what format_uint32_padded does;
-- on 0 it appends the padding alone and no digit.
pub format_uint64_cases :
    (result : List ℕ) (field_len pad_char value : ℕ)
    → value < 2 ^ 32
    → ((0 < value)
        × (format_uint64_padded result field_len pad_char 10 value
            ≡ format_uint32_padded result field_len pad_char 10 value))
      ⊎ ((value ≡ 0)
          × (format_uint64_padded result field_len pad_char 10 value
              ≡ (field_len, result ++ replicate field_len pad_char)))
unfolding format_uint64_padded format_uint32_padded format_uint64_base10_rev
    format_uint32_base10_rev format_rev
format_uint64_cases result field_len pad_char value h = elim (Bool-cases (ltb 0 value)) [
  | inl e ↦ inl (
    ltb→lt 0 value e,
    ap (put_padded result field_len pad_char) (
        ap (λ b. if b then digit (value % 10) ∷ format_rev 10 63 (value / 10) else []) e
        ∙ ap (λ ds. digit (value % 10) ∷ ds)
            (enough_rounds 63 31 (value / 10) (omega arith) (omega arith))),
  )
  | inr e ↦
      let nothing : format_uint64_base10_rev 64 value ≡ [] = rw e refl in
      let field : max field_len 0 ≡ field_len = omega arith in
      let pads : field_len - 0 ≡ field_len = omega arith in
      inr (
        ground arith,
        ap (put_padded result field_len pad_char) nothing
            ∙ put_padded_lem result field_len pad_char []
            ∙ ap₂ (λ n m. (n, result ++ (replicate m pad_char ++ []))) field pads
            ∙ ap (λ zs. (field_len, result ++ zs)) (append-nil (replicate field_len pad_char)),
      )
]
