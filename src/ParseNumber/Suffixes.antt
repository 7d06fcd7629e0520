-- ===== src/ParseNumber/Suffixes.antt =====
-- lib/parse-number.c: what a number with a suffix is.
use syslog_ng_6_0_core.Common.{
  ℕ, ◌+◌, ◌*◌, ◌%◌, ◌^◌, ◌≤◌, ◌<◌, ◌≡◌, refl, ap, ◌∙◌, true, false, Option, none, some, List, [],
  ◌∷◌, ◌++◌, length, length-append, ltb, ◌==◌, arith,
}
use native.Mathlib.Nat.{mul_assoc}
use syslog_ng_6_0_core.Common.Integers.{ℤ, pos, starts_digit}
use syslog_ng_6_0_core.Common.Decimals.{Digits, digits_value, strtoll-Digits}
use syslog_ng_6_0_core.ParseNumber.{
  valid_unit, valid_exponent, parse_suffix, determine_multiplier, validate_unit, times,
  process_exponent, process_suffix, number_at, parse_number_with_suffix,
}

-- A suffix is empty or the unit alone, or one of k, m, g, with an i for powers of 1024 and with
-- the unit or not; each letter may be upper case.
pub data Scale : Type 0 where
  kilo mega giga : Scale

pub data Written : Type 0 where
  upper lower : Written

abbrev pub letter : ℕ → Written → ℕ
letter c upper = c
letter c lower = c + 32

abbrev pub scale_letter : Scale → ℕ
scale_letter kilo = b'K'
scale_letter mega = b'M'
scale_letter giga = b'G'

abbrev pub optional : ℕ → Option Written → List ℕ
optional c none = []
optional c (some w) = letter c w ∷ []

abbrev pub suffix_text : Option (Scale × Written × Option Written) → Option Written → List ℕ
suffix_text none unit = optional b'B' unit
suffix_text (some (scale, w, binary)) unit =
    letter (scale_letter scale) w ∷ (optional b'I' binary ++ optional b'B' unit)

abbrev base_of : Option Written → ℕ
base_of none = 1000
base_of (some w) = 1024

abbrev powers : Scale → ℕ → ℕ
powers kilo b = b
powers mega b = b * b
powers giga b = b * b * b

-- what the number is multiplied with
abbrev pub factor : Option (Scale × Written × Option Written) → ℕ
factor none = 1
factor (some (scale, w, binary)) = powers scale (base_of binary)

times_lem : (v m : ℕ) → v < 2 ^ 63 → v * m < 2 ^ 63 → times (pos v) m ≡ pos (v * m)
unfolding times
times_lem v m h k =
    let in_word : v % 2 ^ 64 ≡ v = omega arith in
    let product : v * m % 2 ^ 64 ≡ v * m = omega arith in
    let positive : ltb (v * m) (2 ^ 63) ≡ true = ground arith in
    rw (in_word, product, positive) refl

abbrev char_of : ℕ → Option Written → ℕ
char_of c none = 0
char_of c (some w) = letter c w

unit_letter : (w : Written) → valid_unit (letter b'B' w) ≡ true
unit_letter upper = refl
unit_letter lower = refl

base_letter : (w : Written) → valid_unit (letter b'I' w) ≡ false
base_letter upper = refl
base_letter lower = refl

exponent_letter :
    (scale : Scale) (w : Written) → valid_exponent (letter (scale_letter scale) w) ≡ true
exponent_letter kilo upper = refl
exponent_letter kilo lower = refl
exponent_letter mega upper = refl
exponent_letter mega lower = refl
exponent_letter giga upper = refl
exponent_letter giga lower = refl

parsed :
    (scale : Scale) (w : Written) (binary unit : Option Written)
    → parse_suffix (suffix_text (some (scale, w, binary)) unit)
      ≡ some (record {
        exponent_char = letter (scale_letter scale) w;
        base_char = char_of b'I' binary;
        unit_char = char_of b'B' unit;
      })
unfolding parse_suffix
parsed scale w none none = rw (exponent_letter scale w) refl
parsed scale w none (some u) = rw (unit_letter u) refl
parsed scale w (some i) none = rw (base_letter i) refl
parsed scale w (some i) (some u) = refl

multiplier_lem :
    (binary : Option Written) → determine_multiplier (char_of b'I' binary) ≡ some (base_of binary)
unfolding determine_multiplier
multiplier_lem none = refl
multiplier_lem (some upper) = refl
multiplier_lem (some lower) = refl

validate_unit_lem : (unit : Option Written) → validate_unit (char_of b'B' unit) ≡ true
unfolding validate_unit
validate_unit_lem none = refl
validate_unit_lem (some upper) = refl
validate_unit_lem (some lower) = refl

-- multiplied once, twice or three times
abbrev scaled : Scale → ℤ → ℕ → ℤ
scaled kilo d m = times d m
scaled mega d m = times (times d m) m
scaled giga d m = times (times (times d m) m) m

process_exponent_lem :
    (scale : Scale) (w : Written) (d : ℤ) (m : ℕ)
    → process_exponent (letter (scale_letter scale) w) d m ≡ some (scaled scale d m)
unfolding process_exponent
process_exponent_lem kilo upper d m = refl
process_exponent_lem kilo lower d m = refl
process_exponent_lem mega upper d m = refl
process_exponent_lem mega lower d m = refl
process_exponent_lem giga upper d m = refl
process_exponent_lem giga lower d m = refl

grows : (v m : ℕ) → 0 < m → v ≤ v * m
grows v m h = grind arith

scaled_lem :
    (scale : Scale) (v m : ℕ)
    → 0 < m
    → v * powers scale m < 2 ^ 63
    → scaled scale (pos v) m ≡ pos (v * powers scale m)
scaled_lem kilo v m h k = times_lem v m (omega (arith, grows v m h)) k
scaled_lem mega v m h k =
    let twice : v * m * m ≡ v * (m * m) = mul_assoc v m m in
    rw
      (times_lem v m (omega (arith, grows v m h, grows (v * m) m h))
        (omega (arith, grows (v * m) m h)))
      (times_lem (v * m) m (omega (arith, grows (v * m) m h)) (omega arith) ∙ ap pos twice)
scaled_lem giga v m h k =
    let twice : v * m * m ≡ v * (m * m) = mul_assoc v m m in
    let thrice : v * m * m * m ≡ v * (m * m * m) =
      ap (λ (t : ℕ). t * m) twice ∙ mul_assoc v (m * m) m in
    let once_le : v * m ≤ v * m * m = grows (v * m) m h in
    let twice_le : v * m * m ≤ v * m * m * m = grows (v * m * m) m h in
    rw
      (
        times_lem v m (omega (arith, grows v m h)) (omega arith),
        times_lem (v * m) m (omega arith) (omega arith),
      )
      (times_lem (v * m * m) m (omega arith) (omega arith) ∙ ap pos thrice)

base-pos : (binary : Option Written) → 0 < base_of binary
base-pos none = omega arith
base-pos (some w) = omega arith

factor-pos : (scale : Option (Scale × Written × Option Written)) → 0 < factor scale
factor-pos none = omega arith
factor-pos (some (kilo, w, binary)) = base-pos binary
factor-pos (some (mega, w, none)) = omega arith
factor-pos (some (mega, w, some u)) = omega arith
factor-pos (some (giga, w, none)) = omega arith
factor-pos (some (giga, w, some u)) = omega arith

process_suffix_lem :
    (scale : Option (Scale × Written × Option Written)) (unit : Option Written) (v : ℕ)
    → v * factor scale < 2 ^ 63
    → process_suffix (suffix_text scale unit) (pos v) ≡ some (pos (v * factor scale))
unfolding process_suffix
process_suffix_lem none none v h = ap (λ n. some (pos n)) (omega arith)
process_suffix_lem none (some upper) v h = ap (λ n. some (pos n)) (omega arith)
process_suffix_lem none (some lower) v h = ap (λ n. some (pos n)) (omega arith)
process_suffix_lem (some (scale, w, binary)) unit v h =
    rw
      (
        parsed scale w binary unit,
        multiplier_lem binary,
        validate_unit_lem unit,
        process_exponent_lem scale w (pos v) (base_of binary),
      )
      (ap some (scaled_lem scale v (base_of binary) (base-pos binary) h))

suffix_no_digit :
    (scale : Option (Scale × Written × Option Written)) (unit : Option Written)
    → starts_digit (suffix_text scale unit) ≡ false
suffix_no_digit none none = refl
suffix_no_digit none (some upper) = refl
suffix_no_digit none (some lower) = refl
suffix_no_digit (some (kilo, upper, binary)) unit = refl
suffix_no_digit (some (kilo, lower, binary)) unit = refl
suffix_no_digit (some (mega, upper, binary)) unit = refl
suffix_no_digit (some (mega, lower, binary)) unit = refl
suffix_no_digit (some (giga, upper, binary)) unit = refl
suffix_no_digit (some (giga, lower, binary)) unit = refl

number_at-Digits :
    (c : ℕ) (ds rest : List ℕ)
    → Digits (c ∷ ds)
    → starts_digit rest ≡ false
    → digits_value 0 (c ∷ ds) < 2 ^ 63
    → number_at (c ∷ (ds ++ rest)) ≡ some (pos (digits_value 0 (c ∷ ds)), rest)
unfolding number_at
number_at-Digits c ds rest d s h =
    let longer : (length rest == length (c ∷ (ds ++ rest))) ≡ false =
      ground (arith, length-append ds rest) in
    rw (strtoll-Digits c ds rest d s h, longer) refl

-- Decimal digits, at least one, with no suffix or with k, m or g in either case, where i may
-- follow, and with or without b, in either case, give the number times the power of 1000, or of
-- 1024 with i, if the product is below 2^63.
pub suffix_scales :
    (c : ℕ) (ds : List ℕ) (scale : Option (Scale × Written × Option Written))
    (unit : Option Written)
    → Digits (c ∷ ds)
    → digits_value 0 (c ∷ ds) * factor scale < 2 ^ 63
    → parse_number_with_suffix (c ∷ (ds ++ suffix_text scale unit))
      ≡ some (pos (digits_value 0 (c ∷ ds) * factor scale))
unfolding parse_number_with_suffix
suffix_scales c ds scale unit d h =
    let v = digits_value 0 (c ∷ ds) in
    rw
      (number_at-Digits c ds (suffix_text scale unit) d (suffix_no_digit scale unit)
        (omega (arith, grows v (factor scale) (factor-pos scale))))
      (process_suffix_lem scale unit v h)
