-- ===== src/StrFormat/Padded.antt =====
-- The padding of lib/str-format.c: what `put_padded` appends to the result.
use mathlib.Core.List.{reverse-cons}
use syslog_ng_6_0_core.Common.{
  ℕ, zero, suc, ◌+◌, ◌-◌, ◌≡◌, refl, sym, ap, ◌∙◌, List, [], ◌∷◌, ◌++◌, arith, append_assoc,
  append-nil, length, length-append, length-replicate, set, replicate, reverse, ltb, ◌==◌,
  if◌then◌else◌, max, ◌||◌,
}
use syslog_ng_6_0_core.StrFormat.{place, put_padded}

replicate-concat : (n d : ℕ) → replicate (suc n) d ≡ replicate n d ++ d ∷ []
replicate-concat zero d = refl
replicate-concat (suc n) d = ap (◌∷◌ d) (replicate-concat n d)

set-append : (xs : List ℕ) (y d : ℕ) (ys : List ℕ) → set (xs ++ y ∷ ys) (length xs) d ≡ xs ++ d ∷ ys
set-append [] y d ys = refl
set-append (x ∷ xs) y d ys = ap (◌∷◌ x) (set-append xs y d ys)

place_last :
    (xs ys : List ℕ) (n d : ℕ)
    → set (xs ++ (replicate (suc n) 0 ++ ys)) (length xs + n) d ≡ xs ++ (replicate n 0 ++ d ∷ ys)
place_last xs ys n d =
    let split : xs ++ (replicate (suc n) 0 ++ ys) ≡ (xs ++ replicate n 0) ++ 0 ∷ ys =
      ap (λ zs. xs ++ (zs ++ ys)) (replicate-concat n 0)
      ∙ ap (λ zs. xs ++ zs) (append_assoc (replicate n 0) (0 ∷ []) ys)
      ∙ sym (append_assoc xs (replicate n 0) (0 ∷ ys)) in
    let at : length xs + n ≡ length (xs ++ replicate n 0) =
      omega (arith, length-append xs (replicate n 0), length-replicate {A = ℕ} n 0) in
    ap (λ zs. set zs (length xs + n) d) split
    ∙ ap (λ k. set ((xs ++ replicate n 0) ++ 0 ∷ ys) k d) at
    ∙ set-append (xs ++ replicate n 0) 0 d ys
    ∙ append_assoc xs (replicate n 0) (d ∷ ys)

place-reverse :
    (num xs ys : List ℕ)
    → place (xs ++ (replicate (length num) 0 ++ ys)) (length xs + length num) num
      ≡ xs ++ (reverse num ++ ys)
unfolding place
place-reverse [] xs ys = refl
place-reverse (d ∷ num) xs ys =
    let e : length xs + suc (length num) - 1 ≡ length xs + length num = omega arith in
    ap (λ k. place (set (xs ++ (replicate (suc (length num)) 0 ++ ys)) k d) k num) e
    ∙ ap (λ zs. place zs (length xs + length num) num) (place_last xs ys (length num) d)
    ∙ place-reverse num xs (d ∷ ys)
    ∙ ap (λ zs. xs ++ zs)
        (sym (append_assoc (reverse num) (d ∷ []) ys)
          ∙ ap (λ zs. zs ++ ys) (sym (reverse-cons d num)))

-- The padding appends the digits, most significant first, behind as many padding characters as the
-- field length asks for, and returns the length of the field.
pub put_padded_lem :
    (result : List ℕ) (field_len pad_char : ℕ) (num : List ℕ)
    → put_padded result field_len pad_char num ≡ (
      max field_len (length num),
      result ++ (replicate (field_len - length num) pad_char ++ reverse num),
    )
unfolding put_padded
put_padded_lem result field_len pad_char num =
    let field = if field_len == 0 || ltb field_len (length num) then length num else field_len in
    let field_is : field ≡ max field_len (length num) = ground arith in
    let pads : field - length num ≡ field_len - length num = ground arith in
    let front = result ++ replicate (field - length num) pad_char in
    let end_is : length result + field ≡ length front + length num = ground (
      arith,
      length-append result (replicate (field - length num) pad_char),
      length-replicate (field - length num) pad_char,
    ) in
    ap (λ zs. (field, zs))
      (ap
          (λ k.
            place (result ++ (replicate (field - length num) pad_char ++ replicate (length num) 0))
              k num)
          end_is
        ∙ ap (λ zs. place zs (length front + length num) num)
            (sym (
                append_assoc result (replicate (field - length num) pad_char)
                  (replicate (length num) 0))
              ∙ ap (λ zs. front ++ zs) (sym (append-nil (replicate (length num) 0))))
        ∙ place-reverse num front []
        ∙ ap (λ zs. front ++ zs) (append-nil (reverse num))
        ∙ append_assoc result (replicate (field - length num) pad_char) (reverse num))
    ∙ ap (λ k. (k, result ++ (replicate (field - length num) pad_char ++ reverse num))) field_is
    ∙ ap (λ k. (max field_len (length num), result ++ (replicate k pad_char ++ reverse num))) pads
