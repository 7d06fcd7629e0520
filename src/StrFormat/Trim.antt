-- ===== src/StrFormat/Trim.antt =====
-- `str_rtrim` of lib/str-format.c.
use mathlib.Core.List.{reverse-cons, reverse-reverse}
use syslog_ng_6_0_core.Common.{
  ℕ, ◌≡◌, refl, sym, ap, subst, ◌∙◌, true, false, List, [], ◌∷◌, ◌++◌, append_assoc, append-nil,
  reverse, Bool-cases, inl, inr,
}
use syslog_ng_6_0_core.StrFormat.{member, trim_first, str_rtrim}

abbrev pub AllIn : List ℕ → List ℕ → Type 0
AllIn characters [] = Unit
AllIn characters (c ∷ cs) = (member c characters ≡ true) × AllIn characters cs

-- The last byte, if there is one, is none of the characters.
abbrev pub FirstNotIn : List ℕ → List ℕ → Type 0
FirstNotIn characters [] = Unit
FirstNotIn characters (c ∷ cs) = member c characters ≡ false

AllIn-concat :
    (characters xs : List ℕ) (c : ℕ)
    → AllIn characters xs
    → member c characters ≡ true
    → AllIn characters (xs ++ c ∷ [])
AllIn-concat characters [] c h e = (e, tt)
AllIn-concat characters (x ∷ xs) c h e = (h.0, AllIn-concat characters xs c h.1 e)

-- A string, its last byte first, is what is trimmed, and what is left.
trim_first_lem :
    (characters cs : List ℕ)
    → (suffix : List ℕ) × AllIn characters suffix
      × (reverse cs ≡ reverse (trim_first characters cs) ++ suffix)
      × FirstNotIn characters (trim_first characters cs)
trim_first_lem characters [] = ([], tt, refl, tt)
trim_first_lem characters (c ∷ cs) = elim (Bool-cases (member c characters)) [
  | inl e ↦
      let (suffix, h, eq, last) = trim_first_lem characters cs in
      rw e (
        suffix ++ c ∷ [],
        AllIn-concat characters suffix c h e,
        reverse-cons c cs
            ∙ ap (λ xs. xs ++ c ∷ []) eq
            ∙ append_assoc (reverse (trim_first characters cs)) suffix (c ∷ []),
        last,
      )
  | inr e ↦ rw e ([], tt, sym (append-nil (reverse (c ∷ cs))), e)
]

-- What str_rtrim takes off the end of a string are just the given characters, and the last byte
-- that it leaves, if any, is none of them.
pub str_rtrim_lem :
    (string characters : List ℕ)
    → (suffix : List ℕ) × AllIn characters suffix
      × (string ≡ str_rtrim string characters ++ suffix)
      × FirstNotIn characters (reverse (str_rtrim string characters))
unfolding str_rtrim
str_rtrim_lem string characters =
    let (suffix, h, eq, last) = trim_first_lem characters (reverse string) in
    (
      suffix,
      h,
      sym (reverse-reverse string) ∙ eq,
      subst (FirstNotIn characters) (sym (reverse-reverse (trim_first characters (reverse string))))
          last,
    )
