-- ===== src/StrFormat/Fields.antt =====
-- One number of a timestamp of lib/str-format.c, padded with zeros and scanned.
use syslog_ng_6_0_core.Common.{
  ℕ, zero, suc, ◌/◌, ◌^◌, ◌≤◌, ◌<◌, ◌≡◌, inl, inr, refl, sym, ap, ◌∙◌, Bool, Option, some, List, [],
  ◌++◌, arith, length, ltb, Bool-cases,
}
use syslog_ng_6_0_core.StrFormat.{
  Scan, proceed, ◌>>=◌, found, pos, to_gint, format_rev, format_uint32_base10_rev,
  format_uint32_padded, scan_uint32, scan_int,
}
use syslog_ng_6_0_core.StrFormat.Padded.{put_padded_lem}
use syslog_ng_6_0_core.StrFormat.Numbers.{tens, scan-format_uint32}

-- `v` in `n` digits, with zeros in front
unfoldable pub padded : ℕ → ℕ → List ℕ
padded n v = (format_uint32_padded [] n 48 10 v).1

length-format_rev : (k n v : ℕ) → v < tens n → length (format_rev 10 k v) ≤ n
unfolding format_rev
length-format_rev zero n v h = omega arith
length-format_rev (suc k) zero v h = elim (Bool-cases (ltb 0 v)) [
  | inl e ↦ absurd (ground arith)
  | inr e ↦ rw e (omega arith)
]
length-format_rev (suc k) (suc n) v h = elim (Bool-cases (ltb 0 v)) [
  | inl e ↦ rw e (omega (arith, length-format_rev k n (v / 10) (omega arith)))
  | inr e ↦ rw e (omega arith)
]

length-base10 : (n v : ℕ) → v < tens (suc n) → length (format_uint32_base10_rev 32 v) ≤ suc n
unfolding format_uint32_base10_rev
length-base10 n v h = omega (arith, length-format_rev 31 n (v / 10) (omega arith))

pub then_scan :
    {X Y : Type 0} (m : Scan X) (f : X → Scan Y) {buf : List ℕ} {x : X} {rest : List ℕ}
    {r : Option Y × List ℕ}
    → m buf ≡ (some x, rest)
    → f x rest ≡ r
    → (m >>= f) buf ≡ r
then_scan m f e h = ap (proceed f) e ∙ h

module _ (g_ascii_isspace : ℕ → Bool) where
  pub scan_padded :
      (n v : ℕ) (rest : List ℕ)
      → v < tens (suc n)
      → v < 2 ^ 31
      → scan_int g_ascii_isspace (suc n) (padded (suc n) v ++ rest) ≡ (some (pos v), rest)
  unfolding scan_int padded format_uint32_padded
  scan_padded n v rest h small =
      let (text, run, le, scanned) =
        scan-format_uint32 g_ascii_isspace [] rest (suc n) 48 v (inl refl) (omega (arith, small)) in
      let num = format_uint32_base10_rev 32 v in
      let width : length text ≡ suc n =
        ap (λ p. p.0) (sym run ∙ put_padded_lem [] (suc n) 48 num)
        ∙ omega (arith, length-base10 n v h) in
      let value : to_gint v ≡ pos v = ground arith in
      ap (λ zs. proceed (λ u. found (to_gint u)) (scan_uint32 g_ascii_isspace (suc n) (zs ++ rest)))
        (ap (λ p. p.1) run)
      ∙ ap (λ m. proceed (λ u. found (to_gint u)) (scan_uint32 g_ascii_isspace m (text ++ rest)))
          (sym width)
      ∙ ap (proceed (λ u. found (to_gint u))) scanned
      ∙ ap (λ w. (some w, rest)) value
