-- ===== src/Filter/Membership.antt =====
-- lib/filter.c, lib/filter-in-list.c: which messages the filters of levels, facilities, netmasks,
-- tags and lists of values let pass.
use syslog_ng_6_0_core.Common.{
  ℕ, ◌+◌, ◌-◌, ◌*◌, ◌/◌, ◌%◌, ◌^◌, ◌≤◌, ◌<◌, ◌≡◌, inl, inr, refl, ap, ◌∙◌, Bool, true, false, ◌&&◌,
  Option, none, some, List, min, max, length, ltb, leb, ◌==◌, Bool-cases, arith,
}
use syslog_ng_6_0_core.Common.Words.{
  bit, land, lnot, ones, shr, pow_pos, pow_mono, eq-mul, high_mask_lt, land_high, bit-land,
  bit-lnot, bit-ones,
}
use syslog_ng_6_0_core.Common.Integers.{pos, of_word, to_word, strtoll}
use syslog_ng_6_0_core.Common.Text.{strchr}
use syslog_ng_6_0_core.Common.Options.{◌>>=◌}
use syslog_ng_6_0_core.Filter.{
  LogMessage, SockAddr, inet, unix, other, FilterCall, filter_facility_eval, filter_level_eval,
  filter_netmask_eval, filter_expr_eval,
}
use syslog_ng_6_0_core.Filter.Build.{
  syslog_make_range, prefix_mask, range_mask, parsed_mask, filter_netmask_new,
}

ones_lt : (v : ℕ) → v < 32 → ones v < 2 ^ 32
ones_lt v h = omega (arith, pow_mono v 32 (omega arith), pow_pos v)

bit_range : (v1 v2 k : ℕ) → v1 < 32 → k < 32 → bit (range_mask v1 v2) k ≡ (leb v1 k && leb k v2)
bit_range v1 v2 k h l =
    bit-land 32 (ones (v2 + 1)) (lnot 32 (ones v1)) k l
    ∙ rw (bit-ones (v2 + 1) k, bit-lnot 32 (ones v1) k l (ones_lt v1 h), bit-ones v1 k)
        (ground arith)

-- whether a code lies between two others, in either order
abbrev pub between : ℕ → ℕ → ℕ → Bool
between v1 v2 code = leb (min v1 v2) code && leb code (max v1 v2)

bit_make_range :
    (v1 v2 k : ℕ) → v1 < 32 → v2 < 32 → k < 32 → bit (syslog_make_range v1 v2) k ≡ between v1 v2 k
unfolding syslog_make_range
bit_make_range v1 v2 k h1 h2 h = elim (Bool-cases (ltb v2 v1)) [
  | inl swapped ↦ rw (swapped, bit_range v2 v1 k h2 h) (ground arith)
  | inr kept ↦ rw (kept, bit_range v1 v2 k h1 h) (ground arith)
]

-- On a message with a priority below 1024, the filters of a range of codes below 24 match exactly
-- where the level lies between the two codes, in either order, and where the facility modulo 32
-- does.
pub priority_ranges :
    (v1 v2 : ℕ) (msg : LogMessage)
    → v1 < 24
    → v2 < 24
    → msg.pri < 1024
    → (filter_level_eval false (syslog_make_range v1 v2) msg ≡ between v1 v2 (msg.pri % 8))
      × (filter_facility_eval false (syslog_make_range v1 v2) msg
          ≡ between v1 v2 (msg.pri / 8 % 32))
unfolding filter_level_eval filter_facility_eval
priority_ranges v1 v2 msg h1 h2 h =
    let listed : bit (syslog_make_range v1 v2) 31 ≡ false =
      bit_make_range v1 v2 31 (omega arith) (omega arith) (omega arith) ∙ ground arith in
    let fac : msg.pri % 1024 / 8 % 32 ≡ msg.pri / 8 % 32 = omega arith in
    (
      bit_make_range v1 v2 (msg.pri % 8) (omega arith) (omega arith) (omega arith),
      rw (listed, fac)
          (bit_make_range v1 v2 (msg.pri / 8 % 32) (omega arith) (omega arith) (omega arith)),
    )

-- the address against which a netmask is matched
abbrev pub peer : Option SockAddr → Option ℕ
peer none = some 0x7f000001
peer (some unix) = some 0x7f000001
peer (some (inet addr)) = some addr
peer (some other) = none

abbrev pub IsWord : Option ℕ → Type 0
IsWord none = Unit {0}
IsWord (some addr) = addr < 2 ^ 32

-- whether two addresses agree in their first `prefix` bits; a message that comes from neither an
-- IPv4 address nor the host is in no network
abbrev pub same_network : ℕ → ℕ → Option ℕ → Bool
same_network prefix address none = false
same_network prefix address (some addr) = shr addr (32 - prefix) == shr address (32 - prefix)

prefix_mask_lem : (p : ℕ) → p ≤ 32 → prefix_mask (pos p) ≡ some (ones p * 2 ^ (32 - p))
unfolding prefix_mask
prefix_mask_lem p h = elim (Bool-cases (p == 32)) [
  | inl full ↦ let e : p ≡ 32 = ground arith in rw (full, e)
  | inr part ↦
      let small : ltb p 32 ≡ true = ground arith in
      rw (part, small) (ap some (omega (arith, high_mask_lt (32 - p) p 32 (omega arith))))
]

gint_small : (p : ℕ) → p ≤ 32 → of_word 32 (to_word 32 (pos p)) ≡ pos p
gint_small p h = ground arith

module _ (p address : ℕ) (p-le : p ≤ 32) (address-lt : address < 2 ^ 32) where
  abbrev mask : ℕ
  mask = ones p * 2 ^ (32 - p)

  masked_test :
      (addr : ℕ)
      → addr < 2 ^ 32
      → (land 32 addr mask == land 32 address mask) ≡ same_network p address (some addr)
  masked_test addr h =
      rw
        (
          land_high (32 - p) p 32 addr (omega arith) h,
          land_high (32 - p) p 32 address (omega arith) address-lt,
        )
        (eq-mul (shr addr (32 - p)) (shr address (32 - p)) (2 ^ (32 - p)) (pow_pos (32 - p)))

  netmask_test :
      (saddr : Option SockAddr) (msg : LogMessage)
      → IsWord (peer saddr)
      → filter_netmask_eval false (land 32 address mask) mask (record msg { saddr = saddr })
        ≡ same_network p address (peer saddr)
  unfolding filter_netmask_eval
  netmask_test none msg h = masked_test 0x7f000001 h
  netmask_test (some unix) msg h = masked_test 0x7f000001 h
  netmask_test (some (inet addr)) msg h = masked_test addr h
  netmask_test (some other) msg h = refl

module _ (log_matcher_match : ℕ → LogMessage → ℕ → List ℕ → Bool × LogMessage)
    (log_template_format : ℕ → LogMessage → List ℕ) (calls : ℕ → FilterCall)
    (g_inet_aton : List ℕ → ℕ) where
  -- The filter made from an address and the length p of a prefix, at most 32, in a text of less
  -- than 32 bytes, matches a message exactly where the first p bits of the address and of the
  -- sender of the message, or of 127.0.0.1 where it comes from the host itself, agree, and no
  -- message of another kind.
  pub netmask_members :
      (cidr before behind : List ℕ) (p n : ℕ) (msg : LogMessage)
      → strchr b'/' cidr ≡ some (before, behind)
      → length cidr < 32
      → strchr b'.' behind ≡ none
      → (strtoll behind).value ≡ pos p
      → p ≤ 32
      → g_inet_aton before < 2 ^ 32
      → IsWord (peer msg.saddr)
      → (filter_netmask_new g_inet_aton cidr >>= λ node.
          filter_expr_eval log_matcher_match log_template_format calls n node msg)
        ≡ some (same_network p (g_inet_aton before) (peer msg.saddr), msg)
  unfolding filter_netmask_new parsed_mask filter_expr_eval
  netmask_members cidr before behind p n msg slash short dotless parsed p-le address-lt word =
      let fits : leb 32 (length cidr) ≡ false = ground arith in
      rw
        (
          slash,
          filter_netmask_new,
          fits,
          dotless,
          parsed_mask,
          parsed,
          gint_small p p-le,
          prefix_mask_lem p p-le,
        )
        (ap (λ b. some (b, msg))
          (netmask_test p (g_inet_aton before) p-le address-lt msg.saddr msg word))
