-- ===== src/Filter/Build.antt =====
-- lib/filter.c, lib/syslog-names.c: how the nodes of comparisons, levels and netmasks are made.
use syslog_ng_6_0_core.Common.{
  ℕ, ◌+◌, ◌-◌, ◌*◌, ◌^◌, ◌%◌, false, Option, none, some, List, length, ltb, leb, ◌==◌,
  if◌then◌else◌,
}
use syslog_ng_6_0_core.Common.Words.{land, lnot, ones}
use syslog_ng_6_0_core.Common.Text.{strchr}
use syslog_ng_6_0_core.Common.Integers.{ℤ, pos, negsuc, of_word, to_word, strtoll}
use syslog_ng_6_0_core.Filter.{FilterExprNode, fop_cmp, netmask}

-- the tokens of the operators; those that start with `num` are the numeric ones
pub data CmpToken : Type 0 where
  kw_lt kw_le kw_eq kw_ne kw_ge kw_gt : CmpToken
  kw_num_lt kw_num_le kw_num_eq kw_num_ne kw_num_ge kw_num_gt : CmpToken

-- The switch: each numeric case stores FCMP_NUM and falls into the next case, which stores over it.
unfoldable pub cmp_op_of : CmpToken → ℕ → ℕ
cmp_op_of kw_num_lt cmp_op = let cmp_op : ℕ = 16 in 2
cmp_op_of kw_lt cmp_op = 2
cmp_op_of kw_num_le cmp_op = let cmp_op : ℕ = 16 in 2 + 1
cmp_op_of kw_le cmp_op = 2 + 1
cmp_op_of kw_num_eq cmp_op = let cmp_op : ℕ = 16 in 1
cmp_op_of kw_eq cmp_op = 1
cmp_op_of kw_num_ne cmp_op = let cmp_op : ℕ = 16 in 0
cmp_op_of kw_ne cmp_op = 0
cmp_op_of kw_num_ge cmp_op = let cmp_op : ℕ = 16 in 4 + 1
cmp_op_of kw_ge cmp_op = 4 + 1
cmp_op_of kw_num_gt cmp_op = let cmp_op : ℕ = 16 in 4
cmp_op_of kw_gt cmp_op = 4

unfoldable pub fop_cmp_new : ℕ → ℕ → CmpToken → FilterExprNode
unfolding cmp_op_of
fop_cmp_new left right op = fop_cmp false left right (cmp_op_of op 0)

-- `1 << n` is only made for codes of levels and facilities, with n below 32.
abbrev pub range_mask : ℕ → ℕ → ℕ
range_mask value1 value2 = land 32 (ones (value2 + 1)) (lnot 32 (ones value1))

unfoldable pub syslog_make_range : ℕ → ℕ → ℕ
syslog_make_range value1 value2 =
    if ltb value2 value1 then range_mask value2 value1 else range_mask value1 value2

-- `((1 << prefix) - 1) << (32 - prefix)` as a word. C leaves the second shift open for the prefix
-- 0, by 32 places, and the model reads it as 0, since it shifts a 0; for a prefix that is not
-- between 0 and 32 the shifts are open too, and the model gives no mask.
unfoldable pub prefix_mask : ℤ → Option ℕ
prefix_mask (pos prefix) =
    if prefix == 32
    then some 0xffffffff
    else if ltb prefix 32
    then some (ones prefix * 2 ^ (32 - prefix) % 2 ^ 32)
    else none
prefix_mask (negsuc n) = none

-- the netmask behind the slash: with a dot an address, else the length of the prefix, a gint
unfoldable pub parsed_mask : (List ℕ → ℕ) → List ℕ → Option ℕ
unfolding prefix_mask strtoll
parsed_mask g_inet_aton behind = elim (strchr b'.' behind) [
  | some dotted ↦ some (g_inet_aton behind)
  | none ↦ prefix_mask (of_word 32 (to_word 32 (strtoll behind).value))
]

abbrev masked : ℕ → Option ℕ → Option FilterExprNode
masked address none = none
masked address (some mask) = some (netmask false (land 32 address mask) mask)

-- `g_inet_aton` (the system's reading of an address) gives the address as a number; addresses and
-- masks stand in network order on both sides of every `&`, so the model leaves `htonl` out.
unfoldable pub filter_netmask_new : (List ℕ → ℕ) → List ℕ → Option FilterExprNode
unfolding parsed_mask
filter_netmask_new g_inet_aton cidr = elim (strchr b'/' cidr) [
  | none ↦ masked (g_inet_aton cidr) (some 0xffffffff)
  | some (before, behind) ↦
      if leb 32 (length cidr)
      then masked (g_inet_aton cidr) (some 0xffffffff)
      else masked (g_inet_aton before) (parsed_mask g_inet_aton behind)
]
