-- ===== src/Filter.antt =====
-- lib/filter.c, lib/filter-in-list.c: the nodes of a filter expression and their evaluation. Nodes
-- refer to templates, matchers and the nodes of filter() by number, as the code does by pointer.
pub mod Setup
pub mod Build
pub mod Negation
pub mod Order
pub mod Membership
pub mod Loops
pub mod Resolve
pub mod Ready
pub mod Evaluate
mod Tests
use syslog_ng_6_0_core.Common.{
  ℕ, zero, suc, ◌+◌, ◌*◌, ◌/◌, ◌%◌, ◌^◌, ◌≡◌, Bool, true, false, not, ◌&&◌, ◌||◌, Option, none,
  some, List, [], ◌∷◌, ◌++◌, length, ltb, ◌==◌, if◌then◌else◌,
}
use Prim.Native.Nat.{Ordering}
use mathlib.Core.Option
use syslog_ng_6_0_core.Common.Options.{◌>>=◌}
use syslog_ng_6_0_core.Common.Words.{bit, land}
use syslog_ng_6_0_core.Common.Text.{c_str, strcmp}
use syslog_ng_6_0_core.Common.Integers.{ltℤ, eqℤ, atoi}

-- `saddr` where it is not NULL, by its family; an address is a number of 32 bits
pub data SockAddr : Type 0 where
  inet : ℕ → SockAddr
  unix other : SockAddr

-- What filters read of a message; `value` is `log_msg_get_value`, `has_tag` is
-- `log_msg_is_tag_by_id`.
pub record LogMessage : Type 0 where
  pub pri : ℕ
  pub saddr : Option SockAddr
  pub value : ℕ → List ℕ
  pub has_tag : ℕ → Bool

-- The first argument of each is `comp`.
pub data FilterExprNode : Type 0 where
  fop_or fop_and : Bool → FilterExprNode → FilterExprNode → FilterExprNode
  fop_cmp : Bool → ℕ → ℕ → ℕ → FilterExprNode
  facility : Bool → ℕ → FilterExprNode
  level : Bool → ℕ → FilterExprNode
  regexp : Bool → ℕ → ℕ → FilterExprNode
  match_value : Bool → ℕ → ℕ → FilterExprNode
  call : Bool → ℕ → FilterExprNode
  netmask : Bool → ℕ → ℕ → FilterExprNode
  tags : Bool → List ℕ → FilterExprNode
  in_list : Bool → ℕ → List (List ℕ) → FilterExprNode

-- A node of filter(): the number of its rule, its fields `filter_expr` and `visited`.
pub record FilterCall : Type 0 where
  pub rule : ℕ
  pub filter_expr : Option FilterExprNode
  pub visited : Bool

-- `b ^ comp`
abbrev pub xor : Bool → Bool → Bool
xor b true = not b
xor b false = b

-- The flags FCMP_EQ, FCMP_LT, FCMP_GT and FCMP_NUM are the bits 0, 1, 2 and 4.
unfoldable pub fop_cmp_result : ℕ → Ordering → Bool
fop_cmp_result cmp_op Ordering.eq = bit cmp_op 0
fop_cmp_result cmp_op Ordering.lt = bit cmp_op 1 || cmp_op == 0
fop_cmp_result cmp_op Ordering.gt = bit cmp_op 2 || cmp_op == 0

-- the sign of `cmp`
unfoldable pub fop_cmp_order : ℕ → List ℕ → List ℕ → Ordering
fop_cmp_order cmp_op left_buf right_buf =
    if bit cmp_op 4
    then (let l = atoi (c_str left_buf) in
        let r = atoi (c_str right_buf) in
        if eqℤ l r then Ordering.eq else if ltℤ r l then Ordering.lt else Ordering.gt)
    else strcmp (c_str left_buf) (c_str right_buf)

-- A shift by a count of 32 or more is left open by C; the count is taken modulo 32 here, as the
-- common processors do.
unfoldable pub filter_facility_eval : Bool → ℕ → LogMessage → Bool
filter_facility_eval comp valid msg =
    let fac_num = msg.pri % 1024 / 8 in
    if bit valid 31
    then xor (valid % 2 ^ 31 == fac_num) comp
    else xor (bit valid (fac_num % 32)) comp

unfoldable pub filter_level_eval : Bool → ℕ → LogMessage → Bool
filter_level_eval comp valid msg = xor (bit valid (msg.pri % 8)) comp

unfoldable pub filter_netmask_eval : Bool → ℕ → ℕ → LogMessage → Bool
filter_netmask_eval comp address mask msg = elim msg.saddr [
  | some (inet addr) ↦ xor (land 32 addr mask == address) comp
  | some unix ↦ xor (land 32 0x7f000001 mask == address) comp
  | some other ↦ comp
  | none ↦ xor (land 32 0x7f000001 mask == address) comp
]

-- the loop over the tags
unfoldable pub any_tag : LogMessage → List ℕ → Bool
any_tag msg [] = false
any_tag msg (id ∷ ids) = if msg.has_tag id then true else any_tag msg ids

unfoldable pub filter_tags_eval : Bool → List ℕ → LogMessage → Bool
filter_tags_eval comp ids msg = xor (any_tag msg ids) comp

-- `g_tree_lookup` with the keys ordered by `strcmp`
unfoldable pub tree_lookup : List (List ℕ) → List ℕ → Bool
tree_lookup [] key = false
tree_lookup (k ∷ keys) key = elim (strcmp key k) [
  | Ordering.eq ↦ true
  | Ordering.lt ↦ tree_lookup keys key
  | Ordering.gt ↦ tree_lookup keys key
]

unfoldable pub filter_in_list_eval : Bool → ℕ → List (List ℕ) → LogMessage → Bool
filter_in_list_eval comp value_handle tree msg =
    xor (tree_lookup tree (c_str (msg.value value_handle))) comp

-- The handles LM_V_MESSAGE, LM_V_PROGRAM and LM_V_PID are 3, 4 and 5. The text of the message as
-- old versions matched it, "program[pid]: message".
unfoldable pub compatible_text : LogMessage → List ℕ
compatible_text msg =
    let pid = msg.value 5 in
    c_str (msg.value 4)
    ++ ((if ltb 0 (length pid) then b'[' ∷ [] else [])
        ++ (c_str pid
            ++ ((if ltb 0 (length pid) then b']' ∷ [] else [])
                ++ (b':' ∷ 32 ∷ c_str (msg.value 3)))))

-- The evaluation of a node, which may change the message.
abbrev pub Eval : Type 0
Eval = LogMessage → Option (Bool × LogMessage)

-- `r ^ comp` of what an evaluation returns
abbrev pub negated_if : Bool → Bool × LogMessage → Option (Bool × LogMessage)
negated_if comp (res, msg) = some (xor res comp, msg)

-- The right side is evaluated only where the left one leaves the result open.
abbrev pub or_right : Bool → Eval → Bool × LogMessage → Option (Bool × LogMessage)
or_right comp right (true, msg) = negated_if comp (true, msg)
or_right comp right (false, msg) = right msg >>= negated_if comp

abbrev pub and_right : Bool → Eval → Bool × LogMessage → Option (Bool × LogMessage)
and_right comp right (true, msg) = right msg >>= negated_if comp
and_right comp right (false, msg) = negated_if comp (false, msg)

unfoldable pub fop_or_eval : Bool → Eval → Eval → Eval
fop_or_eval comp left right msg = left msg >>= or_right comp right

unfoldable pub fop_and_eval : Bool → Eval → Eval → Eval
fop_and_eval comp left right msg = left msg >>= and_right comp right

-- An expression that has not been resolved does not match.
unfoldable pub filter_call_eval : Bool → Option Eval → Eval
filter_call_eval comp none msg = negated_if comp (false, msg)
filter_call_eval comp (some eval) msg = eval msg >>= negated_if comp

-- `log_matcher_match`, of a matcher and a message with the handle and the text of a value, may
-- store its matches in the message; `log_template_format_with_context` formats a template; `calls`
-- holds the nodes of filter().
module _ (log_matcher_match : ℕ → LogMessage → ℕ → List ℕ → Bool × LogMessage)
    (log_template_format : ℕ → LogMessage → List ℕ) (calls : ℕ → FilterCall) where
  unfoldable pub fop_cmp_eval : Bool → ℕ → ℕ → ℕ → LogMessage → Bool
  unfolding fop_cmp_result fop_cmp_order
  fop_cmp_eval comp left right cmp_op msg =
      let left_buf = log_template_format left msg in
      let right_buf = log_template_format right msg in
      xor (fop_cmp_result cmp_op (fop_cmp_order cmp_op left_buf right_buf)) comp

  unfoldable pub filter_re_eval_string : Bool → ℕ → LogMessage → ℕ → List ℕ → Bool × LogMessage
  filter_re_eval_string comp matcher msg value_handle str =
      let (matched, msg') = log_matcher_match matcher msg value_handle str in
      (xor matched comp, msg')

  unfoldable pub filter_re_eval : Bool → ℕ → ℕ → LogMessage → Bool × LogMessage
  unfolding filter_re_eval_string
  filter_re_eval comp value_handle matcher msg =
      filter_re_eval_string comp matcher msg value_handle (msg.value value_handle)

  unfoldable pub filter_match_eval : Bool → ℕ → ℕ → LogMessage → Bool × LogMessage
  unfolding filter_re_eval_string filter_re_eval
  filter_match_eval comp value_handle matcher msg =
      if value_handle == 0
      then filter_re_eval_string comp matcher msg 0 (compatible_text msg)
      else filter_re_eval comp value_handle matcher msg

  -- `filter_expr_eval_with_context`; the fuel counts the calls of filter() inside one another.
  unfoldable pub filter_expr_eval : ℕ → FilterExprNode → LogMessage → Option (Bool × LogMessage)
  unfolding fop_or_eval fop_and_eval fop_cmp_eval filter_facility_eval filter_level_eval
      filter_netmask_eval filter_tags_eval filter_in_list_eval filter_re_eval filter_match_eval
      filter_call_eval
  filter_expr_eval n (fop_or comp left right) msg =
      fop_or_eval comp (filter_expr_eval n left) (filter_expr_eval n right) msg
  filter_expr_eval n (fop_and comp left right) msg =
      fop_and_eval comp (filter_expr_eval n left) (filter_expr_eval n right) msg
  filter_expr_eval n (fop_cmp comp left right cmp_op) msg =
      some (fop_cmp_eval comp left right cmp_op msg, msg)
  filter_expr_eval n (facility comp valid) msg = some (filter_facility_eval comp valid msg, msg)
  filter_expr_eval n (level comp valid) msg = some (filter_level_eval comp valid msg, msg)
  filter_expr_eval n (regexp comp value_handle matcher) msg =
      some (filter_re_eval comp value_handle matcher msg)
  filter_expr_eval n (match_value comp value_handle matcher) msg =
      some (filter_match_eval comp value_handle matcher msg)
  filter_expr_eval n (netmask comp address mask) msg =
      some (filter_netmask_eval comp address mask msg, msg)
  filter_expr_eval n (tags comp ids) msg = some (filter_tags_eval comp ids msg, msg)
  filter_expr_eval n (in_list comp value_handle tree) msg =
      some (filter_in_list_eval comp value_handle tree msg, msg)
  filter_expr_eval zero (call comp id) msg = none
  filter_expr_eval (suc n) (call comp id) msg =
      filter_call_eval comp (Option.map (filter_expr_eval n) (calls id).filter_expr) msg

-- What becomes of the message: it goes on to the next pipe, or `log_msg_drop` ends its way.
-- `matched` is `*path_options->matched`, where there is such a flag.
pub record Queued : Type 0 where
  pub msg : LogMessage
  pub forwarded : Bool
  pub dropped : Bool
  pub matched : Option Bool

abbrev lowered : Option Bool → Option Bool
lowered none = none
lowered (some flag) = some false

abbrev pub queued : Option Bool → Bool × LogMessage → Queued
queued matched (true, msg') = record {
  msg = msg';
  forwarded = true;
  dropped = false;
  matched = matched;
}
queued matched (false, msg') = record {
  msg = msg';
  forwarded = false;
  dropped = true;
  matched = lowered matched;
}

-- `eval` is `filter_expr_eval` of the pipe's expression.
unfoldable pub log_filter_pipe_queue :
    (LogMessage → Option (Bool × LogMessage)) → LogMessage → Option Bool → Option Queued
log_filter_pipe_queue eval msg matched = eval msg >>= λ r. some (queued matched r)
