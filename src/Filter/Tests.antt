-- ===== src/Filter/Tests.antt =====
-- Runs of the filters of lib/filter.c.
use syslog_ng_6_0_core.Common.{
  ℕ, zero, suc, ◌+◌, ◌%◌, ◌/◌, ◌≡◌, ◌↔◌, refl, Bool, true, false, ◌==◌, Option, none, some, List,
  [], ◌∷◌, if◌then◌else◌, arith,
}
use syslog_ng_6_0_core.Common.Options.{◌>>=◌}
use syslog_ng_6_0_core.Common.Words.{shr}
use syslog_ng_6_0_core.Common.Text.{c_str, strchr}
use syslog_ng_6_0_core.Common.Integers.{pos, strtoll, skip_space, decimal}
use syslog_ng_6_0_core.Filter.{
  LogMessage, inet, FilterExprNode, fop_or, fop_and, facility, level, call, filter_expr_eval,
  filter_facility_eval, filter_level_eval, log_filter_pipe_queue, queued,
}
use syslog_ng_6_0_core.Filter.Build.{kw_num_lt, fop_cmp_new, filter_netmask_new, syslog_make_range}
use syslog_ng_6_0_core.Filter.Setup.{
  FilterState, filter_expr_init, fop_init, filter_call_init, log_pipe_init, resolved,
}
use syslog_ng_6_0_core.Filter.Negation.{de_morgan}
use syslog_ng_6_0_core.Filter.Order.{Before, cmp_by_order}
use syslog_ng_6_0_core.Filter.Membership.{
  between, priority_ranges, netmask_members, same_network, peer,
}
use syslog_ng_6_0_core.Filter.Loops.{Within, init_ends}
use syslog_ng_6_0_core.Filter.Resolve.{fresh-IsConsistent}
use syslog_ng_6_0_core.Filter.Evaluate.{init_evaluates, by_rules}

-- <165>, from 10.1.2.3; the values hold a number of one digit
abbrev message : LogMessage
message = record {
  pri = 165;
  saddr = some (inet 0x0a010203);
  value = λ handle. (b'0' + handle) ∷ [];
  has_tag = λ id. id == 7;
}

-- a matcher that looks for a 9, and templates that are one value each
abbrev matcher : ℕ → LogMessage → ℕ → List ℕ → Bool × LogMessage
matcher m msg handle [] = (false, msg)
matcher m msg handle (c ∷ cs) = (c == b'9', msg)

abbrev template : ℕ → LogMessage → List ℕ
template t msg = msg.value t

-- "filter a { level(5) or filter(b) }", "filter b { not facility(20) }"
abbrev rules : ℕ → Option ℕ
rules zero = some 0
rules (suc zero) = some 1
rules _ = none

abbrev exprs : ℕ → FilterExprNode
exprs zero = fop_or false (level false 0x20) (call false 1)
exprs _ = facility true 0x80000014

abbrev looping : ℕ → FilterExprNode
looping zero = fop_or false (level false 0x20) (call false 1)
looping _ = call false 2

abbrev fresh : FilterState
fresh = record {
  calls = λ i. record { rule = (if i == 2 then 0 else i); filter_expr = none; visited = false };
  initialized = λ p. false;
}

initialized_a :
    (t : FilterState) × (filter_expr_init rules exprs 3 (call false 0) fresh ≡ some (true, t))
unfolding filter_expr_init fop_init filter_call_init log_pipe_init resolved
initialized_a = (_, refl)

loop_found :
    (t : FilterState) × (filter_expr_init rules looping 4 (call false 0) fresh ≡ some (false, t))
unfolding filter_expr_init fop_init filter_call_init log_pipe_init resolved
loop_found = (_, refl)

exprs-Within : (p : ℕ) → Within 2 (exprs p)
exprs-Within zero = (tt, omega arith)
exprs-Within (suc p) = tt

init_ends_example :
    (r : Bool × FilterState) × (filter_expr_init rules exprs 3 (call false 0) fresh ≡ some r)
init_ends_example =
    init_ends rules exprs 2 exprs-Within 3 (call false 0) fresh (omega arith) (omega arith)

de_morgan_example :
    filter_expr_eval matcher template fresh.calls 1
      (fop_or true (level false 1) (facility false 1))
      message
    ≡ filter_expr_eval matcher template fresh.calls 1
        (fop_and false (level true 1) (facility true 1))
        message
de_morgan_example =
    de_morgan matcher template fresh.calls 1 true (level false 1) (facility false 1) message

cmp_by_order_example :
    (filter_expr_eval matcher template fresh.calls 0 (fop_cmp_new 3 4 kw_num_lt) message
      ≡ some (true, message))
    ↔ Before (c_str (template 3 message)) (c_str (template 4 message))
cmp_by_order_example = cmp_by_order matcher template fresh.calls 0 3 4 kw_num_lt message

priority_ranges_example :
    (filter_level_eval false (syslog_make_range 6 4) message ≡ between 6 4 (165 % 8))
    × (filter_facility_eval false (syslog_make_range 6 4) message ≡ between 6 4 (165 / 8 % 32))
priority_ranges_example = priority_ranges 6 4 message (omega arith) (omega arith) (omega arith)

-- "10.1.0.0/16", for a system whose inet_aton reads just that
abbrev inet_aton : List ℕ → ℕ
inet_aton text = 0x0a010000

abbrev network : List ℕ
network = b'1' ∷ b'0' ∷ b'.' ∷ b'1' ∷ b'.' ∷ b'0' ∷ b'.' ∷ b'0' ∷ []

abbrev cidr : List ℕ
cidr = b'1' ∷ b'0' ∷ b'.' ∷ b'1' ∷ b'.' ∷ b'0' ∷ b'.' ∷ b'0' ∷ b'/' ∷ b'1' ∷ b'6' ∷ []

cidr_split : strchr b'/' cidr ≡ some (network, b'1' ∷ b'6' ∷ [])
unfolding strchr
cidr_split = refl

no_dot : strchr b'.' (b'1' ∷ b'6' ∷ []) ≡ none
unfolding strchr
no_dot = refl

prefix_read : (strtoll (b'1' ∷ b'6' ∷ [])).value ≡ pos 16
unfolding strtoll skip_space decimal
prefix_read = refl

netmask_members_example :
    (filter_netmask_new inet_aton cidr >>= λ node.
    filter_expr_eval matcher template fresh.calls 0 node message)
    ≡ some (same_network 16 0x0a010000 (peer message.saddr), message)
netmask_members_example =
    netmask_members matcher template fresh.calls inet_aton cidr network (b'1' ∷ b'6' ∷ []) 16 0
      message cidr_split (omega arith) no_dot prefix_read (omega arith) (omega arith) (omega arith)

in_network : same_network 16 0x0a010000 (peer message.saddr) ≡ true
unfolding shr
in_network = refl

init_evaluates_example :
    (depth : ℕ) × (r : Bool × LogMessage) × (filter_expr_eval matcher template initialized_a.0.calls
        depth
        (call false 0)
        message
      ≡ some r)
    × (filter_expr_eval matcher template
          (by_rules rules exprs initialized_a.0.calls)
          depth
          (call false 0)
          message
        ≡ some r)
    × (log_filter_pipe_queue
          (filter_expr_eval matcher template initialized_a.0.calls depth (call false 0))
          message
          (some true)
        ≡ some (queued (some true) r))
init_evaluates_example =
    init_evaluates matcher template rules exprs 3 (call false 0) fresh initialized_a.0 message
      (some true) (fresh-IsConsistent rules exprs fresh (λ i. refl) (λ p. refl)) initialized_a.1
