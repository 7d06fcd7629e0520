-- ===== src/RefCache/Cached.antt =====
-- A thread that caches its changes to the counters of a message, operation by operation.
use syslog_ng_6_0_core.Common.{
  ℕ, ◌+◌, ◌-◌, ◌%◌, ◌^◌, ◌<◌, ◌≡◌, refl, ap, ◌∙◌, Bool, true, false, ◌&&◌, ◌||◌, List, [], ◌∷◌,
  arith, if◌then◌else◌, Outcome, done, ◌>>=◌,
}
use syslog_ng_6_0_core.AckTracker.{AckType, is_aborted, is_suspended}
use syslog_ng_6_0_core.RefCache.{MsgRefs, log_msg_ref, log_msg_unref, log_msg_add_ack, log_msg_ack}

-- what a thread does with a message; a Bool is `ack_needed` of the path options
pub data Op : Type 0 where
  take_ref drop_ref : Op
  expect_ack : Bool → Op
  give_ack : Bool → AckType → Op

abbrev pub op_refs : Op → ℕ
op_refs take_ref = 1
op_refs drop_ref = 2 ^ 32 - 1
op_refs (expect_ack needed) = 0
op_refs (give_ack needed ack_type) = 0

abbrev pub op_acks : Op → ℕ
op_acks take_ref = 0
op_acks drop_ref = 0
op_acks (expect_ack needed) = if needed then 1 else 0
op_acks (give_ack needed ack_type) = if needed then 2 ^ 32 - 1 else 0

abbrev pub op_abort : Op → Bool
op_abort (give_ack needed ack_type) = needed && is_aborted ack_type
op_abort _ = false

abbrev pub op_suspend : Op → Bool
op_suspend (give_ack needed ack_type) = needed && is_suspended ack_type
op_suspend _ = false

abbrev pub net_refs : List Op → ℕ
net_refs [] = 0
net_refs (o ∷ os) = (op_refs o + net_refs os) % 2 ^ 32

abbrev pub net_acks : List Op → ℕ
net_acks [] = 0
net_acks (o ∷ os) = (op_acks o + net_acks os) % 2 ^ 32

abbrev pub any_abort : List Op → Bool
any_abort [] = false
any_abort (o ∷ os) = op_abort o || any_abort os

abbrev pub any_suspend : List Op → Bool
any_suspend [] = false
any_suspend (o ∷ os) = op_suspend o || any_suspend os

module _ (ack_func : AckType → MsgRefs → Outcome MsgRefs) where
  unfoldable pub apply : MsgRefs → Op → Outcome MsgRefs
  apply self take_ref = log_msg_ref self
  apply self drop_ref = log_msg_unref self
  apply self (expect_ack needed) = done (log_msg_add_ack self needed)
  apply self (give_ack needed ack_type) = log_msg_ack ack_func self needed ack_type

  unfoldable pub apply_all : MsgRefs → List Op → Outcome MsgRefs
  apply_all self [] = done self
  apply_all self (o ∷ os) = apply self o >>= λ s. apply_all s os

abbrev pub word : MsgRefs → ℕ
word self = self.ack_and_ref_and_abort_and_suspended

-- `u` is `self` with so much cached.
pub record Caches (self u : MsgRefs) (refs acks : ℕ) (abort suspend : Bool) : Type 0 where
  pub word_same : word u ≡ word self
  pub freed_same : u.freed ≡ self.freed
  pub current : u.logmsg_current ≡ true
  pub needed_same : u.logmsg_cached_ack_needed ≡ self.logmsg_cached_ack_needed
  pub refs_cached : u.logmsg_cached_refs ≡ (self.logmsg_cached_refs + refs) % 2 ^ 32
  pub acks_cached : u.logmsg_cached_acks ≡ (self.logmsg_cached_acks + acks) % 2 ^ 32
  pub abort_cached : u.logmsg_cached_abort ≡ self.logmsg_cached_abort || abort
  pub suspend_cached : u.logmsg_cached_suspend ≡ self.logmsg_cached_suspend || suspend

pub or_false : (b : Bool) → b ≡ b || false
or_false true = refl
or_false false = refl

or_assoc : (a b c : Bool) → (a || b) || c ≡ a || (b || c)
or_assoc true b c = refl
or_assoc false b c = refl

pub if_true {ℓ} : {A : Type ℓ} (x y : A) {b : Bool} → b ≡ true → (if b then x else y) ≡ x
if_true x y e = ap (λ b. if b then x else y) e

pub if_false {ℓ} : {A : Type ℓ} (x y : A) {b : Bool} → b ≡ false → (if b then x else y) ≡ y
if_false x y e = ap (λ b. if b then x else y) e

module _ (ack_func : AckType → MsgRefs → Outcome MsgRefs) where
  -- an operation that changes nothing
  unchanged-Caches :
      (self : MsgRefs)
      → self.logmsg_current ≡ true
      → self.logmsg_cached_refs < 2 ^ 32
      → self.logmsg_cached_acks < 2 ^ 32
      → Caches self self 0 0 false false
  unchanged-Caches self c hr ha = record {
    word_same = refl;
    freed_same = refl;
    current = c;
    needed_same = refl;
    refs_cached = omega arith;
    acks_cached = omega arith;
    abort_cached = or_false _;
    suspend_cached = or_false _;
  }

  -- one operation of a thread that caches
  apply-Caches :
      (self : MsgRefs) (o : Op)
      → self.logmsg_current ≡ true
      → self.logmsg_cached_refs < 2 ^ 32
      → self.logmsg_cached_acks < 2 ^ 32
      → (u : MsgRefs) × (apply ack_func self o ≡ done u)
        × Caches self u (op_refs o) (op_acks o) (op_abort o) (op_suspend o)
  unfolding apply log_msg_ref log_msg_unref log_msg_add_ack log_msg_ack
  apply-Caches self take_ref c hr ha = (
    record self { logmsg_cached_refs = (self.logmsg_cached_refs + 1) % 2 ^ 32 },
    if_true _ _ c,
    record {
      word_same = refl;
      freed_same = refl;
      current = c;
      needed_same = refl;
      refs_cached = refl;
      acks_cached = omega arith;
      abort_cached = or_false _;
      suspend_cached = or_false _;
    },
  )
  apply-Caches self drop_ref c hr ha = (
    record self { logmsg_cached_refs = (self.logmsg_cached_refs + 2 ^ 32 - 1) % 2 ^ 32 },
    if_true _ _ c,
    record {
      word_same = refl;
      freed_same = refl;
      current = c;
      needed_same = refl;
      refs_cached = omega arith;
      acks_cached = omega arith;
      abort_cached = or_false _;
      suspend_cached = or_false _;
    },
  )
  apply-Caches self (expect_ack true) c hr ha = (
    record self { logmsg_cached_acks = (self.logmsg_cached_acks + 1) % 2 ^ 32 },
    ap done (if_true _ _ c),
    record {
      word_same = refl;
      freed_same = refl;
      current = c;
      needed_same = refl;
      refs_cached = omega arith;
      acks_cached = refl;
      abort_cached = or_false _;
      suspend_cached = or_false _;
    },
  )
  apply-Caches self (expect_ack false) c hr ha = (self, refl, unchanged-Caches self c hr ha)
  apply-Caches self (give_ack true ack_type) c hr ha = (
    record self {
      logmsg_cached_acks = (self.logmsg_cached_acks + 2 ^ 32 - 1) % 2 ^ 32;
      logmsg_cached_abort = self.logmsg_cached_abort || is_aborted ack_type;
      logmsg_cached_suspend = self.logmsg_cached_suspend || is_suspended ack_type;
    },
    if_true _ _ c,
    record {
      word_same = refl;
      freed_same = refl;
      current = c;
      needed_same = refl;
      refs_cached = omega arith;
      acks_cached = omega arith;
      abort_cached = refl;
      suspend_cached = refl;
    },
  )
  apply-Caches self (give_ack false ack_type) c hr ha = (self, refl, unchanged-Caches self c hr ha)

  pub all_cached :
      (self : MsgRefs) (os : List Op)
      → self.logmsg_current ≡ true
      → self.logmsg_cached_refs < 2 ^ 32
      → self.logmsg_cached_acks < 2 ^ 32
      → (u : MsgRefs) × (apply_all ack_func self os ≡ done u)
        × Caches self u (net_refs os) (net_acks os) (any_abort os) (any_suspend os)
  unfolding apply_all
  all_cached self [] c hr ha = (self, refl, unchanged-Caches self c hr ha)
  all_cached self (o ∷ os) c hr ha =
      let (s, run, p) = apply-Caches self o c hr ha in
      let (u, run', q) =
        all_cached s os p.current (omega (arith, p.refs_cached)) (omega (arith, p.acks_cached)) in
      (
        u,
        ap (λ m. m >>= λ x. apply_all ack_func x os) run ∙ run',
        record {
          word_same = q.word_same ∙ p.word_same;
          freed_same = q.freed_same ∙ p.freed_same;
          current = q.current;
          needed_same = q.needed_same ∙ p.needed_same;
          refs_cached = q.refs_cached ∙ omega (arith, p.refs_cached);
          acks_cached = q.acks_cached ∙ omega (arith, p.acks_cached);
          abort_cached =
              q.abort_cached
              ∙ ap (λ b. b || any_abort os) p.abort_cached
              ∙ or_assoc self.logmsg_cached_abort (op_abort o) (any_abort os);
          suspend_cached =
              q.suspend_cached
              ∙ ap (λ b. b || any_suspend os) p.suspend_cached
              ∙ or_assoc self.logmsg_cached_suspend (op_suspend o) (any_suspend os);
        },
      )
