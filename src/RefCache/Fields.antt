-- ===== src/RefCache/Fields.antt =====
-- The counters and the flags that share a word in lib/logmsg.c.
use syslog_ng_6_0_core.Common.{
  ℕ, ◌+◌, ◌*◌, ◌%◌, ◌^◌, ◌<◌, ◌≡◌, refl, sym, ap, ◌∙◌, Bool, true, false, ◌||◌, arith,
}
use syslog_ng_6_0_core.RefCache.{
  value_to_ref, value_to_ack, value_to_abort, value_to_suspend, or_flag, set_ref, set_ack,
  set_abort, set_suspend, updated, bias,
}

-- a word with these fields
pub record Word (v r a b s : ℕ) : Type 0 where
  pub word_is : v ≡ r + a * 2 ^ 15 + b * 2 ^ 30 + s * 2 ^ 31
  pub ref_in : r < 2 ^ 15
  pub ack_in : a < 2 ^ 15
  pub abort_in : b < 2
  pub suspend_in : s < 2

pub fields-Word :
    (v : ℕ)
    → v < 2 ^ 32
    → Word v (value_to_ref v) (value_to_ack v) (value_to_abort v) (value_to_suspend v)
fields-Word v h = omega arith

pub fields_of :
    {v r a b s : ℕ}
    → Word v r a b s
    → (value_to_ref v ≡ r)
      × (value_to_ack v ≡ a)
      × (value_to_abort v ≡ b)
      × (value_to_suspend v ≡ s)
fields_of {v} {r} {a} {b} {s} w = omega (arith, w)

set_ref-Word : (v x : ℕ) {r a b s : ℕ} → Word v r a b s → Word (set_ref v x) (x % 2 ^ 15) a b s
set_ref-Word v x {r} {a} {b} {s} w = omega (arith, w)

set_ack-Word : (v x : ℕ) {r a b s : ℕ} → Word v r a b s → Word (set_ack v x) r (x % 2 ^ 15) b s
set_ack-Word v x {r} {a} {b} {s} w = omega (arith, w)

set_abort-Word : (v x : ℕ) {r a b s : ℕ} → Word v r a b s → Word (set_abort v x) r a (x % 2) s
set_abort-Word v x {r} {a} {b} {s} w = omega (arith, w)

set_suspend-Word : (v x : ℕ) {r a b s : ℕ} → Word v r a b s → Word (set_suspend v x) r a b (x % 2)
set_suspend-Word v x {r} {a} {b} {s} w = omega (arith, w)

-- Adding to the counters and raising the flags of a 32 bit word changes each of the four fields by
-- itself, the counters modulo 2^15, and gives a 32 bit word.
pub updated_fields :
    (v add_ref add_ack : ℕ) (add_abort add_suspend : Bool)
    → v < 2 ^ 32
    → let w = updated v add_ref add_ack add_abort add_suspend in
      (w < 2 ^ 32)
      × (value_to_ref w ≡ (value_to_ref v + add_ref) % 2 ^ 15)
      × (value_to_ack w ≡ (value_to_ack v + add_ack) % 2 ^ 15)
      × (value_to_abort w ≡ or_flag (value_to_abort v) add_abort)
      × (value_to_suspend w ≡ or_flag (value_to_suspend v) add_suspend)
unfolding updated
updated_fields v add_ref add_ack add_abort add_suspend h =
    let w₁ = set_ref-Word v ((value_to_ref v + add_ref) % 2 ^ 32) (fields-Word v h) in
    let w₂ = set_ack-Word _ ((value_to_ack v + add_ack) % 2 ^ 32) w₁ in
    let w₃ = set_abort-Word _ (or_flag (value_to_abort v) add_abort) w₂ in
    let w₄ = set_suspend-Word _ (or_flag (value_to_suspend v) add_suspend) w₃ in
    let (r, a, b, s) = fields_of w₄ in
    (
      omega (arith, w₄),
      r ∙ omega arith,
      a ∙ omega arith,
      b ∙ flag_small (value_to_abort v) add_abort (omega arith),
      s ∙ flag_small (value_to_suspend v) add_suspend (omega arith),
    )
  where
    flag_small : (f : ℕ) (add : Bool) → f < 2 → or_flag f add % 2 ≡ or_flag f add
    flag_small f true h = omega arith
    flag_small f false h = omega arith

-- `w` is `v` with so much added.
pub record Sum (v refs acks : ℕ) (abort suspend : Bool) (w : ℕ) : Type 0 where
  pub in_word : w < 2 ^ 32
  pub refs_are : value_to_ref w ≡ (value_to_ref v + refs) % 2 ^ 15
  pub acks_are : value_to_ack w ≡ (value_to_ack v + acks) % 2 ^ 15
  pub abort_is : value_to_abort w ≡ or_flag (value_to_abort v) abort
  pub suspend_is : value_to_suspend w ≡ or_flag (value_to_suspend v) suspend

pub updated-Sum :
    (v add_ref add_ack : ℕ) (add_abort add_suspend : Bool)
    → v < 2 ^ 32
    → Sum v add_ref add_ack add_abort add_suspend (updated v add_ref add_ack add_abort add_suspend)
updated-Sum v r a b s h =
    let (i, rs, acks, bs, ss) = updated_fields v r a b s h in
    record { in_word = i; refs_are = rs; acks_are = acks; abort_is = bs; suspend_is = ss }

or_flag-or : (f : ℕ) (b b' : Bool) → or_flag (or_flag f b) b' ≡ or_flag f (b || b')
or_flag-or f true true = refl
or_flag-or f true false = refl
or_flag-or f false true = refl
or_flag-or f false false = refl

pub Sum-trans :
    {v u w r r' a a' : ℕ} {b b' s s' : Bool}
    → Sum v r a b s u
    → Sum u r' a' b' s' w
    → Sum v ((r + r') % 2 ^ 32) ((a + a') % 2 ^ 32) (b || b') (s || s') w
Sum-trans {v} {b = b} {b' = b'} {s = s} {s' = s'} p q = record {
  in_word = q.in_word;
  refs_are = q.refs_are ∙ omega (arith, p.refs_are);
  acks_are = q.acks_are ∙ omega (arith, p.acks_are);
  abort_is = q.abort_is ∙ ap (λ f. or_flag f b') p.abort_is ∙ or_flag-or (value_to_abort v) b b';
  suspend_is =
      q.suspend_is ∙ ap (λ f. or_flag f s') p.suspend_is ∙ or_flag-or (value_to_suspend v) s s';
}

-- Only one word has these fields.
pub Sum-unique : {v u w r a : ℕ} {b s : Bool} → Sum v r a b s u → Sum v r a b s w → u ≡ w
Sum-unique p q = omega (
  arith,
  p.in_word,
  q.in_word,
  p.refs_are ∙ sym q.refs_are,
  p.acks_are ∙ sym q.acks_are,
  p.abort_is ∙ sym q.abort_is,
  p.suspend_is ∙ sym q.suspend_is,
)

-- what `log_msg_refcache_start_producer` makes of a word
pub biased-Sum :
    (v : ℕ)
    → v < 2 ^ 32
    → let w = set_ref v (value_to_ref v + bias) in
      Sum v bias bias false false (set_ack w (value_to_ack w + bias))
biased-Sum v h =
    let w₁ = set_ref-Word v (value_to_ref v + bias) (fields-Word v h) in
    let w = set_ref v (value_to_ref v + bias) in
    let w₂ = set_ack-Word w (value_to_ack w + bias) w₁ in
    let (r, a, b, s) = fields_of w₂ in
    record {
      in_word = omega (arith, w₂);
      refs_are = r;
      acks_are = a ∙ omega (arith, fields_of w₁);
      abort_is = b;
      suspend_is = s;
    }
