-- ===== src/AckTracker/Flow.antt =====
-- The flow-control window against the messages in flight: lib/logsource.c and the late tracker.
use syslog_ng_6_0_core.Common.{
  ℕ, suc, ◌+◌, ◌-◌, ◌%◌, ◌^◌, ◌≤◌, ◌<◌, ◌≡◌, ◌⊎◌, inl, inr, refl, sym, ap, ◌∙◌, Bool, true, false,
  some, List, arith, length, length-map, length-drop, length-set, get_elem?, ltb, if◌then◌else◌,
  done, abort, Option-cases, dec_lt,
}
use syslog_ng_6_0_core.RingBuffer.Slots.{contents, length-contents}
use syslog_ng_6_0_core.LogSource.{
  LogSource, Env, u32_mod, log_source_flow_control_adjust, log_source_flow_control_suspend,
  log_source_queue_window, log_source_wakeup, log_source_suspend, flow_control_window_size_adjust,
  flow_control_rate_adjust,
}
use syslog_ng_6_0_core.AckTracker.{
  LateAckTracker, LateAckRecord, AckType, is_suspended, flow_control,
  late_ack_tracker_manage_msg_ack,
}
use syslog_ng_6_0_core.AckTracker.Memory.{acked_prefix, acked_prefix-le}
use syslog_ng_6_0_core.AckTracker.Invariant.{entries, IsValid}
use syslog_ng_6_0_core.AckTracker.Released.{acknowledge, Savable, Acknowledged}
use syslog_ng_6_0_core.AckTracker.Acknowledge.{manage_msg_ack_lem}

rate_adjust-window :
    (env : Env) (src : LogSource) → (flow_control_rate_adjust env src).window_size ≡ src.window_size
unfolding flow_control_rate_adjust
rate_adjust-window env src = ground arith

size_adjust-window :
    (src : LogSource) (n : ℕ)
    → (flow_control_window_size_adjust src n).window_size ≡ (src.window_size + n) % u32_mod
unfolding flow_control_window_size_adjust
size_adjust-window src n = ground arith

-- how many places a release of `n` messages gives back
abbrev pub given_back : AckType → ℕ → ℕ
given_back ack_type n = if is_suspended ack_type then 1 else n

wakeup-window : (src : LogSource) → (log_source_wakeup src).window_size ≡ src.window_size
unfolding log_source_wakeup
wakeup-window src = refl

suspend-window : (src : LogSource) → (log_source_suspend src).window_size ≡ src.window_size
unfolding log_source_suspend
suspend-window src = refl

adjust-window :
    (env : Env) (src : LogSource) (n : ℕ)
    → (log_source_flow_control_adjust env src n).window_size ≡ (src.window_size + n) % u32_mod
unfolding log_source_flow_control_adjust
adjust-window env src n =
    let sized = flow_control_window_size_adjust src n in
    let rated = flow_control_rate_adjust env sized in
    let plain : rated.window_size ≡ (src.window_size + n) % u32_mod =
      rate_adjust-window env sized ∙ size_adjust-window src n in
    ground (arith, wakeup-window rated)

suspended-window :
    (env : Env) (src : LogSource)
    → (log_source_flow_control_suspend env src).window_size ≡ (src.window_size + 1) % u32_mod
unfolding log_source_flow_control_suspend
suspended-window env src =
    rate_adjust-window env (log_source_suspend (flow_control_window_size_adjust src 1))
    ∙ suspend-window (flow_control_window_size_adjust src 1)
    ∙ size_adjust-window src 1

pub flow_control-window :
    (env : Env) (ack_type : AckType) (n : ℕ) (src : LogSource)
    → (flow_control env ack_type n src).window_size
      ≡ (src.window_size + given_back ack_type n) % u32_mod
unfolding flow_control
flow_control-window env ack_type n src =
    ground (arith, adjust-window env src n, suspended-window env src)

acknowledge-length : (rs : List LateAckRecord) (k : ℕ) → length (acknowledge rs k) ≡ length rs
acknowledge-length rs k = elim (Option-cases (get_elem? rs k)) [
  | inl e ↦ rw (e, acknowledge)
  | inr (r, e) ↦ rw (e, acknowledge) (length-set rs k (record r { acked = true }))
]

pub length-entries : (self : LateAckTracker) → length (entries self) ≡ self.storage.count
length-entries self = length-map self.records (contents self.storage) ∙ length-contents self.storage

-- the places of the window that an acknowledgement does not give back
abbrev pub leaked : AckType → ℕ → ℕ
leaked ack_type n = if is_suspended ack_type then n - 1 else 0

if-window :
    (b : Bool) (x y : LogSource)
    → (if b then x else y).window_size ≡ (if b then x.window_size else y.window_size)
if-window true x y = refl
if-window false x y = refl

window_after :
    (env : Env) (self t : LateAckTracker) (rs : List LateAckRecord) (n : ℕ) (ack_type : AckType)
    → Acknowledged env self rs n ack_type t
    → t.source.window_size ≡ (
        if ltb 0 n
        then (self.source.window_size + given_back ack_type n) % u32_mod
        else self.source.window_size)
window_after env self t rs n ack_type a =
    ap (λ (l : LogSource). l.window_size) a.source_is
    ∙ if-window (ltb 0 n) (flow_control env ack_type n self.source) self.source
    ∙ ap (λ w. if ltb 0 n then w else self.source.window_size)
        (flow_control-window env ack_type n self.source)

count_after :
    (env : Env) (self t : LateAckTracker) (rs : List LateAckRecord) (n : ℕ) (ack_type : AckType)
    → Acknowledged env self rs n ack_type t
    → t.storage.count ≡ length rs - n
count_after env self t rs n ack_type a =
    sym (length-entries t) ∙ ap length a.entries_are ∙ length-drop n rs

balance :
    (w w' c c' n l : ℕ) (ack_type : AckType)
    → w' ≡ (if ltb 0 n then (w + given_back ack_type n) % u32_mod else w)
    → c' ≡ l - n
    → l ≡ c
    → n ≤ l
    → w + c < 2 ^ 31
    → w' + c' + leaked ack_type n ≡ w + c
balance w w' c c' n l ack_type hw hc hl hn bound = ground arith

module _ (env : Env) (self : LateAckTracker) (s k : ℕ) (ack_type : AckType) where
  -- On a valid tracker whose bookmarks can all be saved and whose window and messages in flight
  -- sum to less than 2^31, an acknowledgement keeps the sum of the window and of the messages in
  -- flight, except that a suspended one that releases n > 0 messages loses n - 1 places.
  pub ack_window_balance :
      IsValid self
      → get_elem? (contents self.storage) k ≡ some s
      → Savable (entries self)
      → self.source.window_size + self.storage.count < 2 ^ 31
      → (t : LateAckTracker) × (late_ack_tracker_manage_msg_ack env self s ack_type ≡ done t)
        × (t.source.window_size
              + t.storage.count
              + leaked ack_type (acked_prefix (acknowledge (entries self) k))
            ≡ self.source.window_size + self.storage.count)
  ack_window_balance v e h bound =
      let (t, run, a) = manage_msg_ack_lem env self s k ack_type v e h in
      let rs = acknowledge (entries self) k in
      let n = acked_prefix rs in
      (
        t,
        run,
        balance self.source.window_size t.source.window_size self.storage.count t.storage.count n
            (length rs) ack_type (window_after env self t rs n ack_type a)
            (count_after env self t rs n ack_type a)
            (acknowledge-length (entries self) k ∙ length-entries self) (acked_prefix-le rs) bound,
      )

-- A place of the window is taken exactly where one is free; a full window makes the source abort.
pub queue_window_lem :
    (src : LogSource)
    → src.window_size < 2 ^ 31
    → ((src.window_size ≡ 0) × (log_source_queue_window src ≡ abort))
      ⊎ ((w : ℕ) × (src.window_size ≡ suc w)
          × (log_source_queue_window src ≡ done (record src { window_size = w })))
unfolding log_source_queue_window
queue_window_lem src h = elim (dec_lt 0 src.window_size) [
  | yes p ↦ inr (src.window_size - 1, omega arith, ground arith)
  | no p ↦ inl (omega arith, ground arith)
]
