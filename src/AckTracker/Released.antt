-- ===== src/AckTracker/Released.antt =====
-- What an acknowledgement releases, by its type: the bookmark that is saved and those that are
-- destroyed.
use mathlib.Core.Option.{some-injective}
use syslog_ng_6_0_core.Common.{
  ℕ, zero, suc, ◌-◌, ◌≤◌, ◌≡◌, inl, inr, refl, sym, ap, ◌∙◌, true, false, some, none, List, [], ◌∷◌,
  ◌++◌, append-nil, arith, get_elem?, set, drop, take, get_elem?-map, Option-cases, ltb, lt→ltb,
  if◌then◌else◌, done, ◌>>=◌, Bool-cases, subst,
}
use syslog_ng_6_0_core.RingBuffer.Slots.{contents, length-contents}
use syslog_ng_6_0_core.RingBuffer.Bounds
use syslog_ng_6_0_core.RingBuffer.Distinct.{NotIn, NotIn-get_elem?, contents-Distinct}
use syslog_ng_6_0_core.RingBuffer.Queue.{element_at_indexes}
use syslog_ng_6_0_core.LogSource.{Env}
use syslog_ng_6_0_core.AckTracker.{
  LateAckRecord, LateAckTracker, Bookmark, AckType, is_aborted, mark_acked, flow_control,
  save_bookmark, release_range, drop_range,
}
use syslog_ng_6_0_core.AckTracker.Memory.{
  acked_prefix, to_destroy, map-update, split_at, drop_all-keeps,
}
use syslog_ng_6_0_core.AckTracker.Invariant.{entries, IsValid}
use syslog_ng_6_0_core.AckTracker.Release.{
  without, drop_range_lem, entries-without, destroyed-without, without-IsValid,
}

-- every record's `save` is set
abbrev pub Savable : List LateAckRecord → Type 0
Savable [] = Unit
Savable (r ∷ rs) = (r.bookmark.save ≡ true) × Savable rs

abbrev bookmark_at : List LateAckRecord → ℕ → List Bookmark
bookmark_at rs i = elim (get_elem? rs i) [ none ↦ [] | some r ↦ r.bookmark ∷ [] ]

-- The bookmark of the newest message of a range of `n`, unless the type is `aborted`.
abbrev pub to_save : AckType → ℕ → List LateAckRecord → List Bookmark
to_save ack_type zero rs = []
to_save ack_type (suc n) rs = if is_aborted ack_type then [] else bookmark_at rs n

-- The records in flight once the `k`-th is acknowledged.
abbrev pub acknowledge : List LateAckRecord → ℕ → List LateAckRecord
acknowledge rs k = elim (get_elem? rs k) [
  | none ↦ rs
  | some r ↦ set rs k (record r { acked = true })
]

pub record Marked (self a : LateAckTracker) (k : ℕ) : Type 0 where
  pub ring : Bounds.IsValid a.storage
  pub free : (s : ℕ) → NotIn s (contents a.storage) → (a.records s).acked ≡ false
  pub entries_are : entries a ≡ acknowledge (entries self) k

pub mark_acked-Marked :
    (self : LateAckTracker) (s k : ℕ)
    → IsValid self
    → get_elem? (contents self.storage) k ≡ some s
    → Marked self (mark_acked self s) k
unfolding mark_acked
mark_acked-Marked self s k v e = record {
  ring = v.ring;
  free = λ i out.
      ground (arith, v.free_unacked i out, NotIn-get_elem? i (contents self.storage) k out);
  entries_are =
      rw (get_elem?-map self.records (contents self.storage) k e, acknowledge)
        (map-update self.records s _ (contents self.storage) k (contents-Distinct v.ring) e);
}

to_save-suc :
    (ack_type : AckType) (n : ℕ) (rs : List LateAckRecord) {r : LateAckRecord}
    → get_elem? rs n ≡ some r
    → to_save ack_type (suc n) rs ≡ (if is_aborted ack_type then [] else r.bookmark ∷ [])
to_save-suc ack_type n rs e = rw (e, bookmark_at)

abbrev saving : LateAckTracker → List Bookmark → LateAckTracker
saving a bs = record a { saved = a.saved ++ bs }

save_lem :
    (a : LateAckTracker) (ack_type : AckType) (b : Bookmark)
    → b.save ≡ true
    → (if is_aborted ack_type then done a else save_bookmark a b)
      ≡ done (saving a (if is_aborted ack_type then [] else b ∷ []))
unfolding save_bookmark
save_lem a ack_type b e = elim (Bool-cases (is_aborted ack_type)) [
  | inl ab ↦ rw ab (ap (λ l. done (record a { saved = l })) (sym (append-nil a.saved)))
  | inr other ↦ rw (other, e)
]

abbrev released_with : Env → LateAckTracker → AckType → ℕ → List Bookmark → LateAckTracker
released_with env a ack_type n bs = record (without (saving a bs) n) {
  source = flow_control env ack_type n a.source;
}

abbrev pub released : Env → LateAckTracker → AckType → ℕ → LateAckTracker
released env a ack_type n = released_with env a ack_type n (to_save ack_type n (entries a))

Savable-get_elem? :
    (rs : List LateAckRecord) (i : ℕ) {r : LateAckRecord}
    → Savable rs
    → get_elem? rs i ≡ some r
    → r.bookmark.save ≡ true
Savable-get_elem? [] i h e = cc
Savable-get_elem? (x ∷ rs) zero h e =
    subst (λ (y : LateAckRecord). y.bookmark.save ≡ true) (some-injective _ _ e) h.0
Savable-get_elem? (x ∷ rs) (suc i) h e = Savable-get_elem? rs i h.1 e

pub release_range_lem :
    (env : Env) (a : LateAckTracker) (ack_type : AckType) (m : ℕ)
    → Bounds.IsValid a.storage
    → suc m ≤ a.storage.count
    → Savable (entries a)
    → release_range env a ack_type (suc m) ≡ done (released env a ack_type (suc m))
unfolding release_range
release_range_lem env a ack_type m v le h =
    let (last, at, _) =
      split_at (contents a.storage) m (omega (arith, length-contents a.storage)) in
    let one : suc m - 1 ≡ m = omega arith in
    let entry : get_elem? (entries a) m ≡ some (a.records last) =
      get_elem?-map a.records (contents a.storage) m at in
    let newest : List Bookmark =
      if is_aborted ack_type then [] else (a.records last).bookmark ∷ [] in
    rw
      (
        one,
        element_at_indexes v m,
        at,
        save_lem a ack_type (a.records last).bookmark (Savable-get_elem? (entries a) m h entry),
      )
      (drop_tail newest
        ∙ ap (λ bs. done (released_with env a ack_type (suc m) bs))
            (sym (to_save-suc ack_type m (entries a) entry)))
  where
    drop_tail :
        (bs : List Bookmark)
        → (drop_range (saving a bs) (suc m) >>= λ d.
            done (record d { source = flow_control env ack_type (suc m) d.source }))
          ≡ done (released_with env a ack_type (suc m) bs)
    drop_tail bs = rw (
      drop_range_lem (suc m) (saving a bs) v le,
      (drop_all-keeps (saving a bs) (take (suc m) (contents a.storage))).0,
    )

-- What an acknowledgement of this type makes of the tracker, where `rs` are the records in flight
-- with the new mark, and `n` of them, from the oldest, are acknowledged.
pub record Acknowledged (env : Env) (self : LateAckTracker) (rs : List LateAckRecord) (n : ℕ)
    (ack_type : AckType) (t : LateAckTracker) : Type 0 where
  pub valid : IsValid t
  pub entries_are : entries t ≡ drop n rs
  pub saved_are : t.saved ≡ self.saved ++ to_save ack_type n rs
  pub destroyed_are : t.destroyed ≡ self.destroyed ++ to_destroy (take n rs)
  pub source_is :
      t.source ≡ (if ltb 0 n then flow_control env ack_type n self.source else self.source)
  pub capacity_is : t.storage.capacity ≡ self.storage.capacity
  pub pending_is : t.pending_ack_record ≡ self.pending_ack_record

Savable-set :
    (rs : List LateAckRecord) (k : ℕ) (r : LateAckRecord)
    → Savable rs
    → r.bookmark.save ≡ true
    → Savable (set rs k r)
Savable-set [] k r h e = tt
Savable-set (x ∷ rs) zero r h e = (e, h.1)
Savable-set (x ∷ rs) (suc k) r h e = (h.0, Savable-set rs k r h.1 e)

pub released-Acknowledged :
    (env : Env) (self : LateAckTracker) (k s : ℕ) (ack_type : AckType) (m : ℕ)
    → Marked self (mark_acked self s) k
    → IsValid self
    → acked_prefix (entries (mark_acked self s)) ≡ suc m
    → suc m ≤ self.storage.count
    → Acknowledged env self
        (entries (mark_acked self s))
        (suc m)
        ack_type
        (released env (mark_acked self s) ack_type (suc m))
unfolding mark_acked
released-Acknowledged env self k s ack_type m w v q le =
    let a = saving (mark_acked self s) (to_save ack_type (suc m) (entries (mark_acked self s))) in
    let kept = drop_all-keeps a (take (suc m) (contents self.storage)) in
    let u = without-IsValid a (suc m) v.ring le w.free (sym q) v.pending in
    record {
      valid = record {
        ring = u.ring;
        free_unacked = u.free_unacked;
        oldest_waits = u.oldest_waits;
        pending = u.pending;
      };
      entries_are = entries-without a (suc m) v.ring le;
      saved_are = kept.2;
      destroyed_are = destroyed-without a (suc m) v.ring le;
      source_is = rw (lt→ltb 0 (suc m) (omega arith));
      capacity_is = refl;
      pending_is = kept.3;
    }

pub acknowledge-Savable :
    (rs : List LateAckRecord) (k : ℕ) → Savable rs → Savable (acknowledge rs k)
acknowledge-Savable rs k h = elim (Option-cases (get_elem? rs k)) [
  | inl e ↦ rw (e, acknowledge) h
  | inr (r, e) ↦
      rw (e, acknowledge)
        (Savable-set rs k (record r { acked = true }) h (Savable-get_elem? rs k h e))
]
