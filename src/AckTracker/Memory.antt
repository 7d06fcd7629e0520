-- ===== src/AckTracker/Memory.antt =====
-- The records of the late tracker, read in the order of the slots in use.
use syslog_ng_6_0_core.Common.{
  ℕ, zero, suc, ◌≤◌, ◌<◌, ◌≡◌, refl, sym, ap, ap₂, ◌∙◌, true, false, some, List, [], ◌∷◌, ◌++◌, map,
  append-nil, append_assoc, arith, length, get_elem?, set, drop, ◌==◌, if◌then◌else◌, Bool-cases,
  inl, inr, subst,
}
use syslog_ng_6_0_core.RingBuffer.Distinct.{NotIn, Distinct, Apart, NotIn-get_elem?}
use syslog_ng_6_0_core.RingBuffer.Queue.{prefix_length}
use syslog_ng_6_0_core.AckTracker.{
  LateAckRecord, LateAckTracker, Bookmark, update, drop_record, late_ack_record_destroy,
  ack_range_is_continuous,
}

-- how many records, from the oldest, are acknowledged before the first that is not
abbrev pub acked_prefix : List LateAckRecord → ℕ
acked_prefix [] = 0
acked_prefix (r ∷ rs) = if r.acked then suc (acked_prefix rs) else 0

-- the bookmarks on which `destroy` is called
abbrev pub to_destroy : List LateAckRecord → List Bookmark
to_destroy [] = []
to_destroy (r ∷ rs) = if r.bookmark.destroy then r.bookmark ∷ to_destroy rs else to_destroy rs

pub map-update-NotIn :
    (f : ℕ → LateAckRecord) (s : ℕ) (v : LateAckRecord) (xs : List ℕ)
    → NotIn s xs
    → map (update f s v) xs ≡ map f xs
map-update-NotIn f s v [] h = refl
map-update-NotIn f s v (x ∷ xs) h = ap₂ ◌∷◌ (ground (arith, h.0)) (map-update-NotIn f s v xs h.1)

pub map-update :
    (f : ℕ → LateAckRecord) (s : ℕ) (v : LateAckRecord) (xs : List ℕ) (k : ℕ)
    → Distinct xs
    → get_elem? xs k ≡ some s
    → map (update f s v) xs ≡ set (map f xs) k v
map-update f s v [] k d e = refl
map-update f s v (x ∷ xs) zero d e =
    ap₂ ◌∷◌ (ground arith) (map-update-NotIn f s v xs (subst (λ y. NotIn y xs) (cc) d.0))
map-update f s v (x ∷ xs) (suc k) d e =
    ap₂ ◌∷◌ (ground (arith, NotIn-get_elem? x xs k d.0)) (map-update f s v xs k d.1 e)

pub prefix-acked_prefix :
    (self : LateAckTracker) (xs : List ℕ)
    → prefix_length (ack_range_is_continuous self) xs ≡ acked_prefix (map self.records xs)
unfolding ack_range_is_continuous
prefix-acked_prefix self [] = refl
prefix-acked_prefix self (x ∷ xs) = ground (arith, prefix-acked_prefix self xs)

pub acked_prefix-le : (rs : List LateAckRecord) → acked_prefix rs ≤ length rs
acked_prefix-le [] = omega arith
acked_prefix-le (r ∷ rs) = ground (arith, acked_prefix-le rs)

-- Behind the longest acknowledged prefix there is none.
pub acked_prefix-drop : (rs : List LateAckRecord) → acked_prefix (drop (acked_prefix rs) rs) ≡ 0
acked_prefix-drop [] = refl
acked_prefix-drop (r ∷ rs) = elim (Bool-cases r.acked) [
  | inl e ↦ rw e (acked_prefix-drop rs)
  | inr e ↦ rw e
]

pub acked_prefix-concat :
    (rs : List LateAckRecord) (r : LateAckRecord)
    → acked_prefix rs ≡ 0
    → r.acked ≡ false
    → acked_prefix (rs ++ r ∷ []) ≡ 0
acked_prefix-concat [] r h e = ground arith
acked_prefix-concat (x ∷ rs) r h e = ground arith

Apart-tail : (s : ℕ) (ss xs : List ℕ) → Apart (s ∷ ss) xs → Apart ss xs
Apart-tail s ss [] a = tt
Apart-tail s ss (x ∷ xs) a = (a.0.1, Apart-tail s ss xs a.1)

Apart-head : (s : ℕ) (ss xs : List ℕ) → Apart (s ∷ ss) xs → NotIn s xs
Apart-head s ss [] a = tt
Apart-head s ss (x ∷ xs) a = ((λ e. a.0.0 (sym e)), Apart-head s ss xs a.1)

pub split_at :
    (xs : List ℕ) (i : ℕ)
    → i < length xs
    → (s : ℕ) × (get_elem? xs i ≡ some s) × (drop i xs ≡ s ∷ drop (suc i) xs)
split_at [] i h = elim h [ ]
split_at (x ∷ xs) zero h = (x, refl, refl)
split_at (x ∷ xs) (suc i) h = split_at xs i (omega arith)

-- what the loop of `_drop_range` does, slot by slot
abbrev pub drop_all : LateAckTracker → List ℕ → LateAckTracker
drop_all self [] = self
drop_all self (s ∷ ss) = drop_all (drop_record self s) ss

module _ (self : LateAckTracker) (s : ℕ) where
  drop_record-map :
      (xs : List ℕ) → NotIn s xs → map (drop_record self s).records xs ≡ map self.records xs
  unfolding drop_record
  drop_record-map xs h = map-update-NotIn self.records s _ xs h

  drop_record-destroyed :
      (drop_record self s).destroyed ≡ self.destroyed ++ to_destroy (self.records s ∷ [])
  unfolding drop_record late_ack_record_destroy
  drop_record-destroyed = ground (arith, append-nil self.destroyed)

  drop_record-keeps :
      ((drop_record self s).source ≡ self.source)
      × ((drop_record self s).storage ≡ self.storage)
      × ((drop_record self s).saved ≡ self.saved)
      × ((drop_record self s).pending_ack_record ≡ self.pending_ack_record)
  unfolding drop_record late_ack_record_destroy
  drop_record-keeps = (refl, refl, refl, refl)

  drop_record-acked :
      (i : ℕ)
      → ((drop_record self s).records i).acked ≡ (if i == s then false else (self.records i).acked)
  unfolding drop_record
  drop_record-acked i = ground arith

module _ where
  pub drop_all-keeps :
      (self : LateAckTracker) (ss : List ℕ)
      → ((drop_all self ss).source ≡ self.source)
        × ((drop_all self ss).storage ≡ self.storage)
        × ((drop_all self ss).saved ≡ self.saved)
        × ((drop_all self ss).pending_ack_record ≡ self.pending_ack_record)
  drop_all-keeps self [] = (refl, refl, refl, refl)
  drop_all-keeps self (s ∷ ss) =
      let ih = drop_all-keeps (drop_record self s) ss in
      let k = drop_record-keeps self s in (ih.0 ∙ k.0, ih.1 ∙ k.1, ih.2 ∙ k.2, ih.3 ∙ k.3)

  pub drop_all-map :
      (self : LateAckTracker) (ss xs : List ℕ)
      → Apart ss xs
      → map (drop_all self ss).records xs ≡ map self.records xs
  drop_all-map self [] xs a = refl
  drop_all-map self (s ∷ ss) xs a =
      drop_all-map (drop_record self s) ss xs (Apart-tail s ss xs a)
      ∙ drop_record-map self s xs (Apart-head s ss xs a)

  pub drop_all-destroyed :
      (self : LateAckTracker) (ss : List ℕ)
      → Distinct ss
      → (drop_all self ss).destroyed ≡ self.destroyed ++ to_destroy (map self.records ss)
  drop_all-destroyed self [] d = sym (append-nil self.destroyed)
  drop_all-destroyed self (s ∷ ss) d =
      drop_all-destroyed (drop_record self s) ss d.1
      ∙ rw (drop_record-destroyed self s, drop_record-map self s ss d.0)
          (append_assoc self.destroyed (to_destroy (self.records s ∷ []))
              (to_destroy (map self.records ss))
            ∙ ap (◌++◌ self.destroyed) (ground arith))

  -- A dropped record is no longer acknowledged, and the others are as they were.
  pub drop_all-acked :
      (self : LateAckTracker) (ss : List ℕ) (i : ℕ)
      → ((drop_all self ss).records i).acked ≡ true
      → ((self.records i).acked ≡ true) × NotIn i ss
  drop_all-acked self [] i e = (e, tt)
  drop_all-acked self (s ∷ ss) i e =
      let (before, out) = drop_all-acked (drop_record self s) ss i e in
      let at : (if i == s then false else (self.records i).acked) ≡ true =
        sym (drop_record-acked self s i) ∙ before in
      (ground arith, (λ h. ground arith, out))
