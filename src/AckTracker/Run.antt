-- ===== src/AckTracker/Run.antt =====
-- A source at work with its late tracker, as a relation of steps: the window and the messages in
-- flight.
use syslog_ng_6_0_core.Common.{
  ℕ, zero, suc, ◌+◌, ◌^◌, ◌<◌, ◌≡◌, ◌≢◌, inl, inr, refl, sym, ap, ap₂, ◌∙◌, true, false, Option,
  some, List, [], ◌∷◌, ◌++◌, arith, length, length-append, get_elem?, drop, done, done_injective,
  subst,
}
use syslog_ng_6_0_core.RingBuffer.Slots.{contents}
use syslog_ng_6_0_core.RingBuffer.Distinct.{NotIn}
use syslog_ng_6_0_core.LogSource.{LogSource, Env, log_source_queue_window, log_source_free_to_send}
use syslog_ng_6_0_core.AckTracker.{
  LateAckTracker, LateAckRecord, Bookmark, AckType, undefined, processed, aborted, suspended,
  is_suspended, update, late_ack_tracker_request_bookmark, late_ack_tracker_track_msg,
  late_ack_tracker_manage_msg_ack,
}
use syslog_ng_6_0_core.AckTracker.Memory.{acked_prefix, map-update-NotIn}
use syslog_ng_6_0_core.AckTracker.Invariant.{entries, IsValid}
use syslog_ng_6_0_core.AckTracker.Released.{acknowledge, Savable, acknowledge-Savable}
use syslog_ng_6_0_core.AckTracker.Acknowledge.{manage_msg_ack_lem}
use syslog_ng_6_0_core.AckTracker.Track.{
  tail-NotIn, request_bookmark_lem, track_msg_lem, pending_of_track,
}
use syslog_ng_6_0_core.AckTracker.Flow.{
  leaked, ack_window_balance, queue_window_lem, length-entries,
}

-- A bookmark that the source writes to the record in slot `s`.
abbrev pub write_bookmark : LateAckTracker → ℕ → Bookmark → LateAckTracker
write_bookmark t s b = record t {
  records = update t.records s (record (t.records s) { bookmark = b });
}

-- A source at work: it requests a bookmark, writes it, queues the message, and messages in flight
-- are acknowledged, in any order, in any way but `suspended`.
pub data Step (env : Env) : LateAckTracker → LateAckTracker → Type 0 where
  request :
      {t t' : LateAckTracker} (o : Option ℕ)
      → late_ack_tracker_request_bookmark t ≡ done (o, t')
      → Step env t t'
  write :
      (t : LateAckTracker) (s : ℕ) (b : Bookmark)
      → t.pending_ack_record ≡ some s
      → b.save ≡ true
      → Step env t (write_bookmark t s b)
  queue :
      {t t' : LateAckTracker} (s : ℕ) (src : LogSource)
      → late_ack_tracker_track_msg t ≡ done (s, t')
      → (t.records s).bookmark.save ≡ true
      → log_source_queue_window t'.source ≡ done src
      → Step env t (record t' { source = src })
  acknowledges :
      {t t' : LateAckTracker} (s k : ℕ) (ack_type : AckType)
      → get_elem? (contents t.storage) k ≡ some s
      → ack_type ≢ suspended
      → late_ack_tracker_manage_msg_ack env t s ack_type ≡ done t'
      → Step env t t'

pub data Reach (env : Env) (t : LateAckTracker) : LateAckTracker → Type 0 where
  here : Reach env t t
  next : {u u' : LateAckTracker} → Reach env t u → Step env u u' → Reach env t u'

-- The window and the messages in flight make up the initial window `w`.
pub record Balanced (w : ℕ) (t : LateAckTracker) : Type 0 where
  pub valid : IsValid t
  pub savable : Savable (entries t)
  pub room_is : t.storage.capacity ≡ w
  pub sum_is : t.source.window_size + t.storage.count ≡ w

Savable-concat :
    (rs : List LateAckRecord) (r : LateAckRecord)
    → Savable rs
    → r.bookmark.save ≡ true
    → Savable (rs ++ r ∷ [])
Savable-concat [] r h e = (e, tt)
Savable-concat (x ∷ rs) r h e = (h.0, Savable-concat rs r h.1 e)

Savable-drop : (n : ℕ) (rs : List LateAckRecord) → Savable rs → Savable (drop n rs)
Savable-drop zero rs h = h
Savable-drop (suc n) [] h = tt
Savable-drop (suc n) (x ∷ rs) h = Savable-drop n rs h.1

not_suspended : (ack_type : AckType) → ack_type ≢ suspended → is_suspended ack_type ≡ false
not_suspended undefined ne = refl
not_suspended processed ne = refl
not_suspended aborted ne = refl
not_suspended suspended ne = absurd (ne refl)

free-pos : (src : LogSource) → log_source_free_to_send src ≡ true → 0 < src.window_size
unfolding log_source_free_to_send
free-pos src h = ground arith

leaked-zero : (ack_type : AckType) (n : ℕ) → ack_type ≢ suspended → leaked ack_type n ≡ 0
leaked-zero ack_type n ne = rw (not_suspended ack_type ne)

module _ (env : Env) (w : ℕ) (small : w < 2 ^ 31) where
  request-Balanced :
      {t t' : LateAckTracker} (o : Option ℕ)
      → late_ack_tracker_request_bookmark t ≡ done (o, t')
      → Balanced w t
      → Balanced w t'
  request-Balanced {t} {t'} o e b =
      let (_, u, run, valid, es, src, ring, _, _) = request_bookmark_lem t b.valid in
      subst (Balanced w) (ap (λ p. p.1) (done_injective (sym run ∙ e))) (record {
        valid = valid;
        savable = subst Savable (sym es) b.savable;
        room_is = ap (λ r. r.capacity) ring ∙ b.room_is;
        sum_is =
            ap₂ (λ (a : LogSource) (c : ℕ). a.window_size + c) src (ap (λ r. r.count) ring)
            ∙ b.sum_is;
      })

  write-Balanced :
      (t : LateAckTracker) (s : ℕ) (b : Bookmark)
      → t.pending_ack_record ≡ some s
      → Balanced w t
      → Balanced w (write_bookmark t s b)
  write-Balanced t s b p bal = record {
    valid = record {
      ring = bal.valid.ring;
      free_unacked = λ i out. ground (arith, bal.valid.free_unacked i out);
      oldest_waits = ap acked_prefix same ∙ bal.valid.oldest_waits;
      pending = bal.valid.pending;
    };
    savable = subst Savable (sym same) bal.savable;
    room_is = bal.room_is;
    sum_is = bal.sum_is;
  }
    where
      reserved : (t.storage.tail ≡ s) × (t.storage.count < t.storage.capacity)
      reserved = ground (arith, bal.valid.pending)

      same : entries (write_bookmark t s b) ≡ entries t
      same = map-update-NotIn t.records s _ (contents t.storage) (
          subst (λ k. NotIn k (contents t.storage)) reserved.0
            (tail-NotIn t.storage bal.valid.ring reserved.1))

  -- The message that is queued takes one place of the window.
  one_taken :
      (t t' : LateAckTracker) (src : LogSource) (rs : List LateAckRecord) (r : LateAckRecord)
      → log_source_queue_window t'.source ≡ done src
      → t'.source ≡ t.source
      → entries t' ≡ rs ++ r ∷ []
      → rs ≡ entries t
      → t.source.window_size + t.storage.count ≡ w
      → src.window_size + t'.storage.count ≡ w
  one_taken t t' src rs r q source es old sum =
      let same_window : t'.source.window_size ≡ t.source.window_size =
        ap (λ (x : LogSource). x.window_size) source in
      elim (queue_window_lem t'.source (omega (arith, same_window))) [
        | inl (_, stop) ↦ cc stop
        | inr (w', e, run) ↦
            let left : w' ≡ src.window_size =
              ap (λ (x : LogSource). x.window_size) (done_injective (sym run ∙ q)) in
            omega (
              arith,
              left,
              e,
              same_window,
              length-entries t',
              ap length es,
              length-append rs (r ∷ []),
              ap length old,
              length-entries t,
              sum,
            )
      ]

  queue-Balanced :
      {t t' : LateAckTracker} (s : ℕ) (src : LogSource)
      → late_ack_tracker_track_msg t ≡ done (s, t')
      → (t.records s).bookmark.save ≡ true
      → log_source_queue_window t'.source ≡ done src
      → Balanced w t
      → Balanced w (record t' { source = src })
  queue-Balanced {t} {t'} s src e saves q b =
      let (u, run, valid, es, _, source, room, _) =
        track_msg_lem t b.valid s (pending_of_track t b.valid e) in
      let same : u ≡ t' = ap (λ p. p.1) (done_injective (sym run ∙ e)) in
      queued same valid es source room
    where
      queued :
          {u : LateAckTracker}
          → u ≡ t'
          → IsValid u
          → entries u ≡ entries t ++ t.records s ∷ []
          → u.source ≡ t.source
          → u.storage.capacity ≡ t.storage.capacity
          → Balanced w (record t' { source = src })
      queued same valid es source room =
          let v = subst IsValid same valid in
          let es' : entries t' ≡ entries t ++ t.records s ∷ [] = ap entries (sym same) ∙ es in
          record {
            valid = record {
              ring = v.ring;
              free_unacked = v.free_unacked;
              oldest_waits = v.oldest_waits;
              pending = v.pending;
            };
            savable =
                subst Savable (sym es') (Savable-concat (entries t) (t.records s) b.savable saves);
            room_is = ap (λ (x : LateAckTracker). x.storage.capacity) (sym same) ∙ room ∙ b.room_is;
            sum_is =
                one_taken t t' src (entries t) (t.records s) q
                  (ap (λ (x : LateAckTracker). x.source) (sym same) ∙ source) es' refl b.sum_is;
          }

  ack-Balanced :
      {t t' : LateAckTracker} (s k : ℕ) (ack_type : AckType)
      → get_elem? (contents t.storage) k ≡ some s
      → ack_type ≢ suspended
      → late_ack_tracker_manage_msg_ack env t s ack_type ≡ done t'
      → Balanced w t
      → Balanced w t'
  ack-Balanced {t} {t'} s k ack_type at ne e b =
      let (u, run, a) = manage_msg_ack_lem env t s k ack_type b.valid at b.savable in
      let (u', run', bal) =
        ack_window_balance env t s k ack_type b.valid at b.savable (omega (arith, b.sum_is)) in
      let same : u ≡ t' = done_injective (sym run ∙ e) in
      let same' : u' ≡ t' = done_injective (sym run' ∙ e) in
      record {
        valid = subst IsValid same a.valid;
        savable =
            subst (λ x. Savable (entries x)) same
              (subst Savable (sym a.entries_are) (
                Savable-drop (acked_prefix (acknowledge (entries t) k)) (acknowledge (entries t) k)
                  (acknowledge-Savable (entries t) k b.savable)));
        room_is =
            ap (λ (x : LateAckTracker). x.storage.capacity) (sym same) ∙ a.capacity_is ∙ b.room_is;
        sum_is =
            ap (λ (x : LateAckTracker). x.source.window_size + x.storage.count) (sym same')
            ∙ omega (
              arith,
              bal,
              leaked-zero ack_type (acked_prefix (acknowledge (entries t) k)) ne,
              b.sum_is,
            );
      }

  step-Balanced : {t t' : LateAckTracker} → Step env t t' → Balanced w t → Balanced w t'
  step-Balanced (request o e) b = request-Balanced o e b
  step-Balanced (write t s bm p h) b = write-Balanced t s bm p b
  step-Balanced (queue s src e saves q) b = queue-Balanced s src e saves q b
  step-Balanced (acknowledges s k ack_type at ne e) b = ack-Balanced s k ack_type at ne e b

  -- In every state that a source with its late tracker reaches from a balanced one, with an
  -- initial window below 2^31, by requesting bookmarks, writing them, queueing messages and
  -- acknowledging messages in flight in any order (not with a suspended acknowledgement), the
  -- tracker is valid, its bookmarks can be saved and the window plus the messages in flight is the
  -- initial window.
  pub Reach-Balanced : {t t' : LateAckTracker} → Balanced w t → Reach env t t' → Balanced w t'
  Reach-Balanced b here = b
  Reach-Balanced b (next r s) = step-Balanced s (Reach-Balanced b r)

  -- In every state that a source with its late tracker reaches from a balanced one by requesting
  -- bookmarks, writing them, queueing messages and acknowledging messages in flight (not with a
  -- suspended acknowledgement), a source that is free to send gets a bookmark when it requests
  -- one.
  pub free_to_send-request :
      {t t' : LateAckTracker}
      → Balanced w t
      → Reach env t t'
      → log_source_free_to_send t'.source ≡ true
      → (s : ℕ) × (t'' : LateAckTracker) × (late_ack_tracker_request_bookmark t'
          ≡ done (some s, t''))
  free_to_send-request {t} {t'} b r free =
      let now = Reach-Balanced b r in
      let (o, u, run, _, _, _, _, _, cases) = request_bookmark_lem t' now.valid in
      elim cases [
        | inl (full, _) ↦
            absurd (omega (arith, full, now.room_is, now.sum_is, free-pos t'.source free))
        | inr (_, s, e, _) ↦ (s, u, run ∙ ap (λ p. done (p, u)) e)
      ]
