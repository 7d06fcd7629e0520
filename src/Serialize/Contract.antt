-- ===== src/Serialize/Contract.antt =====
-- What an archive of lib/serialize.c promises to its readers and writers, and what the functions
-- for integers and strings make of it.
use syslog_ng_6_0_core.Common.{
  ℕ, ◌+◌, ◌%◌, ◌^◌, ◌≤◌, ◌<◌, ◌≡◌, inl, inr, refl, sym, ap, subst, ◌∙◌, Bool, true, false, none,
  some, List, [], ◌∷◌, ◌++◌, arith, ltb, ◌==◌, Bool-cases, length, length-append, take, drop,
  append_assoc, append-nil, take-append_length, drop-append_length, if◌then◌else◌, not, ◌&&◌,
}
use syslog_ng_6_0_core.Serialize.{
  ArchiveOps, SerializeArchive, Action, resume, received, sent, ◌>>=◌, succeed, fail, GString,
  be_bytes, from_be, serialize_archive_read_bytes, serialize_archive_write_bytes,
  serialize_write_uint, serialize_read_uint, serialize_write_string, serialize_read_string,
  serialize_write_cstring, serialize_read_cstring,
}
use syslog_ng_6_0_core.Serialize.Bytes.{values, length-be_bytes, from_be-be_bytes}

-- The archive hands out the bytes `left`, in order, and refuses to read past their end; it appends
-- to the bytes `written` while there is `room`.
pub record Archive {A : Type 0} (ops : ArchiveOps A) : Type 1 where
  pub Valid : A → Type 0
  pub left : A → List ℕ
  pub written : A → List ℕ
  pub room : A → ℕ
  pub reads :
      (a : A) (n : ℕ)
      → Valid a
      → n ≤ length (left a)
      → (a' : A) × (ops.read_bytes a n ≡ some (take n (left a), a'))
        × Valid a'
        × (left a' ≡ drop n (left a))
  pub reads_short :
      (a : A) (n : ℕ) → Valid a → n < 2 ^ 32 → length (left a) < n → ops.read_bytes a n ≡ none
  pub writes :
      (a : A) (bs : List ℕ)
      → Valid a
      → length bs ≤ room a
      → (a' : A) × (ops.write_bytes a bs ≡ some a')
        × Valid a'
        × (written a' ≡ written a ++ bs)
        × (room a' + length bs ≡ room a)

take_all : (xs : List ℕ) → take (length xs) xs ≡ xs
take_all [] = refl
take_all (x ∷ xs) = ap (◌∷◌ x) (take_all xs)

module _ {A : Type 0} {ops : ArchiveOps A} (spec : Archive ops) (try_alloc : ℕ → Bool) where
  -- `m` reads the bytes `bs` off an archive and returns `x`.
  abbrev pub Gets : {X : Type 0} → Action A X → List ℕ → X → Type 0
  Gets m bs x =
      (self : SerializeArchive A) (rest : List ℕ)
      → self.error ≡ false
      → spec.Valid self.archive
      → spec.left self.archive ≡ bs ++ rest
      → (t : SerializeArchive A) × (m self ≡ (some x, t))
        × (t.error ≡ false)
        × spec.Valid t.archive
        × (spec.left t.archive ≡ rest)

  -- `m` writes the bytes `bs` to an archive that has room for them.
  abbrev pub Puts : Action A (Unit {0}) → List ℕ → Type 0
  Puts m bs =
      (self : SerializeArchive A)
      → self.error ≡ false
      → spec.Valid self.archive
      → length bs ≤ spec.room self.archive
      → (t : SerializeArchive A) × (m self ≡ (some tt, t))
        × (t.error ≡ false)
        × spec.Valid t.archive
        × (spec.written t.archive ≡ spec.written self.archive ++ bs)
        × (spec.room t.archive + length bs ≡ spec.room self.archive)

  pub read_bytes-Gets :
      (bs : List ℕ) → Gets (serialize_archive_read_bytes ops try_alloc (length bs)) bs bs
  unfolding serialize_archive_read_bytes
  read_bytes-Gets bs self rest e v l =
      let (a', run, v', l') =
        spec.reads self.archive (length bs) v (omega (arith, ap length l, length-append bs rest)) in
      (
        record self { archive = a' },
        ap
              (λ b.
                if b then (none, self) else received self (ops.read_bytes self.archive (length bs)))
              e
            ∙ ap (received self) run
            ∙ ap (λ xs. (some xs, record self { archive = a' }))
                (ap (take (length bs)) l ∙ take-append_length bs rest),
        e,
        v',
        l' ∙ ap (drop (length bs)) l ∙ drop-append_length bs rest,
      )

  pub write_bytes-Puts : (bs : List ℕ) → Puts (serialize_archive_write_bytes ops try_alloc bs) bs
  unfolding serialize_archive_write_bytes
  write_bytes-Puts bs self e v h =
      let (a', run, v', w, r) = spec.writes self.archive bs v h in
      (
        record self { archive = a' },
        ap (λ b. if b then (none, self) else sent self (ops.write_bytes self.archive bs)) e
            ∙ ap (sent self) run,
        e,
        v',
        w,
        r,
      )

  pub Gets-bind :
      {X Y : Type 0} (m : Action A X) (f : X → Action A Y) (bs cs : List ℕ) {x : X} {y : Y}
      → Gets m bs x
      → Gets (f x) cs y
      → (zs : List ℕ) → zs ≡ bs ++ cs
      → Gets (m >>= f) zs y
  Gets-bind m f bs cs g h zs z self rest e v l =
      let (t, run, e', v', l') =
        g self (cs ++ rest) e v (l ∙ ap (λ xs. xs ++ rest) z ∙ append_assoc bs cs rest) in
      let (u, run', e'', v'', l'') = h t rest e' v' l' in
      (u, ap (resume f) run ∙ run', e'', v'', l'')

  pub Puts-bind :
      (m k : Action A (Unit {0})) (bs cs : List ℕ)
      → Puts m bs
      → Puts k cs
      → Puts (m >>= λ _. k) (bs ++ cs)
  Puts-bind m k bs cs g h self e v room =
      let (t, run, e', v', w, r) = g self e v (omega (arith, length-append bs cs)) in
      let (u, run', e'', v'', w', r') = h t e' v' (omega (arith, length-append bs cs)) in
      (
        u,
        ap (resume (λ _. k)) run ∙ run',
        e'',
        v'',
        w' ∙ ap (λ xs. xs ++ cs) w ∙ append_assoc (spec.written self.archive) bs cs,
        omega (arith, length-append bs cs),
      )

  pub uint-Gets :
      (n v : ℕ) → v < values n → Gets (serialize_read_uint ops try_alloc n) (be_bytes n v) v
  unfolding serialize_read_uint
  uint-Gets n v h =
      Gets-bind (serialize_archive_read_bytes ops try_alloc n) (λ bs. succeed (from_be bs))
        (be_bytes n v) []
        (subst
          (λ k. Gets (serialize_archive_read_bytes ops try_alloc k) (be_bytes n v) (be_bytes n v))
          (length-be_bytes n v) (read_bytes-Gets (be_bytes n v)))
        (λ self rest e v' l. (self, ap (λ k. (some k, self)) (from_be-be_bytes n v h), e, v', l))
        (be_bytes n v) (sym (append-nil (be_bytes n v)))

  pub uint-Puts : (n v : ℕ) → Puts (serialize_write_uint ops try_alloc n v) (be_bytes n v)
  unfolding serialize_write_uint
  uint-Puts n v = write_bytes-Puts (be_bytes n v)

  -- a string behind its length
  abbrev pub counted : List ℕ → List ℕ
  counted bs = be_bytes 4 (length bs) ++ bs

  counted-Gets :
      (bs : List ℕ) (m : ℕ → Action A (List ℕ))
      → length bs < 2 ^ 32
      → Gets (m (length bs)) bs bs
      → Gets (serialize_read_uint ops try_alloc 4 >>= m) (counted bs) bs
  counted-Gets bs m small g =
      Gets-bind (serialize_read_uint ops try_alloc 4) m (be_bytes 4 (length bs)) bs
        (uint-Gets 4 (length bs) small) g (counted bs) refl

  pub cstring-Gets :
      (bs : List ℕ)
      → length bs < 2 ^ 32
      → try_alloc ((length bs + 1) % 2 ^ 32) ≡ true
      → Gets (serialize_read_cstring ops try_alloc) (counted bs) bs
  unfolding serialize_read_cstring
  cstring-Gets bs small enough =
      counted-Gets bs
        (λ len.
          if try_alloc ((len + 1) % 2 ^ 32)
          then serialize_archive_read_bytes ops try_alloc len
          else fail)
        small (rw enough (read_bytes-Gets bs))

  pub string-Gets :
      (str : GString) (bs : List ℕ)
      → length bs < 2 ^ 32
      → try_alloc ((length bs + 1) % 2 ^ 32) ≡ true
      → Gets (serialize_read_string ops try_alloc str) (counted bs) bs
  unfolding serialize_read_string
  string-Gets str bs small enough =
      counted-Gets bs
        (λ len.
          if ltb str.allocated_len len && not (try_alloc ((len + 1) % 2 ^ 32))
          then fail
          else serialize_archive_read_bytes ops try_alloc len)
        small
        (rw enough (elim (Bool-cases (ltb str.allocated_len (length bs))) [
          | inl e ↦ rw e (read_bytes-Gets bs)
          | inr e ↦ rw e (read_bytes-Gets bs)
        ]))

  length_put :
      (bs : List ℕ)
      → length bs < 2 ^ 32
      → Puts (serialize_write_uint ops try_alloc 4 (length bs % 2 ^ 32)) (be_bytes 4 (length bs))
  length_put bs small =
      subst (λ n. Puts (serialize_write_uint ops try_alloc 4 n) (be_bytes 4 (length bs)))
        (omega (arith, small)) (uint-Puts 4 (length bs))

  pub string-Puts :
      (str : GString)
      → length str.str < 2 ^ 32
      → Puts (serialize_write_string ops try_alloc str) (counted str.str)
  unfolding serialize_write_string
  string-Puts str small =
      Puts-bind (serialize_write_uint ops try_alloc 4 (length str.str % 2 ^ 32))
        (serialize_archive_write_bytes ops try_alloc str.str) (be_bytes 4 (length str.str)) str.str
        (length_put str.str small) (write_bytes-Puts str.str)

  pub nothing_put : Puts (succeed tt) []
  nothing_put self e v h =
      (self, refl, e, v, sym (append-nil (spec.written self.archive)), omega arith)

  bytes_put :
      (bs : List ℕ)
      → Puts
          (if length bs == 0
            then succeed tt
            else serialize_archive_write_bytes ops try_alloc (take (length bs) bs))
          bs
  bytes_put [] = nothing_put
  bytes_put (b ∷ bs) =
      let long : (length (b ∷ bs) == 0) ≡ false = ground arith in
      rw (long, take_all (b ∷ bs)) (write_bytes-Puts (b ∷ bs))

  pub cstring-Puts :
      (bs : List ℕ)
      → length bs < 2 ^ 32
      → Puts (serialize_write_cstring ops try_alloc bs (some (length bs))) (counted bs)
  unfolding serialize_write_cstring
  cstring-Puts bs small =
      Puts-bind (serialize_write_uint ops try_alloc 4 (length bs % 2 ^ 32))
        (if length bs == 0
          then succeed tt
          else serialize_archive_write_bytes ops try_alloc (take (length bs) bs))
        (be_bytes 4 (length bs)) bs (length_put bs small) (bytes_put bs)
