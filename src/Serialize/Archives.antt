-- ===== src/Serialize/Archives.antt =====
-- The two archives in memory of lib/serialize.c, against the contract.
use syslog_ng_6_0_core.Common.{
  ℕ, zero, suc, ◌+◌, ◌-◌, ◌%◌, ◌^◌, ◌≤◌, ◌<◌, ◌≡◌, refl, sym, ap, ◌∙◌, Bool, true, false, some,
  List, [], ◌∷◌, ◌++◌, map, arith, append_assoc, append-nil, length, length-append, length-take,
  length-drop, take, drop, ltb, take-append_length, take-append-drop,
}
use syslog_ng_6_0_core.Serialize.{
  SerializeArchive, SerializeStringArchive, SerializeBufferArchive, string_ops, buffer_ops,
  serialize_string_archive_read_bytes, serialize_string_archive_write_bytes,
  serialize_string_archive_new, serialize_buffer_archive_read_bytes,
  serialize_buffer_archive_write_bytes, serialize_buffer_archive_new,
  serialize_buffer_archive_get_pos,
}
use syslog_ng_6_0_core.Serialize.Contract.{Archive}
use syslog_ng_6_0_core.Serialize.RoundTrip.{
  Value, encode_all, shape, AllFit, write_all, read_all, write_all-Puts, read_all-Gets,
}

drop-nil : (n : ℕ) → drop {A = ℕ} n [] ≡ []
drop-nil zero = refl
drop-nil (suc n) = refl

pub drop-drop : (n m : ℕ) (xs : List ℕ) → drop (n + m) xs ≡ drop m (drop n xs)
drop-drop zero m xs = let e : 0 + m ≡ m = omega arith in ap (λ k. drop k xs) e
drop-drop (suc n) m [] = drop-nil (suc n + m) ∙ sym (drop-nil m)
drop-drop (suc n) m (x ∷ xs) =
    let e : suc n + m ≡ suc (n + m) = omega arith in ap (λ k. drop k (x ∷ xs)) e ∙ drop-drop n m xs

-- a position in `xs`, whose size a `gssize` holds
abbrev pub Within : ℕ → List ℕ → Type 0
Within pos xs = (pos ≤ length xs) × (length xs < 2 ^ 63)

pub no_wrap :
    (pos n : ℕ) (xs : List ℕ)
    → Within pos xs
    → n ≤ length (drop pos xs)
    → (pos + n) % 2 ^ 64 ≡ pos + n
no_wrap pos n xs w h = omega (arith, length-drop pos xs, w)

pub in_range :
    (pos n : ℕ) (xs : List ℕ)
    → Within pos xs
    → n ≤ length (drop pos xs)
    → ltb (length xs) ((pos + n) % 2 ^ 64) ≡ false
in_range pos n xs w h = ground (arith, length-drop pos xs, no_wrap pos n xs w h)

pub out_of_range :
    (pos n : ℕ) (xs : List ℕ)
    → Within pos xs
    → n < 2 ^ 32
    → length (drop pos xs) < n
    → ltb (length xs) ((pos + n) % 2 ^ 64) ≡ true
out_of_range pos n xs w small h =
    let sum : (pos + n) % 2 ^ 64 ≡ pos + n = omega (arith, w) in
    ground (arith, length-drop pos xs, sum)

unfoldable pub string_archive : Archive string_ops
unfolding serialize_string_archive_read_bytes serialize_string_archive_write_bytes
string_archive = record {
  Valid = λ a. Within a.pos a.string;
  left = λ a. drop a.pos a.string;
  written = λ a. a.string;
  room = λ a. (2 ^ 63 - 1) - length a.string;
  reads = λ a n v h. (
    record a { pos = a.pos + n },
    rw (in_range a.pos n a.string v h, no_wrap a.pos n a.string v h) refl,
    omega (arith, v, length-drop a.pos a.string),
    drop-drop a.pos n a.string,
  );
  reads_short = λ a n v small h. rw (out_of_range a.pos n a.string v small h) refl;
  writes = λ a bs v h. (
    record a { string = a.string ++ bs },
    refl,
    omega (arith, v, length-append a.string bs),
    refl,
    omega (arith, length-append a.string bs),
  );
}

-- the buffer with `bs` at `pos`
abbrev pub patched : ℕ → List ℕ → List ℕ → List ℕ
patched pos bs buff = take pos buff ++ (bs ++ drop (pos + length bs) buff)

module _ (pos : ℕ) (bs buff : List ℕ) (h : pos + length bs ≤ length buff) where
  pub length-patched : length (patched pos bs buff) ≡ length buff
  length-patched = omega (
    arith,
    h,
    length-append (take pos buff) (bs ++ drop (pos + length bs) buff),
    length-append bs (drop (pos + length bs) buff),
    length-take pos buff,
    length-drop (pos + length bs) buff,
  )

  pub take-patched : take (pos + length bs) (patched pos bs buff) ≡ take pos buff ++ bs
  take-patched =
      ap (take (pos + length bs))
        (sym (append_assoc (take pos buff) bs (drop (pos + length bs) buff)))
      ∙ ap (λ n. take n ((take pos buff ++ bs) ++ drop (pos + length bs) buff))
          (omega (arith, h, length-append (take pos buff) bs, length-take pos buff))
      ∙ take-append_length (take pos buff ++ bs) (drop (pos + length bs) buff)

pub record BufferValid (a : SerializeBufferArchive) : Type 0 where
  pub len_is : a.len ≡ length a.buff
  pub within : Within a.pos a.buff

unfoldable pub buffer_archive : Archive buffer_ops
unfolding serialize_buffer_archive_read_bytes serialize_buffer_archive_write_bytes
buffer_archive = record {
  Valid = BufferValid;
  left = λ a. drop a.pos a.buff;
  written = λ a. take a.pos a.buff;
  room = λ a. a.len - a.pos;
  reads = λ a n v h. (
    record a { pos = a.pos + n },
    rw (v.len_is, in_range a.pos n a.buff v.within h, no_wrap a.pos n a.buff v.within h) refl,
    record { len_is = v.len_is; within = omega (arith, v.within, length-drop a.pos a.buff) },
    drop-drop a.pos n a.buff,
  );
  reads_short = λ a n v small h. rw (v.len_is, out_of_range a.pos n a.buff v.within small h) refl;
  writes = λ a bs v h.
      let fits : length bs ≤ length (drop a.pos a.buff) =
        omega (arith, h, v.len_is, length-drop a.pos a.buff) in
      let inside : a.pos + length bs ≤ length a.buff = omega (arith, h, v.len_is, v.within) in
      (
        record a { pos = a.pos + length bs; buff = patched a.pos bs a.buff },
        rw
            (
              v.len_is,
              in_range a.pos (length bs) a.buff v.within fits,
              no_wrap a.pos (length bs) a.buff v.within fits,
            )
            refl,
        record {
          len_is = v.len_is ∙ sym (length-patched a.pos bs a.buff inside);
          within = omega (arith, v.within, inside, length-patched a.pos bs a.buff inside);
        },
        take-patched a.pos bs a.buff inside,
        omega (arith, h),
      );
}

module _ (try_alloc : ℕ → Bool) (vs : List Value) where
  -- Any sequence of integers, strings, C strings and blobs that fit, of less than 2^63 bytes, is
  -- written in full to a new string archive, and a new archive on the string reads the same values
  -- back, up to its end.
  pub string_round_trip :
      AllFit try_alloc vs
      → length (encode_all vs) < 2 ^ 63
      → (t : SerializeArchive SerializeStringArchive) × (write_all string_ops try_alloc vs
            (serialize_string_archive_new [])
          ≡ (some tt, t))
        × (u : SerializeArchive SerializeStringArchive) × (read_all string_ops try_alloc
              (map shape vs)
              (serialize_string_archive_new t.archive.string)
            ≡ (some vs, u))
        × (drop u.archive.pos u.archive.string ≡ [])
  unfolding serialize_string_archive_new string_archive
  string_round_trip fit small =
      let (t, run, _, v, w, _) =
        write_all-Puts string_archive try_alloc vs fit (serialize_string_archive_new []) refl
          (omega arith) (omega arith) in
      let (u, run', _, _, l) =
        read_all-Gets string_archive try_alloc vs fit
          (serialize_string_archive_new t.archive.string) [] refl (omega (arith, v.1))
          (w ∙ sym (append-nil (encode_all vs))) in
      (t, run, u, run', l)

  -- Any sequence of integers, strings, C strings and blobs that fit is written in full to a new
  -- archive on a buffer of less than 2^63 bytes with room for it, the position counts its bytes,
  -- and a new archive on the buffer reads the same values back.
  pub buffer_round_trip :
      (buff : List ℕ)
      → AllFit try_alloc vs
      → length buff < 2 ^ 63
      → length (encode_all vs) ≤ length buff
      → (t : SerializeArchive SerializeBufferArchive) × (write_all buffer_ops try_alloc vs
            (serialize_buffer_archive_new buff (length buff))
          ≡ (some tt, t))
        × (serialize_buffer_archive_get_pos t ≡ length (encode_all vs))
        × (u : SerializeArchive SerializeBufferArchive) × (read_all buffer_ops try_alloc
              (map shape vs)
              (serialize_buffer_archive_new t.archive.buff (length t.archive.buff))
            ≡ (some vs, u))
  unfolding serialize_buffer_archive_new serialize_buffer_archive_get_pos buffer_archive
  buffer_round_trip buff fit small enough =
      let (t, run, _, v, w, r) =
        write_all-Puts buffer_archive try_alloc vs fit
          (serialize_buffer_archive_new buff (length buff)) refl
          (record { len_is = refl; within = omega (arith, small) }) (omega (arith, enough)) in
      let at : t.archive.pos ≡ length (encode_all vs) =
        omega (arith, ap length w, length-take t.archive.pos t.archive.buff, v.within) in
      let (u, run', _, _, _) =
        read_all-Gets buffer_archive try_alloc vs fit
          (serialize_buffer_archive_new t.archive.buff (length t.archive.buff))
          (drop t.archive.pos t.archive.buff) refl
          (record { len_is = refl; within = omega (arith, v.within) })
          (sym (take-append-drop t.archive.pos t.archive.buff)
            ∙ ap (λ xs. xs ++ drop t.archive.pos t.archive.buff) w) in
      (t, run, at, u, run')
