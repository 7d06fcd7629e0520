-- ===== src/Serialize/Errors.antt =====
-- The errors of the archives of lib/serialize.c.
use syslog_ng_6_0_core.Common.{
  ℕ, ◌+◌, ◌%◌, ◌^◌, ◌<◌, ◌≡◌, refl, ap, ◌∙◌, Bool, true, false, none, List, arith, length, ltb,
  if◌then◌else◌,
}
use syslog_ng_6_0_core.Serialize.{
  ArchiveOps, SerializeArchive, resume, failed, received, sent, succeed, from_be,
  serialize_archive_read_bytes, serialize_archive_write_bytes, serialize_read_uint,
  serialize_write_uint, serialize_read_string, serialize_write_string, serialize_read_cstring,
  serialize_write_cstring, serialize_read_blob, serialize_write_blob, SerializeBufferArchive,
  buffer_ops, serialize_buffer_archive_write_bytes,
}
use syslog_ng_6_0_core.Serialize.Contract.{Archive}
use syslog_ng_6_0_core.Serialize.RoundTrip.{
  Value, Shape, uint, string, cstring, blob, uint_shape, string_shape, cstring_shape, blob_shape,
  write_value, read_value,
}

module _ {A : Type 0} (ops : ArchiveOps A) (try_alloc : ℕ → Bool) (self : SerializeArchive A)
    (e : self.error ≡ true) where
  read_stops : (n : ℕ) → serialize_archive_read_bytes ops try_alloc n self ≡ (none, self)
  unfolding serialize_archive_read_bytes
  read_stops n =
      ap (λ b. if b then (none, self) else received self (ops.read_bytes self.archive n)) e

  write_stops : (bs : List ℕ) → serialize_archive_write_bytes ops try_alloc bs self ≡ (none, self)
  unfolding serialize_archive_write_bytes
  write_stops bs =
      ap (λ b. if b then (none, self) else sent self (ops.write_bytes self.archive bs)) e

  uint_stops : (n : ℕ) → serialize_read_uint ops try_alloc n self ≡ (none, self)
  unfolding serialize_read_uint
  uint_stops n = ap (resume (λ bs. succeed (from_be bs))) (read_stops n)

  read_value_stops : (s : Shape) → read_value ops try_alloc s self ≡ (none, self)
  unfolding read_value serialize_read_string serialize_read_cstring serialize_read_blob
  read_value_stops (uint_shape n) = ap (resume _) (uint_stops n)
  read_value_stops (blob_shape n) = ap (resume _) (read_stops n)
  read_value_stops string_shape = ap (resume _) (ap (resume _) (uint_stops 4))
  read_value_stops cstring_shape = ap (resume _) (ap (resume _) (uint_stops 4))

  write_value_stops : (v : Value) → write_value ops try_alloc v self ≡ (none, self)
  unfolding write_value serialize_write_string serialize_write_cstring serialize_write_blob
      serialize_write_uint
  write_value_stops (uint n v) = write_stops _
  write_value_stops (string bs) = ap (resume _) (write_stops _)
  write_value_stops (cstring bs) = ap (resume _) (write_stops _)
  write_value_stops (blob bs) = write_stops bs

  -- On an archive that has seen an error every function for reading or writing an integer, a
  -- string or a blob returns FALSE and changes and reports nothing.
  pub error_sticks :
      (s : Shape) (v : Value)
      → (read_value ops try_alloc s self ≡ (none, self))
        × (write_value ops try_alloc v self ≡ (none, self))
  error_sticks s v = (read_value_stops s, write_value_stops v)

module _ {A : Type 0} {ops : ArchiveOps A} (spec : Archive ops) (try_alloc : ℕ → Bool) where
  -- On an archive that keeps the contract and has seen no error, a read of less than 2^32 bytes
  -- that goes past the end returns FALSE, leaves the bytes where they are and sets the error.
  pub short_read :
      (self : SerializeArchive A) (n : ℕ)
      → self.error ≡ false
      → spec.Valid self.archive
      → n < 2 ^ 32
      → length (spec.left self.archive) < n
      → serialize_archive_read_bytes ops try_alloc n self ≡ (none, failed self)
  unfolding serialize_archive_read_bytes
  short_read self n e v small h =
      ap (λ b. if b then (none, self) else received self (ops.read_bytes self.archive n)) e
      ∙ ap (received self) (spec.reads_short self.archive n v small h)

-- Without an error so far, a write past the end of the buffer (whose end position fits 64 bits)
-- returns FALSE, leaves the buffer as it is and sets the error.
pub buffer_overflow :
    (try_alloc : ℕ → Bool) (self : SerializeArchive SerializeBufferArchive) (bs : List ℕ)
    → self.error ≡ false
    → self.archive.pos + length bs < 2 ^ 64
    → self.archive.len < self.archive.pos + length bs
    → serialize_archive_write_bytes buffer_ops try_alloc bs self ≡ (none, failed self)
unfolding serialize_archive_write_bytes serialize_buffer_archive_write_bytes
buffer_overflow try_alloc self bs e small h =
    let past : ltb self.archive.len ((self.archive.pos + length bs) % 2 ^ 64) ≡ true =
      ground arith in
    let refused : serialize_buffer_archive_write_bytes self.archive bs ≡ none = rw past refl in
    ap
      (λ b.
        if b
        then (none, self)
        else sent self (serialize_buffer_archive_write_bytes self.archive bs))
      e
    ∙ ap (sent self) refused
