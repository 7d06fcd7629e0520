-- ===== src/Serialize/Tests.antt =====
-- Runs of the archives of lib/serialize.c: an integer, a C string and a blob.
use syslog_ng_6_0_core.Common.{
  ℕ, ◌≡◌, refl, Bool, true, false, none, some, List, [], ◌∷◌, arith, length, replicate, drop,
}
use syslog_ng_6_0_core.Serialize.{
  SerializeArchive, SerializeStringArchive, SerializeBufferArchive, string_ops, buffer_ops,
  serialize_string_archive_new, serialize_buffer_archive_new, serialize_buffer_archive_get_pos,
}
use syslog_ng_6_0_core.Serialize.RoundTrip.{
  Value, uint, cstring, blob, uint_shape, cstring_shape, blob_shape, read_all, write_all,
  read_value, write_value, AllFit,
}
use syslog_ng_6_0_core.Serialize.Archives.{string_round_trip, buffer_round_trip}
use syslog_ng_6_0_core.Serialize.Errors.{error_sticks}

abbrev any_size : ℕ → Bool
any_size n = true

abbrev some_values : List Value
some_values = uint 2 513 ∷ cstring (104 ∷ 105 ∷ []) ∷ blob (0 ∷ 7 ∷ []) ∷ []

-- Ten bytes: 2, 4 + 2 and 2.
fit : AllFit any_size some_values
fit = (omega arith, ((omega arith, refl), (tt, tt)))

string_round_trip_example :
    (t : SerializeArchive SerializeStringArchive) × (write_all string_ops any_size some_values
        (serialize_string_archive_new [])
      ≡ (some tt, t))
    × (u : SerializeArchive SerializeStringArchive) × (read_all string_ops any_size
          (uint_shape 2 ∷ cstring_shape ∷ blob_shape 2 ∷ [])
          (serialize_string_archive_new t.archive.string)
        ≡ (some some_values, u))
    × (drop u.archive.pos u.archive.string ≡ [])
string_round_trip_example = string_round_trip any_size some_values fit (omega arith)

buffer_round_trip_example :
    (t : SerializeArchive SerializeBufferArchive) × (write_all buffer_ops any_size some_values
        (serialize_buffer_archive_new (replicate 12 0) 12)
      ≡ (some tt, t))
    × (serialize_buffer_archive_get_pos t ≡ 10)
    × (u : SerializeArchive SerializeBufferArchive) × (read_all buffer_ops any_size
          (uint_shape 2 ∷ cstring_shape ∷ blob_shape 2 ∷ [])
          (serialize_buffer_archive_new t.archive.buff (length t.archive.buff))
        ≡ (some some_values, u))
buffer_round_trip_example =
    buffer_round_trip any_size some_values (replicate 12 0) fit (omega arith) (omega arith)

abbrev broken : SerializeArchive SerializeStringArchive
broken = record {
  error = true;
  silent = false;
  reported = 1;
  archive = record { pos = 0; string = 1 ∷ [] };
}

error_sticks_example :
    (read_value string_ops any_size (uint_shape 1) broken ≡ (none, broken))
    × (write_value string_ops any_size (uint 1 7) broken ≡ (none, broken))
error_sticks_example = error_sticks string_ops any_size broken refl (uint_shape 1) (uint 1 7)

abbrev one_byte : SerializeArchive SerializeStringArchive
one_byte = record {
  error = false;
  silent = false;
  reported = 0;
  archive = record { pos = 0; string = 1 ∷ [] };
}

abbrev small_buffer : SerializeArchive SerializeBufferArchive
small_buffer = record {
  error = false;
  silent = true;
  reported = 0;
  archive = record { pos = 1; len = 2; buff = 8 ∷ 9 ∷ [] };
}
