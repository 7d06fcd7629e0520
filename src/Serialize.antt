-- ===== src/Serialize.antt =====
-- lib/serialize.h and lib/serialize.c: archives of bytes, and the integers and strings in them. A
-- `gsize` has 64 bits. The archive on a stdio file is not modelled.
pub mod Bytes
pub mod Contract
pub mod Archives
pub mod RoundTrip
pub mod Errors
mod Tests
use syslog_ng_6_0_core.Common.{
  ℕ, zero, suc, ◌+◌, ◌*◌, ◌/◌, ◌%◌, ◌^◌, Bool, true, false, not, ◌&&◌, Option, none, some, List, [],
  ◌∷◌, ◌++◌, ltb, ◌==◌, if◌then◌else◌, length, take, drop,
}

-- The function pointers of `SerializeArchive`: `none` is FALSE.
pub record ArchiveOps (A : Type 0) : Type 0 where
  pub read_bytes : A → ℕ → Option (List ℕ × A)
  pub write_bytes : A → List ℕ → Option A

-- `SerializeArchive`; `archive` is the state of its implementation, and `reported` counts the calls
-- of `msg_error`.
pub record SerializeArchive (A : Type 0) : Type 0 where
  pub error : Bool
  pub silent : Bool
  pub reported : ℕ
  pub archive : A

-- A function on an archive that returns FALSE, or TRUE and a value.
abbrev pub Action : Type 0 → Type 0 → Type 0
Action A X = SerializeArchive A → Option X × SerializeArchive A

abbrev pub resume :
    {A X Y : Type 0}
    → (X → Action A Y)
    → Option X × SerializeArchive A
    → Option Y × SerializeArchive A
resume f (none, a) = (none, a)
resume f (some x, a) = f x a

infixl 5 ◌>>=◌ ◌>>◌
abbrev pub ◌>>=◌ : {A X Y : Type 0} → Action A X → (X → Action A Y) → Action A Y
◌>>=◌ m f a = resume f (m a)

abbrev pub ◌>>◌ : {A X Y : Type 0} → Action A X → Action A Y → Action A Y
m >> k = m >>= λ _. k

abbrev pub succeed : {A X : Type 0} → X → Action A X
succeed x a = (some x, a)

abbrev pub fail : {A X : Type 0} → Action A X
fail a = (none, a)

-- the error is set, and reported unless the archive is silent
abbrev pub failed : {A : Type 0} → SerializeArchive A → SerializeArchive A
failed self = record self {
  error = true;
  reported = if self.silent then self.reported else self.reported + 1;
}

-- what becomes of the result of `read_bytes`, and of that of `write_bytes`
abbrev pub received :
    {A : Type 0} → SerializeArchive A → Option (List ℕ × A) → Option (List ℕ) × SerializeArchive A
received self none = (none, failed self)
received self (some (bs, archive)) = (some bs, record self { archive = archive })

abbrev pub sent :
    {A : Type 0} → SerializeArchive A → Option A → Option (Unit {0}) × SerializeArchive A
sent self none = (none, failed self)
sent self (some archive) = (some tt, record self { archive = archive })

-- `n` bytes of `v`, the most significant first: `GUINT32_TO_BE` and the like
abbrev pub be_bytes : ℕ → ℕ → List ℕ
be_bytes zero v = []
be_bytes (suc n) v = be_bytes n (v / 256) ++ v % 256 ∷ []

abbrev pub from_be_onto : ℕ → List ℕ → ℕ
from_be_onto acc [] = acc
from_be_onto acc (b ∷ bs) = from_be_onto (acc * 256 + b) bs

-- `GUINT32_FROM_BE` and the like
abbrev pub from_be : List ℕ → ℕ
from_be bs = from_be_onto 0 bs

abbrev pub strlen : List ℕ → ℕ
strlen [] = 0
strlen (zero ∷ bs) = 0
strlen (suc b ∷ bs) = suc (strlen bs)

-- `GString`
pub record GString : Type 0 where
  pub str : List ℕ
  pub allocated_len : ℕ

-- `try_alloc n` says whether `g_try_malloc` or `g_try_realloc` gives a block of `n` bytes.
module _ {A : Type 0} (ops : ArchiveOps A) (try_alloc : ℕ → Bool) where
  unfoldable pub serialize_archive_read_bytes : ℕ → Action A (List ℕ)
  serialize_archive_read_bytes n self =
      if self.error then (none, self) else received self (ops.read_bytes self.archive n)

  unfoldable pub serialize_archive_write_bytes : List ℕ → Action A (Unit {0})
  serialize_archive_write_bytes bs self =
      if self.error then (none, self) else sent self (ops.write_bytes self.archive bs)

  unfoldable pub serialize_write_blob : List ℕ → Action A (Unit {0})
  serialize_write_blob blob = serialize_archive_write_bytes blob

  unfoldable pub serialize_read_blob : ℕ → Action A (List ℕ)
  serialize_read_blob len = serialize_archive_read_bytes len

  -- `serialize_write_uint8`, 16, 32 and 64 for 1, 2, 4 and 8 bytes
  unfoldable pub serialize_write_uint : ℕ → ℕ → Action A (Unit {0})
  serialize_write_uint width value = serialize_archive_write_bytes (be_bytes width value)

  unfoldable pub serialize_read_uint : ℕ → Action A ℕ
  serialize_read_uint width = do bs ← serialize_archive_read_bytes width; succeed (from_be bs)

  unfoldable pub serialize_write_string : GString → Action A (Unit {0})
  serialize_write_string str = do
    serialize_write_uint 4 (length str.str % 2 ^ 32)
    serialize_archive_write_bytes str.str

  -- The result is what `str` holds then. Of a failure that is left out: `str` is not to be used.
  unfoldable pub serialize_read_string : GString → Action A (List ℕ)
  serialize_read_string str = do
    len ← serialize_read_uint 4
    if ltb str.allocated_len len && not (try_alloc ((len + 1) % 2 ^ 32))
        then fail
        else serialize_archive_read_bytes len

  -- `none` for a negative `len`
  unfoldable pub serialize_write_cstring : List ℕ → Option ℕ → Action A (Unit {0})
  serialize_write_cstring str len =
      let n : ℕ = elim len [ none ↦ strlen str | some n ↦ n ] in
      serialize_write_uint 4 (n % 2 ^ 32)
      >> (if n == 0 then succeed tt else serialize_archive_write_bytes (take n str))

  unfoldable pub serialize_read_cstring : Action A (List ℕ)
  serialize_read_cstring = do
    len ← serialize_read_uint 4
    if try_alloc ((len + 1) % 2 ^ 32) then serialize_archive_read_bytes len else fail

abbrev opened : {A : Type 0} → A → SerializeArchive A
opened archive = record { error = false; silent = false; reported = 0; archive = archive }

-- `SerializeStringArchive`
pub record SerializeStringArchive : Type 0 where
  pub pos : ℕ
  pub string : List ℕ

unfoldable pub serialize_string_archive_read_bytes :
    SerializeStringArchive → ℕ → Option (List ℕ × SerializeStringArchive)
serialize_string_archive_read_bytes self buflen =
    if ltb (length self.string) ((self.pos + buflen) % 2 ^ 64)
    then none
    else some (
      take buflen (drop self.pos self.string),
      record self { pos = (self.pos + buflen) % 2 ^ 64 },
    )

unfoldable pub serialize_string_archive_write_bytes :
    SerializeStringArchive → List ℕ → Option SerializeStringArchive
serialize_string_archive_write_bytes self buf = some (record self { string = self.string ++ buf })

abbrev pub string_ops : ArchiveOps SerializeStringArchive
string_ops = record {
  read_bytes = serialize_string_archive_read_bytes;
  write_bytes = serialize_string_archive_write_bytes;
}

unfoldable pub serialize_string_archive_new : List ℕ → SerializeArchive SerializeStringArchive
serialize_string_archive_new str = opened (record { pos = 0; string = str })

-- `SerializeBufferArchive`; `buff` has `len` bytes.
pub record SerializeBufferArchive : Type 0 where
  pub pos : ℕ
  pub len : ℕ
  pub buff : List ℕ

unfoldable pub serialize_buffer_archive_read_bytes :
    SerializeBufferArchive → ℕ → Option (List ℕ × SerializeBufferArchive)
serialize_buffer_archive_read_bytes self buflen =
    if ltb self.len ((self.pos + buflen) % 2 ^ 64)
    then none
    else some
        (take buflen (drop self.pos self.buff), record self { pos = (self.pos + buflen) % 2 ^ 64 })

unfoldable pub serialize_buffer_archive_write_bytes :
    SerializeBufferArchive → List ℕ → Option SerializeBufferArchive
serialize_buffer_archive_write_bytes self buf =
    if ltb self.len ((self.pos + length buf) % 2 ^ 64)
    then none
    else some (record self {
      buff = take self.pos self.buff ++ (buf ++ drop (self.pos + length buf) self.buff);
      pos = (self.pos + length buf) % 2 ^ 64;
    })

abbrev pub buffer_ops : ArchiveOps SerializeBufferArchive
buffer_ops = record {
  read_bytes = serialize_buffer_archive_read_bytes;
  write_bytes = serialize_buffer_archive_write_bytes;
}

unfoldable pub serialize_buffer_archive_get_pos : SerializeArchive SerializeBufferArchive → ℕ
serialize_buffer_archive_get_pos self = self.archive.pos

unfoldable pub serialize_buffer_archive_new : List ℕ → ℕ → SerializeArchive SerializeBufferArchive
serialize_buffer_archive_new buff len = opened (record { pos = 0; len = len; buff = buff })
