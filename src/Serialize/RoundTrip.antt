-- ===== src/Serialize/RoundTrip.antt =====
-- Sequences of values, written to and read from an archive of lib/serialize.c that keeps the contract.
use syslog_ng_6_0_core.Common.{
  ℕ, ◌+◌, ◌%◌, ◌^◌, ◌<◌, ◌≡◌, refl, sym, Bool, true, some, List, [], ◌∷◌, ◌++◌, map, append-nil,
  length,
}
use syslog_ng_6_0_core.Serialize.{
  ArchiveOps, Action, ◌>>=◌, ◌>>◌, succeed, be_bytes, serialize_write_uint, serialize_read_uint,
  serialize_write_string, serialize_read_string, serialize_write_cstring, serialize_read_cstring,
  serialize_write_blob, serialize_read_blob,
}
use syslog_ng_6_0_core.Serialize.Bytes.{values}
use syslog_ng_6_0_core.Serialize.Contract.{
  Archive, Gets, Puts, Gets-bind, Puts-bind, uint-Gets, uint-Puts, string-Gets, string-Puts,
  cstring-Gets, cstring-Puts, nothing_put, read_bytes-Gets, write_bytes-Puts,
}

-- What a caller writes and reads: an integer of so many bytes, a `GString`, a C string with its
-- length, or a blob of known size.
pub data Value : Type 0 where
  uint : ℕ → ℕ → Value
  string cstring blob : List ℕ → Value

-- what the reader has to know
pub data Shape : Type 0 where
  uint_shape blob_shape : ℕ → Shape
  string_shape cstring_shape : Shape

abbrev pub shape : Value → Shape
shape (uint width v) = uint_shape width
shape (string bs) = string_shape
shape (cstring bs) = cstring_shape
shape (blob bs) = blob_shape (length bs)

abbrev pub encode : Value → List ℕ
encode (uint width v) = be_bytes width v
encode (string bs) = be_bytes 4 (length bs) ++ bs
encode (cstring bs) = be_bytes 4 (length bs) ++ bs
encode (blob bs) = bs

abbrev pub encode_all : List Value → List ℕ
encode_all [] = []
encode_all (v ∷ vs) = encode v ++ encode_all vs

module _ {A : Type 0} (ops : ArchiveOps A) (try_alloc : ℕ → Bool) where
  unfoldable pub write_value : Value → Action A (Unit {0})
  write_value (uint width v) = serialize_write_uint ops try_alloc width v
  write_value (string bs) =
      serialize_write_string ops try_alloc (record { str = bs; allocated_len = length bs })
  write_value (cstring bs) = serialize_write_cstring ops try_alloc bs (some (length bs))
  write_value (blob bs) = serialize_write_blob ops try_alloc bs

  -- A `GString` is read into an empty one.
  unfoldable pub read_value : Shape → Action A Value
  read_value (uint_shape width) = do
    v ← serialize_read_uint ops try_alloc width
    succeed (uint width v)
  read_value string_shape = do
    bs ← serialize_read_string ops try_alloc (record { str = []; allocated_len = 0 })
    succeed (string bs)
  read_value cstring_shape = do bs ← serialize_read_cstring ops try_alloc; succeed (cstring bs)
  read_value (blob_shape len) = do bs ← serialize_read_blob ops try_alloc len; succeed (blob bs)

  unfoldable pub write_all : List Value → Action A (Unit {0})
  write_all [] = succeed tt
  write_all (v ∷ vs) = write_value v >> write_all vs

  unfoldable pub read_all : List Shape → Action A (List Value)
  read_all [] = succeed []
  read_all (s ∷ ss) = do v ← read_value s; vs ← read_all ss; succeed (v ∷ vs)

-- The integer fits its bytes, the length of a string fits 32 bits, and there is memory for it.
abbrev pub Fits : (ℕ → Bool) → Value → Type 0
Fits try_alloc (uint width v) = v < values width
Fits try_alloc (string bs) = (length bs < 2 ^ 32) × (try_alloc ((length bs + 1) % 2 ^ 32) ≡ true)
Fits try_alloc (cstring bs) = (length bs < 2 ^ 32) × (try_alloc ((length bs + 1) % 2 ^ 32) ≡ true)
Fits try_alloc (blob bs) = Unit

abbrev pub AllFit : (ℕ → Bool) → List Value → Type 0
AllFit try_alloc [] = Unit
AllFit try_alloc (v ∷ vs) = Fits try_alloc v × AllFit try_alloc vs

module _ {A : Type 0} {ops : ArchiveOps A} (spec : Archive ops) (try_alloc : ℕ → Bool) where
  returns : {X : Type 0} (x : X) → Gets spec try_alloc (succeed x) [] x
  returns x self rest e v l = (self, refl, e, v, l)

  then_returns :
      {X Y : Type 0} (m : Action A X) (f : X → Y) (bs : List ℕ) {x : X}
      → Gets spec try_alloc m bs x
      → Gets spec try_alloc (m >>= λ y. succeed (f y)) bs (f x)
  then_returns m f bs {x} g =
      Gets-bind spec try_alloc m (λ y. succeed (f y)) bs [] g (returns (f x)) bs
        (sym (append-nil bs))

  read_value-Gets :
      (v : Value)
      → Fits try_alloc v
      → Gets spec try_alloc (read_value ops try_alloc (shape v)) (encode v) v
  unfolding read_value serialize_read_blob
  read_value-Gets (uint width v) fit =
      then_returns (serialize_read_uint ops try_alloc width) (uint width) (be_bytes width v)
        (uint-Gets spec try_alloc width v fit)
  read_value-Gets (string bs) fit =
      then_returns (serialize_read_string ops try_alloc (record { str = []; allocated_len = 0 }))
        string (be_bytes 4 (length bs) ++ bs)
        (string-Gets spec try_alloc (record { str = []; allocated_len = 0 }) bs fit.0 fit.1)
  read_value-Gets (cstring bs) fit =
      then_returns (serialize_read_cstring ops try_alloc) cstring (be_bytes 4 (length bs) ++ bs)
        (cstring-Gets spec try_alloc bs fit.0 fit.1)
  read_value-Gets (blob bs) fit =
      then_returns (serialize_read_blob ops try_alloc (length bs)) blob bs
        (read_bytes-Gets spec try_alloc bs)

  write_value-Puts :
      (v : Value) → Fits try_alloc v → Puts spec try_alloc (write_value ops try_alloc v) (encode v)
  unfolding write_value serialize_write_blob
  write_value-Puts (uint width v) fit = uint-Puts spec try_alloc width v
  write_value-Puts (string bs) fit =
      string-Puts spec try_alloc (record { str = bs; allocated_len = length bs }) fit.0
  write_value-Puts (cstring bs) fit = cstring-Puts spec try_alloc bs fit.0
  write_value-Puts (blob bs) fit = write_bytes-Puts spec try_alloc bs

  pub read_all-Gets :
      (vs : List Value)
      → AllFit try_alloc vs
      → Gets spec try_alloc (read_all ops try_alloc (map shape vs)) (encode_all vs) vs
  unfolding read_all
  read_all-Gets [] fit = returns []
  read_all-Gets (v ∷ vs) fit =
      Gets-bind spec try_alloc (read_value ops try_alloc (shape v))
        (λ x. read_all ops try_alloc (map shape vs) >>= λ xs. succeed (x ∷ xs)) (encode v)
        (encode_all vs) (read_value-Gets v fit.0)
        (then_returns (read_all ops try_alloc (map shape vs)) (λ xs. v ∷ xs) (encode_all vs)
          (read_all-Gets vs fit.1))
        (encode_all (v ∷ vs)) refl

  pub write_all-Puts :
      (vs : List Value)
      → AllFit try_alloc vs
      → Puts spec try_alloc (write_all ops try_alloc vs) (encode_all vs)
  unfolding write_all
  write_all-Puts [] fit = nothing_put spec try_alloc
  write_all-Puts (v ∷ vs) fit =
      Puts-bind spec try_alloc (write_value ops try_alloc v) (write_all ops try_alloc vs) (encode v)
        (encode_all vs) (write_value-Puts v fit.0) (write_all-Puts vs fit.1)
