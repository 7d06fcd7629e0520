-- ===== src/Serialize/Bytes.antt =====
-- Big-endian integers of lib/serialize.c.
use syslog_ng_6_0_core.Common.{
  ℕ, zero, suc, ◌+◌, ◌*◌, ◌/◌, ◌%◌, ◌<◌, ◌≡◌, refl, ◌∙◌, List, [], ◌∷◌, ◌++◌, arith, length,
  length-append,
}
use syslog_ng_6_0_core.Serialize.{be_bytes, from_be, from_be_onto}

-- how many values `n` bytes have
abbrev pub values : ℕ → ℕ
values zero = 1
values (suc n) = 256 * values n

from_be_onto-concat :
    (acc : ℕ) (bs : List ℕ) (b : ℕ)
    → from_be_onto acc (bs ++ b ∷ []) ≡ from_be_onto acc bs * 256 + b
from_be_onto-concat acc [] b = refl
from_be_onto-concat acc (x ∷ bs) b = from_be_onto-concat (acc * 256 + x) bs b

pub length-be_bytes : (n v : ℕ) → length (be_bytes n v) ≡ n
length-be_bytes zero v = refl
length-be_bytes (suc n) v =
    length-append (be_bytes n (v / 256)) (v % 256 ∷ []) ∙ omega (arith, length-be_bytes n (v / 256))

pub from_be-be_bytes : (n v : ℕ) → v < values n → from_be (be_bytes n v) ≡ v
from_be-be_bytes zero v h = omega arith
from_be-be_bytes (suc n) v h =
    from_be_onto-concat 0 (be_bytes n (v / 256)) (v % 256)
    ∙ omega (arith, from_be-be_bytes n (v / 256) (omega arith))
