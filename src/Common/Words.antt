-- ===== src/Common/Words.antt =====
-- Words of a fixed number of bits: one bit, the conjunction, and the masks that the code builds.
use syslog_ng_6_0_core.Common.Checks.{◌==◌, ltb, if◌then◌else◌}
use Prim.Native.Nat.{ℕ, zero, suc, ◌+◌, ◌-◌, ◌*◌, ◌/◌, ◌%◌, ◌^◌, ◌≤◌, ◌<◌, min}
use mathlib.Core.Path.{◌≡◌, refl, ap, ◌∙◌}
use mathlib.Core.Bool.{Bool, false, not}
use native.Mathlib.Omega.{arith}

-- `x & (1 << k)` as a truth value
unfoldable pub bit : ℕ → ℕ → Bool
bit x zero = x % 2 == 1
bit x (suc k) = bit (x / 2) k

-- `a & b` of words of `w` bits
unfoldable pub land : ℕ → ℕ → ℕ → ℕ
land zero a b = 0
land (suc w) a b = land w (a / 2) (b / 2) * 2 + min (a % 2) (b % 2)

-- `~a` of a word of `w` bits
unfoldable pub lnot : ℕ → ℕ → ℕ
lnot w a = 2 ^ w - 1 - a

-- `(1 << n) - 1`
abbrev pub ones : ℕ → ℕ
ones n = 2 ^ n - 1

pub pow_pos : (k : ℕ) → 0 < 2 ^ k
pow_pos zero = omega arith
pow_pos (suc k) = omega (arith, pow_pos k)

pub pow_mono : (a b : ℕ) → a ≤ b → 2 ^ a ≤ 2 ^ b
pow_mono zero b h = omega (arith, pow_pos b)
pow_mono (suc a) zero h = absurd (omega arith)
pow_mono (suc a) (suc b) h = omega (arith, pow_mono a b (omega arith))

land-ones : (w a : ℕ) → a < 2 ^ w → land w a (ones w) ≡ a
unfolding land
land-ones zero a h = omega arith
land-ones (suc w) a h =
    let e : (2 ^ suc w - 1) / 2 ≡ 2 ^ w - 1 = omega (arith, pow_pos w) in
    let o : (2 ^ suc w - 1) % 2 ≡ 1 = omega (arith, pow_pos w) in
    rw (e, o) (omega (arith, land-ones w (a / 2) (omega arith)))

-- `a >> k`
unfoldable pub shr : ℕ → ℕ → ℕ
shr a zero = a
shr a (suc k) = shr (a / 2) k

land_zero : (w a : ℕ) → land w a 0 ≡ 0
unfolding land
land_zero zero a = refl
land_zero (suc w) a = omega (arith, land_zero w (a / 2))

mul_pow_suc : (x k : ℕ) → x * 2 ^ suc k ≡ x * 2 ^ k * 2
mul_pow_suc x k = let double : 2 ^ suc k ≡ 2 ^ k * 2 = omega arith in rw double (grind arith)

pub high_mask_lt : (k p w : ℕ) → w ≡ k + p → ones p * 2 ^ k < 2 ^ w
high_mask_lt zero p w e =
    let same : w ≡ p = omega arith in
    omega (arith, pow_pos w, pow_pos p, ap (λ (n : ℕ). 2 ^ n) same)
high_mask_lt (suc k) p zero e = absurd (omega arith)
high_mask_lt (suc k) p (suc w) e =
    omega (arith, high_mask_lt k p w (omega arith), mul_pow_suc (ones p) k)

-- A mask of `p` bits above `k` low bits keeps the high bits of a word.
pub land_high : (k p w a : ℕ) → w ≡ k + p → a < 2 ^ w → land w a (ones p * 2 ^ k) ≡ shr a k * 2 ^ k
unfolding land shr
land_high zero p w a e h =
    let same : w ≡ p = omega arith in
    let one : ones p * 2 ^ 0 ≡ ones w = omega (arith, ap (λ (n : ℕ). ones n) same) in
    rw one (omega (arith, land-ones w a h))
land_high (suc k) p zero a e h = absurd (omega arith)
land_high (suc k) p (suc w) a e h =
    let double : ones p * 2 ^ suc k ≡ ones p * 2 ^ k * 2 = mul_pow_suc (ones p) k in
    let half : ones p * 2 ^ suc k / 2 ≡ ones p * 2 ^ k = omega arith in
    let even : ones p * 2 ^ suc k % 2 ≡ 0 = omega arith in
    rw (half, even)
      (omega
        (arith, land_high k p w (a / 2) (omega arith) (omega arith), mul_pow_suc (shr (a / 2) k) k))

pub bit-land : (w a b k : ℕ) → k < w → bit (land w a b) k ≡ (if bit a k then bit b k else false)
unfolding land bit
bit-land zero a b k h = absurd (omega arith)
bit-land (suc w) a b zero h = ground arith
bit-land (suc w) a b (suc k) h =
    let half : (land w (a / 2) (b / 2) * 2 + min (a % 2) (b % 2)) / 2 ≡ land w (a / 2) (b / 2) =
      ground arith in
    rw half (bit-land w (a / 2) (b / 2) k (omega arith))

pub bit-lnot : (w a k : ℕ) → k < w → a < 2 ^ w → bit (lnot w a) k ≡ not (bit a k)
unfolding lnot bit
bit-lnot zero a k h l = absurd (omega arith)
bit-lnot (suc w) a zero h l = ground (arith, pow_pos w)
bit-lnot (suc w) a (suc k) h l =
    let half : (2 ^ suc w - 1 - a) / 2 ≡ 2 ^ w - 1 - a / 2 = omega (arith, pow_pos w) in
    rw half (bit-lnot w (a / 2) k (omega arith) (omega arith))

pub bit-ones : (n k : ℕ) → bit (ones n) k ≡ ltb k n
unfolding bit
bit-ones zero zero = refl
bit-ones zero (suc k) = bit-ones zero k ∙ ground arith
bit-ones (suc n) zero = ground (arith, pow_pos n)
bit-ones (suc n) (suc k) =
    let half : (2 ^ suc n - 1) / 2 ≡ 2 ^ n - 1 = omega (arith, pow_pos n) in
    rw half (bit-ones n k ∙ ground arith)

mul_lt : (x y c : ℕ) → 0 < c → x < y → x * c < y * c
mul_lt x y c h l = grind arith

mul_eq : (x y c : ℕ) → x ≡ y → x * c ≡ y * c
mul_eq x y c e = ap (λ (t : ℕ). t * c) e

pub eq-mul : (x y c : ℕ) → 0 < c → (x * c == y * c) ≡ (x == y)
eq-mul x y c h = ground (arith, mul_lt x y c h, mul_lt y x c h, mul_eq x y c)
