-- ===== src/Prelude/Digits.antt =====
-- A number digit by digit: the digits of the operations on words, of shifts and of masks.
use Prim.Native.Nat.{
  ℕ, zero, suc, ◌+◌, ◌-◌, ◌*◌, ◌/◌, ◌%◌, ◌^◌, ◌≤◌, ◌<◌, min, max, bit_and, bit_or,
}
use Prim.Native.Nat.add
use mathlib.Core.Path.{◌≡◌, refl, ap}
use native.Mathlib.Nat.{
  pow-suc, div-div-eq-div-mul, div-one, one-le-pow, mod-lt, div-add-mod, mul_comm,
}
use native.Mathlib.Omega.{arith}
use kongjaexpress.Prelude.Bits.{bit_and-zero, bit_and_step, bit_or_step}
use kongjaexpress.Prelude.Tests.{ltb, if◌then◌else◌}

-- digit `i` of a number, the lowest one first
unfoldable pub bit : ℕ → ℕ → ℕ
bit zero x = x % 2
bit (suc i) x = bit i (x / 2)

pub bit-lt : (i x : ℕ) → bit i x < 2
unfolding bit
bit-lt zero x = omega arith
bit-lt (suc i) x = bit-lt i (x / 2)

pub bit-zero : (i : ℕ) → bit i 0 ≡ 0
unfolding bit
bit-zero zero = refl
bit-zero (suc i) = bit-zero i

pub bit-bit_and : (i a b : ℕ) → bit i (bit_and a b) ≡ min (bit i a) (bit i b)
unfolding bit
bit-bit_and zero a b = omega (arith, bit_and_step a b)
bit-bit_and (suc i) a b =
    let half : bit_and a b / 2 ≡ bit_and (a / 2) (b / 2) = omega (arith, bit_and_step a b) in
    rw (half, bit-bit_and i (a / 2) (b / 2))

pub bit-bit_or : (i a b : ℕ) → bit i (bit_or a b) ≡ max (bit i a) (bit i b)
unfolding bit
bit-bit_or zero a b = omega (arith, bit_or_step a b)
bit-bit_or (suc i) a b =
    let half : bit_or a b / 2 ≡ bit_or (a / 2) (b / 2) = omega (arith, bit_or_step a b) in
    rw (half, bit-bit_or i (a / 2) (b / 2))

pub twice_pow : (x p : ℕ) → x * 2 ^ suc p ≡ 2 * (x * 2 ^ p)
twice_pow x p = omega (arith, ap (λ (t : ℕ). x * t) (pow-suc 2 p))

pub bit_shift_left : (p i x : ℕ) → bit i (x * 2 ^ p) ≡ (if ltb i p then 0 else bit (i - p) x)
unfolding bit
bit_shift_left zero i x = ground arith
bit_shift_left (suc p) zero x = ground (arith, twice_pow x p)
bit_shift_left (suc p) (suc i) x =
    let half : x * 2 ^ suc p / 2 ≡ x * 2 ^ p = omega (arith, twice_pow x p) in
    ground (arith, half, bit_shift_left p i x)

pub bit_shift_right : (p i x : ℕ) → bit i (x / 2 ^ p) ≡ bit (p + i) x
unfolding bit
bit_shift_right zero i x = ground (arith, div-one x)
bit_shift_right (suc p) i x =
    let halves : x / 2 ^ suc p ≡ x / 2 / 2 ^ p =
      rw (div-div-eq-div-mul x 2 (2 ^ p)) (ap (λ (t : ℕ). x / t) (omega (arith, pow-suc 2 p))) in
    rw (halves, add.suc) (bit_shift_right p i (x / 2))

-- `n` ones
pub bit_low_mask : (n i : ℕ) → bit i (2 ^ n - 1) ≡ (if ltb i n then 1 else 0)
unfolding bit
bit_low_mask zero i = ground (arith, bit-zero i)
bit_low_mask (suc n) zero = ground (arith, pow-suc 2 n, one-le-pow n 2)
bit_low_mask (suc n) (suc i) =
    let half : (2 ^ suc n - 1) / 2 ≡ 2 ^ n - 1 = omega (arith, pow-suc 2 n, one-le-pow n 2) in
    ground (arith, half, bit_low_mask n i)

-- the other digits of a word of `k`
pub bit_complement :
    (k i m : ℕ) → m < 2 ^ k → bit i (2 ^ k - 1 - m) ≡ (if ltb i k then 1 - bit i m else 0)
unfolding bit
bit_complement zero i m h = ground (arith, bit-zero i)
bit_complement (suc k) zero m h = ground (arith, pow-suc 2 k, one-le-pow k 2)
bit_complement (suc k) (suc i) m h =
    let half : (2 ^ suc k - 1 - m) / 2 ≡ 2 ^ k - 1 - m / 2 =
      omega (arith, pow-suc 2 k, one-le-pow k 2) in
    ground (arith, half, bit_complement k i (m / 2), pow-suc 2 k)

-- A number below `2 ^ k` has no digit at `k` or above.
pub bit_above : (k i x : ℕ) → x < 2 ^ k → k ≤ i → bit i x ≡ 0
unfolding bit
bit_above zero i zero h le = bit-zero i
bit_above zero i (suc x) h le = absurd (omega arith)
bit_above (suc k) zero x h le = absurd (omega arith)
bit_above (suc k) (suc i) x h le = bit_above k i (x / 2) (omega (arith, pow-suc 2 k)) (omega arith)

-- Numbers of `k` digits with the same digits are equal.
pub same_bits : (k x y : ℕ) → x < 2 ^ k → y < 2 ^ k → ((i : ℕ) → i < k → bit i x ≡ bit i y) → x ≡ y
unfolding bit
same_bits zero x y h k e = omega arith
same_bits (suc n) x y h k e =
    let halves =
      same_bits n (x / 2) (y / 2) (omega (arith, pow-suc 2 n)) (omega (arith, pow-suc 2 n))
        (λ i p. e (suc i) (omega arith)) in
    let low : x % 2 ≡ y % 2 = e zero (omega arith) in omega arith

-- Two fields, the lower one of `k` digits.
pub bit_fields :
    (k i lo hi : ℕ)
    → lo < 2 ^ k
    → bit i (hi * 2 ^ k + lo) ≡ (if ltb i k then bit i lo else bit (i - k) hi)
unfolding bit
bit_fields zero i lo hi h = ground arith
bit_fields (suc k) zero lo hi h = ground (arith, twice_pow hi k)
bit_fields (suc k) (suc i) lo hi h =
    let half : (hi * 2 ^ suc k + lo) / 2 ≡ hi * 2 ^ k + lo / 2 = omega (arith, twice_pow hi k) in
    ground (arith, half, bit_fields k i (lo / 2) hi, pow-suc 2 k)

-- What is kept of a number in `k` digits.
pub bit-mod : (k i x : ℕ) → bit i (x % 2 ^ k) ≡ (if ltb i k then bit i x else 0)
bit-mod k i x =
    let below : x % 2 ^ k < 2 ^ k = mod-lt x (omega (arith, one-le-pow k 2)) in
    let parts : x / 2 ^ k * 2 ^ k + x % 2 ^ k ≡ x =
      omega (arith, div-add-mod x (2 ^ k), mul_comm (x / 2 ^ k) (2 ^ k)) in
    let fields = bit_fields k i (x % 2 ^ k) (x / 2 ^ k) below in
    let above : k ≤ i → bit i (x % 2 ^ k) ≡ 0 = bit_above k i (x % 2 ^ k) below in
    let whole = ap (bit i) parts in ground (arith, fields, above, whole)

pub bit_and-le : (k a b : ℕ) → b ≤ k → bit_and a b ≤ b
bit_and-le zero a zero h = omega (arith, bit_and-zero a)
bit_and-le zero a (suc b) h = absurd (omega arith)
bit_and-le (suc k) a b h =
    omega (arith, bit_and_step a b, bit_and-le k (a / 2) (b / 2) (omega arith))
