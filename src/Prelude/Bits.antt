-- ===== src/Prelude/Bits.antt =====
-- The laws of exclusive or and of `|` over fields that do not overlap, at every width, from the
-- recursion on binary digits for which the native operations stand.
use Prim.Native.Nat.{
  ℕ, zero, suc, ◌+◌, ◌*◌, ◌/◌, ◌%◌, ◌^◌, ◌≤◌, ◌<◌, min, max, digits, differ, bit_and,
  bit_and-bitwise, bit_or, bit_xor, bit_or-bitwise, bit_xor-bitwise,
}
use mathlib.Core.Path.{◌≡◌, refl, ap}
use native.Mathlib.Nat.{pow-suc, le_refl}
use native.Mathlib.Omega.{arith}

-- More digits to go than the first number has make no difference.
enough_digits :
    (z : ℕ → ℕ) (op : ℕ → ℕ → ℕ) (k l x y : ℕ)
    → x ≤ k
    → x ≤ l
    → digits z op k x y ≡ digits z op l x y
enough_digits z op (suc k) (suc l) (suc x) y hk hl =
    ap (λ t. t * 2 + op (suc x % 2) (y % 2))
      (enough_digits z op k l (suc x / 2) (y / 2) (omega arith) (omega arith))
enough_digits z op zero zero zero y hk hl = refl
enough_digits z op zero zero (suc x) y hk hl = refl
enough_digits z op zero (suc l) zero y hk hl = refl
enough_digits z op zero (suc l) (suc x) y hk hl = absurd (omega arith)
enough_digits z op (suc k) zero zero y hk hl = refl
enough_digits z op (suc k) zero (suc x) y hk hl = absurd (omega arith)
enough_digits z op (suc k) (suc l) zero y hk hl = refl

-- An operation that stands for the recursion on digits takes off the lowest digit of a successor.
step_of_digits :
    (z : ℕ → ℕ) (op bits : ℕ → ℕ → ℕ)
    → ((x y : ℕ) → bits x y ≡ digits z op x x y)
    → (x y : ℕ) → bits (suc x) y ≡ bits (suc x / 2) (y / 2) * 2 + op (suc x % 2) (y % 2)
step_of_digits z op bits bitwise x y =
    let half = suc x / 2 in
    omega (
      arith,
      bitwise (suc x) y,
      bitwise half (y / 2),
      enough_digits z op x half half (y / 2) (omega arith) (omega arith),
    )

pub zero-bit_xor : (b : ℕ) → bit_xor 0 b ≡ b
zero-bit_xor b = bit_xor-bitwise 0 b

pub zero-bit_or : (b : ℕ) → bit_or 0 b ≡ b
zero-bit_or b = bit_or-bitwise 0 b

-- the lowest digit, and the others
pub bit_xor_step : (a b : ℕ) → bit_xor a b ≡ bit_xor (a / 2) (b / 2) * 2 + differ (a % 2) (b % 2)
bit_xor_step zero b = omega (arith, zero-bit_xor b, zero-bit_xor (b / 2))
bit_xor_step (suc a) b = step_of_digits (λ y. y) differ bit_xor bit_xor-bitwise a b

pub bit_or_step : (a b : ℕ) → bit_or a b ≡ bit_or (a / 2) (b / 2) * 2 + max (a % 2) (b % 2)
bit_or_step zero b = omega (arith, zero-bit_or b, zero-bit_or (b / 2))
bit_or_step (suc a) b = step_of_digits (λ y. y) max bit_or bit_or-bitwise a b

-- a digit of an exclusive or
pub differ_lem : (x y : ℕ) → x < 2 → y < 2 → differ x y ≡ (x + y) % 2
differ_lem zero y h k = omega arith
differ_lem (suc zero) zero h k = refl
differ_lem (suc zero) (suc zero) h k = refl
differ_lem (suc zero) (suc (suc y)) h k = absurd (omega arith)
differ_lem (suc (suc x)) y h k = absurd (omega arith)

pub bit_xor-div-mod :
    (a b : ℕ)
    → (bit_xor a b / 2 ≡ bit_xor (a / 2) (b / 2)) × (bit_xor a b % 2 ≡ (a % 2 + b % 2) % 2)
bit_xor-div-mod a b =
    omega (arith, bit_xor_step a b, differ_lem (a % 2) (b % 2) (omega arith) (omega arith))

-- Equal halves and equal lowest digits make equal numbers.
same_digits : (a b : ℕ) → a / 2 ≡ b / 2 → a % 2 ≡ b % 2 → a ≡ b
same_digits a b h k = omega arith

-- Each law goes from the halves to the numbers: `k` bounds the numbers.
assoc_below :
    (k a b c : ℕ) → a ≤ k → b ≤ k → c ≤ k → bit_xor (bit_xor a b) c ≡ bit_xor a (bit_xor b c)
assoc_below zero zero zero zero p q r = refl
assoc_below zero (suc a) b c p q r = absurd (omega arith)
assoc_below zero zero (suc b) c p q r = absurd (omega arith)
assoc_below zero zero zero (suc c) p q r = absurd (omega arith)
assoc_below (suc k) a b c p q r = omega (
  arith,
  bit_xor-div-mod (bit_xor a b) c,
  bit_xor-div-mod a b,
  bit_xor-div-mod a (bit_xor b c),
  bit_xor-div-mod b c,
  ap (λ (t : ℕ). bit_xor t (c / 2)) (bit_xor-div-mod a b).0,
  ap (λ (t : ℕ). bit_xor (a / 2) t) (bit_xor-div-mod b c).0,
  assoc_below k (a / 2) (b / 2) (c / 2) (omega arith) (omega arith) (omega arith),
)

pub bit_xor_assoc : (a b c : ℕ) → bit_xor (bit_xor a b) c ≡ bit_xor a (bit_xor b c)
bit_xor_assoc a b c = assoc_below (a + b + c) a b c (omega arith) (omega arith) (omega arith)

comm_below : (k a b : ℕ) → a ≤ k → b ≤ k → bit_xor a b ≡ bit_xor b a
comm_below zero zero zero p q = refl
comm_below zero (suc a) b p q = absurd (omega arith)
comm_below zero zero (suc b) p q = absurd (omega arith)
comm_below (suc k) a b p q = omega (
  arith,
  bit_xor-div-mod a b,
  bit_xor-div-mod b a,
  comm_below k (a / 2) (b / 2) (omega arith) (omega arith),
)

pub bit_xor_comm : (a b : ℕ) → bit_xor a b ≡ bit_xor b a
bit_xor_comm a b = comm_below (a + b) a b (omega arith) (omega arith)

self_below : (k a : ℕ) → a ≤ k → bit_xor a a ≡ 0
self_below zero zero p = refl
self_below zero (suc a) p = absurd (omega arith)
self_below (suc k) a p = omega (arith, bit_xor-div-mod a a, self_below k (a / 2) (omega arith))

pub bit_xor_self : (a : ℕ) → bit_xor a a ≡ 0
bit_xor_self a = self_below a a (omega arith)

-- Exclusive or by the same number is undone by itself.
pub bit_xor_cancel : (a b : ℕ) → bit_xor (bit_xor a b) b ≡ a
bit_xor_cancel a b = rw (bit_xor_assoc, bit_xor_self, bit_xor_comm a 0, zero-bit_xor)

pub bit_xor-lt : (k a b : ℕ) → a < 2 ^ k → b < 2 ^ k → bit_xor a b < 2 ^ k
bit_xor-lt zero zero zero p q = omega arith
bit_xor-lt zero (suc a) b p q = absurd (omega arith)
bit_xor-lt zero zero (suc b) p q = absurd (omega arith)
bit_xor-lt (suc k) a b p q = omega (
  arith,
  pow-suc 2 k,
  bit_xor-div-mod a b,
  bit_xor-lt k (a / 2) (b / 2) (omega (arith, pow-suc 2 k)) (omega (arith, pow-suc 2 k)),
)

-- A number above the digits of another does not meet it.
pub bit_xor_fields : (k a b : ℕ) → a < 2 ^ k → bit_xor a (b * 2 ^ k) ≡ b * 2 ^ k + a
bit_xor_fields zero zero b p = omega (arith, zero-bit_xor (b * 2 ^ 0))
bit_xor_fields zero (suc a) b p = absurd (omega arith)
bit_xor_fields (suc k) a b p = omega (
  arith,
  ap (λ (t : ℕ). b * t) (pow-suc 2 k),
  ap (λ (t : ℕ). bit_xor (a / 2) t) halved,
  bit_xor-div-mod a (b * 2 ^ suc k),
  bit_xor_fields k (a / 2) b (omega (arith, pow-suc 2 k)),
)
  where
    halved : b * 2 ^ suc k / 2 ≡ b * 2 ^ k
    halved = omega (arith, ap (λ (t : ℕ). b * t) (pow-suc 2 k))

bit_or-zero_below : (k a : ℕ) → a ≤ k → bit_or a 0 ≡ a
bit_or-zero_below zero zero p = refl
bit_or-zero_below zero (suc a) p = absurd (omega arith)
bit_or-zero_below (suc k) a p =
    omega (arith, bit_or_step a 0, bit_or-zero_below k (a / 2) (omega arith))

pub bit_or-zero : (a : ℕ) → bit_or a 0 ≡ a
bit_or-zero a = bit_or-zero_below a a (le_refl a)

-- `(b << k) | a`, where `a` has `k` digits at most, is a sum.
pub bit_or_fields : (k a b : ℕ) → a < 2 ^ k → bit_or (b * 2 ^ k) a ≡ b * 2 ^ k + a
bit_or_fields zero zero b p = omega (arith, bit_or-zero_below (b * 2 ^ 0) (b * 2 ^ 0) (le_refl _))
bit_or_fields zero (suc a) b p = absurd (omega arith)
bit_or_fields (suc k) a b p = omega (
  arith,
  ap (λ (t : ℕ). b * t) (pow-suc 2 k),
  ap (λ (t : ℕ). bit_or t (a / 2)) halved,
  bit_or_step (b * 2 ^ suc k) a,
  bit_or_fields k (a / 2) b (omega (arith, pow-suc 2 k)),
)
  where
    halved : b * 2 ^ suc k / 2 ≡ b * 2 ^ k
    halved = omega (arith, ap (λ (t : ℕ). b * t) (pow-suc 2 k))

pub bit_and_step : (a b : ℕ) → bit_and a b ≡ bit_and (a / 2) (b / 2) * 2 + min (a % 2) (b % 2)
bit_and_step zero b = omega (arith, bit_and-bitwise 0 b, bit_and-bitwise 0 (b / 2))
bit_and_step (suc a) b = step_of_digits (λ y. 0) min bit_and bit_and-bitwise a b

bit_and-zero_below : (k a : ℕ) → a ≤ k → bit_and a 0 ≡ 0
bit_and-zero_below zero zero p = refl
bit_and-zero_below zero (suc a) p = absurd (omega arith)
bit_and-zero_below (suc k) a p =
    omega (arith, bit_and_step a 0, bit_and-zero_below k (a / 2) (omega arith))

pub bit_and-zero : (a : ℕ) → bit_and a 0 ≡ 0
bit_and-zero a = bit_and-zero_below a a (le_refl a)

-- `a & 7` is the remainder by 8.
pub bit_and_seven : (x : ℕ) → bit_and x 7 ≡ x % 8
bit_and_seven x =
    let half = x / 2 in
    let quarter = half / 2 in
    omega (
      arith,
      bit_and-zero (quarter / 2),
      bit_and_step quarter 1,
      bit_and_step half 3,
      bit_and_step x 7,
    )
