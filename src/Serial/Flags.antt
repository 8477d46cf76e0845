-- ===== src/Serial/Flags.antt =====
-- Flags in a word.
use Prim.Native.Nat.{bit_and, bit_or}
use kongjaexpress.Prelude.{
  ℕ, zero, suc, ◌/◌, ◌≤◌, ◌≡◌, ◌≢◌, ap, ◌∙◌, arith, Bool, true, false, not, ◌||◌, ◌==◌,
}
use kongjaexpress.Prelude.Bits.{bit_and_step, bit_or_step, bit_and-zero, zero-bit_or}

pub bit_and-bit_or :
    (k m a b : ℕ) → m ≤ k → bit_and (bit_or a b) m ≡ bit_or (bit_and a m) (bit_and b m)
bit_and-bit_or zero zero a b h = omega (
  arith,
  bit_and-zero (bit_or a b),
  bit_and-zero a,
  bit_and-zero b,
  ap (λ (x : ℕ). bit_or x (bit_and b 0)) (bit_and-zero a),
  ap (λ (x : ℕ). bit_or 0 x) (bit_and-zero b),
)
bit_and-bit_or zero (suc m) a b h = absurd (omega arith)
bit_and-bit_or (suc k) m a b h =
    let half_or : bit_or a b / 2 ≡ bit_or (a / 2) (b / 2) = omega (arith, bit_or_step a b) in
    let half_a : bit_and a m / 2 ≡ bit_and (a / 2) (m / 2) = omega (arith, bit_and_step a m) in
    let half_b : bit_and b m / 2 ≡ bit_and (b / 2) (m / 2) = omega (arith, bit_and_step b m) in
    let halves : bit_and (bit_or a b / 2) (m / 2) ≡ bit_or (bit_and a m / 2) (bit_and b m / 2) =
      rw (half_or, half_a, half_b) (bit_and-bit_or k (m / 2) (a / 2) (b / 2) (omega arith)) in
    omega (
      arith,
      halves,
      bit_and_step (bit_or a b) m,
      bit_or_step a b,
      bit_and_step a m,
      bit_and_step b m,
      bit_or_step (bit_and a m) (bit_and b m),
    )

bit_and_self : (k m : ℕ) → m ≤ k → bit_and m m ≡ m
bit_and_self zero zero h = bit_and-zero 0
bit_and_self zero (suc m) h = absurd (omega arith)
bit_and_self (suc k) m h = omega (arith, bit_and_step m m, bit_and_self k (m / 2) (omega arith))

zero_and : (k m : ℕ) → m ≤ k → bit_and 0 m ≡ 0
zero_and zero zero h = bit_and-zero 0
zero_and zero (suc m) h = absurd (omega arith)
zero_and (suc k) m h = omega (arith, bit_and_step 0 m, zero_and k (m / 2) (omega arith))

bit_or-left : (k a b : ℕ) → a ≤ k → a ≤ bit_or a b
bit_or-left zero zero b h = omega arith
bit_or-left zero (suc a) b h = absurd (omega arith)
bit_or-left (suc k) a b h =
    omega (arith, bit_or_step a b, bit_or-left k (a / 2) (b / 2) (omega arith))

bit_or-right : (k a b : ℕ) → b ≤ k → b ≤ bit_or a b
bit_or-right zero a zero h = omega arith
bit_or-right zero a (suc b) h = absurd (omega arith)
bit_or-right (suc k) a b h =
    omega (arith, bit_or_step a b, bit_or-right k (a / 2) (b / 2) (omega arith))

-- whether one of the bits of a flag is set in a word
unfoldable pub flag_set : ℕ → ℕ → Bool
flag_set m word = not (bit_and word m == 0)

pub flag_set-bit_or : (m a b : ℕ) → flag_set m (bit_or a b) ≡ (flag_set m a || flag_set m b)
unfolding flag_set
flag_set-bit_or m a b =
    let x = bit_and a m in
    let y = bit_and b m in
    let nothing : x ≡ 0 → y ≡ 0 → bit_or x y ≡ 0 =
      λ p q. ap (λ (n : ℕ). bit_or n y) p ∙ ap (λ (n : ℕ). bit_or 0 n) q ∙ zero-bit_or 0 in
    ground (arith, bit_and-bit_or m m a b, bit_or-left x x y, bit_or-right y x y, nothing)

pub flag_set-zero : (m : ℕ) → flag_set m 0 ≡ false
unfolding flag_set
flag_set-zero m = ground (arith, zero_and m m)

pub flag_set_self : (m : ℕ) → m ≢ 0 → flag_set m m ≡ true
unfolding flag_set
flag_set_self m some_bits = ground (arith, bit_and_self m m)

-- a flag with no bit in a word
pub bit_and-apart : (m word : ℕ) → flag_set m word ≡ false → bit_and word m ≡ 0
unfolding flag_set
bit_and-apart m word h = ground arith

pub bit_and-nothing : (m : ℕ) → bit_and 0 m ≡ 0
bit_and-nothing m = zero_and m m (omega arith)
