-- ===== src/Prelude/Bytes.antt =====
-- Octets, 16-bit words in two octets, and checks of every octet by evaluation.
use Prim.Native.Nat.{ℕ, zero, suc, ◌+◌, ◌*◌, ◌/◌, ◌%◌, ◌^◌, ◌<◌, bit_or}
use mathlib.Core.Path.{◌≡◌}
use mathlib.Core.Bool.{Bool, true, ◌&&◌}
use mathlib.Core.List.{List, [], ◌∷◌, ◌++◌}
use native.Mathlib.Omega.{arith}
use kongjaexpress.Prelude.Bits.{bit_or_fields}
use kongjaexpress.Prelude.Lists.{take, drop, set, get_or}

abbrev pub All {ℓ κ} : {A : Type ℓ} → (A → Type κ) → List A → Type κ
All P [] = Unit
All P (x ∷ xs) = P x × All P xs

abbrev pub IsByte : ℕ → Type 0
IsByte x = x < 256

abbrev pub Bytes : List ℕ → Type 0
Bytes = All IsByte

-- `(uint16_t)(hi << 8 | lo)`
unfoldable pub word16 : ℕ → ℕ → ℕ
word16 hi lo = bit_or (hi * 2 ^ 8) lo % 2 ^ 16

pub word16_lem : (hi lo : ℕ) → hi < 256 → lo < 256 → word16 hi lo ≡ hi * 256 + lo
unfolding word16
word16_lem hi lo h l = omega (arith, bit_or_fields 8 lo hi (omega arith))

-- The two octets of a word make the word.
pub word16-octets : (v : ℕ) → v < 2 ^ 16 → word16 (v / 2 ^ 8) (v % 2 ^ 8) ≡ v
word16-octets v h = omega (arith, word16_lem (v / 2 ^ 8) (v % 2 ^ 8) (omega arith) (omega arith))

unfoldable pub all_below : ℕ → (ℕ → Bool) → Bool
all_below (suc n) test = test n && all_below n test
all_below zero test = true

pub all_below_sound :
    (n : ℕ) (test : ℕ → Bool) (i : ℕ) → all_below n test ≡ true → i < n → test i ≡ true
unfolding all_below
all_below_sound (suc n) test i passed below = ground (arith, all_below_sound n test i)
all_below_sound zero test i passed below = absurd (omega arith)

pub All-append {ℓ κ} :
    {A : Type ℓ} (P : A → Type κ) (xs ys : List A) → All P xs → All P ys → All P (xs ++ ys)
All-append P [] ys h k = k
All-append P (x ∷ xs) ys h k = (h.0, All-append P xs ys h.1 k)

-- Parts of a list whose members all have a property, and single members.
module _ {ℓ κ} {A : Type ℓ} (P : A → Type κ) where
  pub All-take : (n : ℕ) (xs : List A) → All P xs → All P (take n xs)
  All-take zero xs h = tt
  All-take (suc n) [] h = tt
  All-take (suc n) (x ∷ xs) h = (h.0, All-take n xs h.1)

  pub All-drop : (n : ℕ) (xs : List A) → All P xs → All P (drop n xs)
  All-drop zero xs h = h
  All-drop (suc n) [] h = tt
  All-drop (suc n) (x ∷ xs) h = All-drop n xs h.1

  pub All-set : (xs : List A) (i : ℕ) (v : A) → All P xs → P v → All P (set xs i v)
  All-set [] i v h p = tt
  All-set (x ∷ xs) zero v h p = (p, h.1)
  All-set (x ∷ xs) (suc i) v h p = (h.0, All-set xs i v h.1 p)

pub get_or-lt : (xs : List ℕ) (i : ℕ) → Bytes xs → get_or xs i 0 < 256
get_or-lt [] i h = omega arith
get_or-lt (x ∷ xs) zero h = h.0
get_or-lt (x ∷ xs) (suc i) h = get_or-lt xs i h.1
