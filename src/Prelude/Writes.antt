-- ===== src/Prelude/Writes.antt =====
-- What stands in an array after a block is written to it.
use Prim.Native.Nat.{ℕ, zero, suc, ◌+◌, ◌≤◌, ◌<◌}
use native.Mathlib.Nat.{add-zero}
use mathlib.Core.Path.{◌≡◌, refl, sym, ap, ◌∙◌}
use mathlib.Core.List.{List, [], ◌∷◌, ◌++◌, append-nil, append_assoc}
use native.Mathlib.Omega.{arith}
use kongjaexpress.Prelude.Lists.{length, set, take, drop, length-set, length-take}
use kongjaexpress.Prelude.Arrays.{write_at, drop-length-append}

module _ {ℓ} {A : Type ℓ} where
  pub take-set :
      (off : ℕ) (buf : List A) (x : A)
      → off < length buf
      → take (suc off) (set buf off x) ≡ take off buf ++ x ∷ []
  take-set off [] x h = absurd (omega arith)
  take-set zero (y ∷ buf) x h = refl
  take-set (suc off) (y ∷ buf) x h = ap (λ (t : List A). y ∷ t) (take-set off buf x (omega arith))

  -- A buffer up to the end of what is written to it.
  pub take-write_at :
      (xs buf : List A) (off : ℕ)
      → off + length xs ≤ length buf
      → take (off + length xs) (write_at buf off xs) ≡ take off buf ++ xs
  unfolding write_at
  take-write_at [] buf off h = rw (add-zero, append-nil) refl
  take-write_at (x ∷ xs) buf off h =
      let size = length-set buf off x in
      let shift : off + suc (length xs) ≡ suc off + length xs = omega arith in
      ap (λ (n : ℕ). take n (write_at buf off (x ∷ xs))) shift
      ∙ take-write_at xs (set buf off x) (suc off) (omega arith)
      ∙ ap (λ (t : List A). t ++ xs) (take-set off buf x (omega arith))
      ∙ append_assoc (take off buf) (x ∷ []) xs

  -- The block itself, behind the part of the array before it.
  pub drop-take-write_at :
      (xs buf : List A) (off : ℕ)
      → off + length xs ≤ length buf
      → drop off (take (off + length xs) (write_at buf off xs)) ≡ xs
  drop-take-write_at xs buf off h =
      let size : length (take off buf) ≡ off = omega (arith, length-take off buf) in
      ap (drop off) (take-write_at xs buf off h)
      ∙ ap (λ (n : ℕ). drop n (take off buf ++ xs)) (sym size)
      ∙ drop-length-append (take off buf) xs

  write_at-cons :
      (xs buf : List A) (off : ℕ) (b : A)
      → write_at (b ∷ buf) (suc off) xs ≡ b ∷ write_at buf off xs
  unfolding write_at
  write_at-cons [] buf off b = refl
  write_at-cons (x ∷ xs) buf off b = write_at-cons xs (set buf off x) (suc off) b

  -- A block at the start of an array.
  pub write_at-zero :
      (xs buf : List A) → length xs ≤ length buf → write_at buf 0 xs ≡ xs ++ drop (length xs) buf
  unfolding write_at
  write_at-zero [] buf h = refl
  write_at-zero (x ∷ xs) [] h = absurd (omega arith)
  write_at-zero (x ∷ xs) (b ∷ buf) h =
      write_at-cons xs buf 0 x ∙ ap (λ (t : List A). x ∷ t) (write_at-zero xs buf (omega arith))

  take_nil : (j : ℕ) → take {A = A} j [] ≡ []
  take_nil zero = refl
  take_nil (suc j) = refl

  pub drop-take_lem : (n k : ℕ) (xs : List A) → drop n (take (n + k) xs) ≡ take k (drop n xs)
  drop-take_lem zero k xs = ap (λ (j : ℕ). take j xs) (omega arith)
  drop-take_lem (suc n) k [] = ap (drop (suc n)) (take_nil (suc n + k)) ∙ sym (take_nil k)
  drop-take_lem (suc n) k (x ∷ xs) =
      let e : suc n + k ≡ suc (n + k) = omega arith in
      ap (λ (j : ℕ). drop (suc n) (take j (x ∷ xs))) e ∙ drop-take_lem n k xs

  -- What a block at the start of an array leaves there.
  pub take-write_at_zero :
      (xs buf : List A) → length xs ≤ length buf → take (length xs) (write_at buf 0 xs) ≡ xs
  take-write_at_zero xs buf h =
      let start : length xs ≡ 0 + length xs = omega arith in
      ap (λ (n : ℕ). take n (write_at buf 0 xs)) start ∙ take-write_at xs buf 0 (omega arith)
