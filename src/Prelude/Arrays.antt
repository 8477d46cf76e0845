-- ===== src/Prelude/Arrays.antt =====
-- C arrays as lists: block reads and writes, and lists given entry by entry.
use Prim.Native.Nat.{ℕ, zero, suc, ◌+◌, ◌-◌, ◌≤◌, ◌<◌}
use Prim.Native.Nat.add
use native.Mathlib.Nat.{sub-zero, suc-sub-suc, add-zero, add-suc}
use mathlib.Core.Path.{◌≡◌, refl, ap, ap₂, ◌∙◌}
use mathlib.Core.List.{List, [], ◌∷◌, ◌++◌}
use mathlib.Core.Bool.{◌&&◌}
use native.Mathlib.Omega.{arith}
use kongjaexpress.Prelude.Lists.{length, get_or, set, take, drop, length-set}
use kongjaexpress.Prelude.Tests.{ltb, leb, ◌==◌, if◌then◌else◌}

module _ {ℓ} {A : Type ℓ} where
  -- `memcpy(&buf[off], src, length src)`: one write for each entry of `src`. A write out of
  -- bounds changes nothing; the callers' theorems rule it out.
  unfoldable pub write_at : List A → ℕ → List A → List A
  write_at buf off [] = buf
  write_at buf off (x ∷ xs) = write_at (set buf off x) (suc off) xs

  -- `memcpy(dst, &buf[off], n)`
  abbrev pub read_at : List A → ℕ → ℕ → List A
  read_at buf off n = take n (drop off buf)

  -- the list with the entries `f 0`, `f 1`, … `f (n - 1)`
  unfoldable pub tabulate : ℕ → (ℕ → A) → List A
  tabulate zero f = []
  tabulate (suc n) f = f 0 ∷ tabulate n (λ i. f (suc i))

module _ {ℓ} {A : Type ℓ} where
  pub length-write_at : (xs buf : List A) (off : ℕ) → length (write_at buf off xs) ≡ length buf
  unfolding write_at
  length-write_at [] buf off = refl
  length-write_at (x ∷ xs) buf off =
      length-write_at xs (set buf off x) (suc off) ∙ length-set buf off x

  pub length-tabulate : (n : ℕ) (f : ℕ → A) → length (tabulate n f) ≡ n
  unfolding tabulate
  length-tabulate zero f = refl
  length-tabulate (suc n) f = ap suc (length-tabulate n (λ i. f (suc i)))

  pub tabulate_congr :
      (n : ℕ) (f g : ℕ → A) → ((i : ℕ) → i < n → f i ≡ g i) → tabulate n f ≡ tabulate n g
  unfolding tabulate
  tabulate_congr zero f g h = refl
  tabulate_congr (suc n) f g h =
      ap₂ ◌∷◌ (h 0 (omega arith))
        (tabulate_congr n (λ i. f (suc i)) (λ i. g (suc i)) (λ i p. h (suc i) (omega arith)))

  pub tabulate-add :
      (n m : ℕ) (f : ℕ → A) → tabulate (n + m) f ≡ tabulate n f ++ tabulate m (λ i. f (n + i))
  unfolding tabulate
  tabulate-add zero m f = rw add.zero (tabulate_congr m f (λ i. f (0 + i)) (λ i p. rw add.zero))
  tabulate-add (suc n) m f =
      rw (add.suc, tabulate-add n m (λ i. f (suc i)))
        (ap (λ t. f 0 ∷ tabulate n (λ i. f (suc i)) ++ t)
          (tabulate_congr m (λ i. f (suc (n + i))) (λ i. f (suc n + i)) (λ i p. rw add.suc)))

  pub tabulate-get_or : (xs : List A) (d : A) → tabulate (length xs) (λ i. get_or xs i d) ≡ xs
  unfolding tabulate
  tabulate-get_or [] d = refl
  tabulate-get_or (x ∷ xs) d = ap (λ t. x ∷ t) (tabulate-get_or xs d)

  pub read_at-eq-tabulate :
      (buf : List A) (off n : ℕ) (d : A)
      → off + n ≤ length buf
      → read_at buf off n ≡ tabulate n (λ i. get_or buf (off + i) d)
  unfolding tabulate
  read_at-eq-tabulate buf zero zero d h = refl
  read_at-eq-tabulate [] zero (suc n) d h = absurd (omega arith)
  read_at-eq-tabulate (x ∷ buf) zero (suc n) d h =
      rw (read_at-eq-tabulate buf zero n d (omega arith)) (simp add.zero)
  read_at-eq-tabulate [] (suc off) n d h = absurd (omega arith)
  read_at-eq-tabulate (x ∷ buf) (suc off) n d h =
      rw (read_at-eq-tabulate buf off n d (omega arith)) (simp add.suc)

  pub get_or-set :
      (xs : List A) (i j : ℕ) (v d : A)
      → i < length xs
      → get_or (set xs i v) j d ≡ (if i == j then v else get_or xs j d)
  get_or-set [] i j v d h = absurd (omega arith)
  get_or-set (x ∷ xs) zero zero v d h = refl
  get_or-set (x ∷ xs) zero (suc j) v d h = ground arith
  get_or-set (x ∷ xs) (suc i) zero v d h = ground arith
  get_or-set (x ∷ xs) (suc i) (suc j) v d h = ground (arith, get_or-set xs i j v d)

  get_or_cons :
      (x : A) (xs : List A) (i : ℕ) (d : A)
      → get_or (x ∷ xs) i d ≡ (if i == 0 then x else get_or xs (i - 1) d)
  get_or_cons x xs zero d = refl
  get_or_cons x xs (suc i) d = ground arith

module _ {A : Type 0} where
  -- A block write changes exactly its block.
  pub get_or-write_at :
      (xs buf : List A) (off j : ℕ) (d : A)
      → off + length xs ≤ length buf
      → get_or (write_at buf off xs) j d
        ≡ (if leb off j && ltb j (off + length xs) then get_or xs (j - off) d else get_or buf j d)
  unfolding write_at
  get_or-write_at [] buf off j d h = ground arith
  get_or-write_at (x ∷ xs) buf off j d h = ground (
    arith,
    get_or-write_at xs (set buf off x) (suc off) j d,
    length-set buf off x,
    get_or-set buf off j x d,
    get_or_cons x xs (j - off) d,
  )

module _ {ℓ} {A : Type ℓ} where
  pub take-tabulate : (n m : ℕ) (f : ℕ → A) → n ≤ m → take n (tabulate m f) ≡ tabulate n f
  unfolding tabulate
  take-tabulate zero m f h = refl
  take-tabulate (suc n) zero f h = absurd (omega arith)
  take-tabulate (suc n) (suc m) f h =
      ap (λ t. f 0 ∷ t) (take-tabulate n m (λ i. f (suc i)) (omega arith))

  pub drop-tabulate :
      (n m : ℕ) (f : ℕ → A) → n ≤ m → drop n (tabulate m f) ≡ tabulate (m - n) (λ i. f (n + i))
  unfolding tabulate
  drop-tabulate zero m f h = rw sub-zero (tabulate_congr m f (λ i. f (0 + i)) (λ i p. rw add.zero))
  drop-tabulate (suc n) zero f h = absurd (omega arith)
  drop-tabulate (suc n) (suc m) f h =
      rw (drop-tabulate n m (λ i. f (suc i)) (omega arith), suc-sub-suc)
        (tabulate_congr (m - n) _ _ (λ i p. rw add.suc))

module _ {ℓ} {A : Type ℓ} where
  pub get_or-take :
      (n : ℕ) (xs : List A) (i : ℕ) (d : A) → i < n → get_or (take n xs) i d ≡ get_or xs i d
  get_or-take zero xs i d h = absurd (omega arith)
  get_or-take (suc n) [] i d h = refl
  get_or-take (suc n) (x ∷ xs) zero d h = refl
  get_or-take (suc n) (x ∷ xs) (suc i) d h = get_or-take n xs i d (omega arith)

  pub get_or-drop :
      (n : ℕ) (xs : List A) (i : ℕ) (d : A) → get_or (drop n xs) i d ≡ get_or xs (n + i) d
  get_or-drop zero xs i d = rw add.zero
  get_or-drop (suc n) [] i d = refl
  get_or-drop (suc n) (x ∷ xs) i d = rw (get_or-drop n xs i d, add.suc)

  pub take-take : (n m : ℕ) (xs : List A) → n ≤ m → take n (take m xs) ≡ take n xs
  take-take zero m xs h = refl
  take-take (suc n) zero xs h = absurd (omega arith)
  take-take (suc n) (suc m) [] h = refl
  take-take (suc n) (suc m) (x ∷ xs) h = ap (λ t. x ∷ t) (take-take n m xs (omega arith))

  pub nil_of_length : (xs : List A) → length xs ≡ 0 → xs ≡ []
  nil_of_length [] h = refl
  nil_of_length (x ∷ xs) h = absurd (omega arith)

  -- A count that reaches `n` places into the second of two lists.
  pub take-add-append : (n : ℕ) (xs ys : List A) → take (length xs + n) (xs ++ ys) ≡ xs ++ take n ys
  take-add-append n [] ys = rw add.zero
  take-add-append n (x ∷ xs) ys = rw (add.suc, take-add-append n xs ys)

  pub drop-length-append : (xs ys : List A) → drop (length xs) (xs ++ ys) ≡ ys
  drop-length-append [] ys = refl
  drop-length-append (x ∷ xs) ys = drop-length-append xs ys

  pub take-length-append : (xs ys : List A) → take (length xs) (xs ++ ys) ≡ xs
  take-length-append [] ys = refl
  take-length-append (x ∷ xs) ys = ap (λ t. x ∷ t) (take-length-append xs ys)

  pub write_at-append_one :
      (xs buf : List A) (off : ℕ) (x : A)
      → write_at buf off (xs ++ x ∷ []) ≡ set (write_at buf off xs) (off + length xs) x
  unfolding write_at
  write_at-append_one [] buf off x = rw add-zero
  write_at-append_one (y ∷ xs) buf off x =
      rw (write_at-append_one xs (set buf off y) (suc off) x, add-suc, add.suc)

  -- A list that is not empty ends in a last member.
  pub last_split : (xs : List A) → 1 ≤ length xs → (ys : List A) × (y : A) × (xs ≡ ys ++ y ∷ [])
  last_split [] h = absurd (omega arith)
  last_split (x ∷ []) h = ([], x, refl)
  last_split (x ∷ y ∷ xs) h =
      let (ys, z, e) = last_split (y ∷ xs) (omega arith) in (x ∷ ys, z, ap (λ t. x ∷ t) e)
