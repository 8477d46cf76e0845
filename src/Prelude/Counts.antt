-- ===== src/Prelude/Counts.antt =====
-- How often a number stands in a list.
use Prim.Native.Nat.{ℕ, ◌+◌, ◌≤◌}
use mathlib.Core.Path.{◌≡◌}
use mathlib.Core.List.{List, [], ◌∷◌, ◌++◌}
use native.Mathlib.Omega.{arith}
use kongjaexpress.Prelude.Tests.{◌==◌, if◌then◌else◌}

-- one for a number that is `d`
abbrev pub one : ℕ → ℕ → ℕ
one d n = if n == d then 1 else 0

unfoldable pub count : ℕ → List ℕ → ℕ
count d [] = 0
count d (n ∷ ns) = one d n + count d ns

pub count-append : (d : ℕ) (xs ys : List ℕ) → count d (xs ++ ys) ≡ count d xs + count d ys
unfolding count
count-append d [] ys = omega arith
count-append d (x ∷ xs) ys = omega (arith, count-append d xs ys)

-- the list without the first `b`
unfoldable pub erase : ℕ → List ℕ → List ℕ
erase b [] = []
erase b (n ∷ ns) = let rest = erase b ns in if n == b then ns else n ∷ rest

pub count-erase :
    (d b : ℕ) (ns : List ℕ) → 1 ≤ count b ns → count d (erase b ns) + one d b ≡ count d ns
unfolding count erase
count-erase d b [] h = absurd (omega arith)
count-erase d b (n ∷ ns) h = ground (arith, count-erase d b ns)
