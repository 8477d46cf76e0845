-- ===== src/BHash/Find.antt =====
-- One bucket: what the loops of the search and of the removal find.
use kongjaexpress.Prelude.{
  ℕ, ◌≡◌, refl, sym, ap, ap₂, ◌∙◌, List, [], ◌∷◌, ◌++◌, true, false, none, some, arith,
  if◌then◌else◌,
}
use kongjaexpress.BHash.{Element, same_key, find, remove}

pub same_key_refl : (k : List ℕ) → same_key k k ≡ true
unfolding same_key
same_key_refl [] = refl
same_key_refl (a ∷ xs) = ground (arith, same_key_refl xs)

pub same_key-eq : (a b : List ℕ) → same_key a b ≡ true → a ≡ b
unfolding same_key
same_key-eq [] [] e = refl
same_key-eq [] (b ∷ ys) e = absurd (ground arith)
same_key-eq (a ∷ xs) [] e = absurd (ground arith)
same_key-eq (a ∷ xs) (b ∷ ys) e =
    ap₂ (λ x zs. x ∷ zs) (ground arith) (same_key-eq xs ys (ground arith))

pub find-append :
    (k : List ℕ) (es : List Element) (e : Element)
    → find k (es ++ e ∷ [])
      ≡ elim (find k es) [ some x ↦ some x | none ↦ (if same_key k e.key then some e else none) ]
unfolding find
find-append k [] e = refl
find-append k (x ∷ es) e =
    elim (same_key k x.key)
      as (λ b.
        (if b then some x else find k (es ++ e ∷ [])) ≡ elim (if b then some x else find k es) [
          | some x ↦ some x
          | none ↦ (if same_key k e.key then some e else none)
        ]) [ true ↦ refl | false ↦ find-append k es e ]

-- No two elements of a bucket have the same key.
unfoldable pub IsDistinct : List Element → Type 0
IsDistinct [] = Unit
IsDistinct (e ∷ es) = (find e.key es ≡ none) × IsDistinct es

same_key_sym : (a b : List ℕ) → same_key a b ≡ true → same_key b a ≡ true
same_key_sym a b e = ap (λ k. same_key k a) (sym (same_key-eq a b e)) ∙ same_key_refl a

-- a search for another key than the one that is removed
pub find-remove_other :
    (k k' : List ℕ) (es : List Element)
    → same_key k k' ≡ false
    → find k (remove k' es).1 ≡ find k es
unfolding find remove
find-remove_other k k' [] ne = refl
find-remove_other k k' (x ∷ es) ne =
    ground (arith, find-remove_other k k' es ne, same_key-eq k' x.key, ne)

pub find-remove_self :
    (k : List ℕ) (es : List Element) → IsDistinct es → find k (remove k es).1 ≡ none
unfolding find remove IsDistinct
find-remove_self k [] h = refl
find-remove_self k (x ∷ es) h = ground (arith, find-remove_self k es h.1, same_key-eq k x.key, h.0)

-- An element is taken out exactly when the search finds one.
pub remove-find :
    (k : List ℕ) (es : List Element) → (remove k es).0 ≡ elim (find k es) [ none ↦ 0 | some _ ↦ 1 ]
unfolding find remove
remove-find k [] = refl
remove-find k (x ∷ es) = ground (arith, remove-find k es)

pub remove-IsDistinct :
    (k : List ℕ) (es : List Element) → IsDistinct es → IsDistinct (remove k es).1
unfolding remove IsDistinct
remove-IsDistinct k [] h = tt
remove-IsDistinct k (x ∷ es) h =
    elim (same_key k x.key)
        as (λ b.
          same_key k x.key ≡ b
          → IsDistinct
              (if◌then◌else◌ {A = ℕ × List Element} b (1, es)
                ((remove k es).0, x ∷ (remove k es).1)).1) [
                  | true ↦ λ e. h.1
                  | false ↦ λ e. (
                    find-remove_other x.key k es (ground (arith, same_key_sym x.key k)) ∙ h.0,
                    remove-IsDistinct k es h.1,
                  )
                ]
      refl

pub append-IsDistinct :
    (es : List Element) (e : Element)
    → IsDistinct es
    → find e.key es ≡ none
    → IsDistinct (es ++ e ∷ [])
unfolding find IsDistinct
append-IsDistinct [] e h absent = (refl, tt)
append-IsDistinct (x ∷ es) e h absent = (
  find-append x.key es e ∙ ground (arith, h.0, same_key_sym x.key e.key),
  append-IsDistinct es e h.1 (ground arith),
)
