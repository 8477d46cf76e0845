-- ===== src/BHash/Refine.antt =====
-- The table is a map from keys to elements.
use native.Mathlib.Nat.{mod-eq_of_lt, mod-lt}
use mathlib.Core.Path.{subst}
use kongjaexpress.Prelude.{
  ℕ, zero, suc, ◌%◌, ◌≤◌, ◌≡◌, refl, sym, ap, ap₂, ◌∙◌, List, [], ◌∷◌, ◌++◌, true, false, Option,
  none, some, arith, ◌==◌, if◌then◌else◌, get_or, length, length-set, get_or-set, replicate,
  length-replicate,
}
use kongjaexpress.BHash.{
  Element, BHashContext, index, bucket, find, remove, same_key, put_bucket, bhash_init,
  bhash_lookup, added, deleted, bhash_add, bhash_del,
}
use kongjaexpress.BHash.Find.{
  IsDistinct, find-append, find-remove_other, find-remove_self, remove-find, remove-IsDistinct,
  append-IsDistinct, same_key-eq,
}

-- As many buckets as the context says, one at least, and no key twice in one of them.
pub record IsTable (hash : BHashContext) : Type 0 where
  pub some_buckets : 1 ≤ hash.num_buckets
  pub size : length hash.buckets ≡ hash.num_buckets
  pub distinct : (i : ℕ) → IsDistinct (get_or hash.buckets i [])

lookup-bucket :
    (hash : BHashContext) (k : List ℕ) → IsTable hash → bhash_lookup hash k ≡ find k (bucket hash k)
unfolding bhash_lookup
lookup-bucket hash k t =
    ap (λ (i : ℕ). find k (get_or hash.buckets i []))
      (mod-eq_of_lt (mod-lt (hash.calc_hash k hash.key_size) (omega (arith, t.some_buckets))))

module _ (hash : BHashContext) (t : IsTable hash) (k : List ℕ) (es : List Element) where
  put_bucket-IsTable : IsDistinct es → IsTable (put_bucket hash k es)
  put_bucket-IsTable d = record {
    some_buckets = t.some_buckets;
    size = length-set hash.buckets (index hash k) es ∙ t.size;
    distinct = λ i.
        subst IsDistinct
          (sym (
            get_or-set hash.buckets (index hash k) i es [] (omega (arith, t.size, t.some_buckets))))
          (elim (index hash k == i)
            as (λ b. IsDistinct (if b then es else get_or hash.buckets i [])) [
              | true ↦ d
              | false ↦ t.distinct i
            ]);
  }

  bucket-put_bucket :
      (k' : List ℕ)
      → bucket (put_bucket hash k es) k'
        ≡ (if index hash k == index hash k' then es else bucket hash k')
  bucket-put_bucket k' =
      get_or-set hash.buckets (index hash k) (index hash k') es []
        (omega (arith, t.size, t.some_buckets))

  lookup-put_bucket :
      IsDistinct es
      → (k' : List ℕ)
      → bhash_lookup (put_bucket hash k es) k'
        ≡ (if index hash k == index hash k' then find k' es else bhash_lookup hash k')
  lookup-put_bucket d k' =
      lookup-bucket (put_bucket hash k es) k' (put_bucket-IsTable d)
      ∙ ap (find k') (bucket-put_bucket k')
      ∙ ground (arith, lookup-bucket hash k' t)

-- the map: what `bhash_lookup` finds for each key
abbrev pub Table : Type 0
Table = List ℕ → Option Element

-- the client's calls that change the table
pub data Call : Type 0 where
  add : Element → Call
  del : List ℕ → Call

abbrev added_spec : Element → Table → Option Element → ℕ × Table
added_spec e t (some _) = (0, t)
added_spec e t none = (1, λ k. if same_key k e.key then some e else t k)

abbrev deleted_spec : List ℕ → Table → Option Element → ℕ × Table
deleted_spec key t none = (0, t)
deleted_spec key t (some _) = (1, λ k. if same_key k key then none else t k)

-- A call on the map, and what it returns: an element whose key is there is not added.
abbrev pub spec : Call → Table → ℕ × Table
spec (add e) t = added_spec e t (t e.key)
spec (del key) t = deleted_spec key t (t key)

abbrev pub call : Call → BHashContext → ℕ × BHashContext
call (add e) hash = bhash_add hash e
call (del key) hash = bhash_del hash key

unfoldable pub specs : List Call → Table → List ℕ × Table
specs [] t = ([], t)
specs (c ∷ cs) t = let (r, t') = spec c t in let (rs, t'') = specs cs t' in (r ∷ rs, t'')

unfoldable pub calls : List Call → BHashContext → List ℕ × BHashContext
calls [] hash = ([], hash)
calls (c ∷ cs) hash = let (r, h') = call c hash in let (rs, h'') = calls cs h' in (r ∷ rs, h'')

-- A call on the table keeps it whole and does what the call on the map does.
Agrees : ℕ × BHashContext → ℕ × Table → Type 0
Agrees (r, h) (r', t) = IsTable h × (r ≡ r') × (bhash_lookup h ≡ t)

add-Agrees :
    (hash : BHashContext) (e : Element) (o : Option Element)
    → IsTable hash
    → bhash_lookup hash e.key ≡ o
    → Agrees (added hash e o) (added_spec e (bhash_lookup hash) o)
unfolding Agrees
add-Agrees hash e (some x) t p = (t, refl, refl)
add-Agrees hash e none t p =
    let es = bucket hash e.key ++ e ∷ [] in
    let absent = sym (lookup-bucket hash e.key t) ∙ p in
    let d = append-IsDistinct (bucket hash e.key) e (t.distinct (index hash e.key)) absent in
    let found : (k : List ℕ)
        → bhash_lookup (put_bucket hash e.key es) k
          ≡ (if same_key k e.key then some e else bhash_lookup hash k) =
      λ k. ground (
        arith,
        absent,
        lookup-put_bucket hash t e.key es d k,
        lookup-bucket hash k t,
        find-append k (bucket hash e.key) e,
        same_key-eq k e.key,
      ) in
    (put_bucket-IsTable hash t e.key es d, refl, λ i k. found k i)

del-Agrees :
    (hash : BHashContext) (key : List ℕ) (o : Option Element)
    → IsTable hash
    → bhash_lookup hash key ≡ o
    → Agrees (deleted hash key o) (deleted_spec key (bhash_lookup hash) o)
unfolding Agrees
del-Agrees hash key none t p = (t, refl, refl)
del-Agrees hash key (some x) t p =
    let es = (remove key (bucket hash key)).1 in
    let d = remove-IsDistinct key (bucket hash key) (t.distinct (index hash key)) in
    let found : (k : List ℕ)
        → bhash_lookup (put_bucket hash key es) k
          ≡ (if same_key k key then none else bhash_lookup hash k) =
      λ k. ground (
        arith,
        lookup-put_bucket hash t key es d k,
        lookup-bucket hash k t,
        find-remove_other k key (bucket hash key),
        find-remove_self key (bucket hash key) (t.distinct (index hash key)),
        same_key-eq k key,
      ) in
    (
      put_bucket-IsTable hash t key es d,
      remove-find key (bucket hash key)
          ∙ ap (λ (o : Option Element). elim o as (λ o. ℕ) [ none ↦ 0 | some _ ↦ 1 ])
              (sym (lookup-bucket hash key t) ∙ p),
      λ i k. found k i,
    )

call-Agrees :
    (c : Call) (hash : BHashContext)
    → IsTable hash
    → Agrees (call c hash) (spec c (bhash_lookup hash))
unfolding bhash_add bhash_del
call-Agrees (add e) hash t = add-Agrees hash e (bhash_lookup hash e.key) t refl
call-Agrees (del key) hash t = del-Agrees hash key (bhash_lookup hash key) t refl

-- The same for a sequence of calls.
calls-specs :
    (cs : List Call) (hash : BHashContext)
    → IsTable hash
    → ((calls cs hash).0 ≡ (specs cs (bhash_lookup hash)).0)
      × (bhash_lookup (calls cs hash).1 ≡ (specs cs (bhash_lookup hash)).1)
unfolding calls specs Agrees
calls-specs [] hash t = (refl, refl)
calls-specs (c ∷ cs) hash t =
    let (t', r, l) = call-Agrees c hash t in
    let (rs, ls) = calls-specs cs (call c hash).1 t' in
    (
      ap₂ (λ x xs. x ∷ xs) r (rs ∙ ap (λ (m : Table). (specs cs m).0) l),
      ls ∙ ap (λ (m : Table). (specs cs m).1) l,
    )

empty-IsDistinct : (n i : ℕ) → IsDistinct (get_or (replicate n []) i [])
unfolding IsDistinct
empty-IsDistinct zero i = tt
empty-IsDistinct (suc n) zero = tt
empty-IsDistinct (suc n) (suc i) = empty-IsDistinct n i

empty-find : (k : List ℕ) (n i : ℕ) → find k (get_or (replicate n []) i []) ≡ none
unfolding find
empty-find k zero i = refl
empty-find k (suc n) zero = refl
empty-find k (suc n) (suc i) = empty-find k n i

init-IsTable :
    (n key_size : ℕ) (func : Option (List ℕ → ℕ → ℕ)) → 1 ≤ n → IsTable (bhash_init n key_size func)
unfolding bhash_init
init-IsTable n key_size func h = record {
  some_buckets = h;
  size = length-replicate n [];
  distinct = λ i. empty-IsDistinct n i;
}

-- A table with one bucket at least, as `bhash_init` leaves it and with any hash function, goes
-- through any sequence of calls that add and delete. Every call returns what the call on a map from
-- keys to elements returns that was empty at first: 0 for an element whose key is there and for a
-- key that is not, and else 1. The lookups of the table at the end are that map.
pub calls-bhash_init :
    (cs : List Call) (n key_size : ℕ) (func : Option (List ℕ → ℕ → ℕ))
    → 1 ≤ n
    → let hash = calls cs (bhash_init n key_size func) in
      let map = specs cs (λ k. none) in (hash.0 ≡ map.0) × (bhash_lookup hash.1 ≡ map.1)
unfolding bhash_init bhash_lookup
calls-bhash_init cs n key_size func h =
    let hash = bhash_init n key_size func in
    let nothing : bhash_lookup hash ≡ (λ k. none) = λ i k. empty-find k n (index hash k % n) i in
    let (rs, ls) = calls-specs cs hash (init-IsTable n key_size func h) in
    (
      rs ∙ ap (λ (m : Table). (specs cs m).0) nothing,
      ls ∙ ap (λ (m : Table). (specs cs m).1) nothing,
    )
