-- ===== src/BHash.antt =====
-- src/utils/bhash.c and inc/bhash.h: a hash table with a list of elements in each bucket. The list
-- node and the key lie inside the element of the client, at fixed offsets: an element is its address
-- and its key, which stays as it is while the element is in the table.
pub mod Find
pub mod Refine
mod Examples
use Prim.Native.Nat.{bit_xor}
use kongjaexpress.Prelude.{
  ℕ, ◌*◌, ◌%◌, ◌^◌, List, [], ◌∷◌, ◌++◌, Bool, true, false, ◌&&◌, Option, none, some, ◌==◌,
  if◌then◌else◌, get_or, set, replicate, take,
}

-- what the client adds
pub record Element : Type 0 where
  pub address : ℕ
  pub key : List ℕ

-- `struct hash_context`: the offsets are left out.
pub record BHashContext : Type 0 where
  pub num_buckets : ℕ
  pub key_size : ℕ
  pub calc_hash : List ℕ → ℕ → ℕ
  pub buckets : List (List Element)

-- The loop of `djb_hash`, `len` bytes of the key from the start.
unfoldable pub djb_hash_loop : ℕ → List ℕ → ℕ
djb_hash_loop h [] = h
djb_hash_loop h (b ∷ key) = djb_hash_loop (bit_xor (33 * h % 2 ^ 32) b) key

unfoldable pub djb_hash : List ℕ → ℕ → ℕ
djb_hash key len = djb_hash_loop 0 (take len key)

-- `memcmp(…) == 0` of two keys of `key_size` bytes
unfoldable pub same_key : List ℕ → List ℕ → Bool
same_key [] [] = true
same_key (a ∷ xs) (b ∷ ys) = a == b && same_key xs ys
same_key [] (b ∷ ys) = false
same_key (a ∷ xs) [] = false

unfoldable pub bhash_init : ℕ → ℕ → Option (List ℕ → ℕ → ℕ) → BHashContext
bhash_init n key_size func = record {
  num_buckets = n;
  key_size = key_size;
  calc_hash = elim func [ none ↦ djb_hash | some f ↦ f ];
  buckets = replicate n [];
}

-- the bucket of a key
abbrev pub index : BHashContext → List ℕ → ℕ
index hash key = hash.calc_hash key hash.key_size % hash.num_buckets

abbrev pub bucket : BHashContext → List ℕ → List Element
bucket hash key = get_or hash.buckets (index hash key) []

-- The loop of `bhash_lookup` over a bucket.
unfoldable pub find : List ℕ → List Element → Option Element
find key [] = none
find key (e ∷ es) = if same_key key e.key then some e else find key es

-- The code takes the remainder twice, which is the same index.
unfoldable pub bhash_lookup : BHashContext → List ℕ → Option Element
bhash_lookup hash key = find key (get_or hash.buckets (index hash key % hash.num_buckets) [])

-- `list_add_tail` and `list_del` on the bucket of the key
abbrev pub put_bucket : BHashContext → List ℕ → List Element → BHashContext
put_bucket hash key es = record hash { buckets = set hash.buckets (index hash key) es }

abbrev pub added : BHashContext → Element → Option Element → ℕ × BHashContext
added hash e (some _) = (0, hash)
added hash e none = (1, put_bucket hash e.key (bucket hash e.key ++ e ∷ []))

unfoldable pub bhash_add : BHashContext → Element → ℕ × BHashContext
bhash_add hash e = added hash e (bhash_lookup hash e.key)

-- The loop of `bhash_del`: whether an element was taken out, and the bucket.
unfoldable pub remove : List ℕ → List Element → ℕ × List Element
remove key [] = (0, [])
remove key (e ∷ es) =
    let (done, rest) = remove key es in if same_key key e.key then (1, es) else (done, e ∷ rest)

abbrev pub deleted : BHashContext → List ℕ → Option Element → ℕ × BHashContext
deleted hash key none = (0, hash)
deleted hash key (some _) =
    let (done, es) = remove key (bucket hash key) in (done, put_bucket hash key es)

unfoldable pub bhash_del : BHashContext → List ℕ → ℕ × BHashContext
bhash_del hash key = deleted hash key (bhash_lookup hash key)
