-- ===== src/BHash/Examples.antt =====
-- Two keys that share the only bucket.
use kongjaexpress.Prelude.{◌≡◌, refl, List, [], ◌∷◌, none, arith}
use kongjaexpress.BHash.{
  Element, same_key, find, remove, djb_hash, djb_hash_loop, bhash_init, bhash_add, bhash_del,
  bhash_lookup,
}
use kongjaexpress.BHash.Refine.{Call, add, del, calls, specs, calls-bhash_init}

abbrev lamp : Element
lamp = record { address = 1; key = 1 ∷ 2 ∷ [] }

abbrev fan : Element
fan = record { address = 2; key = 1 ∷ 3 ∷ [] }

abbrev script : List Call
script = add lamp ∷ add fan ∷ add lamp ∷ del (1 ∷ 2 ∷ []) ∷ del (1 ∷ 2 ∷ []) ∷ []

djb_hash_test : djb_hash (1 ∷ 2 ∷ []) 2 ≡ 35
unfolding djb_hash djb_hash_loop
djb_hash_test = refl

script_test : (calls script (bhash_init 1 2 none)).0 ≡ 1 ∷ 1 ∷ 0 ∷ 1 ∷ 0 ∷ []
unfolding calls bhash_init bhash_add bhash_del bhash_lookup djb_hash djb_hash_loop find remove
    same_key
script_test = refl

calls-bhash_init_example :
    ((calls script (bhash_init 1 2 none)).0 ≡ (specs script (λ k. none)).0)
    × (bhash_lookup (calls script (bhash_init 1 2 none)).1 ≡ (specs script (λ k. none)).1)
calls-bhash_init_example = calls-bhash_init script 1 2 none (omega arith)
