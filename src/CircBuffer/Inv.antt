-- ===== src/CircBuffer/Inv.antt =====
-- The representation invariant of `circ_buffer_t`: the indices lie inside the storage, and `end`
-- is `data_size` places after `begin`, round the ring.
use kongjaexpress.Prelude.{
  ℕ, ◌+◌, ◌-◌, ◌%◌, ◌<◌, ◌≤◌, ◌≡◌, List, some, arith, length, take, drop, write_at, length-write_at,
  ◌⊎◌, inl, inr, ◌∙◌, ap,
}
use kongjaexpress.CircBuffer.{
  CircBuffer, bytes_of, circ_buffer_init, circ_buffer_put, circ_buffer_get, circ_buffer_advance,
  circ_buffer_reset, put_bytes,
}
use native.Mathlib.Decide.{dec_lt}
use native.Mathlib.Nat.{add_assoc, mod-eq_of_lt, mod-eq-sub-mod, mod-add-mod, mod-lt}

-- an index that is below twice the size, brought back into the ring
pub wrap_lem :
    (k size : ℕ)
    → k < size + size
    → ((k < size) × (k % size ≡ k)) ⊎ ((size ≤ k) × (k % size ≡ k - size))
wrap_lem k size h = elim (dec_lt k size) [
  | yes p ↦ inl (p, mod-eq_of_lt p)
  | no p ↦
      inr
        (omega arith, mod-eq-sub-mod {n = k} {m = size} (omega arith) ∙ mod-eq_of_lt (omega arith))
]

pub record IsValid (cb : CircBuffer) : Type 0 where
  pub storage : length (bytes_of cb.buffer) ≡ cb.size
  pub positive : 0 < cb.size
  pub begin_in : cb.begin < cb.size
  pub fits : cb.data_size ≤ cb.size
  pub end_at : cb.end ≡ (cb.begin + cb.data_size) % cb.size

pub length-put_bytes :
    (xs : List ℕ) (size end : ℕ) (buf : List ℕ) → length (put_bytes xs size end buf) ≡ length xs
unfolding put_bytes
length-put_bytes xs size end buf = ground (
  arith,
  length-write_at buf xs end,
  length-write_at (drop (size - end) buf) (write_at xs end (take (size - end) buf)) 0,
  length-write_at (take (size - end) buf) xs end,
)

pub init-IsValid :
    (storage : List ℕ) (size : ℕ)
    → length storage ≡ size
    → 0 < size
    → IsValid (circ_buffer_init (some storage) size).1
unfolding circ_buffer_init
init-IsValid storage size e h = ground (arith, mod-eq_of_lt h)

pub reset-IsValid : {cb : CircBuffer} → IsValid cb → IsValid (circ_buffer_reset cb)
unfolding circ_buffer_reset
reset-IsValid v = ground (arith, mod-eq_of_lt v.positive)

pub put-IsValid : {cb : CircBuffer} (buf : List ℕ) → IsValid cb → IsValid (circ_buffer_put cb buf).1
unfolding circ_buffer_put
put-IsValid {cb} buf v = ground (
  arith,
  length-put_bytes (bytes_of cb.buffer) cb.size cb.end buf,
  mod-add-mod (cb.begin + cb.data_size) cb.size (length buf),
  ap (λ (k : ℕ). k % cb.size) (add_assoc cb.begin cb.data_size (length buf)),
)

regroup : (b d n : ℕ) → n ≤ d → b + n + (d - n) ≡ b + d
regroup b d n h = omega arith

pub advance-IsValid : {cb : CircBuffer} (n : ℕ) → IsValid cb → IsValid (circ_buffer_advance cb n).1
unfolding circ_buffer_advance
advance-IsValid {cb} n v = ground (
  arith,
  mod-add-mod (cb.begin + n) cb.size (cb.data_size - n),
  mod-lt (cb.begin + n) v.positive,
  regroup cb.begin cb.data_size n,
)

pub get-IsValid : {cb : CircBuffer} (n : ℕ) → IsValid cb → IsValid (circ_buffer_get cb n).1
unfolding circ_buffer_get
get-IsValid {cb} n v = ground (
  arith,
  mod-add-mod (cb.begin + n) cb.size (cb.data_size - n),
  mod-lt (cb.begin + n) v.positive,
  regroup cb.begin cb.data_size n,
)
