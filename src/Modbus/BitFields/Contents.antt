-- ===== src/Modbus/BitFields/Contents.antt =====
-- What the bit operations do to the sequence of the bits of an array.
use Prim.Native.Nat.{bit_and}
use kongjaexpress.Prelude.{
  ℕ, ◌+◌, ◌-◌, ◌*◌, ◌/◌, ◌%◌, ◌^◌, ◌≤◌, ◌<◌, ◌≡◌, arith, List, get_or, set, length, ltb, leb, ◌==◌,
  ◌&&◌, if◌then◌else◌, length-set, get_or-set,
}
use kongjaexpress.Prelude.Bytes.{Bytes, IsByte, All-set}
use kongjaexpress.Prelude.Digits.{
  bit, bit-lt, bit-bit_and, bit_shift_right, bit_above, same_bits, bit-mod, bit_and-le,
}
use native.Mathlib.Nat.{pow-le-pow_right}
use kongjaexpress.Modbus.BitFields.Words.{
  bit_at, bit-word_at-bit_at, bit-low_mask, put_word, bit-put_word, low_octet, high_octet,
}
use kongjaexpress.Modbus.BitFields.{word_at, byte_offset, pre_bits, low_mask, set_bits, get_bits}

-- The array after `set_bits`: the two octets of the word are replaced.
module _ (buf : List ℕ) (off n v : ℕ) (bytes : Bytes buf) (room : byte_offset off + 1 < length buf)
    (small : n ≤ 8) (fits : v < 2 ^ n) where
  octet :
      (k : ℕ)
      → get_or (set_bits buf off n v) k 0 ≡ (
          let w = put_word (word_at buf (byte_offset off)) (pre_bits off) n v in
          if k == byte_offset off
          then bit_and w 255
          else if k == byte_offset off + 1
          then w / 2 ^ 8 % 2 ^ 8
          else get_or buf k 0)
  unfolding set_bits put_word
  octet k =
      let i = byte_offset off in
      let w = put_word (word_at buf i) (pre_bits off) n v in
      ground (
        arith,
        get_or-set (set buf i (bit_and w 255)) (i + 1) k (w / 2 ^ 8 % 2 ^ 8) 0,
        length-set buf i (bit_and w 255),
        get_or-set buf i k (bit_and w 255) 0,
      )

  -- the word as it stands in the array
  stored :
      (j : ℕ)
      → j < 16
      → bit j (put_word (word_at buf (byte_offset off)) (pre_bits off) n v) ≡ (
          if leb off (8 * byte_offset off + j) && ltb (8 * byte_offset off + j) (off + n)
          then bit (8 * byte_offset off + j - off) v
          else bit_at buf (8 * byte_offset off + j))
  stored j h =
      let i = byte_offset off in
      let shift : 8 * i + j - off ≡ j - pre_bits off = omega arith in
      rw
        (
          bit-put_word (word_at buf i) (pre_bits off) n v j small fits h,
          bit-word_at-bit_at buf i j bytes h,
          shift,
        )
        (ground arith)

  -- `set_bits` writes an array of octets with room for two octets from the one of the first bit:
  -- for a value of at most eight bits, which fits in `n` bits, the `n` bits from the offset are
  -- those of the value, and every other bit is as before.
  pub set_bits-bit_at :
      (k : ℕ)
      → bit_at (set_bits buf off n v) k
        ≡ (if leb off k && ltb k (off + n) then bit (k - off) v else bit_at buf k)
  unfolding bit_at
  set_bits-bit_at k =
      let i = byte_offset off in
      let w = put_word (word_at buf i) (pre_bits off) n v in
      let split : k ≡ 8 * (k / 8) + k % 8 = omega arith in
      let first : k / 8 ≡ i → 8 * i + (k - 8 * i) ≡ k = λ e. omega arith in
      ground (arith, octet (k / 8), low_octet w (k % 8), high_octet w (k % 8), stored (k - 8 * i))

-- `get_bits` reads the `n` bits from the offset, at most eight.
pub get_bits-bit :
    (buf : List ℕ) (off n j : ℕ)
    → Bytes buf
    → n ≤ 8
    → bit j (get_bits buf off n) ≡ (if ltb j n then bit_at buf (off + j) else 0)
unfolding get_bits
get_bits-bit buf off n j bytes small =
    let i = byte_offset off in
    let p = pre_bits off in
    let w = word_at buf i / 2 ^ p in
    let place : 8 * i + (p + j) ≡ off + j = omega arith in
    let word : p + j < 16 → bit (p + j) (word_at buf i) ≡ bit_at buf (off + j) =
      λ h. rw (bit-word_at-bit_at buf i (p + j) bytes h, place) in
    ground (
      arith,
      bit-mod 8 j (bit_and w (low_mask n)),
      bit-bit_and j w (low_mask n),
      bit-low_mask n j small,
      bit_shift_right p j (word_at buf i),
      word,
      bit-lt (p + j) (word_at buf i),
    )

set_bits-Bytes : (buf : List ℕ) (off n v : ℕ) → Bytes buf → Bytes (set_bits buf off n v)
unfolding set_bits put_word
set_bits-Bytes buf off n v bytes =
    let i = byte_offset off in
    let w = put_word (word_at buf i) (pre_bits off) n v in
    let low : bit_and w 255 < 256 = omega (arith, bit_and-le 255 w 255 (omega arith)) in
    All-set IsByte (set buf i (bit_and w 255)) (i + 1) (w / 2 ^ 8 % 2 ^ 8)
      (All-set IsByte buf i (bit_and w 255) bytes low) (omega arith)

-- What `set_bits` stores is what `get_bits` reads: in an array of octets with room for two octets
-- from the one of the first bit, for at most eight bits and a value that fits in them.
get_bits-set_bits :
    (buf : List ℕ) (off n v : ℕ)
    → Bytes buf
    → byte_offset off + 1 < length buf
    → n ≤ 8
    → v < 2 ^ n
    → get_bits (set_bits buf off n v) off n ≡ v
unfolding get_bits
get_bits-set_bits buf off n v bytes room small fits =
    let after = set_bits buf off n v in
    let octet_size : 2 ^ n ≤ 2 ^ 8 = pow-le-pow_right (omega arith) small in
    same_bits 8 (get_bits after off n) v (omega arith) (omega arith) (λ j h. ground (
      arith,
      get_bits-bit after off n j (set_bits-Bytes buf off n v bytes) small,
      set_bits-bit_at buf off n v bytes room small fits (off + j),
      bit_above n j v fits,
    ))
