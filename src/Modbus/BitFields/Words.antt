-- ===== src/Modbus/BitFields/Words.antt =====
-- The digits of the word that the bit operations work on, and of their masks.
use Prim.Native.Nat.{bit_and, bit_or}
use kongjaexpress.Prelude.{
  ℕ, ◌+◌, ◌-◌, ◌*◌, ◌/◌, ◌%◌, ◌^◌, ◌≤◌, ◌<◌, min, ◌≡◌, arith, List, get_or, ltb, leb, ◌&&◌,
  if◌then◌else◌,
}
use kongjaexpress.Prelude.Bytes.{Bytes, get_or-lt}
use kongjaexpress.Prelude.Digits.{
  bit, bit-lt, bit-bit_and, bit-bit_or, bit_shift_left, bit_shift_right, bit_low_mask,
  bit_complement, bit_above, bit-mod,
}
use kongjaexpress.Modbus.BitFields.{word_at, low_mask}

-- bit `k` of an array, the lowest bit of an octet first
unfoldable pub bit_at : List ℕ → ℕ → ℕ
bit_at buf k = bit (k % 8) (get_or buf (k / 8) 0)

-- The digits of a word of two octets are those of the octets.
bit-word_at :
    (buf : List ℕ) (i j : ℕ)
    → Bytes buf
    → j < 16
    → bit j (word_at buf i)
      ≡ (if ltb j 8 then bit j (get_or buf i 0) else bit (j - 8) (get_or buf (i + 1) 0))
unfolding word_at
bit-word_at buf i j bytes h =
    let lo = get_or buf i 0 in
    let hi = get_or buf (i + 1) 0 in
    let low : lo < 2 ^ 8 = get_or-lt buf i bytes in
    ground (
      arith,
      bit-mod 16 j (bit_or lo (hi * 2 ^ 8)),
      bit-bit_or j lo (hi * 2 ^ 8),
      bit_shift_left 8 j hi,
      bit-lt j lo,
      bit_above 8 j lo low,
    )

-- so they are the bits of the array from the first octet
pub bit-word_at-bit_at :
    (buf : List ℕ) (i j : ℕ) → Bytes buf → j < 16 → bit j (word_at buf i) ≡ bit_at buf (8 * i + j)
unfolding bit_at
bit-word_at-bit_at buf i j bytes h =
    let place : (8 * i + j) % 8 ≡ (if ltb j 8 then j else j - 8) = ground arith in
    let byte : (8 * i + j) / 8 ≡ (if ltb j 8 then i else i + 1) = ground arith in
    ground (arith, bit-word_at buf i j bytes h, place, byte)

-- The word that `set_bits` stores, before it is cut in two.
unfoldable pub put_word : ℕ → ℕ → ℕ → ℕ → ℕ
put_word w p n v =
    let mask = low_mask n * 2 ^ p % 2 ^ 16 in
    bit_or (bit_and w (2 ^ 32 - 1 - mask)) (v * 2 ^ p % 2 ^ 16) % 2 ^ 16

pub bit-low_mask : (n j : ℕ) → n ≤ 8 → bit j (low_mask n) ≡ (if ltb j n then 1 else 0)
bit-low_mask n j h = ground (arith, bit-mod 16 j (2 ^ n - 1), bit_low_mask n j)

-- the digits of the mask and of the value in place
bit-mask :
    (p n j : ℕ)
    → n ≤ 8
    → j < 16
    → bit j (low_mask n * 2 ^ p % 2 ^ 16) ≡ (if leb p j && ltb j (p + n) then 1 else 0)
bit-mask p n j small h = ground (
  arith,
  bit-mod 16 j (low_mask n * 2 ^ p),
  bit_shift_left p j (low_mask n),
  bit-low_mask n (j - p) small,
)

bit-value :
    (p n v j : ℕ)
    → v < 2 ^ n
    → j < 16
    → bit j (v * 2 ^ p % 2 ^ 16) ≡ (if leb p j && ltb j (p + n) then bit (j - p) v else 0)
bit-value p n v j fits h =
    ground (arith, bit-mod 16 j (v * 2 ^ p), bit_shift_left p j v, bit_above n (j - p) v fits)

bit-kept :
    (w m j : ℕ)
    → m < 2 ^ 16
    → j < 16
    → bit j (bit_and w (2 ^ 32 - 1 - m)) ≡ min (bit j w) (1 - bit j m)
bit-kept w m j h k =
    ground (arith, bit-bit_and j w (2 ^ 32 - 1 - m), bit_complement 32 j m (omega arith))

pub bit-put_word :
    (w p n v j : ℕ)
    → n ≤ 8
    → v < 2 ^ n
    → j < 16
    → bit j (put_word w p n v) ≡ (if leb p j && ltb j (p + n) then bit (j - p) v else bit j w)
unfolding put_word
bit-put_word w p n v j small fits h =
    let mask = low_mask n * 2 ^ p % 2 ^ 16 in
    let kept = bit_and w (2 ^ 32 - 1 - mask) in
    let value = v * 2 ^ p % 2 ^ 16 in
    rw
      (
        bit-mod 16 j (bit_or kept value),
        bit-bit_or j kept value,
        bit-kept w mask j (omega arith) h,
        bit-mask p n j small h,
        bit-value p n v j fits h,
      )
      (ground (arith, bit-lt j w, bit-lt (j - p) v))

-- the two octets of a word
pub low_octet : (w m : ℕ) → m < 8 → bit m (bit_and w 255) ≡ bit m w
low_octet w m h = ground (arith, bit-bit_and m w 255, bit_low_mask 8 m, bit-lt m w)

pub high_octet : (w m : ℕ) → m < 8 → bit m (w / 2 ^ 8 % 2 ^ 8) ≡ bit (8 + m) w
high_octet w m h = ground (arith, bit-mod 8 m (w / 2 ^ 8), bit_shift_right 8 m w)
