-- ===== src/Modbus/BitFields.antt =====
-- src/protocols/modbus/modbus_util.c: the bits of an array of octets.
pub mod Words
pub mod Contents
mod Examples
use Prim.Native.Nat.{bit_and, bit_or}
use kongjaexpress.Prelude.{ℕ, ◌+◌, ◌-◌, ◌*◌, ◌/◌, ◌%◌, ◌^◌, List, get_or, set}

-- `ucByteBuf[i] | ucByteBuf[i + 1] << 8` in a `uint16_t`
unfoldable pub word_at : List ℕ → ℕ → ℕ
word_at buf i = bit_or (get_or buf i 0) (get_or buf (i + 1) 0 * 2 ^ 8) % 2 ^ 16

-- `usByteOffset` and `usNPreBits`
abbrev pub byte_offset : ℕ → ℕ
byte_offset off = off / 8

abbrev pub pre_bits : ℕ → ℕ
pre_bits off = off - byte_offset off * 8

-- `usMask`; an `int` is held in 32 bits.
abbrev pub low_mask : ℕ → ℕ
low_mask n = (2 ^ n - 1) % 2 ^ 16

unfoldable pub set_bits : List ℕ → ℕ → ℕ → ℕ → List ℕ
unfolding word_at
set_bits buf off n v =
    let i = byte_offset off in
    let value = v * 2 ^ pre_bits off % 2 ^ 16 in
    let mask = low_mask n * 2 ^ pre_bits off % 2 ^ 16 in
    let w = bit_or (bit_and (word_at buf i) (2 ^ 32 - 1 - mask)) value % 2 ^ 16 in
    set (set buf i (bit_and w 255)) (i + 1) (w / 2 ^ 8 % 2 ^ 8)

unfoldable pub get_bits : List ℕ → ℕ → ℕ → ℕ
unfolding word_at
get_bits buf off n =
    let w = word_at buf (byte_offset off) / 2 ^ pre_bits off in bit_and w (low_mask n) % 2 ^ 8
