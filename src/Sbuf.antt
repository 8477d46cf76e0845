-- ===== src/Sbuf.antt =====
-- src/utils/sbuf.c and inc/sbuf.h: numbers written to an array and read from it, in network order.
-- A signed number is held as its bits, as the code casts it. `htons` and `htonl` lay the octets of
-- a number out from the highest to the lowest, and `ntohs` and `ntohl` read them so.
pub mod Appended
pub mod Numbers
mod Examples
use kongjaexpress.Prelude.{
  ℕ, ◌+◌, ◌*◌, ◌/◌, ◌%◌, ◌^◌, List, [], ◌∷◌, Bool, true, false, Option, none, some, ltb,
  if◌then◌else◌, length, read_at, write_at,
}
use kongjaexpress.Prelude.Bytes.{word16}
use mathlib.Core.Option

pub record Sbuf : Type 0 where
  pub buf : List ℕ
  pub len : ℕ
  pub data_len : ℕ
  pub write_ndx : ℕ
  pub read_ndx : ℕ

abbrev pub sbuf_is_write_possible : Sbuf → ℕ → Bool
sbuf_is_write_possible s n = ltb ((s.write_ndx + n) % 2 ^ 32) s.len

abbrev pub sbuf_is_read_possible : Sbuf → ℕ → Bool
sbuf_is_read_possible s n = ltb ((s.read_ndx + n) % 2 ^ 32) s.data_len

unfoldable pub sbuf_init : List ℕ → ℕ → Sbuf
sbuf_init buf len = record { buf = buf; len = len; data_len = 0; write_ndx = 0; read_ndx = 0 }

-- `none` is the result false.
unfoldable pub sbuf_read : Sbuf → ℕ → Option (List ℕ) × Sbuf
sbuf_read s n =
    if sbuf_is_read_possible s n
    then (some (read_at s.buf s.read_ndx n), record s { read_ndx = (s.read_ndx + n) % 2 ^ 32 })
    else (none, s)

unfoldable pub sbuf_write : Sbuf → List ℕ → Bool × Sbuf
sbuf_write s bytes =
    if sbuf_is_write_possible s (length bytes)
    then (
      true,
      record s {
        buf = write_at s.buf s.write_ndx bytes;
        write_ndx = (s.write_ndx + length bytes) % 2 ^ 32;
      },
    )
    else (false, s)

-- `htons` and `htonl`
abbrev pub octets16 : ℕ → List ℕ
octets16 v = v / 2 ^ 8 % 2 ^ 8 ∷ v % 2 ^ 8 ∷ []

abbrev pub octets32 : ℕ → List ℕ
octets32 v = v / 2 ^ 24 % 2 ^ 8 ∷ v / 2 ^ 16 % 2 ^ 8 ∷ v / 2 ^ 8 % 2 ^ 8 ∷ v % 2 ^ 8 ∷ []

-- `ntohs` and `ntohl`, of arrays of their sizes
abbrev pub from_octets8 : List ℕ → ℕ
from_octets8 (a ∷ _) = a
from_octets8 [] = 0

abbrev pub from_octets16 : List ℕ → ℕ
from_octets16 (a ∷ b ∷ _) = a * 2 ^ 8 + b
from_octets16 _ = 0

abbrev pub from_octets32 : List ℕ → ℕ
from_octets32 (a ∷ b ∷ c ∷ d ∷ _) = a * 2 ^ 24 + b * 2 ^ 16 + c * 2 ^ 8 + d
from_octets32 _ = 0

unfoldable pub sbuf_write_u8 : Sbuf → ℕ → Bool × Sbuf
sbuf_write_u8 s v = sbuf_write s (v ∷ [])

unfoldable pub sbuf_write_u16 : Sbuf → ℕ → Bool × Sbuf
sbuf_write_u16 s v = sbuf_write s (octets16 v)

unfoldable pub sbuf_write_u32 : Sbuf → ℕ → Bool × Sbuf
sbuf_write_u32 s v = sbuf_write s (octets32 v)

-- The functions for signed numbers do the same to their bits.
abbrev pub sbuf_write_s8 : Sbuf → ℕ → Bool × Sbuf
sbuf_write_s8 = sbuf_write_u8

abbrev pub sbuf_write_s16 : Sbuf → ℕ → Bool × Sbuf
sbuf_write_s16 = sbuf_write_u16

abbrev pub sbuf_write_s32 : Sbuf → ℕ → Bool × Sbuf
sbuf_write_s32 = sbuf_write_u32

-- a read of a number, where the octets are read
abbrev pub decoded : (List ℕ → ℕ) → Option (List ℕ) × Sbuf → Option ℕ × Sbuf
decoded from (octets, s) = (Option.map from octets, s)

unfoldable pub sbuf_read_u8 : Sbuf → Option ℕ × Sbuf
sbuf_read_u8 s = decoded from_octets8 (sbuf_read s 1)

unfoldable pub sbuf_read_u16 : Sbuf → Option ℕ × Sbuf
sbuf_read_u16 s = decoded from_octets16 (sbuf_read s 2)

unfoldable pub sbuf_read_u32 : Sbuf → Option ℕ × Sbuf
sbuf_read_u32 s = decoded from_octets32 (sbuf_read s 4)

abbrev pub sbuf_read_s8 : Sbuf → Option ℕ × Sbuf
sbuf_read_s8 = sbuf_read_u8

abbrev pub sbuf_read_s16 : Sbuf → Option ℕ × Sbuf
sbuf_read_s16 = sbuf_read_u16

abbrev pub sbuf_read_s32 : Sbuf → Option ℕ × Sbuf
sbuf_read_s32 = sbuf_read_u32
