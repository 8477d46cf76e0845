-- ===== src/CircBuffer.antt =====
-- src/utils/circ_buffer.c and inc/circ_buffer.h: a ring of bytes of fixed size, written and read
-- in blocks by at most two `memcpy` calls.
--
-- An `int` of the source is a number here: sizes and indices are never negative, and the sums
-- that the code forms stay below twice the size of the buffer. The argument `size` of an operation
-- that is given data is the length of that data.
pub mod Inv
pub mod Contents
pub mod Refine
mod Examples
use kongjaexpress.Prelude.{
  ℕ, ◌+◌, ◌-◌, ◌%◌, List, [], ◌++◌, Bool, Option, none, some, ltb, leb, ◌==◌, if◌then◌else◌, length,
  take, drop, replicate, write_at, read_at,
}

pub record CircBuffer : Type 0 where
  pub buffer : Option (List ℕ)
  pub size : ℕ
  pub data_size : ℕ
  pub begin : ℕ
  pub end : ℕ

-- the bytes behind `cb->buffer`; there are none behind `NULL`
abbrev pub bytes_of : Option (List ℕ) → List ℕ
bytes_of none = []
bytes_of (some xs) = xs

-- `malloc` is the argument: the storage that it returns, or `none` for `NULL`.
unfoldable pub circ_buffer_init : Option (List ℕ) → ℕ → Bool × CircBuffer
circ_buffer_init none size =
    (Bool.false, record { buffer = none; size = 0; data_size = 0; begin = 0; end = 0 })
circ_buffer_init (some xs) size =
    (Bool.true, record { buffer = some xs; size = size; data_size = 0; begin = 0; end = 0 })

unfoldable pub circ_buffer_deinit : CircBuffer → CircBuffer
circ_buffer_deinit cb = record cb { buffer = none }

unfoldable pub circ_buffer_reset : CircBuffer → CircBuffer
circ_buffer_reset cb = record cb { begin = 0; end = 0; data_size = 0 }

unfoldable pub circ_buffer_is_full : CircBuffer → Bool
circ_buffer_is_full cb = cb.data_size == cb.size

unfoldable pub circ_buffer_is_empty : CircBuffer → Bool
circ_buffer_is_empty cb = cb.data_size == 0

-- the copies of `circ_buffer_put`
pub put_bytes : List ℕ → ℕ → ℕ → List ℕ → List ℕ
put_bytes xs size end buf =
    if ltb size (end + length buf)
    then (let begin_len = size - end in
        write_at (write_at xs end (take begin_len buf)) 0 (drop begin_len buf))
    else write_at xs end buf

-- `true` is the return value 0, `false` is -1.
unfoldable pub circ_buffer_put : CircBuffer → List ℕ → Bool × CircBuffer
circ_buffer_put cb buf = if ltb cb.size (cb.data_size + length buf) then (Bool.false, cb) else (
  Bool.true,
  record cb {
    buffer = some (put_bytes (bytes_of cb.buffer) cb.size cb.end buf);
    end = (cb.end + length buf) % cb.size;
    data_size = cb.data_size + length buf;
  },
)

-- the copies of `circ_buffer_get` and of `circ_buffer_peek`
pub get_bytes : List ℕ → ℕ → ℕ → ℕ → List ℕ
get_bytes xs size begin n =
    if leb (begin + n) size
    then read_at xs begin n
    else (let begin_len = size - begin in
        read_at xs begin begin_len ++ read_at xs 0 (n - begin_len))

-- The option is what is copied to `buf`; `none` is the return value -1.
unfoldable pub circ_buffer_get : CircBuffer → ℕ → Option (List ℕ) × CircBuffer
circ_buffer_get cb size = if ltb cb.data_size size then (none, cb) else (
  some (get_bytes (bytes_of cb.buffer) cb.size cb.begin size),
  record cb { begin = (cb.begin + size) % cb.size; data_size = cb.data_size - size },
)

unfoldable pub circ_buffer_advance : CircBuffer → ℕ → Bool × CircBuffer
circ_buffer_advance cb size = if ltb cb.data_size size then (Bool.false, cb) else (
  Bool.true,
  record cb { begin = (cb.begin + size) % cb.size; data_size = cb.data_size - size },
)

unfoldable pub circ_buffer_peek : CircBuffer → ℕ → Option (List ℕ)
circ_buffer_peek cb size =
    if ltb cb.data_size size
    then none
    else some (get_bytes (bytes_of cb.buffer) cb.size cb.begin size)
