-- ===== src/ByteQueue.antt =====
-- The abstract promise of a circular buffer: a first-in first-out queue of bytes that takes and
-- gives whole blocks, or refuses them and stays as it is.
use kongjaexpress.Prelude.{
  ℕ, ◌+◌, List, [], ◌∷◌, ◌++◌, Bool, true, false, Option, none, some, ltb, if◌then◌else◌, length,
  take, drop,
}

abbrev pub ByteQueue : Type 0
ByteQueue = List ℕ

abbrev pub put : ℕ → List ℕ → ByteQueue → Bool × ByteQueue
put size buf q = if ltb size (length q + length buf) then (false, q) else (true, q ++ buf)

abbrev pub peek : ℕ → ByteQueue → Option (List ℕ)
peek n q = if ltb (length q) n then none else some (take n q)

abbrev pub get : ℕ → ByteQueue → Option (List ℕ) × ByteQueue
get n q = if ltb (length q) n then (none, q) else (some (take n q), drop n q)

abbrev pub advance : ℕ → ByteQueue → Bool × ByteQueue
advance n q = if ltb (length q) n then (false, q) else (true, drop n q)

-- the calls that a client makes, and what it sees of each
pub data Op : Type 0 where
  put_op : List ℕ → Op
  get_op : ℕ → Op
  advance_op : ℕ → Op
  peek_op : ℕ → Op

pub data Reply : Type 0 where
  status : Bool → Reply
  copied : Option (List ℕ) → Reply

unfoldable pub run : ℕ → List Op → ByteQueue → List Reply
run size [] q = []
run size (put_op buf ∷ ops) q = let (ok, q') = put size buf q in status ok ∷ run size ops q'
run size (get_op n ∷ ops) q = let (out, q') = get n q in copied out ∷ run size ops q'
run size (advance_op n ∷ ops) q = let (ok, q') = advance n q in status ok ∷ run size ops q'
run size (peek_op n ∷ ops) q = copied (peek n q) ∷ run size ops q
