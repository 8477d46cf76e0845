-- ===== src/CircBuffer/Contents.antt =====
-- The bytes that a circular buffer holds, oldest first, and what each operation does to them.
use kongjaexpress.Prelude.{
  ℕ, ◌+◌, ◌-◌, ◌%◌, ◌<◌, ◌≤◌, ◌≡◌, sym, ap₂, ◌∙◌, List, ◌++◌, Bool, Option, arith, ltb, leb,
  if◌then◌else◌, length, take, drop, get_or, write_at, read_at, tabulate, tabulate_congr,
  tabulate-add, tabulate-get_or, take-tabulate, drop-tabulate, length-tabulate, read_at-eq-tabulate,
  get_or-write_at, length-write_at, length-take, length-drop, get_or-take, get_or-drop, ◌&&◌,
}
use kongjaexpress.CircBuffer.{
  CircBuffer, bytes_of, circ_buffer_put, circ_buffer_get, circ_buffer_advance, circ_buffer_peek,
  put_bytes, get_bytes,
}
use kongjaexpress.CircBuffer.Inv.{IsValid, wrap_lem}
use kongjaexpress.ByteQueue
use native.Mathlib.Decide.{dec_le}
use native.Mathlib.Nat.{sub-zero, mod-eq_of_lt, add_assoc, mod-add-mod}

-- the byte `i` places after `begin`, round the ring
abbrev pub byte_at : List ℕ → ℕ → ℕ → ℕ → ℕ
byte_at xs size begin i = get_or xs ((begin + i) % size) 0

abbrev pub contents : CircBuffer → List ℕ
contents cb = tabulate cb.data_size (byte_at (bytes_of cb.buffer) cb.size cb.begin)

module _ (xs : List ℕ) (size begin : ℕ) (storage : length xs ≡ size) (inside : begin < size) where
  -- a read up to the end of the storage at most
  first_read : (n : ℕ) → begin + n ≤ size → read_at xs begin n ≡ tabulate n (byte_at xs size begin)
  first_read n h =
      read_at-eq-tabulate xs begin n 0 (omega arith)
      ∙ tabulate_congr n (λ i. get_or xs (begin + i) 0) (byte_at xs size begin)
          (λ i q. rw (mod-eq_of_lt {n = begin + i} {m = size} (omega arith)))

  -- an index past the end of the storage
  past_end : (i : ℕ) → i < begin → (begin + (size - begin + i)) % size ≡ 0 + i
  past_end i h = omega (arith, wrap_lem (begin + (size - begin + i)) size (omega arith))

  -- a read that goes on at the start of the storage
  second_read :
      (m : ℕ)
      → m ≤ begin
      → read_at xs 0 m ≡ tabulate m (λ i. byte_at xs size begin (size - begin + i))
  second_read m h =
      read_at-eq-tabulate xs 0 m 0 (omega arith)
      ∙ tabulate_congr m (λ i. get_or xs (0 + i) 0) (λ i. byte_at xs size begin (size - begin + i))
          (λ i q. rw (past_end i (omega arith)))

  both_reads :
      (m : ℕ)
      → m ≤ begin
      → read_at xs begin (size - begin) ++ read_at xs 0 m
        ≡ tabulate (size - begin + m) (byte_at xs size begin)
  both_reads m h =
      ap₂ ◌++◌ (first_read (size - begin) (omega arith)) (second_read m h)
      ∙ sym (tabulate-add (size - begin) m (byte_at xs size begin))

  rest_lem : (n : ℕ) → size < begin + n → size - begin + (n - (size - begin)) ≡ n
  rest_lem n p = omega arith

  -- the two copies of a read meet where the ring wraps
  pub get_bytes-eq-tabulate :
      (n : ℕ) → n ≤ size → get_bytes xs size begin n ≡ tabulate n (byte_at xs size begin)
  unfolding get_bytes
  get_bytes-eq-tabulate n h = elim (dec_le (begin + n) size) [
    | yes p ↦ ground (arith, first_read n p)
    | no p ↦ ground (arith, both_reads (n - (size - begin)) (omega arith), rest_lem n (omega arith))
  ]

module _ {cb : CircBuffer} (v : IsValid cb) (n : ℕ) where
  -- A peek copies the oldest `n` bytes, if there are as many.
  pub peek-contents : circ_buffer_peek cb n ≡ ByteQueue.peek n (contents cb)
  unfolding circ_buffer_peek
  peek-contents = rw (length-tabulate) (
      ground (
        arith,
        get_bytes-eq-tabulate (bytes_of cb.buffer) cb.size cb.begin v.storage v.begin_in n,
        take-tabulate n cb.data_size (byte_at (bytes_of cb.buffer) cb.size cb.begin),
      ))

  drop-contents :
      n ≤ cb.data_size
      → tabulate
          (cb.data_size - n)
          (byte_at (bytes_of cb.buffer) cb.size ((cb.begin + n) % cb.size))
        ≡ drop n (contents cb)
  drop-contents h =
      tabulate_congr (cb.data_size - n) _
        (λ i. byte_at (bytes_of cb.buffer) cb.size cb.begin (n + i))
        (λ i p. rw (mod-add-mod, add_assoc))
      ∙ sym (drop-tabulate n cb.data_size (byte_at (bytes_of cb.buffer) cb.size cb.begin) h)

  -- A successful get copies the oldest `n` bytes and leaves the others.
  pub get-contents :
      let (out, cb') = circ_buffer_get cb n in
      ◌≡◌ {A = Option (List ℕ) × List ℕ} (out, contents cb') (ByteQueue.get n (contents cb))
  unfolding circ_buffer_get
  get-contents = rw (length-tabulate) (
      ground (
        arith,
        get_bytes-eq-tabulate (bytes_of cb.buffer) cb.size cb.begin v.storage v.begin_in n,
        take-tabulate n cb.data_size (byte_at (bytes_of cb.buffer) cb.size cb.begin),
        drop-contents,
      ))

  -- A successful advance leaves all but the oldest `n` bytes.
  pub advance-contents :
      let (done, cb') = circ_buffer_advance cb n in
      ◌≡◌ {A = Bool × List ℕ} (done, contents cb') (ByteQueue.advance n (contents cb))
  unfolding circ_buffer_advance
  advance-contents = rw (length-tabulate) (ground (arith, drop-contents))

module _ (xs : List ℕ) (size end : ℕ) (buf : List ℕ) (storage : length xs ≡ size) where
  -- the byte at an index of the storage after both copies
  get_or-put_bytes :
      (k : ℕ)
      → k < size
      → end < size
      → length buf ≤ size
      → get_or (put_bytes xs size end buf) k 0 ≡ (
          if leb end k && ltb k (end + length buf)
          then get_or buf (k - end) 0
          else if ltb (size + k) (end + length buf)
          then get_or buf (size - end + k) 0
          else get_or xs k 0)
  unfolding put_bytes
  get_or-put_bytes k inside e fits = ground (
    arith,
    get_or-write_at buf xs end k 0,
    get_or-write_at (drop (size - end) buf) (write_at xs end (take (size - end) buf)) 0 k 0,
    get_or-write_at (take (size - end) buf) xs end k 0,
    length-write_at (take (size - end) buf) xs end,
    length-take (size - end) buf,
    length-drop (size - end) buf,
    get_or-take (size - end) buf (k - end) 0,
    get_or-drop (size - end) buf (k - 0) 0,
    sub-zero k,
  )

module _ {cb : CircBuffer} (v : IsValid cb) (buf : List ℕ) where
  stored : List ℕ
  stored = put_bytes (bytes_of cb.buffer) cb.size cb.end buf

  -- the bytes held before stay
  kept :
      (i : ℕ)
      → i < cb.data_size
      → cb.data_size + length buf ≤ cb.size
      → byte_at stored cb.size cb.begin i ≡ byte_at (bytes_of cb.buffer) cb.size cb.begin i
  unfolding stored
  kept i h room = ground (
    arith,
    get_or-put_bytes (bytes_of cb.buffer) cb.size cb.end buf v.storage ((cb.begin + i) % cb.size),
    wrap_lem (cb.begin + i) cb.size,
    wrap_lem (cb.begin + cb.data_size) cb.size,
  )

  -- and the new ones follow them
  stored_at :
      (i : ℕ)
      → i < length buf
      → cb.data_size + length buf ≤ cb.size
      → byte_at stored cb.size cb.begin (cb.data_size + i) ≡ get_or buf i 0
  unfolding stored
  stored_at i h room = ground (
    arith,
    get_or-put_bytes (bytes_of cb.buffer) cb.size cb.end buf v.storage
        ((cb.begin + (cb.data_size + i)) % cb.size),
    wrap_lem (cb.begin + (cb.data_size + i)) cb.size,
    wrap_lem (cb.begin + cb.data_size) cb.size,
  )

  append_lem :
      cb.data_size + length buf ≤ cb.size
      → tabulate (cb.data_size + length buf) (byte_at stored cb.size cb.begin) ≡ contents cb ++ buf
  append_lem room =
      tabulate-add cb.data_size (length buf) (byte_at stored cb.size cb.begin)
      ∙ ap₂ ◌++◌ (tabulate_congr cb.data_size _ _ (λ i p. kept i p room)) (
          tabulate_congr (length buf) _ (λ i. get_or buf i 0) (λ i p. stored_at i p room)
          ∙ tabulate-get_or buf 0)

  -- A successful put appends the whole block.
  pub put-contents :
      let (done, cb') = circ_buffer_put cb buf in
      ◌≡◌ {A = Bool × List ℕ} (done, contents cb') (ByteQueue.put cb.size buf (contents cb))
  unfolding circ_buffer_put stored
  put-contents = rw length-tabulate (ground (arith, append_lem))
