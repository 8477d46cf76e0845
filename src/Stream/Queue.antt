-- ===== src/Stream/Queue.antt =====
-- What a write leaves of the queue and of the rest of the stream.
use kongjaexpress.Prelude.{
  ℕ, zero, suc, ◌-◌, ◌≤◌, ◌≡◌, refl, ap, ◌∷◌, List, [], arith, Bool, true, false, not, ◌&&◌, leb,
  length, take, length-drop,
}
use kongjaexpress.CircBuffer.{circ_buffer_is_empty, circ_buffer_put}
use kongjaexpress.Watcher.{EventLoop}
use kongjaexpress.Stream.{Stream, WriteResult, wrote, would_block, failed, queue_rest, stream_write}

pub take_whole : (n : ℕ) (xs : List ℕ) → length xs ≤ n → take n xs ≡ xs
take_whole zero [] h = refl
take_whole (suc n) [] h = refl
take_whole zero (x ∷ xs) h = absurd (omega arith)
take_whole (suc n) (x ∷ xs) h = ap (λ t. x ∷ t) (take_whole n xs (omega arith))

module _ {Loop : Type 0} ⦃ev : EventLoop Loop⦄ (s : Stream Loop) (bytes : List ℕ) where
  -- A write with bytes in the queue sends nothing and leaves bytes there.
  pub write_waiting :
      (ret : WriteResult)
      → circ_buffer_is_empty s.tx_buf ≡ false
      → let r = stream_write s bytes ret in
        (r.out ≡ []) × (circ_buffer_is_empty r.stream.tx_buf ≡ false)
  unfolding stream_write circ_buffer_is_empty circ_buffer_put
  write_waiting ret h = rw h (refl, ground arith)

  -- A write with an empty queue, of which `n` bytes are taken: nothing is left in the queue if all
  -- bytes were taken or the others do not fit.
  abbrev pub nothing_left : ℕ → Bool
  nothing_left n = not (leb 1 (length bytes - n) && leb (length bytes - n) s.tx_buf.size)

  pub write_taken :
      (n : ℕ)
      → circ_buffer_is_empty s.tx_buf ≡ true
      → let r = stream_write s bytes (wrote n) in
        (r.out ≡ take n bytes) × (circ_buffer_is_empty r.stream.tx_buf ≡ nothing_left n)
  unfolding stream_write queue_rest circ_buffer_is_empty circ_buffer_put
  write_taken n h = ground (arith, length-drop n bytes, take_whole n bytes, h)

  pub write_refused :
      circ_buffer_is_empty s.tx_buf ≡ true
      → let r = stream_write s bytes would_block in
        (r.out ≡ []) × (circ_buffer_is_empty r.stream.tx_buf ≡ nothing_left 0)
  unfolding stream_write queue_rest circ_buffer_is_empty circ_buffer_put
  write_refused h = ground (arith, length-drop 0 bytes, h)

  pub write_failed :
      circ_buffer_is_empty s.tx_buf ≡ true
      → let r = stream_write s bytes failed in
        (r.out ≡ []) × (circ_buffer_is_empty r.stream.tx_buf ≡ true)
  unfolding stream_write circ_buffer_is_empty
  write_failed h = rw h (refl, h)

  pub write-rx :
      (ret : WriteResult)
      → let r = stream_write s bytes ret in
        (r.stream.rx_buf ≡ s.rx_buf) × (r.stream.tx_buf.size ≡ s.tx_buf.size)
  unfolding stream_write queue_rest circ_buffer_put
  write-rx ret = ground arith
