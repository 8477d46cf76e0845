-- ===== src/Stream/Stranded.antt =====
-- What `stream_write` makes of a `write` that takes only a part of the bytes. The test of
-- `circ_buffer_put` against `false` is the wrong way round: the rest that is queued is reported as
-- an overflow and the transmit event stays off; the rest that is lost is reported as sent.
use kongjaexpress.Prelude.{
  ℕ, ◌+◌, ◌-◌, ◌≤◌, ◌<◌, ◌≡◌, ◌≢◌, refl, List, [], ◌∷◌, ◌++◌, false, arith, ltb, if◌then◌else◌,
  length, take, drop, not, nil_of_length, length-drop, ap, ap₂, ◌∙◌,
}
use kongjaexpress.CircBuffer.{CircBuffer, circ_buffer_is_empty, circ_buffer_put}
use kongjaexpress.CircBuffer.Inv.{IsValid, put-IsValid}
use kongjaexpress.CircBuffer.Contents.{contents, put-contents}
use kongjaexpress.Watcher.{EventLoop, watcher_watch_tx}
use kongjaexpress.Stream.{Stream, WriteResult, wrote, stream_write, queue_rest}
use kongjaexpress.Stream.Transmit.{length-contents, write-queued}

put_room :
    (cb : CircBuffer) (bytes : List ℕ)
    → (circ_buffer_put cb bytes).0 ≡ not (ltb cb.size (cb.data_size + length bytes))
unfolding circ_buffer_put
put_room cb bytes = ground arith

data_size-put :
    (cb : CircBuffer) (bytes : List ℕ) → cb.data_size ≤ (circ_buffer_put cb bytes).1.data_size
unfolding circ_buffer_put
data_size-put cb bytes = ground arith

put_grows :
    (cb : CircBuffer) (bytes : List ℕ)
    → cb.data_size + length bytes ≤ cb.size
    → (circ_buffer_put cb bytes).1.data_size ≡ cb.data_size + length bytes
unfolding circ_buffer_put
put_grows cb bytes h = ground arith

module _ {Loop : Type 0} ⦃ev : EventLoop Loop⦄ where
  -- On an empty queue, if `write` takes the first `n` bytes and not all, the bytes taken are those;
  -- if the rest fits, it is queued, `stream_write` returns false and the watcher stays as it was;
  -- if the rest does not fit, it is lost, `stream_write` returns true and the transmit event is
  -- watched for.
  pub write_partial :
      (s : Stream Loop) (bytes : List ℕ) (n : ℕ)
      → IsValid s.tx_buf
      → s.tx_buf.data_size ≡ 0
      → n < length bytes
      → let r = stream_write s bytes (wrote n) in
        let lost = ltb s.tx_buf.size (length bytes - n) in
        (r.result ≡ lost)
        × (r.out ≡ take n bytes)
        × (contents r.stream.tx_buf ≡ (if lost then [] else drop n bytes))
        × (r.stream.watcher ≡ (if lost then watcher_watch_tx s.watcher else s.watcher))
  unfolding stream_write circ_buffer_is_empty queue_rest
  write_partial s bytes n v e h = ground (
    arith,
    put-contents v (drop n bytes),
    put_room s.tx_buf (drop n bytes),
    length-drop n bytes,
    length-contents s.tx_buf,
    nil_of_length (contents s.tx_buf),
  )

  -- a client's writes in order: all that leaves the stream, and the stream after them
  pub write_all : List (List ℕ × WriteResult) → Stream Loop → List ℕ × Stream Loop
  write_all [] s = ([], s)
  write_all ((bytes, ret) ∷ ws) s =
      let r = stream_write s bytes ret in
      let (out, s') = write_all ws r.stream in (r.out ++ out, s')

  data_size-write :
      (s : Stream Loop) (bytes : List ℕ) (ret : WriteResult)
      → s.tx_buf.data_size ≢ 0
      → (stream_write s bytes ret).stream.tx_buf.data_size ≢ 0
  unfolding stream_write circ_buffer_is_empty
  data_size-write s bytes ret h = ground (arith, data_size-put s.tx_buf bytes)

  -- From a stream that holds bytes, any number of writes sends nothing, keeps bytes queued and
  -- leaves the watcher as it is: only a transmit event can send the bytes.
  pub write_all-sends_nothing :
      (ws : List (List ℕ × WriteResult)) (s : Stream Loop)
      → IsValid s.tx_buf
      → s.tx_buf.data_size ≢ 0
      → let (out, s') = write_all ws s in
        (out ≡ []) × (s'.watcher ≡ s.watcher) × (s'.tx_buf.data_size ≢ 0)
  unfolding write_all
  write_all-sends_nothing [] s v h = (refl, refl, h)
  write_all-sends_nothing ((bytes, ret) ∷ ws) s v h =
      let w = write-queued s v bytes ret h in
      let ih = write_all-sends_nothing ws _ w.3 (data_size-write s bytes ret h) in
      (ap₂ ◌++◌ w.0 ih.0, ih.1 ∙ w.2, ih.2)

  partial_queued :
      (s : Stream Loop) (bytes : List ℕ) (n : ℕ)
      → IsValid s.tx_buf
      → s.tx_buf.data_size ≡ 0
      → n < length bytes
      → length bytes - n ≤ s.tx_buf.size
      → let s' = (stream_write s bytes (wrote n)).stream in
        IsValid s'.tx_buf × (s'.tx_buf.data_size ≢ 0) × (s'.watcher ≡ s.watcher)
  unfolding stream_write circ_buffer_is_empty queue_rest
  partial_queued s bytes n v e h room = (
    ground (arith, put-IsValid (drop n bytes) v),
    ground (arith, put_grows s.tx_buf (drop n bytes), length-drop n bytes),
    ground (arith, put_room s.tx_buf (drop n bytes), length-drop n bytes),
  )

  -- A stream that does not watch for the transmit event, with an empty queue: after a partial write
  -- whose rest is queued, no sequence of further writes sends a byte or turns the event on.
  pub partial_write-stranded :
      (s : Stream Loop) (bytes : List ℕ) (n : ℕ) (ws : List (List ℕ × WriteResult))
      → IsValid s.tx_buf
      → s.tx_buf.data_size ≡ 0
      → n < length bytes
      → length bytes - n ≤ s.tx_buf.size
      → s.watcher.tx_watch ≡ false
      → let (out, s') = write_all ws (stream_write s bytes (wrote n)).stream in
        (out ≡ []) × (s'.watcher.tx_watch ≡ false) × (s'.tx_buf.data_size ≢ 0)
  partial_write-stranded s bytes n ws v e h room off =
      let (valid, held, same) = partial_queued s bytes n v e h room in
      let after = write_all-sends_nothing ws (stream_write s bytes (wrote n)).stream valid held in
      (after.0, ap (λ w. w.tx_watch) (after.1 ∙ same) ∙ off, after.2)
