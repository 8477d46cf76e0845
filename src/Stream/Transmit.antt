-- ===== src/Stream/Transmit.antt =====
-- Bytes leave a stream in the order in which they were queued.
use kongjaexpress.Prelude.{
  ℕ, suc, ◌≤◌, ◌≡◌, ◌≢◌, refl, List, [], ◌++◌, Bool, some, arith, ◌==◌, length, take, drop, min,
  length-take, length-tabulate, take-take, take-append-drop, Bool-cases, ==_iff, inl, inr,
}
use kongjaexpress.ByteQueue
use kongjaexpress.CircBuffer.{
  CircBuffer, circ_buffer_is_empty, circ_buffer_peek, circ_buffer_advance,
}
use kongjaexpress.CircBuffer.Inv.{IsValid, advance-IsValid, put-IsValid}
use kongjaexpress.CircBuffer.Contents.{contents, peek-contents, advance-contents, put-contents}
use kongjaexpress.Watcher.{EventLoop}
use kongjaexpress.Stream.{
  Stream, Sent, WriteResult, copied, wrote, tx_advanced, stream_handle_tx_event, stream_write,
}

pub length-contents : (cb : CircBuffer) → length (contents cb) ≡ cb.data_size
length-contents cb = length-tabulate cb.data_size _

module _ {cb : CircBuffer} (v : IsValid cb) (n : ℕ) (enough : n ≤ cb.data_size) where
  pub copied-peek : copied (circ_buffer_peek cb n) ≡ take n (contents cb)
  copied-peek = rw (peek-contents v n, length-contents) (ground arith)

  pub contents-advance : contents (circ_buffer_advance cb n).1 ≡ drop n (contents cb)
  contents-advance = ground (arith, advance-contents v n, length-contents cb)

module _ {Loop : Type 0} ⦃ev : EventLoop Loop⦄ (s : Stream Loop) (v : IsValid s.tx_buf) where
  advanced_buf : (n : ℕ) → (tx_advanced s n).tx_buf ≡ (circ_buffer_advance s.tx_buf n).1
  unfolding tx_advanced
  advanced_buf n = ground arith

  -- On a transmit event with bytes in the queue, if `write` takes one byte or more of the at most
  -- 128 that it is given, the bytes taken are the oldest of the queue in their order, exactly those
  -- leave the queue, and the buffer stays valid.
  pub tx_event-contents :
      (n : ℕ)
      → suc n ≤ min s.tx_buf.data_size 128
      → (r : Sent Loop (List ℕ)) × (stream_handle_tx_event s (wrote (suc n)) ≡ some r)
        × (r.out ++ contents r.stream.tx_buf ≡ contents s.tx_buf)
        × (length r.out ≡ suc n)
        × IsValid r.stream.tx_buf
  unfolding stream_handle_tx_event circ_buffer_is_empty
  tx_event-contents n h = (
    record { result = buffer; out = take (suc n) buffer; stream = tx_advanced s (suc n) },
    ground arith,
    rw (advanced_buf, taken, contents-advance v (suc n) (omega arith))
        (take-append-drop (suc n) (contents s.tx_buf)),
    rw taken (omega (arith, length-take (suc n) (contents s.tx_buf), length-contents s.tx_buf)),
    rw advanced_buf (advance-IsValid (suc n) v),
  )
    where
      len : ℕ
      len = min s.tx_buf.data_size 128

      buffer : List ℕ
      buffer = copied (circ_buffer_peek s.tx_buf len)

      taken : take (suc n) buffer ≡ take (suc n) (contents s.tx_buf)
      taken = rw (copied-peek v len (omega arith)) (take-take (suc n) len (contents s.tx_buf) h)

  -- A write to a stream with bytes in its queue sends nothing. It queues all the bytes behind
  -- the others or, where they do not fit, reports failure and changes nothing.
  pub write-queued :
      (bytes : List ℕ) (ret : WriteResult)
      → s.tx_buf.data_size ≢ 0
      → let r = stream_write s bytes ret in
        (r.out ≡ [])
        × (◌≡◌ {A = Bool × List ℕ}
            (r.result, contents r.stream.tx_buf)
            (ByteQueue.put s.tx_buf.size bytes (contents s.tx_buf)))
        × (r.stream.watcher ≡ s.watcher)
        × IsValid r.stream.tx_buf
  unfolding stream_write circ_buffer_is_empty
  write-queued bytes ret h = elim (Bool-cases (s.tx_buf.data_size == 0)) [
    | inl e ↦ absurd (h ((==_iff _ _).0 e))
    | inr e ↦ rw e (refl, put-contents v bytes, refl, put-IsValid bytes v)
  ]
