-- ===== src/Stream.antt =====
-- src/stream/stream.c and inc/stream.h: a descriptor with a watcher and a queue of bytes that the
-- kernel did not take yet.
--
-- What the system calls return is an argument: `write` and `read` are not part of the repository.
-- `bool` is 1 and 0 in inc/common.h. `circ_buffer_put` returns 0 on success and -1 on failure, so
-- the test `circ_buffer_put(…) == false` of `stream_write` holds when the put succeeds.
pub mod Transmit
pub mod Stranded
pub mod Sources
pub mod Queue
pub mod Examples
use kongjaexpress.Prelude.{
  ℕ, suc, ◌-◌, List, [], ◌++◌, Bool, true, false, not, Option, none, some, ltb, ◌==◌, if◌then◌else◌,
  length, take, drop, min, write_at,
}
use mathlib.Core.Option
use kongjaexpress.CircBuffer.{
  CircBuffer, circ_buffer_init, circ_buffer_deinit, circ_buffer_is_empty, circ_buffer_peek,
  circ_buffer_advance, circ_buffer_put,
}
use kongjaexpress.Watcher.{
  EventLoop, Watcher, watcher_init_with_fd, watcher_watch_rx, watcher_watch_err, watcher_watch_tx,
  watcher_no_watch_tx, watcher_start, watcher_stop,
}

pub record Stream (Loop : Type 0) : Type 0 where
  pub watcher : Watcher Loop
  pub rx_buf : List ℕ
  pub rx_buf_size : ℕ
  pub rx_data_len : ℕ
  pub tx_buf : CircBuffer

-- `stream_event_t`
pub data StreamEvent : Type 0 where
  rx eof err tx : StreamEvent

-- what `write` returns: a count of bytes, or -1 with `errno` EWOULDBLOCK or EAGAIN, or another
pub data WriteResult : Type 0 where
  wrote : ℕ → WriteResult
  would_block : WriteResult
  failed : WriteResult

-- what `read` returns: the bytes (one at least), 0, or -1
pub data ReadResult : Type 0 where
  got : List ℕ → ReadResult
  closed : ReadResult
  broken : ReadResult

-- a call that writes to the descriptor: its result, the bytes that the kernel took, the new stream
pub record Sent (Loop R : Type 0) : Type 0 where
  pub result : R
  pub out : List ℕ
  pub stream : Stream Loop

-- the local array of the transmit handler, as far as the peek fills it
abbrev pub copied : Option (List ℕ) → List ℕ
copied none = []
copied (some bs) = bs

-- `watcher_event_t`
pub data WatcherEvent : Type 0 where
  rx tx error : WatcherEvent

module _ {Loop : Type 0} ⦃ev : EventLoop Loop⦄ where
  tx_advanced : Stream Loop → ℕ → Stream Loop
  tx_advanced s ret =
      let cb = (circ_buffer_advance s.tx_buf ret).1 in
      if circ_buffer_is_empty cb
      then record s { tx_buf = cb; watcher = watcher_no_watch_tx s.watcher }
      else record s { tx_buf = cb }

  -- The copy of `circ_buffer_peek` is what `write` is given, at most 128 bytes. `none` is `CRASH()`.
  unfoldable pub stream_handle_tx_event : Stream Loop → WriteResult → Option (Sent Loop (List ℕ))
  unfolding tx_advanced
  stream_handle_tx_event s ret =
      let len = min s.tx_buf.data_size 128 in
      let buffer = copied (circ_buffer_peek s.tx_buf len) in
      if circ_buffer_is_empty s.tx_buf
      then some (record {
        result = [];
        out = [];
        stream = record s { watcher = watcher_no_watch_tx s.watcher };
      })
      else elim ret [
        | wrote (suc n) ↦
            some (record {
              result = buffer;
              out = take (suc n) buffer;
              stream = tx_advanced s (suc n);
            })
        | _ ↦ none
      ]

  -- the call in the case of a transmit event, which passes no event on
  no_event : Sent Loop (List ℕ) → Sent Loop (Option StreamEvent)
  no_event r = record { result = none; out = r.out; stream = r.stream }

  -- What is read goes to the start of `rx_buf`. The result is the event for `stream->cb`, if any.
  unfoldable pub stream_watcher_callback :
      Stream Loop
      → WatcherEvent
      → ReadResult
      → WriteResult
      → Option (Sent Loop (Option StreamEvent))
  unfolding no_event
  stream_watcher_callback s WatcherEvent.rx (got bs) _ = some (record {
    result = some StreamEvent.rx;
    out = [];
    stream = record s { rx_buf = write_at s.rx_buf 0 bs; rx_data_len = length bs };
  })
  stream_watcher_callback s WatcherEvent.rx closed _ =
      some (record { result = some eof; out = []; stream = s })
  stream_watcher_callback s WatcherEvent.rx broken _ =
      some (record { result = some err; out = []; stream = s })
  stream_watcher_callback s WatcherEvent.tx _ ret =
      Option.map no_event (stream_handle_tx_event s ret)
  stream_watcher_callback s WatcherEvent.error _ _ =
      some (record { result = some err; out = []; stream = s })

  -- the rest of `stream_write` after a `write` that took `ret` bytes
  queue_rest : Stream Loop → List ℕ → ℕ → Sent Loop Bool
  queue_rest s bytes ret =
      let (done, cb) = circ_buffer_put s.tx_buf (drop ret bytes) in
      if done
      then record { result = false; out = take ret bytes; stream = record s { tx_buf = cb } }
      else record {
        result = true;
        out = take ret bytes;
        stream = record s { tx_buf = cb; watcher = watcher_watch_tx s.watcher };
      }

  -- The write result is used only where the code calls `write`.
  unfoldable pub stream_write : Stream Loop → List ℕ → WriteResult → Sent Loop Bool
  unfolding queue_rest
  stream_write s bytes ret =
      if circ_buffer_is_empty s.tx_buf
      then elim ret [
        | wrote n ↦
            if n == length bytes
            then record { result = true; out = bytes; stream = s }
            else queue_rest s bytes n
        | would_block ↦ queue_rest s bytes 0
        | failed ↦ record { result = false; out = []; stream = s }
      ]
      else (let (done, cb) = circ_buffer_put s.tx_buf bytes in
          record { result = done; out = []; stream = record s { tx_buf = cb } })

  -- `malloc` of the transmit buffer is an argument; its failure is ignored by the code.
  unfoldable pub stream_init_with_fd : Loop → List ℕ → ℕ → Option (List ℕ) → ℕ → Stream Loop
  stream_init_with_fd l rx_buf rx_buf_size storage tx_buf_size = record {
    watcher = watcher_watch_err (watcher_watch_rx (watcher_init_with_fd l));
    rx_buf = rx_buf;
    rx_buf_size = rx_buf_size;
    rx_data_len = 0;
    tx_buf = (circ_buffer_init storage tx_buf_size).1;
  }

  unfoldable pub stream_start : Stream Loop → Stream Loop
  stream_start s = record s { watcher = watcher_start s.watcher }

  unfoldable pub stream_stop : Stream Loop → Stream Loop
  stream_stop s = record s { watcher = watcher_stop s.watcher }

  -- `close` of the descriptor is left out.
  unfoldable pub stream_deinit : Stream Loop → Stream Loop
  unfolding stream_stop
  stream_deinit s = stream_stop (record s { tx_buf = circ_buffer_deinit s.tx_buf })
