-- ===== src/Stream/Sources.antt =====
-- A stream keeps its watcher in step with the event loop.
use kongjaexpress.Prelude.{ℕ, zero, suc, ◌≡◌, arith, List, false, Option, some}
use kongjaexpress.Watcher.{
  EventLoop, Watcher, Target, rx, tx, er, call, watcher_watch_tx, watcher_no_watch_tx,
  watcher_watch_rx, watcher_watch_err, watcher_init_with_fd,
}
use kongjaexpress.Watcher.Sync.{
  IsSynced, init-IsSynced, watch-IsSynced, no_watch-IsSynced, start-IsSynced, stop-IsSynced,
  stopped_flags,
}
use kongjaexpress.Stream.{
  Stream, StreamEvent, Sent, WriteResult, wrote, would_block, failed, WatcherEvent, ReadResult, got,
  closed, broken, tx_advanced, stream_handle_tx_event, stream_watcher_callback, queue_rest,
  stream_write, stream_init_with_fd, stream_start, stream_stop, stream_deinit,
}

module _ {Loop : Type 0} ⦃ev : EventLoop Loop⦄ where
  -- no `ev_io` of a watcher is active
  abbrev pub IsInactive : Loop → Type 0
  IsInactive l = (t : Target) → ev.ev_is_active t l ≡ false

  pub watch_tx-IsSynced : (w : Watcher Loop) → IsSynced w → IsSynced (watcher_watch_tx w)
  watch_tx-IsSynced w h = unfold call in watch-IsSynced tx w h

  pub no_watch_tx-IsSynced : (w : Watcher Loop) → IsSynced w → IsSynced (watcher_no_watch_tx w)
  no_watch_tx-IsSynced w h = unfold call in no_watch-IsSynced tx w h

  pub write-IsSynced :
      (st : Stream Loop) (bs : List ℕ) (wr : WriteResult)
      → IsSynced st.watcher
      → IsSynced (stream_write st bs wr).stream.watcher
  unfolding stream_write queue_rest
  write-IsSynced st bs (wrote n) h = ground (arith, watch_tx-IsSynced st.watcher h)
  write-IsSynced st bs would_block h = ground (arith, watch_tx-IsSynced st.watcher h)
  write-IsSynced st bs failed h = ground arith

  pub callback-IsSynced :
      (st : Stream Loop) (e : WatcherEvent) (rd : ReadResult) (wr : WriteResult)
      (r : Sent Loop (Option StreamEvent))
      → stream_watcher_callback st e rd wr ≡ some r
      → IsSynced st.watcher
      → IsSynced r.stream.watcher
  unfolding stream_watcher_callback stream_handle_tx_event tx_advanced
  callback-IsSynced st WatcherEvent.rx (got bs) wr r called h = ground arith
  callback-IsSynced st WatcherEvent.rx closed wr r called h = ground arith
  callback-IsSynced st WatcherEvent.rx broken wr r called h = ground arith
  callback-IsSynced st WatcherEvent.tx rd (wrote (suc n)) r called h =
      ground (arith, no_watch_tx-IsSynced st.watcher h)
  callback-IsSynced st WatcherEvent.tx rd (wrote zero) r called h =
      ground (arith, no_watch_tx-IsSynced st.watcher h)
  callback-IsSynced st WatcherEvent.tx rd would_block r called h =
      ground (arith, no_watch_tx-IsSynced st.watcher h)
  callback-IsSynced st WatcherEvent.tx rd failed r called h =
      ground (arith, no_watch_tx-IsSynced st.watcher h)
  callback-IsSynced st WatcherEvent.error rd wr r called h = ground arith

  pub started-IsSynced :
      (l : Loop) (rx_buf : List ℕ) (n m : ℕ) (storage : Option (List ℕ))
      → IsInactive l
      → IsSynced (stream_start (stream_init_with_fd l rx_buf n storage m)).watcher
  unfolding stream_start stream_init_with_fd call
  started-IsSynced l rx_buf n m storage h =
      start-IsSynced (watcher_watch_err (watcher_watch_rx (watcher_init_with_fd l))) (
        watch-IsSynced er (watcher_watch_rx (watcher_init_with_fd l))
          (watch-IsSynced rx (watcher_init_with_fd l) (init-IsSynced l h)))

  -- A stream that is released leaves no active `ev_io`.
  pub deinit-IsInactive :
      (st : Stream Loop) → IsSynced st.watcher → IsInactive (stream_deinit st).watcher.loop
  unfolding stream_deinit stream_stop
  deinit-IsInactive st h rx = ground (arith, stop-IsSynced st.watcher h, stopped_flags st.watcher)
  deinit-IsInactive st h tx = ground (arith, stop-IsSynced st.watcher h, stopped_flags st.watcher)
  deinit-IsInactive st h er = ground (arith, stop-IsSynced st.watcher h, stopped_flags st.watcher)
