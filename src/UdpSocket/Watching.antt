-- ===== src/UdpSocket/Watching.antt =====
-- What a datagram socket waits for.
use kongjaexpress.Prelude.{
  ℕ, zero, suc, ◌≡◌, refl, arith, List, [], ◌∷◌, Bool, true, false, Option, none, some,
}
use kongjaexpress.Watcher.{
  EventLoop, Watcher, rx, tx, er, call, watcher_watch_rx, watcher_watch_tx, watcher_watch_err,
  watcher_no_watch_tx, watcher_init_with_fd,
}
use kongjaexpress.Watcher.Sync.{
  IsSynced, init-IsSynced, watch-IsSynced, start-IsSynced, stop-IsSynced, started_flags,
  stopped_flags,
}
use kongjaexpress.Stream.{WatcherEvent}
use kongjaexpress.Stream.Sources.{IsInactive, watch_tx-IsSynced, no_watch_tx-IsSynced}
use kongjaexpress.UdpSocket.{
  UdpSocket, tx_buf_avail, udp_watcher_callback, udp_socket_init, udp_socket_start, udp_socket_stop,
  udp_socket_send,
}

-- what a client and the event loop do with a socket
pub data UdpCall : Type 0 where
  starts stops : UdpCall
  sends : Option ℕ → Bool → UdpCall
  events : WatcherEvent → Option (List ℕ) → UdpCall

module _ {Loop : Type 0} ⦃ev : EventLoop Loop⦄ where
  unfoldable pub use_socket : UdpCall → UdpSocket Loop → UdpSocket Loop
  use_socket starts s = udp_socket_start s
  use_socket stops s = udp_socket_stop s
  use_socket (sends ret again) s = (udp_socket_send s ret again).1
  use_socket (events e datagram) s = (udp_watcher_callback s e datagram).1

  unfoldable pub use_all : List UdpCall → UdpSocket Loop → UdpSocket Loop
  use_all [] s = s
  use_all (c ∷ cs) s = use_all cs (use_socket c s)

  -- It is watched for datagrams and for errors.
  pub record IsListening (w : Watcher Loop) : Type 0 where
    pub synced : IsSynced w
    pub flags : (w.rx_watch ≡ true) × (w.er_watch ≡ true)

  watch_tx_flags :
      (w : Watcher Loop)
      → ((watcher_watch_tx w).started ≡ w.started)
        × ((watcher_watch_tx w).rx_watch ≡ w.rx_watch)
        × ((watcher_watch_tx w).tx_watch ≡ true)
        × ((watcher_watch_tx w).er_watch ≡ w.er_watch)
  unfolding watcher_watch_tx
  watch_tx_flags w = ground arith

  no_watch_tx_flags :
      (w : Watcher Loop)
      → ((watcher_no_watch_tx w).started ≡ w.started)
        × ((watcher_no_watch_tx w).rx_watch ≡ w.rx_watch)
        × ((watcher_no_watch_tx w).tx_watch ≡ false)
        × ((watcher_no_watch_tx w).er_watch ≡ w.er_watch)
  unfolding watcher_no_watch_tx
  no_watch_tx_flags w = ground arith

  watch_tx-IsListening : (w : Watcher Loop) → IsListening w → IsListening (watcher_watch_tx w)
  watch_tx-IsListening w h = record {
    synced = watch_tx-IsSynced w h.synced;
    flags = ground (arith, watch_tx_flags w);
  }

  use-IsListening :
      (c : UdpCall) (s : UdpSocket Loop)
      → IsListening s.watcher
      → IsListening (use_socket c s).watcher
  unfolding use_socket udp_socket_start udp_socket_stop udp_socket_send udp_watcher_callback
  use-IsListening starts s h = record {
    synced = start-IsSynced s.watcher h.synced;
    flags = ground (arith, started_flags s.watcher);
  }
  use-IsListening stops s h = record {
    synced = stop-IsSynced s.watcher h.synced;
    flags = ground (arith, stopped_flags s.watcher);
  }
  use-IsListening (sends (some (suc n)) again) s h = h
  use-IsListening (sends (some zero) true) s h = watch_tx-IsListening s.watcher h
  use-IsListening (sends (some zero) false) s h = h
  use-IsListening (sends none true) s h = watch_tx-IsListening s.watcher h
  use-IsListening (sends none false) s h = h
  use-IsListening (events WatcherEvent.rx (some (b ∷ bs))) s h = h
  use-IsListening (events WatcherEvent.rx (some [])) s h = h
  use-IsListening (events WatcherEvent.rx none) s h = h
  use-IsListening (events WatcherEvent.tx datagram) s h = record {
    synced = no_watch_tx-IsSynced s.watcher h.synced;
    flags = ground (arith, no_watch_tx_flags s.watcher);
  }
  use-IsListening (events WatcherEvent.error datagram) s h = h

  use_all-IsListening :
      (cs : List UdpCall) (s : UdpSocket Loop)
      → IsListening s.watcher
      → IsListening (use_all cs s).watcher
  unfolding use_all
  use_all-IsListening [] s h = h
  use_all-IsListening (c ∷ cs) s h = use_all-IsListening cs (use_socket c s) (use-IsListening c s h)

  init-IsListening :
      (s : UdpSocket Loop) (sd : ℕ) (buf : List ℕ) (size : ℕ)
      → IsInactive s.watcher.loop
      → IsListening (udp_socket_init s sd buf size).watcher
  unfolding udp_socket_init call watcher_watch_rx watcher_watch_tx watcher_watch_err
      watcher_init_with_fd
  init-IsListening s sd buf size h =
      let w = watcher_init_with_fd s.watcher.loop in
      let w₁ = watcher_watch_rx w in
      record {
        synced =
            watch-IsSynced er (watcher_watch_tx w₁)
              (watch-IsSynced tx w₁ (watch-IsSynced rx w (init-IsSynced s.watcher.loop h)));
        flags = (refl, refl);
      }

  -- A socket whose `ev_io` are inactive is set up, and a client and the event loop do anything with
  -- it. Then the event loop watches for datagrams and for errors exactly while the socket is started.
  -- If a send fails then because it would block, the event loop watches for room exactly while the
  -- socket is started, and the event of it tells the client that there is room and ends this watch.
  pub use_all-init :
      (s : UdpSocket Loop) (sd : ℕ) (buf : List ℕ) (size : ℕ) (cs : List UdpCall)
      (datagram : Option (List ℕ))
      → IsInactive s.watcher.loop
      → let s₁ = use_all cs (udp_socket_init s sd buf size) in
        let (sent, s₂) = udp_socket_send s₁ none true in
        let (told, s₃) = udp_watcher_callback s₂ WatcherEvent.tx datagram in
        (ev.ev_is_active rx s₁.watcher.loop ≡ s₁.watcher.started)
        × (ev.ev_is_active er s₁.watcher.loop ≡ s₁.watcher.started)
        × (sent ≡ false)
        × (ev.ev_is_active tx s₂.watcher.loop ≡ s₁.watcher.started)
        × (told ≡ tx_buf_avail)
        × (ev.ev_is_active tx s₃.watcher.loop ≡ false)
  unfolding udp_socket_send udp_watcher_callback
  use_all-init s sd buf size cs datagram h =
      let s₁ = use_all cs (udp_socket_init s sd buf size) in
      let h₁ =
        use_all-IsListening cs (udp_socket_init s sd buf size) (init-IsListening s sd buf size h) in
      let w = s₁.watcher in
      let w₂ = watcher_watch_tx w in
      let k₂ = watch_tx-IsSynced w h₁.synced in
      let k₃ = no_watch_tx-IsSynced w₂ k₂ in
      (
        ground (arith, h₁.synced, h₁.flags),
        ground (arith, h₁.synced, h₁.flags),
        refl,
        ground (arith, k₂, watch_tx_flags w),
        refl,
        ground (arith, k₃, no_watch_tx_flags w₂),
      )
