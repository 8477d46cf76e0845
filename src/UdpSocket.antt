-- ===== src/UdpSocket.antt =====
-- src/net/udp_socket.c and inc/udp_socket.h: a datagram socket. What `socket`, `bind`, `recvfrom`
-- and `sendto` return is an argument; addresses are left out.
pub mod Watching
mod Examples
use kongjaexpress.Prelude.{
  ℕ, suc, List, [], ◌∷◌, Bool, true, false, Option, none, some, if◌then◌else◌, length, write_at,
}
use kongjaexpress.Watcher.{
  EventLoop, Watcher, watcher_init_with_fd, watcher_watch_rx, watcher_watch_tx, watcher_watch_err,
  watcher_no_watch_tx, watcher_start, watcher_stop,
}
use kongjaexpress.Stream.{WatcherEvent}
use kongjaexpress.TcpConnector.{Descriptors, close_fd}

-- `udp_socket_event_t`
pub data UdpEvent : Type 0 where
  rx err tx_buf_avail : UdpEvent

-- What the system does at the set-up: `socket` fails, or gives a descriptor for which `bind` fails
-- or does not.
pub data UdpSetup : Type 0 where
  no_socket : UdpSetup
  not_bound bound : ℕ → UdpSetup

-- `sd` is the descriptor of the watcher; `fds` has the descriptors that were opened and closed.
pub record UdpSocket (Loop : Type 0) : Type 0 where
  pub sd : ℕ
  pub watcher : Watcher Loop
  pub rx_buf : List ℕ
  pub rx_buf_size : ℕ
  pub rx_data_len : ℕ
  pub fds : Descriptors

module _ {Loop : Type 0} ⦃ev : EventLoop Loop⦄ where
  -- The event for `sock->cb`. `recvfrom` gives a datagram, which may be empty, or `none` for -1.
  unfoldable pub udp_watcher_callback :
      UdpSocket Loop → WatcherEvent → Option (List ℕ) → UdpEvent × UdpSocket Loop
  udp_watcher_callback s WatcherEvent.rx (some (b ∷ bs)) =
      (rx, record s { rx_buf = write_at s.rx_buf 0 (b ∷ bs); rx_data_len = length (b ∷ bs) })
  udp_watcher_callback s WatcherEvent.rx (some []) = (err, s)
  udp_watcher_callback s WatcherEvent.rx none = (err, s)
  udp_watcher_callback s WatcherEvent.tx _ =
      (tx_buf_avail, record s { watcher = watcher_no_watch_tx s.watcher })
  udp_watcher_callback s WatcherEvent.error _ = (err, s)

  unfoldable pub udp_socket_init : UdpSocket Loop → ℕ → List ℕ → ℕ → UdpSocket Loop
  udp_socket_init s sd rx_buf rx_buf_size = record s {
    sd = sd;
    rx_buf = rx_buf;
    rx_buf_size = rx_buf_size;
    rx_data_len = 0;
    watcher =
        watcher_watch_err
          (watcher_watch_tx (watcher_watch_rx (watcher_init_with_fd s.watcher.loop)));
  }

  unfoldable pub udp_socket_start : UdpSocket Loop → UdpSocket Loop
  udp_socket_start s = record s { watcher = watcher_start s.watcher }

  unfoldable pub udp_socket_stop : UdpSocket Loop → UdpSocket Loop
  udp_socket_stop s = record s { watcher = watcher_stop s.watcher }

  unfoldable pub udp_socket_deinit : UdpSocket Loop → UdpSocket Loop
  unfolding udp_socket_stop
  udp_socket_deinit s =
      let stopped = udp_socket_stop s in
      record stopped { fds = close_fd (some stopped.sd) stopped.fds }

  -- `sendto` gives a count of bytes, or `none` for -1; `again` is whether `errno` is EWOULDBLOCK or
  -- EAGAIN then.
  unfoldable pub udp_socket_send : UdpSocket Loop → Option ℕ → Bool → Bool × UdpSocket Loop
  udp_socket_send s ret again =
      let blocked = record s { watcher = watcher_watch_tx s.watcher } in
      elim ret [ some (suc n) ↦ (true, s) | _ ↦ (false, if again then blocked else s) ]

  -- `socket`
  abbrev pub opened : ℕ → UdpSocket Loop → UdpSocket Loop
  opened sd s = record s { fds = record (s.fds) { opened = sd ∷ s.fds.opened } }

  -- `udp_socket_unix_domain_init` has the same body for another address.
  unfoldable pub udp_socket_ipv4_init :
      UdpSocket Loop → UdpSetup → List ℕ → ℕ → Bool × UdpSocket Loop
  udp_socket_ipv4_init s no_socket rx_buf rx_buf_size = (false, s)
  udp_socket_ipv4_init s (not_bound sd) rx_buf rx_buf_size =
      (false, record s { fds = close_fd (some sd) (opened sd s).fds })
  udp_socket_ipv4_init s (bound sd) rx_buf rx_buf_size =
      (true, udp_socket_init (opened sd s) sd rx_buf rx_buf_size)
