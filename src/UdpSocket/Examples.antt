-- ===== src/UdpSocket/Examples.antt =====
-- A socket on descriptor 9.
use kongjaexpress.Prelude.{◌≡◌, refl, List, [], ◌∷◌, true, false, none, some, replicate}
use kongjaexpress.Watcher.{rx, tx, er}
use kongjaexpress.Watcher.Examples.{ActiveSet, active_sets}
use kongjaexpress.Stream.{WatcherEvent}
use kongjaexpress.UdpSocket.{
  UdpSocket, UdpEvent, tx_buf_avail, udp_socket_init, udp_socket_send, udp_watcher_callback,
}
use kongjaexpress.UdpSocket.Watching.{UdpCall, starts, events, use_all, use_all-init}

abbrev unused : UdpSocket ActiveSet
unused = record {
  sd = 0;
  watcher = record {
    rx_watch = false;
    tx_watch = false;
    er_watch = false;
    started = false;
    loop = λ t. false;
  };
  rx_buf = [];
  rx_buf_size = 0;
  rx_data_len = 0;
  fds = record { opened = 9 ∷ []; closed = [] };
}

-- An empty datagram is an error to the client.
empty_datagram : (udp_watcher_callback unused WatcherEvent.rx (some [])).0 ≡ UdpEvent.err
unfolding udp_watcher_callback
empty_datagram = refl

-- So is the send of one.
empty_send : (udp_socket_send unused (some 0) false).0 ≡ false
unfolding udp_socket_send
empty_send = refl

abbrev calls : List UdpCall
calls = starts ∷ events WatcherEvent.tx none ∷ events WatcherEvent.rx (some (1 ∷ 2 ∷ [])) ∷ []

use_all-init_example :
    let s₁ = use_all calls (udp_socket_init unused 9 (replicate 16 0) 16) in
    let s₂ = (udp_socket_send s₁ none true).1 in
    let r = udp_watcher_callback s₂ WatcherEvent.tx none in
    (active_sets.ev_is_active rx s₁.watcher.loop ≡ s₁.watcher.started)
    × (active_sets.ev_is_active er s₁.watcher.loop ≡ s₁.watcher.started)
    × ((udp_socket_send s₁ none true).0 ≡ false)
    × (active_sets.ev_is_active tx s₂.watcher.loop ≡ s₁.watcher.started)
    × (r.0 ≡ tx_buf_avail)
    × (active_sets.ev_is_active tx r.1.watcher.loop ≡ false)
use_all-init_example = use_all-init unused 9 (replicate 16 0) 16 calls none (λ t. refl)
