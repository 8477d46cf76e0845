-- ===== src/TcpServer.antt =====
-- src/net/tcp_server.c, tcp_server_ipv4.c, tcp_server_unix_domain.c and inc/tcp_server.h: a socket
-- that listens. What `socket`, `bind`, `listen` and `accept` return is an argument; the address and
-- the options of the socket are left out.
pub mod Listening
pub mod Examples
use kongjaexpress.Prelude.{ℕ, List, ◌∷◌, Bool, true, false, Option, none, some, if◌then◌else◌}
use kongjaexpress.Watcher.{
  EventLoop, Watcher, watcher_init_with_fd, watcher_watch_rx, watcher_start, watcher_stop,
}
use kongjaexpress.TcpConnector.{Descriptors, close_fd}

-- `tcp_server_type_t`
pub data ServerType : Type 0 where
  ipv4 unix_domain : ServerType

-- What the system does at the set-up of a server: `socket` fails, or gives a descriptor for which
-- `bind` fails, or `listen` fails, or neither.
pub data Setup : Type 0 where
  no_socket : Setup
  not_bound not_listening ready : ℕ → Setup

-- A descriptor of -1 is `none`; `fds` has the descriptors that were opened and closed.
pub record TcpServer (Loop : Type 0) : Type 0 where
  pub sd : Option ℕ
  pub is_listening : Bool
  pub server_type : ServerType
  pub watcher : Watcher Loop
  pub fds : Descriptors

-- `socket`
abbrev pub opened_fd : {Loop : Type 0} → ℕ → TcpServer Loop → TcpServer Loop
opened_fd sd s = record s { fds = record (s.fds) { opened = sd ∷ s.fds.opened } }

module _ {Loop : Type 0} ⦃ev : EventLoop Loop⦄ where
  -- The `rx_event` of both kinds of server has the same body: it is `tcp_server_rx_event` below.
  unfoldable pub tcp_server_init : TcpServer Loop → ℕ → TcpServer Loop
  tcp_server_init s sd = record s {
    sd = some sd;
    is_listening = false;
    watcher = watcher_watch_rx (watcher_init_with_fd s.watcher.loop);
  }

  unfoldable pub tcp_server_start : TcpServer Loop → TcpServer Loop
  tcp_server_start s =
      if s.is_listening
      then s
      else record s { is_listening = true; watcher = watcher_start s.watcher }

  unfoldable pub tcp_server_stop : TcpServer Loop → TcpServer Loop
  tcp_server_stop s =
      if s.is_listening
      then record s { is_listening = false; watcher = watcher_stop s.watcher }
      else s

  unfoldable pub tcp_server_deinit : TcpServer Loop → TcpServer Loop
  unfolding tcp_server_stop
  tcp_server_deinit s =
      let stopped = tcp_server_stop s in
      record stopped { sd = none; fds = close_fd stopped.sd stopped.fds }

  -- the calls of `socket`, `bind` and `listen` that both kinds of server make
  abbrev pub set_up : Setup → TcpServer Loop → Bool × TcpServer Loop
  set_up no_socket s = (false, s)
  set_up (not_bound sd) s = (false, record s { fds = close_fd (some sd) (opened_fd sd s).fds })
  set_up (not_listening sd) s = (false, record s { fds = close_fd (some sd) (opened_fd sd s).fds })
  set_up (ready sd) s = (true, tcp_server_init (opened_fd sd s) sd)

  -- 0 is true, and -1 false.
  unfoldable pub tcp_server_ipv4_init : TcpServer Loop → Setup → Bool × TcpServer Loop
  tcp_server_ipv4_init s setup = set_up setup (record s { server_type = ipv4; sd = none })

  -- The function returns -1 on every path.
  unfoldable pub tcp_server_unix_domain_init : TcpServer Loop → Setup → Bool × TcpServer Loop
  tcp_server_unix_domain_init s setup =
      (false, (set_up setup (record s { server_type = unix_domain; sd = none })).1)

-- `accept`, and the callback of the client with the descriptor that it gives
unfoldable pub tcp_server_rx_event : {W : Type 0} → (ℕ → W → W) → Option ℕ → W → W
tcp_server_rx_event conn_cb none w = w
tcp_server_rx_event conn_cb (some newsd) w = conn_cb newsd w
