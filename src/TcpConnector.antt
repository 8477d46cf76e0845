-- ===== src/TcpConnector.antt =====
-- src/net/tcp_connector.c and inc/tcp_connector.h: a connection attempt that does not block. What
-- `socket`, `connect` and `getsockopt` return is an argument. `socket`, `close` and the hand-over
-- of a descriptor are kept in a record of descriptors, the last one first.
use kongjaexpress.Prelude.{ℕ, List, ◌∷◌, Bool, true, false, Option, none, some, if◌then◌else◌}
use kongjaexpress.Watcher.{
  EventLoop, Watcher, watcher_init_with_fd, watcher_watch_tx, watcher_start, watcher_stop,
}

-- `tcp_connector_status_t`
pub data Status : Type 0 where
  success failure in_progress timeout : Status

-- What the system does on an attempt: `socket` fails, or gives a descriptor on which `connect`
-- returns 0, fails with EINPROGRESS, or fails otherwise.
pub data Attempt : Type 0 where
  no_socket : Attempt
  connected pending refused : ℕ → Attempt

-- the descriptors that were opened, and those that were closed
pub record Descriptors : Type 0 where
  pub opened : List ℕ
  pub closed : List ℕ

-- `tcp_connector_t`: a descriptor of -1 is `none`; `tmr` is whether the timer runs.
pub record TcpConnector (Loop : Type 0) : Type 0 where
  pub sd : Option ℕ
  pub is_in_prog : Bool
  pub tmr : Bool
  pub watcher : Watcher Loop
  pub fds : Descriptors

-- `close`, where the descriptor is not -1
abbrev pub close_fd : Option ℕ → Descriptors → Descriptors
close_fd none fds = fds
close_fd (some sd) fds = record fds { closed = sd ∷ fds.closed }

module _ {Loop : Type 0} ⦃ev : EventLoop Loop⦄ where
  unfoldable pub tcp_connector_init : TcpConnector Loop → ℕ → TcpConnector Loop
  tcp_connector_init conn sd = record conn {
    sd = some sd;
    is_in_prog = false;
    watcher = watcher_watch_tx (watcher_init_with_fd conn.watcher.loop);
    tmr = false;
    fds = record (conn.fds) { opened = sd ∷ conn.fds.opened };
  }

  unfoldable pub tcp_connector_connect : TcpConnector Loop → Attempt → Status × TcpConnector Loop
  tcp_connector_connect conn (connected _) =
      if conn.is_in_prog then (failure, conn) else (success, conn)
  tcp_connector_connect conn (pending _) = if conn.is_in_prog then (failure, conn) else (
    in_progress,
    record conn { is_in_prog = true; watcher = watcher_start conn.watcher; tmr = true },
  )
  tcp_connector_connect conn (refused _) = (failure, conn)
  tcp_connector_connect conn no_socket = (failure, conn)

  unfoldable pub tcp_connector_try_ipv4 : TcpConnector Loop → Attempt → Status × TcpConnector Loop
  unfolding tcp_connector_init tcp_connector_connect
  tcp_connector_try_ipv4 conn no_socket = (failure, record conn { sd = none })
  tcp_connector_try_ipv4 conn (connected sd) =
      tcp_connector_connect (tcp_connector_init conn sd) (connected sd)
  tcp_connector_try_ipv4 conn (pending sd) =
      tcp_connector_connect (tcp_connector_init conn sd) (pending sd)
  tcp_connector_try_ipv4 conn (refused sd) =
      tcp_connector_connect (tcp_connector_init conn sd) (refused sd)

  unfoldable pub tcp_connector_deinit : TcpConnector Loop → TcpConnector Loop
  tcp_connector_deinit conn =
      let stopped = record conn {
        is_in_prog = false;
        watcher = watcher_stop conn.watcher;
        tmr = false;
      } in
      let conn₁ = if conn.is_in_prog then stopped else conn in
      record conn₁ { sd = none; fds = close_fd conn.sd conn.fds }

  -- The watcher's callback up to the call of `conn->cb`, whose status is the result. The argument
  -- is whether SO_ERROR is 0.
  unfoldable pub tcp_connector_watcher_callback :
      TcpConnector Loop → Bool → Status × TcpConnector Loop
  tcp_connector_watcher_callback conn ok = (
    if ok then success else failure,
    record conn { is_in_prog = false; watcher = watcher_stop conn.watcher; tmr = false },
  )

  -- The timer's callback up to the call of `conn->cb`. The timer runs once.
  unfoldable pub tcp_connector_timeout : TcpConnector Loop → Status × TcpConnector Loop
  tcp_connector_timeout conn = (
    timeout,
    record conn { is_in_prog = false; watcher = watcher_stop conn.watcher; tmr = false },
  )

  unfoldable pub tcp_connect_get_sd : TcpConnector Loop → Option ℕ × TcpConnector Loop
  tcp_connect_get_sd conn = (conn.sd, record conn { sd = none })
