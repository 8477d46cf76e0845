-- ===== src/TcpAutoConnector.antt =====
-- src/net/tcp_auto_connector.c and inc/tcp_auto_connector.h: connects again and again until it has
-- a connection. The callback of the client is kept as a record of what it was called with, the last
-- call first: a descriptor, or none for -1. The client's callback leaves the connector alone.
pub mod Valid
pub mod Terminates
pub mod Safety
mod Examples
use kongjaexpress.Prelude.{
  ℕ, zero, suc, ◌≡◌, List, [], ◌∷◌, Bool, true, false, Option, none, some, if◌then◌else◌,
}
use kongjaexpress.Watcher.{EventLoop}
use kongjaexpress.TcpConnector.{
  TcpConnector, Status, success, failure, in_progress, timeout, Attempt, tcp_connector_try_ipv4,
  tcp_connector_deinit, tcp_connector_watcher_callback, tcp_connector_timeout, tcp_connect_get_sd,
}

-- `tcp_auto_connector_state_t`
pub data AutoState : Type 0 where
  not_started connecting reconnect_wait : AutoState

-- `reconn_wait_tmr` is whether the timer runs.
pub record AutoConnector (Loop : Type 0) : Type 0 where
  pub tcp : TcpConnector Loop
  pub reconn_wait_tmr : Bool
  pub state : AutoState
  pub calls : List (Option ℕ)

module _ {Loop : Type 0} ⦃ev : EventLoop Loop⦄ where
  -- `tcp_connector_try_ipv4` on the connector's own attempt
  abbrev pub dial : AutoConnector Loop → Attempt → Status × AutoConnector Loop
  dial conn attempt =
      let (status, tcp) = tcp_connector_try_ipv4 conn.tcp attempt in
      (status, record conn { tcp = tcp })

  -- The function and `tcp_auto_connector_connect` call each other: a timeout dials again, with the
  -- attempt given. `none` is that the fuel ran out.
  unfoldable pub tcp_auto_connector_handle_tcp_connect_event :
      ℕ → Attempt → Status → AutoConnector Loop → Option (AutoConnector Loop)
  tcp_auto_connector_handle_tcp_connect_event fuel attempt success conn =
      let (sd, tcp) = tcp_connect_get_sd conn.tcp in
      some (record conn { state = not_started; tcp = tcp; calls = sd ∷ conn.calls })
  tcp_auto_connector_handle_tcp_connect_event fuel attempt failure conn = some (record conn {
    tcp = tcp_connector_deinit conn.tcp;
    state = reconnect_wait;
    reconn_wait_tmr = true;
    calls = none ∷ conn.calls;
  })
  tcp_auto_connector_handle_tcp_connect_event fuel attempt in_progress conn =
      some (record conn { state = connecting })
  tcp_auto_connector_handle_tcp_connect_event zero attempt timeout conn = none
  tcp_auto_connector_handle_tcp_connect_event (suc fuel) attempt timeout conn =
      let (status, conn') =
        dial (record conn { tcp = tcp_connector_deinit conn.tcp; calls = none ∷ conn.calls })
          attempt in
      tcp_auto_connector_handle_tcp_connect_event fuel attempt status conn'

  unfoldable pub tcp_auto_connector_connect :
      ℕ → Attempt → AutoConnector Loop → Option (AutoConnector Loop)
  tcp_auto_connector_connect fuel attempt conn =
      let (status, conn') = dial conn attempt in
      tcp_auto_connector_handle_tcp_connect_event fuel attempt status conn'

  -- The timer runs once.
  unfoldable pub tcp_auto_connector_reconn_wait_timeout :
      ℕ → Attempt → AutoConnector Loop → Option (AutoConnector Loop)
  unfolding tcp_auto_connector_connect
  tcp_auto_connector_reconn_wait_timeout fuel attempt conn =
      tcp_auto_connector_connect fuel attempt (record conn { reconn_wait_tmr = false })

  -- The callback of the connection's watcher, through `tcp_auto_connector_tcp_connector_callback`.
  unfoldable pub connect_event :
      ℕ → Attempt → Bool → AutoConnector Loop → Option (AutoConnector Loop)
  connect_event fuel attempt ok conn =
      let (status, tcp) = tcp_connector_watcher_callback conn.tcp ok in
      tcp_auto_connector_handle_tcp_connect_event fuel attempt status (record conn { tcp = tcp })

  -- The callback of the connection's timer, through the same function.
  unfoldable pub connect_timeout : ℕ → Attempt → AutoConnector Loop → Option (AutoConnector Loop)
  connect_timeout fuel attempt conn =
      let (status, tcp) = tcp_connector_timeout conn.tcp in
      tcp_auto_connector_handle_tcp_connect_event fuel attempt status (record conn { tcp = tcp })

  unfoldable pub tcp_auto_connector_init : AutoConnector Loop → AutoConnector Loop
  tcp_auto_connector_init conn = record conn { reconn_wait_tmr = false; state = not_started }

  unfoldable pub tcp_auto_connector_start :
      ℕ → Attempt → AutoConnector Loop → Option (AutoConnector Loop)
  unfolding tcp_auto_connector_connect
  tcp_auto_connector_start fuel attempt conn = tcp_auto_connector_connect fuel attempt conn

  stop_in : AutoState → AutoConnector Loop → AutoConnector Loop
  stop_in not_started conn = record conn { tcp = tcp_connector_deinit conn.tcp }
  stop_in connecting conn = record conn { tcp = tcp_connector_deinit conn.tcp }
  stop_in reconnect_wait conn = record conn {
    tcp = tcp_connector_deinit conn.tcp;
    reconn_wait_tmr = false;
  }

  unfoldable pub tcp_auto_connector_stop : AutoConnector Loop → AutoConnector Loop
  unfolding stop_in
  tcp_auto_connector_stop conn = record (stop_in conn.state conn) { state = not_started }

  -- What can happen to a connector: the client starts it when it is not started, or stops it; the
  -- event loop reports on the socket while its watcher is started, or a timer that runs expires.
  pub data Step (conn conn' : AutoConnector Loop) : Type 0 where
    started :
        (fuel : ℕ) (attempt : Attempt)
        → conn.state ≡ not_started
        → tcp_auto_connector_start fuel attempt conn ≡ some conn'
        → Step conn conn'
    stopped : tcp_auto_connector_stop conn ≡ conn' → Step conn conn'
    reported :
        (fuel : ℕ) (attempt : Attempt) (ok : Bool)
        → conn.tcp.watcher.started ≡ true
        → connect_event fuel attempt ok conn ≡ some conn'
        → Step conn conn'
    expired :
        (fuel : ℕ) (attempt : Attempt)
        → conn.tcp.tmr ≡ true
        → connect_timeout fuel attempt conn ≡ some conn'
        → Step conn conn'
    waited :
        (fuel : ℕ) (attempt : Attempt)
        → conn.reconn_wait_tmr ≡ true
        → tcp_auto_connector_reconn_wait_timeout fuel attempt conn ≡ some conn'
        → Step conn conn'

  pub data Reach (conn : AutoConnector Loop) : AutoConnector Loop → Type 0 where
    here : Reach conn conn
    next : {c c' : AutoConnector Loop} → Reach conn c → Step c c' → Reach conn c'
