-- ===== src/TcpAutoConnector/Terminates.antt =====
-- The functions of the connector that call each other come to an end.
use kongjaexpress.Prelude.{ℕ, suc, ◌≡◌, refl, some}
use kongjaexpress.Watcher.{EventLoop}
use kongjaexpress.TcpConnector.{
  Status, success, failure, in_progress, timeout, Attempt, no_socket, connected, pending, refused,
  tcp_connector_try_ipv4,
}
use kongjaexpress.TcpAutoConnector.{AutoConnector, tcp_auto_connector_handle_tcp_connect_event}

module _ {Loop : Type 0} ⦃ev : EventLoop Loop⦄ where
  -- An event of any status is handled with one unit of fuel: a timeout dials again once, and the
  -- attempt is never a timeout itself. More fuel makes no difference.
  pub handle_event_terminates :
      (fuel : ℕ) (attempt : Attempt) (status : Status) (conn : AutoConnector Loop)
      → (conn' : AutoConnector Loop) × (tcp_auto_connector_handle_tcp_connect_event
            (suc fuel)
            attempt
            status
            conn
          ≡ some conn')
        × (tcp_auto_connector_handle_tcp_connect_event 1 attempt status conn ≡ some conn')
  unfolding tcp_auto_connector_handle_tcp_connect_event tcp_connector_try_ipv4
  handle_event_terminates fuel attempt success conn = (_, refl, refl)
  handle_event_terminates fuel attempt failure conn = (_, refl, refl)
  handle_event_terminates fuel attempt in_progress conn = (_, refl, refl)
  handle_event_terminates fuel no_socket timeout conn = (_, refl, refl)
  handle_event_terminates fuel (connected sd) timeout conn = (_, refl, refl)
  handle_event_terminates fuel (pending sd) timeout conn = (_, refl, refl)
  handle_event_terminates fuel (refused sd) timeout conn = (_, refl, refl)
