-- ===== src/TcpAutoConnector/Examples.antt =====
-- A connector whose first attempt is refused and whose second one succeeds.
use kongjaexpress.Prelude.{count, ◌≡◌, refl, [], ◌∷◌, true, false, Option, none, some}
use kongjaexpress.Watcher.{watcher_init_with_fd, watcher_watch_tx, watcher_start}
use kongjaexpress.Watcher.Examples.{ActiveSet, active_sets}
use kongjaexpress.TcpConnector.{
  timeout, pending, refused, tcp_connector_try_ipv4, tcp_connector_watcher_callback,
  tcp_connect_get_sd,
}
use kongjaexpress.TcpAutoConnector.{
  AutoConnector, not_started, tcp_auto_connector_handle_tcp_connect_event,
  tcp_auto_connector_connect, tcp_auto_connector_start, tcp_auto_connector_reconn_wait_timeout,
  connect_event, started, reported, waited, Reach, here, next,
}
use kongjaexpress.TcpAutoConnector.Valid.{IsBalanced, IsValid, given}
use kongjaexpress.TcpAutoConnector.Safety.{Reach-IsValid}
use kongjaexpress.TcpAutoConnector.Terminates.{handle_event_terminates}

abbrev fresh : AutoConnector ActiveSet
fresh = record {
  tcp = record {
    sd = none;
    is_in_prog = false;
    tmr = false;
    watcher = watcher_init_with_fd (λ t. false);
    fds = record { opened = []; closed = [] };
  };
  reconn_wait_tmr = false;
  state = not_started;
  calls = [];
}

fresh-IsValid : IsValid fresh
unfolding IsBalanced count given watcher_init_with_fd
fresh-IsValid = record {
  busy = record { prog = refl; tmr = refl; watched = refl };
  waits = refl;
  holds = refl;
  balanced = λ d. refl;
}

abbrev get : Option (AutoConnector ActiveSet) → AutoConnector ActiveSet
get none = fresh
get (some c) = c

abbrev paused : AutoConnector ActiveSet
paused = get (tcp_auto_connector_start 1 (refused 5) fresh)

abbrev again : AutoConnector ActiveSet
again = get (tcp_auto_connector_reconn_wait_timeout 1 (pending 6) paused)

abbrev linked : AutoConnector ActiveSet
linked = get (connect_event 1 (pending 7) true again)

linked-Reach : Reach fresh linked
unfolding tcp_auto_connector_start tcp_auto_connector_reconn_wait_timeout tcp_auto_connector_connect
    connect_event tcp_auto_connector_handle_tcp_connect_event tcp_connector_try_ipv4 watcher_start
    watcher_watch_tx watcher_init_with_fd tcp_connector_watcher_callback
linked-Reach =
    next (next (next here (started 1 (refused 5) refl refl)) (waited 1 (pending 6) refl refl))
      (reported 1 (pending 7) true refl refl)

linked_given : linked.calls ≡ some 6 ∷ none ∷ []
unfolding tcp_auto_connector_start tcp_auto_connector_reconn_wait_timeout tcp_auto_connector_connect
    connect_event tcp_auto_connector_handle_tcp_connect_event tcp_connector_try_ipv4
    tcp_connector_watcher_callback tcp_connect_get_sd
linked_given = refl

Reach-IsValid_example : IsValid linked
Reach-IsValid_example = Reach-IsValid fresh-IsValid linked-Reach

handle_event_terminates_example :
    (conn' : AutoConnector ActiveSet) × (tcp_auto_connector_handle_tcp_connect_event 8
        (pending 6)
        timeout
        again
      ≡ some conn')
    × (tcp_auto_connector_handle_tcp_connect_event 1 (pending 6) timeout again ≡ some conn')
handle_event_terminates_example = handle_event_terminates 7 (pending 6) timeout again
