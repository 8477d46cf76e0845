-- ===== src/Modbus/TcpSlave/Connections/Examples.antt =====
-- A slave with address 17, with the demo's callbacks: a client on descriptor 7 asks for eight coils,
-- a client on descriptor 8 comes and goes.
use kongjaexpress.Prelude.{
  ℕ, ◌+◌, ◌≡◌, refl, arith, List, [], ◌∷◌, Option, none, some, count, replicate, false,
}
use kongjaexpress.Prelude.Bytes.{word16}
use kongjaexpress.Watcher.Examples.{ActiveSet, active_sets}
use kongjaexpress.Stream.{WriteResult, would_block, WatcherEvent, closed, stream_watcher_callback}
use kongjaexpress.Stream.Sources.{started-IsSynced}
use kongjaexpress.TcpServer.{tcp_server_rx_event}
use kongjaexpress.TcpServer.Examples.{unused}
use kongjaexpress.Modbus.Common.{mb_slave_ctx_init}
use kongjaexpress.Modbus.Funcs.Examples.{demo_slave}
use kongjaexpress.Modbus.Mbap.{MbapReader, fresh}
use kongjaexpress.Modbus.Mbap.Framing.{Header}
use kongjaexpress.Modbus.Mbap.Stream.{deliver_all}
use kongjaexpress.Modbus.TcpSlave.{TcpSlave, modbus_tcp_slave_got_frame}
use kongjaexpress.Modbus.TcpSlave.Connections.{
  Connection, ModbusTcpSlave, Memory, Event, accepts, event_on, starts, find_connection,
  update_connection, list_del, connection_event, modbus_tcp_slave_handle_stream_event,
  modbus_tcp_slave_start, new_connection, view, modbus_tcp_slave_alloc_conn,
  modbus_tcp_slave_dealloc_conn, modbus_tcp_slave_stop, run, step,
}
use kongjaexpress.Modbus.TcpSlave.Connections.Closed.{kept, accepted, run-kept}
use kongjaexpress.Modbus.TcpSlave.Connections.Others.{run-others}
use kongjaexpress.Modbus.TcpSlave.Connections.Reads.{reads_on}
use kongjaexpress.Modbus.TcpSlave.Connections.Served.{client-served}
use kongjaexpress.Modbus.TcpSlave.Connections.Quiet.{IsQuiet, run-IsQuiet}

abbrev blocked : ℕ → ℕ → WriteResult
blocked sd n = would_block

abbrev slave : ModbusTcpSlave ActiveSet ℕ
slave = record {
  ctx = mb_slave_ctx_init;
  my_address = 17;
  server = unused;
  connections = [];
  dev = 0;
  closed = [];
  freed = [];
}

abbrev memory : Memory ActiveSet
memory = record {
  loop = λ t. false;
  rx_buf = replicate 512 0;
  mbap_reader = fresh (replicate 260 0);
  tx_storage = some (replicate 512 0);
}

abbrev head : Header
head = record {
  tid_hi = 0;
  tid_lo = 1;
  pid_hi = 0;
  pid_lo = 0;
  length_hi = 0;
  length_lo = 6;
  uid = 17;
}

abbrev request : List ℕ
request = 1 ∷ 0 ∷ 0 ∷ 0 ∷ 8 ∷ []

abbrev served : MbapReader × TcpSlave ActiveSet ℕ
served =
    deliver_all {W = TcpSlave ActiveSet ℕ} (modbus_tcp_slave_got_frame demo_slave (blocked 7))
      (replicate 260 0) ((head, request) ∷ []) (view slave (new_connection memory 7))

client-served_example :
    (s' : ModbusTcpSlave ActiveSet ℕ) × (c' : Connection ActiveSet) × (run demo_slave blocked
        (accepts (some memory) (some 7)
          ∷ reads_on 7 ((0 ∷ 1 ∷ 0 ∷ []) ∷ (0 ∷ 0 ∷ 6 ∷ 17 ∷ request) ∷ []))
        slave
      ≡ some s')
    × (find_connection 7 s'.connections ≡ some c')
    × (c'.mbap_reader ≡ served.0)
    × (c'.sent ≡ served.1.sent)
    × (s'.ctx ≡ served.1.ctx)
    × (s'.dev ≡ served.1.dev)
unfolding word16 find_connection
client-served_example =
    client-served demo_slave blocked memory 7 ((0 ∷ 1 ∷ 0 ∷ []) ∷ (0 ∷ 0 ∷ 6 ∷ 17 ∷ request) ∷ [])
      ((head, request) ∷ []) slave refl (omega arith) refl (omega arith, (omega arith, tt))
      ((refl, omega arith, omega arith), tt) refl

-- Descriptor 8 comes and is closed by its client.
abbrev visit : List (Event ActiveSet)
visit = accepts (some memory) (some 8) ∷ event_on 8 WatcherEvent.rx closed would_block ∷ starts ∷ []

abbrev first_client : ModbusTcpSlave ActiveSet ℕ
first_client = record slave { connections = new_connection memory 7 ∷ [] }

abbrev or_else {ℓ} : {A : Type ℓ} → Option A → A → A
or_else none a = a
or_else (some a) _ = a

abbrev after_visit : ModbusTcpSlave ActiveSet ℕ
after_visit = or_else (run demo_slave blocked visit first_client) slave

visited : run demo_slave blocked visit first_client ≡ some after_visit
unfolding run step connection_event find_connection update_connection list_del
    modbus_tcp_slave_alloc_conn modbus_tcp_slave_dealloc_conn modbus_tcp_slave_handle_stream_event
    modbus_tcp_slave_start tcp_server_rx_event stream_watcher_callback
visited = refl

still_open : after_visit.closed ≡ 8 ∷ []
unfolding run step connection_event find_connection update_connection list_del
    modbus_tcp_slave_alloc_conn modbus_tcp_slave_dealloc_conn modbus_tcp_slave_handle_stream_event
    modbus_tcp_slave_start tcp_server_rx_event stream_watcher_callback
still_open = refl

run-kept_example :
    (kept 7 after_visit ≡ count 7 (accepted visit) + kept 7 first_client)
    × ((modbus_tcp_slave_stop after_visit).connections ≡ [])
    × (count 7 (modbus_tcp_slave_stop after_visit).closed
        ≡ count 7 (accepted visit) + kept 7 first_client)
run-kept_example = run-kept demo_slave blocked visit first_client after_visit 7 visited

run-others_example : find_connection 7 after_visit.connections ≡ some (new_connection memory 7)
unfolding find_connection
run-others_example =
    run-others demo_slave blocked visit first_client after_visit 7 (new_connection memory 7)
      (tt, ((omega arith), (tt, tt))) visited refl

run-IsQuiet_example : IsQuiet after_visit
run-IsQuiet_example =
    run-IsQuiet demo_slave blocked visit first_client after_visit ((λ t. refl), (tt, (tt, tt)))
      visited
      (
        (
          started-IsSynced (λ t. false) (replicate 512 0) 512 512 (some (replicate 512 0))
              (λ t. refl),
          tt,
        ),
        tt,
      )
