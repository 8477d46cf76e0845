-- ===== src/Modbus/TcpSlave/Connections.antt =====
-- src/protocols/modbus/modbus_tcp_slave.c and inc/modbus/modbus_tcp_slave.h: the connections of the
-- slave, from the server that accepts them to their release. A frame is handled by the parent. What
-- `malloc`, `accept`, `read` and `write` return is an argument; the address of a client is left out.
pub mod Steps
pub mod Closed
pub mod Others
pub mod Reads
pub mod Served
pub mod Quiet
mod Examples
use kongjaexpress.Prelude.{
  ℕ, List, [], ◌∷◌, ◌++◌, Bool, Option, none, some, ◌==◌, if◌then◌else◌, take,
}
use kongjaexpress.Watcher.{EventLoop, Watcher}
use kongjaexpress.Stream.{
  Stream, StreamEvent, Sent, ReadResult, WriteResult, WatcherEvent, stream_init_with_fd,
  stream_start, stream_deinit, stream_watcher_callback,
}
use kongjaexpress.TcpServer.{
  TcpServer, Setup, tcp_server_ipv4_init, tcp_server_start, tcp_server_stop, tcp_server_rx_event,
}
use kongjaexpress.Modbus.Common.{SlaveCtx, SlaveCallbacks, mb_slave_ctx_init}
use kongjaexpress.Modbus.Mbap.{MbapReader, mbap_reader_init, mbap_reader_feed}
use kongjaexpress.Modbus.TcpSlave.{TcpSlave, modbus_tcp_slave_got_frame}

-- `modbus_tcp_slave_connection_t`; `sd` is the descriptor of the stream, `sent` the frames that
-- were given to `stream_write`, the last one first.
pub record Connection (Loop : Type 0) : Type 0 where
  pub sd : ℕ
  pub stream : Stream Loop
  pub mbap_reader : MbapReader
  pub sent : List (List ℕ)

-- `ModbusTCPSlave`, with the state of the application, the descriptors of connections that were
-- closed, and the watchers of the connections that were freed.
pub record ModbusTcpSlave (Loop D : Type 0) : Type 0 where
  pub ctx : SlaveCtx
  pub my_address : ℕ
  pub server : TcpServer Loop
  pub connections : List (Connection Loop)
  pub dev : D
  pub closed : List ℕ
  pub freed : List (Watcher Loop)

-- what a new connection stands on: the `ev_io` of its watcher, its memory and its transmit buffer
pub record Memory (Loop : Type 0) : Type 0 where
  pub loop : Loop
  pub rx_buf : List ℕ
  pub mbap_reader : MbapReader
  pub tx_storage : Option (List ℕ)

module _ {Loop : Type 0} where
  unfoldable pub find_connection : ℕ → List (Connection Loop) → Option (Connection Loop)
  find_connection sd [] = none
  find_connection sd (c ∷ cs) =
      let rest = find_connection sd cs in if c.sd == sd then some c else rest

  -- the connection with a descriptor changed in place, and taken off the list
  unfoldable pub update_connection :
      Connection Loop → List (Connection Loop) → List (Connection Loop)
  update_connection c [] = []
  update_connection c (x ∷ xs) =
      let rest = update_connection c xs in if x.sd == c.sd then c ∷ xs else x ∷ rest

  unfoldable pub list_del : ℕ → List (Connection Loop) → List (Connection Loop)
  list_del sd [] = []
  list_del sd (x ∷ xs) = let rest = list_del sd xs in if x.sd == sd then xs else x ∷ rest

-- an event that reaches the slave, with what the system answers
pub data Event (Loop : Type 0) : Type 0 where
  accepts : Option (Memory Loop) → Option ℕ → Event Loop
  event_on : ℕ → WatcherEvent → ReadResult → WriteResult → Event Loop
  starts stops : Event Loop

module _ {Loop : Type 0} ⦃ev : EventLoop Loop⦄ where
  abbrev pub new_connection : Memory Loop → ℕ → Connection Loop
  new_connection mem newsd = record {
    sd = newsd;
    stream = stream_start (stream_init_with_fd mem.loop mem.rx_buf 512 mem.tx_storage 512);
    mbap_reader = mbap_reader_init mem.mbap_reader;
    sent = [];
  }

module _ {Loop D : Type 0} ⦃ev : EventLoop Loop⦄ where
  -- `none` for the memory is a failure of the `malloc` of the connection.
  unfoldable pub modbus_tcp_slave_alloc_conn :
      Option (Memory Loop) → ℕ → ModbusTcpSlave Loop D → ModbusTcpSlave Loop D
  modbus_tcp_slave_alloc_conn none newsd s = record s { closed = newsd ∷ s.closed }
  modbus_tcp_slave_alloc_conn (some mem) newsd s = record s {
    connections = s.connections ++ new_connection mem newsd ∷ [];
  }

  abbrev pub modbus_tcp_slave_new_connection :
      Option (Memory Loop) → ℕ → ModbusTcpSlave Loop D → ModbusTcpSlave Loop D
  modbus_tcp_slave_new_connection = modbus_tcp_slave_alloc_conn

  unfoldable pub modbus_tcp_slave_dealloc_conn :
      Connection Loop → ModbusTcpSlave Loop D → ModbusTcpSlave Loop D
  modbus_tcp_slave_dealloc_conn c s = record s {
    connections = list_del c.sd s.connections;
    closed = c.sd ∷ s.closed;
    freed = (stream_deinit c.stream).watcher ∷ s.freed;
  }

  -- the slave as a frame of one connection sees it
  abbrev pub view : ModbusTcpSlave Loop D → Connection Loop → TcpSlave Loop D
  view s c = record {
    ctx = s.ctx;
    my_address = s.my_address;
    stream = c.stream;
    dev = s.dev;
    sent = c.sent;
  }

  -- `modbus_tcp_slave_init`; the result of the set-up of the server is not used.
  unfoldable pub modbus_tcp_slave_init : ℕ → Setup → ModbusTcpSlave Loop D → ModbusTcpSlave Loop D
  modbus_tcp_slave_init device_addr setup s = record s {
    ctx = mb_slave_ctx_init;
    my_address = device_addr;
    server = (tcp_server_ipv4_init s.server setup).1;
    connections = [];
  }

  unfoldable pub modbus_tcp_slave_start : ModbusTcpSlave Loop D → ModbusTcpSlave Loop D
  modbus_tcp_slave_start s = record s { server = tcp_server_start s.server }

  -- `list_for_each_entry_safe` over the connections
  unfoldable pub dealloc_all :
      List (Connection Loop) → ModbusTcpSlave Loop D → ModbusTcpSlave Loop D
  dealloc_all [] s = s
  dealloc_all (c ∷ cs) s = dealloc_all cs (modbus_tcp_slave_dealloc_conn c s)

  unfoldable pub modbus_tcp_slave_stop : ModbusTcpSlave Loop D → ModbusTcpSlave Loop D
  modbus_tcp_slave_stop s =
      let stopped = record s { server = tcp_server_stop s.server } in
      dealloc_all stopped.connections stopped

module _ {Loop D : Type 0} ⦃ev : EventLoop Loop⦄ (cb : SlaveCallbacks D)
    (ret : ℕ → ℕ → WriteResult) where
  -- The connection is the one whose stream calls back.
  unfoldable pub modbus_tcp_slave_handle_stream_event :
      StreamEvent → Connection Loop → ModbusTcpSlave Loop D → ModbusTcpSlave Loop D
  modbus_tcp_slave_handle_stream_event StreamEvent.rx c s =
      let (mbap, v) =
        mbap_reader_feed {W = TcpSlave Loop D} (modbus_tcp_slave_got_frame cb (ret c.sd))
          c.mbap_reader (take c.stream.rx_data_len c.stream.rx_buf) (view s c) in
      record s {
        ctx = v.ctx;
        dev = v.dev;
        connections =
            update_connection (record c { stream = v.stream; mbap_reader = mbap; sent = v.sent })
              s.connections;
      }
  modbus_tcp_slave_handle_stream_event StreamEvent.eof c s = modbus_tcp_slave_dealloc_conn c s
  modbus_tcp_slave_handle_stream_event StreamEvent.err c s = modbus_tcp_slave_dealloc_conn c s
  modbus_tcp_slave_handle_stream_event StreamEvent.tx c s = s

  -- `stream->cb`, where the watcher's callback comes to it
  abbrev pub called_back :
      Connection Loop → Option StreamEvent → ModbusTcpSlave Loop D → ModbusTcpSlave Loop D
  called_back c none s = s
  called_back c (some e) s = modbus_tcp_slave_handle_stream_event e c s

  -- The callback of the watcher of a connection; `none` is `CRASH()`.
  unfoldable pub connection_event :
      WatcherEvent
      → ReadResult
      → WriteResult
      → Connection Loop
      → ModbusTcpSlave Loop D
      → Option (ModbusTcpSlave Loop D)
  connection_event e rd wr c s = elim (stream_watcher_callback c.stream e rd wr) [
    | none ↦ none
    | some r ↦
        let c' = record c { stream = r.stream } in
        some
          (called_back c' r.result (record s { connections = update_connection c' s.connections }))
  ]

  -- An event of a descriptor that no connection has is none of the slave's.
  unfoldable pub step : Event Loop → ModbusTcpSlave Loop D → Option (ModbusTcpSlave Loop D)
  step (accepts mem newsd) s =
      some (tcp_server_rx_event (modbus_tcp_slave_new_connection mem) newsd s)
  step (event_on sd e rd wr) s = elim (find_connection sd s.connections) [
    | none ↦ some s
    | some c ↦ connection_event e rd wr c s
  ]
  step starts s = some (modbus_tcp_slave_start s)
  step stops s = some (modbus_tcp_slave_stop s)

  unfoldable pub run : List (Event Loop) → ModbusTcpSlave Loop D → Option (ModbusTcpSlave Loop D)
  run [] s = some s
  run (e ∷ es) s = elim (step e s) [ none ↦ none | some s' ↦ run es s' ]
