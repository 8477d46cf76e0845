-- ===== src/CliTelnet/Server.antt =====
-- src/cli/cli_telnet.c: the connections of the server, from `accept` to their release. The address of
-- a client and the options of its socket are left out.
use kongjaexpress.Prelude.{ℕ, List, [], ◌∷◌, ◌++◌, Option, none, some, ◌==◌, if◌then◌else◌}
use kongjaexpress.Watcher.{EventLoop, Watcher}
use kongjaexpress.Stream.{
  ReadResult, WriteResult, WatcherEvent, stream_watcher_callback, stream_deinit,
}
use kongjaexpress.TcpServer.{
  TcpServer, Setup, tcp_server_ipv4_init, tcp_server_start, tcp_server_rx_event,
}
use kongjaexpress.Cli.{Command, cli_intf_register, cli_intf_unregister}
use kongjaexpress.Telnet.{Codes}
use kongjaexpress.CliTelnet.{Kernel, Options, CliConnection, alloc_cli_connection, called_back}

-- `cli_server_t`, its connections by their descriptors, with the list of all interfaces by the
-- descriptors too, the descriptors of connections that were
-- closed and the watchers of those that were freed
pub record CliServer (Loop : Type 0) : Type 0 where
  pub tcp_server : TcpServer Loop
  pub conns : List (ℕ × CliConnection Loop)
  pub intf_list : List ℕ
  pub closed : List ℕ
  pub freed : List (Watcher Loop)

-- what a new connection stands on: the `ev_io` of its watcher, `rx_buf`, the transmit buffer, and what
-- `malloc` gives
pub record CliMemory (Loop : Type 0) : Type 0 where
  pub loop : Loop
  pub rx_buf : List ℕ
  pub tx_storage : Option (List ℕ)
  pub conn : CliConnection Loop

module _ {Loop : Type 0} where
  unfoldable pub conn_of : ℕ → List (ℕ × CliConnection Loop) → Option (CliConnection Loop)
  conn_of sd [] = none
  conn_of sd ((at, c) ∷ cs) = let rest = conn_of sd cs in if at == sd then some c else rest

  -- the connection with a descriptor changed in place, and taken off the list
  unfoldable pub put_conn :
      ℕ → CliConnection Loop → List (ℕ × CliConnection Loop) → List (ℕ × CliConnection Loop)
  put_conn sd c [] = []
  put_conn sd c ((at, x) ∷ xs) =
      let rest = put_conn sd c xs in if at == sd then (at, c) ∷ xs else (at, x) ∷ rest

  unfoldable pub unlink_conn : ℕ → List (ℕ × CliConnection Loop) → List (ℕ × CliConnection Loop)
  unlink_conn sd [] = []
  unlink_conn sd ((at, x) ∷ xs) =
      let rest = unlink_conn sd xs in if at == sd then xs else (at, x) ∷ rest

-- an event that reaches the server, with what the system answers
pub data ServerEvent (Loop : Type 0) : Type 0 where
  new_client : Option (CliMemory Loop) → Option ℕ → ServerEvent Loop
  client_event : ℕ → WatcherEvent → ReadResult → WriteResult → ServerEvent Loop

module _ {Loop : Type 0} ⦃ev : EventLoop Loop⦄ where
  -- `cli_telnet_server_init`; the result of the set-up of the socket is not used.
  unfoldable pub cli_telnet_server_init : Setup → CliServer Loop → CliServer Loop
  cli_telnet_server_init setup s = record s {
    conns = [];
    tcp_server = tcp_server_start (tcp_server_ipv4_init s.tcp_server setup).1;
  }

  unfoldable pub dealloc_cli_connection : ℕ → CliConnection Loop → CliServer Loop → CliServer Loop
  dealloc_cli_connection sd c s = record s {
    conns = unlink_conn sd s.conns;
    intf_list = cli_intf_unregister sd s.intf_list;
    closed = sd ∷ s.closed;
    freed = (stream_deinit c.stream).watcher ∷ s.freed;
  }

  module _ (user : List Command) (k : Codes) (o : Options) (kernels : ℕ → Kernel) where
    -- `none` for the memory is a failure of the `malloc` of the connection.
    unfoldable pub cli_server_new_connection :
        Option (CliMemory Loop) → ℕ → CliServer Loop → CliServer Loop
    cli_server_new_connection none newsd s = record s { closed = newsd ∷ s.closed }
    cli_server_new_connection (some mem) newsd s = record s {
      conns =
          s.conns
          ++ (
            newsd,
            alloc_cli_connection user k (kernels newsd) o mem.loop mem.rx_buf mem.tx_storage
                mem.conn,
          )
            ∷ [];
      intf_list = cli_intf_register newsd s.intf_list;
    }

    -- the connection in the list after its callback
    abbrev pub settled :
        ℕ → CliConnection Loop → Option (CliConnection Loop) → CliServer Loop → CliServer Loop
    settled sd c none s = dealloc_cli_connection sd c s
    settled sd c (some c') s = record s { conns = put_conn sd c' s.conns }

    -- The callback of the watcher of a connection; `none` is `CRASH()`.
    unfoldable pub client_step :
        ℕ
        → WatcherEvent
        → ReadResult
        → WriteResult
        → CliConnection Loop
        → CliServer Loop
        → Option (CliServer Loop)
    client_step sd e rd wr c s = elim (stream_watcher_callback c.stream e rd wr) [
      | none ↦ none
      | some r ↦
          let c' = record c { stream = r.stream; sent = c.sent ++ r.out } in
          some (settled sd c' (called_back user k (kernels sd) r.result c') s)
    ]

    -- An event of a descriptor that no connection has is none of the server's.
    unfoldable pub server_step : ServerEvent Loop → CliServer Loop → Option (CliServer Loop)
    server_step (new_client mem newsd) s =
        some (tcp_server_rx_event (cli_server_new_connection mem) newsd s)
    server_step (client_event sd e rd wr) s = elim (conn_of sd s.conns) [
      | none ↦ some s
      | some c ↦ client_step sd e rd wr c s
    ]

    unfoldable pub server_run : List (ServerEvent Loop) → CliServer Loop → Option (CliServer Loop)
    server_run [] s = some s
    server_run (e ∷ es) s = elim (server_step e s) [ none ↦ none | some s' ↦ server_run es s' ]
