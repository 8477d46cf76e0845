-- ===== src/CliTelnet/Examples.antt =====
-- A session in which `help` is typed, in two reads.
use kongjaexpress.Prelude.{
  ℕ, ◌≡◌, refl, arith, List, [], ◌∷◌, Option, none, some, replicate, false, true, ltb,
  if◌then◌else◌,
}
use kongjaexpress.Watcher.Examples.{ActiveSet, active_sets}
use kongjaexpress.Cli.Lines.{view, type_bytes}
use kongjaexpress.Cli.{cli_intf_register, cli_intf_unregister}
use kongjaexpress.Telnet.{Codes, start}
use kongjaexpress.Stream.{
  Stream, WatcherEvent, wrote, would_block, got, closed, stream_watcher_callback,
}
use kongjaexpress.TcpServer.{ipv4, tcp_server_rx_event}
use kongjaexpress.CliTelnet.Server.{
  CliServer, CliMemory, ServerEvent, new_client, client_event, conn_of, put_conn, unlink_conn,
  dealloc_cli_connection, cli_server_new_connection, client_step, server_step, server_run,
}
use kongjaexpress.CliTelnet.{
  CliConnection, Kernel, Options, alloc_cli_connection, handle_stream_event,
}
use kongjaexpress.CliTelnet.Session.{typed, session, session-type_bytes}

abbrev rfc854 : Codes
rfc854 = record {
  iac = 255;
  do_code = 253;
  dont_code = 254;
  will_code = 251;
  wont_code = 252;
  sb_code = 250;
  se_code = 240;
}

abbrev pub idle_stream : Stream ActiveSet
idle_stream = record {
  watcher = record {
    rx_watch = false;
    tx_watch = false;
    er_watch = false;
    started = false;
    loop = λ t. false;
  };
  rx_buf = [];
  rx_buf_size = 0;
  rx_data_len = 0;
  tx_buf = record { buffer = some []; size = 0; data_size = 0; begin = 0; end = 0 };
}

-- what `malloc` gave
abbrev memory : CliConnection ActiveSet
memory = record {
  stream = idle_stream;
  cli_intf = record { cmd_buffer_ndx = 2; cmd_buffer = replicate 255 120; tx = []; outcomes = [] };
  telnet = record { buffer = replicate 32 0; buf_ndx = 9; state = start; command = 0; opt = 0 };
  sent = [];
  writes = 0;
}

-- `help`, the end of the line and a zero
abbrev keys : List ℕ
keys = 104 ∷ 101 ∷ 108 ∷ 112 ∷ 13 ∷ 0 ∷ []

-- a kernel whose buffer is full after eight writes
abbrev pub slow : Kernel
slow i n = if ltb i 8 then wrote n else would_block

abbrev options : Options
options = record { sga = 3; echo = 1 }

abbrev set_up : CliConnection ActiveSet
set_up =
    alloc_cli_connection [] rfc854 slow options (λ t. false) (replicate 128 0)
      (some (replicate 128 0)) memory

abbrev reads : List (List ℕ)
reads = (104 ∷ 101 ∷ []) ∷ (108 ∷ 112 ∷ 13 ∷ 0 ∷ []) ∷ []

session-type_bytes_example :
    (conn' : CliConnection ActiveSet) × (session [] rfc854 slow reads set_up ≡ some conn')
    × (view conn'.cli_intf ≡ type_bytes [] (view memory.cli_intf) (13 ∷ typed keys))
session-type_bytes_example =
    session-type_bytes [] rfc854 slow options (λ t. false) (replicate 128 0)
      (some (replicate 128 0)) memory reads keys (record { memory = refl; short = omega arith })
      refl (omega arith, (omega arith, tt)) refl

-- a server with a client on descriptor 5
abbrev server : CliServer ActiveSet
server = record {
  tcp_server = record {
    sd = some 3;
    is_listening = true;
    server_type = ipv4;
    watcher = memory.stream.watcher;
    fds = record { opened = 3 ∷ []; closed = [] };
  };
  conns = (5, set_up) ∷ [];
  intf_list = 0 ∷ 5 ∷ [];
  closed = [];
  freed = [];
}

abbrev mem : CliMemory ActiveSet
mem = record {
  loop = λ t. false;
  rx_buf = replicate 128 0;
  tx_storage = some (replicate 128 0);
  conn = memory;
}

-- The client on descriptor 7 types `help`, while the one on descriptor 5 types and leaves and the
-- memory for another is missing.
abbrev visit : List (ServerEvent ActiveSet)
visit =
    client_event 7 WatcherEvent.rx (got (104 ∷ 101 ∷ [])) would_block
    ∷ client_event 5 WatcherEvent.rx (got (97 ∷ [])) would_block
    ∷ new_client none (some 9)
    ∷ client_event 5 WatcherEvent.rx closed would_block
    ∷ client_event 7 WatcherEvent.rx (got (108 ∷ 112 ∷ 13 ∷ 0 ∷ [])) would_block
    ∷ []

abbrev or_else : {A : Type 0} → A → Option A → A
or_else x none = x
or_else x (some y) = y

abbrev after_visit : CliServer ActiveSet
after_visit =
    or_else server
      (server_run [] rfc854 options (λ sd. slow) (new_client (some mem) (some 7) ∷ visit) server)

visit_test :
    (conn_of 5 after_visit.conns ≡ none)
    × (after_visit.closed ≡ 5 ∷ 9 ∷ [])
    × (after_visit.intf_list ≡ 0 ∷ 7 ∷ [])
unfolding cli_intf_register cli_intf_unregister server_run server_step client_step
    cli_server_new_connection dealloc_cli_connection conn_of put_conn unlink_conn
    tcp_server_rx_event handle_stream_event stream_watcher_callback
visit_test = (refl, refl, refl)
