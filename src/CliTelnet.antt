-- ===== src/CliTelnet.antt =====
-- src/cli/cli_telnet.c: the command line on a telnet connection. The list of the connections and the
-- server are in Server.
--
-- What `write` returns for a call of `stream_write` is an argument, by the number of the call and of
-- the bytes. `stream_write` tells the command line nothing, so what it prints during one event is
-- written to the stream at the end of the event, call by call.
pub mod Session
pub mod Output
pub mod Heard
pub mod Server
pub mod Listed
pub mod Served
pub mod Examples
use kongjaexpress.Prelude.{
  ℕ, ◌+◌, List, [], ◌∷◌, ◌++◌, Option, none, some, ◌==◌, if◌then◌else◌, length, take, drop,
}
use kongjaexpress.Watcher.{EventLoop}
use kongjaexpress.Stream.{
  Stream, StreamEvent, ReadResult, WriteResult, WatcherEvent, would_block, stream_init_with_fd,
  stream_start, stream_watcher_callback, stream_write,
}
use kongjaexpress.Cli.{CliIntf, Command, cli_handle_rx}
use kongjaexpress.Telnet.{Codes, TelnetReader, telnet_reader_init, telnet_reader_feed}

-- what `write` returns in call `i` of `stream_write`, for a number of bytes
abbrev pub Kernel : Type 0
Kernel = ℕ → ℕ → WriteResult

-- a stream and the bytes that the kernel took from it
abbrev pub Writer : Type 0 → Type 0
Writer Loop = Stream Loop × List ℕ

module _ {Loop : Type 0} ⦃ev : EventLoop Loop⦄ where
  -- `stream_write` in call `i`, as `cli_put_tx_data` and `init_telnet_session` make it
  unfoldable pub cli_put_tx_data : Kernel → ℕ → List ℕ → Writer Loop → Writer Loop
  cli_put_tx_data kernel i bytes (stream, sent) =
      let r = stream_write stream bytes (kernel i (length bytes)) in (r.stream, sent ++ r.out)

  -- the calls from call `i` on
  unfoldable pub put_all : Kernel → ℕ → List (List ℕ) → Writer Loop → Writer Loop
  put_all kernel i [] w = w
  put_all kernel i (bytes ∷ more) w = put_all kernel (i + 1) more (cli_put_tx_data kernel i bytes w)

-- `cli_connection_t`, with the bytes that the kernel took and the number of calls of the interface's
-- `put_tx_data` that were written to the stream
pub record CliConnection (Loop : Type 0) : Type 0 where
  pub stream : Stream Loop
  pub cli_intf : CliIntf
  pub telnet : TelnetReader
  pub sent : List ℕ
  pub writes : ℕ

-- TELOPT_SGA and TELOPT_ECHO of arpa/telnet.h
pub record Options : Type 0 where
  pub sga : ℕ
  pub echo : ℕ

-- `iacs_to_send`
abbrev pub iacs_to_send : Codes → Options → List ℕ
iacs_to_send k o = k.iac ∷ k.will_code ∷ o.sga ∷ k.iac ∷ k.will_code ∷ o.echo ∷ []

module _ (user : List Command) where
  unfoldable pub telnet_rx_databack : TelnetReader → ℕ → CliIntf → CliIntf
  telnet_rx_databack tr d intf = if d == 0 then intf else cli_handle_rx user intf (d ∷ [])

  abbrev pub telnet_rx_cmdback : TelnetReader → CliIntf → CliIntf
  telnet_rx_cmdback tr intf = intf

  module _ {Loop : Type 0} ⦃ev : EventLoop Loop⦄ (k : Codes) (kernel : Kernel) where
    -- The calls of `put_tx_data` that were not written yet. Call 0 is that of `init_telnet_session`.
    unfoldable pub flush : CliConnection Loop → CliConnection Loop
    flush conn =
        let (stream, sent) =
          put_all kernel (1 + conn.writes) (drop conn.writes conn.cli_intf.tx)
            (conn.stream, conn.sent) in
        record conn { stream = stream; sent = sent; writes = length conn.cli_intf.tx }

    -- The connection is what `malloc` gives: its interface and its reader are what is in the memory,
    -- and the interface has printed nothing.
    unfoldable pub alloc_cli_connection :
        Options → Loop → List ℕ → Option (List ℕ) → CliConnection Loop → CliConnection Loop
    alloc_cli_connection o l rx_buf storage conn =
        let (stream, sent) =
          cli_put_tx_data kernel 0 (iacs_to_send k o)
            (stream_start (stream_init_with_fd l rx_buf 128 storage 128), []) in
        flush (record {
          stream = stream;
          telnet = telnet_reader_init conn.telnet;
          cli_intf = cli_handle_rx user (record (conn.cli_intf) { tx = [] }) (13 ∷ []);
          sent = sent;
          writes = 0;
        })

    -- `none` is a connection that is freed.
    unfoldable pub handle_stream_event :
        StreamEvent → CliConnection Loop → Option (CliConnection Loop)
    handle_stream_event StreamEvent.rx conn =
        let (telnet, intf) =
          telnet_reader_feed k telnet_rx_databack telnet_rx_cmdback conn.telnet
            (take conn.stream.rx_data_len conn.stream.rx_buf) conn.cli_intf in
        some (flush (record conn { telnet = telnet; cli_intf = intf }))
    handle_stream_event StreamEvent.eof conn = none
    handle_stream_event StreamEvent.err conn = none
    handle_stream_event StreamEvent.tx conn = some conn

    -- `stream->cb`, where the callback of the watcher comes to it
    abbrev pub called_back : Option StreamEvent → CliConnection Loop → Option (CliConnection Loop)
    called_back none conn = some conn
    called_back (some e) conn = handle_stream_event e conn

    -- a descriptor that can be read
    unfoldable pub readable : ReadResult → CliConnection Loop → Option (CliConnection Loop)
    readable rd conn = elim (stream_watcher_callback conn.stream WatcherEvent.rx rd would_block) [
      | none ↦ none
      | some r ↦ called_back r.result (record conn { stream = r.stream })
    ]
