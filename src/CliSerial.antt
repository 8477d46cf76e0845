-- ===== src/CliSerial.antt =====
-- src/cli/cli_serial.c: the command line on a serial line. As in CliTelnet, what `write` returns is an
-- argument, and what the command line prints during one event is written at its end, call by call.
pub mod Typed
mod Examples
use kongjaexpress.Prelude.{ℕ, List, [], ◌∷◌, Bool, Option, none, some, length, take, drop}
use kongjaexpress.Watcher.{EventLoop}
use kongjaexpress.Stream.{
  Stream, StreamEvent, ReadResult, WatcherEvent, would_block, stream_init_with_fd, stream_start,
  stream_watcher_callback,
}
use kongjaexpress.Cli.{CliIntf, Command, cli_handle_rx}
use kongjaexpress.CliTelnet.{Kernel, put_all}
use kongjaexpress.Serial.{SerialConfig, parity_none, Termios, Tty, serial_init}

-- `cli_serial_if_t`, with the bytes that the kernel took and the number of calls of the interface's
-- `put_tx_data` that were written to the stream
pub record CliSerialIf (Loop : Type 0) : Type 0 where
  pub stream : Stream Loop
  pub cli_intf : CliIntf
  pub sent : List ℕ
  pub writes : ℕ

-- `cfg1`, for B115200
abbrev pub cfg1 : ℕ → SerialConfig
cfg1 b115200 = record { baud = b115200; data_bit = 8; stop_bit = 1; parity = parity_none }

module _ {Loop : Type 0} ⦃ev : EventLoop Loop⦄ where
  -- The interface after `serial_init`. `storage` is the `malloc` of the stream.
  unfoldable pub cli_serial_initialize :
      Option ℕ → Loop → List ℕ → Option (List ℕ) → CliSerialIf Loop → CliSerialIf Loop
  cli_serial_initialize none l rx_buffer storage intf = intf
  cli_serial_initialize (some fd) l rx_buffer storage intf = record intf {
    stream = stream_start (stream_init_with_fd l rx_buffer 128 storage 1024);
  }

  unfoldable pub cli_serial_intf_init :
      Termios
      → ℕ
      → Option ℕ
      → Bool
      → Tty
      → Loop
      → List ℕ
      → Option (List ℕ)
      → CliSerialIf Loop
      → CliSerialIf Loop
  cli_serial_intf_init t b115200 opened done tty l rx_buffer storage intf =
      cli_serial_initialize (serial_init t (cfg1 b115200) opened done tty).0 l rx_buffer storage
        intf

  module _ (user : List Command) (kernel : Kernel) where
    -- The calls of `put_tx_data` that were not written yet.
    unfoldable pub write_out : CliSerialIf Loop → CliSerialIf Loop
    write_out intf =
        let (stream, sent) =
          put_all kernel intf.writes (drop intf.writes intf.cli_intf.tx) (intf.stream, intf.sent) in
        record intf { stream = stream; sent = sent; writes = length intf.cli_intf.tx }

    -- An end and an error are only traced.
    unfoldable pub serial_stream_event : Option StreamEvent → CliSerialIf Loop → CliSerialIf Loop
    serial_stream_event (some StreamEvent.rx) intf = write_out (record intf {
      cli_intf = cli_handle_rx user intf.cli_intf (take intf.stream.rx_data_len intf.stream.rx_buf);
    })
    serial_stream_event (some StreamEvent.eof) intf = intf
    serial_stream_event (some StreamEvent.err) intf = intf
    serial_stream_event (some StreamEvent.tx) intf = intf
    serial_stream_event none intf = intf

    -- a descriptor that can be read
    unfoldable pub serial_readable : ReadResult → CliSerialIf Loop → Option (CliSerialIf Loop)
    serial_readable rd intf =
        elim (stream_watcher_callback intf.stream WatcherEvent.rx rd would_block) [
          | none ↦ none
          | some r ↦ some (serial_stream_event r.result (record intf { stream = r.stream }))
        ]

    -- the reads of a line, each of them an event
    unfoldable pub serial_reads : List ReadResult → CliSerialIf Loop → Option (CliSerialIf Loop)
    serial_reads [] intf = some intf
    serial_reads (rd ∷ more) intf = elim (serial_readable rd intf) [
      | none ↦ none
      | some intf' ↦ serial_reads more intf'
    ]
