-- ===== src/CliTelnet/Session.antt =====
-- The lines that a telnet client types, however its bytes arrive.
use kongjaexpress.Prelude.{
  ℕ, ◌≤◌, ◌≡◌, refl, sym, ap, ◌∙◌, arith, List, [], ◌∷◌, true, false, Option, none, some, ◌==◌,
  if◌then◌else◌, length, write_at, length-write_at, take-write_at_zero, drop, ◌+◌,
}
use kongjaexpress.Prelude.Bytes.{All}
use kongjaexpress.Watcher.{EventLoop}
use kongjaexpress.Stream.{got, stream_watcher_callback, stream_init_with_fd, stream_start}
use kongjaexpress.Cli.{CliIntf, Command, cli_handle_rx}
use kongjaexpress.Cli.Edit.{IsBounded}
use kongjaexpress.Cli.Lines.{view, type_bytes, view-cli_handle_rx}
use kongjaexpress.Telnet.{
  Codes, TelnetReader, start, telnet_reader_move_state, telnet_reader_init, telnet_reader_feed,
}
use kongjaexpress.Telnet.Data.{escape, data_all, feed_nil, feed-escape, feed-append}
use kongjaexpress.Modbus.Mbap.Stream.{joined}
use kongjaexpress.CliTelnet.Output.{client-put, client-put_all}
use kongjaexpress.CliTelnet.{
  Kernel, Options, iacs_to_send, flush, CliConnection, telnet_rx_databack, telnet_rx_cmdback,
  alloc_cli_connection, handle_stream_event, readable,
}

-- bytes without the zeros
unfoldable pub typed : List ℕ → List ℕ
typed [] = []
typed (b ∷ bs) = if b == 0 then typed bs else b ∷ typed bs

module _ (user : List Command) where
  data_all-typed :
      (k : Codes) (tr : TelnetReader) (bs : List ℕ) (intf : CliIntf)
      → data_all k (telnet_rx_databack user) (telnet_rx_cmdback user) tr bs intf
        ≡ cli_handle_rx user intf (typed bs)
  unfolding typed telnet_rx_databack cli_handle_rx
  data_all-typed k tr [] intf = refl
  data_all-typed k tr (b ∷ bs) intf =
      data_all-typed k tr bs (telnet_rx_databack user tr b intf)
      ∙ (elim (b == 0)
          as (λ z.
            cli_handle_rx user (if z then intf else cli_handle_rx user intf (b ∷ [])) (typed bs)
            ≡ cli_handle_rx user intf (if z then typed bs else b ∷ typed bs)) [
              | true ↦ refl
              | false ↦ refl
            ])

  abbrev fed : Codes → List ℕ → TelnetReader → CliIntf → TelnetReader × CliIntf
  fed k bs reader intf =
      telnet_reader_feed k (telnet_rx_databack user) (telnet_rx_cmdback user) reader bs intf

  module _ {Loop : Type 0} ⦃ev : EventLoop Loop⦄ (k : Codes) (kernel : Kernel) where
    -- the reads of a session, each of them an event
    unfoldable pub session : List (List ℕ) → CliConnection Loop → Option (CliConnection Loop)
    session [] conn = some conn
    session (bs ∷ reads) conn = elim (readable user k kernel (got bs) conn) [
      | none ↦ none
      | some conn' ↦ session reads conn'
    ]

    -- the connection after a read whose bytes the reader is given
    abbrev after_read : List ℕ → List ℕ → CliConnection Loop → CliConnection Loop
    after_read bs given conn = flush user k kernel (record conn {
      stream = record (conn.stream) {
        rx_buf = write_at conn.stream.rx_buf 0 bs;
        rx_data_len = length bs;
      };
      telnet = (fed k given conn.telnet conn.cli_intf).0;
      cli_intf = (fed k given conn.telnet conn.cli_intf).1;
    })

    abbrev pub after : List ℕ → CliConnection Loop → CliConnection Loop
    after bs conn = after_read bs bs conn

    readable-after :
        (bs : List ℕ) (conn : CliConnection Loop)
        → length bs ≤ length conn.stream.rx_buf
        → readable user k kernel (got bs) conn ≡ some (after bs conn)
    unfolding readable stream_watcher_callback handle_stream_event
    readable-after bs conn fits =
        ap (λ (xs : List ℕ). some (after_read bs xs conn))
          (take-write_at_zero bs conn.stream.rx_buf fits)

    pub flush-rx_buf :
        (conn : CliConnection Loop) → (flush user k kernel conn).stream.rx_buf ≡ conn.stream.rx_buf
    unfolding flush
    flush-rx_buf conn =
        (client-put_all conn.stream.tx_buf.size kernel (drop conn.writes conn.cli_intf.tx)
          (1 + conn.writes) (conn.stream, conn.sent) refl).1

    -- the first read of a session
    pub session_read :
        (bs : List ℕ) (reads : List (List ℕ)) (conn : CliConnection Loop)
        → length bs ≤ length conn.stream.rx_buf
        → session (bs ∷ reads) conn ≡ session reads (after bs conn)
    unfolding session
    session_read bs reads conn fits =
        ap
          (λ o. elim o as (λ x. Option (CliConnection Loop)) [
            | none ↦ none
            | some c ↦ session reads c
          ])
          (readable-after bs conn fits)

    pub length-after :
        (bs : List ℕ) (conn : CliConnection Loop)
        → length (after bs conn).stream.rx_buf ≡ length conn.stream.rx_buf
    length-after bs conn = ap length (flush-rx_buf _) ∙ length-write_at bs conn.stream.rx_buf 0

    pub session-joined :
        (n : ℕ) (reads : List (List ℕ)) (conn : CliConnection Loop)
        → length conn.stream.rx_buf ≡ n
        → All (λ bs. length bs ≤ n) reads
        → (conn' : CliConnection Loop) × (session reads conn ≡ some conn')
          × ((conn'.telnet, conn'.cli_intf) ≡ fed k (joined reads) conn.telnet conn.cli_intf)
    unfolding session flush
    session-joined n [] conn size fits = (
      conn,
      refl,
      sym (feed_nil k (telnet_rx_databack user) (telnet_rx_cmdback user) conn.telnet conn.cli_intf),
    )
    session-joined n (bs ∷ reads) conn size fits =
        let next = after bs conn in
        let (conn', ran, same) = session-joined n reads next (length-after bs conn ∙ size) fits.1 in
        (
          conn',
          session_read bs reads conn (omega (arith, fits.0, size)) ∙ ran,
          same
              ∙ sym (
                  feed-append k (telnet_rx_databack user) (telnet_rx_cmdback user) bs (joined reads)
                    conn.telnet conn.cli_intf),
        )

    pub length-alloc :
        (o : Options) (l : Loop) (rx_buf : List ℕ) (storage : Option (List ℕ))
        (conn : CliConnection Loop)
        → length (alloc_cli_connection user k kernel o l rx_buf storage conn).stream.rx_buf
          ≡ length rx_buf
    unfolding alloc_cli_connection stream_start stream_init_with_fd
    length-alloc o l rx_buf storage conn =
        ap length (flush-rx_buf _ ∙ (client-put kernel 0 (iacs_to_send k o) _).1)

    -- A connection is set up over 128 bytes to read to, and its client types bytes, which it sends
    -- with each IAC doubled and which are read cut at any places, at most 128 at a time. The memory
    -- of the connection holds a line of at most 252 bytes. The connection stays open, and its
    -- interface executes what an editor executes that is given the end of a line, at which it
    -- executes what was in the memory, and then the bytes without the zeros among them.
    pub session-type_bytes :
        (o : Options) (l : Loop) (rx_buf : List ℕ) (storage : Option (List ℕ))
        (conn : CliConnection Loop) (reads : List (List ℕ)) (bytes : List ℕ)
        → IsBounded conn.cli_intf
        → length rx_buf ≡ 128
        → All (λ bs. length bs ≤ 128) reads
        → joined reads ≡ escape k bytes
        → (conn' : CliConnection Loop) × (session reads
              (alloc_cli_connection user k kernel o l rx_buf storage conn)
            ≡ some conn')
          × (view conn'.cli_intf ≡ type_bytes user (view conn.cli_intf) (13 ∷ typed bytes))
    unfolding alloc_cli_connection flush stream_init_with_fd stream_start telnet_reader_init
        cli_handle_rx
    session-type_bytes o l rx_buf storage conn reads bytes h size fits cut =
        let start_conn = alloc_cli_connection user k kernel o l rx_buf storage conn in
        let tr = record (conn.telnet) { buf_ndx = 0 } in
        let first = cli_handle_rx user (record (conn.cli_intf) { tx = [] }) (13 ∷ []) in
        let (conn', ran, same) =
          session-joined 128 reads start_conn (length-alloc o l rx_buf storage conn ∙ size) fits in
        let whole =
          same
          ∙ ap (λ (bs : List ℕ). fed k bs (telnet_reader_move_state tr start) first) cut
          ∙ feed-escape k (telnet_rx_databack user) (telnet_rx_cmdback user) bytes tr first in
        (
          conn',
          ran,
          ap (λ (x : TelnetReader × CliIntf). view x.1) whole
              ∙ ap view (data_all-typed k (telnet_reader_move_state tr start) bytes first)
              ∙ (view-cli_handle_rx user (13 ∷ typed bytes) (record (conn.cli_intf) { tx = [] })
                  (record { memory = h.memory; short = h.short })).0,
        )
