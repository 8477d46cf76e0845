-- ===== src/Modbus/TcpSlave/Connections/Reads.antt =====
-- What reads of a connection do: the stream has no part in what a frame does but for the stream.
use kongjaexpress.Prelude.{
  ℕ, ◌≤◌, ◌≡◌, refl, ap, ◌∙◌, sym, arith, List, [], ◌∷◌, ◌++◌, none, some, length, take, write_at,
  length-write_at, take-write_at_zero,
}
use kongjaexpress.Prelude.Bytes.{All}
use kongjaexpress.Watcher.{EventLoop}
use kongjaexpress.Stream.{
  Stream, WriteResult, wrote, would_block, failed, WatcherEvent, got, stream_write,
  stream_watcher_callback,
}
use kongjaexpress.Modbus.Common.{SlaveCallbacks}
use kongjaexpress.Modbus.Funcs.Dispatch.{modbus_rtu_handler_request_rx}
use kongjaexpress.Modbus.Mbap.{MbapReader, mbap_reader_feed}
use kongjaexpress.Modbus.Mbap.World.{feed-keeps, feed-part}
use kongjaexpress.Modbus.Mbap.Stream.{feed_reads}
use kongjaexpress.Modbus.TcpSlave.{
  TcpSlave, tcp_request, finish_tcp_frame, modbus_tcp_slave_handle_rx_frame,
  modbus_tcp_slave_got_frame,
}
use kongjaexpress.Modbus.TcpSlave.Connections.Steps.{run_next, event_step}
use kongjaexpress.Modbus.TcpSlave.Connections.{
  Connection, ModbusTcpSlave, Event, event_on, find_connection, update_connection, view,
  modbus_tcp_slave_handle_stream_event, connection_event, step, run,
}

-- the slave with its stream replaced
abbrev pub with_stream : {Loop D : Type 0} → Stream Loop → TcpSlave Loop D → TcpSlave Loop D
with_stream st v = record v { stream = st }

module _ {Loop D : Type 0} ⦃ev : EventLoop Loop⦄ (cb : SlaveCallbacks D)
    (ret : ℕ → WriteResult) where
  -- a frame, for a slave whose stream stays as it is
  abbrev pub got_frame_apart :
      Stream Loop → MbapReader → TcpSlave Loop D → MbapReader × TcpSlave Loop D
  got_frame_apart st r v =
      let (r', v') = modbus_tcp_slave_got_frame cb ret r v in (r', with_stream st v')

  -- What a frame does, but for the stream, does not depend on the stream.
  pub frame-apart :
      (st : Stream Loop) (r : MbapReader) (v : TcpSlave Loop D)
      → got_frame_apart st r (with_stream st v) ≡ (
        (modbus_tcp_slave_got_frame cb ret r v).0,
        with_stream st (modbus_tcp_slave_got_frame cb ret r v).1,
      )
  unfolding modbus_tcp_slave_got_frame modbus_tcp_slave_handle_rx_frame
  frame-apart st r v = ground arith

  write-rx_buf :
      (st : Stream Loop) (bs : List ℕ) (w : WriteResult)
      → (stream_write st bs w).stream.rx_buf ≡ st.rx_buf
  unfolding stream_write
  write-rx_buf st bs (wrote n) = ground arith
  write-rx_buf st bs would_block = ground arith
  write-rx_buf st bs failed = ground arith

  -- A frame leaves the address of the slave and the size of the receive buffer as they are.
  abbrev KeptOf : ℕ → ℕ → TcpSlave Loop D → Type 0
  KeptOf a n v = (v.my_address ≡ a) × (length v.stream.rx_buf ≡ n)

  frame-kept :
      (a n : ℕ) (r : MbapReader) (v : TcpSlave Loop D)
      → KeptOf a n v
      → KeptOf a n (modbus_tcp_slave_got_frame cb ret r v).1
  unfolding modbus_tcp_slave_got_frame modbus_tcp_slave_handle_rx_frame
  frame-kept a n r v h =
      let response =
        finish_tcp_frame
          (take 7 r.frame
            ++ (modbus_rtu_handler_request_rx cb r.uid (tcp_request cb ret r v)).pdu.frame)
          (modbus_rtu_handler_request_rx cb r.uid (tcp_request cb ret r v)).pdu.len in
      ground (arith, write-rx_buf v.stream response (ret (length v.sent)))

module _ {Loop : Type 0} where
  pub find_connection-update_self :
      (sd : ℕ) (xs : List (Connection Loop)) (c x : Connection Loop)
      → find_connection sd xs ≡ some x
      → c.sd ≡ sd
      → find_connection sd (update_connection c xs) ≡ some c
  unfolding find_connection update_connection
  find_connection-update_self sd [] c x h e = absurd (ground arith)
  find_connection-update_self sd (y ∷ xs) c x h e =
      ground (arith, find_connection-update_self sd xs c x)

  pub find_connection-append_new :
      (sd : ℕ) (xs : List (Connection Loop)) (c : Connection Loop)
      → find_connection sd xs ≡ none
      → c.sd ≡ sd
      → find_connection sd (xs ++ c ∷ []) ≡ some c
  unfolding find_connection
  find_connection-append_new sd [] c h e = ground arith
  find_connection-append_new sd (y ∷ xs) c h e = ground (arith, find_connection-append_new sd xs c)

-- the events of reads on a descriptor
abbrev pub reads_on : {Loop : Type 0} → ℕ → List (List ℕ) → List (Event Loop)
reads_on sd [] = []
reads_on sd (bs ∷ reads) = event_on sd WatcherEvent.rx (got bs) would_block ∷ reads_on sd reads

module _ {Loop D : Type 0} ⦃ev : EventLoop Loop⦄ (cb : SlaveCallbacks D)
    (ret : ℕ → ℕ → WriteResult) where
  -- the connection with what was read, its reader and the slave when the bytes are handled, and
  -- the connection and the slave after that
  abbrev given : Connection Loop → List ℕ → Connection Loop
  given c bs = record c {
    stream = record (c.stream) { rx_buf = write_at c.stream.rx_buf 0 bs; rx_data_len = length bs };
  }

  abbrev fed : ModbusTcpSlave Loop D → Connection Loop → List ℕ → MbapReader × TcpSlave Loop D
  fed s c bs =
      mbap_reader_feed (modbus_tcp_slave_got_frame cb (ret c.sd)) c.mbap_reader bs
        (view s (given c bs))

  abbrev conn_after : ModbusTcpSlave Loop D → Connection Loop → List ℕ → Connection Loop
  conn_after s c bs =
      let (r, v) = fed s c bs in record c { stream = v.stream; mbap_reader = r; sent = v.sent }

  abbrev slave_after : ModbusTcpSlave Loop D → Connection Loop → List ℕ → ModbusTcpSlave Loop D
  slave_after s c bs =
      let (r, v) = fed s c bs in
      record s {
        ctx = v.ctx;
        dev = v.dev;
        connections =
            update_connection (conn_after s c bs) (update_connection (given c bs) s.connections);
      }

  module _ (s : ModbusTcpSlave Loop D) (c : Connection Loop) (bs : List ℕ)
      (found : find_connection c.sd s.connections ≡ some c) where
    -- A read of a connection feeds its reader with the bytes that were read.
    read-step :
        length bs ≤ length c.stream.rx_buf
        → step cb ret (event_on c.sd WatcherEvent.rx (got bs) would_block) s
          ≡ some (slave_after s c bs)
    unfolding connection_event stream_watcher_callback modbus_tcp_slave_handle_stream_event
    read-step fits =
        let bytes : take (length bs) (write_at c.stream.rx_buf 0 bs) ≡ bs =
          take-write_at_zero bs c.stream.rx_buf fits in
        event_step cb ret c.sd WatcherEvent.rx (got bs) would_block s c found ∙ rw bytes refl

    after-found : find_connection c.sd (slave_after s c bs).connections ≡ some (conn_after s c bs)
    after-found =
        find_connection-update_self c.sd (update_connection (given c bs) s.connections)
          (conn_after s c bs) (given c bs)
          (find_connection-update_self c.sd s.connections (given c bs) c found refl) refl

    after-kept :
        ((fed s c bs).1.my_address ≡ s.my_address)
        × (length (conn_after s c bs).stream.rx_buf ≡ length c.stream.rx_buf)
    after-kept =
        feed-keeps (modbus_tcp_slave_got_frame cb (ret c.sd))
          (KeptOf cb (ret c.sd) s.my_address (length c.stream.rx_buf))
          (frame-kept cb (ret c.sd) s.my_address (length c.stream.rx_buf)) bs c.mbap_reader
          (view s (given c bs)) (refl, length-write_at bs c.stream.rx_buf 0)

    after-fed :
        (st : Stream Loop)
        → (
          (conn_after s c bs).mbap_reader,
          with_stream st (view (slave_after s c bs) (conn_after s c bs)),
        )
          ≡ mbap_reader_feed
              (got_frame_apart cb (ret c.sd) st)
              c.mbap_reader
              bs
              (with_stream st (view s c))
    after-fed st =
        let v = (fed s c bs).1 in
        ap
          (λ (a : ℕ). (
            (fed s c bs).0,
            record { ctx = v.ctx; my_address = a; stream = st; dev = v.dev; sent = v.sent },
          ))
          (sym after-kept.0)
        ∙ sym (
            feed-part (modbus_tcp_slave_got_frame cb (ret c.sd)) (got_frame_apart cb (ret c.sd) st)
              (with_stream st) (frame-apart cb (ret c.sd) st) bs c.mbap_reader
              (view s (given c bs)))

  pub reads-served :
      (n : ℕ) (reads : List (List ℕ)) (s : ModbusTcpSlave Loop D) (c : Connection Loop)
      (st : Stream Loop)
      → find_connection c.sd s.connections ≡ some c
      → length c.stream.rx_buf ≡ n
      → All (λ bs. length bs ≤ n) reads
      → (s' : ModbusTcpSlave Loop D) × (c' : Connection Loop) × (run cb ret (reads_on c.sd reads) s
          ≡ some s')
        × (find_connection c.sd s'.connections ≡ some c')
        × ((c'.mbap_reader, with_stream st (view s' c'))
            ≡ feed_reads
                (got_frame_apart cb (ret c.sd) st)
                c.mbap_reader
                reads
                (with_stream st (view s c)))
  unfolding run feed_reads
  reads-served n [] s c st found size fits = (s, c, refl, found, refl)
  reads-served n (bs ∷ reads) s c st found size fits =
      let fits_now : length bs ≤ length c.stream.rx_buf = omega (arith, fits.0, size) in
      let (s', c', ran, found', same) =
        reads-served n reads (slave_after s c bs) (conn_after s c bs) st (after-found s c bs found)
          ((after-kept s c bs found).1 ∙ size) fits.1 in
      (
        s',
        c',
        run_next cb ret (event_on c.sd WatcherEvent.rx (got bs) would_block) (reads_on c.sd reads) s
            (slave_after s c bs) s' (read-step s c bs found fits_now) ran,
        found',
        same
            ∙ ap
                (λ (x : MbapReader × TcpSlave Loop D).
                  feed_reads (got_frame_apart cb (ret c.sd) st) x.0 reads x.1)
                (after-fed s c bs found st),
      )
