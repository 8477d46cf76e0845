-- ===== src/Modbus/TcpSlave/Connections/Served.antt =====
-- What a client is served over its connection.
use kongjaexpress.Prelude.{ℕ, ◌≤◌, ◌≡◌, refl, ap, ◌∙◌, sym, List, ◌∷◌, none, some, length}
use kongjaexpress.Prelude.Bytes.{All}
use mathlib.Core.Path.{subst}
use kongjaexpress.Watcher.{EventLoop}
use kongjaexpress.TcpServer.{tcp_server_rx_event}
use kongjaexpress.Stream.{WriteResult, stream_init_with_fd, stream_start}
use kongjaexpress.Modbus.Common.{SlaveCallbacks}
use kongjaexpress.Modbus.Mbap.{MbapReader, fresh, mbap_reader_init, mbap_reader_reset}
use kongjaexpress.Modbus.Mbap.World.{feed_reads-part}
use kongjaexpress.Modbus.Mbap.Stream.{Frame, IsFrame, encode_all, joined, feed_reads, deliver_all}
use kongjaexpress.Modbus.TcpSlave.{TcpSlave, modbus_tcp_slave_got_frame}
use kongjaexpress.Modbus.TcpSlave.Serve.{got_frames}
use kongjaexpress.Modbus.TcpSlave.Connections.Reads.{
  with_stream, got_frame_apart, frame-apart, find_connection-append_new, reads_on, reads-served,
}
use kongjaexpress.Modbus.TcpSlave.Connections.Steps.{run_next}
use kongjaexpress.Modbus.TcpSlave.Connections.{
  Connection, ModbusTcpSlave, Memory, accepts, new_connection, modbus_tcp_slave_alloc_conn,
  find_connection, view, step, run,
}

module _ {Loop D : Type 0} ⦃ev : EventLoop Loop⦄ (cb : SlaveCallbacks D)
    (ret : ℕ → ℕ → WriteResult) where
  -- A client sends frames of 1 to 253 data bytes over a connection whose reader waits for a header;
  -- the slave reads them cut at any places, each read at most as long as the receive buffer. It
  -- does not crash, and the connection is still open. Its reader waits for a header again, and what
  -- was sent on it, the counters and the application are as the frames leave them, each handled
  -- once and in order.
  pub reads-answered :
      (reads : List (List ℕ)) (fs : List Frame) (frame : List ℕ) (s : ModbusTcpSlave Loop D)
      (c : Connection Loop)
      → find_connection c.sd s.connections ≡ some c
      → c.mbap_reader ≡ fresh frame
      → 260 ≤ length frame
      → All (λ bs. length bs ≤ length c.stream.rx_buf) reads
      → All IsFrame fs
      → joined reads ≡ encode_all fs
      → let (r, v) =
          deliver_all {W = TcpSlave Loop D}
            (modbus_tcp_slave_got_frame cb (ret c.sd))
            frame
            fs
            (view s c) in
        (s' : ModbusTcpSlave Loop D) × (c' : Connection Loop) × (run cb ret (reads_on c.sd reads) s
          ≡ some s')
        × (find_connection c.sd s'.connections ≡ some c')
        × (c'.mbap_reader ≡ r)
        × (c'.sent ≡ v.sent)
        × (s'.ctx ≡ v.ctx)
        × (s'.dev ≡ v.dev)
  reads-answered reads fs frame s c found waits room fits good cut =
      let f = modbus_tcp_slave_got_frame cb (ret c.sd) in
      let st = c.stream in
      let (s', c', ran, found', same) =
        reads-served cb ret (length st.rx_buf) reads s c st found refl fits in
      let whole =
        same
        ∙ ap (λ (x : MbapReader). feed_reads (got_frame_apart cb (ret c.sd) st) x reads (view s c))
            waits
        ∙ feed_reads-part f (got_frame_apart cb (ret c.sd) st) (with_stream st)
            (frame-apart cb (ret c.sd) st) reads (fresh frame) (view s c)
        ∙ ap (λ (x : MbapReader × TcpSlave Loop D). (x.0, with_stream st x.1))
            (got_frames cb (ret c.sd) reads fs frame (view s c) room good cut) in
      (
        s',
        c',
        ran,
        found',
        ap (λ (x : MbapReader × TcpSlave Loop D). x.0) whole,
        ap (λ (x : MbapReader × TcpSlave Loop D). x.1.sent) whole,
        ap (λ (x : MbapReader × TcpSlave Loop D). x.1.ctx) whole,
        ap (λ (x : MbapReader × TcpSlave Loop D). x.1.dev) whole,
      )

module _ {Loop D : Type 0} ⦃ev : EventLoop Loop⦄ (cb : SlaveCallbacks D)
    (ret : ℕ → ℕ → WriteResult) where
  -- A client connects to the slave on a descriptor that no connection has, where memory for it is
  -- given: 260 bytes for a frame, and 512 bytes to read to. It sends frames of 1 to 253 data bytes,
  -- which the slave reads cut at any places, at most 512 bytes at a time. The slave does not crash,
  -- and the connection is still open. Its reader waits for a header again, and what was sent on it,
  -- the counters and the application are as the frames leave them, each handled once and in order.
  pub client-served :
      (mem : Memory Loop) (sd : ℕ) (reads : List (List ℕ)) (fs : List Frame)
      (s : ModbusTcpSlave Loop D)
      → find_connection sd s.connections ≡ none
      → 260 ≤ length mem.mbap_reader.frame
      → length mem.rx_buf ≡ 512
      → All (λ bs. length bs ≤ 512) reads
      → All IsFrame fs
      → joined reads ≡ encode_all fs
      → let (r, v) =
          deliver_all {W = TcpSlave Loop D}
            (modbus_tcp_slave_got_frame cb (ret sd))
            mem.mbap_reader.frame
            fs
            (view s (new_connection mem sd)) in
        (s' : ModbusTcpSlave Loop D) × (c' : Connection Loop) × (run cb ret
            (accepts (some mem) (some sd) ∷ reads_on sd reads)
            s
          ≡ some s')
        × (find_connection sd s'.connections ≡ some c')
        × (c'.mbap_reader ≡ r)
        × (c'.sent ≡ v.sent)
        × (s'.ctx ≡ v.ctx)
        × (s'.dev ≡ v.dev)
  unfolding step tcp_server_rx_event modbus_tcp_slave_alloc_conn stream_init_with_fd stream_start
      mbap_reader_init mbap_reader_reset
  client-served mem sd reads fs s unused room size fits good cut =
      let c = new_connection mem sd in
      let s₁ = modbus_tcp_slave_alloc_conn (some mem) sd s in
      let (s', c', ran, found, waits, sent, counted, served) =
        reads-answered cb ret reads fs mem.mbap_reader.frame s₁ c
          (find_connection-append_new sd s.connections c unused refl) refl room
          (subst (λ (n : ℕ). All (λ bs. length bs ≤ n) reads) (sym size) fits) good cut in
      (
        s',
        c',
        run_next cb ret (accepts (some mem) (some sd)) (reads_on sd reads) s s₁ s' refl ran,
        found,
        waits,
        sent,
        counted,
        served,
      )
