-- ===== src/Modbus/Session/Read.antt =====
-- A read from the TCP master to the TCP slave and back.
use kongjaexpress.Prelude.{
  ℕ, ◌+◌, ◌^◌, ◌≤◌, ◌<◌, ◌≡◌, ◌≢◌, refl, ap, ap₂, ◌∙◌, List, ◌∷◌, ◌++◌, true, Option, some, arith,
  ◌==◌, if◌then◌else◌, length, drop, length-write_at, length-drop,
}
use kongjaexpress.Prelude.Bytes.{Bytes}
use kongjaexpress.Watcher.{EventLoop}
use kongjaexpress.Stream.{WriteResult, stream_write}
use kongjaexpress.TcpConnector.{Attempt}
use kongjaexpress.Modbus.Common.{SlaveCallbacks, enoerr, reg_read}
use kongjaexpress.Modbus.Mbap.{fresh, mbap_reader_feed}
use kongjaexpress.Modbus.Mbap.Framing.{header_bytes}
use kongjaexpress.Modbus.TcpSlave.{TcpSlave, modbus_tcp_slave_got_frame}
use kongjaexpress.Modbus.Master.{MasterCtx}
use kongjaexpress.Modbus.Master.Built.{pdu_of, io_status}
use kongjaexpress.Modbus.Master.Accept.{
  ReadKind, coils, discrete_inputs, holding_registers, input_registers, code, limit, built,
  delivered, memory, device, built-pdu_of, built-shape,
}
use kongjaexpress.Modbus.TcpMaster.{
  TcpMaster, connected, modbus_tcp_master_request, modbus_tcp_master_got_frame,
}
use kongjaexpress.Modbus.TcpMaster.Frames.{header, request-deliver}
use kongjaexpress.Modbus.Session.Parts.{
  data_bytes_le, request_frame, response_frame, slave-answer, given_bytes, master-receives,
}

device-length :
    {D : Type 0} (cb : SlaveCallbacks D) (k : ReadKind) (slave addr nb : ℕ) (m : List ℕ) (dev : D)
    → length (device cb k slave addr nb m dev).memory ≡ length m
device-length cb coils slave addr nb m dev = (cb.coil-Stores slave addr nb reg_read m dev).0
device-length cb discrete_inputs slave addr nb m dev = (cb.discrete-Stores slave addr nb m dev).0
device-length cb holding_registers slave addr nb m dev =
    (cb.holding_regs-Stores slave addr nb reg_read m dev).0
device-length cb input_registers slave addr nb m dev = (cb.input_regs-Stores slave addr nb m dev).0

module _ {Loop D : Type 0} ⦃ev : EventLoop Loop⦄ (cb : SlaveCallbacks D)
    (slave_ret : ℕ → WriteResult) (l : Loop) (storage : Option (List ℕ)) (fuel : ℕ)
    (attempt : Attempt) (ret : WriteResult) where
  -- A read over TCP, from the request of the master to the callback of its application. The master
  -- is connected, with protocol 0, and its context holds a request for 1 or more coils, discrete
  -- inputs or registers, fewer than the slave's limit, in a buffer with room for it; its stream
  -- accepts the frame. The slave has the address asked for, which is not the broadcast address, and
  -- its application serves the values without an error; the readers on both sides wait for a frame,
  -- over 260 bytes of memory. Then the master sends a frame; fed with it, the slave sends a frame;
  -- and fed with that, the master calls the callback for that kind of values, with the slave, the
  -- address and the number that were asked for, and memory that begins with exactly the bytes that
  -- the slave's application stored. Only in transaction 65535 it calls nothing.
  pub read-session :
      (k : ReadKind) (ctx : MasterCtx) (addr nb : ℕ) (m : TcpMaster Loop) (s : TcpSlave Loop D)
      (smem mmem : List ℕ)
      → m.ctx ≡ built k ctx s.my_address addr nb
      → ctx.pdu_offset ≡ 7
      → 12 ≤ length ctx.tx_buf
      → length ctx.tx_buf < 2 ^ 16
      → m.tcp_state ≡ connected
      → m.tid < 2 ^ 16
      → m.pid ≡ 0
      → (stream_write m.stream (request_frame k s.my_address addr nb m.tid) ret).result ≡ true
      → s.my_address ≢ 0
      → addr < 2 ^ 16
      → 1 ≤ nb
      → nb < limit k
      → length smem ≡ 260
      → Bytes smem
      → length mmem ≡ 260
      → (device cb k s.my_address addr nb (memory addr nb (drop 12 smem)) s.dev).status ≡ enoerr
      → (m' : TcpMaster Loop) × (request response : List ℕ) × (modbus_tcp_master_request l storage
            fuel attempt ret s.my_address m
          ≡ some m')
        × (m'.sent ≡ request ∷ m.sent)
        × ((mbap_reader_feed
              (modbus_tcp_slave_got_frame cb slave_ret)
              (fresh smem)
              request
              s).1.sent
            ≡ response ∷ s.sent)
        × ((mbap_reader_feed
              (modbus_tcp_master_got_frame m'.ctx m'.tid m'.pid)
              (fresh mmem)
              response
              m'.calls).1
            ≡ (if m.tid == 65535
                then m'.calls
                else delivered k s.my_address addr nb (
                    given_bytes k nb
                      (device cb k s.my_address addr nb
                        (memory addr nb (drop 12 smem))
                        s.dev).memory
                      mmem)
                  ∷ m'.calls))
  read-session k ctx addr nb m s smem mmem shape off room small on tid_small pid accepts unicast
        addr_small some_values few ssize bytes msize ok =
      let slave = s.my_address in
      let io = io_status (code k) addr nb in
      let pdu = ap pdu_of shape ∙ built-pdu_of k ctx slave addr nb (omega arith) small in
      let whole = shape ∙ built-shape k ctx slave addr nb (omega arith) in
      let same_size =
        ap (λ (c : MasterCtx). length c.tx_buf) whole
        ∙ length-write_at io ctx.tx_buf ctx.pdu_offset in
      let frame =
        ap₂ (λ (p : ℕ) (b : List ℕ). header_bytes (header m.tid p (length b + 1) slave) ++ b) pid
          pdu in
      let (m', asked_for, sent, next, same_ctx, same_pid, _) =
        request-deliver l storage fuel attempt ret slave m (λ r w. (r, w)) smem tt 5 on
          (ap (λ (c : MasterCtx). c.pdu_offset) whole ∙ off)
          (ap (λ (c : MasterCtx). c.tx_ndx) whole ∙ ap (λ (n : ℕ). n + 5) off)
          (omega (arith, same_size)) (omega arith) (omega arith)
          (ap (λ (f : List ℕ). (stream_write m.stream f ret).result) frame ∙ accepts)
          (omega arith) in
      let dev = device cb k slave addr nb (memory addr nb (drop 12 smem)) s.dev in
      let (db_small, _) = data_bytes_le k nb few in
      let same = same_ctx ∙ ap (λ (c : MasterCtx). record c { tx_buf = m'.ctx.tx_buf }) whole in
      (
        m',
        request_frame k slave addr nb m.tid,
        response_frame k slave addr nb m.tid dev.memory,
        asked_for,
        sent ∙ ap (λ (f : List ℕ). f ∷ m.sent) frame,
        slave-answer cb slave_ret k slave addr nb m.tid smem s ssize bytes addr_small some_values
            few refl unicast ok,
        ap₂
              (λ (t p : ℕ).
                (mbap_reader_feed (modbus_tcp_master_got_frame m'.ctx t p) (fresh mmem)
                  (response_frame k slave addr nb m.tid dev.memory) m'.calls).1)
              next (same_pid ∙ pid)
            ∙ master-receives k m'.ctx slave addr nb m.tid mmem dev.memory m'.calls msize
                (omega (
                  arith,
                  db_small,
                  device-length cb k slave addr nb (memory addr nb (drop 12 smem)) s.dev,
                  length-drop 12 smem,
                  ssize,
                ))
                few tid_small (ap (λ (c : MasterCtx). c.req_func) same)
                (ap (λ (c : MasterCtx). c.req_reg_addr) same)
                (ap (λ (c : MasterCtx). c.req_nb) same),
      )
