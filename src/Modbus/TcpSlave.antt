-- ===== src/Modbus/TcpSlave.antt =====
-- src/protocols/modbus/modbus_tcp_slave.c: what the slave does with a frame of one connection. The
-- reader of the connection calls it back; the results of `write` are an argument. The list of the
-- connections and the server that accepts them are left out.
pub mod Serve
pub mod Connections
pub mod Examples
use kongjaexpress.Prelude.{
  ℕ, ◌+◌, ◌-◌, ◌/◌, ◌%◌, ◌^◌, List, [], ◌∷◌, ◌++◌, Bool, ◌||◌, ◌==◌, if◌then◌else◌, take, drop, set,
  length,
}
use kongjaexpress.Watcher.{EventLoop}
use kongjaexpress.Stream.{Stream, WriteResult, stream_write}
use kongjaexpress.Modbus.Common.{SlaveCtx, SlaveCallbacks, address_broadcast}
use kongjaexpress.Modbus.Funcs.{Pdu}
use kongjaexpress.Modbus.Funcs.Dispatch.{Response, modbus_rtu_handler_request_rx}
use kongjaexpress.Modbus.Mbap.{MbapReader}
use kongjaexpress.Modbus.RtuSlave.{inc32}

-- The slave, the stream of the connection, the state of the application, and the frames that were
-- given to `stream_write`, the last one first.
pub record TcpSlave (Loop D : Type 0) : Type 0 where
  pub ctx : SlaveCtx
  pub my_address : ℕ
  pub stream : Stream Loop
  pub dev : D
  pub sent : List (List ℕ)

-- the length of the unit and the PDU in the header, and the frame up to the end of the PDU
unfoldable pub finish_tcp_frame : List ℕ → ℕ → List ℕ
finish_tcp_frame frame rsp_len =
    let n = (rsp_len + 1) % 2 ^ 16 in
    take ((n + 6) % 2 ^ 16) (set (set frame 4 (n / 2 ^ 8 % 2 ^ 8)) 5 (n % 2 ^ 8))

module _ {Loop D : Type 0} ⦃ev : EventLoop Loop⦄ (cb : SlaveCallbacks D)
    (ret : ℕ → WriteResult) where
  -- the PDU in the frame of the reader
  abbrev pub tcp_request : MbapReader → TcpSlave Loop D → Pdu D
  tcp_request mbap s = record {
    frame = drop 7 mbap.frame;
    len = (mbap.length + 2 ^ 16 - 1) % 2 ^ 16;
    dev = s.dev;
  }

  unfoldable pub modbus_tcp_slave_handle_rx_frame :
      MbapReader → TcpSlave Loop D → MbapReader × TcpSlave Loop D
  modbus_tcp_slave_handle_rx_frame mbap s =
      let r = modbus_rtu_handler_request_rx cb mbap.uid (tcp_request mbap s) in
      let frame = take 7 mbap.frame ++ r.pdu.frame in
      let n = (r.pdu.len + 1) % 2 ^ 16 in
      let served = record s { dev = r.pdu.dev } in
      let response = finish_tcp_frame frame r.pdu.len in
      let w = stream_write s.stream response (ret (length s.sent)) in
      let answered = record served {
        stream = w.stream;
        sent = response ∷ s.sent;
        ctx = record (s.ctx) {
          my_frames = inc32 s.ctx.my_frames;
          req_fails = if r.ready then s.ctx.req_fails else inc32 s.ctx.req_fails;
        };
      } in
      if mbap.uid == s.my_address || mbap.uid == address_broadcast
      then (if mbap.uid == address_broadcast then (record mbap { frame = frame }, served) else (
        record mbap { frame = set (set frame 4 (n / 2 ^ 8 % 2 ^ 8)) 5 (n % 2 ^ 8) },
        answered,
      ))
      else (mbap, s)

  unfoldable pub modbus_tcp_slave_got_frame :
      MbapReader → TcpSlave Loop D → MbapReader × TcpSlave Loop D
  modbus_tcp_slave_got_frame mbap s = modbus_tcp_slave_handle_rx_frame mbap s
