-- ===== src/Modbus/TcpMaster/Frames.antt =====
-- The frames of requests, and the check of the transaction of a response.
use kongjaexpress.Prelude.{
  write_at-zero, drop-take_lem, ℕ, ◌+◌, ◌-◌, ◌/◌, ◌%◌, ◌^◌, ◌≤◌, ◌<◌, ◌≡◌, refl, sym, ap, ap₂, ◌∙◌,
  List, ◌∷◌, ◌++◌, true, Option, some, arith, ◌==◌, if◌then◌else◌, take, drop, write_at, length,
  take-add-append, length-take, length-drop,
}
use kongjaexpress.Prelude.Bytes.{word16-octets}
use kongjaexpress.Watcher.{EventLoop}
use kongjaexpress.Stream.{WriteResult, stream_write}
use kongjaexpress.TcpConnector.{Attempt}
use kongjaexpress.Modbus.Mbap.{MbapReader, fresh, mbap_reader_feed}
use kongjaexpress.Modbus.Mbap.Framing.{Header, header_bytes, deliver, feed_frame}
use kongjaexpress.Modbus.Master.{MasterCtx}
use kongjaexpress.Modbus.Master.Built.{pdu_of}
use kongjaexpress.Modbus.Master.Validate.{MasterCall, modbus_rtu_handler_response_rx}
use kongjaexpress.Modbus.TcpMaster.{
  TcpMaster, TcpState, connected, header_of, modbus_tcp_master_got_frame, modbus_tcp_master_request,
  request_in, next_tid,
}

-- the header of a request
abbrev pub header : ℕ → ℕ → ℕ → ℕ → Header
header tid pid n slave = record {
  tid_hi = tid / 2 ^ 8;
  tid_lo = tid % 2 ^ 8;
  pid_hi = pid / 2 ^ 8;
  pid_lo = pid % 2 ^ 8;
  length_hi = n / 2 ^ 8;
  length_lo = n % 2 ^ 8;
  uid = slave;
}

-- the frame as the code builds it
frame-eq :
    (buf : List ℕ) (tid pid n slave k : ℕ)
    → 7 + k ≤ length buf
    → take (7 + k) (write_at buf 0 (header_of tid pid n slave))
      ≡ header_bytes (header tid pid n slave) ++ drop 7 (take (7 + k) buf)
frame-eq buf tid pid n slave k h =
    ap (take (7 + k)) (write_at-zero (header_of tid pid n slave) buf (omega arith))
    ∙ take-add-append k (header_of tid pid n slave) (drop 7 buf)
    ∙ ap (λ (t : List ℕ). header_of tid pid n slave ++ t) (sym (drop-take_lem 7 k buf))

module _ {Loop : Type 0} ⦃ev : EventLoop Loop⦄ (l : Loop) (storage : Option (List ℕ)) (fuel : ℕ)
    (attempt : Attempt) (ret : WriteResult) (slave : ℕ) (m : TcpMaster Loop) where
  -- the frame of a request whose PDU is in the context
  abbrev pub frame_of : List ℕ
  frame_of = header_bytes (header m.tid m.pid (length (pdu_of m.ctx) + 1) slave) ++ pdu_of m.ctx

  -- A connected master with a PDU of 1 to 253 bytes in its context, behind the seven bytes of the
  -- header, and a stream that accepts the frame of the request. The request gives that frame to the
  -- stream, moves to the next transaction, 0 after 65535, and changes neither the protocol nor
  -- anything but the buffer in its context; and the reader of a peer that is fed
  -- the frame while it waits for one calls its callback once, with the master's transaction,
  -- protocol and slave and exactly the bytes of the PDU.
  pub request-deliver :
      {W : Type 0} (cb : MbapReader → W → MbapReader × W) (mem : List ℕ) (w : W) (k : ℕ)
      → m.tcp_state ≡ connected
      → m.ctx.pdu_offset ≡ 7
      → m.ctx.tx_ndx ≡ 7 + k
      → 7 + k ≤ length m.ctx.tx_buf
      → 1 ≤ k
      → k ≤ 253
      → (stream_write m.stream frame_of ret).result ≡ true
      → 260 ≤ length mem
      → (m' : TcpMaster Loop) × (modbus_tcp_master_request l storage fuel attempt ret slave m
          ≡ some m')
        × (m'.sent ≡ frame_of ∷ m.sent)
        × (m'.tid ≡ (m.tid + 1) % 2 ^ 16)
        × (m'.ctx ≡ record (m.ctx) { tx_buf = m'.ctx.tx_buf })
        × (m'.pid ≡ m.pid)
        × (mbap_reader_feed cb (fresh mem) frame_of w
            ≡ deliver cb mem
                (header m.tid m.pid (length (pdu_of m.ctx) + 1) slave)
                (pdu_of m.ctx)
                w)
  unfolding modbus_tcp_master_request
  request-deliver cb mem w k on off ndx room some_bytes short accepted space =
      let pdu = pdu_of m.ctx in
      let buf = m.ctx.tx_buf in
      let size : length (pdu_of m.ctx) ≡ k = omega (
        arith,
        off,
        ndx,
        room,
        length-take m.ctx.tx_ndx buf,
        length-drop m.ctx.pdu_offset (take m.ctx.tx_ndx buf),
      ) in
      let n = (m.ctx.tx_ndx + 1 + 2 ^ 16 - 7) % 2 ^ 16 in
      let len : (m.ctx.tx_ndx + 1 + 2 ^ 16 - 7) % 2 ^ 16 ≡ length (pdu_of m.ctx) + 1 =
        omega (arith, size, ndx, short) in
      let stored = write_at buf 0 (header_of m.tid m.pid n slave) in
      let frame : take m.ctx.tx_ndx (write_at buf 0 (header_of m.tid m.pid n slave)) ≡ frame_of =
        ap (λ (j : ℕ). take j (write_at buf 0 (header_of m.tid m.pid n slave))) ndx
        ∙ frame-eq buf m.tid m.pid n slave k room
        ∙ ap₂ (λ (j : ℕ) (p : List ℕ). header_bytes (header m.tid m.pid j slave) ++ p) len
            (sym (ap₂ (λ (i j : ℕ). drop i (take j buf)) off ndx)) in
      let result = ap (λ (f : List ℕ). (stream_write m.stream f ret).result) frame ∙ accepted in
      (
        next_tid l storage fuel attempt (record m {
          ctx = record (m.ctx) { tx_buf = stored };
          stream = (stream_write m.stream (take m.ctx.tx_ndx stored) ret).stream;
          sent = take m.ctx.tx_ndx stored ∷ m.sent;
        }),
        ap (λ (s : TcpState). request_in l storage fuel attempt s ret slave m) on ∙ rw result refl,
        ap (λ (f : List ℕ). f ∷ m.sent) frame,
        refl,
        refl,
        refl,
        feed_frame cb mem (header m.tid m.pid (length pdu + 1) slave) pdu w space
            (word16-octets (length pdu + 1) (omega (arith, size, short))) (omega (arith, size))
            (omega (arith, size)),
      )

-- The response to the last request, which carries its transaction and the master's protocol, leads to
-- what the response handler makes of it; but after the request with transaction 65535 it leads to
-- nothing.
pub request-got_frame :
    (ctx : MasterCtx) (t pid : ℕ) (mbap : MbapReader) (calls : List MasterCall) (call : MasterCall)
    → t < 2 ^ 16
    → mbap.tid ≡ t
    → mbap.pid ≡ pid
    → modbus_rtu_handler_response_rx ctx mbap.uid (drop 7 mbap.frame) (mbap.length - 1) ≡ some call
    → (modbus_tcp_master_got_frame ctx ((t + 1) % 2 ^ 16) pid mbap calls).1
      ≡ (if t == 65535 then calls else call ∷ calls)
unfolding modbus_tcp_master_got_frame
request-got_frame ctx t pid mbap calls call small same_t same_p e =
    ground (arith, same_t, same_p, e)
