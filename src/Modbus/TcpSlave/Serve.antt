-- ===== src/Modbus/TcpSlave/Serve.antt =====
-- What the TCP slave answers.
use kongjaexpress.Prelude.{
  ℕ, suc, ◌+◌, ◌%◌, ◌/◌, ◌^◌, ◌≤◌, ◌≡◌, ◌≢◌, refl, List, ◌∷◌, ◌++◌, arith, length, length-take,
  length-drop, length-append, length-set, take, set,
}
use kongjaexpress.Prelude.Bytes.{Bytes, All}
use kongjaexpress.Watcher.{EventLoop}
use kongjaexpress.Stream.{WriteResult}
use kongjaexpress.Modbus.Common.{SlaveCallbacks}
use kongjaexpress.Modbus.Funcs.Dispatch.{modbus_rtu_handler_request_rx}
use kongjaexpress.Modbus.Funcs.Bounds.{Fits, request_rx-Fits}
use kongjaexpress.Modbus.Funcs.Size.{request_rx-size}
use kongjaexpress.Modbus.Mbap.{MbapReader, fresh}
use kongjaexpress.Modbus.Mbap.Framing.{Header, header_bytes}
use kongjaexpress.Modbus.Mbap.Stream.{
  Frame, IsFrame, encode_all, joined, KeepsRoom, feed_reads, deliver_all, feed_reads-deliver_all,
}
use kongjaexpress.Modbus.TcpSlave.{
  TcpSlave, finish_tcp_frame, tcp_request, modbus_tcp_slave_handle_rx_frame,
  modbus_tcp_slave_got_frame,
}

-- the header of a response whose PDU has `len` bytes
abbrev pub response_header : Header → ℕ → Header
response_header h len = record h { length_hi = (len + 1) / 256; length_lo = (len + 1) % 256 }

finish-header_bytes :
    (h : Header) (m : List ℕ) (len : ℕ)
    → len ≤ 253
    → finish_tcp_frame (header_bytes h ++ m) len
      ≡ header_bytes (response_header h len) ++ take len m
unfolding finish_tcp_frame
finish-header_bytes h m len short =
    let size : ((len + 1) % 2 ^ 16 + 6) % 2 ^ 16 ≡ suc (suc (suc (suc (suc (suc (suc len)))))) =
      omega arith in
    let hi : (len + 1) % 2 ^ 16 / 2 ^ 8 % 2 ^ 8 ≡ (len + 1) / 256 = omega arith in
    let lo : (len + 1) % 2 ^ 16 % 2 ^ 8 ≡ (len + 1) % 256 = omega arith in rw (size, hi, lo) refl

module _ {Loop D : Type 0} ⦃ev : EventLoop Loop⦄ (cb : SlaveCallbacks D)
    (ret : ℕ → WriteResult) where
  got_frame-KeepsRoom : KeepsRoom {W = TcpSlave Loop D} (modbus_tcp_slave_got_frame cb ret)
  unfolding modbus_tcp_slave_got_frame modbus_tcp_slave_handle_rx_frame
  got_frame-KeepsRoom r s room =
      let pdu = (modbus_rtu_handler_request_rx cb r.uid (tcp_request cb ret r s)).pdu in
      let frame = take 7 r.frame ++ pdu.frame in
      let n = (pdu.len + 1) % 2 ^ 16 in
      let same : length frame ≡ length r.frame = omega (
        arith,
        length-append (take 7 r.frame) pdu.frame,
        length-take 7 r.frame,
        length-drop 7 r.frame,
        request_rx-size cb r.uid (tcp_request cb ret r s) (omega (arith, length-drop 7 r.frame)),
      ) in
      ground (
        arith,
        same,
        length-set (set frame 4 (n / 2 ^ 8 % 2 ^ 8)) 5 (n % 2 ^ 8),
        length-set frame 4 (n / 2 ^ 8 % 2 ^ 8),
      )

  -- A TCP slave gets a sequence of frames of 1 to 253 data bytes in reads that cut them at any
  -- places: it handles each frame once, in order, and the reader ends ready for a header.
  pub got_frames :
      (reads : List (List ℕ)) (fs : List Frame) (frame : List ℕ) (s : TcpSlave Loop D)
      → 260 ≤ length frame
      → All IsFrame fs
      → joined reads ≡ encode_all fs
      → feed_reads (modbus_tcp_slave_got_frame cb ret) (fresh frame) reads s
        ≡ deliver_all (modbus_tcp_slave_got_frame cb ret) frame fs s
  got_frames reads fs frame s =
      feed_reads-deliver_all (modbus_tcp_slave_got_frame cb ret) reads fs frame s
        got_frame-KeepsRoom

  -- A frame for the slave, and not a broadcast, whose length field is 1 to 254: the slave sends a
  -- frame with the transaction, protocol and unit of the request, whose length field is one more
  -- than the length of the response PDU, followed by that PDU; the application is as the request
  -- handler leaves it. The data memory has 253 bytes.
  pub got_frame-response :
      (h : Header) (bs : List ℕ) (r : MbapReader) (s : TcpSlave Loop D)
      → length bs ≡ 253
      → Bytes bs
      → 1 ≤ r.length
      → r.length ≤ 254
      → h.uid ≡ s.my_address
      → s.my_address ≢ 0
      → let mbap = record r { frame = header_bytes h ++ bs; uid = h.uid } in
        let pdu = (modbus_rtu_handler_request_rx cb h.uid (tcp_request cb ret mbap s)).pdu in
        let s' = (modbus_tcp_slave_got_frame cb ret mbap s).1 in
        (s'.sent ≡ (header_bytes (response_header h pdu.len) ++ take pdu.len pdu.frame) ∷ s.sent)
        × (s'.dev ≡ pdu.dev)
  unfolding modbus_tcp_slave_got_frame modbus_tcp_slave_handle_rx_frame
  got_frame-response h bs r s size bytes low high mine unicast =
      let mbap = record r { frame = header_bytes h ++ bs; uid = h.uid } in
      let request = tcp_request cb ret mbap s in
      let pdu = (modbus_rtu_handler_request_rx cb h.uid request).pdu in
      let fits : Fits request = record { room = omega arith; bytes = bytes; short = omega arith } in
      let short = (request_rx-Fits cb h.uid request fits).short in
      (ground (arith, finish-header_bytes h pdu.frame pdu.len short), ground arith)
