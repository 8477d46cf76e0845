-- ===== src/Modbus/RtuSlave/Bounds.antt =====
-- The data buffer of the RTU slave: no index leaves it, whatever comes in.
use kongjaexpress.Prelude.{
  ℕ, suc, ◌+◌, ◌%◌, ◌^◌, ◌≤◌, ◌<◌, ◌≡◌, ◌∙◌, List, [], ◌∷◌, false, arith, length, length-take,
  length-drop, length-append, length-set, length-write_at, take, set, get_or, write_at, ◌++◌,
}
use kongjaexpress.Prelude.Bytes.{Bytes, IsByte, All-append, All-take, All-drop, All-set, get_or-lt}
use kongjaexpress.Watcher.{EventLoop}
use kongjaexpress.Stream.{WriteResult}
use kongjaexpress.Modbus.Common.{SlaveCallbacks}
use kongjaexpress.Modbus.Funcs.Bounds.{Fits, request_rx-Fits}
use kongjaexpress.Modbus.Funcs.Size.{request_rx-size}
use kongjaexpress.Modbus.Funcs.Dispatch.{modbus_rtu_handler_request_rx}
use kongjaexpress.Modbus.RtuSlave.{
  RtuSlave, inc32, modbus_rtu_rx, finish_tx_frame, answer, request_pdu, mb_rtu_handle_rx_frame,
  mb_rtu_start_handling_rx_frame, t35_timeout_handler,
}

pub All-write_at : (xs buf : List ℕ) (off : ℕ) → Bytes xs → Bytes buf → Bytes (write_at buf off xs)
unfolding write_at
All-write_at [] buf off h k = k
All-write_at (x ∷ xs) buf off h k =
    All-write_at xs (set buf off x) (suc off) h.1 (All-set IsByte buf off x k h.0)

-- The buffer is whole, and the index of the next byte is in it.
pub record IsBounded {Loop D : Type 0} (s : RtuSlave Loop D) : Type 0 where
  pub size : length s.data_buffer ≡ 256
  pub bytes : Bytes s.data_buffer
  pub short : s.data_ndx < 256

finish-size :
    (buffer : List ℕ) (addr rsp_len : ℕ)
    → length (finish_tx_frame buffer addr rsp_len) ≡ length buffer
unfolding finish_tx_frame
finish-size buffer addr rsp_len =
    length-set (set (set buffer 0 addr) ((1 + rsp_len) % 2 ^ 16) _) _ _
    ∙ length-set (set buffer 0 addr) _ _
    ∙ length-set buffer 0 addr

finish-Bytes :
    (buffer : List ℕ) (addr rsp_len : ℕ)
    → Bytes buffer
    → addr < 256
    → Bytes (finish_tx_frame buffer addr rsp_len)
unfolding finish_tx_frame
finish-Bytes buffer addr rsp_len b h =
    All-set IsByte _ _ _
      (All-set IsByte (set buffer 0 addr) _ _ (All-set IsByte buffer 0 addr b h) (omega arith))
      (omega arith)

module _ {Loop D : Type 0} where
  pub rx-IsBounded :
      (s : RtuSlave Loop D)
      → IsBounded s
      → s.stream.rx_data_len ≤ 128
      → Bytes s.stream.rx_buf
      → IsBounded (modbus_rtu_rx s)
  unfolding modbus_rtu_rx
  rx-IsBounded s v few b =
      let read = take s.stream.rx_data_len s.stream.rx_buf in
      let good = All-take IsByte s.stream.rx_data_len s.stream.rx_buf b in
      record {
        size = ground (
          arith,
          v.size,
          length-write_at read s.data_buffer s.data_ndx,
          length-write_at read s.data_buffer 0,
        );
        bytes = ground (
          arith,
          All-write_at read s.data_buffer s.data_ndx good v.bytes,
          All-write_at read s.data_buffer 0 good v.bytes,
        );
        short = ground (arith, v.short);
      }

  module _ ⦃ev : EventLoop Loop⦄ (cb : SlaveCallbacks D) where
    pub request-Fits :
        (s : RtuSlave Loop D) → IsBounded s → 4 ≤ s.data_ndx → Fits (request_pdu cb s)
    request-Fits s v h = record {
      room = omega (arith, v.size, length-drop 1 s.data_buffer);
      bytes = All-drop IsByte 1 s.data_buffer v.bytes;
      short = omega (arith, v.short);
    }

    -- the data buffer once the request is served
    abbrev pub served_buffer : RtuSlave Loop D → List ℕ
    served_buffer s =
        take 1 s.data_buffer
        ++ (modbus_rtu_handler_request_rx cb (get_or s.data_buffer 0 0)
            (request_pdu cb s)).pdu.frame

    handle-IsBounded :
        (s : RtuSlave Loop D) (ret : WriteResult)
        → length (served_buffer s) ≡ 256
        → Bytes (served_buffer s)
        → IsBounded s
        → IsBounded (mb_rtu_handle_rx_frame cb s ret).slave
    unfolding mb_rtu_handle_rx_frame answer
    handle-IsBounded s ret size bytes v =
        let addr = get_or s.data_buffer 0 0 in
        let n = (modbus_rtu_handler_request_rx cb addr (request_pdu cb s)).pdu.len in
        record {
          size = ground (arith, v.size, size, finish-size (served_buffer s) addr n);
          bytes = ground (
            arith,
            v.bytes,
            bytes,
            finish-Bytes (served_buffer s) addr n bytes (get_or-lt s.data_buffer 0 v.bytes),
          );
          short = ground arith;
        }

    pub served-size : (s : RtuSlave Loop D) → IsBounded s → length (served_buffer s) ≡ 256
    served-size s v =
        let addr = get_or s.data_buffer 0 0 in
        let pdu = request_pdu cb s in
        omega (
          arith,
          v.size,
          length-append (take 1 s.data_buffer)
              (modbus_rtu_handler_request_rx cb addr pdu).pdu.frame,
          length-take 1 s.data_buffer,
          length-drop 1 s.data_buffer,
          request_rx-size cb addr pdu (omega (arith, v.size, length-drop 1 s.data_buffer)),
        )

    pub served-Bytes :
        (s : RtuSlave Loop D) → IsBounded s → 4 ≤ s.data_ndx → Bytes (served_buffer s)
    served-Bytes s v h =
        All-append IsByte (take 1 s.data_buffer) _ (All-take IsByte 1 s.data_buffer v.bytes)
          (request_rx-Fits cb (get_or s.data_buffer 0 0) (request_pdu cb s)
            (request-Fits s v h)).bytes

    served-IsBounded :
        (s : RtuSlave Loop D) (ret : WriteResult)
        → IsBounded s
        → 4 ≤ s.data_ndx
        → IsBounded (mb_rtu_handle_rx_frame cb s ret).slave
    served-IsBounded s ret v h = handle-IsBounded s ret (served-size s v) (served-Bytes s v h) v

    pub timeout-IsBounded :
        (s : RtuSlave Loop D) (ret : WriteResult)
        → IsBounded s
        → IsBounded (t35_timeout_handler cb s ret).slave
    unfolding t35_timeout_handler mb_rtu_start_handling_rx_frame
    timeout-IsBounded s ret v =
        let s₁ = record s {
          t35 = false;
          ctx = record (s.ctx) { rx_frames = inc32 s.ctx.rx_frames };
        } in
        let v₁ : IsBounded s₁ = record { size = v.size; bytes = v.bytes; short = v.short } in
        record {
          size = ground (arith, v.size, served-IsBounded s₁ ret v₁);
          bytes = ground (arith, v.bytes, served-IsBounded s₁ ret v₁);
          short = ground (arith, v.short, served-IsBounded s₁ ret v₁);
        }
