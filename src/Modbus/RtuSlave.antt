-- ===== src/Modbus/RtuSlave.antt =====
-- src/protocols/modbus/modbus_rtu_slave.c and inc/modbus/modbus_rtu_slave.h: the slave on a serial
-- line. Reads are gathered until the line is silent for the time of `t35`; then the frame is checked
-- and served. The result of the `write` system call is an argument.
--
-- The two snooping functions do nothing, as in the source (an application may replace them).
pub mod Bounds
pub mod Gather
pub mod Serve
pub mod Examples
use kongjaexpress.Prelude.{
  ℕ, ◌+◌, ◌*◌, ◌-◌, ◌/◌, ◌%◌, ◌^◌, List, [], ◌++◌, Bool, true, false, not, ◌||◌, Option, none, some,
  ltb, leb, ◌==◌, if◌then◌else◌, take, drop, set, get_or, write_at, replicate,
}
use kongjaexpress.Watcher.{EventLoop}
use kongjaexpress.Stream.{
  Stream, StreamEvent, WriteResult, stream_write, stream_init_with_fd, stream_start, stream_stop,
}
use kongjaexpress.Modbus.Common.{SlaveCtx, SlaveCallbacks, mb_slave_ctx_init, address_broadcast}
use kongjaexpress.Modbus.Crc.{modbus_calc_crc}
use kongjaexpress.Modbus.Funcs.{Pdu}
use kongjaexpress.Modbus.Funcs.Dispatch.{modbus_rtu_handler_request_rx}

-- MB_SER_RTU_PDU_SIZE_MIN and MB_SER_RTU_PDU_SIZE_MAX
abbrev pub rtu_size_min : ℕ
rtu_size_min = 4

abbrev pub rtu_size_max : ℕ
rtu_size_max = 256

-- `t35` is whether the timer runs; `dev` is the state of the application behind the callbacks.
pub record RtuSlave (Loop D : Type 0) : Type 0 where
  pub ctx : SlaveCtx
  pub data_buffer : List ℕ
  pub data_ndx : ℕ
  pub tx_ndx : ℕ
  pub my_address : ℕ
  pub t35 : Bool
  pub rx_short_frame : ℕ
  pub stream : Stream Loop
  pub dev : D

-- What the handling of a frame leaves: the frame that was given to `stream_write`, if any, and the
-- bytes that the kernel took.
pub record Turn (Loop D : Type 0) : Type 0 where
  pub slave : RtuSlave Loop D
  pub sent : Option (List ℕ)
  pub out : List ℕ

-- INC_ERR_CNT
abbrev pub inc_err_cnt : ℕ → ℕ
inc_err_cnt n = if ltb n 0xffff then n + 1 else n

-- `++` of a `uint32_t`
abbrev pub inc32 : ℕ → ℕ
inc32 n = (n + 1) % 2 ^ 32

-- `task_timer_restart`: a running timer is stopped before it is started.
abbrev pub task_timer_restart : Bool → Bool
task_timer_restart active = true

-- the response frame from the address to the CRC, in the data buffer
unfoldable pub finish_tx_frame : List ℕ → ℕ → ℕ → List ℕ
finish_tx_frame buffer addr rsp_len =
    let n = (1 + rsp_len) % 2 ^ 16 in
    let buffer₁ = set buffer 0 addr in
    let crc = modbus_calc_crc buffer₁ n in
    set (set buffer₁ n (crc % 2 ^ 8)) (n + 1) (crc / 2 ^ 8 % 2 ^ 8)

module _ {Loop D : Type 0} where
  abbrev pub mb_rtu_reset_data_buffer : RtuSlave Loop D → RtuSlave Loop D
  mb_rtu_reset_data_buffer s = record s { data_ndx = 0; tx_ndx = 0 }

  abbrev pub mb_rtu_enable_rx : RtuSlave Loop D → RtuSlave Loop D
  mb_rtu_enable_rx s = mb_rtu_reset_data_buffer s

  unfoldable pub modbus_rtu_rx : RtuSlave Loop D → RtuSlave Loop D
  modbus_rtu_rx s =
      let n = s.stream.rx_data_len in
      let emptied = mb_rtu_reset_data_buffer (record s {
        ctx = record (s.ctx) { rx_buffer_overflow = inc_err_cnt s.ctx.rx_buffer_overflow };
      }) in
      let s₁ = if leb rtu_size_max (s.data_ndx + n) then emptied else s in
      record s₁ {
        data_buffer = write_at s₁.data_buffer s₁.data_ndx (take n s.stream.rx_buf);
        data_ndx = (s₁.data_ndx + n) % 2 ^ 16;
        t35 = task_timer_restart s.t35;
      }

  unfoldable pub modbus_rtu_stream_callback : RtuSlave Loop D → StreamEvent → RtuSlave Loop D
  modbus_rtu_stream_callback s StreamEvent.rx = modbus_rtu_rx s
  modbus_rtu_stream_callback s _ = s

  module _ ⦃ev : EventLoop Loop⦄ (cb : SlaveCallbacks D) where
    -- the part of `mb_rtu_handle_rx_frame` after a request that was not a broadcast
    unfoldable pub answer : RtuSlave Loop D → ℕ → Bool → ℕ → WriteResult → Turn Loop D
    answer s addr ok rsp_len ret =
        let buffer = finish_tx_frame s.data_buffer addr rsp_len in
        let frame = take ((1 + rsp_len) % 2 ^ 16 + 2) buffer in
        let w = stream_write s.stream frame ret in
        record {
          slave = mb_rtu_enable_rx (record s {
            data_buffer = buffer;
            stream = w.stream;
            ctx = record (s.ctx) {
              my_frames = inc32 s.ctx.my_frames;
              req_fails = if ok then s.ctx.req_fails else inc32 s.ctx.req_fails;
              tx_frames = if w.result then inc32 s.ctx.tx_frames else s.ctx.tx_frames;
            };
          });
          sent = some frame;
          out = w.out;
        }

    -- the PDU in the data buffer
    abbrev pub request_pdu : RtuSlave Loop D → Pdu D
    request_pdu s = record {
      frame = drop 1 s.data_buffer;
      len = (s.data_ndx + 2 ^ 16 - 3) % 2 ^ 16;
      dev = s.dev;
    }

    abbrev pub silent : RtuSlave Loop D → Turn Loop D
    silent s = record { slave = mb_rtu_enable_rx s; sent = none; out = [] }

    unfoldable pub mb_rtu_handle_rx_frame : RtuSlave Loop D → WriteResult → Turn Loop D
    mb_rtu_handle_rx_frame s ret =
        let addr = get_or s.data_buffer 0 0 in
        let r = modbus_rtu_handler_request_rx cb addr (request_pdu s) in
        let served = record s {
          data_buffer = take 1 s.data_buffer ++ r.pdu.frame;
          dev = r.pdu.dev;
        } in
        if addr == s.my_address || addr == address_broadcast
        then (if addr == address_broadcast
            then silent served
            else answer served addr r.ready r.pdu.len ret)
        else silent s

    unfoldable pub mb_rtu_start_handling_rx_frame : RtuSlave Loop D → WriteResult → Turn Loop D
    mb_rtu_start_handling_rx_frame s ret =
        let s₁ = record s { ctx = record (s.ctx) { rx_frames = inc32 s.ctx.rx_frames } } in
        if s₁.data_ndx == 0
        then silent s₁
        else if ltb s₁.data_ndx rtu_size_min
        then silent (record s₁ { rx_short_frame = inc_err_cnt s₁.rx_short_frame })
        else if modbus_calc_crc s₁.data_buffer s₁.data_ndx == 0
        then mb_rtu_handle_rx_frame s₁ ret
        else silent
            (record s₁ { ctx = record (s₁.ctx) { rx_crc_error = inc_err_cnt s₁.ctx.rx_crc_error } })

    -- The timer runs once.
    unfoldable pub t35_timeout_handler : RtuSlave Loop D → WriteResult → Turn Loop D
    t35_timeout_handler s ret = mb_rtu_start_handling_rx_frame (record s { t35 = false }) ret

  module _ ⦃ev : EventLoop Loop⦄ where
    -- `rx_bounce_buf` has 128 bytes; `storage` is what `malloc` returns for the transmit buffer.
    unfoldable pub modbus_rtu_slave_init : Loop → ℕ → Option (List ℕ) → D → RtuSlave Loop D
    modbus_rtu_slave_init loop addr storage dev = mb_rtu_enable_rx (record {
      ctx = mb_slave_ctx_init;
      data_buffer = replicate rtu_size_max 0;
      data_ndx = 0;
      tx_ndx = 0;
      my_address = addr;
      t35 = false;
      rx_short_frame = 0;
      stream = stream_init_with_fd loop (replicate 128 0) 128 storage (rtu_size_max * 3);
      dev = dev;
    })

    unfoldable pub modbus_rtu_slave_start : RtuSlave Loop D → RtuSlave Loop D
    modbus_rtu_slave_start s = record s { stream = stream_start s.stream }

    unfoldable pub modbus_rtu_slave_stop : RtuSlave Loop D → RtuSlave Loop D
    modbus_rtu_slave_stop s = record s { stream = stream_stop s.stream }
