-- ===== src/Modbus/RtuMaster.antt =====
-- src/protocols/modbus/modbus_rtu_master.c and inc/modbus/modbus_rtu_master.h: the master on a serial
-- line. Frames given to `stream_write` are kept, the last one first. What is received is not handled
-- by the code: its functions for it have no effect.
pub mod Answered
mod Examples
use kongjaexpress.Prelude.{
  ℕ, ◌+◌, ◌/◌, ◌%◌, ◌^◌, List, [], ◌∷◌, Bool, false, Option, set, take, replicate,
}
use kongjaexpress.Watcher.{EventLoop}
use kongjaexpress.Stream.{
  Stream, StreamEvent, WriteResult, stream_write, stream_init_with_fd, stream_start, stream_stop,
}
use kongjaexpress.Modbus.Crc.{modbus_calc_crc}
use kongjaexpress.Modbus.Master.{MasterCtx}

-- `t35` is whether the timer runs.
pub record RtuMaster (Loop : Type 0) : Type 0 where
  pub ctx : MasterCtx
  pub stream : Stream Loop
  pub t35 : Bool
  pub sent : List (List ℕ)

-- The slave and the CRC of the bytes up to `tx_ndx` in the buffer.
unfoldable pub finish_request : MasterCtx → ℕ → MasterCtx
finish_request ctx slave =
    let n = ctx.tx_ndx in
    let buf₁ = set ctx.tx_buf 0 slave in
    let crc = modbus_calc_crc buf₁ n in
    let buf₂ = set (set buf₁ n (crc % 2 ^ 8)) (n + 1) (crc / 2 ^ 8 % 2 ^ 8) in
    record ctx { tx_buf = buf₂; tx_ndx = (n + 2) % 2 ^ 16 }

module _ {Loop : Type 0} ⦃ev : EventLoop Loop⦄ where
  -- The result of the write is only logged.
  unfoldable pub modbus_rtu_master_request : WriteResult → ℕ → RtuMaster Loop → RtuMaster Loop
  modbus_rtu_master_request ret slave m =
      let ctx = finish_request m.ctx slave in
      let frame = take ctx.tx_ndx ctx.tx_buf in
      record m {
        ctx = ctx;
        stream = (stream_write m.stream frame ret).stream;
        sent = frame ∷ m.sent;
      }

  -- `modbus_rtu_rx` and the handler of the silence do nothing.
  unfoldable pub modbus_rtu_master_stream_callback : StreamEvent → RtuMaster Loop → RtuMaster Loop
  modbus_rtu_master_stream_callback event m = m

  -- `storage` is what `malloc` returns for the transmit buffer.
  unfoldable pub modbus_rtu_master_init : Loop → Option (List ℕ) → RtuMaster Loop → RtuMaster Loop
  modbus_rtu_master_init l storage m = record m {
    ctx = record (m.ctx) { pdu_offset = 1 };
    stream = stream_init_with_fd l (replicate 128 0) 128 storage 512;
    t35 = false;
  }

  unfoldable pub modbus_rtu_master_start : RtuMaster Loop → RtuMaster Loop
  modbus_rtu_master_start m = record m { stream = stream_start m.stream }

  unfoldable pub modbus_rtu_master_stop : RtuMaster Loop → RtuMaster Loop
  modbus_rtu_master_stop m = record m { stream = stream_stop m.stream }
