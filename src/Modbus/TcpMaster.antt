-- ===== src/Modbus/TcpMaster.antt =====
-- src/protocols/modbus/modbus_tcp_master.c and inc/modbus/modbus_tcp_master.h: the master over TCP.
-- Frames given to `stream_write` and calls of the application's callbacks are kept, the last one
-- first. The results of the system calls are arguments.
pub mod Frames
pub mod Examples
use kongjaexpress.Prelude.{
  ℕ, zero, suc, ◌+◌, ◌-◌, ◌/◌, ◌%◌, ◌^◌, ◌≡◌, List, [], ◌∷◌, ◌++◌, Bool, true, false, ◌&&◌, Option,
  none, some, ◌==◌, if◌then◌else◌, take, drop, set, write_at, length, get_or,
}
use mathlib.Core.Option
use kongjaexpress.Watcher.{EventLoop}
use kongjaexpress.Stream.{
  Stream, StreamEvent, rx, eof, err, tx, WriteResult, stream_write, stream_init_with_fd,
  stream_start, stream_deinit,
}
use kongjaexpress.TcpConnector.{Attempt}
use kongjaexpress.TcpAutoConnector.{
  AutoConnector, tcp_auto_connector_init, tcp_auto_connector_start, tcp_auto_connector_stop,
}
use kongjaexpress.Modbus.Mbap.{MbapReader, mbap_reader_reset, mbap_reader_init, mbap_reader_feed}
use kongjaexpress.Modbus.Master.{MasterCtx}
use kongjaexpress.Modbus.Master.Validate.{MasterCall, modbus_rtu_handler_response_rx}

-- `ModbusTCPMasterState_t`
pub data TcpState : Type 0 where
  not_connected connecting connected : TcpState

pub record TcpMaster (Loop : Type 0) : Type 0 where
  pub ctx : MasterCtx
  pub rx_bounce_buf : List ℕ
  pub tcp_connector : AutoConnector Loop
  pub tcp_state : TcpState
  pub stream : Stream Loop
  pub tid : ℕ
  pub pid : ℕ
  pub mbap_reader : MbapReader
  pub sent : List (List ℕ)
  pub calls : List MasterCall

-- the seven bytes that the request writes in front of the PDU
abbrev pub header_of : ℕ → ℕ → ℕ → ℕ → List ℕ
header_of tid pid frame_len slave =
    tid / 2 ^ 8
    ∷ tid % 2 ^ 8
    ∷ pid / 2 ^ 8
    ∷ pid % 2 ^ 8
    ∷ frame_len / 2 ^ 8
    ∷ frame_len % 2 ^ 8
    ∷ slave
    ∷ []

-- `(master->tid - 1) == mbap->tid`, where the difference is an `int`: no 0 matches.
abbrev pub same_tid : ℕ → ℕ → Bool
same_tid zero tid = false
same_tid (suc n) tid = n == tid

-- What the reader's callback may change: the application's calls.
unfoldable pub modbus_tcp_master_got_frame :
    MasterCtx → ℕ → ℕ → MbapReader → List MasterCall → MbapReader × List MasterCall
modbus_tcp_master_got_frame ctx tid pid mbap calls =
    if same_tid tid mbap.tid && pid == mbap.pid
    then elim (modbus_rtu_handler_response_rx ctx mbap.uid (drop 7 mbap.frame) (mbap.length - 1)) [
      | none ↦ (mbap, calls)
      | some call ↦ (mbap, call ∷ calls)
    ]
    else (mbap, calls)

-- `fuel` and `attempt` are those of the connector; `l` and `storage` are what a new stream gets.
module _ {Loop : Type 0} ⦃ev : EventLoop Loop⦄ (l : Loop) (storage : Option (List ℕ)) (fuel : ℕ)
    (attempt : Attempt) where
  unfoldable pub modbus_tcp_master_tcp_connector_callback :
      Option ℕ → TcpMaster Loop → TcpMaster Loop
  modbus_tcp_master_tcp_connector_callback none m = m
  modbus_tcp_master_tcp_connector_callback (some sd) m = record m {
    tcp_state = connected;
    stream = stream_start (stream_init_with_fd l m.rx_bounce_buf 128 storage 512);
    mbap_reader = mbap_reader_init m.mbap_reader;
  }

  -- The calls of the connector, the oldest one first. A call with a descriptor is the last thing
  -- that the connector does, and a call without one changes nothing.
  unfoldable pub tell : List (Option ℕ) → TcpMaster Loop → TcpMaster Loop
  tell [] m = m
  tell (sd ∷ sds) m = modbus_tcp_master_tcp_connector_callback sd (tell sds m)

  -- the connector after one of its functions, with the calls that it made
  abbrev pub after_connector : TcpMaster Loop → AutoConnector Loop → TcpMaster Loop
  after_connector m conn =
      tell (take (length conn.calls - length m.tcp_connector.calls) conn.calls)
        (record m { tcp_connector = conn })

  unfoldable pub modbus_tcp_master_start_reconnect : TcpMaster Loop → Option (TcpMaster Loop)
  modbus_tcp_master_start_reconnect m =
      let m₁ = record m {
        stream = stream_deinit m.stream;
        mbap_reader = mbap_reader_reset m.mbap_reader;
        tcp_state = connecting;
      } in
      Option.map (after_connector m₁)
        (tcp_auto_connector_start fuel attempt (tcp_auto_connector_init m.tcp_connector))

  -- `master->tid++`
  abbrev pub next_tid : TcpMaster Loop → TcpMaster Loop
  next_tid m = record m { tid = (m.tid + 1) % 2 ^ 16 }

  -- where the master is connected
  abbrev pub send_request : WriteResult → ℕ → TcpMaster Loop → Option (TcpMaster Loop)
  send_request ret slave m =
      let frame_len = (m.ctx.tx_ndx + 1 + 2 ^ 16 - 7) % 2 ^ 16 in
      let buf = write_at m.ctx.tx_buf 0 (header_of m.tid m.pid frame_len slave) in
      let frame = take m.ctx.tx_ndx buf in
      let w = stream_write m.stream frame ret in
      let m₁ = record m {
        ctx = record (m.ctx) { tx_buf = buf };
        stream = w.stream;
        sent = frame ∷ m.sent;
      } in
      if w.result
      then some (next_tid m₁)
      else Option.map next_tid (modbus_tcp_master_start_reconnect m₁)

  abbrev pub request_in : TcpState → WriteResult → ℕ → TcpMaster Loop → Option (TcpMaster Loop)
  request_in not_connected ret slave m = some m
  request_in connecting ret slave m = some m
  request_in connected ret slave m = send_request ret slave m

  -- The master's `ctx` is the context that a function of the master has filled.
  unfoldable pub modbus_tcp_master_request :
      WriteResult → ℕ → TcpMaster Loop → Option (TcpMaster Loop)
  modbus_tcp_master_request ret slave m = request_in m.tcp_state ret slave m

  unfoldable pub modbus_tcp_master_stream_callback :
      StreamEvent → TcpMaster Loop → Option (TcpMaster Loop)
  modbus_tcp_master_stream_callback rx m =
      let (mbap, calls) =
        mbap_reader_feed (modbus_tcp_master_got_frame m.ctx m.tid m.pid) m.mbap_reader
          (take m.stream.rx_data_len m.stream.rx_buf) m.calls in
      some (record m { mbap_reader = mbap; calls = calls })
  modbus_tcp_master_stream_callback eof m = modbus_tcp_master_start_reconnect m
  modbus_tcp_master_stream_callback err m = modbus_tcp_master_start_reconnect m
  modbus_tcp_master_stream_callback tx m = some m

  unfoldable pub modbus_tcp_master_init : TcpMaster Loop → TcpMaster Loop
  modbus_tcp_master_init m = record m {
    ctx = record (m.ctx) { pdu_offset = 7 };
    tid = 0;
    pid = 0;
    tcp_state = not_connected;
    tcp_connector = tcp_auto_connector_init m.tcp_connector;
  }

  unfoldable pub modbus_tcp_master_start : TcpMaster Loop → Option (TcpMaster Loop)
  modbus_tcp_master_start m =
      Option.map (after_connector (record m { tcp_state = connecting }))
        (tcp_auto_connector_start fuel attempt m.tcp_connector)

  stop_in : TcpState → TcpMaster Loop → TcpMaster Loop
  stop_in not_connected m = m
  stop_in connecting m = record m { tcp_connector = tcp_auto_connector_stop m.tcp_connector }
  stop_in connected m = record m { stream = stream_deinit m.stream }

  unfoldable pub modbus_tcp_master_stop : TcpMaster Loop → TcpMaster Loop
  unfolding stop_in
  modbus_tcp_master_stop m = record (stop_in m.tcp_state m) { tcp_state = not_connected }
