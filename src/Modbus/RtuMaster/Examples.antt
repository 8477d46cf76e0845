-- ===== src/Modbus/RtuMaster/Examples.antt =====
-- A request for two registers of slave 17.
use kongjaexpress.Prelude.{◌≡◌, refl, [], ◌∷◌, ◌++◌, some, false, arith, replicate}
use kongjaexpress.Watcher.Examples.{ActiveSet, active_sets}
use kongjaexpress.Stream.{wrote}
use kongjaexpress.Modbus.Crc.Detect.{trailer}
use kongjaexpress.Modbus.Funcs.Examples.{demo_slave}
use kongjaexpress.Modbus.Master.Built.{pdu_of}
use kongjaexpress.Modbus.RtuMaster.{RtuMaster, modbus_rtu_master_request}
use kongjaexpress.Modbus.RtuMaster.Answered.{framed, request-answered}
use kongjaexpress.Modbus.RtuSlave.{t35_timeout_handler}
use kongjaexpress.Modbus.RtuSlave.Examples.{holding}
use kongjaexpress.Modbus.RtuSlave.Gather.{IsReady, receive, gathered}
use kongjaexpress.Modbus.RtuSlave.Serve.{response}

abbrev master : RtuMaster ActiveSet
master = record {
  ctx = record {
    tx_buf = 0 ∷ 3 ∷ 0 ∷ 100 ∷ 0 ∷ 2 ∷ [] ++ replicate 506 0;
    tx_ndx = 6;
    pdu_offset = 1;
    req_func = 3;
    req_slave = 17;
    req_reg_addr = 100;
    req_nb = 2;
    req_value = 0;
  };
  stream = (holding [] 0).stream;
  t35 = false;
  sent = [];
}

quiet-IsReady : IsReady (holding (replicate 8 0) 0)
quiet-IsReady = record {
  bounded = record { size = refl; bytes = ground arith; short = omega arith };
  room = refl;
  bytes = ground arith;
}

request-answered_example :
    let s = holding (replicate 8 0) 0 in
    let frame = framed 17 (pdu_of master.ctx) in
    let s' = receive s frame in
    ((modbus_rtu_master_request (wrote 8) 17 master).sent ≡ frame ∷ [])
    × (gathered s' ≡ frame)
    × ((t35_timeout_handler demo_slave s' (wrote 9)).sent
        ≡ some (response demo_slave s' ++ trailer (response demo_slave s')))
request-answered_example =
    request-answered demo_slave master (holding (replicate 8 0) 0) 5 (wrote 8) (wrote 9) refl refl
      (omega arith) (omega arith) (omega arith) (ground arith) quiet-IsReady refl (omega arith)
      (omega arith)
