-- ===== src/Modbus/Master/Examples.antt =====
-- A master that asks the slave of src/demo/modbus_slave_test.c.
use kongjaexpress.Prelude.{ℕ, List, ◌≡◌, refl, [], ◌∷◌, none, some, arith, replicate}
use kongjaexpress.Prelude.Bytes.{word16}
use kongjaexpress.Modbus.Common.{reg_read, reg_write}
use kongjaexpress.Modbus.Funcs.Dispatch.{modbus_rtu_handler_request_rx, dispatch}
use kongjaexpress.Modbus.Funcs.Read.{read_coils}
use kongjaexpress.Modbus.Funcs.{conclude}
use kongjaexpress.Modbus.Funcs.Examples.{demo_slave, most_coils, most_coils-Fits}
use kongjaexpress.Modbus.Master.{MasterCtx}
use kongjaexpress.Modbus.Master.Validate.{
  holding_regs, coil, modbus_rtu_validate_response, modbus_rtu_handler_response_rx,
}
use kongjaexpress.Modbus.Master.Accept.{exception-ignored, arrived}
use kongjaexpress.Modbus.Master.Built.{pdu_of}
use kongjaexpress.Modbus.Master.Writes.{many_coils, sent}
use kongjaexpress.Modbus.Master.Written.{write-acknowledged}

-- a context with the header of the TCP transport in front of the PDU
abbrev ctx : ℕ → MasterCtx
ctx func = record {
  tx_buf = replicate 512 0;
  tx_ndx = 0;
  pdu_offset = 7;
  req_func = func;
  req_slave = 1;
  req_reg_addr = 100;
  req_nb = 2;
  req_value = 0;
}

-- the answer to a read and write of registers
null_read :
    modbus_rtu_handler_response_rx (ctx 23) 1 (23 ∷ 4 ∷ 0 ∷ 7 ∷ 0 ∷ 8 ∷ []) 6
    ≡ some (holding_regs 1 100 2 none reg_read)
unfolding modbus_rtu_handler_response_rx modbus_rtu_validate_response
null_read = refl

exception-ignored_example :
    modbus_rtu_handler_response_rx
      (ctx 1)
      1
      (modbus_rtu_handler_request_rx demo_slave 1 most_coils).pdu.frame
      (modbus_rtu_handler_request_rx demo_slave 1 most_coils).pdu.len
    ≡ none
unfolding modbus_rtu_handler_request_rx dispatch read_coils conclude word16
exception-ignored_example =
    exception-ignored demo_slave (ctx 1) 1 most_coils most_coils-Fits refl (omega arith) refl

-- ten coils from coil 100 on
abbrev ten_values : List ℕ
ten_values = 1 ∷ 0 ∷ 0 ∷ 1 ∷ 1 ∷ 0 ∷ 0 ∷ 0 ∷ 0 ∷ 5 ∷ []

write-acknowledged_example :
    let r = modbus_rtu_handler_request_rx demo_slave 1 (
      arrived demo_slave
        (pdu_of (sent many_coils (ctx 0) 1 100 10 ten_values))
        (replicate 248 0)
        0) in
    modbus_rtu_handler_response_rx
      (sent many_coils (ctx 0) 1 100 10 ten_values)
      1
      r.pdu.frame
      r.pdu.len
    ≡ some (coil 1 100 10 none reg_write)
write-acknowledged_example =
    (write-acknowledged demo_slave 1 100 10 0 many_coils (ctx 0) ten_values (replicate 248 0) 9
      (omega arith) (omega arith) (omega arith) (omega arith) (omega arith) (omega arith) refl).3
