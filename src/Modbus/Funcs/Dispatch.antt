-- ===== src/Modbus/Funcs/Dispatch.antt =====
-- src/protocols/modbus/modbus_rtu_request_handler.c: the choice of the handler by the function
-- code, and the exception response.
use Prim.Native.Nat.{bit_or}
use kongjaexpress.Prelude.{ℕ, ◌%◌, ◌^◌, Bool, get_or, set, ◌==◌, if◌then◌else◌}
use kongjaexpress.Modbus.Common.{
  SlaveCallbacks, ex_illegal_function, exception_code, is_none, func_error, func_read_coils,
  func_read_discrete_inputs, func_read_holding_register, func_read_input_register,
  func_write_single_coil, func_write_register, func_write_multiple_coils,
  func_write_multiple_registers, func_readwrite_multiple_registers,
}
use kongjaexpress.Modbus.Funcs.{Pdu, Handled}
use kongjaexpress.Modbus.Funcs.Read.{
  read_coils, read_discrete_inputs, read_input_register, read_holding_register,
}
use kongjaexpress.Modbus.Funcs.Write.{
  write_coil, write_multiple_coils, write_holding_register, write_multiple_holding_registers,
  read_write_multiple_holding_registers,
}

-- what `modbus_rtu_handler_request_rx` returns, and the PDU with `*rsp_len` as its length
pub record Response (D : Type 0) : Type 0 where
  pub ready : Bool
  pub pdu : Pdu D

module _ {D : Type 0} (cb : SlaveCallbacks D) (addr : ℕ) (p : Pdu D) where
  -- the `switch`
  unfoldable pub dispatch : ℕ → Handled D
  dispatch func =
      if func == func_read_input_register
      then read_input_register cb addr p
      else if func == func_read_holding_register
      then read_holding_register cb addr p
      else if func == func_write_multiple_registers
      then write_multiple_holding_registers cb addr p
      else if func == func_write_register
      then write_holding_register cb addr p
      else if func == func_readwrite_multiple_registers
      then read_write_multiple_holding_registers cb addr p
      else if func == func_read_coils
      then read_coils cb addr p
      else if func == func_write_single_coil
      then write_coil cb addr p
      else if func == func_write_multiple_coils
      then write_multiple_coils cb addr p
      else if func == func_read_discrete_inputs
      then read_discrete_inputs cb addr p
      else record { status = ex_illegal_function; pdu = p }

  unfoldable pub modbus_rtu_handler_request_rx : Response D
  modbus_rtu_handler_request_rx =
      let func = get_or p.frame 0 0 in
      let h = dispatch func in
      let exception = bit_or func func_error % 2 ^ 8 in
      if is_none h.status then record { ready = Bool.true; pdu = h.pdu } else record {
        ready = Bool.false;
        pdu = record (h.pdu) {
          frame = set (set h.pdu.frame 0 exception) 1 (exception_code h.status);
          len = 2;
        };
      }
