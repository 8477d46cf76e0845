-- ===== src/Modbus/Funcs/Refusal.antt =====
-- The handlers refuse a request before they call the application.
use Prim.Native.Nat.{bit_or}
use kongjaexpress.Prelude.{
  ℕ, ◌%◌, ◌^◌, ◌≡◌, ◌⊎◌, List, Bool, true, false, arith, length-set, drop, set, get_or, get_or-set,
  if◌then◌else◌,
}
use kongjaexpress.Modbus.Common.{
  SlaveCallbacks, MbErrorCode, MbException, ex_none, ex_illegal_function, ex_illegal_data_value,
  exception_code, is_enoerr, func_error, Reply, prve_mb_error_to_exception,
}
use kongjaexpress.Modbus.Funcs.{Pdu, conclude}
use kongjaexpress.Modbus.Funcs.Read.{
  read_coils, read_discrete_inputs, read_input_register, read_holding_register,
}
use kongjaexpress.Modbus.Funcs.Write.{
  write_coil, write_multiple_coils, write_holding_register, write_multiple_holding_registers,
  read_after_write, read_write_multiple_holding_registers,
}
use kongjaexpress.Modbus.Funcs.Dispatch.{dispatch, modbus_rtu_handler_request_rx}
use kongjaexpress.Modbus.Funcs.Bounds.{Fits, dispatch-Fits}

-- The exceptions that a check of the request raises, and no callback.
abbrev pub is_refusal : MbException → Bool
is_refusal ex_illegal_function = true
is_refusal ex_illegal_data_value = true
is_refusal _ = false

error_to_exception-is_refusal :
    (e : MbErrorCode)
    → is_refusal (if is_enoerr e then ex_none else prve_mb_error_to_exception e) ≡ false
unfolding prve_mb_error_to_exception
error_to_exception-is_refusal e = ground arith

error_to_exception-not_refusal :
    (e : MbErrorCode) → is_refusal (prve_mb_error_to_exception e) ≡ false
unfolding prve_mb_error_to_exception
error_to_exception-not_refusal e = ground arith

exception_code-is_refusal :
    (e : MbException) → (exception_code e ≡ 1) ⊎ (exception_code e ≡ 3) → is_refusal e ≡ true
exception_code-is_refusal e h = ground arith

module _ {D : Type 0} where
  conclude-is_refusal :
      (frame : List ℕ) (off failed done : ℕ) (callback : List ℕ → Reply D)
      → is_refusal (conclude frame off failed done callback).status ≡ false
  unfolding conclude
  conclude-is_refusal frame off failed done callback =
      error_to_exception-is_refusal (callback (drop off frame)).status

  ruleset refusals =
      (arith, conclude-is_refusal, error_to_exception-is_refusal, error_to_exception-not_refusal)

  module _ (cb : SlaveCallbacks D) (addr : ℕ) (p : Pdu D) where
    read_coils-untouched :
        is_refusal (read_coils cb addr p).status ≡ true → (read_coils cb addr p).pdu.dev ≡ p.dev
    unfolding read_coils
    read_coils-untouched h = grind refusals

    read_discrete_inputs-untouched :
        is_refusal (read_discrete_inputs cb addr p).status ≡ true
        → (read_discrete_inputs cb addr p).pdu.dev ≡ p.dev
    unfolding read_discrete_inputs
    read_discrete_inputs-untouched h = grind refusals

    read_input_register-untouched :
        is_refusal (read_input_register cb addr p).status ≡ true
        → (read_input_register cb addr p).pdu.dev ≡ p.dev
    unfolding read_input_register
    read_input_register-untouched h = grind refusals

    read_holding_register-untouched :
        is_refusal (read_holding_register cb addr p).status ≡ true
        → (read_holding_register cb addr p).pdu.dev ≡ p.dev
    unfolding read_holding_register
    read_holding_register-untouched h = grind refusals

    write_coil-untouched :
        is_refusal (write_coil cb addr p).status ≡ true → (write_coil cb addr p).pdu.dev ≡ p.dev
    unfolding write_coil
    write_coil-untouched h = grind refusals

    write_multiple_coils-untouched :
        is_refusal (write_multiple_coils cb addr p).status ≡ true
        → (write_multiple_coils cb addr p).pdu.dev ≡ p.dev
    unfolding write_multiple_coils
    write_multiple_coils-untouched h = grind refusals

    write_holding_register-untouched :
        is_refusal (write_holding_register cb addr p).status ≡ true
        → (write_holding_register cb addr p).pdu.dev ≡ p.dev
    unfolding write_holding_register
    write_holding_register-untouched h = grind refusals

    write_multiple_holding_registers-untouched :
        is_refusal (write_multiple_holding_registers cb addr p).status ≡ true
        → (write_multiple_holding_registers cb addr p).pdu.dev ≡ p.dev
    unfolding write_multiple_holding_registers
    write_multiple_holding_registers-untouched h = grind refusals

    read_write_multiple_holding_registers-untouched :
        is_refusal (read_write_multiple_holding_registers cb addr p).status ≡ true
        → (read_write_multiple_holding_registers cb addr p).pdu.dev ≡ p.dev
    unfolding read_write_multiple_holding_registers read_after_write
    read_write_multiple_holding_registers-untouched h = grind refusals

    dispatch-untouched :
        (func : ℕ)
        → is_refusal (dispatch cb addr p func).status ≡ true
        → (dispatch cb addr p func).pdu.dev ≡ p.dev
    unfolding dispatch
    dispatch-untouched func h = ground (
      arith, read_coils-untouched, read_discrete_inputs-untouched, read_input_register-untouched,
      read_holding_register-untouched, write_coil-untouched, write_multiple_coils-untouched,
      write_holding_register-untouched, write_multiple_holding_registers-untouched,
      read_write_multiple_holding_registers-untouched,
    )

    -- An exception response with the code of an illegal function or of an illegal data value means
    -- that the application is in the state it was in.
    pub request_rx-untouched :
        Fits p
        → (modbus_rtu_handler_request_rx cb addr p).ready ≡ false
        → (get_or (modbus_rtu_handler_request_rx cb addr p).pdu.frame 1 0 ≡ 1)
          ⊎ (get_or (modbus_rtu_handler_request_rx cb addr p).pdu.frame 1 0 ≡ 3)
        → (modbus_rtu_handler_request_rx cb addr p).pdu.dev ≡ p.dev
    unfolding modbus_rtu_handler_request_rx
    request_rx-untouched fits failed code =
        let func = get_or p.frame 0 0 in
        let h = dispatch cb addr p func in
        let room = (dispatch-Fits cb addr p fits func).room in
        let exception = bit_or func func_error % 2 ^ 8 in
        ground (
          arith,
          dispatch-untouched func,
          exception_code-is_refusal h.status,
          get_or-set (set h.pdu.frame 0 exception) 1 1 (exception_code h.status) 0,
          length-set h.pdu.frame 0 exception,
        )
