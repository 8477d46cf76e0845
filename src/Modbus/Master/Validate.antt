-- ===== src/Modbus/Master/Validate.antt =====
-- src/protocols/modbus/modbus_rtu_response_handler.c: the check of a response against the request,
-- and the callback of the application that it leads to.
use kongjaexpress.Prelude.{
  ℕ, ◌+◌, ◌*◌, ◌/◌, List, Bool, false, not, ◌&&◌, ◌||◌, Option, none, some, ltb, leb, ◌==◌,
  if◌then◌else◌, get_or, drop,
}
use kongjaexpress.Modbus.Common.{
  MbRegisterMode, reg_read, reg_write, func_read_coils, func_read_discrete_inputs,
  func_read_holding_register, func_read_input_register, func_write_single_coil, func_write_register,
  func_write_multiple_coils, func_write_multiple_registers, func_readwrite_multiple_registers,
}
use kongjaexpress.Modbus.Funcs.{word_at}
use kongjaexpress.Modbus.Master.{MasterCtx}

-- The response's PDU is compared as an `int` length and bytes from its start on.
unfoldable pub modbus_rtu_validate_response : MasterCtx → List ℕ → ℕ → Bool
modbus_rtu_validate_response ctx pdu pdu_len =
    let f = ctx.req_func in
    let count = get_or pdu 1 0 in
    let counted = pdu_len == 2 + count in
    if f == get_or pdu 0 0
    then (if f == func_read_coils || f == func_read_discrete_inputs
        then counted && not (ltb (count * 8) ctx.req_nb)
        else if f == func_read_holding_register || f == func_read_input_register
        then counted && count / 2 == ctx.req_nb
        else if f == func_write_single_coil || f == func_write_register
        then pdu_len == 5 && word_at pdu 3 == ctx.req_value && word_at pdu 1 == ctx.req_reg_addr
        else if f == func_write_multiple_coils || f == func_write_multiple_registers
        then pdu_len == 5 && word_at pdu 1 == ctx.req_reg_addr && word_at pdu 3 == ctx.req_nb
        else if f == func_readwrite_multiple_registers
        then counted && count / 2 == ctx.req_nb
        else false)
    else false

-- A call of one of the four callbacks of the context: the slave, the address, the number, and the
-- bytes from the pointer on, none where the pointer is NULL.
pub data MasterCall : Type 0 where
  input_regs : ℕ → ℕ → ℕ → List ℕ → MasterCall
  holding_regs : ℕ → ℕ → ℕ → Option (List ℕ) → MbRegisterMode → MasterCall
  coil : ℕ → ℕ → ℕ → Option (List ℕ) → MbRegisterMode → MasterCall
  discrete : ℕ → ℕ → ℕ → List ℕ → MasterCall

unfoldable pub modbus_rtu_handler_response_rx : MasterCtx → ℕ → List ℕ → ℕ → Option MasterCall
modbus_rtu_handler_response_rx ctx slave pdu pdu_len =
    let f = ctx.req_func in
    let addr = ctx.req_reg_addr in
    let nb = ctx.req_nb in
    if modbus_rtu_validate_response ctx pdu pdu_len
    then (if f == func_read_coils
        then some (coil slave addr nb (some (drop 2 pdu)) reg_read)
        else if f == func_read_discrete_inputs
        then some (discrete slave addr nb (drop 2 pdu))
        else if f == func_read_holding_register
        then some (holding_regs slave addr nb (some (drop 2 pdu)) reg_read)
        else if f == func_read_input_register
        then some (input_regs slave addr nb (drop 2 pdu))
        else if f == func_write_single_coil
        then some (coil slave addr nb (some (drop 3 pdu)) reg_write)
        else if f == func_write_register
        then some (holding_regs slave addr nb (some (drop 3 pdu)) reg_write)
        else if f == func_write_multiple_coils
        then some (coil slave addr nb none reg_write)
        else if f == func_write_multiple_registers
        then some (holding_regs slave addr nb none reg_write)
        else if f == func_readwrite_multiple_registers
        then some (holding_regs slave addr nb none reg_read)
        else none)
    else none

-- How far into the PDU a callback that is given `n` coils or registers reads through its pointer. A
-- callback that is given NULL for a write reads nothing; `none` is one that is given NULL for what was
-- read.
abbrev pub reads : MasterCall → Option ℕ
reads (input_regs _ _ n _) = some (2 + 2 * n)
reads (holding_regs _ _ n (some _) reg_read) = some (2 + 2 * n)
reads (holding_regs _ _ n (some _) reg_write) = some (3 + 2 * n)
reads (holding_regs _ _ n none reg_read) = none
reads (holding_regs _ _ n none reg_write) = some 0
reads (coil _ _ n (some _) reg_read) = some (2 + (n + 7) / 8)
reads (coil _ _ n (some _) reg_write) = some (3 + (n + 7) / 8)
reads (coil _ _ n none reg_read) = none
reads (coil _ _ n none reg_write) = some 0
reads (discrete _ _ n _) = some (2 + (n + 7) / 8)

abbrev pub within : ℕ → Option ℕ → Bool
within len none = false
within len (some n) = leb n len
