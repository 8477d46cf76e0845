-- ===== src/Modbus/Funcs/Write.antt =====
-- src/protocols/modbus/modbus_func_coils.c and modbus_func_holding.c: the handlers that write.
use kongjaexpress.Prelude.{
  ℕ, ◌+◌, ◌*◌, ◌%◌, ◌^◌, List, [], ◌∷◌, ◌&&◌, ◌||◌, get_or, take, drop, ◌++◌, ltb, leb, ◌==◌,
  if◌then◌else◌,
}
use kongjaexpress.Modbus.Common.{
  SlaveCallbacks, ex_none, is_enoerr, prve_mb_error_to_exception, reg_read, reg_write,
  func_readwrite_multiple_registers,
}
use kongjaexpress.Modbus.Funcs.{Pdu, Handled, word_at, conclude}
use kongjaexpress.Modbus.Funcs.Read.{bit_bytes, respond, refuse}

module _ {D : Type 0} (cb : SlaveCallbacks D) (addr : ℕ) (p : Pdu D) where
  -- `ucBuf` is a local array; what the callback stores there is dropped.
  unfoldable pub write_coil : Handled D
  write_coil =
      let reg = word_at p.frame 1 in
      let value = get_or p.frame 3 0 in
      let buf = (if value == 0xff then 1 else 0) ∷ 0 ∷ [] in
      let r = cb.coil_cb addr reg 1 reg_write buf p.dev in
      if p.len == 5
      then (if get_or p.frame 4 0 == 0x00 && (value == 0xff || value == 0x00)
          then record {
            status = if is_enoerr r.status then ex_none else prve_mb_error_to_exception r.status;
            pdu = record p { dev = r.dev };
          }
          else refuse p)
      else refuse p

  -- The number of data bytes is held against the count, not against the length of the request.
  unfoldable pub write_multiple_coils : Handled D
  write_multiple_coils =
      let reg = word_at p.frame 1 in
      let count = word_at p.frame 3 in
      let byte_count = get_or p.frame 5 0 in
      if ltb 5 p.len
      then (if leb 1 count && leb count 0x07b0 && bit_bytes count == byte_count
          then conclude p.frame 6 p.len 5 (λ m. cb.coil_cb addr reg count reg_write m p.dev)
          else refuse p)
      else refuse p

  unfoldable pub write_holding_register : Handled D
  write_holding_register =
      let reg = word_at p.frame 1 in
      if p.len == 5
      then conclude p.frame 3 p.len p.len (λ m. cb.holding_regs_cb addr reg 1 reg_write m p.dev)
      else refuse p

  unfoldable pub write_multiple_holding_registers : Handled D
  write_multiple_holding_registers =
      let reg = word_at p.frame 1 in
      let count = word_at p.frame 3 in
      let byte_count = get_or p.frame 5 0 in
      if leb 6 p.len
      then (if leb 1 count && leb count 0x0078 && byte_count == 2 * count % 2 ^ 8
          then conclude p.frame 6 p.len 5 (λ m. cb.holding_regs_cb addr reg count reg_write m p.dev)
          else refuse p)
      else refuse p

  -- the second callback, once the write has succeeded
  unfoldable pub read_after_write : List ℕ → ℕ → ℕ → D → Handled D
  read_after_write frame reg count dev =
      conclude (respond frame func_readwrite_multiple_registers (count * 2 % 2 ^ 8)) 2 2
        ((2 + 2 * count) % 2 ^ 16) (λ m. cb.holding_regs_cb addr reg count reg_read m dev)

  -- A request that is too short falls through: no exception, and the length as it came.
  unfoldable pub read_write_multiple_holding_registers : Handled D
  unfolding read_after_write
  read_write_multiple_holding_registers =
      let read_reg = word_at p.frame 1 in
      let read_count = word_at p.frame 3 in
      let write_reg = word_at p.frame 5 in
      let write_count = word_at p.frame 7 in
      let byte_count = get_or p.frame 9 0 in
      let w = cb.holding_regs_cb addr write_reg write_count reg_write (drop 10 p.frame) p.dev in
      let written = take 10 p.frame ++ w.memory in
      if leb 10 p.len
      then (if leb 1 read_count
            && leb read_count 0x7d
            && leb 1 write_count
            && leb write_count 0x79
            && 2 * write_count == byte_count
          then (if is_enoerr w.status
              then read_after_write written read_reg read_count w.dev
              else record {
                status = prve_mb_error_to_exception w.status;
                pdu = record { frame = written; len = p.len; dev = w.dev };
              })
          else refuse p)
      else record { status = ex_none; pdu = p }
