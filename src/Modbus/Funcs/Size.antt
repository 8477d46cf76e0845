-- ===== src/Modbus/Funcs/Size.antt =====
-- The handlers keep the size of the buffer.
use kongjaexpress.Prelude.{
  ℕ, ◌+◌, ◌*◌, ◌%◌, ◌^◌, ◌≤◌, ◌≡◌, ◌∙◌, List, arith, length, length-take, length-drop,
  length-append, length-set, take, drop, set, get_or, ◌++◌,
}
use kongjaexpress.Modbus.Common.{
  SlaveCallbacks, exception_code, func_error, Reply, Stores, func_read_coils,
  func_read_discrete_inputs, func_read_holding_register, func_read_input_register,
  func_readwrite_multiple_registers, reg_read, reg_write,
}
use Prim.Native.Nat.{bit_or}
use kongjaexpress.Modbus.Funcs.{Pdu, conclude, word_at}
use kongjaexpress.Modbus.Funcs.Read.{
  bit_bytes, respond, read_coils, read_discrete_inputs, read_input_register, read_holding_register,
}
use kongjaexpress.Modbus.Funcs.Write.{
  write_coil, write_multiple_coils, write_holding_register, write_multiple_holding_registers,
  read_after_write, read_write_multiple_holding_registers,
}
use kongjaexpress.Modbus.Funcs.Dispatch.{dispatch, modbus_rtu_handler_request_rx}

module _ {D : Type 0} where
  conclude-size :
      (frame : List ℕ) (off failed done : ℕ) (callback : List ℕ → Reply D)
      → ((m : List ℕ) → Stores m (callback m).memory)
      → off ≤ length frame
      → length (conclude frame off failed done callback).pdu.frame ≡ length frame
  unfolding conclude
  conclude-size frame off failed done callback stores h =
      let m = (callback (drop off frame)).memory in
      omega (
        arith,
        length-append (take off frame) m,
        length-take off frame,
        length-drop off frame,
        (stores (drop off frame)).0,
      )

  answer-size :
      (frame : List ℕ) (func count done : ℕ) (callback : List ℕ → Reply D)
      → ((m : List ℕ) → Stores m (callback m).memory)
      → 2 ≤ length frame
      → length (conclude (respond frame func count) 2 2 done callback).pdu.frame ≡ length frame
  answer-size frame func count done callback stores h =
      let size : length (respond frame func count) ≡ length frame =
        length-set (set frame 0 func) 1 count ∙ length-set frame 0 func in
      conclude-size (respond frame func count) 2 2 done callback stores (omega arith) ∙ size

  module _ (cb : SlaveCallbacks D) (addr : ℕ) (p : Pdu D) (room : 10 ≤ length p.frame) where
    read_coils-size : length (read_coils cb addr p).pdu.frame ≡ length p.frame
    unfolding read_coils
    read_coils-size =
        let reg = word_at p.frame 1 in
        let count = word_at p.frame 3 in
        ground (
          arith,
          answer-size p.frame func_read_coils (bit_bytes count) ((2 + bit_bytes count) % 2 ^ 16)
              (λ m. cb.coil_cb addr reg count reg_read m p.dev)
              (λ m. cb.coil-Stores addr reg count reg_read m p.dev),
        )

    read_discrete_inputs-size : length (read_discrete_inputs cb addr p).pdu.frame ≡ length p.frame
    unfolding read_discrete_inputs
    read_discrete_inputs-size =
        let reg = word_at p.frame 1 in
        let count = word_at p.frame 3 in
        ground (
          arith,
          answer-size p.frame func_read_discrete_inputs (bit_bytes count)
              ((2 + bit_bytes count) % 2 ^ 16) (λ m. cb.discrete_cb addr reg count m p.dev)
              (λ m. cb.discrete-Stores addr reg count m p.dev),
        )

    read_input_register-size : length (read_input_register cb addr p).pdu.frame ≡ length p.frame
    unfolding read_input_register
    read_input_register-size =
        let reg = word_at p.frame 1 in
        let count = word_at p.frame 3 in
        ground (
          arith,
          answer-size p.frame func_read_input_register (count * 2 % 2 ^ 8)
              ((2 + count * 2) % 2 ^ 16) (λ m. cb.input_regs_cb addr reg count m p.dev)
              (λ m. cb.input_regs-Stores addr reg count m p.dev),
        )

    read_holding_register-size : length (read_holding_register cb addr p).pdu.frame ≡ length p.frame
    unfolding read_holding_register
    read_holding_register-size =
        let reg = word_at p.frame 1 in
        let count = get_or p.frame 4 0 in
        ground (
          arith,
          answer-size p.frame func_read_holding_register (count * 2 % 2 ^ 8)
              ((2 + count * 2) % 2 ^ 16) (λ m. cb.holding_regs_cb addr reg count reg_read m p.dev)
              (λ m. cb.holding_regs-Stores addr reg count reg_read m p.dev),
        )

    write_coil-size : length (write_coil cb addr p).pdu.frame ≡ length p.frame
    unfolding write_coil
    write_coil-size = ground arith

    write_multiple_coils-size : length (write_multiple_coils cb addr p).pdu.frame ≡ length p.frame
    unfolding write_multiple_coils
    write_multiple_coils-size =
        let reg = word_at p.frame 1 in
        let count = word_at p.frame 3 in
        ground (
          arith,
          conclude-size p.frame 6 p.len 5 (λ m. cb.coil_cb addr reg count reg_write m p.dev)
              (λ m. cb.coil-Stores addr reg count reg_write m p.dev),
        )

    write_holding_register-size :
        length (write_holding_register cb addr p).pdu.frame ≡ length p.frame
    unfolding write_holding_register
    write_holding_register-size =
        let reg = word_at p.frame 1 in
        let count : ℕ = 1 in
        ground (
          arith,
          conclude-size p.frame 3 p.len p.len
              (λ m. cb.holding_regs_cb addr reg count reg_write m p.dev)
              (λ m. cb.holding_regs-Stores addr reg count reg_write m p.dev),
        )

    write_multiple_holding_registers-size :
        length (write_multiple_holding_registers cb addr p).pdu.frame ≡ length p.frame
    unfolding write_multiple_holding_registers
    write_multiple_holding_registers-size =
        let reg = word_at p.frame 1 in
        let count = word_at p.frame 3 in
        ground (
          arith,
          conclude-size p.frame 6 p.len 5 (λ m. cb.holding_regs_cb addr reg count reg_write m p.dev)
              (λ m. cb.holding_regs-Stores addr reg count reg_write m p.dev),
        )

    read_after_write-size :
        (frame : List ℕ) (reg count : ℕ) (dev : D)
        → 2 ≤ length frame
        → length (read_after_write cb addr p frame reg count dev).pdu.frame ≡ length frame
    unfolding read_after_write
    read_after_write-size frame reg count dev h =
        answer-size frame func_readwrite_multiple_registers (count * 2 % 2 ^ 8)
          ((2 + 2 * count) % 2 ^ 16) (λ m. cb.holding_regs_cb addr reg count reg_read m dev)
          (λ m. cb.holding_regs-Stores addr reg count reg_read m dev) h

    read_write_multiple_holding_registers-size :
        length (read_write_multiple_holding_registers cb addr p).pdu.frame ≡ length p.frame
    unfolding read_write_multiple_holding_registers
    read_write_multiple_holding_registers-size =
        let memory = drop 10 p.frame in
        let write_reg = word_at p.frame 5 in
        let write_count = word_at p.frame 7 in
        let w = cb.holding_regs_cb addr write_reg write_count reg_write memory p.dev in
        let written = take 10 p.frame ++ w.memory in
        let same : length written ≡ length p.frame = omega (
          arith,
          length-append (take 10 p.frame) w.memory,
          length-take 10 p.frame,
          length-drop 10 p.frame,
          (cb.holding_regs-Stores addr write_reg write_count reg_write memory p.dev).0,
        ) in
        ground
          (arith, same, read_after_write-size written (word_at p.frame 1) (word_at p.frame 3) w.dev)

    dispatch-size : (func : ℕ) → length (dispatch cb addr p func).pdu.frame ≡ length p.frame
    unfolding dispatch
    dispatch-size func = ground (
      arith, read_coils-size, read_discrete_inputs-size, read_input_register-size,
      read_holding_register-size, write_coil-size, write_multiple_coils-size,
      write_holding_register-size, write_multiple_holding_registers-size,
      read_write_multiple_holding_registers-size,
    )

    pub request_rx-size :
        length (modbus_rtu_handler_request_rx cb addr p).pdu.frame ≡ length p.frame
    unfolding modbus_rtu_handler_request_rx
    request_rx-size =
        let func = get_or p.frame 0 0 in
        let h = dispatch cb addr p func in
        let exception = bit_or func func_error % 2 ^ 8 in
        ground (
          arith,
          dispatch-size func,
          length-set (set h.pdu.frame 0 exception) 1 (exception_code h.status),
          length-set h.pdu.frame 0 exception,
        )
