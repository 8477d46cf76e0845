-- ===== src/Modbus/Funcs/Response.antt =====
-- The function code of a response.
use Prim.Native.Nat.{bit_or}
use kongjaexpress.Prelude.{
  ℕ, zero, suc, ◌+◌, ◌%◌, ◌^◌, ◌≤◌, ◌<◌, ◌≡◌, refl, ◌∙◌, List, [], ◌∷◌, arith, length, length-take,
  length-append, length-set, take, drop, set, get_or, get_or-set, ◌++◌, if◌then◌else◌, ◌==◌,
}
use kongjaexpress.Prelude.Bytes.{get_or-lt, all_below, all_below_sound}
use kongjaexpress.Modbus.Common.{SlaveCallbacks, exception_code, func_error, Reply, reg_write}
use kongjaexpress.Modbus.Funcs.{Pdu, conclude, word_at}
use kongjaexpress.Modbus.Funcs.Read.{
  respond, read_coils, read_discrete_inputs, read_input_register, read_holding_register,
}
use kongjaexpress.Modbus.Funcs.Write.{
  write_coil, write_multiple_coils, write_holding_register, write_multiple_holding_registers,
  read_after_write, read_write_multiple_holding_registers,
}
use kongjaexpress.Modbus.Funcs.Dispatch.{dispatch, modbus_rtu_handler_request_rx}
use kongjaexpress.Modbus.Funcs.Bounds.{Fits, dispatch-Fits}

-- the top bit set
exception_lem : (func : ℕ) → func < 256 → bit_or func func_error % 2 ^ 8 ≡ func % 128 + 128
unfolding all_below
exception_lem func h =
    ground
      (arith, all_below_sound 256 (λ f. bit_or f func_error % 2 ^ 8 == f % 128 + 128) func refl h)

get_or-splice :
    (frame m : List ℕ) (off : ℕ)
    → 1 ≤ off
    → 1 ≤ length frame
    → get_or (take off frame ++ m) 0 0 ≡ get_or frame 0 0
get_or-splice [] m off h k = absurd (omega arith)
get_or-splice (x ∷ xs) m zero h k = absurd (omega arith)
get_or-splice (x ∷ xs) m (suc off) h k = refl

module _ {D : Type 0} where
  conclude-first :
      (frame : List ℕ) (off failed done : ℕ) (callback : List ℕ → Reply D)
      → 1 ≤ off
      → 1 ≤ length frame
      → get_or (conclude frame off failed done callback).pdu.frame 0 0 ≡ get_or frame 0 0
  unfolding conclude
  conclude-first frame off failed done callback h k =
      get_or-splice frame (callback (drop off frame)).memory off h k

  -- the response of a handler that reads starts with the function code
  answer-first :
      (frame : List ℕ) (func count failed done : ℕ) (callback : List ℕ → Reply D)
      → 2 ≤ length frame
      → get_or (conclude (respond frame func count) 2 failed done callback).pdu.frame 0 0 ≡ func
  answer-first [] func count failed done callback h = absurd (omega arith)
  answer-first (x ∷ xs) func count failed done callback h =
      conclude-first (set (func ∷ xs) 1 count) 2 failed done callback (omega arith)
        (omega (arith, length-set (func ∷ xs) 1 count))
      ∙ refl

  ruleset firsts = (arith, conclude-first, answer-first, get_or-splice)

  module _ (cb : SlaveCallbacks D) (addr : ℕ) (p : Pdu D) where
    read_coils-first :
        get_or p.frame 0 0 ≡ 1
        → 2 ≤ length p.frame
        → get_or (read_coils cb addr p).pdu.frame 0 0 ≡ get_or p.frame 0 0
    unfolding read_coils
    read_coils-first e h = grind firsts

    read_discrete_inputs-first :
        get_or p.frame 0 0 ≡ 2
        → 2 ≤ length p.frame
        → get_or (read_discrete_inputs cb addr p).pdu.frame 0 0 ≡ get_or p.frame 0 0
    unfolding read_discrete_inputs
    read_discrete_inputs-first e h = grind firsts

    read_input_register-first :
        get_or p.frame 0 0 ≡ 4
        → 2 ≤ length p.frame
        → get_or (read_input_register cb addr p).pdu.frame 0 0 ≡ get_or p.frame 0 0
    unfolding read_input_register
    read_input_register-first e h = grind firsts

    read_holding_register-first :
        get_or p.frame 0 0 ≡ 3
        → 2 ≤ length p.frame
        → get_or (read_holding_register cb addr p).pdu.frame 0 0 ≡ get_or p.frame 0 0
    unfolding read_holding_register
    read_holding_register-first e h = grind firsts

    write_coil-first :
        2 ≤ length p.frame → get_or (write_coil cb addr p).pdu.frame 0 0 ≡ get_or p.frame 0 0
    unfolding write_coil
    write_coil-first h = grind firsts

    write_multiple_coils-first :
        2 ≤ length p.frame
        → get_or (write_multiple_coils cb addr p).pdu.frame 0 0 ≡ get_or p.frame 0 0
    unfolding write_multiple_coils
    write_multiple_coils-first h = grind firsts

    write_holding_register-first :
        2 ≤ length p.frame
        → get_or (write_holding_register cb addr p).pdu.frame 0 0 ≡ get_or p.frame 0 0
    unfolding write_holding_register
    write_holding_register-first h = grind firsts

    write_multiple_holding_registers-first :
        2 ≤ length p.frame
        → get_or (write_multiple_holding_registers cb addr p).pdu.frame 0 0 ≡ get_or p.frame 0 0
    unfolding write_multiple_holding_registers
    write_multiple_holding_registers-first h = grind firsts

    read_after_write-first :
        (frame : List ℕ) (reg count : ℕ) (dev : D)
        → 2 ≤ length frame
        → get_or (read_after_write cb addr p frame reg count dev).pdu.frame 0 0 ≡ 23
    unfolding read_after_write
    read_after_write-first frame reg count dev h = grind firsts

    read_write_multiple_holding_registers-first :
        get_or p.frame 0 0 ≡ 23
        → 10 ≤ length p.frame
        → get_or (read_write_multiple_holding_registers cb addr p).pdu.frame 0 0
          ≡ get_or p.frame 0 0
    unfolding read_write_multiple_holding_registers
    read_write_multiple_holding_registers-first e h =
        let w =
          cb.holding_regs_cb addr (word_at p.frame 5) (word_at p.frame 7) reg_write
            (drop 10 p.frame) p.dev in
        grind (
          firsts,
          read_after_write-first,
          length-append (take 10 p.frame) w.memory,
          length-take 10 p.frame,
        )

    dispatch-first :
        253 ≤ length p.frame
        → get_or (dispatch cb addr p (get_or p.frame 0 0)).pdu.frame 0 0 ≡ get_or p.frame 0 0
    unfolding dispatch
    dispatch-first h = ground (
      arith, read_coils-first, read_discrete_inputs-first, read_input_register-first,
      read_holding_register-first, write_coil-first, write_multiple_coils-first,
      write_holding_register-first, write_multiple_holding_registers-first,
      read_write_multiple_holding_registers-first,
    )

    -- A response starts with the function code of the request; its top bit is set in an exception
    -- response, and only there as no served function has it set. The request's buffer holds the
    -- largest PDU.
    pub request_rx-code :
        Fits p
        → get_or (modbus_rtu_handler_request_rx cb addr p).pdu.frame 0 0 ≡ (
            if (modbus_rtu_handler_request_rx cb addr p).ready
            then get_or p.frame 0 0
            else get_or p.frame 0 0 % 128 + 128)
    unfolding modbus_rtu_handler_request_rx
    request_rx-code fits =
        let func = get_or p.frame 0 0 in
        let h = dispatch cb addr p func in
        let room = (dispatch-Fits cb addr p fits func).room in
        let exception = bit_or func func_error % 2 ^ 8 in
        ground (
          arith,
          dispatch-first fits.room,
          exception_lem func (get_or-lt p.frame 0 fits.bytes),
          get_or-set h.pdu.frame 0 0 exception 0,
          get_or-set (set h.pdu.frame 0 exception) 1 0 (exception_code h.status) 0,
          length-set h.pdu.frame 0 exception,
        )
