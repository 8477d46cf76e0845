-- ===== src/Modbus/Funcs/Length.antt =====
-- The length of the response to a request that reads.
use kongjaexpress.Prelude.{
  ℕ, zero, suc, ◌+◌, ◌≤◌, ◌≡◌, refl, List, [], ◌∷◌, true, arith, length, get_or,
}
use kongjaexpress.Modbus.Common.{SlaveCallbacks, is_none, Reply, prve_mb_error_to_exception}
use kongjaexpress.Modbus.Funcs.{Pdu, Handled, conclude, word_at}
use kongjaexpress.Modbus.Funcs.Read.{
  respond, read_coils, read_discrete_inputs, read_input_register, read_holding_register,
}
use kongjaexpress.Modbus.Funcs.Dispatch.{dispatch, modbus_rtu_handler_request_rx}
use kongjaexpress.Modbus.Funcs.Bounds.{bit_bytes_lem}

module _ {D : Type 0} where
  answer-second :
      (frame : List ℕ) (func count failed done : ℕ) (callback : List ℕ → Reply D)
      → 2 ≤ length frame
      → get_or (conclude (respond frame func count) 2 failed done callback).pdu.frame 1 0 ≡ count
  unfolding conclude
  answer-second [] func count failed done callback h = absurd (omega arith)
  answer-second (x ∷ []) func count failed done callback h = absurd (omega arith)
  answer-second (x ∷ y ∷ xs) func count failed done callback h = refl

  conclude-done :
      (frame : List ℕ) (off failed done : ℕ) (callback : List ℕ → Reply D)
      → is_none (conclude frame off failed done callback).status ≡ true
      → (conclude frame off failed done callback).pdu.len ≡ done
  unfolding conclude prve_mb_error_to_exception
  conclude-done frame off failed done callback h = ground arith

  ruleset answers = (arith, answer-second, conclude-done)

  -- what the two theorems below say of a handler
  abbrev CountsItsBytes : Handled D → Type 0
  CountsItsBytes h = is_none h.status ≡ true → h.pdu.len ≡ 2 + get_or h.pdu.frame 1 0

  module _ (cb : SlaveCallbacks D) (addr : ℕ) (p : Pdu D) (room : 253 ≤ length p.frame) where
    read_coils-len : CountsItsBytes (read_coils cb addr p)
    unfolding read_coils
    read_coils-len h = grind (answers, bit_bytes_lem (word_at p.frame 3))

    read_discrete_inputs-len : CountsItsBytes (read_discrete_inputs cb addr p)
    unfolding read_discrete_inputs
    read_discrete_inputs-len h = grind (answers, bit_bytes_lem (word_at p.frame 3))

    read_input_register-len : CountsItsBytes (read_input_register cb addr p)
    unfolding read_input_register
    read_input_register-len h = grind answers

    read_holding_register-len : CountsItsBytes (read_holding_register cb addr p)
    unfolding read_holding_register
    read_holding_register-len h = grind answers

    dispatch-len : (func : ℕ) → 1 ≤ func → func ≤ 4 → CountsItsBytes (dispatch cb addr p func)
    unfolding dispatch
    dispatch-len (suc zero) low high = read_coils-len
    dispatch-len (suc (suc zero)) low high = read_discrete_inputs-len
    dispatch-len (suc (suc (suc zero))) low high = read_holding_register-len
    dispatch-len (suc (suc (suc (suc zero)))) low high = read_input_register-len
    dispatch-len zero low high = absurd (omega arith)
    dispatch-len (suc (suc (suc (suc (suc n))))) low high = absurd (omega arith)

    -- The slave answers a read of coils, of discrete inputs or of registers without an exception:
    -- then the second byte of the response is the number of the bytes after it.
    pub request_rx-len :
        1 ≤ get_or p.frame 0 0
        → get_or p.frame 0 0 ≤ 4
        → (modbus_rtu_handler_request_rx cb addr p).ready ≡ true
        → (modbus_rtu_handler_request_rx cb addr p).pdu.len
          ≡ 2 + get_or (modbus_rtu_handler_request_rx cb addr p).pdu.frame 1 0
    unfolding modbus_rtu_handler_request_rx
    request_rx-len low high ready = ground (arith, dispatch-len (get_or p.frame 0 0) low high)
