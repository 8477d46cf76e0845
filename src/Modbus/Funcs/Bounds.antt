-- ===== src/Modbus/Funcs/Bounds.antt =====
-- No handler writes outside the PDU or leaves a response that is too long for it.
use Prim.Native.Nat.{bit_or}
use kongjaexpress.Prelude.{
  ℕ, ◌+◌, ◌*◌, ◌%◌, ◌/◌, ◌^◌, ◌≤◌, ◌<◌, ◌≡◌, ◌∙◌, List, arith, length, length-take, length-drop,
  length-append, length-set, take, drop, set, get_or, ◌++◌,
}
use kongjaexpress.Prelude.Bits.{bit_and_seven}
use kongjaexpress.Prelude.Bytes.{Bytes, IsByte, All-append, All-take, All-drop, All-set}
use kongjaexpress.Modbus.Common.{
  SlaveCallbacks, MbException, exception_code, func_error, Reply, Stores, func_read_coils,
  func_read_discrete_inputs, func_read_holding_register, func_read_input_register,
  func_readwrite_multiple_registers, reg_read, reg_write, pdu_size_max,
}
use kongjaexpress.Modbus.Funcs.{Pdu, conclude, word_at}
use kongjaexpress.Modbus.Funcs.Read.{
  bit_bytes, respond, read_coils, read_discrete_inputs, read_input_register, read_holding_register,
}
use kongjaexpress.Modbus.Funcs.Write.{
  write_coil, write_multiple_coils, write_holding_register, write_multiple_holding_registers,
  read_after_write, read_write_multiple_holding_registers,
}
use kongjaexpress.Modbus.Funcs.Dispatch.{dispatch, modbus_rtu_handler_request_rx}

-- The buffer of bytes holds the largest PDU, and the length is at most that.
pub record Fits {D : Type 0} (p : Pdu D) : Type 0 where
  pub room : pdu_size_max ≤ length p.frame
  pub bytes : Bytes p.frame
  pub short : p.len ≤ pdu_size_max

splice-Stores :
    (frame m : List ℕ) (off : ℕ)
    → off ≤ length frame
    → Stores (drop off frame) m
    → Stores frame (take off frame ++ m)
splice-Stores frame m off h s = (
  omega (arith, length-append (take off frame) m, length-take off frame, length-drop off frame),
  λ b.
      All-append IsByte (take off frame) m (All-take IsByte off frame b)
        (s.1 (All-drop IsByte off frame b)),
)

respond-Stores :
    (frame : List ℕ) (func count : ℕ)
    → func < 256
    → count < 256
    → Stores frame (respond frame func count)
respond-Stores frame func count h k = (
  length-set (set frame 0 func) 1 count ∙ length-set frame 0 func,
  λ b. All-set IsByte (set frame 0 func) 1 count (All-set IsByte frame 0 func b h) k,
)

-- Up to 2039 bits the number of bytes is the quotient by 8, rounded up.
pub bit_bytes_lem : (count : ℕ) → count < 2040 → bit_bytes count ≡ (count + 7) / 8
unfolding bit_bytes
bit_bytes_lem count h = ground (arith, bit_and_seven count)

pub exception_code-lt : (e : MbException) → exception_code e < 256
exception_code-lt e = ground arith

module _ {D : Type 0} where
  conclude-Fits :
      (frame : List ℕ) (off failed done : ℕ) (callback : List ℕ → Reply D)
      → ((m : List ℕ) → Stores m (callback m).memory)
      → pdu_size_max ≤ length frame
      → Bytes frame
      → off ≤ pdu_size_max
      → failed ≤ pdu_size_max
      → done ≤ pdu_size_max
      → Fits (conclude frame off failed done callback).pdu
  unfolding conclude
  conclude-Fits frame off failed done callback stores room bytes h f d =
      let s = splice-Stores frame (callback (drop off frame)).memory off (omega arith) (stores _) in
      record { room = omega (arith, s.0); bytes = s.1 bytes; short = ground arith }

  -- the response of a handler that reads
  answer-Fits :
      (frame : List ℕ) (func count done : ℕ) (callback : List ℕ → Reply D)
      → ((m : List ℕ) → Stores m (callback m).memory)
      → pdu_size_max ≤ length frame
      → Bytes frame
      → func < 256
      → done ≤ pdu_size_max
      → Fits (conclude (respond frame func (count % 256)) 2 2 done callback).pdu
  answer-Fits frame func count done callback stores room bytes f d =
      let s = respond-Stores frame func (count % 256) f (omega arith) in
      conclude-Fits _ 2 2 done callback stores (omega (arith, s.0)) (s.1 bytes) (omega arith)
        (omega arith) d

  module _ (cb : SlaveCallbacks D) (addr : ℕ) (p : Pdu D) (fits : Fits p) where
    read_coils-Fits : Fits (read_coils cb addr p).pdu
    unfolding read_coils
    read_coils-Fits =
        let reg = word_at p.frame 1 in
        let count = word_at p.frame 3 in
        ground (
          arith,
          bit_bytes_lem count,
          answer-Fits p.frame func_read_coils (bit_bytes count) ((2 + bit_bytes count) % 2 ^ 16)
              (λ m. cb.coil_cb addr reg count reg_read m p.dev)
              (λ m. cb.coil-Stores addr reg count reg_read m p.dev) fits.room fits.bytes,
        )

    read_discrete_inputs-Fits : Fits (read_discrete_inputs cb addr p).pdu
    unfolding read_discrete_inputs
    read_discrete_inputs-Fits =
        let reg = word_at p.frame 1 in
        let count = word_at p.frame 3 in
        ground (
          arith,
          bit_bytes_lem count,
          answer-Fits p.frame func_read_discrete_inputs (bit_bytes count)
              ((2 + bit_bytes count) % 2 ^ 16) (λ m. cb.discrete_cb addr reg count m p.dev)
              (λ m. cb.discrete-Stores addr reg count m p.dev) fits.room fits.bytes,
        )

    read_input_register-Fits : Fits (read_input_register cb addr p).pdu
    unfolding read_input_register
    read_input_register-Fits =
        let reg = word_at p.frame 1 in
        let count = word_at p.frame 3 in
        ground (
          arith,
          answer-Fits p.frame func_read_input_register (count * 2) ((2 + count * 2) % 2 ^ 16)
              (λ m. cb.input_regs_cb addr reg count m p.dev)
              (λ m. cb.input_regs-Stores addr reg count m p.dev) fits.room fits.bytes,
        )

    read_holding_register-Fits : Fits (read_holding_register cb addr p).pdu
    unfolding read_holding_register
    read_holding_register-Fits =
        let reg = word_at p.frame 1 in
        let count = get_or p.frame 4 0 in
        ground (
          arith,
          answer-Fits p.frame func_read_holding_register (count * 2) ((2 + count * 2) % 2 ^ 16)
              (λ m. cb.holding_regs_cb addr reg count reg_read m p.dev)
              (λ m. cb.holding_regs-Stores addr reg count reg_read m p.dev) fits.room fits.bytes,
        )

    write_coil-Fits : Fits (write_coil cb addr p).pdu
    unfolding write_coil
    write_coil-Fits = ground arith

    write_multiple_coils-Fits : Fits (write_multiple_coils cb addr p).pdu
    unfolding write_multiple_coils
    write_multiple_coils-Fits =
        let reg = word_at p.frame 1 in
        let count = word_at p.frame 3 in
        ground (
          arith,
          conclude-Fits p.frame 6 p.len 5 (λ m. cb.coil_cb addr reg count reg_write m p.dev)
              (λ m. cb.coil-Stores addr reg count reg_write m p.dev) fits.room fits.bytes,
        )

    write_holding_register-Fits : Fits (write_holding_register cb addr p).pdu
    unfolding write_holding_register
    write_holding_register-Fits =
        let reg = word_at p.frame 1 in
        ground (
          arith,
          conclude-Fits p.frame 3 p.len p.len (λ m. cb.holding_regs_cb addr reg 1 reg_write m p.dev)
              (λ m. cb.holding_regs-Stores addr reg 1 reg_write m p.dev) fits.room fits.bytes,
        )

    write_multiple_holding_registers-Fits : Fits (write_multiple_holding_registers cb addr p).pdu
    unfolding write_multiple_holding_registers
    write_multiple_holding_registers-Fits =
        let reg = word_at p.frame 1 in
        let count = word_at p.frame 3 in
        ground (
          arith,
          conclude-Fits p.frame 6 p.len 5 (λ m. cb.holding_regs_cb addr reg count reg_write m p.dev)
              (λ m. cb.holding_regs-Stores addr reg count reg_write m p.dev) fits.room fits.bytes,
        )

    read_after_write-Fits :
        (frame : List ℕ) (reg count : ℕ) (dev : D)
        → pdu_size_max ≤ length frame
        → Bytes frame
        → count ≤ 125
        → Fits (read_after_write cb addr p frame reg count dev).pdu
    unfolding read_after_write
    read_after_write-Fits frame reg count dev room bytes h =
        answer-Fits frame func_readwrite_multiple_registers (count * 2) ((2 + 2 * count) % 2 ^ 16)
          (λ m. cb.holding_regs_cb addr reg count reg_read m dev)
          (λ m. cb.holding_regs-Stores addr reg count reg_read m dev) room bytes (omega arith)
          (omega arith)

    read_write_multiple_holding_registers-Fits :
        Fits (read_write_multiple_holding_registers cb addr p).pdu
    unfolding read_write_multiple_holding_registers
    read_write_multiple_holding_registers-Fits =
        let memory = drop 10 p.frame in
        let write_reg = word_at p.frame 5 in
        let write_count = word_at p.frame 7 in
        let w = cb.holding_regs_cb addr write_reg write_count reg_write memory p.dev in
        let (size, bytes) =
          splice-Stores p.frame w.memory 10 (omega (arith, fits.room))
            (cb.holding_regs-Stores addr write_reg write_count reg_write memory p.dev) in
        ground (
          arith,
          size,
          bytes fits.bytes,
          read_after_write-Fits (take 10 p.frame ++ w.memory) (word_at p.frame 1)
              (word_at p.frame 3) w.dev,
        )

    pub dispatch-Fits : (func : ℕ) → Fits (dispatch cb addr p func).pdu
    unfolding dispatch
    dispatch-Fits func = ground (
      arith, read_coils-Fits, read_discrete_inputs-Fits, read_input_register-Fits,
      read_holding_register-Fits, write_coil-Fits, write_multiple_coils-Fits,
      write_holding_register-Fits, write_multiple_holding_registers-Fits,
      read_write_multiple_holding_registers-Fits,
    )

    -- Whatever a request of at most 253 bytes holds and whatever the callbacks return, the response
    -- has at most 253 bytes, it is made of bytes, and the buffer keeps room for the largest PDU.
    pub request_rx-Fits : Fits (modbus_rtu_handler_request_rx cb addr p).pdu
    unfolding modbus_rtu_handler_request_rx
    request_rx-Fits =
        let func = get_or p.frame 0 0 in
        let h = dispatch cb addr p func in
        let f = dispatch-Fits func in
        let (size, bytes) =
          respond-Stores h.pdu.frame (bit_or func func_error % 2 ^ 8) (exception_code h.status)
            (omega arith) (exception_code-lt h.status) in
        ground (arith, f, size, bytes f.bytes)
