-- ===== src/Modbus/Funcs/Read.antt =====
-- src/protocols/modbus/modbus_func_coils.c, modbus_func_discrete.c, modbus_func_input.c and
-- modbus_func_holding.c: the four read handlers.
use Prim.Native.Nat.{bit_and}
use kongjaexpress.Prelude.{
  ℕ, ◌+◌, ◌*◌, ◌/◌, ◌%◌, ◌^◌, List, ◌&&◌, get_or, set, ltb, leb, ◌==◌, if◌then◌else◌,
}
use kongjaexpress.Modbus.Common.{
  SlaveCallbacks, ex_illegal_data_value, reg_read, func_read_coils, func_read_discrete_inputs,
  func_read_holding_register, func_read_input_register,
}
use kongjaexpress.Modbus.Funcs.{Pdu, Handled, word_at, conclude}

-- the number of bytes that hold `count` bits, as a `uint8_t`
unfoldable pub bit_bytes : ℕ → ℕ
bit_bytes count = if bit_and count 7 == 0 then count / 8 % 2 ^ 8 else (count / 8 + 1) % 2 ^ 8

-- the first two bytes of a response: the function code and the number of bytes that follow
abbrev pub respond : List ℕ → ℕ → ℕ → List ℕ
respond frame func count = set (set frame 0 func) 1 count

abbrev pub refuse : {D : Type 0} → Pdu D → Handled D
refuse p = record { status = ex_illegal_data_value; pdu = p }

module _ {D : Type 0} (cb : SlaveCallbacks D) (addr : ℕ) (p : Pdu D) where
  unfoldable pub read_coils : Handled D
  read_coils =
      let reg = word_at p.frame 1 in
      let count = word_at p.frame 3 in
      let bytes = bit_bytes count in
      if p.len == 5
      then (if leb 1 count && ltb count 0x07d0
          then conclude (respond p.frame func_read_coils bytes) 2 2 ((2 + bytes) % 2 ^ 16)
              (λ m. cb.coil_cb addr reg count reg_read m p.dev)
          else refuse p)
      else refuse p

  unfoldable pub read_discrete_inputs : Handled D
  read_discrete_inputs =
      let reg = word_at p.frame 1 in
      let count = word_at p.frame 3 in
      let bytes = bit_bytes count in
      if p.len == 5
      then (if leb 1 count && ltb count 0x07d0
          then conclude (respond p.frame func_read_discrete_inputs bytes) 2 2 ((2 + bytes) % 2 ^ 16)
              (λ m. cb.discrete_cb addr reg count m p.dev)
          else refuse p)
      else refuse p

  unfoldable pub read_input_register : Handled D
  read_input_register =
      let reg = word_at p.frame 1 in
      let count = word_at p.frame 3 in
      if p.len == 5
      then (if leb 1 count && ltb count 0x007d
          then conclude (respond p.frame func_read_input_register (count * 2 % 2 ^ 8)) 2 2
              ((2 + count * 2) % 2 ^ 16) (λ m. cb.input_regs_cb addr reg count m p.dev)
          else refuse p)
      else refuse p

  -- The high byte of the count is assigned and then overwritten by the low byte.
  unfoldable pub read_holding_register : Handled D
  read_holding_register =
      let reg = word_at p.frame 1 in
      let count = get_or p.frame 4 0 in
      if p.len == 5
      then (if leb 1 count && leb count 0x007d
          then conclude (respond p.frame func_read_holding_register (count * 2 % 2 ^ 8)) 2 2
              ((2 + count * 2) % 2 ^ 16) (λ m. cb.holding_regs_cb addr reg count reg_read m p.dev)
          else refuse p)
      else refuse p
