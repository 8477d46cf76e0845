-- ===== src/Modbus/Master.antt =====
-- src/protocols/modbus/modbus_master.c and inc/modbus/modbus_master.h: the requests of a master. The
-- field `request` of the context, which a transport sets, is a parameter over a state `W`.
pub mod Built
pub mod Coils
pub mod Validate
pub mod Accept
pub mod Writes
pub mod Written
mod Examples
use Prim.Native.Nat.{bit_or}
use kongjaexpress.Prelude.{
  ℕ, zero, suc, ◌+◌, ◌*◌, ◌/◌, ◌%◌, ◌^◌, List, [], ◌∷◌, Bool, ltb, ◌==◌, if◌then◌else◌, get_or, set,
}
use kongjaexpress.Modbus.Common.{
  func_read_coils, func_read_discrete_inputs, func_read_holding_register, func_read_input_register,
  func_write_single_coil, func_write_register, func_write_multiple_coils,
  func_write_multiple_registers, func_readwrite_multiple_registers,
}

-- MODBUS_MASTER_MAX_BUFFER_SIZE
abbrev pub max_buffer_size : ℕ
max_buffer_size = 512

-- `struct __modbus_master_ctx`, without its callbacks
pub record MasterCtx : Type 0 where
  pub tx_buf : List ℕ
  pub tx_ndx : ℕ
  pub pdu_offset : ℕ
  pub req_func : ℕ
  pub req_slave : ℕ
  pub req_reg_addr : ℕ
  pub req_nb : ℕ
  pub req_value : ℕ

-- `ctx->tx_buf[ctx->tx_ndx++] = b`, for each of the bytes
unfoldable pub put_tx : MasterCtx → List ℕ → MasterCtx
put_tx ctx [] = ctx
put_tx ctx (b ∷ bs) =
    put_tx (record ctx { tx_buf = set ctx.tx_buf ctx.tx_ndx b; tx_ndx = (ctx.tx_ndx + 1) % 2 ^ 16 })
      bs

unfoldable pub mb_master_fill_io_status_req : MasterCtx → ℕ → ℕ → ℕ → MasterCtx
mb_master_fill_io_status_req ctx func reg_addr nb_or_v =
    put_tx (record ctx { tx_ndx = ctx.pdu_offset })
      (func ∷ reg_addr / 2 ^ 8 ∷ reg_addr % 2 ^ 8 ∷ nb_or_v / 2 ^ 8 ∷ nb_or_v % 2 ^ 8 ∷ [])

-- `(nb / 8) + ((nb % 8) ? 1 : 0)`, as a `uint8_t`
abbrev pub coil_bytes : ℕ → ℕ
coil_bytes nb = (nb / 8 + (if nb % 8 == 0 then 0 else 1)) % 2 ^ 8

-- The loop over the bits of one byte, `rounds` of them left, with `bit + rounds = 8`.
unfoldable pub pack_bits : ℕ → ℕ → ℕ → ℕ → List ℕ → ℕ → ℕ
pack_bits zero bit pos nb values byte = byte
pack_bits (suc rounds) bit pos nb values byte =
    let byte' = if get_or values pos 0 == 0 then byte else bit_or byte (2 ^ bit) % 2 ^ 8 in
    let rest = pack_bits rounds (bit + 1) (pos + 1) nb values byte' in
    if ltb pos nb then rest else byte

-- The loop over the bytes, each from the position after the one before.
unfoldable pub pack_coils : ℕ → ℕ → ℕ → List ℕ → List ℕ
pack_coils zero pos nb values = []
pack_coils (suc n) pos nb values =
    pack_bits 8 0 pos nb values 0
    ∷ pack_coils n (if ltb (pos + 8) nb then pos + 8 else nb) nb values

-- the loop over the values of registers
unfoldable pub register_bytes : ℕ → ℕ → List ℕ → List ℕ
register_bytes zero i values = []
register_bytes (suc n) i values =
    let v = get_or values i 0 in v / 2 ^ 8 ∷ v % 2 ^ 8 ∷ register_bytes n (i + 1) values

-- what every request but the writes of one value stores in the context
abbrev pub asked : MasterCtx → ℕ → ℕ → ℕ → ℕ → MasterCtx
asked ctx func slave reg_addr nb = record ctx {
  req_func = func;
  req_slave = slave;
  req_reg_addr = reg_addr;
  req_nb = nb;
}

module _ {W : Type 0} (request : MasterCtx → ℕ → W → MasterCtx × W) (ctx : MasterCtx)
    (slave : ℕ) where
  unfoldable pub mb_master_read_coils_req : ℕ → ℕ → W → MasterCtx × W
  mb_master_read_coils_req reg_addr nb w =
      request
        (mb_master_fill_io_status_req (asked ctx func_read_coils slave reg_addr nb) func_read_coils
          reg_addr nb)
        slave w

  unfoldable pub mb_master_read_discrete_inputs : ℕ → ℕ → W → MasterCtx × W
  mb_master_read_discrete_inputs reg_addr nb w =
      request
        (mb_master_fill_io_status_req (asked ctx func_read_discrete_inputs slave reg_addr nb)
          func_read_discrete_inputs reg_addr nb)
        slave w

  unfoldable pub mb_master_read_holding_registers : ℕ → ℕ → W → MasterCtx × W
  mb_master_read_holding_registers reg_addr nb w =
      request
        (mb_master_fill_io_status_req (asked ctx func_read_holding_register slave reg_addr nb)
          func_read_holding_register reg_addr nb)
        slave w

  unfoldable pub mb_master_read_input_registers : ℕ → ℕ → W → MasterCtx × W
  mb_master_read_input_registers reg_addr nb w =
      request
        (mb_master_fill_io_status_req (asked ctx func_read_input_register slave reg_addr nb)
          func_read_input_register reg_addr nb)
        slave w

  unfoldable pub mb_master_write_single_coil : ℕ → ℕ → W → MasterCtx × W
  mb_master_write_single_coil reg_addr value w =
      let v = if value == 0 then 0x0000 else 0xff00 in
      request
        (mb_master_fill_io_status_req
          (record (asked ctx func_write_single_coil slave reg_addr 1) { req_value = v })
          func_write_single_coil reg_addr v)
        slave w

  unfoldable pub mb_master_write_single_register : ℕ → ℕ → W → MasterCtx × W
  mb_master_write_single_register reg_addr value w =
      request
        (mb_master_fill_io_status_req
          (record (asked ctx func_write_register slave reg_addr 1) { req_value = value })
          func_write_register reg_addr value)
        slave w

  unfoldable pub mb_master_write_multiple_coils : ℕ → ℕ → List ℕ → W → MasterCtx × W
  mb_master_write_multiple_coils reg_addr nb values w =
      let ctx₁ =
        mb_master_fill_io_status_req (asked ctx func_write_multiple_coils slave reg_addr nb)
          func_write_multiple_coils reg_addr nb in
      request (put_tx ctx₁ (coil_bytes nb ∷ pack_coils (coil_bytes nb) 0 nb values)) slave w

  unfoldable pub mb_master_write_multiple_registers : ℕ → ℕ → List ℕ → W → MasterCtx × W
  mb_master_write_multiple_registers reg_addr nb values w =
      let ctx₁ =
        mb_master_fill_io_status_req (asked ctx func_write_multiple_registers slave reg_addr nb)
          func_write_multiple_registers reg_addr nb in
      request (put_tx ctx₁ (nb * 2 % 2 ^ 8 ∷ register_bytes nb 0 values)) slave w

  unfoldable pub mb_master_write_and_read_registers : ℕ → ℕ → List ℕ → ℕ → ℕ → W → MasterCtx × W
  mb_master_write_and_read_registers write_addr nb_write values read_addr nb_read w =
      let ctx₁ =
        mb_master_fill_io_status_req
          (asked ctx func_readwrite_multiple_registers slave read_addr nb_read)
          func_readwrite_multiple_registers read_addr nb_read in
      let head =
        write_addr / 2 ^ 8 ∷ write_addr % 2 ^ 8 ∷ nb_write / 2 ^ 8 ∷ nb_write % 2 ^ 8 ∷ [] in
      request (put_tx (put_tx ctx₁ head) (nb_write * 2 % 2 ^ 8 ∷ register_bytes nb_write 0 values))
        slave w
