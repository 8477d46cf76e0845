-- ===== src/Modbus/Master/Accept.antt =====
-- A request of the master, served by the slave, and the response back at the master.
use kongjaexpress.Prelude.{
  ℕ, ◌+◌, ◌*◌, ◌/◌, ◌%◌, ◌^◌, ◌≤◌, ◌<◌, ◌≡◌, refl, ap, ◌∙◌, List, ◌∷◌, ◌++◌, true, false, some,
  none, arith, length, get_or,
}
use kongjaexpress.Prelude.Bytes.{word16-octets}
use kongjaexpress.Modbus.Common.{
  SlaveCallbacks, Reply, enoerr, reg_read, func_read_coils, func_read_discrete_inputs,
  func_read_holding_register, func_read_input_register,
}
use kongjaexpress.Modbus.Funcs.{Pdu, conclude}
use kongjaexpress.Modbus.Funcs.Read.{
  read_coils, read_discrete_inputs, read_input_register, read_holding_register,
}
use kongjaexpress.Modbus.Funcs.Bounds.{Fits, bit_bytes_lem}
use kongjaexpress.Modbus.Funcs.Response.{request_rx-code}
use kongjaexpress.Modbus.Funcs.Dispatch.{Response, dispatch, modbus_rtu_handler_request_rx}
use kongjaexpress.Modbus.Master.{
  MasterCtx, asked, mb_master_fill_io_status_req, mb_master_read_coils_req,
  mb_master_read_discrete_inputs, mb_master_read_holding_registers, mb_master_read_input_registers,
}
use kongjaexpress.Modbus.Master.Built.{
  pdu_of, io_status, pdu_of-fill, filled, fill-eq-filled, filled,
}
use kongjaexpress.Modbus.Master.Validate.{
  MasterCall, coil, discrete, holding_regs, input_regs, modbus_rtu_validate_response,
  modbus_rtu_handler_response_rx,
}

-- the four kinds of values that a master reads
pub data ReadKind : Type 0 where
  coils discrete_inputs holding_registers input_registers : ReadKind

abbrev pub code : ReadKind → ℕ
code coils = func_read_coils
code discrete_inputs = func_read_discrete_inputs
code holding_registers = func_read_holding_register
code input_registers = func_read_input_register

-- the slave serves fewer values than this in one request
abbrev pub limit : ReadKind → ℕ
limit coils = 2000
limit discrete_inputs = 2000
limit holding_registers = 126
limit input_registers = 125

-- the bytes of `nb` values
abbrev pub data_bytes : ReadKind → ℕ → ℕ
data_bytes coils nb = (nb + 7) / 8
data_bytes discrete_inputs nb = (nb + 7) / 8
data_bytes holding_registers nb = 2 * nb
data_bytes input_registers nb = 2 * nb

-- the context that a read request hands to the transport
pub built : ReadKind → MasterCtx → ℕ → ℕ → ℕ → MasterCtx
built coils ctx slave addr nb =
    (mb_master_read_coils_req {W = Unit {0}} (λ c s w. (c, w)) ctx slave addr nb tt).0
built discrete_inputs ctx slave addr nb =
    (mb_master_read_discrete_inputs {W = Unit {0}} (λ c s w. (c, w)) ctx slave addr nb tt).0
built holding_registers ctx slave addr nb =
    (mb_master_read_holding_registers {W = Unit {0}} (λ c s w. (c, w)) ctx slave addr nb tt).0
built input_registers ctx slave addr nb =
    (mb_master_read_input_registers {W = Unit {0}} (λ c s w. (c, w)) ctx slave addr nb tt).0

-- the callback of the master for the values read
abbrev pub delivered : ReadKind → ℕ → ℕ → ℕ → List ℕ → MasterCall
delivered coils slave addr nb bytes = coil slave addr nb (some bytes) reg_read
delivered discrete_inputs slave addr nb bytes = discrete slave addr nb bytes
delivered holding_registers slave addr nb bytes = holding_regs slave addr nb (some bytes) reg_read
delivered input_registers slave addr nb bytes = input_regs slave addr nb bytes

-- the memory that the slave's application is given: what follows the two bytes of the response
abbrev pub memory : ℕ → ℕ → List ℕ → List ℕ
memory addr nb rest = addr % 2 ^ 8 ∷ nb / 2 ^ 8 ∷ nb % 2 ^ 8 ∷ rest

pub accepted :
    (k : ReadKind) (ctx : MasterCtx) (slave addr nb : ℕ) (m : List ℕ)
    → ctx.req_func ≡ code k
    → ctx.req_reg_addr ≡ addr
    → ctx.req_nb ≡ nb
    → nb < limit k
    → modbus_rtu_handler_response_rx ctx slave (code k ∷ data_bytes k nb ∷ m) (2 + data_bytes k nb)
      ≡ some (delivered k slave addr nb m)
unfolding modbus_rtu_handler_response_rx modbus_rtu_validate_response
accepted coils ctx slave addr nb m f a n h = ground arith
accepted discrete_inputs ctx slave addr nb m f a n h = ground arith
accepted holding_registers ctx slave addr nb m f a n h = ground arith
accepted input_registers ctx slave addr nb m f a n h = ground arith

pub built-eq-filled :
    (k : ReadKind) (ctx : MasterCtx) (slave addr nb : ℕ)
    → built k ctx slave addr nb
      ≡ mb_master_fill_io_status_req (asked ctx (code k) slave addr nb) (code k) addr nb
unfolding built mb_master_read_coils_req mb_master_read_discrete_inputs
    mb_master_read_holding_registers mb_master_read_input_registers
built-eq-filled coils ctx slave addr nb = refl
built-eq-filled discrete_inputs ctx slave addr nb = refl
built-eq-filled holding_registers ctx slave addr nb = refl
built-eq-filled input_registers ctx slave addr nb = refl

-- the PDU of a read request, and the context around it
pub built-pdu_of :
    (k : ReadKind) (ctx : MasterCtx) (slave addr nb : ℕ)
    → ctx.pdu_offset + 5 ≤ length ctx.tx_buf
    → length ctx.tx_buf < 2 ^ 16
    → pdu_of (built k ctx slave addr nb) ≡ io_status (code k) addr nb
built-pdu_of k ctx slave addr nb room small =
    ap pdu_of (built-eq-filled k ctx slave addr nb)
    ∙ pdu_of-fill (asked ctx (code k) slave addr nb) (code k) addr nb room (omega arith)

pub built-shape :
    (k : ReadKind) (ctx : MasterCtx) (slave addr nb : ℕ)
    → ctx.pdu_offset + 5 < 2 ^ 16
    → built k ctx slave addr nb
      ≡ filled (asked ctx (code k) slave addr nb) (io_status (code k) addr nb)
built-shape k ctx slave addr nb small =
    built-eq-filled k ctx slave addr nb
    ∙ fill-eq-filled (asked ctx (code k) slave addr nb) (code k) addr nb small

module _ {D : Type 0} (cb : SlaveCallbacks D) where
  -- what the slave's application stores for the values
  abbrev pub device : ReadKind → ℕ → ℕ → ℕ → List ℕ → D → Reply D
  device coils slave addr nb m d = cb.coil_cb slave addr nb reg_read m d
  device discrete_inputs slave addr nb m d = cb.discrete_cb slave addr nb m d
  device holding_registers slave addr nb m d = cb.holding_regs_cb slave addr nb reg_read m d
  device input_registers slave addr nb m d = cb.input_regs_cb slave addr nb m d

  -- a request as the slave gets it, with the rest of its buffer
  abbrev pub arrived : List ℕ → List ℕ → D → Pdu D
  arrived pdu rest dev = record { frame = pdu ++ rest; len = length pdu; dev = dev }

  module _ (slave addr nb : ℕ) (rest : List ℕ) (dev : D) (small : addr < 2 ^ 16) where
    abbrev pub answered : ReadKind → Response D
    answered k =
        let r = device k slave addr nb (memory addr nb rest) dev in
        record {
          ready = true;
          pdu = record {
            frame = code k ∷ data_bytes k nb ∷ r.memory;
            len = 2 + data_bytes k nb;
            dev = r.dev;
          };
        }

    pub served :
        (k : ReadKind)
        → nb < limit k
        → 1 ≤ nb
        → (device k slave addr nb (memory addr nb rest) dev).status ≡ enoerr
        → modbus_rtu_handler_request_rx cb slave (arrived (io_status (code k) addr nb) rest dev)
          ≡ answered k
    unfolding modbus_rtu_handler_request_rx dispatch read_coils read_discrete_inputs
        read_holding_register read_input_register conclude
    served coils few some_values ok =
        ground (arith, word16-octets addr small, word16-octets nb, bit_bytes_lem nb, ok)
    served discrete_inputs few some_values ok =
        ground (arith, word16-octets addr small, word16-octets nb, bit_bytes_lem nb, ok)
    served holding_registers few some_values ok = ground (arith, word16-octets addr small, ok)
    served input_registers few some_values ok =
        ground (arith, word16-octets addr small, word16-octets nb, ok)

  -- A master asks a slave for coils, discrete inputs or registers, fewer than the slave's limit and
  -- one at least, with room for the request in its buffer and an address of 16 bits. The PDU of the
  -- request reaches the slave at the start of its buffer, and the slave's application serves the
  -- values without an error. Then the slave has a response ready, and the response makes the master
  -- call the callback for that kind of values, with the slave, the address and the number that were
  -- asked for, and with exactly the bytes that the slave's application stored.
  pub read-delivered :
      (k : ReadKind) (ctx : MasterCtx) (slave addr nb : ℕ) (rest : List ℕ) (dev : D)
      → ctx.pdu_offset + 5 ≤ length ctx.tx_buf
      → length ctx.tx_buf < 2 ^ 16
      → addr < 2 ^ 16
      → 1 ≤ nb
      → nb < limit k
      → (device k slave addr nb (memory addr nb rest) dev).status ≡ enoerr
      → let ctx' = built k ctx slave addr nb in
        let r = modbus_rtu_handler_request_rx cb slave (arrived (pdu_of ctx') rest dev) in
        (r.ready ≡ true)
        × (modbus_rtu_handler_response_rx ctx' slave r.pdu.frame r.pdu.len
            ≡ some (
                delivered k slave addr nb
                  (device k slave addr nb (memory addr nb rest) dev).memory))
  read-delivered k ctx slave addr nb rest dev room small addr_small some_values few ok =
      let ctx' = built k ctx slave addr nb in
      let shape = built-shape k ctx slave addr nb (omega arith) in
      let pdu = built-pdu_of k ctx slave addr nb room small in
      let reply =
        ap (λ (bs : List ℕ). modbus_rtu_handler_request_rx cb slave (arrived bs rest dev)) pdu
        ∙ served slave addr nb rest dev addr_small k few some_values ok in
      (
        ap (λ (r : Response D). r.ready) reply,
        ap (λ (r : Response D). modbus_rtu_handler_response_rx ctx' slave r.pdu.frame r.pdu.len)
              reply
            ∙ accepted k ctx' slave addr nb
                (device k slave addr nb (memory addr nb rest) dev).memory
                (ap (λ (c : MasterCtx). c.req_func) shape)
                (ap (λ (c : MasterCtx). c.req_reg_addr) shape)
                (ap (λ (c : MasterCtx). c.req_nb) shape) few,
      )

  -- An exception response to a request makes the master call nothing: the function code of the
  -- request, below 128 as all the codes of the master, is not that of the response.
  pub exception-ignored :
      (ctx : MasterCtx) (slave : ℕ) (p : Pdu D)
      → Fits p
      → get_or p.frame 0 0 ≡ ctx.req_func
      → ctx.req_func < 128
      → let r = modbus_rtu_handler_request_rx cb slave p in
        r.ready ≡ false → modbus_rtu_handler_response_rx ctx slave r.pdu.frame r.pdu.len ≡ none
  unfolding modbus_rtu_handler_response_rx modbus_rtu_validate_response
  exception-ignored ctx slave p fits same low failed =
      ground (arith, request_rx-code cb slave p fits)
