-- ===== src/Modbus/Master/Written.antt =====
-- A request of the master to write many coils or registers, carried out by the slave, and the
-- response back at the master.
use kongjaexpress.Prelude.{
  ℕ, zero, suc, ◌+◌, ◌*◌, ◌/◌, ◌%◌, ◌^◌, ◌≤◌, ◌<◌, ◌≡◌, sym, ap, ◌∙◌, List, ◌∷◌, ◌++◌, true, some,
  none, arith, length, get_or, ◌==◌, if◌then◌else◌, get_or-take, take-length-append,
}
use kongjaexpress.Prelude.Bytes.{word16-octets, word16}
use kongjaexpress.Modbus.BitFields.Words.{bit_at}
use kongjaexpress.Prelude.Digits.{bit}
use kongjaexpress.Modbus.Common.{SlaveCallbacks, Reply, enoerr, reg_write}
use kongjaexpress.Modbus.Funcs.{conclude, word_at}
use kongjaexpress.Modbus.Funcs.Write.{write_multiple_coils, write_multiple_holding_registers}
use kongjaexpress.Modbus.Funcs.Bounds.{bit_bytes_lem}
use kongjaexpress.Modbus.Funcs.Dispatch.{Response, dispatch, modbus_rtu_handler_request_rx}
use kongjaexpress.Modbus.Master.{MasterCtx, coil_bytes, pack_coils, register_bytes}
use kongjaexpress.Modbus.Master.Built.{pdu_of, io_status}
use kongjaexpress.Modbus.Master.Coils.{bit_at-pack_coils}
use kongjaexpress.Modbus.Master.Accept.{arrived}
use kongjaexpress.Modbus.Master.Validate.{
  MasterCall, coil, holding_regs, modbus_rtu_validate_response, modbus_rtu_handler_response_rx,
}
use kongjaexpress.Modbus.Master.Writes.{
  ManyKind, many_coils, many_registers, write_code, most, size, data_of, sent,
  length-register_bytes, length-data_of, sent-eq-filled, pdu_of-sent,
}

-- value `i` in the memory of the slave's application, and as the master was told it
abbrev pub value_at : ManyKind → List ℕ → ℕ → ℕ
value_at many_coils m i = bit_at m i
value_at many_registers m i = word_at m (2 * i)

abbrev pub told : ManyKind → ℕ → ℕ
told many_coils v = if v == 0 then 0 else 1
told many_registers v = v

-- the callback of the master for a write that is acknowledged
abbrev pub written : ManyKind → ℕ → ℕ → ℕ → MasterCall
written many_coils slave addr nb = coil slave addr nb none reg_write
written many_registers slave addr nb = holding_regs slave addr nb none reg_write

acknowledged :
    (k : ManyKind) (ctx : MasterCtx) (slave addr nb : ℕ) (m : List ℕ)
    → ctx.req_func ≡ write_code k
    → ctx.req_reg_addr ≡ addr
    → ctx.req_nb ≡ nb
    → addr < 2 ^ 16
    → nb ≤ most k
    → modbus_rtu_handler_response_rx ctx slave (io_status (write_code k) addr nb ++ m) 5
      ≡ some (written k slave addr nb)
unfolding modbus_rtu_handler_response_rx modbus_rtu_validate_response
acknowledged many_coils ctx slave addr nb m f a n h few =
    ground (arith, word16-octets addr h, word16-octets nb)
acknowledged many_registers ctx slave addr nb m f a n h few =
    ground (arith, word16-octets addr h, word16-octets nb)

word_at-register_bytes :
    (n i : ℕ) (values : List ℕ) (j : ℕ)
    → j < n
    → get_or values (i + j) 0 < 2 ^ 16
    → word_at (register_bytes n i values) (2 * j) ≡ get_or values (i + j) 0
unfolding register_bytes
word_at-register_bytes zero i values j h small = absurd (omega arith)
word_at-register_bytes (suc n) i values zero h small =
    let at : i + 0 ≡ i = omega arith in
    let first : get_or values i 0 < 2 ^ 16 = rw (sym at) small in
    rw at (word16-octets (get_or values i 0) first)
word_at-register_bytes (suc n) i values (suc j) h small =
    let at : i + suc j ≡ i + 1 + j = omega arith in
    let next : get_or values (i + 1 + j) 0 < 2 ^ 16 = rw (sym at) small in
    let two : 2 * suc j ≡ suc (suc (2 * j)) = omega arith in
    let three : suc (suc (2 * j)) + 1 ≡ suc (suc (2 * j + 1)) = omega arith in
    rw (at, two, three) (word_at-register_bytes n (i + 1) values j (omega arith) next)

get_or-append : (xs ys : List ℕ) (i : ℕ) → i < length xs → get_or (xs ++ ys) i 0 ≡ get_or xs i 0
get_or-append xs ys i h =
    sym (get_or-take (length xs) (xs ++ ys) i 0 h)
    ∙ ap (λ (zs : List ℕ). get_or zs i 0) (take-length-append xs ys)

-- the values as the slave's application finds them in its memory
value_at-data_of :
    (k : ManyKind) (nb : ℕ) (values rest : List ℕ) (i : ℕ)
    → nb ≤ most k
    → i < nb
    → get_or values i 0 < 2 ^ 16
    → value_at k (data_of k nb values ++ rest) i ≡ told k (get_or values i 0)
value_at-data_of many_coils nb values rest i few below small =
    let bytes = pack_coils (coil_bytes nb) 0 nb values in
    let size = length-data_of many_coils nb values few in
    let inside : i / 8 < length bytes = ground (arith, size) in
    unfold bit_at in
    ap (bit (i % 8)) (get_or-append bytes rest (i / 8) inside)
    ∙ bit_at-pack_coils nb values i (omega arith) below
value_at-data_of many_registers nb values rest i few below small =
    let bytes = register_bytes nb 0 values in
    let size = length-register_bytes nb 0 values in
    let at : 0 + i ≡ i = omega arith in
    let fits : get_or values (0 + i) 0 < 2 ^ 16 = rw at small in
    ap (λ (hi : ℕ). word16 hi (get_or (bytes ++ rest) (2 * i + 1) 0))
      (get_or-append bytes rest (2 * i) (omega (arith, size)))
    ∙ ap (word16 (get_or bytes (2 * i) 0))
        (get_or-append bytes rest (2 * i + 1) (omega (arith, size)))
    ∙ word_at-register_bytes nb 0 values i below fits
    ∙ ap (λ (j : ℕ). get_or values j 0) at

module _ {D : Type 0} (cb : SlaveCallbacks D) (slave addr nb : ℕ) (dev : D) where
  -- what the slave's application is called with
  abbrev pub stored : ManyKind → List ℕ → Reply D
  stored many_coils m = cb.coil_cb slave addr nb reg_write m dev
  stored many_registers m = cb.holding_regs_cb slave addr nb reg_write m dev

  abbrev answered : ManyKind → List ℕ → Response D
  answered k m =
      let r = stored k m in
      record {
        ready = true;
        pdu = record {
          frame = io_status (write_code k) addr nb ++ (size k nb ∷ r.memory);
          len = 5;
          dev = r.dev;
        };
      }

  carried_out :
      (k : ManyKind) (bytes rest : List ℕ)
      → addr < 2 ^ 16
      → 1 ≤ nb
      → nb ≤ most k
      → (stored k (bytes ++ rest)).status ≡ enoerr
      → modbus_rtu_handler_request_rx cb slave
          (arrived cb (io_status (write_code k) addr nb ++ (size k nb ∷ bytes)) rest dev)
        ≡ answered k (bytes ++ rest)
  unfolding modbus_rtu_handler_request_rx dispatch write_multiple_coils
      write_multiple_holding_registers conclude
  carried_out many_coils bytes rest small some_values few ok =
      ground (arith, word16-octets addr small, word16-octets nb, bit_bytes_lem nb, ok)
  carried_out many_registers bytes rest small some_values few ok =
      ground (arith, word16-octets addr small, word16-octets nb, ok)

  -- A master writes many coils, 1968 at most, or many registers, 120 at most, to a slave, with room
  -- for the request in its buffer and an address of 16 bits. The PDU of the request reaches the slave
  -- at the start of its buffer, and the slave's application carries the write out without an error.
  -- Then the slave's application is left as one call of it for the address and the number that were
  -- asked for leaves it. The memory of this call has each value of 16 bits in its place: a register
  -- as it is, a coil as 1 if the value is not 0 and as 0 otherwise. The slave has a response ready,
  -- and the response makes the master call the callback for the write, without values.
  pub write-acknowledged :
      (k : ManyKind) (ctx : MasterCtx) (values rest : List ℕ) (i : ℕ)
      → ctx.pdu_offset + 6 + size k nb ≤ length ctx.tx_buf
      → length ctx.tx_buf < 2 ^ 16
      → addr < 2 ^ 16
      → nb ≤ most k
      → i < nb
      → get_or values i 0 < 2 ^ 16
      → let m = data_of k nb values ++ rest in
        (stored k m).status ≡ enoerr
        → let ctx' = sent k ctx slave addr nb values in
          let r = modbus_rtu_handler_request_rx cb slave (arrived cb (pdu_of ctx') rest dev) in
          (r.ready ≡ true)
          × (r.pdu.dev ≡ (stored k m).dev)
          × (value_at k m i ≡ told k (get_or values i 0))
          × (modbus_rtu_handler_response_rx ctx' slave r.pdu.frame r.pdu.len
              ≡ some (written k slave addr nb))
  write-acknowledged k ctx values rest i room small addr_small few below fits ok =
      let bytes = data_of k nb values in
      let ctx' = sent k ctx slave addr nb values in
      let shape = sent-eq-filled k ctx slave addr nb values few (omega arith) in
      let reply =
        ap (λ (bs : List ℕ). modbus_rtu_handler_request_rx cb slave (arrived cb bs rest dev))
          (pdu_of-sent k ctx slave addr nb values few room small)
        ∙ carried_out k bytes rest addr_small (omega arith) few ok in
      (
        ap (λ (r : Response D). r.ready) reply,
        ap (λ (r : Response D). r.pdu.dev) reply,
        value_at-data_of k nb values rest i few below fits,
        ap (λ (r : Response D). modbus_rtu_handler_response_rx ctx' slave r.pdu.frame r.pdu.len)
              reply
            ∙ acknowledged k ctx' slave addr nb (size k nb ∷ (stored k (bytes ++ rest)).memory)
                (ap (λ (c : MasterCtx). c.req_func) shape)
                (ap (λ (c : MasterCtx). c.req_reg_addr) shape)
                (ap (λ (c : MasterCtx). c.req_nb) shape) addr_small few,
      )
