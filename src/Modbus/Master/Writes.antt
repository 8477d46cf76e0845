-- ===== src/Modbus/Master/Writes.antt =====
-- The PDU of a request of the master to write many coils or registers.
use kongjaexpress.Prelude.{
  ℕ, zero, suc, ◌+◌, ◌*◌, ◌/◌, ◌%◌, ◌^◌, ◌≤◌, ◌<◌, ◌≡◌, refl, ap, ◌∙◌, List, [], ◌∷◌, ◌++◌, arith,
  length, set, ltb, if◌then◌else◌, drop-take-write_at,
}
use kongjaexpress.Modbus.Common.{func_write_multiple_coils, func_write_multiple_registers}
use kongjaexpress.Modbus.Master.{
  MasterCtx, asked, put_tx, coil_bytes, pack_coils, register_bytes, mb_master_fill_io_status_req,
  mb_master_write_multiple_coils, mb_master_write_multiple_registers,
}
use kongjaexpress.Modbus.Master.Built.{pdu_of, io_status, filled, put_tx-write_at}

-- what a master writes many of
pub data ManyKind : Type 0 where
  many_coils many_registers : ManyKind

abbrev pub write_code : ManyKind → ℕ
write_code many_coils = func_write_multiple_coils
write_code many_registers = func_write_multiple_registers

-- the slave takes no more values than this in one request
abbrev pub most : ManyKind → ℕ
most many_coils = 1968
most many_registers = 120

-- the bytes of `nb` values
abbrev pub size : ManyKind → ℕ → ℕ
size many_coils nb = (nb + 7) / 8
size many_registers nb = 2 * nb

abbrev pub data_of : ManyKind → ℕ → List ℕ → List ℕ
data_of many_coils nb values = pack_coils (coil_bytes nb) 0 nb values
data_of many_registers nb values = register_bytes nb 0 values

-- the context that a request to write hands to the transport
pub sent : ManyKind → MasterCtx → ℕ → ℕ → ℕ → List ℕ → MasterCtx
sent many_coils ctx slave addr nb values =
    (mb_master_write_multiple_coils {W = Unit {0}} (λ c s w. (c, w)) ctx slave addr nb values tt).0
sent many_registers ctx slave addr nb values =
    (mb_master_write_multiple_registers {W = Unit {0}} (λ c s w. (c, w)) ctx slave addr nb values
      tt).0

length-pack_coils : (n pos nb : ℕ) (values : List ℕ) → length (pack_coils n pos nb values) ≡ n
unfolding pack_coils
length-pack_coils zero pos nb values = refl
length-pack_coils (suc n) pos nb values =
    ap suc (length-pack_coils n (if ltb (pos + 8) nb then pos + 8 else nb) nb values)

pub length-register_bytes : (n i : ℕ) (values : List ℕ) → length (register_bytes n i values) ≡ 2 * n
unfolding register_bytes
length-register_bytes zero i values = refl
length-register_bytes (suc n) i values = omega (arith, length-register_bytes n (i + 1) values)

pub length-data_of :
    (k : ManyKind) (nb : ℕ) (values : List ℕ)
    → nb ≤ most k
    → length (data_of k nb values) ≡ size k nb
length-data_of many_coils nb values few =
    length-pack_coils (coil_bytes nb) 0 nb values ∙ ground arith
length-data_of many_registers nb values few = length-register_bytes nb 0 values

put_tx-append :
    (xs ys : List ℕ) (ctx : MasterCtx) → put_tx (put_tx ctx xs) ys ≡ put_tx ctx (xs ++ ys)
unfolding put_tx
put_tx-append [] ys ctx = refl
put_tx-append (x ∷ xs) ys ctx =
    put_tx-append xs ys
      (record ctx { tx_buf = set ctx.tx_buf ctx.tx_ndx x; tx_ndx = (ctx.tx_ndx + 1) % 2 ^ 16 })

-- the PDU of a request
abbrev pub write_pdu : ManyKind → ℕ → ℕ → List ℕ → List ℕ
write_pdu k addr nb values = io_status (write_code k) addr nb ++ (size k nb ∷ data_of k nb values)

sent-put_tx :
    (k : ManyKind) (ctx : MasterCtx) (slave addr nb : ℕ) (values : List ℕ)
    → nb ≤ most k
    → sent k ctx slave addr nb values
      ≡ put_tx
          (mb_master_fill_io_status_req
            (asked ctx (write_code k) slave addr nb)
            (write_code k)
            addr
            nb)
          (size k nb ∷ data_of k nb values)
unfolding sent mb_master_write_multiple_coils mb_master_write_multiple_registers
sent-put_tx many_coils ctx slave addr nb values few =
    let bytes : coil_bytes nb ≡ (nb + 7) / 8 = ground arith in
    ap
      (λ (n : ℕ).
        put_tx
          (mb_master_fill_io_status_req (asked ctx func_write_multiple_coils slave addr nb)
            func_write_multiple_coils addr nb)
          (n ∷ pack_coils (coil_bytes nb) 0 nb values))
      bytes
sent-put_tx many_registers ctx slave addr nb values few =
    let bytes : nb * 2 % 2 ^ 8 ≡ 2 * nb = omega arith in
    ap
      (λ (n : ℕ).
        put_tx
          (mb_master_fill_io_status_req (asked ctx func_write_multiple_registers slave addr nb)
            func_write_multiple_registers addr nb)
          (n ∷ register_bytes nb 0 values))
      bytes

pub sent-eq-filled :
    (k : ManyKind) (ctx : MasterCtx) (slave addr nb : ℕ) (values : List ℕ)
    → nb ≤ most k
    → ctx.pdu_offset + 6 + size k nb < 2 ^ 16
    → sent k ctx slave addr nb values
      ≡ filled (asked ctx (write_code k) slave addr nb) (write_pdu k addr nb values)
unfolding mb_master_fill_io_status_req
sent-eq-filled k ctx slave addr nb values few small =
    let c = record (asked ctx (write_code k) slave addr nb) { tx_ndx = ctx.pdu_offset } in
    sent-put_tx k ctx slave addr nb values few
    ∙ put_tx-append (io_status (write_code k) addr nb) (size k nb ∷ data_of k nb values) c
    ∙ put_tx-write_at (write_pdu k addr nb values) c (omega (arith, length-data_of k nb values few))

pub pdu_of-sent :
    (k : ManyKind) (ctx : MasterCtx) (slave addr nb : ℕ) (values : List ℕ)
    → nb ≤ most k
    → ctx.pdu_offset + 6 + size k nb ≤ length ctx.tx_buf
    → length ctx.tx_buf < 2 ^ 16
    → pdu_of (sent k ctx slave addr nb values) ≡ write_pdu k addr nb values
pdu_of-sent k ctx slave addr nb values few room small =
    ap pdu_of (sent-eq-filled k ctx slave addr nb values few (omega arith))
    ∙ drop-take-write_at (write_pdu k addr nb values) ctx.tx_buf ctx.pdu_offset
        (omega (arith, length-data_of k nb values few))
