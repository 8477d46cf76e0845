-- ===== src/Modbus/Master/Built.antt =====
-- The PDU that a request leaves in the transmit buffer.
use kongjaexpress.Prelude.{
  ℕ, suc, ◌+◌, ◌/◌, ◌%◌, ◌^◌, ◌≤◌, ◌<◌, ◌≡◌, ap, ◌∙◌, List, [], ◌∷◌, arith, length, take, drop, set,
  write_at, drop-take-write_at,
}
use kongjaexpress.Modbus.Master.{MasterCtx, put_tx, mb_master_fill_io_status_req}

-- the PDU in the buffer, behind the room for the header of the transport
abbrev pub pdu_of : MasterCtx → List ℕ
pdu_of ctx = drop ctx.pdu_offset (take ctx.tx_ndx ctx.tx_buf)

-- The bytes that are put stand in a row, and nothing else changes.
pub put_tx-write_at :
    (bs : List ℕ) (ctx : MasterCtx)
    → ctx.tx_ndx + length bs < 2 ^ 16
    → put_tx ctx bs
      ≡ record ctx { tx_buf = write_at ctx.tx_buf ctx.tx_ndx bs; tx_ndx = ctx.tx_ndx + length bs }
unfolding put_tx write_at
put_tx-write_at [] ctx h = ap (λ (n : ℕ). record ctx { tx_ndx = n }) (omega arith)
put_tx-write_at (b ∷ bs) ctx h =
    let next : (ctx.tx_ndx + 1) % 2 ^ 16 ≡ suc ctx.tx_ndx = omega arith in
    let buf = set ctx.tx_buf ctx.tx_ndx b in
    ap (λ (n : ℕ). put_tx (record ctx { tx_buf = buf; tx_ndx = n }) bs) next
    ∙ put_tx-write_at bs (record ctx { tx_buf = buf; tx_ndx = suc ctx.tx_ndx }) (omega arith)
    ∙ ap (λ (n : ℕ). record ctx { tx_buf = write_at buf (suc ctx.tx_ndx) bs; tx_ndx = n })
        (omega arith)

-- the five bytes that every request starts with
abbrev pub io_status : ℕ → ℕ → ℕ → List ℕ
io_status func reg_addr nb_or_v =
    func ∷ reg_addr / 2 ^ 8 ∷ reg_addr % 2 ^ 8 ∷ nb_or_v / 2 ^ 8 ∷ nb_or_v % 2 ^ 8 ∷ []

-- the context after `mb_master_fill_io_status_req`
abbrev pub filled : MasterCtx → List ℕ → MasterCtx
filled ctx bs = record ctx {
  tx_buf = write_at ctx.tx_buf ctx.pdu_offset bs;
  tx_ndx = ctx.pdu_offset + length bs;
}

module _ (ctx : MasterCtx) (func reg_addr nb_or_v : ℕ) where
  pub fill-eq-filled :
      ctx.pdu_offset + 5 < 2 ^ 16
      → mb_master_fill_io_status_req ctx func reg_addr nb_or_v
        ≡ filled ctx (io_status func reg_addr nb_or_v)
  unfolding mb_master_fill_io_status_req
  fill-eq-filled h =
      put_tx-write_at (io_status func reg_addr nb_or_v) (record ctx { tx_ndx = ctx.pdu_offset })
        (omega arith)

  pub pdu_of-fill :
      ctx.pdu_offset + 5 ≤ length ctx.tx_buf
      → ctx.pdu_offset + 5 < 2 ^ 16
      → pdu_of (mb_master_fill_io_status_req ctx func reg_addr nb_or_v)
        ≡ io_status func reg_addr nb_or_v
  pdu_of-fill room h =
      ap pdu_of (fill-eq-filled h)
      ∙ drop-take-write_at (io_status func reg_addr nb_or_v) ctx.tx_buf ctx.pdu_offset room
