-- ===== src/Modbus/RtuMaster/Answered.antt =====
-- A request of the RTU master at the RTU slave.
use kongjaexpress.Prelude.{
  ℕ, suc, ◌+◌, ◌/◌, ◌%◌, ◌^◌, ◌≤◌, ◌<◌, ◌≡◌, ◌≢◌, refl, sym, ap, ap₂, ◌∙◌, List, [], ◌∷◌, ◌++◌,
  some, arith, length, take, drop, get_or, get_or-take, set, length-take, length-append,
  length-drop,
}
use kongjaexpress.Prelude.Bytes.{Bytes, IsByte, All-take, All-drop, All-append}
use kongjaexpress.Watcher.{EventLoop}
use kongjaexpress.Stream.{WriteResult}
use kongjaexpress.Modbus.Common.{SlaveCallbacks}
use kongjaexpress.Modbus.Crc.{modbus_calc_crc}
use kongjaexpress.Modbus.Crc.Detect.{trailer, trailer-accepted, trailer-Bytes}
use kongjaexpress.Modbus.Master.Built.{pdu_of}
use kongjaexpress.Modbus.RtuMaster.{RtuMaster, finish_request, modbus_rtu_master_request}
use kongjaexpress.Modbus.RtuSlave.{
  RtuSlave, finish_tx_frame, modbus_rtu_rx, modbus_rtu_stream_callback, t35_timeout_handler,
}
use kongjaexpress.Modbus.RtuSlave.Bounds.{IsBounded}
use kongjaexpress.Modbus.RtuSlave.Gather.{
  IsReady, receive, gathered, gathered-receive, receive-IsReady,
}
use kongjaexpress.Modbus.RtuSlave.Serve.{calc_crc-take, finish-trailer, response, timeout-answer}

-- the frame of a request: the slave, the PDU, and the CRC of both
abbrev pub framed : ℕ → List ℕ → List ℕ
framed slave pdu = slave ∷ pdu ++ trailer (slave ∷ pdu)

finish-framed :
    (buf : List ℕ) (n slave k : ℕ)
    → Bytes buf
    → slave < 256
    → n ≡ suc k
    → k ≤ 253
    → k + 3 ≤ length buf
    → let crc = modbus_calc_crc (set buf 0 slave) n in
      take
        ((n + 2) % 2 ^ 16)
        (set (set (set buf 0 slave) n (crc % 2 ^ 8)) (n + 1) (crc / 2 ^ 8 % 2 ^ 8))
      ≡ framed slave (drop 1 (take n buf))
unfolding finish_tx_frame
finish-framed [] n slave k b h e short room = absurd (omega arith)
finish-framed (x ∷ rest) n slave k b h e short room =
    let stop : (n + 2) % 2 ^ 16 ≡ (1 + k) % 2 ^ 16 + 2 = omega arith in
    let end : n ≡ (1 + k) % 2 ^ 16 = omega arith in
    let body = slave ∷ rest in
    ap₂
      (λ (i j : ℕ). take i (
        set (set body j (modbus_calc_crc body j % 2 ^ 8)) (j + 1)
          (modbus_calc_crc body j / 2 ^ 8 % 2 ^ 8)))
      stop end
    ∙ finish-trailer x rest slave k b.1 h short room
    ∙ ap (λ (j : ℕ). framed slave (drop 1 (take j (x ∷ rest)))) (sym e)

length-trailer : (xs : List ℕ) → length (trailer xs) ≡ 2
unfolding trailer
length-trailer xs = refl

module _ {Loop D : Type 0} ⦃ev : EventLoop Loop⦄ (cb : SlaveCallbacks D) where
  -- A frame that the slave gathers from silence, at one read.
  heard :
      (s : RtuSlave Loop D) (bs : List ℕ)
      → IsReady s
      → s.data_ndx ≡ 0
      → length bs ≤ 128
      → gathered (receive s bs) ≡ bs
  heard s bs v quiet few = gathered-receive s bs v few ∙ ground (arith, quiet)

  kept_address : (s : RtuSlave Loop D) (bs : List ℕ) → (receive s bs).my_address ≡ s.my_address
  unfolding modbus_rtu_stream_callback modbus_rtu_rx
  kept_address s bs = ground arith

  -- A frame with its CRC that the slave has gathered is answered when the line falls silent.
  answered :
      (s : RtuSlave Loop D) (slave : ℕ) (pdu : List ℕ) (ret : WriteResult)
      → IsBounded s
      → gathered s ≡ framed slave pdu
      → Bytes (slave ∷ pdu)
      → 1 ≤ length pdu
      → slave ≡ s.my_address
      → s.my_address ≢ 0
      → (t35_timeout_handler cb s ret).sent ≡ some (response cb s ++ trailer (response cb s))
  unfolding trailer
  answered s slave pdu ret v same good some_bytes mine unicast =
      let n = s.data_ndx in
      let buf = s.data_buffer in
      let size : length (take s.data_ndx s.data_buffer) ≡ s.data_ndx =
        omega (arith, length-take n buf, v.size, v.short) in
      let long = ap (λ (t : List ℕ). length t) same in
      let passed =
        calc_crc-take buf n (omega (arith, v.size, v.short))
        ∙ ap (λ (t : List ℕ). modbus_calc_crc t (length t)) same
        ∙ trailer-accepted (slave ∷ pdu) good in
      let first =
        sym (get_or-take n buf 0 0 (omega (arith, size, long)))
        ∙ ap (λ (t : List ℕ). get_or t 0 0) same in
      (timeout-answer cb s ret v
        (omega (arith, size, long, length-append pdu (trailer (slave ∷ pdu)))) passed (first ∙ mine)
        unicast).0

  -- The context of the master holds a PDU of 1 to 125 bytes behind the byte of the slave, in a
  -- buffer of bytes with room for the CRC. The slave has a whole buffer, is silent, and has the
  -- address asked for, a byte that is not the broadcast address. Then the request gives the stream a
  -- frame of the slave, the PDU and the CRC of both; and the slave, which reads that frame at once,
  -- has gathered exactly it, and answers with its response and the CRC of it when the line falls
  -- silent.
  pub request-answered :
      (m : RtuMaster Loop) (s : RtuSlave Loop D) (k : ℕ) (ret ret' : WriteResult)
      → m.ctx.pdu_offset ≡ 1
      → m.ctx.tx_ndx ≡ suc k
      → 1 ≤ k
      → k ≤ 125
      → k + 3 ≤ length m.ctx.tx_buf
      → Bytes m.ctx.tx_buf
      → IsReady s
      → s.data_ndx ≡ 0
      → s.my_address < 256
      → s.my_address ≢ 0
      → let frame = framed s.my_address (pdu_of m.ctx) in
        let s' = receive s frame in
        ((modbus_rtu_master_request ret s.my_address m).sent ≡ frame ∷ m.sent)
        × (gathered s' ≡ frame)
        × ((t35_timeout_handler cb s' ret').sent
            ≡ some (response cb s' ++ trailer (response cb s')))
  unfolding modbus_rtu_master_request finish_request
  request-answered m s k ret ret' off ndx some_bytes short room bytes ready quiet address unicast =
      let slave = s.my_address in
      let buf = m.ctx.tx_buf in
      let pdu = pdu_of m.ctx in
      let size : length (drop m.ctx.pdu_offset (take m.ctx.tx_ndx m.ctx.tx_buf)) ≡ k = omega (
        arith,
        off,
        ndx,
        room,
        length-take m.ctx.tx_ndx buf,
        length-drop m.ctx.pdu_offset (take m.ctx.tx_ndx buf),
      ) in
      let good : Bytes (s.my_address ∷ pdu_of m.ctx) = (
        address,
        All-drop IsByte m.ctx.pdu_offset (take m.ctx.tx_ndx buf)
            (All-take IsByte m.ctx.tx_ndx buf bytes),
      ) in
      let frame = framed slave pdu in
      let few : length (framed s.my_address (pdu_of m.ctx)) ≤ 128 =
        omega
          (arith, size, length-append pdu (trailer (slave ∷ pdu)), length-trailer (slave ∷ pdu)) in
      let same = heard s frame ready quiet few in
      (
        ap (λ (f : List ℕ). f ∷ m.sent)
            (finish-framed buf m.ctx.tx_ndx slave k bytes address ndx (omega arith) room
              ∙ ap (λ (i : ℕ). framed slave (drop i (take m.ctx.tx_ndx buf))) (sym off)),
        same,
        answered (receive s frame) slave pdu ret'
            (receive-IsReady s frame ready few (
              All-append IsByte (slave ∷ pdu) (trailer (slave ∷ pdu)) good
                (trailer-Bytes (slave ∷ pdu) good))).bounded
            same good (omega (arith, size)) (sym (kept_address s frame))
            (λ e. unicast (sym (kept_address s frame) ∙ e)),
      )
