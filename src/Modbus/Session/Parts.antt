-- ===== src/Modbus/Session/Parts.antt =====
-- What the slave sends for the frame of a read, and what the master makes of the frame of the answer.
use kongjaexpress.Prelude.{
  ℕ, suc, ◌+◌, ◌-◌, ◌/◌, ◌%◌, ◌^◌, ◌≤◌, ◌<◌, ◌≡◌, ◌≢◌, ap, ap₂, ◌∙◌, List, ◌∷◌, ◌++◌, arith, ◌==◌,
  if◌then◌else◌, length, take, drop, write_at-zero, length-take, length-drop,
}
use kongjaexpress.Prelude.Bytes.{word16, word16-octets, Bytes, IsByte, All-drop}
use kongjaexpress.Watcher.{EventLoop}
use kongjaexpress.Stream.{WriteResult}
use kongjaexpress.Modbus.Common.{SlaveCallbacks, enoerr}
use kongjaexpress.Modbus.Funcs.Dispatch.{Response, modbus_rtu_handler_request_rx}
use kongjaexpress.Modbus.Mbap.{MbapReader, fresh, mbap_reader_feed}
use kongjaexpress.Modbus.Mbap.Framing.{Header, header_bytes, filled, feed_frame}
use kongjaexpress.Modbus.TcpSlave.{TcpSlave, modbus_tcp_slave_got_frame}
use kongjaexpress.Modbus.TcpSlave.Serve.{response_header, got_frame-response}
use kongjaexpress.Modbus.Master.{MasterCtx}
use kongjaexpress.Modbus.Master.Built.{io_status}
use kongjaexpress.Modbus.Master.Validate.{MasterCall, modbus_rtu_handler_response_rx}
use kongjaexpress.Modbus.Master.Accept.{
  ReadKind, coils, discrete_inputs, holding_registers, input_registers, code, limit, data_bytes,
  delivered, memory, device, served, accepted,
}
use kongjaexpress.Modbus.TcpMaster.{modbus_tcp_master_got_frame}
use kongjaexpress.Modbus.TcpMaster.Frames.{header, request-got_frame}

code-IsByte : (k : ReadKind) → code k < 256
code-IsByte coils = omega arith
code-IsByte discrete_inputs = omega arith
code-IsByte holding_registers = omega arith
code-IsByte input_registers = omega arith

pub data_bytes_le : (k : ReadKind) (nb : ℕ) → nb < limit k → (data_bytes k nb ≤ 250) × (nb < 2 ^ 16)
data_bytes_le coils nb h = (omega arith, omega arith)
data_bytes_le discrete_inputs nb h = (omega arith, omega arith)
data_bytes_le holding_registers nb h = (omega arith, omega arith)
data_bytes_le input_registers nb h = (omega arith, omega arith)

module _ (k : ReadKind) (slave addr nb tid : ℕ) where
  abbrev pub request_frame : List ℕ
  request_frame = header_bytes (header tid 0 6 slave) ++ io_status (code k) addr nb

  -- the header of the response, and the frame, with what the application stored
  abbrev pub answer_header : Header
  answer_header = response_header (header tid 0 6 slave) (2 + data_bytes k nb)

  abbrev pub response_frame : List ℕ → List ℕ
  response_frame m =
      header_bytes answer_header ++ take (2 + data_bytes k nb) (code k ∷ data_bytes k nb ∷ m)

module _ {Loop D : Type 0} ⦃ev : EventLoop Loop⦄ (cb : SlaveCallbacks D) (ret : ℕ → WriteResult)
    (k : ReadKind) (slave addr nb tid : ℕ) where
  pub slave-answer :
      (smem : List ℕ) (s : TcpSlave Loop D)
      → length smem ≡ 260
      → Bytes smem
      → addr < 2 ^ 16
      → 1 ≤ nb
      → nb < limit k
      → slave ≡ s.my_address
      → s.my_address ≢ 0
      → (device cb k slave addr nb (memory addr nb (drop 12 smem)) s.dev).status ≡ enoerr
      → (mbap_reader_feed
          (modbus_tcp_slave_got_frame cb ret)
          (fresh smem)
          (request_frame k slave addr nb tid)
          s).1.sent
        ≡ response_frame k slave addr nb tid
            (device cb k slave addr nb (memory addr nb (drop 12 smem)) s.dev).memory
          ∷ s.sent
  slave-answer smem s size bytes small some_values few mine unicast ok =
      let h = header tid 0 6 slave in
      let io = io_status (code k) addr nb in
      let bs = io ++ drop 12 smem in
      let r = filled smem h io 0 in
      let seven : word16 (6 / 2 ^ 8) (6 % 2 ^ 8) ≡ 6 = word16-octets 6 (omega arith) in
      let (_, nb_small) = data_bytes_le k nb few in
      let bytes' : Bytes (io_status (code k) addr nb ++ drop 12 smem) = (
        code-IsByte k,
        (omega arith, (omega arith, (omega arith, (omega arith, All-drop IsByte 12 smem bytes)))),
      ) in
      let shape = write_at-zero (header_bytes h ++ io) smem (omega arith) in
      let fed =
        feed_frame (modbus_tcp_slave_got_frame cb ret) smem h io s (omega arith) seven (omega arith)
          (omega arith) in
      let sent =
        got_frame-response cb ret h bs r s (omega (arith, length-drop 12 smem)) bytes'
          (omega (arith, seven)) (omega (arith, seven)) mine unicast in
      let len : (word16 (6 / 2 ^ 8) (6 % 2 ^ 8) + 2 ^ 16 - 1) % 2 ^ 16 ≡ 5 = omega (arith, seven) in
      let reply =
        ap
          (λ (n : ℕ).
            modbus_rtu_handler_request_rx cb slave (record { frame = bs; len = n; dev = s.dev }))
          len
        ∙ served cb slave addr nb (drop 12 smem) s.dev small k few some_values ok in
      ap (λ (p : MbapReader × TcpSlave Loop D). p.1.sent) fed
      ∙ ap (λ (f : List ℕ). (modbus_tcp_slave_got_frame cb ret (record r { frame = f }) s).1.sent)
          shape
      ∙ sent.0
      ∙ ap
          (λ (a : Response D).
            (header_bytes (response_header h a.pdu.len) ++ take a.pdu.len a.pdu.frame) ∷ s.sent)
          reply

frame_length :
    (h : Header) (b : List ℕ) (n : ℕ) → length b ≡ 2 + n → length (header_bytes h ++ b) ≡ 9 + n
frame_length h b n e = omega (arith, e)

-- what the callback of the master is given: the bytes that were stored, then what its own frame
-- memory held
abbrev pub given_bytes : ReadKind → ℕ → List ℕ → List ℕ → List ℕ
given_bytes k nb m mmem = take (data_bytes k nb) m ++ drop (9 + data_bytes k nb) mmem

module _ (k : ReadKind) (ctx : MasterCtx) (slave addr nb tid : ℕ) where
  pub master-receives :
      (mmem m : List ℕ) (calls : List MasterCall)
      → length mmem ≡ 260
      → data_bytes k nb ≤ length m
      → nb < limit k
      → tid < 2 ^ 16
      → ctx.req_func ≡ code k
      → ctx.req_reg_addr ≡ addr
      → ctx.req_nb ≡ nb
      → (mbap_reader_feed
          (modbus_tcp_master_got_frame ctx ((tid + 1) % 2 ^ 16) 0)
          (fresh mmem)
          (response_frame k slave addr nb tid m)
          calls).1
        ≡ (if tid == 65535
            then calls
            else delivered k slave addr nb (given_bytes k nb m mmem) ∷ calls)
  master-receives mmem m calls size enough few tid_small f a n =
      let db = data_bytes k nb in
      let h = answer_header k slave addr nb tid in
      let body = take (2 + db) (code k ∷ db ∷ m) in
      let r = filled mmem h body 0 in
      let (db_small, _) = data_bytes_le k nb few in
      let len : length (take (2 + data_bytes k nb) (code k ∷ data_bytes k nb ∷ m))
          ≡ 2 + data_bytes k nb =
        omega (arith, length-take (2 + db) (code k ∷ db ∷ m), enough) in
      let field : word16 ((2 + data_bytes k nb + 1) / 256) ((2 + data_bytes k nb + 1) % 256)
          ≡ 2 + data_bytes k nb + 1 =
        word16-octets (2 + db + 1) (omega (arith, db_small)) in
      let two : 2 + data_bytes k nb ≡ suc (suc (data_bytes k nb)) = omega arith in
      let fed =
        feed_frame (modbus_tcp_master_got_frame ctx ((tid + 1) % 2 ^ 16) 0) mmem h body calls
          (omega arith) (omega (arith, field, len)) (omega (arith, len))
          (omega (arith, len, db_small)) in
      let frame : drop 7 r.frame ≡ code k ∷ db ∷ given_bytes k nb m mmem =
        ap (drop 7) (write_at-zero (header_bytes h ++ body) mmem (omega (arith, len, db_small)))
        ∙ ap₂ (λ (b : List ℕ) (j : ℕ). b ++ drop j mmem)
            (ap (λ (j : ℕ). take j (code k ∷ db ∷ m)) two) (frame_length h body db len) in
      ap (λ (p : MbapReader × List MasterCall). p.1) fed
      ∙ request-got_frame ctx tid 0 r calls (delivered k slave addr nb (given_bytes k nb m mmem))
          tid_small (word16-octets tid tid_small) (word16-octets 0 (omega arith))
          (ap₂ (λ (g : List ℕ) (j : ℕ). modbus_rtu_handler_response_rx ctx slave g j) frame
              (omega (arith, field))
            ∙ accepted k ctx slave addr nb (given_bytes k nb m mmem) f a n few)
