-- ===== src/Modbus/RtuSlave/Serve.antt =====
-- What the RTU slave answers when the line falls silent.
use kongjaexpress.Prelude.{
  ℕ, suc, zero, ◌+◌, ◌%◌, ◌/◌, ◌^◌, ◌≤◌, ◌<◌, ◌≡◌, ◌≢◌, ◌⊎◌, refl, ap, ◌∙◌, List, [], ◌∷◌, ◌++◌,
  none, some, arith, length, length-take, length-drop, length-append, take, set, get_or, take-take,
}
use Prim.Native.Nat.add
use kongjaexpress.Prelude.Bytes.{Bytes, IsByte, All-take, get_or-lt}
use kongjaexpress.Watcher.{EventLoop}
use kongjaexpress.Stream.{WriteResult}
use kongjaexpress.Modbus.Common.{SlaveCallbacks}
use kongjaexpress.Modbus.Crc.{modbus_calc_crc, fresh}
use kongjaexpress.Modbus.Crc.Detect.{trailer, trailer-accepted, crc_all}
use kongjaexpress.Modbus.Crc.Reference.{update_all-value}
use kongjaexpress.Modbus.Funcs.Dispatch.{modbus_rtu_handler_request_rx}
use kongjaexpress.Modbus.Funcs.Bounds.{request_rx-Fits}
use kongjaexpress.Modbus.Funcs.Size.{request_rx-size}
use kongjaexpress.Modbus.RtuSlave.{
  RtuSlave, finish_tx_frame, answer, request_pdu, mb_rtu_handle_rx_frame,
  mb_rtu_start_handling_rx_frame, t35_timeout_handler,
}
use kongjaexpress.Modbus.RtuSlave.Bounds.{IsBounded, request-Fits, served_buffer}

take-set_two :
    (n : ℕ) (b : List ℕ) (u v : ℕ)
    → n + 2 ≤ length b
    → take (n + 2) (set (set b n u) (n + 1) v) ≡ take n b ++ u ∷ v ∷ []
take-set_two zero [] u v h = absurd (omega arith)
take-set_two zero (x ∷ []) u v h = absurd (omega arith)
take-set_two zero (x ∷ y ∷ b) u v h = refl
take-set_two (suc n) [] u v h = absurd (omega arith)
take-set_two (suc n) (x ∷ b) u v h = rw (add.suc, add.suc, take-set_two n b u v (omega arith))

-- The CRC of a part of a buffer depends on that part alone.
pub calc_crc-take :
    (b : List ℕ) (n : ℕ)
    → n ≤ length b
    → modbus_calc_crc b n ≡ modbus_calc_crc (take n b) (length (take n b))
unfolding modbus_calc_crc
calc_crc-take b n h =
    let size : length (take n b) ≡ n = omega (arith, length-take n b) in
    rw (size, take-take n n b (omega arith)) refl

-- The frame that is sent: the address, the PDU, and the CRC of both.
pub finish-trailer :
    (x : ℕ) (rest : List ℕ) (addr rsp_len : ℕ)
    → Bytes rest
    → addr < 256
    → rsp_len ≤ 253
    → rsp_len + 3 ≤ length (x ∷ rest)
    → let xs = addr ∷ take rsp_len rest in
      take ((1 + rsp_len) % 2 ^ 16 + 2) (finish_tx_frame (x ∷ rest) addr rsp_len) ≡ xs ++ trailer xs
unfolding finish_tx_frame trailer
finish-trailer x rest addr rsp_len b h short room =
    let n : (1 + rsp_len) % 2 ^ 16 ≡ suc rsp_len = omega arith in
    let xs = addr ∷ take rsp_len rest in
    let crc = modbus_calc_crc xs (length xs) in
    let good : Bytes xs = (h, All-take IsByte rsp_len rest b) in
    let whole : modbus_calc_crc (addr ∷ rest) (suc rsp_len) ≡ crc =
      calc_crc-take (addr ∷ rest) (suc rsp_len) (omega arith) in
    let small : crc / 2 ^ 8 % 2 ^ 8 ≡ crc / 256 =
      omega (arith, crc_all xs good, (update_all-value xs fresh good (omega arith)).0) in
    rw
      (
        n,
        whole,
        take-set_two (suc rsp_len) (addr ∷ rest) (crc % 2 ^ 8) (crc / 2 ^ 8 % 2 ^ 8) (omega arith),
      )
      (ap (λ (t : ℕ). xs ++ crc % 256 ∷ t ∷ []) small)

first_one : (b : List ℕ) → 1 ≤ length b → take 1 b ≡ get_or b 0 0 ∷ []
first_one [] h = absurd (omega arith)
first_one (x ∷ b) h = refl

module _ {Loop D : Type 0} ⦃ev : EventLoop Loop⦄ (cb : SlaveCallbacks D) where
  -- the address and the response PDU
  abbrev pub response : RtuSlave Loop D → List ℕ
  response s =
      let r = modbus_rtu_handler_request_rx cb (get_or s.data_buffer 0 0) (request_pdu cb s) in
      get_or s.data_buffer 0 0 ∷ take r.pdu.len r.pdu.frame

  finish-response :
      (s : RtuSlave Loop D)
      → IsBounded s
      → 4 ≤ s.data_ndx
      → let n =
          (modbus_rtu_handler_request_rx cb
            (get_or s.data_buffer 0 0)
            (request_pdu cb s)).pdu.len in
        take
          ((1 + n) % 2 ^ 16 + 2)
          (finish_tx_frame (served_buffer cb s) (get_or s.data_buffer 0 0) n)
        ≡ response s ++ trailer (response s)
  finish-response s v h =
      let addr = get_or s.data_buffer 0 0 in
      let pdu = (modbus_rtu_handler_request_rx cb addr (request_pdu cb s)).pdu in
      let fits = request_rx-Fits cb addr (request_pdu cb s) (request-Fits cb s v h) in
      let size =
        request_rx-size cb addr (request_pdu cb s)
          (omega (arith, v.size, length-drop 1 s.data_buffer)) in
      ap
        (λ (t : List ℕ).
          take ((1 + pdu.len) % 2 ^ 16 + 2) (finish_tx_frame (t ++ pdu.frame) addr pdu.len))
        (first_one s.data_buffer (omega (arith, v.size)))
      ∙ finish-trailer addr pdu.frame addr pdu.len fits.bytes (get_or-lt s.data_buffer 0 v.bytes)
          fits.short (omega (arith, size, v.size, fits.short, length-drop 1 s.data_buffer))

  -- The line falls silent after a frame of four bytes or more with the CRC 0, whose address is the
  -- slave's and not the broadcast address: the slave sends its address, the response PDU and the
  -- CRC of both, the application is as the request handler leaves it, and the buffer is empty.
  pub timeout-answer :
      (s : RtuSlave Loop D) (ret : WriteResult)
      → IsBounded s
      → 4 ≤ s.data_ndx
      → modbus_calc_crc s.data_buffer s.data_ndx ≡ 0
      → get_or s.data_buffer 0 0 ≡ s.my_address
      → s.my_address ≢ 0
      → let t = t35_timeout_handler cb s ret in
        (t.sent ≡ some (response s ++ trailer (response s)))
        × (t.slave.dev
            ≡ (modbus_rtu_handler_request_rx cb
                (get_or s.data_buffer 0 0)
                (request_pdu cb s)).pdu.dev)
        × (t.slave.data_ndx ≡ 0)
  unfolding t35_timeout_handler mb_rtu_start_handling_rx_frame mb_rtu_handle_rx_frame answer
  timeout-answer s ret v long good mine unicast =
      (ground (arith, finish-response s v long), ground arith, ground arith)

  -- When the line falls silent after fewer than four bytes, after a frame whose CRC is not 0, or
  -- after a frame with an address that is neither the slave's nor the broadcast address, the slave
  -- sends nothing, the application stays as it was, and the buffer is empty.
  pub timeout-ignore :
      (s : RtuSlave Loop D) (ret : WriteResult)
      → (s.data_ndx < 4)
        ⊎ ((modbus_calc_crc s.data_buffer s.data_ndx ≢ 0)
            ⊎ ((get_or s.data_buffer 0 0 ≢ s.my_address) × (get_or s.data_buffer 0 0 ≢ 0)))
      → let t = t35_timeout_handler cb s ret in
        (t.sent ≡ none) × (t.out ≡ []) × (t.slave.dev ≡ s.dev) × (t.slave.data_ndx ≡ 0)
  unfolding t35_timeout_handler mb_rtu_start_handling_rx_frame mb_rtu_handle_rx_frame
  timeout-ignore s ret bad = (ground arith, ground arith, ground arith, ground arith)

  long_enough :
      (s : RtuSlave Loop D) (ret : WriteResult) (f : List ℕ)
      → (t35_timeout_handler cb s ret).sent ≡ some f
      → 4 ≤ s.data_ndx
  unfolding t35_timeout_handler mb_rtu_start_handling_rx_frame
  long_enough s ret f e = ground arith

  addressed :
      (s : RtuSlave Loop D) (ret : WriteResult) (f : List ℕ)
      → (t35_timeout_handler cb s ret).sent ≡ some f
      → get_or s.data_buffer 0 0 ≡ s.my_address
  unfolding t35_timeout_handler mb_rtu_start_handling_rx_frame mb_rtu_handle_rx_frame
  addressed s ret f e = ground arith

  sent-response :
      (s : RtuSlave Loop D) (ret : WriteResult) (f : List ℕ)
      → IsBounded s
      → (t35_timeout_handler cb s ret).sent ≡ some f
      → f ≡ response s ++ trailer (response s)
  unfolding t35_timeout_handler mb_rtu_start_handling_rx_frame mb_rtu_handle_rx_frame answer
  sent-response s ret f v e = ground (arith, finish-response s v (long_enough s ret f e))

  response-Bytes : (s : RtuSlave Loop D) → IsBounded s → 4 ≤ s.data_ndx → Bytes (response s)
  response-Bytes s v h =
      let addr = get_or s.data_buffer 0 0 in
      let fits = request_rx-Fits cb addr (request_pdu cb s) (request-Fits cb s v h) in
      (get_or-lt s.data_buffer 0 v.bytes, All-take IsByte _ _ fits.bytes)

  -- Every frame that the slave sends is at most 256 bytes long, starts with the slave's address and
  -- passes the CRC check of a receiver. The slave's buffer is whole.
  pub timeout-sent :
      (s : RtuSlave Loop D) (ret : WriteResult) (f : List ℕ)
      → IsBounded s
      → (t35_timeout_handler cb s ret).sent ≡ some f
      → (length f ≤ 256) × (get_or f 0 0 ≡ s.my_address) × (modbus_calc_crc f (length f) ≡ 0)
  unfolding trailer
  timeout-sent s ret f v e =
      let h = long_enough s ret f e in
      let shape = sent-response s ret f v e in
      let xs = response s in
      let addr = get_or s.data_buffer 0 0 in
      let pdu = (modbus_rtu_handler_request_rx cb addr (request_pdu cb s)).pdu in
      let fits = request_rx-Fits cb addr (request_pdu cb s) (request-Fits cb s v h) in
      (
        omega (
          arith,
          ap length shape,
          length-append xs (trailer xs),
          length-take pdu.len pdu.frame,
          fits.short,
        ),
        ap (λ (t : List ℕ). get_or t 0 0) shape ∙ addressed s ret f e,
        ap (λ (t : List ℕ). modbus_calc_crc t (length t)) shape
            ∙ trailer-accepted xs (response-Bytes s v h),
      )
