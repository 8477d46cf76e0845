-- ===== src/Modbus/RtuSlave/Examples.antt =====
-- A slave with address 17 over the event loop of Watcher/Examples and the demo's callbacks.
use kongjaexpress.Prelude.{
  ℕ, Bool, ◌≡◌, ◌≤◌, refl, List, [], ◌∷◌, ◌++◌, some, arith, length, get_or, replicate,
}
use kongjaexpress.Watcher.Examples.{ActiveSet, active_sets}
use kongjaexpress.Stream.{wrote}
use kongjaexpress.Modbus.Common.{mb_slave_ctx_init}
use kongjaexpress.Modbus.Crc.{modbus_calc_crc, update_all, update, auc_crc_hi, auc_crc_lo}
use kongjaexpress.Modbus.Crc.Detect.{trailer}
use kongjaexpress.Modbus.Funcs.Examples.{demo_slave}
use kongjaexpress.Modbus.RtuSlave.{RtuSlave, t35_timeout_handler, modbus_rtu_slave_init}
use kongjaexpress.Modbus.RtuSlave.Bounds.{IsBounded}
use kongjaexpress.Modbus.RtuSlave.Gather.{read, silence, line_events, line_events-IsBounded}
use kongjaexpress.Modbus.RtuSlave.Serve.{response, timeout-answer, timeout-sent}

-- slave 17: coils 0 to 7, with the CRC
abbrev request : List ℕ
request = 17 ∷ 1 ∷ 0 ∷ 0 ∷ 0 ∷ 8 ∷ 63 ∷ 92 ∷ []

abbrev pub holding : List ℕ → ℕ → RtuSlave ActiveSet ℕ
holding bytes n = record {
  ctx = mb_slave_ctx_init;
  data_buffer = bytes ++ replicate 248 0;
  data_ndx = n;
  tx_ndx = 0;
  my_address = 17;
  t35 = Bool.true;
  rx_short_frame = 0;
  stream = record {
    watcher = record {
      rx_watch = Bool.true;
      tx_watch = Bool.false;
      er_watch = Bool.true;
      started = Bool.true;
      loop = λ t. Bool.true;
    };
    rx_buf = replicate 128 0;
    rx_buf_size = 128;
    rx_data_len = 0;
    tx_buf = record {
      buffer = some (replicate 768 0);
      size = 768;
      data_size = 0;
      begin = 0;
      end = 0;
    };
  };
  dev = 0;
}

holding-IsBounded : IsBounded (holding request 8)
holding-IsBounded = record { size = refl; bytes = ground arith; short = omega arith }

crc_test : modbus_calc_crc (holding request 8).data_buffer 8 ≡ 0
unfolding modbus_calc_crc update_all update auc_crc_hi auc_crc_lo
crc_test = refl

timeout-answer_first :
    (t35_timeout_handler demo_slave (holding request 8) (wrote 6)).sent
    ≡ some (
        response demo_slave (holding request 8)
        ++ trailer (response demo_slave (holding request 8)))
timeout-answer_first =
    (timeout-answer demo_slave (holding request 8) (wrote 6) holding-IsBounded (omega arith)
      crc_test refl (omega arith)).0

timeout-sent_example :
    let f =
      response demo_slave (holding request 8)
      ++ trailer (response demo_slave (holding request 8)) in
    (length f ≤ 256) × (get_or f 0 0 ≡ 17) × (modbus_calc_crc f (length f) ≡ 0)
timeout-sent_example =
    timeout-sent demo_slave (holding request 8) (wrote 6) _ holding-IsBounded timeout-answer_first

line_events-IsBounded_example : IsBounded {Loop = ActiveSet} {D = ℕ} (
    line_events demo_slave
      (read (17 ∷ 1 ∷ 0 ∷ []) ∷ read (0 ∷ 0 ∷ 8 ∷ 63 ∷ 92 ∷ []) ∷ silence (wrote 6) ∷ [])
      (modbus_rtu_slave_init (λ t. Bool.false) 17 (some (replicate 768 0)) 0))
line_events-IsBounded_example =
    line_events-IsBounded demo_slave _ _ 17 (some (replicate 768 0)) 0
      ((omega arith, omega arith, omega arith), ((omega arith, omega arith, omega arith), (tt, tt)))
