-- ===== src/Modbus/TcpSlave/Examples.antt =====
-- A slave with address 17 on one connection, with the demo's callbacks.
use kongjaexpress.Prelude.{ℕ, Bool, List, [], ◌∷◌, some, replicate}
use kongjaexpress.Watcher.Examples.{ActiveSet, active_sets}
use kongjaexpress.Stream.{WriteResult, would_block}
use kongjaexpress.Modbus.Common.{mb_slave_ctx_init}
use kongjaexpress.Modbus.Mbap.{MbapReader, fresh}
use kongjaexpress.Modbus.Mbap.Framing.{Header}
use kongjaexpress.Modbus.TcpSlave.{TcpSlave}

abbrev pub blocked : ℕ → WriteResult
blocked n = would_block

abbrev pub slave : TcpSlave ActiveSet ℕ
slave = record {
  ctx = mb_slave_ctx_init;
  my_address = 17;
  stream = record {
    watcher = record {
      rx_watch = Bool.true;
      tx_watch = Bool.false;
      er_watch = Bool.true;
      started = Bool.true;
      loop = λ t. Bool.true;
    };
    rx_buf = replicate 512 0;
    rx_buf_size = 512;
    rx_data_len = 0;
    tx_buf = record {
      buffer = some (replicate 512 0);
      size = 512;
      data_size = 0;
      begin = 0;
      end = 0;
    };
  };
  dev = 0;
  sent = [];
}

-- transaction 1, unit 17, a request of five bytes
abbrev head : Header
head = record {
  tid_hi = 0;
  tid_lo = 1;
  pid_hi = 0;
  pid_lo = 0;
  length_hi = 0;
  length_lo = 6;
  uid = 17;
}

-- coils 0 to 7
abbrev request : List ℕ
request = 1 ∷ 0 ∷ 0 ∷ 0 ∷ 8 ∷ []

abbrev reader : MbapReader
reader = record (fresh (replicate 260 0)) { length = 6 }
