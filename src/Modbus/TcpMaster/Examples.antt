-- ===== src/Modbus/TcpMaster/Examples.antt =====
-- A connected master with a request for two registers in its context.
use kongjaexpress.Prelude.{ℕ, ◌+◌, [], ◌∷◌, ◌++◌, none, some, false, replicate}
use kongjaexpress.Watcher.{watcher_init_with_fd}
use kongjaexpress.Watcher.Examples.{ActiveSet, active_sets}
use kongjaexpress.Stream.Examples
use kongjaexpress.TcpAutoConnector.{not_started}
use kongjaexpress.Modbus.Mbap.{MbapReader, fresh}
use kongjaexpress.Modbus.Master.{MasterCtx}
use kongjaexpress.Modbus.TcpMaster.{TcpMaster, connected}

abbrev ctx : MasterCtx
ctx = record {
  tx_buf = replicate 7 0 ++ 3 ∷ 0 ∷ 100 ∷ 0 ∷ 2 ∷ [] ++ replicate 500 0;
  tx_ndx = 12;
  pdu_offset = 7;
  req_func = 3;
  req_slave = 1;
  req_reg_addr = 100;
  req_nb = 2;
  req_value = 0;
}

abbrev pub master : TcpMaster ActiveSet
master = record {
  ctx = ctx;
  rx_bounce_buf = replicate 128 0;
  tcp_connector = record {
    tcp = record {
      sd = none;
      is_in_prog = false;
      tmr = false;
      watcher = watcher_init_with_fd (λ t. false);
      fds = record { opened = 4 ∷ []; closed = [] };
    };
    reconn_wait_tmr = false;
    state = not_started;
    calls = some 4 ∷ [];
  };
  tcp_state = connected;
  stream = Examples.idle;
  tid = 65535;
  pid = 0;
  mbap_reader = fresh (replicate 260 0);
  sent = [];
  calls = [];
}

abbrev noted : MbapReader → ℕ → MbapReader × ℕ
noted r n = (r, n + 1)
