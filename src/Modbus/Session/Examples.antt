-- ===== src/Modbus/Session/Examples.antt =====
-- The demo's slave, read by a master over 260 bytes of memory on both sides.
use kongjaexpress.Prelude.{ℕ, ◌≡◌, refl, List, [], ◌∷◌, none, some, false, arith, replicate, drop}
use kongjaexpress.Prelude.Bytes.{Bytes}
use kongjaexpress.CircBuffer.{circ_buffer_is_empty}
use kongjaexpress.Watcher.Examples.{ActiveSet, active_sets}
use kongjaexpress.Stream.{wrote, stream_write}
use kongjaexpress.TcpConnector.{no_socket}
use kongjaexpress.Modbus.Funcs.Examples.{demo_slave}
use kongjaexpress.Modbus.Mbap.{fresh, mbap_reader_feed}
use kongjaexpress.Modbus.TcpSlave.{modbus_tcp_slave_got_frame}
use kongjaexpress.Modbus.TcpSlave.Examples.{slave, blocked}
use kongjaexpress.Modbus.Master.{MasterCtx}
use kongjaexpress.Modbus.Master.Accept.{holding_registers, built, delivered, device, memory}
use kongjaexpress.Modbus.TcpMaster.{
  TcpMaster, modbus_tcp_master_request, modbus_tcp_master_got_frame,
}
use kongjaexpress.Modbus.TcpMaster.Examples.{master}
use kongjaexpress.Modbus.Session.Parts.{given_bytes}
use kongjaexpress.Modbus.Session.Read.{read-session}

abbrev blank : MasterCtx
blank = record {
  tx_buf = replicate 512 0;
  tx_ndx = 0;
  pdu_offset = 7;
  req_func = 0;
  req_slave = 0;
  req_reg_addr = 0;
  req_nb = 0;
  req_value = 0;
}

abbrev asking : TcpMaster ActiveSet
asking = record master { ctx = built holding_registers blank 17 100 2; tid = 41 }

abbrev zeros : List ℕ
zeros = replicate 260 0

zeros-Bytes : Bytes zeros
zeros-Bytes = ground arith

read-session_example :
    (m' : TcpMaster ActiveSet) × (request response : List ℕ) × (modbus_tcp_master_request
        (λ t. false)
        none
        1
        no_socket
        (wrote 12)
        17
        asking
      ≡ some m')
    × (m'.sent ≡ request ∷ [])
    × ((mbap_reader_feed
          (modbus_tcp_slave_got_frame demo_slave blocked)
          (fresh zeros)
          request
          slave).1.sent
        ≡ response ∷ [])
    × ((mbap_reader_feed
          (modbus_tcp_master_got_frame m'.ctx m'.tid m'.pid)
          (fresh zeros)
          response
          m'.calls).1
        ≡ delivered holding_registers 17 100 2 (
            given_bytes holding_registers 2
              (device demo_slave holding_registers 17 100 2 (memory 100 2 (drop 12 zeros)) 0).memory
              zeros)
          ∷ m'.calls)
unfolding stream_write circ_buffer_is_empty
read-session_example =
    read-session demo_slave blocked (λ t. false) none 1 no_socket (wrote 12) holding_registers blank
      100 2 asking slave zeros zeros refl refl (omega arith) (omega arith) refl (omega arith) refl
      refl (omega arith) (omega arith) (omega arith) (omega arith) refl zeros-Bytes refl refl
