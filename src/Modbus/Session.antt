-- ===== src/Modbus/Session.antt =====
-- A read from the TCP master to the TCP slave and back, over the bytes that they write:
-- src/protocols/modbus/modbus_tcp_master.c, modbus_tcp_slave.c and what they stand on.
pub mod Parts
pub mod Read
mod Examples
