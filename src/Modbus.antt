-- ===== src/Modbus.antt =====
-- src/protocols/modbus: the Modbus master and slaves.
pub mod Common
pub mod Crc
pub mod Funcs
pub mod BitFields
pub mod Mbap
pub mod RtuSlave
pub mod TcpSlave
pub mod Master
pub mod TcpMaster
pub mod RtuMaster
pub mod Session
