-- ===== src/Modbus.antt =====
-- common/mnc/modbus: the Modbus server, from the bytes on the wire to the register bank.
pub mod Encoding
pub mod Handler
pub mod Rtu
pub mod Tcp
pub mod Examples
