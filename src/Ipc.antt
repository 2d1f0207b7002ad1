-- ===== src/Ipc.antt =====
-- common/mnc/ipc: the framed protocol between the services, over Unix sockets.
pub mod Bytes
pub mod Envelope
pub mod Queue
pub mod Examples
