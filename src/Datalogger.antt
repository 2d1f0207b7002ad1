-- ===== src/Datalogger.antt =====
-- common/mnc/datalogger: the engine that generates and delivers the data of scheduled jobs.
pub mod Retry
pub mod Generation
pub mod Outbox
pub mod Delivery
pub mod Examples
