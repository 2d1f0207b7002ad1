-- ===== src/Meter.antt =====
-- common/msap1/meter: the measurement domain.
pub mod Timebase
pub mod Examples
