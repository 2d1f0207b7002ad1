-- ===== src/Mqtt.antt =====
-- common/msap1/mqtt: publication of meter snapshots over MQTT.
pub mod Scheduler
pub mod Configure
mod Examples
