-- ===== src/Acquisition.antt =====
-- The acquisition service's link to the real-time processor.
pub mod Rpu
