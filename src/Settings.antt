-- ===== src/Settings.antt =====
-- apps/MeterCore/Services/settings: who may read and change the settings.
pub mod Texts
pub mod Access
pub mod Router
pub mod Examples
