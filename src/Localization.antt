-- ===== src/Localization.antt =====
-- The policies of salus_localization/salus_localization that choose one source of a sensor.
pub mod Samples
pub mod Gnss
pub mod Imu
