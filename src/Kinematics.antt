-- ===== src/Kinematics.antt =====
-- What the drive measures, and what the kinematics of the vehicle take from it.
pub mod Measurement
pub mod Conversion
pub mod Provenance
