-- ===== src/Control.antt =====
-- The canonical vehicle commands of salus_control/salus_control.
pub mod Canonical
pub mod Desired
pub mod Logic
pub mod Battery
pub mod Legacy
pub mod Comparison
