-- ===== src/Navigation.antt =====
-- The policies of salus_navigation/salus_navigation that hold no ROS client.
pub mod Startup
pub mod Recovery
pub mod Maneuver
pub mod Actions
pub mod Model
pub mod Preparation
pub mod Chunker
pub mod Dispatch
pub mod Reanchor
pub mod Mission
pub mod Patrol
pub mod Planner
pub mod BatteryInput
pub mod Tracker
