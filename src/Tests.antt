-- ===== src/Tests.antt =====
-- Runs and instances at concrete values: floats as integers, connections as numbers.
mod Values
mod Esp32
mod Rtcm
mod Operator
mod Navigation
mod Policies
mod Patrol
mod Control
mod Tracker
mod Vehicle
mod Routes
mod Protocol
mod Preparation
mod Maneuver
mod Pylontech
mod Localization
mod Kinematics
mod Planner
