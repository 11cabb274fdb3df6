-- ===== src/Esp32.antt =====
-- The serial protocol between the Raspberry Pi and the ESP32
-- (salus_control/salus_control/rpy_esp32_comms).
pub mod Crc
pub mod Command
pub mod Telemetry
pub mod Decode
pub mod Parser
