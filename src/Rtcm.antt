-- ===== src/Rtcm.antt =====
-- RTCM corrections: rtk_domain.py and ntrip_protocol.py of salus_hardware/salus_hardware.
pub mod Crc
pub mod Frame
pub mod Delivery
pub mod Status
pub mod Decoder
pub mod Chunks
pub mod Response
pub mod Legacy
