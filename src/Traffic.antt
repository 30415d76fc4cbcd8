-- ===== src/Traffic.antt =====
-- firmware/core/traffic: the aircraft that the device has heard.
pub mod Table
mod Tests
