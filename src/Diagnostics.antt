-- ===== src/Diagnostics.antt =====
-- firmware/core/diagnostics: records of a diagnostics session, and the ring they wait in.
pub mod Record
pub mod Payload
pub mod Recorder
mod Tests
