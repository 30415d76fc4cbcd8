-- ===== src/Protocol.antt =====
-- firmware/core/protocol: what goes on air and comes back.
pub mod Air
pub mod Adsl
mod Tests
