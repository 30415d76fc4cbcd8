-- ===== src/Fec.antt =====
-- firmware/core/fec: checksums and line codes.
pub mod Crc
pub mod Manchester
pub mod Scramble
mod Tests
