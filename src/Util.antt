-- ===== src/Util.antt =====
-- firmware/core/util: the small shared codecs and containers.
pub mod LittleEndian
pub mod Status
pub mod VariableRange
pub mod Fifo
