-- ===== src/Timing.antt =====
-- firmware/core/timing: the second that the radio's dwells share, and what may hold the core in it.
pub mod Slot
pub mod DurableWrite
pub mod AirTime
pub mod Level
pub mod Transmit
