-- ===== src/Flight.antt =====
-- firmware/core/flight: what own-ship is doing.
pub mod State
