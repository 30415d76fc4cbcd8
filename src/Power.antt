-- ===== src/Power.antt =====
-- firmware/core/power: the battery ladder and the way a device goes dark.
pub mod Cutoff
pub mod Shutdown
