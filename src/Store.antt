-- ===== src/Store.antt =====
-- firmware/core/store: one flash partition, two rings on it.
pub mod Sector
pub mod Allocator
