-- ===== src/Identity.antt =====
-- firmware/core/identity: the unit's own key.
pub mod KeySlots
mod Tests
