-- ===== src/Comms.antt =====
-- firmware/core/comms: the links to phones and tablets.
pub mod LinkClaim
pub mod LinkSessions
