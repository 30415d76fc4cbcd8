-- ===== src/Dfu.antt =====
-- firmware/core/dfu: what a firmware image says, and how an update is judged.
pub mod Image
pub mod Update
