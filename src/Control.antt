-- ===== src/Control.antt =====
-- control/coordination/rust: what the controllers keep about their sessions and entities.
pub mod Ownership
pub mod Reliable
