-- ===== src/Gateway.antt =====
-- runtime/crates/gateway: the limits on what one connection may send.
pub mod Limits
