-- ===== src/Protocol.antt =====
-- runtime/crates/protocol: the wire format of the control channel.
pub mod Framing
