-- ===== src/Crypto.antt =====
-- runtime/crates/crypto: the encryption of voice, and its packet counter.
pub mod Iv
pub mod Xor
pub mod Ocb2
