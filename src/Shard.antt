-- ===== src/Shard.antt =====
-- runtime/crates/shard/src: the parts of a shard, one module each.
pub mod Scope
pub mod ScopeSet
pub mod Ids
pub mod Journal
pub mod View
pub mod Build
pub mod Plan
pub mod Compose
pub mod Client
pub mod Queue
pub mod Routing
pub mod Turn
