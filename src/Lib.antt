-- ===== src/Lib.antt =====
-- A model of the Mumble server runtime: what a shard computes on its turns, the limits and the wire
-- format at its edge, and what the controllers keep about their clients.
--
-- A flavor renders a view of channels and users, each at a scope, by the calls of a builder that
-- refuses what would not hold together (runtime/crates/shard/src/build.rs). The shard plans the transition from its
-- last view to the new one once (plan.rs), keeps it in a journal for those
-- who lag (journal.rs), and gives each connection what its observation sees of it (scope.rs,
-- compose.rs), with the operations of the connection's own overlay spliced in (view.rs). The ids on
-- the wire come from an allocator (ids.rs). A transition enters a connection's bounded queue whole
-- or not at all (queue.rs). Voice goes by a table compiled from the declared relation (routing.rs).
--
-- The files, each of which names the source it is about:
--   Base            lists, options and results over the native numbers, maps as association lists,
--                   orders, sorting and sets
--   Shard/Scope, Shard/ScopeSet     `Scope`, `ScopeSet`          runtime/crates/shard/src/scope.rs
--   Shard/Ids       `IdAllocator`; Ids/History is any sequence of its calls   runtime/crates/shard/src/ids.rs
--   Shard/Journal   `Journal`   runtime/crates/shard/src/journal.rs
--   Shard/View      `ShardView`, `Overlay`, `restrict`, `compose`   runtime/crates/shard/src/view.rs
--   Shard/Plan      `plan`; Plan/Overlay `plan_elements`   runtime/crates/shard/src/plan.rs
--   Shard/Compose   `filter` (here `filter_ops`), `splice`, `collapse`   runtime/crates/shard/src/compose.rs
--   Shard/Client    what a transition means to a client, as runtime/crates/shard/tests/support/model.rs
--                   applies it: the specification of planning and composing
--   Shard/Queue     `OutboundQueue`   runtime/crates/shard/src/queue.rs
--   Shard/Build     `ShardBuilder`, `PrivateBuilder`, `finish` and its checks; Build/Calls is any
--                   sequence of their calls   runtime/crates/shard/src/build.rs
--   Shard/Routing   `AudioRelation`, `compile`   runtime/crates/shard/src/routing.rs
--   Shard/Turn      `AttachedConnection`, `push`, `replan`; Turn/Reconcile `Shard::reconcile`;
--                   Turn/Attached `attach`, `detach`, `retry`; Turn/Requests what a client may
--                   name; Turn/Speech `deliver`; Turn/Reachable is any sequence of attaching,
--                   detaching, retrying and turns   runtime/crates/shard/src/shard.rs
--   Protocol/Framing   `parse_frame`, `write_frame`       runtime/crates/protocol/src/framing.rs
--   Gateway/Limits     `VoiceBudget`, `TextBudget`        runtime/crates/gateway/src/limits.rs
--   Crypto/Iv, Crypto/Ocb2   the IV, OCB2, `CryptState`   runtime/crates/crypto/src/ocb2.rs
--   Control/Ownership  `OwnershipRegistry`; Ownership/History is any sequence of its calls
--                   control/coordination/rust/src/ownership.rs
--   Control/Reliable   `ReliableCommands`; Reliable/History is any sequence of its calls
--                   control/coordination/rust/src/reliable.rs
--
-- A method that takes `&mut self` returns the new state, beside its result if it has one. An id, a
-- byte and a machine integer are natural numbers, with the wrap or the saturation written out where
-- the source has it. A map is an association list that is read by key; a `BTreeMap` lists its keys
-- in their order. Where a loop of the source is on fuel, the fuel is a bound on its turns: the
-- number of entries for the eviction of the journal, of channels for the order of creations and the
-- walks to the root of the planner, and of bytes for the blocks of OCB2. The walk of `descends_from`
-- has no such bound where parents go round in a circle; its fuel is any number above the rank of the
-- channel it starts from.
--
-- The channel of tokio (Shard/Queue, `Mpsc`: of it the code relies on what a reservation, a send and
-- a dropped permit do to the free slots and the messages, and on a reservation being refused as full
-- only where no slot is free and as closed only where the channel is closed), AES-128 (Crypto/Ocb2,
-- `Aes128`; Ocb2/Lockstep names what is relied on of it), the messages that emit.rs makes of
-- operations (Shard/Turn, `Emitter`) and the flavor (Turn/Reconcile, `Logic`) are parameters.
-- Not modelled: sockets, TLS, configuration and metrics; the messages that the build generates and
-- the code that fills them; the loop of the shard's task and the words to one connection; the
-- gateway's tasks; the spaces controller; the load drivers and the other tools.
pub mod Base
pub mod Shard
pub mod Protocol
pub mod Control
pub mod Gateway
pub mod Crypto
