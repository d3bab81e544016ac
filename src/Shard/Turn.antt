-- ===== src/Shard/Turn.antt =====
-- runtime/crates/shard/src/shard.rs: one attached connection, and how a transition reaches it. What
-- emit.rs makes of operations and actions is a parameter: the protocol messages are generated by the
-- build. A connection's queue is the one of queue.rs.
pub mod Progress
pub mod Triplet
pub mod Shown
pub mod Caught
pub mod Layered
pub mod Served
pub mod Steady
pub mod Simulated
pub mod Reachable
pub mod Presence
pub mod Reconcile
pub mod Versions
pub mod Requests
pub mod Attached
pub mod History
pub mod Speech
pub mod Audience
pub mod Walk
mod Examples
mod Clients
mod Counterexamples
use mumble_server_runtime.Base.{
  ℕ, Bool, true, false, Option, none, some, List, [], ◌∷◌, ◌++◌, map, Result, ok, err, nat_eq,
  if◌then◌else◌,
}
use mumble_server_runtime.Base.Assoc.{Assoc}
use mumble_server_runtime.Base.Order.{nat_order, set_insert}
use mumble_server_runtime.Shard.Scope.{Scope}
use mumble_server_runtime.Shard.ScopeSet.{ScopeSet}
use mumble_server_runtime.Shard.View.{ShardView, Overlay, Actions, restrict, compose}
use mumble_server_runtime.Shard.Plan.{PlanOp, PlannedOp, plan, remove_channel}
use mumble_server_runtime.Shard.Plan.Overlay.{plan_elements}
use mumble_server_runtime.Shard.Compose.{filter_ops, splice, collapse}
use mumble_server_runtime.Shard.Journal.{Journal, replay}
use mumble_server_runtime.Shard.Queue.{
  Mpsc, OutboundQueue, Refused, congested, too_large, writer_ended, try_send_all,
}

-- emit.rs, as far as a transition needs it.
pub record Emitter (M : Type 0) : Type 0 where
  pub emit : List PlanOp → ℕ → List M
  pub actions : Actions → Actions → List M

pub data Outcome : Type 0 where
  advanced : Outcome
  congested_queue : Outcome
  close : Outcome

-- `retired_channels`: the set of the channels removed.
unfoldable pub retired_channels : List PlanOp → List ℕ
unfolding set_insert
retired_channels [] = []
retired_channels (remove_channel id ∷ ops) = set_insert id (retired_channels ops)
retired_channels (op ∷ ops) = retired_channels ops

abbrev pub ops_of : List PlannedOp → List PlanOp
ops_of ops = map (λ planned. planned.op) ops

abbrev pub no_messages {ℓ} : {M : Type ℓ} → List M → Bool
no_messages [] = true
no_messages (m ∷ messages) = false

module _ {M : Type 0} (c : Mpsc M) where
  -- `ready` says that somebody waits for the first transition, `told` that they have been told.
  pub record AttachedConnection : Type 0 where
    pub id : ℕ
    pub session : ℕ
    pub cursor : ℕ
    pub see : ScopeSet
    pub overlay_sent : Overlay
    pub actions_sent : Actions
    pub held : Option ShardView
    pub ready : Bool
    pub told : Bool
    pub queue : OutboundQueue c
    pub shared_cursor : ℕ

  unfoldable pub commit : AttachedConnection → ℕ → ScopeSet → Overlay → Actions → AttachedConnection
  commit a cursor see overlay actions = record a {
    cursor = cursor;
    see = see;
    overlay_sent = overlay;
    actions_sent = actions;
    shared_cursor = cursor;
    held = none;
    ready = false;
    told = if a.ready then true else a.told;
  }

  unfoldable pub composed : AttachedConnection → ShardView → ShardView
  unfolding restrict compose
  composed a shared = elim a.held [
    | some held ↦ held
    | none ↦ compose (restrict shared a.see) a.overlay_sent
  ]

  -- The operations of the fast path: what the connection sees of the shared ones, and its overlay's.
  unfoldable pub push_ops : AttachedConnection → List PlannedOp → Overlay → List PlanOp
  unfolding filter_ops plan_elements splice collapse
  push_ops a replayed overlay =
      let shared = filter_ops replayed a.see in
      let private = plan_elements a.overlay_sent overlay in collapse (splice shared private)

  -- The operations of the slow path: from what the connection holds to what it is to hold.
  unfoldable pub replan_ops :
      AttachedConnection → (before after : ShardView) → ScopeSet → Overlay → List PlanOp
  unfolding composed restrict compose plan collapse
  replan_ops a before after new_see overlay =
      let from = composed a before in
      let to = compose (restrict after new_see) overlay in collapse (ops_of (plan from to))

  -- The `match` on what the queue answered.
  unfoldable pub settle :
      AttachedConnection
      → OutboundQueue c × Result Refused (Unit {0})
      → (AttachedConnection → AttachedConnection)
      → List PlanOp
      → AttachedConnection × Outcome × List ℕ
  unfolding retired_channels
  settle a (q, ok done) accept ops =
      (accept (record a { queue = q }), advanced, retired_channels ops)
  settle a (q, err (congested needed free)) accept ops =
      (record a { queue = q }, congested_queue, [])
  settle a (q, err (too_large needed capacity)) accept ops = (record a { queue = q }, close, [])
  settle a (q, err writer_ended) accept ops = (record a { queue = q }, close, [])

  module _ (e : Emitter M) where
    -- What both paths end with: nothing to say advances the connection, the rest is offered whole.
    unfoldable pub deliver_ops :
        AttachedConnection
        → ℕ
        → ScopeSet
        → Overlay
        → Actions
        → List PlanOp
        → AttachedConnection × Outcome × List ℕ
    unfolding commit settle try_send_all
    deliver_ops a head see overlay actions ops =
        let messages = e.emit ops a.session ++ e.actions a.actions_sent actions in
        if no_messages messages
        then (commit a head see overlay actions, advanced, [])
        else settle a (try_send_all c a.queue messages) (λ b. commit b head see overlay actions) ops

    -- The fast path.
    unfoldable pub push :
        AttachedConnection
        → Journal PlannedOp
        → ℕ
        → Overlay
        → Actions
        → AttachedConnection × Outcome × List ℕ
    unfolding replay push_ops deliver_ops
    push a journal head overlay actions = elim (replay journal a.cursor head) [
      | err behind ↦ (a, close, [])
      | ok replayed ↦ deliver_ops a head a.see overlay actions (push_ops a replayed overlay)
    ]

    -- The slow path.
    unfoldable pub replan :
        AttachedConnection
        → (before after : ShardView) → ℕ
        → ScopeSet
        → Overlay
        → Actions
        → AttachedConnection × Outcome × List ℕ
    unfolding replan_ops deliver_ops
    replan a before after head new_see overlay actions =
        deliver_ops a head new_see overlay actions (replan_ops a before after new_see overlay)
