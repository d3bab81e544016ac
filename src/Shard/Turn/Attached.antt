-- ===== src/Shard/Turn/Attached.antt =====
-- runtime/crates/shard/src/shard.rs: attaching and detaching a connection, and retrying one whose
-- queue drained. The event each of them reports to the flavor is part of what it returns; what the
-- flavor says to it is left out.
use Prim.Native.String.{String}
use mumble_server_runtime.Base.{
  ℕ, Bool, false, Option, none, some, List, [], ◌∷◌, Result, ok, err, nat_eq, if◌then◌else◌,
}
use mumble_server_runtime.Base.Assoc.{get, remove}
use mumble_server_runtime.Base.Order.{nat_order}
use mumble_server_runtime.Base.Btree.{btree_insert}
use mumble_server_runtime.Shard.Ids.{IdAllocator, connection_of, session, retire_channel_ids}
use mumble_server_runtime.Shard.ScopeSet.{empty_set}
use mumble_server_runtime.Shard.View.{ShardView, empty, empty_overlay}
use mumble_server_runtime.Shard.Plan.{PlanOp, plan}
use mumble_server_runtime.Shard.Compose.{collapse}
use mumble_server_runtime.Shard.Journal as Journal
use mumble_server_runtime.Shard.Queue.{Mpsc, OutboundQueue, Refused, mark_fatal, try_send_all}
use mumble_server_runtime.Shard.Turn.{
  Emitter, AttachedConnection, commit, composed, no_messages, ops_of, push,
}
use mumble_server_runtime.Shard.Turn.Reconcile.{Logic, Shard, reconcile}
use mumble_server_runtime.Shard.Turn.Requests.{VoiceEvent, connected, disconnected, migrated}

module _ {M : Type 0} (c : Mpsc M) where
  -- It observes nothing yet, and holds what it is said to hold.
  abbrev pub fresh :
      (version id session : ℕ)
      → OutboundQueue c
      → (held : ShardView) → (ready : Bool) → AttachedConnection c
  fresh version id session queue held ready = record {
    id = id;
    session = session;
    cursor = version;
    see = empty_set;
    overlay_sent = empty_overlay;
    actions_sent = [];
    held = some held;
    ready = ready;
    told = false;
    queue = queue;
    shared_cursor = version;
  }

  -- What becomes of a connection that is detached.
  pub data Departure : Type 0 where
    absent : Departure
    hands_over : AttachedConnection c → (held : ShardView) → VoiceEvent → Departure
    leaves : AttachedConnection c → VoiceEvent → Departure

  -- The plan from what the connection holds to nothing.
  unfoldable pub teardown_ops : ShardView → List PlanOp
  unfolding plan collapse
  teardown_ops held = collapse (ops_of (plan held empty))

  -- The actions that the shard offered, withdrawn; a refusal is only logged.
  unfoldable pub withdraw : Emitter M → AttachedConnection c → AttachedConnection c
  unfolding try_send_all
  withdraw e a =
      let withdrawn = e.actions a.actions_sent [] in
      if no_messages withdrawn then a else record a { queue = (try_send_all c a.queue withdrawn).0 }

  -- The `match` on what the queue answered to the teardown.
  unfoldable pub torn_down :
      AttachedConnection c → ℕ → OutboundQueue c × Result Refused (Unit {0}) → AttachedConnection c
  unfolding commit mark_fatal
  torn_down a version (q, ok done) =
      commit c (record a { queue = q }) version empty_set empty_overlay []
  torn_down a version (q, err refused) = record a { queue = mark_fatal c q }

  unfoldable pub tear_down : Emitter M → AttachedConnection c → ℕ → ShardView → AttachedConnection c
  unfolding teardown_ops torn_down try_send_all
  tear_down e a version held =
      let ops = teardown_ops held in
      if no_messages ops
      then a
      else torn_down a version (try_send_all c a.queue (e.emit ops a.session))

  -- What the shard's task does with its connections, a turn, and what the writer of a queue does.
  pub data Step : Type 0 where
    attaches : ℕ → OutboundQueue c → (held : ShardView) → (ready : Bool) → Step
    detaches : ℕ → String → (handover : Option ℕ) → Step
    drained : ℕ → Step
    writes : ℕ → c.State → Step
    turns : Step

module _ {M L : Type 0} (c : Mpsc M) where
  -- `Shard::with_ids`
  abbrev pub new : ℕ → L → IdAllocator → Shard c L
  new id logic ids = record {
    id = id;
    logic = logic;
    ids = ids;
    view = empty;
    journal = Journal.new;
    version = 0;
    connections = [];
    since = [];
    declared_audio = record { domains = []; listeners = []; edges = [] };
    declared_silence = record { muted = []; deafened = [] };
    session_of = [];
    routing = record {
      table = [];
      since_versions = [];
      silence = record { muted = []; deafened = [] };
    };
  }

  -- The shard and the event, or the queue marked where no session is left. `ready` says that
  -- somebody waits for the first transition.
  unfoldable pub attach :
      Shard c L
      → ℕ
      → OutboundQueue c
      → (held : ShardView) → (ready : Bool) → Shard c L × Result (OutboundQueue c) VoiceEvent
  unfolding session mark_fatal btree_insert
  attach s id queue held ready =
      let (ids, granted) = session s.ids (connection_of id) in
      elim granted [
        | err exhausted ↦ (record s { ids = ids }, err (mark_fatal c queue))
        | ok number ↦ (
          record s {
            ids = ids;
            connections =
                btree_insert s.connections id (fresh c s.version id number queue held ready);
          },
          ok (connected id),
        )
      ]

  -- Of a handover the model keeps the shard that the connection moves to.
  unfoldable pub detach :
      Emitter M → Shard c L → ℕ → String → (handover : Option ℕ) → Shard c L × Departure c
  unfolding get remove composed withdraw tear_down
  detach e s id reason handover = elim (get s.connections id) [
    | none ↦ (s, absent)
    | some a ↦
        let held = composed c a s.view in
        let left = record s { connections = remove s.connections id } in
        elim handover [
          | some to ↦ (left, hands_over (withdraw c e a) held (migrated id to))
          | none ↦ (left, leaves (tear_down c e a s.version held) (disconnected id reason))
        ]
  ]

  -- The outcome is not looked at.
  unfoldable pub retry : Emitter M → Shard c L → ℕ → Shard c L
  unfolding get btree_insert push retire_channel_ids
  retry e s id = elim (get s.connections id) [
    | none ↦ record s { ids = retire_channel_ids s.ids s.id [] }
    | some a ↦ elim a.held [
      | some held ↦ s
      | none ↦
          let (b, outcome, retired) =
            push c e a s.journal s.journal.head a.overlay_sent a.actions_sent in
          record s {
            connections = btree_insert s.connections id b;
            ids = retire_channel_ids s.ids s.id retired;
          }
    ]
  ]

  -- The writer's part, between the calls: whatever it takes, the channel is in another state.
  unfoldable pub write_out : Shard c L → ℕ → c.State → Shard c L
  unfolding get btree_insert
  write_out s id t = elim (get s.connections id) [
    | none ↦ s
    | some a ↦ record s {
      connections =
          btree_insert s.connections id
            (record a { queue = record { sender = t; must_close = a.queue.must_close } });
    }
  ]

  unfoldable pub step : Emitter M → Logic L → Shard c L → Step c → Shard c L
  unfolding attach detach retry write_out reconcile
  step e logic s (attaches id queue held ready) = (attach s id queue held ready).0
  step e logic s (detaches id reason handover) = (detach e s id reason handover).0
  step e logic s (drained id) = retry e s id
  step e logic s (writes id t) = write_out s id t
  step e logic s turns = (reconcile c e logic s).0

  unfoldable pub steps : Emitter M → Logic L → Shard c L → List (Step c) → Shard c L
  unfolding step
  steps e logic s [] = s
  steps e logic s (move ∷ moves) = steps e logic (step e logic s move) moves
