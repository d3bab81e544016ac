-- ===== src/Shard/Turn/Reconcile.antt =====
-- runtime/crates/shard/src/shard.rs: `Shard` and one turn of it. The flavor's logic is a parameter,
-- over a state of its own; the `watch` channel of the routing table holds the table last sent.

use mumble_server_runtime.Base.{
  ℕ, Bool, true, false, not, ◌&&◌, ◌||◌, Option, none, some, List, [], ◌∷◌, ◌++◌, Result, ok, err,
  length, filter, any, ◌==◌, nat_eq, pair_eq, list_eq, list_beq, if◌then◌else◌,
}
use mumble_server_runtime.Base.Assoc.{Assoc, get, keys, values}
use mumble_server_runtime.Base.Order.{nat_order, contains}
use mumble_server_runtime.Shard.Ids.{IdAllocator, occupant_eq, retain_channels, retire_channel_ids}
use mumble_server_runtime.Shard.ScopeSet.{ScopeSet}
use mumble_server_runtime.Shard.View.{ShardView, Overlay, Actions, empty_overlay, is_empty}
use mumble_server_runtime.Shard.View.Equality.{overlay_eq, action_eq, scope_set_eq}
use mumble_server_runtime.Shard.Routing.{Silence, AudioRelation, AudioRouting, extend_set, compile}
use mumble_server_runtime.Shard.Journal as Journal
use mumble_server_runtime.Shard.Journal.{Journal, saturating_suc}
use mumble_server_runtime.Shard.Plan.{PlannedOp, plan}
use mumble_server_runtime.Shard.Queue.{Mpsc, mark_fatal}
use mumble_server_runtime.Shard.Build.{BuildError, Rendered, ShardBuilder}
use mumble_server_runtime.Shard.Build.Builder.{new, or_default}
use mumble_server_runtime.Shard.Build.Checks.{finish, observed}
use mumble_server_runtime.Shard.Turn.{Emitter, Outcome, close, AttachedConnection, push, replan}
use mumble_server_runtime.Shard.Turn.Presence.{
  differs, no_actions, retained_keys, retained_overlays, date_sessions, shared_presence,
  private_presence, relation_beq, silence_beq,
}

-- The part of `ShardLogic` that a turn calls.
pub record Logic (L : Type 0) : Type 0 where
  pub render : L → ShardBuilder → L × ShardBuilder
  pub observation : L → ℕ → L × ScopeSet

pub record ReconcileReport : Type 0 where
  pub version : ℕ
  pub published : Bool
  pub delta_len : ℕ
  pub replanned : List ℕ
  pub routing_recompiled : Bool
  pub closed : List ℕ
  pub refused : Option BuildError

-- `ReconcileReport::default()` with the version.
abbrev pub quiet_report : ℕ → ReconcileReport
quiet_report version = record {
  version = version;
  published = false;
  delta_len = 0;
  replanned = [];
  routing_recompiled = false;
  closed = [];
  refused = none;
}

-- The flavor's observations, connection by connection.
unfoldable pub observe_all : {L : Type 0} → Logic L → L → List ℕ → L × Assoc ℕ ScopeSet
observe_all logic l [] = (l, [])
observe_all logic l (id ∷ ids) =
    let (l', see) = logic.observation l id in
    let (l'', rest) = observe_all logic l' ids in (l'', (id, see) ∷ rest)

module _ {M : Type 0} (c : Mpsc M) where
  -- The connections that hold a view of another shard, or observe something new.
  unfoldable pub has_moved : Assoc ℕ (AttachedConnection c) → Assoc ℕ ScopeSet → ℕ → Bool
  unfolding get observed
  has_moved connections observations id = elim (get connections id) [
    | none ↦ false
    | some a ↦ elim a.held [ some held ↦ true | none ↦ not (a.see == observed observations id) ]
  ]

  abbrev pub sent_overlay : Option (AttachedConnection c) → Option Overlay
  sent_overlay none = none
  sent_overlay (some a) = some a.overlay_sent

  abbrev pub sent_actions : Option (AttachedConnection c) → Option Actions
  sent_actions none = none
  sent_actions (some a) = some a.actions_sent

  unfoldable pub overlays_changed : Assoc ℕ (AttachedConnection c) → Assoc ℕ Overlay → List ℕ → Bool
  unfolding get is_empty
  overlays_changed connections fresh attached =
      any (λ id. differs is_empty (get fresh id) (sent_overlay (get connections id))) attached

  unfoldable pub actions_changed : Assoc ℕ (AttachedConnection c) → Assoc ℕ Actions → List ℕ → Bool
  unfolding get
  actions_changed connections fresh attached =
      any (λ id. differs no_actions (get fresh id) (sent_actions (get connections id))) attached

  -- `mark_fatal` where the outcome is to close.
  unfoldable pub closing : AttachedConnection c → Outcome → AttachedConnection c × List ℕ
  unfolding mark_fatal
  closing a close = (record a { queue = mark_fatal c a.queue }, a.id ∷ [])
  closing a outcome = (a, [])

  -- The loop over the connections, with the closed ones and the channels retired.
  unfoldable pub serve_all :
      (AttachedConnection c → AttachedConnection c × Outcome × List ℕ)
      → Assoc ℕ (AttachedConnection c)
      → List ℕ
      → Assoc ℕ (AttachedConnection c) × List ℕ × List ℕ
  unfolding closing extend_set
  serve_all f [] retired = ([], [], retired)
  serve_all f ((id, a) ∷ connections) retired =
      let (b, outcome, removed) = f a in
      let (closed_b, closed) = closing b outcome in
      let (rest, more, all) = serve_all f connections (extend_set retired removed) in
      ((id, closed_b) ∷ rest, closed ++ more, all)

  -- One connection's part of the turn.
  unfoldable pub serve :
      Emitter M
      → (previous view : ShardView) → Journal PlannedOp
      → ℕ
      → Assoc ℕ ScopeSet
      → Rendered
      → List ℕ
      → AttachedConnection c
      → AttachedConnection c × Outcome × List ℕ
  unfolding push replan observed get
  serve e previous view journal head observations rendered moved a =
      let overlay = or_default empty_overlay (get rendered.overlays a.id) in
      let actions = or_default [] (get rendered.actions a.id) in
      if contains moved a.id
      then replan c e a previous view head (observed observations a.id) overlay actions
      else push c e a journal head overlay actions

module _ {M : Type 0} (c : Mpsc M) (L : Type 0) where
  pub record Shard : Type 0 where
    pub id : ℕ
    pub logic : L
    pub ids : IdAllocator
    pub view : ShardView
    pub journal : Journal PlannedOp
    pub version : ℕ
    pub connections : Assoc ℕ (AttachedConnection c)
    pub since : Assoc ℕ ℕ
    pub declared_audio : AudioRelation
    pub declared_silence : Silence
    pub session_of : Assoc ℕ ℕ
    pub routing : AudioRouting

module _ {M L : Type 0} (c : Mpsc M) where
  -- The journal and the version once the delta is known: an empty delta advances neither.
  unfoldable pub publish : Shard c L → List PlannedOp → Shard c L
  unfolding Journal.push
  publish s [] = s
  publish s (op ∷ ops) = record s {
    version = saturating_suc s.version;
    journal = Journal.push s.journal (op ∷ ops);
  }

  -- Rule 2: the routing table, before the views are pushed.
  unfoldable pub route : Shard c L → Rendered → Shard c L × Bool
  unfolding date_sessions shared_presence private_presence compile
  route s rendered =
      let (since, since_changed) = date_sessions s.since s.version (keys s.view.users) in
      let (shared_sessions, shared_silence) =
        shared_presence [] (record { muted = []; deafened = [] }) (values s.view.users) in
      let (session_of, silence) =
        private_presence shared_sessions shared_silence rendered.overlays in
      if since_changed
        || (not (relation_beq rendered.audio s.declared_audio)
            || (not (list_beq session_of s.session_of)
                || not (silence_beq silence s.declared_silence)))
      then (
        record s {
          since = since;
          routing = compile rendered.audio session_of since silence;
          declared_audio = rendered.audio;
          session_of = session_of;
          declared_silence = silence;
        },
        true,
      )
      else (record s { since = since }, false)

  -- The turn once the render has been accepted and something is to be said.
  unfoldable pub apply_render :
      Emitter M
      → Shard c L
      → Assoc ℕ ScopeSet
      → Rendered
      → List PlannedOp
      → List ℕ
      → Shard c L × ReconcileReport
  unfolding publish route serve serve_all retained_keys retained_overlays retain_channels
      retire_channel_ids
  apply_render e s observations rendered ops moved =
      let published = publish s ops in
      let retained =
        retained_overlays (retained_keys [] (values rendered.view.channels)) rendered.overlays in
      let viewed = record published {
        view = rendered.view;
        ids = retain_channels published.ids published.id retained;
      } in
      let (routed, recompiled) = route viewed rendered in
      let (connections, closed, retired) =
        serve_all c
          (serve c e s.view routed.view routed.journal routed.version observations rendered moved)
          routed.connections [] in
      (
        record routed {
          connections = connections;
          ids = retire_channel_ids routed.ids routed.id retired;
        },
        record {
          version = routed.version;
          published = not (length ops == 0);
          delta_len = length ops;
          replanned = moved;
          routing_recompiled = recompiled;
          closed = closed;
          refused = none;
        },
      )

  -- Whether the render says nothing new to anybody.
  unfoldable pub is_quiet : Shard c L → Rendered → (attached moved : List ℕ) → List PlannedOp → Bool
  unfolding overlays_changed actions_changed
  is_quiet s rendered attached moved ops =
      length ops == 0
      && (length moved == 0
          && (not (overlays_changed c s.connections rendered.overlays attached)
              && not (actions_changed c s.connections rendered.actions attached)))

  -- What `finish` returned decides the rest of the turn.
  unfoldable pub conclude :
      Emitter M
      → Shard c L
      → Assoc ℕ ScopeSet
      → List ℕ
      → Result BuildError Rendered
      → Shard c L × ReconcileReport
  unfolding plan has_moved is_quiet apply_render
  conclude e s observations attached (err refused) =
      (s, record (quiet_report s.version) { refused = some refused })
  conclude e s observations attached (ok rendered) =
      let ops = plan s.view rendered.view in
      let moved = filter (has_moved c s.connections observations) attached in
      if is_quiet s rendered attached moved ops
      then (s, quiet_report s.version)
      else apply_render e s observations rendered ops moved

  -- The observations and the render of a turn.
  abbrev pub prepare :
      Logic L → Shard c L → Shard c L × Assoc ℕ ScopeSet × Result BuildError Rendered
  prepare logic s =
      let attached = keys s.connections in
      let (l, observations) = observe_all logic s.logic attached in
      let (l', builder) = logic.render l (new s.ids s.id attached) in
      (record s { logic = l'; ids = builder.ids }, observations, finish builder observations)

  unfoldable pub reconcile : Emitter M → Logic L → Shard c L → Shard c L × ReconcileReport
  unfolding observe_all finish conclude
  reconcile e logic s =
      let (prepared, observations, result) = prepare logic s in
      conclude e prepared observations (keys s.connections) result
