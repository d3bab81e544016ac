-- ===== src/Shard/Plan.antt =====
-- runtime/crates/shard/src/plan.rs: planning the transition from one shard view to the next.
pub mod Ordering
pub mod Users
pub mod Channels
pub mod Phases
pub mod Overlay
use Prim.Native.String.{String}
use mumble_server_runtime.Base.{
  ℕ, Bool, true, false, not, ◌&&◌, Option, none, some, List, [], ◌∷◌, ◌++◌, map, filter, nat_eq,
  bool_eq, string_eq, ◌==◌, if◌then◌else◌,
}
use mumble_server_runtime.Base.Int.{ℤ, int_eq}
use mumble_server_runtime.Base.Assoc.{Assoc, get}
use mumble_server_runtime.Base.Order.{contains, nat_order}
use mumble_server_runtime.Shard.Scope.{Scope, scope_eq}
use mumble_server_runtime.Shard.View.{Channel, UserFlags, User, ShardView, flags_eq}
use Ordering.{order_creations, order_removals}

pub record ChannelPatch : Type 0 where
  pub id : ℕ
  pub parent : Option ℕ
  pub name : Option String
  pub position : Option ℤ
  pub can_enter : Option Bool
  pub links_added : List ℕ
  pub links_removed : List ℕ

pub record UserPatch : Type 0 where
  pub session : ℕ
  pub name : Option String
  pub flags : Option UserFlags

pub data PlanOp : Type 0 where
  create_channel : Channel → PlanOp
  update_channel : ChannelPatch → PlanOp
  add_user : User → PlanOp
  move_user : ℕ → ℕ → PlanOp
  update_user : UserPatch → PlanOp
  remove_user : ℕ → PlanOp
  remove_channel : ℕ → PlanOp

pub data ElementId : Type 0 where
  channel_element : ℕ → ElementId
  user_element : ℕ → ElementId

unfoldable pub added : PlanOp → Option ElementId
added (create_channel channel) = some (channel_element channel.id)
added (add_user user) = some (user_element user.session)
added _ = none

unfoldable pub removed : PlanOp → Option ElementId
removed (remove_channel channel) = some (channel_element channel)
removed (remove_user session) = some (user_element session)
removed _ = none

unfoldable pub is_removal : PlanOp → Bool
is_removal (remove_user _) = true
is_removal (remove_channel _) = true
is_removal _ = false

pub record PlannedOp : Type 0 where
  pub op : PlanOp
  pub scope : Scope

abbrev pub planned : PlanOp → Scope → PlannedOp
planned op scope = record { op = op; scope = scope }

-- `if old != new { patch.field = Some(new) }`
abbrev changed {ℓ} : {A : Type ℓ} → Bool → A → Option A
changed same new = if same then none else some new

-- `new.links.difference(&old.links)`
abbrev pub difference : List ℕ → List ℕ → List ℕ
difference xs ys = filter (λ x. not (contains ys x)) xs

unfoldable pub channel_patch : Channel → Channel → ChannelPatch
channel_patch old new = record {
  id = new.id;
  parent = changed (old.parent == new.parent) new.parent;
  name = changed (old.name == new.name) new.name;
  position = changed (old.position == new.position) new.position;
  can_enter = changed (old.can_enter == new.can_enter) new.can_enter;
  links_added = difference new.links old.links;
  links_removed = difference old.links new.links;
}

abbrev pub is_none {ℓ} : {A : Type ℓ} → Option A → Bool
is_none none = true
is_none (some a) = false

abbrev pub is_nil {ℓ} : {A : Type ℓ} → List A → Bool
is_nil [] = true
is_nil (x ∷ xs) = false

unfoldable pub channel_is_noop : ChannelPatch → Bool
channel_is_noop p =
    is_none p.parent
    && is_none p.name
    && is_none p.position
    && is_none p.can_enter
    && is_nil p.links_added
    && is_nil p.links_removed

unfoldable pub user_patch : User → User → UserPatch
user_patch old new = record {
  session = new.session;
  name = changed (old.name == new.name) new.name;
  flags = changed (old.flags == new.flags) new.flags;
}

unfoldable pub user_is_noop : UserPatch → Bool
user_is_noop p = is_none p.name && is_none p.flags

-- What the loop over the channels of `after` pushes, by vector.
pub record ChannelPhases : Type 0 where
  pub creates : List Channel
  pub updates : List PlannedOp
  pub removals : List (ℕ × Scope)

-- Within one scope: an update where the patch is not empty.
unfoldable pub channel_change : Channel → Channel → ChannelPhases → ChannelPhases
unfolding channel_patch channel_is_noop
channel_change old new rest =
    let patch = channel_patch old new in
    record rest {
      updates =
          if channel_is_noop patch
          then rest.updates
          else planned (update_channel patch) new.scope ∷ rest.updates;
    }

unfoldable pub channel_step : Channel → Option Channel → ℕ → ChannelPhases → ChannelPhases
unfolding channel_change
channel_step new none id rest = record rest { creates = new ∷ rest.creates }
channel_step new (some old) id rest =
    if old.scope == new.scope
    then channel_change old new rest
    else record rest { creates = new ∷ rest.creates; removals = (id, old.scope) ∷ rest.removals }

channel_phases : Assoc ℕ Channel → Assoc ℕ Channel → ChannelPhases
unfolding channel_step get
channel_phases before [] = record { creates = []; updates = []; removals = [] }
channel_phases before ((id, new) ∷ after) =
    channel_step new (get before id) id (channel_phases before after)

-- The loop over the channels of `before`: those that are gone.
gone_channels : Assoc ℕ Channel → Assoc ℕ Channel → List (ℕ × Scope)
unfolding get
gone_channels [] after = []
gone_channels ((id, old) ∷ before) after =
    let rest = gone_channels before after in
    elim (get after id) [ none ↦ (id, old.scope) ∷ rest | some _ ↦ rest ]

pub record UserPhases : Type 0 where
  pub adds : List PlannedOp
  pub moves : List PlannedOp
  pub updates : List PlannedOp
  pub removals : List PlannedOp

-- Within one scope: a move where the channel differs, and an update where the patch is not empty.
unfoldable pub user_change : User → User → ℕ → UserPhases → UserPhases
unfolding user_patch user_is_noop
user_change old new session rest =
    let patch = user_patch old new in
    record rest {
      moves =
          if old.channel == new.channel
          then rest.moves
          else planned (move_user session new.channel) new.scope ∷ rest.moves;
      updates =
          if user_is_noop patch
          then rest.updates
          else planned (update_user patch) new.scope ∷ rest.updates;
    }

unfoldable pub user_step : User → Option User → ℕ → UserPhases → UserPhases
unfolding user_change
user_step new none session rest = record rest {
  adds = planned (add_user new) new.scope ∷ rest.adds;
}
user_step new (some old) session rest =
    if old.scope == new.scope then user_change old new session rest else record rest {
      adds = planned (add_user new) new.scope ∷ rest.adds;
      removals = planned (remove_user session) old.scope ∷ rest.removals;
    }

user_phases : Assoc ℕ User → Assoc ℕ User → UserPhases
unfolding user_step get
user_phases before [] = record { adds = []; moves = []; updates = []; removals = [] }
user_phases before ((session, new) ∷ after) =
    user_step new (get before session) session (user_phases before after)

gone_users : Assoc ℕ User → Assoc ℕ User → List PlannedOp
unfolding get
gone_users [] after = []
gone_users ((session, old) ∷ before) after =
    let rest = gone_users before after in
    elim (get after session) [
      | none ↦ planned (remove_user session) old.scope ∷ rest
      | some _ ↦ rest
    ]

unfoldable pub plan : ShardView → ShardView → List PlannedOp
unfolding channel_phases gone_channels user_phases gone_users order_creations order_removals
plan before after =
    let channels = channel_phases before.channels after.channels in
    let users = user_phases before.users after.users in
    let creates = order_creations channels.creates before in
    let removals =
      order_removals (channels.removals ++ gone_channels before.channels after.channels) before in
    map (λ (c : Channel). planned (create_channel c) c.scope) creates
    ++ (channels.updates
        ++ (users.adds
            ++ (users.moves
                ++ (users.updates
                    ++ ((users.removals ++ gone_users before.users after.users)
                        ++ map (λ (r : ℕ × Scope). planned (remove_channel r.0) r.1) removals)))))
