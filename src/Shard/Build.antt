-- ===== src/Shard/Build.antt =====
-- runtime/crates/shard/src/build.rs: the builder of a render, its data and its handles. The
-- allocator that all shards share (`SharedIds`) is the builder's field `ids`.
pub mod Private
pub mod Builder
pub mod Checks
pub mod Tree
pub mod Links
pub mod Coherent
pub mod Steps
pub mod Seats
pub mod Changes
pub mod Calls
pub mod Requests
pub mod Render
pub mod Overlays
pub mod Finish
pub mod Refusals
pub mod Layers
pub mod Audible
mod Examples
use Prim.Native.String.{String}
use mumble_server_runtime.Base.{ℕ, Bool, true, Option, none, some, List, []}
use mumble_server_runtime.Base.Assoc.{Assoc}
use mumble_server_runtime.Base.Int.{pos}
use mumble_server_runtime.Shard.Ids.{IdAllocator, Occupant, Exhausted}
use mumble_server_runtime.Shard.Routing.{AudioRelation}
use mumble_server_runtime.Shard.Scope.{Scope}
use mumble_server_runtime.Shard.View.{Channel, ShardView, Overlay, Actions}

abbrev pub max_actions : ℕ
max_actions = 64

pub data Narrow : Type 0 where
  same : Narrow
  into : ℕ → Narrow

pub record ChannelRef : Type 0 where
  pub id : ℕ
  pub scope : Scope

pub record UserRef : Type 0 where
  pub session : ℕ

-- What `narrowed` formats into its `context`: the kind of the element and its name.
pub data Context : Type 0 where
  channel_named : String → Context
  user_named : String → Context

pub data BuildError : Type 0 where
  missing_root : BuildError
  duplicate_root : BuildError
  duplicate_channel_key : (key : ℕ) → BuildError
  duplicate_occupant : (who : Occupant) → BuildError
  scope_too_deep : (context : Context) → BuildError
  exhausted : Exhausted → BuildError
  link_across_scopes : (a b : ℕ) → BuildError
  shared_and_private_user : (session connection : ℕ) → BuildError
  shared_and_private_channel : (channel connection : ℕ) → BuildError
  overlay_channel_missing : (connection channel : ℕ) → BuildError
  overlay_channel_invisible : (connection channel : ℕ) → BuildError
  too_many_actions : (connection : ℕ) → BuildError
  receiver_cannot_see_sender : (sender receiver : ℕ) → BuildError

pub record Rendered : Type 0 where
  pub view : ShardView
  pub overlays : Assoc ℕ Overlay
  pub actions : Assoc ℕ Actions
  pub audio : AudioRelation

pub record ShardBuilder : Type 0 where
  pub ids : IdAllocator
  pub shard : ℕ
  pub connections : List ℕ
  pub view : ShardView
  pub overlays : Assoc ℕ Overlay
  pub actions : Assoc ℕ Actions
  pub audio : AudioRelation
  pub keys_seen : List ℕ
  pub occupants_seen : List Occupant
  pub rooted : Bool
  pub error : Option BuildError

-- The constructor of one connection's private elements. It borrows the builder's `ids` and `error`,
-- and the connection's overlay and actions.
pub record PrivateBuilder : Type 0 where
  pub ids : IdAllocator
  pub shard : ℕ
  pub connection : ℕ
  pub overlay : Overlay
  pub actions : Actions
  pub error : Option BuildError

-- `error.get_or_insert(e)`: the first refusal wins.
abbrev pub get_or_insert : Option BuildError → BuildError → Option BuildError
get_or_insert none e = some e
get_or_insert (some first) e = some first

-- The fields that a new channel starts with.
abbrev pub starting_channel : (parent key id : ℕ) → Scope → String → Channel
starting_channel parent key id scope name = record {
  key = key;
  id = id;
  parent = parent;
  scope = scope;
  name = name;
  position = pos 0;
  can_enter = true;
  can_text = true;
  links = [];
}
