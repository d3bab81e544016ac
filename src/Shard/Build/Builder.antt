-- ===== src/Shard/Build/Builder.antt =====
-- runtime/crates/shard/src/build.rs: the calls of `ShardBuilder`. A call that fails records the
-- refusal and carries on.
use Prim.Native.String.{String}
use mumble_server_runtime.Base.{
  ℕ, Bool, true, false, Option, none, some, List, [], ok, err, nat_eq, if◌then◌else◌,
}
use mumble_server_runtime.Base.Int.{ℤ}
use mumble_server_runtime.Base.Assoc.{get}
use mumble_server_runtime.Base.Order.{nat_order, contains, set_insert}
use mumble_server_runtime.Base.Btree.{btree_insert, update}
use mumble_server_runtime.Shard.Ids.{
  IdAllocator, Occupant, occupant_order, channel as allocate_channel, session,
}
use mumble_server_runtime.Shard.Routing.{declare_domain, listen, edge}
use mumble_server_runtime.Shard.Scope.{Scope, root as root_scope, child, comparable}
use mumble_server_runtime.Shard.View.{Channel, UserFlags, default_flags, empty, empty_overlay}
use mumble_server_runtime.Shard.Build.{
  Narrow, same, into, ChannelRef, UserRef, BuildError, ShardBuilder, PrivateBuilder, Context,
  channel_named, user_named, duplicate_root, duplicate_channel_key, duplicate_occupant,
  scope_too_deep, exhausted, link_across_scopes, get_or_insert, starting_channel,
}

abbrev pub new : IdAllocator → ℕ → List ℕ → ShardBuilder
new ids shard connections = record {
  ids = ids;
  shard = shard;
  connections = connections;
  view = empty;
  overlays = [];
  actions = [];
  audio = record { domains = []; listeners = []; edges = [] };
  keys_seen = [];
  occupants_seen = [];
  rooted = false;
  error = none;
}

unfoldable pub fail : ShardBuilder → BuildError → ShardBuilder
fail b e = record b { error = get_or_insert b.error e }

unfoldable pub narrowed : ShardBuilder → Scope → Narrow → Context → ShardBuilder × Option Scope
unfolding fail child
narrowed b parent same context = (b, some parent)
narrowed b parent (into segment) context = elim (child parent segment) [
  | some scope ↦ (b, some scope)
  | none ↦ (fail b (scope_too_deep context), none)
]

-- `self.view.channels.insert(id, …)`
unfoldable pub place_channel : ShardBuilder → (parent key id : ℕ) → Scope → String → ShardBuilder
unfolding btree_insert
place_channel b parent key id scope name = record b {
  view = record b.view {
    channels = btree_insert b.view.channels id (starting_channel parent key id scope name);
  };
}

abbrev pub root_ref : ChannelRef
root_ref = record { id = 0; scope = root_scope }

unfoldable pub root : ShardBuilder → String → ShardBuilder × ChannelRef
unfolding fail place_channel
root b name =
    if b.rooted
    then (fail b duplicate_root, root_ref)
    else (place_channel (record b { rooted = true }) 0 0 0 root_scope name, root_ref)

unfoldable pub channel_allocated :
    ShardBuilder → ChannelRef → ℕ → String → Scope → ShardBuilder × ChannelRef
unfolding allocate_channel fail place_channel
channel_allocated b parent key name scope =
    let (ids, granted) = allocate_channel b.ids b.shard key in
    elim granted [
      | ok id ↦ (
        place_channel (record b { ids = ids }) parent.id key id scope name,
        record { id = id; scope = scope },
      )
      | err e ↦ (fail (record b { ids = ids }) (exhausted e), parent)
    ]

unfoldable pub channel_keyed :
    ShardBuilder → ChannelRef → ℕ → String → Scope → ShardBuilder × ChannelRef
unfolding channel_allocated fail set_insert
channel_keyed b parent key name scope =
    if contains b.keys_seen key
    then (fail b (duplicate_channel_key key), parent)
    else channel_allocated (record b { keys_seen = set_insert key b.keys_seen }) parent key name
        scope

unfoldable pub channel : ShardBuilder → ChannelRef → ℕ → String → Narrow → ShardBuilder × ChannelRef
unfolding narrowed channel_keyed
channel b parent key name narrow =
    let (b', scope) = narrowed b parent.scope narrow (channel_named name) in
    elim scope [ none ↦ (b', parent) | some scope ↦ channel_keyed b' parent key name scope ]

unfoldable pub place_user :
    ShardBuilder → ChannelRef → Occupant → String → Scope → ℕ → ShardBuilder × UserRef
unfolding fail set_insert btree_insert
place_user b channel who name scope session =
    if contains b.occupants_seen who
    then (fail b (duplicate_occupant who), record { session = session })
    else (
      record b {
        occupants_seen = set_insert who b.occupants_seen;
        view = record b.view {
          users = btree_insert b.view.users session (record {
            occupant = who;
            session = session;
            channel = channel.id;
            scope = scope;
            name = name;
            flags = default_flags;
          });
        };
      },
      record { session = session },
    )

unfoldable pub user_scoped :
    ShardBuilder → ChannelRef → Occupant → String → Scope → ShardBuilder × UserRef
unfolding session fail place_user
user_scoped b channel who name scope =
    let (ids, granted) = session b.ids who in
    elim granted [
      | ok session ↦ place_user (record b { ids = ids }) channel who name scope session
      | err e ↦ place_user (fail (record b { ids = ids }) (exhausted e)) channel who name scope 0
    ]

abbrev pub unwrap_or : Option Scope → Scope → Scope
unwrap_or none scope = scope
unwrap_or (some scope) _ = scope

unfoldable pub user :
    ShardBuilder → ChannelRef → Occupant → String → Narrow → ShardBuilder × UserRef
unfolding narrowed user_scoped
user b channel who name narrow =
    let (b', scope) = narrowed b channel.scope narrow (user_named name) in
    user_scoped b' channel who name (unwrap_or scope channel.scope)

-- `if let Some(entry) = self.view.channels.get_mut(&id)`
unfoldable pub with_channel : ShardBuilder → ℕ → (Channel → Channel) → ShardBuilder
unfolding update
with_channel b id change = record b {
  view = record b.view { channels = update b.view.channels id change };
}

unfoldable pub channel_position : ShardBuilder → ChannelRef → ℤ → ShardBuilder
unfolding with_channel
channel_position b channel position =
    with_channel b channel.id (λ entry. record entry { position = position })

unfoldable pub channel_can_enter : ShardBuilder → ChannelRef → Bool → ShardBuilder
unfolding with_channel
channel_can_enter b channel allowed =
    with_channel b channel.id (λ entry. record entry { can_enter = allowed })

unfoldable pub channel_can_text : ShardBuilder → ChannelRef → Bool → ShardBuilder
unfolding with_channel
channel_can_text b channel allowed =
    with_channel b channel.id (λ entry. record entry { can_text = allowed })

abbrev pub add_link : ℕ → Channel → Channel
add_link id entry = record entry { links = set_insert id entry.links }

unfoldable pub channel_link : ShardBuilder → ChannelRef → ChannelRef → ShardBuilder
unfolding comparable fail with_channel set_insert
channel_link b one other =
    if comparable one.scope other.scope
    then with_channel (with_channel b one.id (add_link other.id)) other.id (add_link one.id)
    else fail b (link_across_scopes one.id other.id)

unfoldable pub user_flags : ShardBuilder → UserRef → UserFlags → ShardBuilder
unfolding update
user_flags b user flags = record b {
  view = record b.view {
    users = update b.view.users user.session (λ entry. record entry { flags = flags });
  };
}

-- `entry(connection).or_default()`
abbrev pub or_default {ℓ} : {V : Type ℓ} → V → Option V → V
or_default d none = d
or_default d (some v) = v

-- What `build` does to the borrowed parts stands in the builder afterwards.
unfoldable pub private : ShardBuilder → ℕ → (PrivateBuilder → PrivateBuilder) → ShardBuilder
unfolding get btree_insert
private b connection build =
    let p = build (record {
      ids = b.ids;
      shard = b.shard;
      connection = connection;
      overlay = or_default empty_overlay (get b.overlays connection);
      actions = or_default [] (get b.actions connection);
      error = b.error;
    }) in
    record b {
      ids = p.ids;
      overlays = btree_insert b.overlays connection p.overlay;
      actions = btree_insert b.actions connection p.actions;
      error = p.error;
    }

unfoldable pub audio_domain : ShardBuilder → ℕ → List ℕ → ShardBuilder
unfolding declare_domain
audio_domain b domain members = record b { audio = declare_domain b.audio domain members }

unfoldable pub audio_listen : ShardBuilder → ℕ → ℕ → ShardBuilder
unfolding listen
audio_listen b listener domain = record b { audio = listen b.audio listener domain }

unfoldable pub audio_edge : ShardBuilder → ℕ → ℕ → ShardBuilder
unfolding edge
audio_edge b sender receiver = record b { audio = edge b.audio sender receiver }
