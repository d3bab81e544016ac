-- ===== src/Shard/Build/Private.antt =====
-- runtime/crates/shard/src/build.rs: `PrivateBuilder`.
use Prim.Native.String.{String}
use mumble_server_runtime.Base.{
  ℕ, Bool, true, not, ◌&&◌, none, some, length, leb, ok, err, nat_eq, if◌then◌else◌,
}
use mumble_server_runtime.Base.Assoc.{Assoc, get}
use mumble_server_runtime.Base.Order.{nat_order}
use mumble_server_runtime.Base.Btree.{btree_insert, update}
use mumble_server_runtime.Shard.Ids.{Occupant, channel as allocate_channel, session}
use mumble_server_runtime.Shard.View.{UserFlags, default_flags, Action, On}
use mumble_server_runtime.Shard.Build.{
  ChannelRef, UserRef, PrivateBuilder, get_or_insert, exhausted, too_many_actions, max_actions,
  starting_channel,
}

unfoldable pub overlay_user :
    PrivateBuilder → ChannelRef → Occupant → String → ℕ → PrivateBuilder × UserRef
unfolding btree_insert
overlay_user p channel who name session = (
  record p {
    overlay = record p.overlay {
      users = btree_insert p.overlay.users session (record {
        occupant = who;
        session = session;
        channel = channel.id;
        scope = channel.scope;
        name = name;
        flags = default_flags;
      });
    };
  },
  record { session = session },
)

unfoldable pub user_in : PrivateBuilder → ChannelRef → Occupant → String → PrivateBuilder × UserRef
unfolding overlay_user session
user_in p channel who name =
    let (ids, granted) = session p.ids who in
    elim granted [
      | ok session ↦ overlay_user (record p { ids = ids }) channel who name session
      | err e ↦
          overlay_user (record p { ids = ids; error = get_or_insert p.error (exhausted e) }) channel
            who name 0
    ]

unfoldable pub overlay_channel :
    PrivateBuilder → ChannelRef → ℕ → String → ℕ → PrivateBuilder × ChannelRef
unfolding btree_insert
overlay_channel p parent key name id = (
  record p {
    overlay = record p.overlay {
      channels =
          btree_insert p.overlay.channels id (starting_channel parent.id key id parent.scope name);
    };
  },
  record { id = id; scope = parent.scope },
)

unfoldable pub private_channel :
    PrivateBuilder → ChannelRef → ℕ → String → PrivateBuilder × ChannelRef
unfolding overlay_channel allocate_channel
private_channel p parent key name =
    let (ids, granted) = allocate_channel p.ids p.shard key in
    elim granted [
      | ok id ↦ overlay_channel (record p { ids = ids }) parent key name id
      | err e ↦ (record p { ids = ids; error = get_or_insert p.error (exhausted e) }, parent)
    ]

unfoldable pub private_user_flags : PrivateBuilder → UserRef → UserFlags → PrivateBuilder
unfolding update
private_user_flags p user flags = record p {
  overlay = record p.overlay {
    users = update p.overlay.users user.session (λ entry. record entry { flags = flags });
  };
}

unfoldable pub offered : Assoc ℕ Action → ℕ → Bool
unfolding get
offered actions key = elim (get actions key) [ none ↦ Bool.false | some action ↦ true ]

unfoldable pub action : PrivateBuilder → ℕ → String → On → PrivateBuilder
unfolding offered btree_insert
action p key text on =
    if leb max_actions (length p.actions) && not (offered p.actions key)
    then record p { error = get_or_insert p.error (too_many_actions p.connection) }
    else record p {
      actions = btree_insert p.actions key (record { key = key; text = text; on = on });
    }
