-- ===== src/Shard/Client/Examples.antt =====
-- A player leaves one team for another, as the spectator of the game sees it.
use mumble_server_runtime.Base.{ℕ, ◌≡◌, refl, true, false, some, none, List, [], ◌∷◌, nat_eq}
use mumble_server_runtime.Base.Int.{pos}
use mumble_server_runtime.Base.Assoc.{Assoc, get, IsDistinct}
use mumble_server_runtime.Shard.Ids.{connection_of}
use mumble_server_runtime.Shard.Scope.{Scope, root}
use mumble_server_runtime.Shard.ScopeSet.{ScopeSet}
use mumble_server_runtime.Shard.View.{Channel, User, ShardView, Overlay, restrict}
use mumble_server_runtime.Shard.Plan.{PlanOp, add_user, remove_user, remove_channel, plan}
use mumble_server_runtime.Shard.Compose.{filter_ops, collapse}
use mumble_server_runtime.Shard.Client.{apply_all, shown}
use mumble_server_runtime.Shard.Client.Users.{users_refine}
use mumble_server_runtime.Shard.Client.Links.{sent_bare, IsShown}
use mumble_server_runtime.Shard.Client.Channels.{channels_refine}

abbrev game : Scope
game = record { segments = 7 ∷ 0 ∷ 0 ∷ 0 ∷ []; depth = 1 }

abbrev team : ℕ → Scope
team n = record { segments = 7 ∷ n ∷ 0 ∷ 0 ∷ []; depth = 2 }

abbrev a_channel : ℕ → ℕ → Scope → Channel
a_channel id parent scope = record {
  key = id;
  id = id;
  parent = parent;
  scope = scope;
  name = "channel";
  position = pos 0;
  can_enter = true;
  can_text = true;
  links = [];
}

abbrev a_user : ℕ → ℕ → Scope → User
a_user session channel scope = record {
  occupant = connection_of session;
  session = session;
  channel = channel;
  scope = scope;
  name = "player";
  flags = record {
    mute = false;
    deaf = false;
    suppress = false;
    self_mute = false;
    self_deaf = false;
    priority_speaker = false;
    recording = false;
  };
}

abbrev channels : Assoc ℕ Channel
channels =
    (0, a_channel 0 0 root)
    ∷ (1, a_channel 1 0 game)
    ∷ (2, a_channel 2 1 (team 2))
    ∷ (3, a_channel 3 1 (team 3))
    ∷ []

abbrev before : ShardView
before = record {
  channels = channels;
  users = (10, a_user 10 2 (team 2)) ∷ (11, a_user 11 3 (team 3)) ∷ [];
}

-- User 11 is on team 2, and the channel of team 3 is gone.
abbrev after : ShardView
after = record {
  channels = (0, a_channel 0 0 root) ∷ (1, a_channel 1 0 game) ∷ (2, a_channel 2 1 (team 2)) ∷ [];
  users = (10, a_user 10 2 (team 2)) ∷ (11, a_user 11 2 (team 2)) ∷ [];
}

abbrev spectator : ScopeSet
spectator = record { scopes = some game ∷ none ∷ none ∷ none ∷ [] }

users-IsDistinct : IsDistinct before.users × IsDistinct after.users
unfolding get
users-IsDistinct = ((refl, (refl, tt)), (refl, (refl, tt)))

channels-IsDistinct : IsDistinct before.channels × IsDistinct after.channels
unfolding get
channels-IsDistinct = ((refl, (refl, (refl, (refl, tt)))), (refl, (refl, (refl, tt))))

users_refine_example :
    (apply_all
        (shown (restrict before spectator))
        (collapse (filter_ops (plan before after) spectator))).users
      11
    ≡ (shown (restrict after spectator)).users 11
users_refine_example =
    users_refine before after spectator 11 (refl, (refl, tt)) users-IsDistinct.0 users-IsDistinct.1

channels_refine_example :
    let held = shown (restrict before spectator) in
    let ops = collapse (filter_ops (plan before after) spectator) in
    IsShown
      (sent_bare 3 (held.channels 3) ops)
      ((apply_all held ops).channels 3)
      ((shown (restrict after spectator)).channels 3)
channels_refine_example =
    channels_refine before after spectator 2 (refl, (refl, (refl, tt))) channels-IsDistinct.0
      channels-IsDistinct.1

-- The overlay of the spectator: a private channel.
abbrev private_overlay : Overlay
private_overlay = record { channels = (9, a_channel 9 1 game) ∷ []; users = [] }

abbrev no_overlay : Overlay
no_overlay = record { channels = []; users = [] }

private-IsDistinct : IsDistinct private_overlay.channels
unfolding get
private-IsDistinct = (refl, tt)

abbrev crossing : List PlanOp
crossing = add_user (a_user 11 2 (team 2)) ∷ remove_user 11 ∷ remove_channel 3 ∷ []

-- The departure of user 11 is dropped, and that of channel 3 stays.
crossing_collapsed : collapse crossing ≡ add_user (a_user 11 2 (team 2)) ∷ remove_channel 3 ∷ []
unfolding collapse
crossing_collapsed = refl
