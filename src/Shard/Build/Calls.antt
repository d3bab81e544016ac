-- ===== src/Shard/Build/Calls.antt =====
-- A render: the calls that a flavor makes of the builder, in order. The handles it can name are
-- those that the shared calls returned, by their place; the allocator is shared, so other shards
-- may ask for ids, and retire their own, between two calls.
use Prim.Native.String.{String}
use mumble_server_runtime.Base.{
  ℕ, Bool, true, not, none, some, List, [], ◌∷◌, ◌++◌, get_elem?, ◌==◌, nat_eq, if◌then◌else◌,
}
use mumble_server_runtime.Base.Int.{ℤ}
use mumble_server_runtime.Shard.Ids.{Occupant}
use mumble_server_runtime.Shard.Ids.History as Ids
use mumble_server_runtime.Shard.View.{UserFlags, On}
use mumble_server_runtime.Shard.Build.{ChannelRef, UserRef, Narrow, ShardBuilder, PrivateBuilder}
use mumble_server_runtime.Shard.Build.Builder.{
  root, channel, user, channel_position, channel_can_enter, channel_can_text, channel_link,
  user_flags, private, audio_domain, audio_listen, audio_edge,
}
use mumble_server_runtime.Shard.Build.Private.{user_in, private_channel, private_user_flags, action}

pub data PrivateCall : Type 0 where
  place_user : ChannelRef → Occupant → String → PrivateCall
  place_channel : ChannelRef → ℕ → String → PrivateCall
  flag_user : UserRef → UserFlags → PrivateCall
  offer : ℕ → String → On → PrivateCall

unfoldable pub private_call : PrivateBuilder → PrivateCall → PrivateBuilder
unfolding user_in private_channel private_user_flags action
private_call p (place_user place who name) = (user_in p place who name).0
private_call p (place_channel parent key name) = (private_channel p parent key name).0
private_call p (flag_user who flags) = private_user_flags p who flags
private_call p (offer key text on) = action p key text on

unfoldable pub private_calls : List PrivateCall → PrivateBuilder → PrivateBuilder
unfolding private_call
private_calls [] p = p
private_calls (c ∷ calls) p = private_calls calls (private_call p c)

-- A shared call names a handle that a shared call returned, by its place in their order. The code also
-- takes the handle of a private channel there, which has no call here.
pub data Call : Type 0 where
  render_root : String → Call
  render_channel : (parent key : ℕ) → String → Narrow → Call
  render_user : (place : ℕ) → Occupant → String → Narrow → Call
  set_position : ℕ → ℤ → Call
  set_can_enter : ℕ → Bool → Call
  set_can_text : ℕ → Bool → Call
  link : (one other : ℕ) → Call
  set_flags : UserRef → UserFlags → Call
  privately : (connection : ℕ) → List PrivateCall → Call
  join_domain : ℕ → List ℕ → Call
  listen_to : (listener domain : ℕ) → Call
  add_edge : (sender receiver : ℕ) → Call
  elsewhere : Ids.Call → Call

-- The builder, and the handles that the calls have returned so far.
pub record Rendering : Type 0 where
  pub builder : ShardBuilder
  pub handles : List ChannelRef

abbrev pub returned : Rendering → ShardBuilder × ChannelRef → Rendering
returned r (b, handle) = record { builder = b; handles = r.handles ++ handle ∷ [] }

abbrev pub with_handle : Rendering → ℕ → (ChannelRef → Rendering) → Rendering
with_handle r i f = elim (get_elem? r.handles i) [ none ↦ r | some handle ↦ f handle ]

-- Whether a call of the allocator is one that another shard may make.
abbrev pub is_foreign : ℕ → Ids.Call → Bool
is_foreign shard (Ids.ask_channel other key) = true
is_foreign shard (Ids.ask_session who) = true
is_foreign shard (Ids.retain other retained) = not (other == shard)
is_foreign shard (Ids.retire other retired) = not (other == shard)

abbrev pub interrupted : ShardBuilder → Ids.Call → ShardBuilder
interrupted b c = if is_foreign b.shard c then record b { ids = Ids.call b.ids c } else b

unfoldable pub call : Rendering → Call → Rendering
unfolding root channel user channel_position channel_can_enter channel_can_text channel_link
    user_flags private private_calls audio_domain audio_listen audio_edge
call r (render_root name) = returned r (root r.builder name)
call r (render_channel parent key name narrow) =
    with_handle r parent (λ h. returned r (channel r.builder h key name narrow))
call r (render_user place who name narrow) =
    with_handle r place (λ h. record r { builder = (user r.builder h who name narrow).0 })
call r (set_position i position) =
    with_handle r i (λ h. record r { builder = channel_position r.builder h position })
call r (set_can_enter i allowed) =
    with_handle r i (λ h. record r { builder = channel_can_enter r.builder h allowed })
call r (set_can_text i allowed) =
    with_handle r i (λ h. record r { builder = channel_can_text r.builder h allowed })
call r (link one other) =
    with_handle r one
      (λ h. with_handle r other (λ k. record r { builder = channel_link r.builder h k }))
call r (set_flags who flags) = record r { builder = user_flags r.builder who flags }
call r (privately connection calls) = record r {
  builder = private r.builder connection (private_calls calls);
}
call r (join_domain domain members) = record r { builder = audio_domain r.builder domain members }
call r (listen_to listener domain) = record r { builder = audio_listen r.builder listener domain }
call r (add_edge sender receiver) = record r { builder = audio_edge r.builder sender receiver }
call r (elsewhere c) = record r { builder = interrupted r.builder c }

unfoldable pub calls : Rendering → List Call → Rendering
unfolding call
calls r [] = r
calls r (c ∷ cs) = calls (call r c) cs
