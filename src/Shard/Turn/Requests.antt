-- ===== src/Shard/Turn/Requests.antt =====
-- runtime/crates/shard/src/shard.rs: what a client may name, and what the flavor hears of it. The
-- names of actions are read by emit.rs, a parameter; the lines written to the log are left out.

use Prim.Native.String.{String}
use mumble_server_runtime.Base.{
  ℕ, zero, suc, Bool, true, false, not, Option, none, some, List, [], ◌∷◌, ◌==◌, nat_eq,
  if◌then◌else◌,
}
use mumble_server_runtime.Base.Assoc.{Assoc, get, values}
use mumble_server_runtime.Shard.Ids.{IdAllocator, Occupant, allocated_session, allocated_channel}
use mumble_server_runtime.Shard.ScopeSet.{sees}
use mumble_server_runtime.Shard.View.{
  Channel, User, ShardView, On, server, channel as channel_bit, user as user_bit, covers,
}
use mumble_server_runtime.Shard.View.Composed.{or_from}
use mumble_server_runtime.Shard.Queue.{Mpsc}
use mumble_server_runtime.Shard.Turn.{AttachedConnection}

pub data ActionTarget : Type 0 where
  on_server : ActionTarget
  on_channel : (key : ℕ) → ActionTarget
  on_user : Occupant → ActionTarget

-- reply.rs: whom the flavor addresses, by its own names.
pub data Audience : Type 0 where
  for_channel : (key : ℕ) → Audience
  for_tree : (key : ℕ) → Audience
  for_user : Occupant → Audience

-- Whom a client addresses, by the wire's names.
pub data TextTarget : Type 0 where
  to_session : ℕ → TextTarget
  to_channel : ℕ → TextTarget
  to_tree : ℕ → TextTarget

-- What the flavor is told of.
pub data VoiceEvent : Type 0 where
  connected : (connection : ℕ) → VoiceEvent
  disconnected : (connection : ℕ) → (reason : String) → VoiceEvent
  migrated : (connection shard : ℕ) → VoiceEvent
  requested_channel : (connection channel : ℕ) → VoiceEvent
  requested_self_state : (connection : ℕ) → (self_mute self_deaf : Option Bool) → VoiceEvent
  invoked_action : (connection action : ℕ) → ActionTarget → VoiceEvent
  said : (connection : ℕ) → Audience → String → VoiceEvent

-- The commands of a client that the shard answers from what it holds.
pub data Request : Type 0 where
  ask_channel : (channel : ℕ) → Request
  ask_self_state : (self_mute self_deaf : Option Bool) → Request
  invoke : (action session channel : Option ℕ) → Request
  speak : TextTarget → String → Request

-- What a handler does: nothing, tell the flavor, or refuse the client out loud.
pub data Handled : Type 0 where
  dropped : Handled
  told : VoiceEvent → Handled
  denied : (session channel : ℕ) → Handled

-- `option.filter(test)`
abbrev pub if_passes {ℓ} : {V : Type ℓ} → (V → Bool) → Option V → Option V
if_passes test none = none
if_passes test (some v) = if test v then some v else none

module _ {M : Type 0} (c : Mpsc M) (view : ShardView) where
  abbrev held_view : AttachedConnection c → ShardView
  held_view a = elim a.held [ none ↦ record { channels = []; users = [] } | some held ↦ held ]

  -- Shared and observed, or held from before, or private.
  unfoldable pub visible_channel : AttachedConnection c → ℕ → Option Channel
  unfolding get sees
  visible_channel a id =
      or_from (if_passes (λ rendered. sees a.see rendered.scope) (get view.channels id))
        (or_from (get (held_view a).channels id) (get a.overlay_sent.channels id))

  unfoldable pub seen_user : AttachedConnection c → ℕ → Option User
  unfolding get sees
  seen_user a session =
      or_from (if_passes (λ user. sees a.see user.scope) (get view.users session))
        (or_from (get (held_view a).users session) (get a.overlay_sent.users session))

  unfoldable pub requested : AttachedConnection c → ℕ → Handled
  unfolding visible_channel
  requested a id = elim (visible_channel a id) [
    | none ↦ dropped
    | some rendered ↦ told (requested_channel a.id rendered.key)
  ]

  abbrev pub is_some {ℓ} : {V : Type ℓ} → Option V → Bool
  is_some none = false
  is_some (some v) = true

  -- `session.filter(|_| on.covers(On::USER))`, and so on: the most specific place first.
  unfoldable pub action_target :
      AttachedConnection c → On → (session channel : Option ℕ) → Option ActionTarget
  unfolding seen_user visible_channel covers
  action_target a on session channel = elim (if_passes (λ _. covers on user_bit) session) [
    | some session ↦ elim (seen_user a session) [
      | none ↦ none
      | some user ↦ some (on_user user.occupant)
    ]
    | none ↦ elim (if_passes (λ _. covers on channel_bit) channel) [
      | some channel ↦ elim (visible_channel a channel) [
        | none ↦ none
        | some rendered ↦ some (on_channel rendered.key)
      ]
      | none ↦ if covers on server then some on_server else none
    ]
  ]

  -- The action's key, as `emit::action_key` reads it from the name.
  unfoldable pub invoked : AttachedConnection c → Option ℕ → (session channel : Option ℕ) → Handled
  unfolding get action_target
  invoked a none session channel = dropped
  invoked a (some key) session channel = elim (get a.actions_sent key) [
    | none ↦ dropped
    | some offered ↦ elim (action_target a offered.on session channel) [
      | none ↦ dropped
      | some on ↦ told (invoked_action a.id key on)
    ]
  ]

  -- Where a message is aimed, in the flavor's words, and the channel whose `can_text` decides.
  unfoldable pub text_audience : AttachedConnection c → TextTarget → Option (Audience × ℕ)
  unfolding seen_user visible_channel
  text_audience a (to_session session) = elim (seen_user a session) [
    | none ↦ none
    | some u ↦ some (for_user u.occupant, u.channel)
  ]
  text_audience a (to_channel id) = elim (visible_channel a id) [
    | none ↦ none
    | some rendered ↦ some (for_channel rendered.key, id)
  ]
  text_audience a (to_tree id) = elim (visible_channel a id) [
    | none ↦ none
    | some rendered ↦ some (for_tree rendered.key, id)
  ]

  unfoldable pub is_writable : AttachedConnection c → ℕ → Bool
  unfolding visible_channel
  is_writable a id = elim (visible_channel a id) [
    | none ↦ false
    | some rendered ↦ rendered.can_text
  ]

  unfoldable pub say : AttachedConnection c → TextTarget → String → Handled
  unfolding text_audience is_writable
  say a to message = elim (text_audience a to) [
    | none ↦ dropped
    | some (audience, writable_in) ↦
        if not (is_writable a writable_in)
        then denied a.session writable_in
        else told (said a.id audience message)
  ]

  -- The loop of `descends_from`, on fuel: nothing where it runs out.
  unfoldable pub descends_from : ℕ → AttachedConnection c → ℕ → ℕ → Option Bool
  unfolding visible_channel
  descends_from zero a current root = none
  descends_from (suc fuel) a current root =
      let above = λ (parent : ℕ). descends_from fuel a parent root in
      if current == root then some true else elim (visible_channel a current) [
        | none ↦ some false
        | some rendered ↦ if rendered.parent == current then some false else above rendered.parent
      ]

  -- `find(|channel| channel.key == key)`
  unfoldable pub with_key : ℕ → List Channel → Option ℕ
  with_key key [] = none
  with_key key (ch ∷ channels) =
      let later = with_key key channels in if ch.key == key then some ch.id else later

  unfoldable pub channel_of : IdAllocator → ℕ → ℕ → Option ℕ
  unfolding with_key allocated_channel
  channel_of ids shard key =
      or_from (with_key key (values view.channels)) (allocated_channel ids shard key)

  abbrev pub aimed : (ℕ → TextTarget) → Option ℕ → Option TextTarget
  aimed f none = none
  aimed f (some id) = some (f id)

  unfoldable pub resolve_audience : IdAllocator → ℕ → Audience → Option TextTarget
  unfolding allocated_session channel_of
  resolve_audience ids shard (for_user who) = aimed to_session (allocated_session ids who)
  resolve_audience ids shard (for_channel key) = aimed to_channel (channel_of ids shard key)
  resolve_audience ids shard (for_tree key) = aimed to_tree (channel_of ids shard key)

  -- A command that names a connection which is not attached is dropped.
  unfoldable pub handle : Assoc ℕ (AttachedConnection c) → ℕ → Request → Handled
  unfolding get requested invoked say
  handle connections id request = elim (get connections id) [
    | none ↦ dropped
    | some a ↦ elim request [
      | ask_channel channel ↦ requested a channel
      | ask_self_state self_mute self_deaf ↦ told (requested_self_state id self_mute self_deaf)
      | invoke action session channel ↦ invoked a action session channel
      | speak to message ↦ say a to message
    ]
  ]
